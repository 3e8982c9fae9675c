-- ===== src/Examples/Converging.antt =====
-- The theorems about internal/runtime/container/reconcile.go at a store with one container.
use selfcloud.Base.{
  List, arith, ◌*◌, ◌≡◌, refl, true, false, Option, none, some, [], ◌∷◌, ◌++◌, lookup, Error,
  message, ok, err,
}
use selfcloud.Store.Types.{
  no_status, phase_running, phase_failed, Container, ContainerStatus, SecretMount, restart_never,
  kind_container,
}
use selfcloud.Store.Deps.{container_scoped}
use selfcloud.Store.Core.{Store}
use selfcloud.Store.Scoped.{Mint}
use selfcloud.Store.RoundTrip.{put_event}
use selfcloud.Store.Typed.{get_container, put_container}
use selfcloud.Reconcile.State.{
  World, Surroundings, SecretResolver, ReconcileState, five_minutes, second, backoff_after,
  container_key, state_of,
}
use selfcloud.Reconcile.Step.{prepare}
use selfcloud.Reconcile.One.{exited, reconcile_one}
use selfcloud.Reconcile.Run.{Turn, handle, on_event}
use selfcloud.Reconcile.Quiet.{IsQuiet, Call, reconcile_calls, failed_start_waits}
use selfcloud.Reconcile.Running.{started_stays}
use selfcloud.Reconcile.Rewrite.{observed, starts_again}
use selfcloud.Reconcile.Plaintext.{failed_container, reconcile_one-leaks}
use selfcloud.Examples.Memory.{memory}
use selfcloud.Examples.Stores.{no_container_status, first_mint, put_web}

abbrev world : World memory
world = record {
  store = put_web.0;
  states = [];
  starts = [];
  emitted = [];
  published = [];
  staged = [];
}

abbrev running_status : ContainerStatus
running_status = record no_container_status { status = record no_status { phase = phase_running } }

-- a node where every start fails, and one where every start succeeds
abbrev failing : Surroundings
failing = record {
  start = λ c. err (message "no image");
  is_running = some (λ c. ok false);
  error_text = λ e. "no image";
  itoa = λ n. "n";
  secrets = none;
  has_bus = true;
  has_net = false;
  now = 100 * second;
}

abbrev working : Surroundings
working = record failing { start = λ c. ok running_status; is_running = some (λ c. ok true) }

-- the stored container, and the one that was stored as failed or as running
abbrev stored : Container
stored = put_web.1

abbrev failed : Container
failed = record stored {
  status = record no_container_status { status = record no_status { phase = phase_failed } };
}

abbrev running : Container
running = record stored { status = running_status; node_id = "n1" }

-- two calls while the container waits, and one with a runtime that could start it
abbrev waiting : List Call
waiting =
    record { env = record failing { now = 101 * second }; mint = first_mint; container = failed }
    ∷ record { env = record working { now = 104 * second }; mint = first_mint; container = failed }
    ∷ []

failed_start_waits_example :
    IsQuiet
      (reconcile_one failing first_mint "n1" stored world)
      (reconcile_calls "n1" waiting (reconcile_one failing first_mint "n1" stored world))
unfolding selfcloud.Reconcile.One.is_skipped selfcloud.Store.Scoped.put_scoped
    selfcloud.Store.Core.put selfcloud.Reconcile.One.is_settled state_of container_key backoff_after
failed_start_waits_example =
    failed_start_waits failing first_mint "n1" stored world (message "no image") waiting refl refl
      refl refl ((refl, refl, omega arith), ((refl, refl, omega arith), tt))

-- two calls while the container runs, the second late enough that the runtime is asked
abbrev checking : List Call
checking =
    record { env = working; mint = first_mint; container = running }
    ∷ record { env = record working { now = 200 * second }; mint = first_mint; container = running }
    ∷ []

started_stays_example :
    IsQuiet
      (reconcile_one working first_mint "n1" running world)
      (reconcile_calls "n1" checking (reconcile_one working first_mint "n1" running world))
unfolding selfcloud.Reconcile.One.is_skipped selfcloud.Reconcile.One.is_settled state_of
    selfcloud.Reconcile.State.is_running
started_stays_example =
    started_stays working first_mint "n1" running world running_status checking refl refl refl refl
      ((refl, refl, refl, refl), ((refl, refl, refl, refl), tt))

abbrev second_mint : Mint
second_mint = record { uid = "u2"; created = 200; updated = 201 }

abbrev observe : Store memory × Container × Option Error
observe = put_container put_web.0 second_mint (observed working "n1" stored running_status)

observe_ok : observe ≡ (observe.0, observe.1, none)
unfolding put_container selfcloud.Store.Scoped.put_scoped prepare selfcloud.Store.Core.put
    selfcloud.Store.Core.emit
observe_ok = refl

abbrev turn : Turn
turn = record { env = working; mint = second_mint }

starts_again_example :
    (handle "n1" (reconcile_one working second_mint "n1" stored world) (
      on_event turn (
        put_event container_scoped kind_container second_mint
          (observed working "n1" stored running_status)))).starts
    ≡ (world.starts ++ (prepare working stored).work ∷ []) ++ (prepare working observe.1).work ∷ []
unfolding selfcloud.Reconcile.One.is_skipped selfcloud.Store.Scoped.put_scoped
    selfcloud.Store.Core.put selfcloud.Reconcile.One.is_settled state_of
    selfcloud.Reconcile.One.has_changed prepare
starts_again_example =
    starts_again working turn second_mint "n1" stored observe.1 world observe.0 running_status refl
      refl refl refl refl refl refl observe_ok refl

-- a world where the container was started, and a policy that does not restart it
abbrev once : Container
once = record running { restart_policy = restart_never }

abbrev started_world : World memory
started_world = reconcile_one working first_mint "n1" once world

abbrev stop : Store memory × Container × Option Error
stop = put_container started_world.store second_mint (exited failing once)

stop_ok : stop ≡ (stop.0, stop.1, none)
unfolding put_container selfcloud.Store.Scoped.put_scoped exited selfcloud.Store.Core.put
    reconcile_one selfcloud.Store.Core.emit
stop_ok = refl

-- secrets that are revealed, with references that resolve or not
abbrev revealing : SecretResolver
revealing = record { resolve = λ p m. ok m; reveal = λ p n. ok "hunter2" }

abbrev unresolved : SecretResolver
unresolved = record { resolve = λ p m. err (message "resolve"); reveal = λ p n. ok "hunter2" }

abbrev mount : SecretMount
mount = record { secret = "db"; env_name = "DB_PASSWORD"; mount_path = "" }

abbrev mounting : Container
mounting = record stored { env = ("REF", "secret://gone") ∷ []; secret_mounts = mount ∷ [] }

abbrev leaking : Surroundings
leaking = record failing { secrets = some unresolved }

abbrev leak : Store memory × Container × Option Error
leak =
    put_container world.store second_mint (failed_container leaking mounting (message "no image"))

leak_ok : leak ≡ (leak.0, leak.1, none)
unfolding put_container selfcloud.Store.Scoped.put_scoped prepare selfcloud.Store.Core.put
    selfcloud.Store.Core.emit
leak_ok = refl

reconcile_one-leaks_example :
    (get_container
        (reconcile_one leaking second_mint "n1" mounting world).store
        leak.1.meta.project
        leak.1.meta.name
      ≡ ok leak.1)
    × (lookup "DB_PASSWORD" leak.1.env ≡ some "hunter2")
unfolding selfcloud.Reconcile.One.is_skipped selfcloud.Store.Scoped.put_scoped
    selfcloud.Store.Core.put selfcloud.Reconcile.One.is_settled state_of
    selfcloud.Reconcile.Step.same_failure
reconcile_one-leaks_example =
    reconcile_one-leaks leaking second_mint "n1" mounting leak.1 world leak.0 unresolved
      ("REF", "secret://gone") [] mount (message "resolve") (message "no image") "hunter2" refl refl
      refl refl refl refl refl refl refl refl refl leak_ok refl
