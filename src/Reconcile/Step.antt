-- ===== src/Reconcile/Step.antt =====
-- internal/runtime/container/reconcile.go: `reconcileOne`.
use selfcloud.Base.{
  ℕ, ◌+◌, String, Bool, true, false, not, ◌&&◌, none, some, List, [], ◌∷◌, ◌++◌, map, str_eq, Error,
  ok, err, if◌then◌else◌,
}
use selfcloud.Store.Types.{
  StringMap, Container, ContainerStatus, SecretMount, PortMapping, phase_eq, phase_failed,
  EventRecord,
}
use selfcloud.Store.Ordered.{insert_sorted}
use selfcloud.Store.Deps.{Deps}
use selfcloud.Store.Core.{Store}
use selfcloud.Store.Scoped.{Mint}
use selfcloud.Store.Typed.{put_container}
use selfcloud.Reconcile.State.{
  ReconcileState, World, Surroundings, SecretResolver, StagedFile, PortPublish, set_state,
  backoff_after,
}

-- the loop over the mounts that have a variable: the names and plaintexts that are revealed
unfoldable pub env_mounts : SecretResolver → String → List SecretMount → List (String × String)
env_mounts sr project [] = []
env_mounts sr project (sm ∷ sms) =
    let rest = env_mounts sr project sms in
    if str_eq sm.env_name ""
    then rest
    else elim (sr.reveal project sm.secret) [ ok pt ↦ (sm.env_name, pt) ∷ rest | err e ↦ rest ]

-- the loop over the mounts that have a path: the files that are staged
unfoldable pub file_mounts : SecretResolver → String → List SecretMount → List StagedFile
file_mounts sr project [] = []
file_mounts sr project (sm ∷ sms) =
    let rest = file_mounts sr project sms in
    if str_eq sm.mount_path "" then rest else elim (sr.reveal project sm.secret) [
      | ok pt ↦ record { mount_path = sm.mount_path; plaintext = pt } ∷ rest
      | err e ↦ rest
    ]

-- the writes `cWork.Env[sm.EnvName] = pt`
unfoldable pub inject : List (String × String) → StringMap → StringMap
unfolding insert_sorted
inject [] m = m
inject ((k, v) ∷ mounts) m = inject mounts (insert_sorted k v m)

-- The working copy, the container that is persisted later, and the staged files. The copy is
-- shallow: where `Resolve` fails, the two share one map, unless that map is nil.
pub record Prepared : Type 0 where
  pub work : Container
  pub kept : Container
  pub files : List StagedFile

unfoldable pub share : StringMap → Container → List (String × String) → Container
unfolding inject
share [] c mounts = c
share (e ∷ es) c mounts = record c { env = inject mounts (e ∷ es) }

unfoldable pub shared_env : Container → List (String × String) → Container
unfolding share
shared_env c mounts = share c.env c mounts

unfoldable pub prepare_with : SecretResolver → Container → Prepared
unfolding env_mounts file_mounts inject shared_env
prepare_with sr c =
    let mounts = env_mounts sr c.meta.project c.secret_mounts in
    let files = file_mounts sr c.meta.project c.secret_mounts in
    elim (sr.resolve c.meta.project c.env) [
      | ok resolved ↦ record {
        work = record c { env = inject mounts resolved };
        kept = c;
        files = files;
      }
      | err e ↦ record {
        work = record c { env = inject mounts c.env };
        kept = shared_env c mounts;
        files = files;
      }
    ]

unfoldable pub prepare : Surroundings → Container → Prepared
unfolding prepare_with
prepare env c = elim env.secrets [
  | none ↦ record { work = c; kept = c; files = [] }
  | some sr ↦ prepare_with sr c
]

abbrev pub container_event : String → Container → StringMap → EventRecord
container_event event_type c fields = record {
  uid = "";
  event_type = event_type;
  project = c.meta.project;
  subject = c.meta.name;
  at = 0;
  fields = fields;
  body = [];
}

unfoldable pub crash_event : Surroundings → Container → Error → ℕ → EventRecord
crash_event env c e attempts = container_event "container.crash" c (
    ("attempts", env.itoa attempts)
    ∷ ("error", env.error_text e)
    ∷ ("image", c.image)
    ∷ ("name", c.meta.name)
    ∷ [])

unfoldable pub start_event : Container → EventRecord
start_event c =
    container_event "container.start" c (("image", c.image) ∷ ("name", c.meta.name) ∷ [])

unfoldable pub emit_if : Bool → EventRecord → List EventRecord → List EventRecord
emit_if true ev evs = evs ++ ev ∷ []
emit_if false ev evs = evs

-- the status of a container whose start failed, and of one that exited
unfoldable pub failed_status : Surroundings → Error → ContainerStatus
failed_status env e = record {
  status = record {
    phase = phase_failed;
    note = env.error_text e;
    node_id = "";
    updated_at = env.now;
  };
  containerd_id = "";
  started_at = 0;
  exit_code = 0;
  ip_address = "";
  image = "";
}

-- whether the failure is already the container's status
unfoldable pub same_failure : Surroundings → Container → Error → Bool
unfolding phase_eq
same_failure env c e =
    phase_eq c.status.status.phase phase_failed && str_eq c.status.status.note (env.error_text e)

-- the calls of `Publish`
unfoldable pub published_ports : Surroundings → Container → ContainerStatus → List PortPublish
published_ports env c out =
    if env.has_net && not (str_eq out.ip_address "")
    then map
        (λ (p : PortMapping). record {
          host = p.host;
          container = p.container;
          protocol = p.protocol;
          ip_address = out.ip_address;
        })
        c.ports
    else []

module _ {d : Deps} where
  -- `_ = r.st.PutContainer(ctx, c)`
  unfoldable pub persist : Bool → Mint → Container → Store d → Store d
  persist true mt c s = (put_container s mt c).0
  persist false mt c s = s

  unfoldable pub start_failed :
      Surroundings → Mint → Container → String → ReconcileState → Error → World d → World d
  unfolding failed_status same_failure crash_event emit_if persist set_state
  start_failed env mt c key st e w =
      let attempts = st.attempts + 1 in
      set_state
        (record w {
          store =
              persist (not (same_failure env c e)) mt (record c { status = failed_status env e })
                w.store;
          emitted = emit_if env.has_bus (crash_event env c e attempts) w.emitted;
        })
        key
        (record st {
          attempts = attempts;
          started_ok = false;
          next_attempt = env.now + backoff_after attempts;
        })
