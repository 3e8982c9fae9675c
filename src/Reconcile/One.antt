-- ===== src/Reconcile/One.antt =====
-- internal/runtime/container/reconcile.go: the rest of `reconcileOne`, and the loop that calls it.
use selfcloud.Base.{
  String, ◌<>◌, Bool, true, false, not, ◌&&◌, ◌||◌, [], ◌∷◌, ◌++◌, str_eq, ltb, ◌==◌, Result,
  if◌then◌else◌,
}
use selfcloud.Store.Types.{
  Container, ContainerStatus, policy_text, phase_eq, phase_running, phase_failed, phase_stopped,
}
use selfcloud.Store.Deps.{Deps}
use selfcloud.Store.Scoped.{Mint}
use selfcloud.Store.Typed.{put_container}
use selfcloud.Reconcile.State.{
  ReconcileState, World, Surroundings, container_key, state_of, set_state, should_restart,
  should_verify_alive, is_running,
}
use selfcloud.Reconcile.Step.{prepare, start_event, emit_if, persist, start_failed, published_ports}

-- whether the observed status is worth a write
unfoldable pub has_changed : Container → ContainerStatus → String → Bool
unfolding phase_eq
has_changed c out node =
    not (phase_eq c.status.status.phase out.status.phase) || not (str_eq c.node_id node)

-- the status of a container that exited and is not brought back
unfoldable pub exited : Surroundings → Container → Container
exited env c = record c {
  status = record c.status {
    status = record c.status.status {
      phase = phase_stopped;
      note = "exited (restartPolicy=" <> policy_text c.restart_policy <> ")";
      updated_at = env.now;
    };
  };
}

unfoldable pub is_settled : Container → ReconcileState → Bool
unfolding phase_eq
is_settled c st =
    st.started_ok
    && st.last_gen == c.meta.generation
    && phase_eq c.status.status.phase phase_running

unfoldable pub is_skipped : String → Container → Bool
unfolding phase_eq
is_skipped node c =
    (not (str_eq c.node_id "") && not (str_eq c.node_id node))
    || phase_eq c.status.status.phase phase_stopped

module _ {d : Deps} where
  unfoldable pub start_succeeded :
      Surroundings
      → Mint
      → String
      → Container
      → String
      → ReconcileState
      → ContainerStatus
      → World d
      → World d
  unfolding has_changed persist start_event emit_if published_ports set_state
  start_succeeded env mt node c key st out w =
      set_state
        (record w {
          store =
              persist (has_changed c out node) mt (record c { status = out; node_id = node })
                w.store;
          emitted = emit_if (env.has_bus && not st.started_ok) (start_event c) w.emitted;
          published = w.published ++ published_ports env c out;
        })
        key (record st { attempts = 0; started_ok = true; last_gen = c.meta.generation })

  -- from `cWork := *c` on, after the call of `Start`
  unfoldable pub conclude :
      Surroundings
      → Mint
      → String
      → Container
      → String
      → ReconcileState
      → Result ContainerStatus
      → World d
      → World d
  unfolding start_failed start_succeeded
  conclude env mt node c key st (Result.ok out) w = start_succeeded env mt node c key st out w
  conclude env mt node c key st (Result.err e) w = start_failed env mt c key st e w

  unfoldable pub attempt :
      Surroundings → Mint → String → Container → String → ReconcileState → World d → World d
  unfolding conclude prepare
  attempt env mt node c key st w =
      let p = prepare env c in
      conclude env mt node p.kept key (record st { last_attempt = env.now }) (env.start p.work)
        (record w { starts = w.starts ++ p.work ∷ []; staged = w.staged ++ p.files })

  -- the wait after a failed start
  unfoldable pub start_path :
      Surroundings → Mint → String → Container → String → ReconcileState → World d → World d
  unfolding attempt phase_eq set_state
  start_path env mt node c key st w =
      if phase_eq c.status.status.phase phase_failed && ltb env.now st.next_attempt
      then set_state w key st
      else attempt env mt node c key st w

  -- the runtime no longer has the task
  unfoldable pub task_exited :
      Surroundings → Mint → String → Container → String → ReconcileState → World d → World d
  unfolding should_restart start_path exited set_state
  task_exited env mt node c key st w =
      if should_restart c.restart_policy
      then start_path env mt node c key (record st { started_ok = false }) w
      else set_state (record w { store = (put_container w.store mt (exited env c)).0 }) key
          (record st { started_ok = false })

  -- a container that was started at this generation, and that runs
  unfoldable pub verify_alive :
      Surroundings → Mint → String → Container → String → ReconcileState → World d → World d
  unfolding should_verify_alive is_running task_exited set_state
  verify_alive env mt node c key st w =
      let st' : ReconcileState = record st { last_alive_check = env.now } in
      if should_verify_alive st env.now
      then if is_running env c then set_state w key st' else task_exited env mt node c key st' w
      else set_state w key st

  unfoldable pub reconcile_mine :
      Surroundings → Mint → String → Container → String → ReconcileState → World d → World d
  unfolding is_settled verify_alive start_path
  reconcile_mine env mt node c key st w =
      if is_settled c st
      then verify_alive env mt node c key st w
      else start_path env mt node c key st w

  -- `reconcileOne`
  unfoldable pub reconcile_one : Surroundings → Mint → String → Container → World d → World d
  unfolding is_skipped reconcile_mine container_key state_of
  reconcile_one env mt node c w =
      if is_skipped node c
      then w
      else reconcile_mine env mt node c (container_key c) (state_of w (container_key c)) w
