-- ===== src/Reconcile/Exits.antt =====
-- What `reconcileOne` of internal/runtime/container/reconcile.go does about a task that exited.
use selfcloud.Base.{String, ◌≡◌, refl, ap, true, false, Option, none, arith, Error, ok}
use selfcloud.Store.Types.{Container, phase_eq, phase_stopped}
use selfcloud.Store.Deps.{Deps, container_scoped}
use selfcloud.Store.Core.{Store}
use selfcloud.Store.Scoped.{Mint}
use selfcloud.Store.RoundTrip.{get-put_scoped}
use selfcloud.Store.Typed.{put_container, get_container}
use selfcloud.Reconcile.State.{
  World, Surroundings, container_key, state_of, set_state, should_restart, should_verify_alive,
  is_running,
}
use selfcloud.Reconcile.One.{
  is_skipped, is_settled, exited, task_exited, verify_alive, reconcile_mine, reconcile_one,
}

stopped_skipped :
    (node : String) (c : Container)
    → c.status.status.phase ≡ phase_stopped
    → is_skipped node c ≡ true
unfolding is_skipped phase_eq
stopped_skipped node c stopped = simp stopped (ground arith)

module _ {d : Deps} where
  -- When the task of a settled container of this node has exited, a look at it is due, and its
  -- policy is not to restart it, then, if the write succeeds and the database can be read, nothing
  -- is started, the stored container becomes stopped, and no later call of `reconcileOne` does
  -- anything with that container.
  pub exit_without_restart :
      (env : Surroundings) (mt : Mint) (node : String) (c c' : Container) (w : World d)
      (s' : Store d)
      → is_skipped node c ≡ false
      → is_settled c (state_of w (container_key c)) ≡ true
      → should_verify_alive (state_of w (container_key c)) env.now ≡ true
      → is_running env c ≡ false
      → should_restart c.restart_policy ≡ false
      → put_container w.store mt (exited env c) ≡ (s', c', none)
      → d.bolt.begin_error s'.db ≡ none
      → ((reconcile_one env mt node c w).store ≡ s')
        × ((reconcile_one env mt node c w).starts ≡ w.starts)
        × (get_container s' c'.meta.project c'.meta.name ≡ ok c')
        × (c'.status.status.phase ≡ phase_stopped)
        × ((later : Surroundings) (mint : Mint) (at : String) (w' : World d)
            → reconcile_one later mint at c' w' ≡ w')
  unfolding reconcile_mine verify_alive task_exited set_state put_container get_container exited
      reconcile_one
  exit_without_restart env mt node c c' w s' mine settled due gone policy written opens =
      let (same, read) =
        get-put_scoped container_scoped d.container_json w.store s' "containers" _ mt (exited env c)
          c' written opens in
      let stopped : c'.status.status.phase ≡ phase_stopped = rw same refl in
      (
        rw (mine, settled, due, gone, policy)
            (ap (λ (x : Store d × Container × Option Error). x.0) written),
        rw (mine, settled, due, gone, policy) refl,
        read,
        stopped,
        λ later mint at w'. rw (stopped_skipped at c' stopped) refl,
      )
