-- ===== src/Reconcile/Again.antt =====
-- The writes of `reconcileOne` of internal/runtime/container/reconcile.go, and what follows from
-- the events they cause.
use selfcloud.Base.{
  ℕ, String, ◌≡◌, ◌≢◌, ◌⊎◌, inl, inr, refl, false, [], ◌∷◌, ◌++◌, arith, Result, ok, err,
  Bool-cases,
}
use selfcloud.Store.Types.{Container, ContainerStatus}
use selfcloud.Store.Deps.{Deps}
use selfcloud.Store.Scoped.{Mint, next_generation}
use selfcloud.Reconcile.State.{
  ReconcileState, World, Surroundings, container_key, state_of, set_state, is_running,
  should_restart, should_verify_alive,
}
use selfcloud.Reconcile.Step.{prepare, start_failed}
use selfcloud.Reconcile.One.{
  is_skipped, is_settled, start_succeeded, conclude, attempt, start_path, task_exited, verify_alive,
  reconcile_mine, reconcile_one,
}
use selfcloud.Reconcile.Quiet.{state_of-set_state}

next_generation-fresh : (g : ℕ) → next_generation g ≢ g
unfolding next_generation
next_generation-fresh g h = omega arith

module _ {d : Deps} where
  conclude-starts :
      (env : Surroundings) (mt : Mint) (node : String) (c : Container) (key : String)
      (st : ReconcileState) (r : Result ContainerStatus) (w : World d)
      → (conclude env mt node c key st r w).starts ≡ w.starts
  unfolding conclude start_failed start_succeeded set_state
  conclude-starts env mt node c key st (ok out) w = refl
  conclude-starts env mt node c key st (err e) w = refl

  pub attempt-starts :
      (env : Surroundings) (mt : Mint) (node : String) (c : Container) (key : String)
      (st : ReconcileState) (w : World d)
      → (attempt env mt node c key st w).starts ≡ w.starts ++ (prepare env c).work ∷ []
  unfolding attempt
  attempt-starts env mt node c key st w =
      conclude-starts env mt node (prepare env c).kept key (record st { last_attempt = env.now })
        (env.start (prepare env c).work)
        (record w {
          starts = w.starts ++ (prepare env c).work ∷ [];
          staged = w.staged ++ (prepare env c).files;
        })

  start_path-starts :
      (env : Surroundings) (mt : Mint) (node : String) (c : Container) (key : String)
      (st : ReconcileState) (w : World d)
      → ((start_path env mt node c key st w).starts ≡ w.starts)
        ⊎ ((start_path env mt node c key st w).starts ≡ w.starts ++ (prepare env c).work ∷ [])
  unfolding start_path set_state
  start_path-starts env mt node c key st w = ground (arith, attempt-starts env mt node c key st w)

  task_exited-starts :
      (env : Surroundings) (mt : Mint) (node : String) (c : Container) (key : String)
      (st : ReconcileState) (w : World d)
      → ((task_exited env mt node c key st w).starts ≡ w.starts)
        ⊎ ((task_exited env mt node c key st w).starts ≡ w.starts ++ (prepare env c).work ∷ [])
  unfolding task_exited set_state
  task_exited-starts env mt node c key st w = elim (Bool-cases (should_restart c.restart_policy)) [
    | inl h ↦ rw h (start_path-starts env mt node c key (record st { started_ok = false }) w)
    | inr h ↦ rw h (inl refl)
  ]

  verify_alive-starts :
      (env : Surroundings) (mt : Mint) (node : String) (c : Container) (key : String)
      (st : ReconcileState) (w : World d)
      → ((verify_alive env mt node c key st w).starts ≡ w.starts)
        ⊎ ((verify_alive env mt node c key st w).starts ≡ w.starts ++ (prepare env c).work ∷ [])
  unfolding verify_alive set_state
  verify_alive-starts env mt node c key st w = elim (Bool-cases (should_verify_alive st env.now)) [
    | inr h ↦ rw h (inl refl)
    | inl h ↦ elim (Bool-cases (is_running env c)) [
      | inl r ↦ rw (h, r) (inl refl)
      | inr r ↦
          rw (h, r)
            (task_exited-starts env mt node c key (record st { last_alive_check = env.now }) w)
    ]
  ]

  -- One call of `reconcileOne` calls the runtime's `Start` at most once, for this container.
  pub reconcile_one-starts :
      (env : Surroundings) (mt : Mint) (node : String) (c : Container) (w : World d)
      → ((reconcile_one env mt node c w).starts ≡ w.starts)
        ⊎ ((reconcile_one env mt node c w).starts ≡ w.starts ++ (prepare env c).work ∷ [])
  unfolding reconcile_one reconcile_mine
  reconcile_one-starts env mt node c w =
      let key = container_key c in
      let st : ReconcileState = state_of w key in
      elim (Bool-cases (is_skipped node c)) [
        | inl h ↦ rw h (inl refl)
        | inr h ↦ elim (Bool-cases (is_settled c st)) [
          | inl r ↦ rw (h, r) (verify_alive-starts env mt node c key st w)
          | inr r ↦ rw (h, r) (start_path-starts env mt node c key st w)
        ]
      ]

  pub written_unsettled :
      (env : Surroundings) (mt : Mint) (node : String) (c : Container) (key : String)
      (st : ReconcileState) (out : ContainerStatus) (w : World d) (c' : Container)
      → c'.meta.generation ≡ next_generation c.meta.generation
      → is_settled c' (state_of (start_succeeded env mt node c key st out w) key) ≡ false
  unfolding start_succeeded is_settled
  written_unsettled env mt node c key st out w c' next =
      rw (state_of-set_state, next) (ground (arith, next_generation-fresh c.meta.generation))
