-- ===== src/Reconcile/Running.antt =====
-- What `reconcileOne` of internal/runtime/container/reconcile.go leaves alone once it was started.
use selfcloud.Base.{
  ℕ, Bool-cases, inl, inr, All, List, [], ◌∷◌, String, ◌≡◌, refl, ap, subst₂, ◌∙◌, true, false,
  ◌&&◌, arith, ltb, ok,
}
use selfcloud.Store.Types.{Container, ContainerStatus, phase_eq, phase_running, phase_failed}
use selfcloud.Store.Deps.{Deps}
use selfcloud.Store.Scoped.{Mint}
use selfcloud.Reconcile.State.{
  ReconcileState, World, Surroundings, container_key, state_of, set_state, is_running,
  should_verify_alive,
}
use selfcloud.Reconcile.Step.{prepare}
use selfcloud.Reconcile.One.{
  is_skipped, is_settled, start_succeeded, conclude, attempt, verify_alive, reconcile_mine,
  reconcile_one,
}
use selfcloud.Reconcile.Quiet.{
  IsQuiet, IsQuiet-trans, Call, reconcile_calls, kept_parts, state_of-set_state, attempt_lem,
}

-- a later call for the container as it was stored, while the runtime reports it running
abbrev pub IsAlive : String → ℕ → Call → Type 0
IsAlive key generation x =
    (container_key x.container ≡ key)
    × (x.container.meta.generation ≡ generation)
    × (x.container.status.status.phase ≡ phase_running)
    × (is_running x.env x.container ≡ true)

module _ {d : Deps} where
  -- the container was started at a generation
  abbrev IsStarted : String → ℕ → World d → Type 0
  IsStarted key generation w =
      ((state_of w key).started_ok ≡ true) × ((state_of w key).last_gen ≡ generation)

  set_state-IsStarted :
      (w : World d) (key : String) (generation : ℕ) (st : ReconcileState)
      → st.started_ok ≡ true
      → st.last_gen ≡ generation
      → IsQuiet w (set_state w key st) × IsStarted key generation (set_state w key st)
  unfolding set_state
  set_state-IsStarted w key generation st ok' same =
      let e = state_of-set_state w key st in
      ((refl, refl, refl), (ap (λ x. x.started_ok) e ∙ ok', ap (λ x. x.last_gen) e ∙ same))

  -- a container that was started, and that the runtime reports as running
  running-IsQuiet :
      (env : Surroundings) (mt : Mint) (node : String) (c : Container) (w : World d)
      → IsStarted (container_key c) c.meta.generation w
      → c.status.status.phase ≡ phase_running
      → is_running env c ≡ true
      → IsQuiet w (reconcile_one env mt node c w)
        × IsStarted (container_key c) c.meta.generation (reconcile_one env mt node c w)
  unfolding reconcile_one reconcile_mine verify_alive is_settled phase_eq
  running-IsQuiet env mt node c w (started, same) phase running =
      let settled : is_settled c (state_of w (container_key c)) ≡ true =
        simp (started, same, phase) (ground arith) in
      elim (Bool-cases (is_skipped node c)) [
        | inl x ↦ rw x ((refl, refl, refl), (started, same))
        | inr x ↦
            rw (x, settled)
              (elim (Bool-cases (should_verify_alive (state_of w (container_key c)) env.now)) [
                | inl y ↦
                    rw (y, running)
                      (set_state-IsStarted w (container_key c) c.meta.generation
                        (record (state_of w (container_key c)) { last_alive_check = env.now })
                        started same)
                | inr y ↦ rw y (
                    set_state-IsStarted w (container_key c) c.meta.generation
                      (state_of w (container_key c)) started same)
              ])
      ]

  runs_throughout :
      (node key : String) (generation : ℕ) (xs : List Call) (w : World d)
      → IsStarted key generation w
      → All (IsAlive key generation) xs
      → IsQuiet w (reconcile_calls node xs w)
  unfolding reconcile_calls
  runs_throughout node key generation [] w started a = (refl, refl, refl)
  runs_throughout node key generation (x ∷ xs) w started
        ((same, generation_same, phase, running), a) =
      let (quiet, started') =
        running-IsQuiet x.env x.mint node x.container w (rw (same, generation_same) started) phase
          running in
      let w' = reconcile_one x.env x.mint node x.container w in
      IsQuiet-trans w w' (reconcile_calls node xs w') quiet (
        runs_throughout node key generation xs w'
          (subst₂ (λ k g. IsStarted k g w') same generation_same started') a)

  succeeded-IsStarted :
      (env : Surroundings) (mt : Mint) (node : String) (c : Container) (key : String)
      (st : ReconcileState) (out : ContainerStatus) (w : World d) (generation : ℕ)
      → c.meta.generation ≡ generation
      → IsStarted key generation (start_succeeded env mt node c key st out w)
  unfolding start_succeeded
  succeeded-IsStarted env mt node c key st out w generation same =
      rw state_of-set_state (refl, same)

  -- After a start of a container of this node that was due and not settled, and that succeeds, the
  -- container, stored at the generation it was started at and as running, is left alone in every
  -- sequence of later calls for it, for as long as the runtime reports it running.
  pub started_stays :
      (env : Surroundings) (mt : Mint) (node : String) (c : Container) (w : World d)
      (out : ContainerStatus) (later : List Call)
      → is_skipped node c ≡ false
      → is_settled c (state_of w (container_key c)) ≡ false
      → phase_eq c.status.status.phase phase_failed
          && ltb env.now (state_of w (container_key c)).next_attempt
        ≡ false
      → env.start (prepare env c).work ≡ ok out
      → All (IsAlive (container_key c) c.meta.generation) later
      → IsQuiet
          (reconcile_one env mt node c w)
          (reconcile_calls node later (reconcile_one env mt node c w))
  unfolding attempt conclude
  started_stays env mt node c w out later mine unsettled due starts alive =
      runs_throughout node (container_key c) c.meta.generation later (reconcile_one env mt node c w)
        (rw (attempt_lem env mt node c w mine unsettled due, starts)
          (succeeded-IsStarted env mt node (prepare env c).kept (container_key c)
            (record (state_of w (container_key c)) { last_attempt = env.now }) out _
            c.meta.generation (ap (λ m. m.generation) (kept_parts env c).0)))
        alive
