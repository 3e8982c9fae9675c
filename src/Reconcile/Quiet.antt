-- ===== src/Reconcile/Quiet.antt =====
-- When `reconcileOne` of internal/runtime/container/reconcile.go calls the runtime, and when not.
use selfcloud.Base.{
  ◌+◌, ◌<◌, Bool-cases, inl, inr, All, List, [], ◌∷◌, String, ◌≡◌, refl, ap, ◌∙◌, true, false, ◌&&◌,
  arith, lookup-insert, str_eq_refl, ltb, Error, err,
}
use selfcloud.Store.Types.{Time, Container, phase_eq, phase_failed}
use selfcloud.Store.Deps.{Deps}
use selfcloud.Store.Scoped.{Mint}
use selfcloud.Reconcile.State.{
  ReconcileState, World, Surroundings, container_key, state_of, set_state, backoff_after,
  is_running, should_verify_alive,
}
use selfcloud.Reconcile.Step.{prepare, shared_env, prepare_with, start_failed}
use selfcloud.Reconcile.One.{
  is_skipped, is_settled, conclude, attempt, start_path, reconcile_mine, reconcile_one,
}

-- the two worlds differ at most in the reconciler's own states
abbrev pub IsQuiet : {d : Deps} → World d → World d → Type 0
IsQuiet w w' = (w'.starts ≡ w.starts) × (w'.store ≡ w.store) × (w'.emitted ≡ w.emitted)

-- the container that is persisted differs at most in its environment
pub kept_parts :
    (env : Surroundings) (c : Container)
    → ((prepare env c).kept.meta ≡ c.meta)
      × ((prepare env c).kept.status ≡ c.status)
      × ((prepare env c).kept.node_id ≡ c.node_id)
unfolding prepare prepare_with shared_env
kept_parts env c = ground arith

-- one call of `reconcileOne`: what it meets, what a write mints, and the container
pub record Call : Type 0 where
  pub env : Surroundings
  pub mint : Mint
  pub container : Container

-- calls one after the other
unfoldable pub reconcile_calls : {d : Deps} → String → List Call → World d → World d
reconcile_calls node [] w = w
reconcile_calls node (x ∷ xs) w =
    reconcile_calls node xs (reconcile_one x.env x.mint node x.container w)

-- a later call for the container, while it is stored as failed and before a time
abbrev pub IsEarly : String → Time → Call → Type 0
IsEarly key until x =
    (container_key x.container ≡ key)
    × (x.container.status.status.phase ≡ phase_failed)
    × (x.env.now < until)

unsettled_of_failed :
    (c : Container) (st : ReconcileState)
    → c.status.status.phase ≡ phase_failed
    → is_settled c st ≡ false
unfolding is_settled phase_eq
unsettled_of_failed c st failed = simp failed (ground arith)

waiting_of_failed :
    (c : Container)
    → c.status.status.phase ≡ phase_failed
    → phase_eq c.status.status.phase phase_failed ≡ true
unfolding phase_eq
waiting_of_failed c failed = simp failed refl

pub IsQuiet-trans : {d : Deps} (u v w : World d) → IsQuiet u v → IsQuiet v w → IsQuiet u w
IsQuiet-trans u v w a b = (b.0 ∙ a.0, b.1 ∙ a.1, b.2 ∙ a.2)

module _ {d : Deps} where
  pub state_of-set_state :
      (w : World d) (key : String) (st : ReconcileState) → state_of (set_state w key st) key ≡ st
  unfolding state_of set_state selfcloud.Reconcile.State.state_or_fresh
  state_of-set_state w key st = rw (lookup-insert key key st w.states, str_eq_refl key) refl

  -- the rest of a call, after the skip and the lookup of the state
  pub reconcile_mine_lem :
      (env : Surroundings) (mt : Mint) (node : String) (c : Container) (w : World d)
      → is_skipped node c ≡ false
      → reconcile_one env mt node c w
        ≡ reconcile_mine env mt node c (container_key c) (state_of w (container_key c)) w
  unfolding reconcile_one
  reconcile_mine_lem env mt node c w h = rw h refl

  pub attempt_lem :
      (env : Surroundings) (mt : Mint) (node : String) (c : Container) (w : World d)
      → is_skipped node c ≡ false
      → is_settled c (state_of w (container_key c)) ≡ false
      → phase_eq c.status.status.phase phase_failed
          && ltb env.now (state_of w (container_key c)).next_attempt
        ≡ false
      → reconcile_one env mt node c w
        ≡ attempt env mt node c (container_key c) (state_of w (container_key c)) w
  unfolding reconcile_mine start_path
  attempt_lem env mt node c w mine unsettled due =
      rw (reconcile_mine_lem env mt node c w mine, unsettled, due) refl

  -- what a start leaves behind
  pub failed_state :
      (env : Surroundings) (mt : Mint) (c : Container) (key : String) (st : ReconcileState)
      (e : Error) (w : World d)
      → (state_of (start_failed env mt c key st e w) key).next_attempt
        ≡ env.now + backoff_after (st.attempts + 1)
  unfolding start_failed
  failed_state env mt c key st e w =
      ap (λ (x : ReconcileState). x.next_attempt) (state_of-set_state _ key _)

  failed_next :
      (env : Surroundings) (mt : Mint) (node : String) (c : Container) (w : World d) (e : Error)
      → env.start (prepare env c).work ≡ err e
      → (state_of
          (attempt env mt node c (container_key c) (state_of w (container_key c)) w)
          (container_key c)).next_attempt
        ≡ env.now + backoff_after ((state_of w (container_key c)).attempts + 1)
  unfolding attempt conclude
  failed_next env mt node c w e fails = rw fails (
      failed_state env mt (prepare env c).kept (container_key c)
        (record (state_of w (container_key c)) { last_attempt = env.now }) e _)

  skipped_lem :
      (env : Surroundings) (mt : Mint) (node : String) (c : Container) (w : World d)
      → is_skipped node c ≡ true
      → reconcile_one env mt node c w ≡ w
  unfolding reconcile_one
  skipped_lem env mt node c w h = rw h refl

  -- a state that is set to itself
  waits :
      (w : World d) (key : String)
      → IsQuiet w (set_state w key (state_of w key))
        × (state_of (set_state w key (state_of w key)) key ≡ state_of w key)
  unfolding set_state
  waits w key = ((refl, refl, refl), state_of-set_state w key (state_of w key))

  -- a container that is stored as failed waits, and so does its state
  failed_waits :
      (env : Surroundings) (mt : Mint) (node : String) (c : Container) (w : World d)
      → c.status.status.phase ≡ phase_failed
      → ltb env.now (state_of w (container_key c)).next_attempt ≡ true
      → IsQuiet w (reconcile_one env mt node c w)
        × (state_of (reconcile_one env mt node c w) (container_key c)
            ≡ state_of w (container_key c))
  unfolding reconcile_mine start_path
  failed_waits env mt node c w failed soon = elim (Bool-cases (is_skipped node c)) [
    | inl x ↦ rw (skipped_lem env mt node c w x) ((refl, refl, refl), refl)
    | inr x ↦
        rw
          (
            reconcile_mine_lem env mt node c w x,
            unsettled_of_failed c (state_of w (container_key c)) failed,
            waiting_of_failed c failed,
            soon,
          )
          (waits w (container_key c))
  ]

  waits_throughout :
      (node key : String) (xs : List Call) (w : World d)
      → All (IsEarly key (state_of w key).next_attempt) xs
      → IsQuiet w (reconcile_calls node xs w)
  unfolding reconcile_calls
  waits_throughout node key [] w a = (refl, refl, refl)
  waits_throughout node key (x ∷ xs) w ((same, failed, soon), a) =
      let (quiet, kept) =
        failed_waits x.env x.mint node x.container w failed (rw same (ground (arith, soon))) in
      let w' = reconcile_one x.env x.mint node x.container w in
      let kept' : state_of w' key ≡ state_of w key = rw same at kept in
      IsQuiet-trans w w' (reconcile_calls node xs w') quiet
        (waits_throughout node key xs w' (rw kept' a))

  -- When a start of a container of this node fails that is due and not settled, then in every
  -- sequence of later calls for the container, as long as it is stored as failed and the backoff of
  -- the failed attempts is not over, it is not started, and nothing is written or emitted for it.
  pub failed_start_waits :
      (env : Surroundings) (mt : Mint) (node : String) (c : Container) (w : World d) (e : Error)
      (later : List Call)
      → is_skipped node c ≡ false
      → is_settled c (state_of w (container_key c)) ≡ false
      → phase_eq c.status.status.phase phase_failed
          && ltb env.now (state_of w (container_key c)).next_attempt
        ≡ false
      → env.start (prepare env c).work ≡ err e
      → All
          (IsEarly
            (container_key c)
            (env.now + backoff_after ((state_of w (container_key c)).attempts + 1)))
          later
      → IsQuiet
          (reconcile_one env mt node c w)
          (reconcile_calls node later (reconcile_one env mt node c w))
  failed_start_waits env mt node c w e later mine unsettled due fails early =
      waits_throughout node (container_key c) later (reconcile_one env mt node c w) (
        rw (attempt_lem env mt node c w mine unsettled due, failed_next env mt node c w e fails)
          early)
