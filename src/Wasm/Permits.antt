-- ===== src/Wasm/Permits.antt =====
-- The permits of internal/runtime/wasm/pool.go, in whatever order deployments, removals and
-- invocations take their steps.
use selfcloud.Base.{
  ℕ, ◌+◌, ◌-◌, ◌<◌, ◌≤◌, String, ◌≡◌, ◌≢◌, refl, ap, sym, ◌∙◌, ◌⊎◌, inl, inr, false, Option, none,
  some, lookup, insert, remove, lookup-insert, lookup-remove, set_at, str_eq, str_eq_iff, ltb, ◌==◌,
  ==_iff, arith, panicked, ok, err, Bool-cases, if◌then◌else◌,
}
use selfcloud.Store.Types.{Time}
use selfcloud.Wasm.Pool.{
  Pooled, WarmPool, new_pooled, new_warm_pool_with, close_old, pool_replaced, warmed_found,
  pool_warmed, pool_remove, permitted, pool_enter, pool_leave, PoolStep, deploying, warming,
  removing, entering, going, PoolReached, made, stepped,
}

-- An entry of the table is open and belongs to one function, and no entry has more permits out than
-- the pool allows.
record IsFair (s : WarmPool) : Type 0 where
  low : (key : String) (p : ℕ) → lookup key s.hot ≡ some p → p < s.next
  open_entry : (key : String) (p : ℕ) → lookup key s.hot ≡ some p → (s.pooled p).closed ≡ false
  alone :
      (key other : String) (p : ℕ)
      → lookup key s.hot ≡ some p
      → lookup other s.hot ≡ some p
      → key ≡ other
  bounded : (p : ℕ) → (s.pooled p).permits ≤ s.concurrency

-- a change of one entry that does not close it
set_at-IsFair :
    (s : WarmPool) (p : ℕ) (e : Pooled)
    → e.closed ≡ (s.pooled p).closed
    → e.permits ≤ s.concurrency
    → IsFair s
    → IsFair (record s { pooled = set_at p e s.pooled })
set_at-IsFair s p e same small i = record {
  low = i.low;
  open_entry = λ key q h. elim (Bool-cases (p == q)) [
    | inl x ↦ rw x (same ∙ ap (λ k. (s.pooled k).closed) ((==_iff p q).0 x) ∙ i.open_entry key q h)
    | inr x ↦ rw x (i.open_entry key q h)
  ];
  alone = i.alone;
  bounded = λ q. elim (Bool-cases (p == q)) [ inl x ↦ rw x small | inr x ↦ rw x (i.bounded q) ];
}

close_old-permits :
    (o : Option ℕ) (pooled : ℕ → Pooled) (q : ℕ)
    → (close_old o pooled q).permits ≡ (pooled q).permits
unfolding close_old
close_old-permits none pooled q = refl
close_old-permits (some p) pooled q = elim (Bool-cases (p == q)) [
  | inl x ↦ rw (x, (==_iff p q).0 x) refl
  | inr x ↦ rw x refl
]

-- an entry other than the old one stays open
close_old-closed :
    (o : Option ℕ) (pooled : ℕ → Pooled) (q : ℕ)
    → o ≢ some q
    → (close_old o pooled q).closed ≡ (pooled q).closed
unfolding close_old
close_old-closed none pooled q h = refl
close_old-closed (some p) pooled q h = elim (Bool-cases (p == q)) [
  | inl x ↦ absurd (h (ap some ((==_iff p q).0 x)))
  | inr x ↦ rw x refl
]

module _ (s : WarmPool) (i : IsFair s) where
  -- the entry of another function is not the old one
  not_old :
      (key at : String) (q : ℕ)
      → str_eq key at ≡ false
      → lookup at s.hot ≡ some q
      → lookup key s.hot ≢ some q
  not_old key at q other h e =
      absurd (ground (arith, other, str_eq_iff key at, i.alone key at q e h))

  pool_remove-IsFair : (key : String) → IsFair (pool_remove key s)
  unfolding pool_remove
  pool_remove-IsFair key =
      let kept : (at : String) (q : ℕ)
          → lookup at (remove key s.hot) ≡ some q
          → (str_eq key at ≡ false) × (lookup at s.hot ≡ some q) =
        λ at q h. ground (arith, lookup-remove key at s.hot, h) in
      record {
        low = λ at q h. i.low at q (kept at q h).1;
        open_entry = λ at q h.
            let (other, was) = kept at q h in
            close_old-closed (lookup key s.hot) s.pooled q (not_old key at q other was)
            ∙ i.open_entry at q was;
        alone = λ at more q h h'. i.alone at more q (kept at q h).1 (kept more q h').1;
        bounded = λ q. rw (close_old-permits (lookup key s.hot) s.pooled q) (i.bounded q);
      }

  pool_replaced-IsFair : (now : Time) (key : String) → IsFair (pool_replaced now key s)
  unfolding pool_replaced new_pooled
  pool_replaced-IsFair now key =
      let found : (at : String) (q : ℕ)
          → lookup at (insert key s.next s.hot) ≡ some q
          → ((key ≡ at) × (s.next ≡ q)) ⊎ ((str_eq key at ≡ false) × (lookup at s.hot ≡ some q)) =
        λ at q h. ground (arith, lookup-insert key at s.next s.hot, str_eq_iff key at, h) in
      record {
        low = λ at q h. elim (found at q h) [
          | inl (same, new) ↦ omega (arith, new)
          | inr (other, was) ↦ omega (arith, i.low at q was)
        ];
        open_entry = λ at q h. elim (found at q h) [
          | inl (same, new) ↦ rw ((==_iff s.next q).1 new) refl
          | inr (other, was) ↦ elim (Bool-cases (s.next == q)) [
            | inl x ↦ rw x refl
            | inr x ↦ rw x (
                close_old-closed (lookup key s.hot) s.pooled q (not_old key at q other was)
                ∙ i.open_entry at q was)
          ]
        ];
        alone = λ at more q h h'. elim (found at q h) [
          | inl (same, new) ↦ elim (found more q h') [
            | inl (same', new') ↦ sym same ∙ same'
            | inr (other', was') ↦ absurd (omega (arith, new, i.low more q was'))
          ]
          | inr (other, was) ↦ elim (found more q h') [
            | inl (same', new') ↦ absurd (omega (arith, new', i.low at q was))
            | inr (other', was') ↦ i.alone at more q was was'
          ]
        ];
        bounded = λ q. elim (Bool-cases (s.next == q)) [
          | inl x ↦ rw x (omega arith)
          | inr x ↦ rw (x, close_old-permits (lookup key s.hot) s.pooled q) (i.bounded q)
        ];
      }

  warmed_found-IsFair : (now : Time) (o : Option ℕ) → IsFair (warmed_found now o s)
  unfolding warmed_found
  warmed_found-IsFair now none = i
  warmed_found-IsFair now (some p) =
      set_at-IsFair s p (record (s.pooled p) { warmed_at = now }) refl (i.bounded p) i

  -- an invocation that enters is one permit more, and there was room for it
  pool_enter-IsFair :
      (now : Time) (p : ℕ) (t : WarmPool) → pool_enter none now p s ≡ ok (some t) → IsFair t
  unfolding pool_enter permitted
  pool_enter-IsFair now p t h =
      let (room, e) : ((s.pooled p).permits + 1 ≤ s.concurrency)
          × (record s { pooled = set_at p (permitted now (s.pooled p)) s.pooled } ≡ t) =
        ground (arith, h) in
      rw (← e) (set_at-IsFair s p (permitted now (s.pooled p)) refl room i)

  step-IsFair : (t : WarmPool) → PoolStep s t → IsFair t
  unfolding pool_warmed pool_leave
  step-IsFair t (deploying now key) = pool_replaced-IsFair now key
  step-IsFair t (warming now key) = warmed_found-IsFair now (lookup key s.hot)
  step-IsFair t (removing key) = pool_remove-IsFair key
  step-IsFair t (entering now p t' h) = pool_enter-IsFair now p t h
  step-IsFair t (going p) =
      set_at-IsFair s p (record (s.pooled p) { permits = (s.pooled p).permits - 1 }) refl
        (omega (arith, i.bounded p)) i

PoolReached-IsFair :
    (warm concurrency : ℕ) (s : WarmPool) → PoolReached warm concurrency s → IsFair s
unfolding new_warm_pool_with new_pooled
PoolReached-IsFair warm concurrency s made = record {
  low = λ key p h. absurd (ground arith);
  open_entry = λ key p h. absurd (ground arith);
  alone = λ key other p h h'. absurd (ground arith);
  bounded = λ p. omega arith;
}
PoolReached-IsFair warm concurrency t (stepped {s} r step) =
    step-IsFair s (PoolReached-IsFair warm concurrency s r) t step

module _ (warm concurrency : ℕ) (s : WarmPool) (key : String) (p : ℕ) where
  -- In every order of the steps, no entry has more permits out than the pool allows, and an
  -- invocation that enters the entry of its function as the table has it enters or waits. One that
  -- has read the entry and enters after a deployment or a removal of the function panics.
  pub pool_enter_late :
      PoolReached warm concurrency s
      → lookup key s.hot ≡ some p
      → (now : Time)
      → ((s.pooled p).permits ≤ s.concurrency)
        × ((o : Option WarmPool) × (pool_enter none now p s ≡ ok o))
        × (pool_enter none now p (pool_replaced now key s) ≡ err panicked)
        × (pool_enter none now p (pool_remove key s) ≡ err panicked)
  unfolding pool_enter pool_replaced pool_remove close_old
  pool_enter_late r h now =
      let i = PoolReached-IsFair warm concurrency s r in
      let other : (s.next == p) ≡ false = ground (arith, i.low key p h) in
      (
        i.bounded p,
        (
          if ltb (s.pooled p).permits s.concurrency
              then some (record s { pooled = set_at p (permitted now (s.pooled p)) s.pooled })
              else none,
          rw (i.open_entry key p h) (ground arith),
        ),
        rw (h, other, (==_iff p p).1 refl) refl,
        rw (h, (==_iff p p).1 refl) refl,
      )
