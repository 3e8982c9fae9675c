-- ===== src/Logscan/Followers.antt =====
-- The table of internal/events/logscan/logscan.go, and the followers that a round of `reconcile`
-- starts.
use selfcloud.Base.{
  ℕ, suc, ◌+◌, if◌then◌else◌, String, ◌≡◌, refl, ◌∙◌, Bool, ◌&&◌, ◌||◌, not, List, [], ◌∷◌, ◌++◌,
  keep, arith, str_eq, str_eq_iff, ok, Bool-cases, inl, inr,
}
use selfcloud.Store.Types.{Container}
use selfcloud.Store.Deps.{Deps}
use selfcloud.Store.Core.{Store}
use selfcloud.Store.Typed.{list_containers}
use selfcloud.Logscan.Scanner.{
  Scanner, scan_key, knows, is_wanted, wants, stop_lost, follow_new, follow_all, reconcile_listed,
  reconcile,
}

knows-append :
    (keys more : List String) (key : String)
    → knows (keys ++ more) key ≡ (knows keys key || knows more key)
unfolding knows
knows-append [] more key = refl
knows-append (k ∷ keys) more key = ground (arith, knows-append keys more key)

knows-keep :
    (p : String → Bool) (keys : List String) (key : String)
    → knows (keep p keys) key ≡ (knows keys key && p key)
unfolding knows
knows-keep p [] key = refl
knows-keep p (k ∷ keys) key = elim (Bool-cases (p k)) [
  | inl yes_p ↦ rw yes_p (ground (arith, knows-keep p keys key, str_eq_iff k key, yes_p))
  | inr no_p ↦ rw no_p (ground (arith, knows-keep p keys key, str_eq_iff k key, no_p))
]

single : (k key : String) → knows (k ∷ []) key ≡ str_eq k key
unfolding knows
single k key = ground arith

follow_new-knows :
    (s : Scanner) (c : Container) (key : String)
    → knows (follow_new s c).known key
      ≡ (knows s.known key || (is_wanted c && str_eq (scan_key c) key))
unfolding follow_new
follow_new-knows s c key = elim (Bool-cases (is_wanted c && not (knows s.known (scan_key c)))) [
  | inl fresh ↦
      rw fresh
        (ground (arith, knows-append s.known (scan_key c ∷ []) key, single (scan_key c) key, fresh))
  | inr old ↦ rw old (ground (arith, str_eq_iff (scan_key c) key, old))
]

follow_all-knows :
    (cs : List Container) (s : Scanner) (key : String)
    → knows (follow_all cs s).known key ≡ (knows s.known key || wants cs key)
unfolding follow_all wants
follow_all-knows [] s key = ground arith
follow_all-knows (c ∷ cs) s key =
    ground (arith, follow_all-knows cs (follow_new s c) key, follow_new-knows s c key)

-- the containers of a key among those whose followers were started, in order
unfoldable pub started_for : String → List Container → ℕ
unfolding scan_key
started_for key [] = 0
started_for key (c ∷ cs) =
    let rest = started_for key cs in if str_eq (scan_key c) key then suc rest else rest

started_for-snoc :
    (key : String) (cs : List Container) (c : Container)
    → started_for key (cs ++ c ∷ [])
      ≡ started_for key cs + (if str_eq (scan_key c) key then 1 else 0)
unfolding started_for
started_for-snoc key [] c = ground arith
started_for-snoc key (b ∷ cs) c = ground (arith, started_for-snoc key cs c)

-- how many followers a round starts for a key
abbrev pub due : List Container → Scanner → String → ℕ
due cs s key = if knows s.known key then 0 else if wants cs key then 1 else 0

follow_new-started :
    (s : Scanner) (c : Container) (key : String)
    → started_for key (follow_new s c).followed
      ≡ started_for key s.followed
        + (if knows s.known key then 0 else if is_wanted c && str_eq (scan_key c) key then 1 else 0)
unfolding follow_new
follow_new-started s c key = elim (Bool-cases (is_wanted c && not (knows s.known (scan_key c)))) [
  | inl fresh ↦
      rw (fresh, started_for-snoc key s.followed c)
        (ground (arith, str_eq_iff (scan_key c) key, fresh))
  | inr old ↦ rw old (ground (arith, str_eq_iff (scan_key c) key, old))
]

follow_all-started :
    (cs : List Container) (s : Scanner) (key : String)
    → started_for key (follow_all cs s).followed ≡ started_for key s.followed + due cs s key
unfolding follow_all wants
follow_all-started [] s key = ground arith
follow_all-started (c ∷ cs) s key = ground (
  arith,
  follow_all-started cs (follow_new s c) key,
  follow_new-started s c key,
  follow_new-knows s c key,
)

module _ {d : Deps} (store : Store d) (s : Scanner) (cs : List Container) where
  -- A round of the scanner that could list the containers has in its table exactly the keys of the
  -- running containers, and it starts one follower for each of these that the table did not have
  -- before, and none for any other key: a running container whose stream has ended, and that is
  -- still in the table, gets no follower again.
  pub reconcile-knows :
      list_containers store "" ≡ ok cs
      → (key : String)
      → (knows (reconcile store s).known key ≡ wants cs key)
        × (started_for key (reconcile store s).followed ≡ started_for key s.followed + due cs s key)
  unfolding reconcile reconcile_listed stop_lost
  reconcile-knows listed key =
      let kept = knows-keep (wants cs) s.known key in
      (
        rw listed (follow_all-knows cs (stop_lost cs s) key ∙ ground (arith, kept)),
        rw listed (follow_all-started cs (stop_lost cs s) key ∙ ground (arith, kept)),
      )
