-- ===== src/Api/Invocations.antt =====
-- internal/api/runtime.go: the ring of the last invocations of each function.
use selfcloud.Base.{
  ℕ, ◌==◌, String, ◌≡◌, refl, sym, ap, ◌∙◌, Option, none, some, List, [], ◌∷◌, ◌++◌, reverse,
  lookup, insert, lookup-insert, str_eq, str_eq_iff, arith, Bool-cases, inl, inr, if◌then◌else◌,
}
use mathlib.Core.List.{append-nil, append_assoc}
use selfcloud.Base.Recent.{last_of, push, push-last_of}
use selfcloud.Store.Types.{Time, Bytes}

pub record InvocationRecord : Type 0 where
  pub at : Time
  pub verb : String  -- Method
  pub path : String
  pub status : ℕ
  pub dur_ms : ℕ
  pub body_kb : ℕ
  pub error : String
  pub logs_tail : Bytes

pub record InvocationRing : Type 0 where
  pub rings : List (String × List InvocationRecord)
  pub size : ℕ

-- `newInvocationRing`; 0 stands for every size that is not positive
unfoldable pub new_invocation_ring : ℕ → InvocationRing
new_invocation_ring size = record { rings = []; size = if size == 0 then 100 else size }

unfoldable pub ring_or_empty : Option (List InvocationRecord) → List InvocationRecord
ring_or_empty none = []
ring_or_empty (some buf) = buf

unfoldable pub ring_of : InvocationRing → String → List InvocationRecord
unfolding ring_or_empty
ring_of r key = ring_or_empty (lookup key r.rings)

-- `record`
unfoldable pub record_invocation : InvocationRing → String → InvocationRecord → InvocationRing
unfolding ring_of push
record_invocation r key rec = record r {
  rings = insert key (push r.size (ring_of r key) rec) r.rings;
}

-- `list`: the most recent first
unfoldable pub list_invocations : InvocationRing → String → List InvocationRecord
unfolding ring_of
list_invocations r key = reverse (ring_of r key)

-- records one after the other, each under its key
unfoldable pub record_each : InvocationRing → List (String × InvocationRecord) → InvocationRing
unfolding record_invocation
record_each r [] = r
record_each r ((key, rec) ∷ more) = record_each (record_invocation r key rec) more

-- the records of one key
unfoldable pub records_of : String → List (String × InvocationRecord) → List InvocationRecord
records_of key [] = []
records_of key ((k, rec) ∷ more) =
    let rest = records_of key more in if str_eq k key then rec ∷ rest else rest

ring_of-record_invocation :
    (r : InvocationRing) (k key : String) (rec : InvocationRecord)
    → ring_of (record_invocation r k rec) key
      ≡ (if str_eq k key then push r.size (ring_of r key) rec else ring_of r key)
unfolding ring_of record_invocation ring_or_empty
ring_of-record_invocation r k key rec = elim (Bool-cases (str_eq k key)) [
  | inl same ↦
      rw
        (
          lookup-insert k key (push r.size (ring_of r k) rec) r.rings,
          same,
          (str_eq_iff k key).0 same,
        )
        refl
  | inr other ↦ rw (lookup-insert k key (push r.size (ring_of r k) rec) r.rings, other) refl
]

ring_of-record_each :
    (r : InvocationRing) (key : String) (done : List InvocationRecord)
    (recs : List (String × InvocationRecord))
    → ring_of r key ≡ last_of r.size done
    → ring_of (record_each r recs) key ≡ last_of r.size (done ++ records_of key recs)
unfolding record_each records_of record_invocation
ring_of-record_each r key done [] e = e ∙ ap (last_of r.size) (sym (append-nil done))
ring_of-record_each r key done ((k, rec) ∷ more) e = elim (Bool-cases (str_eq k key)) [
  | inl same ↦
      let pushed : ring_of (record_invocation r k rec) key ≡ last_of r.size (done ++ rec ∷ []) =
        ring_of-record_invocation r k key rec
        ∙ rw same (ap (λ b. push r.size b rec) e ∙ push-last_of r.size done rec) in
      rw same (
        ring_of-record_each (record_invocation r k rec) key (done ++ rec ∷ []) more pushed
        ∙ ap (last_of r.size) (append_assoc done (rec ∷ []) (records_of key more)))
  | inr other ↦
      let kept : ring_of (record_invocation r k rec) key ≡ last_of r.size done =
        ring_of-record_invocation r k key rec ∙ rw other e in
      rw other (ring_of-record_each (record_invocation r k rec) key done more kept)
]

new_ring-empty :
    (size : ℕ) (key : String)
    → ring_of (new_invocation_ring size) key ≡ last_of (new_invocation_ring size).size []
unfolding ring_of new_invocation_ring last_of
new_ring-empty size key = ground arith

-- Whatever was recorded in a new ring, the list of a key is the last records of that key, the most
-- recent first, as many as the size of the ring at most.
pub list-record_each :
    (size : ℕ) (key : String) (recs : List (String × InvocationRecord))
    → list_invocations (record_each (new_invocation_ring size) recs) key
      ≡ reverse (last_of (new_invocation_ring size).size (records_of key recs))
unfolding list_invocations
list-record_each size key recs =
    ap reverse
      (ring_of-record_each (new_invocation_ring size) key [] recs (new_ring-empty size key))
