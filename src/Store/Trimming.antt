-- ===== src/Store/Trimming.antt =====
-- The event log of internal/store/store.go: what `AppendEvent` adds, and what `TrimEvents` removes.
use selfcloud.Base.{
  ◌≤◌, some, All, Any, ◌⊎◌, false, ◌>>=◌, ℕ, String, ◌<>◌, ◌≡◌, true, ◌&&◌, Option, none, List, [],
  ◌∷◌, any_of, length, arith, Result, ok, err, str_eq, if◌then◌else◌,
}
use selfcloud.Store.Types.{Time, EventRecord}
use selfcloud.Store.Deps.{Deps}
use selfcloud.Store.Core.{Store, has_prefix, get}
use selfcloud.Store.Scoped.{Mint}
use selfcloud.Store.Writes.{get-put}
use selfcloud.Store.Typed.{completed, log_key, appended, append_event, first_key}

-- keys that are deleted one after the other
unfoldable pub delete_keys : (d : Deps) → String → List String → d.bolt.Db → Result d.bolt.Db
delete_keys d bucket [] db = ok db
delete_keys d bucket (k ∷ ks) db = d.bolt.delete db bucket k >>= delete_keys d bucket ks

-- a cursor that stands at no key of the prefix
abbrev pub Beyond : String → Option String → Type 0
Beyond p k = (j : String) → k ≡ some j → has_prefix j p ≡ false

-- the cursor ran out: at its first key already, or at the key after one that was deleted
abbrev pub RanOut : (d : Deps) → d.bolt.Db → String → Option String → List String → Type 0
RanOut d start p k ks =
    ((ks ≡ []) × Beyond p k)
    ⊎ ((mid : d.bolt.Db) × (j : String) × Any (λ i. i ≡ j) ks
        × Beyond p (d.bolt.next_after_delete start mid "eventlog" j))

-- The keys that a walk with so many deletes takes: keys of the prefix, the first key among them,
-- and as many as it may unless the cursor runs out.
abbrev pub Taken : (d : Deps) → d.bolt.Db → String → ℕ → Option String → List String → Type 0
Taken d start p n k ks =
    All (λ j. has_prefix j p ≡ true) ks
    × (length ks ≤ n)
    × ((length ks ≡ n) ⊎ RanOut d start p k ks)
    × ((j : String) → 1 ≤ n → k ≡ some j → has_prefix j p ≡ true → Any (λ i. i ≡ j) ks)

module _ {d : Deps} (s s' : Store d) (project : String) where
  -- the keys that a walk with so many deletes takes were deleted, and nothing else
  abbrev pub Deleted : ℕ → Type 0
  Deleted count =
      (ks : List String) × Taken d s.db (project <> "/") count
        (first_key (d.bolt.seek s.db "eventlog" (project <> "/"))) ks
      × ((c j : String)
          → d.bolt.get s'.db c j ≡ (
              if str_eq "eventlog" c && any_of (λ k. str_eq k j) ks
              then none
              else d.bolt.get s.db c j))

module _ {d : Deps} (s s' : Store d) where
  appended_ok :
      (rec rec' : EventRecord) (r : Result (Store d))
      → appended s rec r ≡ (s', rec', none)
      → (r ≡ ok s') × (rec' ≡ rec)
  unfolding appended
  appended_ok rec rec' (ok t) h = (ground arith, ground arith)
  appended_ok rec rec' (err e) h = absurd (ground arith)

  -- When an event was appended and the database can be read, the event has an identifier and a
  -- time filled in, and is stored under the key that is made of its project, its time and its
  -- identifier.
  pub get-append_event :
      (format : Time → String) (mt : Mint) (rec rec' : EventRecord)
      → append_event s format mt rec ≡ (s', rec', none)
      → d.bolt.begin_error s'.db ≡ none
      → (rec' ≡ completed mt rec)
        × (get s' d.event_record_json "eventlog" (log_key format rec') ≡ ok rec')
  unfolding append_event
  get-append_event format mt rec rec' h opens =
      let (p, same) = appended_ok (completed mt rec) rec' _ h in
      (
        same,
        rw same (
            get-put s s' d.event_record_json "eventlog" (log_key format (completed mt rec))
              (completed mt rec) p opens),
      )
