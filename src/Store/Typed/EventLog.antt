-- ===== src/Store/Typed/EventLog.antt =====
-- internal/store/store.go: the event log. `format` is the RFC 3339 text of a time.
use selfcloud.Base.{
  ℕ, ◌-◌, String, ◌<>◌, Option, none, some, List, [], ◌∷◌, take, length, leb, ltb, reverse, str_eq,
  Error, panicked, Result, ok, err, ◌>>=◌, map_ok, if◌then◌else◌,
}
use selfcloud.Store.Types.{Time, is_zero_time, EventRecord}
use selfcloud.Store.Deps.{Deps}
use selfcloud.Store.Core.{Store, has_prefix, update, put, list}
use selfcloud.Store.Scoped.{Mint, Written}
use selfcloud.Store.Typed.Listing.{list_values}

-- the identifier and the time that `AppendEvent` fills in
unfoldable pub completed : Mint → EventRecord → EventRecord
completed mt rec = record rec {
  uid = if str_eq rec.uid "" then mt.uid else rec.uid;
  at = if is_zero_time rec.at then mt.created else rec.at;
}

unfoldable pub log_prefix : String → String
log_prefix project = (if str_eq project "" then "default" else project) <> "/"

unfoldable pub log_key : (Time → String) → EventRecord → String
unfolding log_prefix
log_key format rec = log_prefix rec.project <> format rec.at <> "-" <> rec.uid

-- a limit that is not positive is 0 here
unfoldable pub positive_or : ℕ → ℕ → ℕ
positive_or fallback n = if ltb 0 n then n else fallback

-- `k, _ := c.Seek(prefix)`
unfoldable pub first_key {ℓ} : {V : Type ℓ} → List (String × V) → Option String
first_key [] = none
first_key ((k, v) ∷ rest) = some k

-- The loop of `TrimEvents`, with the deletes that are left and the key of the cursor, which was
-- placed in the database `start`.
unfoldable pub delete_walk :
    (d : Deps) → d.bolt.Db → String → ℕ → Option String → d.bolt.Db → Result d.bolt.Db
unfolding has_prefix
delete_walk d start prefix ℕ.zero k db = ok db
delete_walk d start prefix (ℕ.suc n) none db = ok db
delete_walk d start prefix (ℕ.suc n) (some k) db =
    if has_prefix k prefix
    then d.bolt.delete db "eventlog" k >>= (λ db'.
      delete_walk d start prefix n (d.bolt.next_after_delete start db' "eventlog" k) db')
    else ok db

module _ {d : Deps} where
  unfoldable pub appended : Store d → EventRecord → Result (Store d) → Written d EventRecord
  appended s rec (ok s') = (s', rec, none)
  appended s rec (err e) = (s, rec, some e)

  -- `AppendEvent`
  unfoldable pub append_event :
      Store d → (Time → String) → Mint → EventRecord → Written d EventRecord
  unfolding completed log_key appended
  append_event s format mt rec =
      let rec' = completed mt rec in
      appended s rec' (put s d.event_record_json "eventlog" (log_key format rec') rec')

  -- `ListEvents`
  unfoldable pub list_events : Store d → String → ℕ → Result (List EventRecord)
  unfolding list_values positive_or
  list_events s project limit =
      map_ok (λ recs. take (positive_or 100 limit) (reverse recs))
        (list_values s d.event_record_json "eventlog" (project <> "/"))

  -- the deletes, in one transaction
  unfoldable pub delete_first : Store d → String → ℕ → Result (Store d)
  unfolding update first_key delete_walk
  delete_first s prefix count = update s λ db.
      if d.bolt.has_bucket db "eventlog"
      then delete_walk d db prefix count (first_key (d.bolt.seek db "eventlog" prefix)) db
      else err panicked

  unfoldable pub trimmed : Store d → Result (Store d) → Store d × Option Error
  trimmed s (ok s') = (s', none)
  trimmed s (err e) = (s, some e)

  unfoldable pub trim_found : Store d → String → ℕ → ℕ → Store d × Option Error
  unfolding trimmed delete_first
  trim_found s prefix most count =
      if leb count most then (s, none) else trimmed s (delete_first s prefix (count - most))

  unfoldable pub trim_listed : Store d → String → ℕ → Result (List d.Raw) → Store d × Option Error
  unfolding trim_found
  trim_listed s prefix most (err e) = (s, some e)
  trim_listed s prefix most (ok raws) = trim_found s prefix most (length raws)

  -- `TrimEvents`
  unfoldable pub trim_events : Store d → String → ℕ → Store d × Option Error
  unfolding trim_listed positive_or
  trim_events s project most =
      trim_listed s (project <> "/") (positive_or 10_000 most) (list s "eventlog" (project <> "/"))
