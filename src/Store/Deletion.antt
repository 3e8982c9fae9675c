-- ===== src/Store/Deletion.antt =====
-- The deletes of internal/store/store.go against `get`.
use selfcloud.Base.{
  String, ◌≡◌, ◌∙◌, refl, true, ◌&&◌, none, some, arith, Error, not_found, Result, ok, err, str_eq,
  if◌then◌else◌,
}
use selfcloud.Store.Types.{Kind, Event, op_delete}
use selfcloud.Store.Deps.{Deps, Json}
use selfcloud.Store.Core.{Store, emit, key_for, get, del}
use selfcloud.Store.Scoped.{deleted, delete_scoped}
use selfcloud.Store.Writes.{get-del, get-del_self, get_of_same_db}
use selfcloud.Store.RoundTrip.{db-emit}

abbrev pub delete_event : Kind → String → String → Event
delete_event kind project name = record {
  kind = kind;
  op = op_delete;
  project = project;
  name = name;
  value = none;
}

module _ {d : Deps} (s s' : Store d) (kind : Kind) (project name : String) where
  deleted_ok :
      (r : Result (Store d))
      → deleted s kind project name r ≡ (s', none)
      → (t : Store d) × (r ≡ ok t) × (s' ≡ emit (delete_event kind project name) t)
  unfolding deleted
  deleted_ok (ok t) h = (t, refl, ground arith)
  deleted_ok (err e) h = ground arith

module _ {d : Deps} (s s' : Store d) (bucket : String) (kind : Kind) (project name : String) where
  pub delete_scoped_ok :
      delete_scoped s bucket kind project name ≡ (s', none)
      → (t : Store d) × (del s bucket (key_for project name) ≡ ok t)
        × (s' ≡ emit (delete_event kind project name) t)
  unfolding delete_scoped
  delete_scoped_ok h = deleted_ok s s' kind project name (del s bucket (key_for project name)) h

  -- A delete that succeeds, of a database that can be read, makes `get` of that name answer "not
  -- found", and leaves every other key of every bucket as it was.
  pub get-delete_scoped :
      {A : Type 0} (json : Json d A)
      → delete_scoped s bucket kind project name ≡ (s', none)
      → d.bolt.begin_error s'.db ≡ none
      → (c j : String)
      → (get s' json bucket (key_for project name) ≡ err not_found)
        × (d.bolt.get s'.db c j ≡ (
            if str_eq bucket c && str_eq (key_for project name) j
            then none
            else d.bolt.get s.db c j))
  get-delete_scoped json h opens c j =
      let (t, deleted, e) = delete_scoped_ok h in
      let moved : s'.db ≡ t.db = db-emit s' t _ e in
      (
        get_of_same_db s' t json _ _ moved
            ∙ get-del_self s t json bucket _ deleted (rw (← moved) opens),
        rw moved (get-del s t bucket _ deleted c j),
      )

  -- A delete that fails leaves the database and the channels as they were: no event is emitted.
  pub delete_scoped_error :
      (e : Error) → delete_scoped s bucket kind project name ≡ (s', some e) → s' ≡ s
  unfolding delete_scoped
  delete_scoped_error e h = ground arith

  -- A name that is not stored is not found.
  pub delete_scoped_absent :
      d.bolt.begin_error s.db ≡ none
      → d.bolt.has_bucket s.db bucket ≡ true
      → d.bolt.get s.db bucket (key_for project name) ≡ none
      → delete_scoped s bucket kind project name ≡ (s, some not_found)
  unfolding delete_scoped del
  delete_scoped_absent opens has absent = rw (opens, has, absent)
