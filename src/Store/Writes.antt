-- ===== src/Store/Writes.antt =====
-- What a successful write or delete of internal/store/store.go does to the database.
use selfcloud.Base.{
  String, ◌≡◌, ap, true, ◌&&◌, none, some, [], arith, not_found, Result, ok, err, str_eq,
  str_eq_refl, if◌then◌else◌,
}
use selfcloud.Store.Deps.{Deps, Json}
use selfcloud.Store.Core.{Store, update, put_raw, put, get, del}

module _ {d : Deps} where
  -- a transaction that succeeds has run its function, and leaves the channels alone
  pub update_ok :
      (s s' : Store d) (f : d.bolt.Db → Result d.bolt.Db)
      → update s f ≡ ok s'
      → (f s.db ≡ ok s'.db) × (s'.subs ≡ s.subs)
  unfolding update
  update_ok s s' f h = ground arith

  pub put_raw_ok :
      (s s' : Store d) (bucket key : String) (raw : d.Raw)
      → put_raw s bucket key raw ≡ ok s'
      → (d.bolt.put s.db bucket key raw ≡ ok s'.db)
        × (d.bolt.has_bucket s.db bucket ≡ true)
        × (s'.subs ≡ s.subs)
  unfolding put_raw
  put_raw_ok s s' bucket key raw h = ground arith

  -- the value that is in the database after a write, key by key
  pub get-put_raw :
      (s s' : Store d) (bucket key : String) (raw : d.Raw)
      → put_raw s bucket key raw ≡ ok s'
      → (c j : String)
      → d.bolt.get s'.db c j
        ≡ (if str_eq bucket c && str_eq key j then some raw else d.bolt.get s.db c j)
  get-put_raw s s' bucket key raw h =
      d.bolt.get-put s.db s'.db bucket key raw (put_raw_ok s s' bucket key raw h).0

  pub has_bucket-put_raw :
      (s s' : Store d) (bucket key : String) (raw : d.Raw)
      → put_raw s bucket key raw ≡ ok s'
      → (c : String) → d.bolt.has_bucket s'.db c ≡ d.bolt.has_bucket s.db c
  has_bucket-put_raw s s' bucket key raw h =
      d.bolt.has_bucket-put s.db s'.db bucket key raw (put_raw_ok s s' bucket key raw h).0

  pub put_ok :
      {A : Type 0} (s s' : Store d) (json : Json d A) (bucket key : String) (v : A)
      → put s json bucket key v ≡ ok s'
      → (raw : d.Raw) × (json.marshal v ≡ ok raw) × (put_raw s bucket key raw ≡ ok s')
  unfolding put
  put_ok s s' json bucket key v h = ground arith

  -- A value that was put is the value that `get` returns.
  pub get-put :
      {A : Type 0} (s s' : Store d) (json : Json d A) (bucket key : String) (v : A)
      → put s json bucket key v ≡ ok s'
      → d.bolt.begin_error s'.db ≡ none
      → get s' json bucket key ≡ ok v
  unfolding get
  get-put s s' json bucket key v h opens =
      let (raw, m, p) = put_ok s s' json bucket key v h in
      rw
        (
          opens,
          has_bucket-put_raw s s' bucket key raw p bucket,
          (put_raw_ok s s' bucket key raw p).1,
          get-put_raw s s' bucket key raw p bucket key,
          str_eq_refl bucket,
          str_eq_refl key,
        )
        (json.unmarshal-marshal v raw m)

  pub del_ok :
      (s s' : Store d) (bucket key : String)
      → del s bucket key ≡ ok s'
      → (d.bolt.delete s.db bucket key ≡ ok s'.db)
        × (d.bolt.has_bucket s.db bucket ≡ true)
        × (s'.subs ≡ s.subs)
  unfolding del
  del_ok s s' bucket key h = ground arith

  pub get-del :
      (s s' : Store d) (bucket key : String)
      → del s bucket key ≡ ok s'
      → (c j : String)
      → d.bolt.get s'.db c j
        ≡ (if str_eq bucket c && str_eq key j then none else d.bolt.get s.db c j)
  get-del s s' bucket key h = d.bolt.get-delete s.db s'.db bucket key (del_ok s s' bucket key h).0

  -- A key that was deleted is not found.
  pub get-del_self :
      {A : Type 0} (s s' : Store d) (json : Json d A) (bucket key : String)
      → del s bucket key ≡ ok s'
      → d.bolt.begin_error s'.db ≡ none
      → get s' json bucket key ≡ err not_found
  unfolding get
  get-del_self s s' json bucket key h opens = rw (
    opens,
    d.bolt.has_bucket-delete s.db s'.db bucket key (del_ok s s' bucket key h).0 bucket,
    (del_ok s s' bucket key h).1,
    get-del s s' bucket key h bucket key,
    str_eq_refl bucket,
    str_eq_refl key,
  )

  -- Two stores with one database answer a `get` alike.
  pub get_of_same_db :
      {A : Type 0} (s t : Store d) (json : Json d A) (bucket key : String)
      → s.db ≡ t.db
      → get s json bucket key ≡ get t json bucket key
  unfolding get
  get_of_same_db s t json bucket key e =
      ap (λ db. get {d = d} (record { db = db; subs = [] }) json bucket key) e

  -- `get` of a key that a write left alone
  pub get_of_same_raw :
      {A : Type 0} (s t : Store d) (json : Json d A) (bucket key : String)
      → d.bolt.begin_error s.db ≡ none
      → d.bolt.begin_error t.db ≡ none
      → d.bolt.has_bucket s.db bucket ≡ d.bolt.has_bucket t.db bucket
      → d.bolt.get s.db bucket key ≡ d.bolt.get t.db bucket key
      → get s json bucket key ≡ get t json bucket key
  unfolding get
  get_of_same_raw s t json bucket key bs bt h g = rw (bs, bt, h, g)
