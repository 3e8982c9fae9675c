-- ===== src/Store/Core.antt =====
-- internal/store/store.go: the store, its event channels, and the untyped reads and writes.
use selfcloud.Base.{
  ℕ, String, ◌<>◌, Bool, true, false, Option, none, some, List, [], ◌∷◌, ◌++◌, map, str_eq, ltb,
  ◌==◌, length, Error, not_found, panicked, Result, ok, err, ◌>>=◌, unless_error, if◌then◌else◌,
}
use Prim.Native.Char.{code}
use selfcloud.Store.Types.{Event}
use selfcloud.Store.Deps.{Deps, Json}

-- `rootBuckets`
abbrev pub root_buckets : List String
root_buckets =
    "projects" ∷ "nodes" ∷ "containers" ∷ "functions" ∷ "buckets" ∷ "accesskeys" ∷ "users"
    ∷ "tokens" ∷ "cluster" ∷ "meta" ∷ "secrets" ∷ "eventrules" ∷ "builds" ∷ "eventlog"
    ∷ "deliveries" ∷ "webhookqueue" ∷ []

-- A subscriber is its channel: the events that are buffered and not yet received.
pub record Store (d : Deps) : Type 0 where
  pub db : d.bolt.Db
  pub subs : List (List Event)

-- `make(chan Event, 64)`
abbrev pub channel_size : ℕ
channel_size = 64

-- the select with a default in `emit`
unfoldable pub offer : Event → List Event → List Event
offer ev queue = if ltb (length queue) channel_size then queue ++ ev ∷ [] else queue

unfoldable pub key_for : String → String → String
key_for project name = if str_eq project "" then name else (project <> "/") <> name

-- the length test is the clause at the end of the key
unfoldable pub has_prefix : String → String → Bool
has_prefix b String.[] = true
has_prefix String.[] (String.◌∷◌ p ps) = false
has_prefix (String.◌∷◌ c cs) (String.◌∷◌ p ps) =
    let rest = has_prefix cs ps in if code c == code p then rest else false

-- the loop of `list` with its condition
unfoldable pub scan_while {ℓ} : {V : Type ℓ} → String → List (String × V) → List V
scan_while prefix [] = []
scan_while prefix ((k, v) ∷ rest) =
    let vs = scan_while prefix rest in if has_prefix k prefix then v ∷ vs else []

module _ (d : Deps) where
  unfoldable pub found : {A : Type 0} → Json d A → Option d.Raw → Result A
  found json none = err not_found
  found json (some raw) = json.unmarshal raw

  unfoldable pub delete_found : d.bolt.Db → String → String → Option d.Raw → Result d.bolt.Db
  delete_found db bucket key none = err not_found
  delete_found db bucket key (some raw) = d.bolt.delete db bucket key

  -- the loop of `Open` over `rootBuckets`
  unfoldable pub create_all : List String → d.bolt.Db → Result d.bolt.Db
  create_all [] db = ok db
  create_all (b ∷ bs) db = d.bolt.create_bucket_if_not_exists db b >>= create_all bs

module _ {d : Deps} where
  unfoldable pub emit : Event → Store d → Store d
  unfolding offer
  emit ev s = record s { subs = map (offer ev) s.subs }

  unfoldable pub subscribe : Store d → Store d
  subscribe s = record s { subs = s.subs ++ [] ∷ [] }

  -- `close` of the channels; the library closes the database and may report an error
  unfoldable pub close : Option Error → Store d → Store d × Option Error
  close closed s = (record s { subs = [] }, closed)

  -- `db.Update`: a function that fails, or a commit that fails, leaves the database as it was
  unfoldable pub update : Store d → (d.bolt.Db → Result d.bolt.Db) → Result (Store d)
  update s f =
      unless_error (d.bolt.begin_error s.db)
        (f s.db >>= λ db. unless_error (d.bolt.commit_error db) (ok (record s { db = db })))

  -- `db.View`
  unfoldable pub view {ℓ} : {A : Type ℓ} → Store d → (d.bolt.Db → Result A) → Result A
  view s f = unless_error (d.bolt.begin_error s.db) (f s.db)

  unfoldable pub put_raw : Store d → String → String → d.Raw → Result (Store d)
  unfolding update
  put_raw s bucket key raw =
      update s
        λ db. if d.bolt.has_bucket db bucket then d.bolt.put db bucket key raw else err panicked

  -- `s.put`, at a value that `json.Marshal` takes through a codec
  unfoldable pub put : {A : Type 0} → Store d → Json d A → String → String → A → Result (Store d)
  unfolding put_raw
  put s json bucket key v = json.marshal v >>= λ raw. put_raw s bucket key raw

  unfoldable pub get : {A : Type 0} → Store d → Json d A → String → String → Result A
  unfolding view found
  get s json bucket key = view s λ db.
      if d.bolt.has_bucket db bucket then found d json (d.bolt.get db bucket key) else err panicked

  -- `s.del`
  unfoldable pub del : Store d → String → String → Result (Store d)
  unfolding update delete_found
  del s bucket key = update s λ db.
      if d.bolt.has_bucket db bucket
      then delete_found d db bucket key (d.bolt.get db bucket key)
      else err panicked

  -- `s.list`, with a prefix of length 0 for `nil`
  unfoldable pub list : Store d → String → String → Result (List d.Raw)
  unfolding view scan_while
  list s bucket prefix = view s λ db.
      if d.bolt.has_bucket db bucket
      then ok (
          if str_eq prefix ""
          then map (λ e. e.1) (d.bolt.entries db bucket)
          else scan_while prefix (d.bolt.seek db bucket prefix))
      else err panicked

  -- `Open` after `bolt.Open` has returned a database
  unfoldable pub open_store : d.bolt.Db → Result (Store d)
  unfolding update create_all
  open_store db = update (record { db = db; subs = [] }) (create_all d root_buckets)

-- the loops of the `List` methods: what does not decode is skipped
unfoldable pub decode_all : (d : Deps) {A : Type 0} → Json d A → List d.Raw → List A
decode_all d json [] = []
decode_all d json (raw ∷ raws) =
    let rest = decode_all d json raws in
    elim (json.unmarshal raw) [ ok v ↦ v ∷ rest | err e ↦ rest ]
