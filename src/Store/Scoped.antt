-- ===== src/Store/Scoped.antt =====
-- internal/store/store.go: the generic writes of resources that carry metadata.
use selfcloud.Base.{
  ℕ, ◌+◌, ◌%◌, ◌^◌, String, ◌<>◌, Bool, true, false, Option, none, some, str_eq, Error, message,
  Result, ok, err, if◌then◌else◌,
}
use selfcloud.Store.Types.{
  Time, Kind, kind_node, kind_user, kind_token, Meta, Event, op_put, op_delete,
}
use selfcloud.Store.Deps.{Deps, Json, ProjectScoped}
use selfcloud.Store.Core.{Store, emit, key_for, put, del}

-- What a write draws from outside: `newUID()`, and the two readings of the clock.
pub record Mint : Type 0 where
  pub uid : String
  pub created : Time
  pub updated : Time

-- `if m.Project == "" { m.Project = "default" }`
unfoldable pub default_project : String → Meta → Meta
default_project fallback m = if str_eq m.project "" then record m { project = fallback } else m

-- `m.Generation++` on an int64
unfoldable pub next_generation : ℕ → ℕ
next_generation g = (g + 1) % 2 ^ 64

unfoldable pub mint_meta : Mint → Meta → Meta
unfolding next_generation
mint_meta mt m =
    let named =
      (if str_eq m.uid "" then record m { uid = mt.uid; created_at = mt.created } else m) in
    record named { updated_at = mt.updated; generation = next_generation named.generation }

-- the key of `localDelete`; cluster-scoped types are stored under `system/<name>`
abbrev pub is_cluster_kind : Kind → Bool
is_cluster_kind kind_node = true
is_cluster_kind kind_user = true
is_cluster_kind kind_token = true
is_cluster_kind _ = false

unfoldable pub local_key : Kind → String → String → String
local_key kind project name =
    if str_eq project ""
    then (if is_cluster_kind kind then "system/" <> name else name)
    else key_for project name

-- The store, the value that the caller's pointer holds, and the error.
abbrev pub Written : Deps → Type 0 → Type 0
Written d A = Store d × A × Option Error

module _ {d : Deps} where
  unfoldable pub written : {A : Type 0} → Store d → A → Event → Result (Store d) → Written d A
  written s v ev (ok s') = (emit ev s', v, none)
  written s v ev (err e) = (s, v, some e)

  unfoldable pub put_scoped :
      {A : Type 0} → Store d → ProjectScoped A → Json d A → String → Kind → Mint → A → Written d A
  unfolding default_project mint_meta written
  put_scoped s sc json bucket kind mt v =
      let m = default_project "default" (sc.get_meta v) in
      if str_eq m.name ""
      then (s, sc.with_meta v m, some (message "name is required"))
      else let m' = mint_meta mt m in
        let v' = sc.with_meta v m' in
        written s v'
          (record {
            kind = kind;
            op = op_put;
            project = m'.project;
            name = m'.name;
            value = some (sc.wrap v');
          })
          (put s json bucket (key_for m'.project m'.name) v')

  -- the deletes: `s.del`, and the event when it succeeds
  unfoldable pub deleted :
      Store d → Kind → String → String → Result (Store d) → Store d × Option Error
  deleted s kind project name (ok s') = (
    emit (record { kind = kind; op = op_delete; project = project; name = name; value = none }) s',
    none,
  )
  deleted s kind project name (err e) = (s, some e)

  unfoldable pub delete_scoped : Store d → String → Kind → String → String → Store d × Option Error
  unfolding deleted
  delete_scoped s bucket kind project name =
      deleted s kind project name (del s bucket (key_for project name))

  unfoldable pub local_delete : Store d → String → Kind → String → String → Store d × Option Error
  unfolding deleted local_key
  local_delete s bucket kind project name =
      deleted s kind project name (del s bucket (local_key kind project name))
