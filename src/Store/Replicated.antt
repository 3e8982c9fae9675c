-- ===== src/Store/Replicated.antt =====
-- internal/store/replicated_store.go, and `Apply` of internal/store/raft.go. hashicorp/raft is not
-- part of the repository: what it answers at a call is a parameter.
use selfcloud.Base.{
  String, Bool, true, false, Option, none, some, List, length, leb, str_eq, Error, not_leader,
  message, Result, ok, err, if◌then◌else◌,
}
use selfcloud.Store.Types.{
  Kind, kind_container, kind_function, kind_bucket, kind_access_key, kind_secret, kind_event_rule,
  Meta, Container, Function, Bucket, AccessKey, Secret, EventRule,
}
use selfcloud.Store.Deps.{
  Deps, Json, ProjectScoped, LogOp, put_log, delete_log, container_scoped, function_scoped,
  bucket_scoped, access_key_scoped, secret_scoped, event_rule_scoped,
}
use selfcloud.Store.Core.{Store, key_for}
use selfcloud.Store.Scoped.{Mint, Written, default_project, mint_meta, put_scoped, local_delete}
use selfcloud.Store.Fsm.{apply_log}

-- What the raft library answers: the configured servers, whether this node leads, and whether
-- the future of `Apply` fails. Without a failure the entry is committed and applied here.
pub record RaftView : Type 0 where
  pub servers : Result (List String)
  pub leader : Bool
  pub commit_error : Option Error

-- one voter, or none that is known, is not replicated
unfoldable pub several : Result (List String) → Bool
several (ok servers) = if leb (length servers) 1 then false else true
several (err e) = false

unfoldable pub should_replicate : Option RaftView → Bool
unfolding several
should_replicate none = false
should_replicate (some r) = several r.servers

unfoldable pub is_leader : Option RaftView → Bool
is_leader none = false
is_leader (some r) = r.leader

unfoldable pub put_op : {Raw : Type 0} → String → Kind → String → String → Raw → LogOp Raw
put_op bucket kind project name raw = record {
  op = put_log;
  bucket = bucket;
  kind = kind;
  project = project;
  name = name;
  key = key_for project name;
  value = raw;
}

unfoldable pub delete_op : (d : Deps) → String → Kind → String → String → LogOp d.Raw
delete_op d bucket kind project name = record {
  op = delete_log;
  bucket = bucket;
  kind = kind;
  project = project;
  name = name;
  key = key_for project name;
  value = d.no_value;
}

module _ {d : Deps} where
  unfoldable pub submitted : d.Raw → Option Error → Store d → Store d × Option Error
  submitted entry (some e) s = (s, some e)
  submitted entry none s = apply_log entry s

  unfoldable pub submit : Result d.Raw → Option Error → Store d → Store d × Option Error
  unfolding submitted
  submit (err e) failed s = (s, some e)
  submit (ok entry) failed s = submitted entry failed s

  -- `Raft.Apply`
  unfoldable pub raft_apply : Option RaftView → LogOp d.Raw → Store d → Store d × Option Error
  unfolding submit
  raft_apply none op s = (s, some not_leader)
  raft_apply (some r) op s =
      if r.leader then submit (d.log_json.marshal op) r.commit_error s else (s, some not_leader)

  unfoldable pub ship :
      {A : Type 0}
      → Option RaftView
      → String
      → Kind
      → String
      → String
      → A
      → Result d.Raw
      → Store d
      → Written d A
  ship raft bucket kind project name v (err e) s = (s, v, some e)
  ship raft bucket kind project name v (ok raw) s =
      let (s', e) = raft_apply raft (put_op bucket kind project name raw) s in (s', v, e)

  -- the path of the leader: the metadata is minted here, and the bytes are shipped
  unfoldable pub leader_put :
      {A : Type 0}
      → Store d
      → Option RaftView
      → ProjectScoped A
      → Json d A
      → String
      → Kind
      → Mint
      → Meta
      → A
      → Written d A
  unfolding mint_meta ship put_op
  leader_put s raft sc json bucket kind mt m v =
      let m' = mint_meta mt m in
      let v' = sc.with_meta v m' in ship raft bucket kind m'.project m'.name v' (json.marshal v') s

  unfoldable pub apply_typed_put :
      {A : Type 0}
      → Store d
      → Option RaftView
      → ProjectScoped A
      → Json d A
      → String
      → Kind
      → Mint
      → A
      → Written d A
  unfolding default_project leader_put
  apply_typed_put s raft sc json bucket kind mt v =
      let m = default_project "default" (sc.get_meta v) in
      let named = sc.with_meta v m in
      if str_eq m.name ""
      then (s, named, some (message "name is required"))
      else if should_replicate raft
      then if is_leader raft
        then leader_put s raft sc json bucket kind mt m named
        else (s, named, some not_leader)
      else put_scoped s sc json bucket kind mt named

  unfoldable pub apply_typed_delete :
      Store d → Option RaftView → String → Kind → String → String → Store d × Option Error
  unfolding delete_op
  apply_typed_delete s raft bucket kind project name =
      if should_replicate raft
      then if is_leader raft
        then raft_apply raft (delete_op d bucket kind project name) s
        else (s, some not_leader)
      else local_delete s bucket kind project name

  unfoldable pub replicated_put_container :
      Store d → Option RaftView → Mint → Container → Written d Container
  replicated_put_container s raft =
      apply_typed_put s raft container_scoped d.container_json "containers" kind_container

  unfoldable pub replicated_delete_container :
      Store d → Option RaftView → String → String → Store d × Option Error
  replicated_delete_container s raft = apply_typed_delete s raft "containers" kind_container

  unfoldable pub replicated_put_function :
      Store d → Option RaftView → Mint → Function → Written d Function
  replicated_put_function s raft =
      apply_typed_put s raft function_scoped d.function_json "functions" kind_function

  unfoldable pub replicated_delete_function :
      Store d → Option RaftView → String → String → Store d × Option Error
  replicated_delete_function s raft = apply_typed_delete s raft "functions" kind_function

  unfoldable pub replicated_put_bucket :
      Store d → Option RaftView → Mint → Bucket → Written d Bucket
  replicated_put_bucket s raft =
      apply_typed_put s raft bucket_scoped d.bucket_json "buckets" kind_bucket

  unfoldable pub replicated_delete_bucket :
      Store d → Option RaftView → String → String → Store d × Option Error
  replicated_delete_bucket s raft = apply_typed_delete s raft "buckets" kind_bucket

  unfoldable pub replicated_put_access_key :
      Store d → Option RaftView → Mint → AccessKey → Written d AccessKey
  replicated_put_access_key s raft =
      apply_typed_put s raft access_key_scoped d.access_key_json "accesskeys" kind_access_key

  unfoldable pub replicated_delete_access_key :
      Store d → Option RaftView → String → String → Store d × Option Error
  replicated_delete_access_key s raft = apply_typed_delete s raft "accesskeys" kind_access_key

  unfoldable pub replicated_put_secret :
      Store d → Option RaftView → Mint → Secret → Written d Secret
  replicated_put_secret s raft =
      apply_typed_put s raft secret_scoped d.secret_json "secrets" kind_secret

  unfoldable pub replicated_delete_secret :
      Store d → Option RaftView → String → String → Store d × Option Error
  replicated_delete_secret s raft = apply_typed_delete s raft "secrets" kind_secret

  unfoldable pub replicated_put_event_rule :
      Store d → Option RaftView → Mint → EventRule → Written d EventRule
  replicated_put_event_rule s raft =
      apply_typed_put s raft event_rule_scoped d.event_rule_json "eventrules" kind_event_rule

  unfoldable pub replicated_delete_event_rule :
      Store d → Option RaftView → String → String → Store d × Option Error
  replicated_delete_event_rule s raft = apply_typed_delete s raft "eventrules" kind_event_rule
