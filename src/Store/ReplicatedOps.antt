-- ===== src/Store/ReplicatedOps.antt =====
-- The typed writes of internal/store/replicated_store.go against those of internal/store/store.go.
use selfcloud.Base.{String, ◌≡◌, refl, false, some, Result, ok, err, str_eq, Bool-cases, inl, inr}
use selfcloud.Store.Types.{
  Kind, kind_container, kind_function, kind_bucket, kind_access_key, kind_secret, kind_event_rule,
  Container, Function, Bucket, AccessKey, Secret, EventRule,
}
use selfcloud.Store.Deps.{
  Deps, container_scoped, function_scoped, bucket_scoped, access_key_scoped, secret_scoped,
  event_rule_scoped,
}
use selfcloud.Store.Core.{Store, key_for, del}
use selfcloud.Store.Scoped.{Mint, is_cluster_kind, local_key, deleted, delete_scoped, local_delete}
use selfcloud.Store.Typed.{
  put_container, put_function, put_bucket, put_access_key, put_secret, put_event_rule,
}
use selfcloud.Store.Fsm.{decode_kind, has_kind, applied, apply, apply_log}
use selfcloud.Store.Deletion.{delete_event}
use selfcloud.Store.Replicated.{
  RaftView, should_replicate, is_leader, delete_op, raft_apply, apply_typed_delete,
  replicated_put_container, replicated_put_function, replicated_put_bucket,
  replicated_put_access_key, replicated_put_secret, replicated_put_event_rule,
}
use selfcloud.Store.Replication.{Leads, Decodes, apply_typed_put-eq-put_scoped}

module _ (d : Deps) where
  pub container-Decodes : Decodes d container_scoped d.container_json kind_container
  unfolding decode_kind has_kind
  container-Decodes = record {
    kinded = refl;
    decodes = λ v raw m. rw (d.container_json.unmarshal-marshal v raw m);
  }

  function-Decodes : Decodes d function_scoped d.function_json kind_function
  unfolding decode_kind has_kind
  function-Decodes = record {
    kinded = refl;
    decodes = λ v raw m. rw (d.function_json.unmarshal-marshal v raw m);
  }

  bucket-Decodes : Decodes d bucket_scoped d.bucket_json kind_bucket
  unfolding decode_kind has_kind
  bucket-Decodes = record {
    kinded = refl;
    decodes = λ v raw m. rw (d.bucket_json.unmarshal-marshal v raw m);
  }

  access_key-Decodes : Decodes d access_key_scoped d.access_key_json kind_access_key
  unfolding decode_kind has_kind
  access_key-Decodes = record {
    kinded = refl;
    decodes = λ v raw m. rw (d.access_key_json.unmarshal-marshal v raw m);
  }

  secret-Decodes : Decodes d secret_scoped d.secret_json kind_secret
  unfolding decode_kind has_kind
  secret-Decodes = record {
    kinded = refl;
    decodes = λ v raw m. rw (d.secret_json.unmarshal-marshal v raw m);
  }

  event_rule-Decodes : Decodes d event_rule_scoped d.event_rule_json kind_event_rule
  unfolding decode_kind has_kind
  event_rule-Decodes = record {
    kinded = refl;
    decodes = λ v raw m. rw (d.event_rule_json.unmarshal-marshal v raw m);
  }

module _ {d : Deps} (s : Store d) (r : RaftView) (on : Leads d r) where
  -- On a leader whose entries encode and commit, each of the six replicated puts has the result of
  -- the local put of the same name: the store, its channels, the value with its metadata, and the
  -- error.
  pub replicated_puts-eq-local :
      (mt : Mint) (c : Container) (f : Function) (b : Bucket) (a : AccessKey) (x : Secret)
      (e : EventRule)
      → (replicated_put_container s (some r) mt c ≡ put_container s mt c)
        × (replicated_put_function s (some r) mt f ≡ put_function s mt f)
        × (replicated_put_bucket s (some r) mt b ≡ put_bucket s mt b)
        × (replicated_put_access_key s (some r) mt a ≡ put_access_key s mt a)
        × (replicated_put_secret s (some r) mt x ≡ put_secret s mt x)
        × (replicated_put_event_rule s (some r) mt e ≡ put_event_rule s mt e)
  unfolding replicated_put_container replicated_put_function replicated_put_bucket
      replicated_put_access_key replicated_put_secret replicated_put_event_rule put_container
      put_function put_bucket put_access_key put_secret put_event_rule
  replicated_puts-eq-local mt c f b a x e = (
    apply_typed_put-eq-put_scoped container_scoped d.container_json s r "containers" kind_container
        on (container-Decodes d) mt c,
    apply_typed_put-eq-put_scoped function_scoped d.function_json s r "functions" kind_function on
        (function-Decodes d) mt f,
    apply_typed_put-eq-put_scoped bucket_scoped d.bucket_json s r "buckets" kind_bucket on
        (bucket-Decodes d) mt b,
    apply_typed_put-eq-put_scoped access_key_scoped d.access_key_json s r "accesskeys"
        kind_access_key on (access_key-Decodes d) mt a,
    apply_typed_put-eq-put_scoped secret_scoped d.secret_json s r "secrets" kind_secret on
        (secret-Decodes d) mt x,
    apply_typed_put-eq-put_scoped event_rule_scoped d.event_rule_json s r "eventrules"
        kind_event_rule on (event_rule-Decodes d) mt e,
  )

module _ {d : Deps} (s : Store d) (kind : Kind) (project name : String) where
  deleted-eq-applied :
      (r : Result (Store d))
      → deleted s kind project name r ≡ applied s (delete_event kind project name) r
  unfolding deleted applied
  deleted-eq-applied (ok t) = refl
  deleted-eq-applied (err e) = refl

local_key-plain :
    (kind : Kind) (project name : String)
    → is_cluster_kind kind ≡ false
    → local_key kind project name ≡ key_for project name
unfolding local_key key_for
local_key-plain kind project name plain = elim (Bool-cases (str_eq project "")) [
  | inl e ↦ rw (plain, e)
  | inr e ↦ rw e
]

module _ {d : Deps} (s : Store d) (r : RaftView) (on : Leads d r) (bucket : String) (kind : Kind)
    (project name : String) where
  raft_apply-delete :
      raft_apply (some r) (delete_op d bucket kind project name) s
      ≡ applied s (delete_event kind project name) (del s bucket (key_for project name))
  unfolding raft_apply apply_log apply delete_op
  raft_apply-delete =
      let op = delete_op d bucket kind project name in
      let (entry, m) = on.encodes op in
      rw (on.leads, m, on.commits, d.log_json.unmarshal-marshal op entry m)

  -- Of a kind that is not stored under `system/`, a replicated delete on a leader whose entries
  -- encode and commit does what the local delete by project and name does.
  pub apply_typed_delete-eq-delete_scoped :
      is_cluster_kind kind ≡ false
      → apply_typed_delete s (some r) bucket kind project name
        ≡ delete_scoped s bucket kind project name
  unfolding apply_typed_delete local_delete delete_scoped is_leader
  apply_typed_delete-eq-delete_scoped plain = elim (Bool-cases (should_replicate (some r))) [
    | inl several ↦ rw (several, raft_apply-delete, deleted-eq-applied) (simp on.leads)
    | inr alone ↦ rw (alone, local_key-plain kind project name plain)
  ]
