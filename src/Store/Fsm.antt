-- ===== src/Store/Fsm.antt =====
-- internal/store/fsm.go: the replicated state machine over the store.
use selfcloud.Base.{
  List, [], ◌∷◌, Bool, true, false, Option, none, some, Error, message, Result, ok, err, ◌>>=◌,
  map_ok, str_eq, if◌then◌else◌,
}
use selfcloud.Store.Types.{
  Kind, kind_project, kind_node, kind_container, kind_function, kind_bucket, kind_access_key,
  kind_user, kind_token, kind_cluster, kind_secret, kind_event_rule, kind_build, kind_event,
  kind_other, Resource, project_value, container_value, function_value, bucket_value,
  access_key_value, secret_value, event_rule_value, cluster_value, node_value, user_value,
  token_value, build_value, Event, op_put, op_delete,
}
use selfcloud.Store.Deps.{Deps, LogOp, LogKind, put_log, delete_log, other_log}
use selfcloud.Store.Core.{Store, emit, put_raw, del}

unfoldable pub decode_kind : (d : Deps) → Kind → d.Raw → Result Resource
decode_kind d kind_project raw = map_ok project_value (d.project_json.unmarshal raw)
decode_kind d kind_container raw = map_ok container_value (d.container_json.unmarshal raw)
decode_kind d kind_function raw = map_ok function_value (d.function_json.unmarshal raw)
decode_kind d kind_bucket raw = map_ok bucket_value (d.bucket_json.unmarshal raw)
decode_kind d kind_access_key raw = map_ok access_key_value (d.access_key_json.unmarshal raw)
decode_kind d kind_secret raw = map_ok secret_value (d.secret_json.unmarshal raw)
decode_kind d kind_event_rule raw = map_ok event_rule_value (d.event_rule_json.unmarshal raw)
decode_kind d kind_cluster raw = map_ok cluster_value (d.cluster_json.unmarshal raw)
decode_kind d kind_node raw = map_ok node_value (d.node_json.unmarshal raw)
decode_kind d kind_user raw = map_ok user_value (d.user_json.unmarshal raw)
decode_kind d kind_token raw = map_ok token_value (d.token_json.unmarshal raw)
decode_kind d kind_build raw = map_ok build_value (d.build_json.unmarshal raw)
decode_kind d kind_event raw = err (message "unknown kind")
decode_kind d (kind_other k) raw = err (message "unknown kind")

-- `op.Kind != ""`
unfoldable pub has_kind : Kind → Bool
has_kind (kind_other k) = if str_eq k "" then false else true
has_kind _ = true

unfoldable pub ok_value {ℓ} : {A : Type ℓ} → Result A → Option A
ok_value (ok a) = some a
ok_value (err e) = none

module _ {d : Deps} where
  unfoldable pub applied : Store d → Event → Result (Store d) → Store d × Option Error
  applied s ev (ok s') = (emit ev s', none)
  applied s ev (err e) = (s, some e)

  unfoldable pub apply_as : LogKind → LogOp d.Raw → Store d → Store d × Option Error
  unfolding applied has_kind ok_value
  apply_as put_log op s =
      applied s
        (record {
          kind = op.kind;
          op = op_put;
          project = op.project;
          name = op.name;
          value = if has_kind op.kind then ok_value (decode_kind d op.kind op.value) else none;
        })
        (d.compact op.value >>= λ raw. put_raw s op.bucket op.key raw)
  apply_as delete_log op s =
      applied s
        (record {
          kind = op.kind;
          op = op_delete;
          project = op.project;
          name = op.name;
          value = none;
        })
        (del s op.bucket op.key)
  apply_as (other_log text) op s = (s, some (message "unknown op"))

  -- `FSM.apply`
  unfoldable pub apply : LogOp d.Raw → Store d → Store d × Option Error
  unfolding apply_as
  apply op s = apply_as op.op op s

  -- `FSM.Apply` after `json.Unmarshal`
  unfoldable pub apply_decoded : Result (LogOp d.Raw) → Store d → Store d × Option Error
  apply_decoded (ok op) s = apply op s
  apply_decoded (err e) s = (s, some (message "decode log"))

  -- `FSM.Apply`
  unfoldable pub apply_log : d.Raw → Store d → Store d × Option Error
  unfolding apply_decoded
  apply_log entry s = apply_decoded (d.log_json.unmarshal entry) s

  -- A replica: the committed entries, one after another.
  unfoldable pub replay : List d.Raw → Store d → Store d
  replay [] s = s
  replay (entry ∷ log) s = replay log (apply_log entry s).0
