-- ===== src/Cluster/Tokens.antt =====
-- internal/cluster/cluster.go: join tokens. `hash` is `hashHex`.
use selfcloud.Base.{
  ℕ, ◌+◌, String, ◌<>◌, Option, none, some, List, [], ◌∷◌, ◌++◌, map, str_eq, ltb, Error,
  invalid_token, token_used, token_expired, Result, ok, err, map_ok, if◌then◌else◌,
}
use selfcloud.Store.Types.{Time, JoinToken, ClusterConfig}
use selfcloud.Store.Deps.{Deps}
use selfcloud.Store.Core.{Store}
use selfcloud.Store.Typed.{get_cluster, put_cluster}

-- the loop of `Consume`: the tokens with the first one of the hash marked, or the error
unfoldable pub mark : String → String → Time → List JoinToken → Result (List JoinToken)
mark hash consumed_by now [] = err invalid_token
mark hash consumed_by now (t ∷ ts) =
    let rest = mark hash consumed_by now ts in
    if str_eq t.hash_hex hash
    then if str_eq t.consumed_by ""
      then if ltb t.expires_at now
        then err token_expired
        else ok (record t { consumed_by = consumed_by } ∷ ts)
      else err token_used
    else map_ok (◌∷◌ t) rest

unfoldable pub redact_join_token : JoinToken → JoinToken
redact_join_token t = record t { hash_hex = "" }

module _ {d : Deps} where
  unfoldable pub issue_with :
      Store d
      → Time
      → String
      → JoinToken
      → Result ClusterConfig
      → Store d × Result (String × JoinToken)
  issue_with s now plain tok (err e) = (s, err e)
  issue_with s now plain tok (ok cfg) =
      let (s', c, e) =
        put_cluster s now (record cfg { join_tokens = cfg.join_tokens ++ tok ∷ [] }) in
      (s', elim e [ none ↦ ok (plain, tok) | some x ↦ err x ])

  unfoldable pub consume_marked :
      Store d → Time → ClusterConfig → Result (List JoinToken) → Store d × Option Error
  consume_marked s now cfg (err e) = (s, some e)
  consume_marked s now cfg (ok ts) =
      let (s', c, e) = put_cluster s now (record cfg { join_tokens = ts }) in (s', e)

module _ {d : Deps} (hash : String → String) where
  -- `Issue`; `id` and `secret` are the hexadecimal texts of the random bytes
  unfoldable pub issue :
      Store d → Time → String → String → String → ℕ → Store d × Result (String × JoinToken)
  unfolding issue_with
  issue s now id secret issued_by ttl =
      let plain = "scjoin_" <> secret in
      issue_with s now plain
        (record {
          id = id;
          hash_hex = hash plain;
          issued_by = issued_by;
          issued_at = now;
          expires_at = now + ttl;
          consumed_by = "";
        })
        (get_cluster s)

  unfoldable pub consume_with :
      Store d → Time → String → String → Result ClusterConfig → Store d × Option Error
  unfolding mark consume_marked
  consume_with s now plain consumed_by (err e) = (s, some e)
  consume_with s now plain consumed_by (ok cfg) =
      consume_marked s now cfg (mark (hash plain) consumed_by now cfg.join_tokens)

  unfoldable pub consume : Store d → Time → String → String → Store d × Option Error
  unfolding consume_with
  consume s now plain consumed_by = consume_with s now plain consumed_by (get_cluster s)

module _ {d : Deps} where
  unfoldable pub list_join_tokens : Store d → Result (List JoinToken)
  unfolding redact_join_token
  list_join_tokens s = map_ok (λ cfg. map redact_join_token cfg.join_tokens) (get_cluster s)
