-- ===== src/Api/Cluster.antt =====
-- internal/api/cluster.go: the cluster configuration and join tokens, and what a request of the S3
-- proxy is about.
use selfcloud.Base.{
  ℕ, ◌*◌, String, ◌<>◌, Bool, false, Option, none, some, List, [], ◌∷◌, any_of, str_eq, ltb, Error,
  Result, ok, err, if◌then◌else◌,
}
use selfcloud.Store.Types.{Time, ClusterConfig, JoinToken, Project, Bucket}
use selfcloud.Store.Deps.{Deps}
use selfcloud.Store.Core.{Store}
use selfcloud.Store.Scoped.{Written}
use selfcloud.Store.Typed.{get_cluster, put_cluster, list_projects, list_buckets}
use selfcloud.Auth.Tokens.{Identity}
use selfcloud.Cluster.Tokens.{issue, list_join_tokens}
use selfcloud.Api.Reply.{Reply, json, failed, server_error, Handled}

-- what is returned of the configuration to a caller
unfoldable pub redact_cluster : ClusterConfig → ClusterConfig
redact_cluster cfg = record cfg {
  bootstrap_token = "";
  garage_rpc_secret = "";
  garage_admin_token = "";
  s3_internal_key_id = "";
  s3_internal_key_secret = "";
  join_tokens = [];
}

unfoldable pub cluster_reply : (Error → String) → Result ClusterConfig → Reply ClusterConfig
unfolding server_error redact_cluster
cluster_reply texts (ok cfg) = json 200 (redact_cluster cfg)
cluster_reply texts (err e) = server_error texts e

-- the two fields that a request can set
unfoldable pub edited : ClusterConfig → ClusterConfig → ClusterConfig
edited body cur = record cur {
  multi_node = body.multi_node;
  replication_factor =
      if ltb 0 body.replication_factor then body.replication_factor else cur.replication_factor;
}

-- an id, the plaintext, the expiry and the command to run
pub record IssuedToken : Type 0 where
  pub id : String
  pub token : String
  pub expires_at : Time
  pub command : String

-- what the issue of a token draws from outside; `parse_ttl` is `time.ParseDuration`
pub record IssueCall : Type 0 where
  pub texts : Error → String
  pub hash : String → String
  pub parse_ttl : String → Result ℕ
  pub id : String
  pub secret : String
  pub host : String
  pub now : Time

-- 24 hours, in nanoseconds
abbrev pub join_ttl : ℕ
join_ttl = 24 * 3_600 * 1_000_000_000

unfoldable pub ttl_or_day : Result ℕ → ℕ
ttl_or_day (ok ttl) = ttl
ttl_or_day (err e) = join_ttl

unfoldable pub issue_ttl : (String → Result ℕ) → String → ℕ
unfolding ttl_or_day
issue_ttl parse text = if str_eq text "" then join_ttl else ttl_or_day (parse text)

unfoldable pub join_command : String → String → String
join_command host plain =
    "curl -fsSL https://get.selfcloud.dev | sh -s -- --join " <> host <> " --token " <> plain

unfoldable pub join_tokens_reply :
    (Error → String) → Result (List JoinToken) → Reply (List JoinToken)
unfolding server_error
join_tokens_reply texts (ok ts) = json 200 ts
join_tokens_reply texts (err e) = server_error texts e

unfoldable pub owns : String → Result (List Bucket) → Bool
owns bucket (ok bs) = any_of (λ b. str_eq b.meta.name bucket) bs
owns bucket (err e) = false

module _ {d : Deps} where
  -- `handleGetCluster`
  unfoldable pub handle_get_cluster : Store d → (Error → String) → Reply ClusterConfig
  unfolding cluster_reply
  handle_get_cluster s texts = cluster_reply texts (get_cluster s)

  unfoldable pub cluster_written :
      (Error → String) → ClusterConfig → Written d ClusterConfig → Handled d ClusterConfig
  unfolding server_error
  cluster_written texts cur (s, c, none) = (s, json 200 c)
  cluster_written texts cur (s, c, some e) = (s, server_error texts e)

  unfoldable pub edit_cluster :
      Store d
      → (Error → String)
      → Time
      → ClusterConfig
      → Result ClusterConfig
      → Handled d ClusterConfig
  unfolding cluster_written edited server_error
  edit_cluster s texts now body (err e) = (s, server_error texts e)
  edit_cluster s texts now body (ok cur) =
      cluster_written texts cur (put_cluster s now (edited body cur))

  unfoldable pub edit_decoded :
      Store d → (Error → String) → Time → Result ClusterConfig → Handled d ClusterConfig
  unfolding edit_cluster
  edit_decoded s texts now (err e) = (s, failed 400 (texts e))
  edit_decoded s texts now (ok body) = edit_cluster s texts now body (get_cluster s)

  -- `handlePutCluster`
  unfoldable pub handle_put_cluster :
      Store d
      → (Error → String)
      → Time
      → Option Identity
      → Result ClusterConfig
      → Handled d ClusterConfig
  unfolding edit_decoded
  handle_put_cluster s texts now none body = (s, failed 403 "admin only")
  handle_put_cluster s texts now (some id) body =
      if id.is_admin then edit_decoded s texts now body else (s, failed 403 "admin only")

  unfoldable pub issued_reply :
      IssueCall → Store d × Result (String × JoinToken) → Handled d IssuedToken
  unfolding server_error join_command
  issued_reply call (s, err e) = (s, server_error call.texts e)
  issued_reply call (s, ok (plain, tok)) = (
    s,
    json 201 (record {
      id = tok.id;
      token = plain;
      expires_at = tok.expires_at;
      command = join_command call.host plain;
    }),
  )

  -- `handleIssueJoinToken`; a body that is not decoded has no duration
  unfoldable pub handle_issue_join_token :
      Store d → IssueCall → Option Identity → String → Handled d IssuedToken
  unfolding issued_reply issue_ttl
  handle_issue_join_token s call none ttl = (s, failed 403 "admin only")
  handle_issue_join_token s call (some id) ttl =
      if id.is_admin
      then issued_reply call
          (issue call.hash s call.now call.id call.secret id.user_id (issue_ttl call.parse_ttl ttl))
      else (s, failed 403 "admin only")

  -- `handleListJoinTokens`
  unfoldable pub handle_list_join_tokens : Store d → (Error → String) → Reply (List JoinToken)
  unfolding join_tokens_reply
  handle_list_join_tokens s texts = join_tokens_reply texts (list_join_tokens s)

  -- the loops of `bucketProject`
  unfoldable pub owner : Store d → String → List Project → String
  unfolding owns
  owner s bucket [] = ""
  owner s bucket (p ∷ ps) =
      let rest = owner s bucket ps in
      if owns bucket (list_buckets s p.meta.name) then p.meta.name else rest

  unfoldable pub owner_listed : Store d → String → Result (List Project) → String
  unfolding owner
  owner_listed s bucket (ok ps) = owner s bucket ps
  owner_listed s bucket (err e) = ""

  -- `bucketProject`
  unfoldable pub bucket_project : Store d → String → String
  unfolding owner_listed
  bucket_project s bucket = owner_listed s bucket (list_projects s)
