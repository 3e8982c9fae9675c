-- ===== src/Api/Guard.antt =====
-- internal/api/server.go: the middleware. `lower` and `trim` are `strings.ToLower` and
-- `strings.TrimSpace`.
use selfcloud.Base.{
  ℕ, zero, suc, String, ◌<>◌, Bool, not, ◌&&◌, ◌||◌, Option, none, some, List, [], ◌∷◌, any_of,
  find_first, str_eq, Result, ok, err, if◌then◌else◌,
}
use selfcloud.Store.Types.{Time, Node}
use selfcloud.Store.Deps.{Deps}
use selfcloud.Store.Core.{Store, has_prefix}
use selfcloud.Store.Typed.{list_nodes}
use selfcloud.Auth.Tokens.{Identity, resolve_token}
use selfcloud.Api.Reply.{failed, no_content, redirected, Handled}

-- what the guards read of a request
pub record Request : Type 0 where
  pub verb : String  -- Method
  pub path : String
  pub uri : String
  pub authorization : String
  pub access_token : String

pub record AuthCall : Type 0 where
  pub hash : String → String
  pub lower : String → String
  pub trim : String → String
  pub now : Time

-- `raft`, where it is wired
pub record LeaderView : Type 0 where
  pub leads : Bool
  pub leader_addr : String

-- `s[n:]`
unfoldable pub drop_text : ℕ → String → String
drop_text zero s = s
drop_text (suc n) String.[] = String.[]
drop_text (suc n) (String.◌∷◌ c s) = drop_text n s

-- the token of the header, or else of the query
unfoldable pub request_token : AuthCall → Request → String
unfolding drop_text has_prefix
request_token call r =
    if has_prefix (call.lower r.authorization) "bearer "
    then call.trim (drop_text 7 r.authorization)
    else r.access_token

-- the paths that `leaderRedirect` leaves to this node
abbrev pub exempt_prefixes : List String
exempt_prefixes =
    "/healthz" ∷ "/readyz" ∷ "/api/v1/meta" ∷ "/api/v1/setup/" ∷ "/api/v1/auth/login"
    ∷ "/api/v1/cluster/join" ∷ "/fn/" ∷ "/webhooks/" ∷ "/s3/" ∷ "/assets" ∷ []

unfoldable pub exempt : String → Bool
unfolding has_prefix
exempt path =
    any_of (has_prefix path) exempt_prefixes || str_eq path "/" || not (has_prefix path "/api/")

unfoldable pub is_read : String → Bool
is_read verb = str_eq verb "GET" || str_eq verb "HEAD" || str_eq verb "OPTIONS"

unfoldable pub api_address_of : Option Node → String
api_address_of none = ""
api_address_of (some n) = n.api_address

-- the loop of `leaderAPIAddr`
unfoldable pub leader_node : String → List Node → Option Node
leader_node raft_addr =
    find_first (λ n. str_eq n.raft_address raft_addr && not (str_eq n.api_address ""))

unfoldable pub found_address : String → Result (List Node) → String
unfolding api_address_of leader_node
found_address raft_addr (err e) = ""
found_address raft_addr (ok nodes) = api_address_of (leader_node raft_addr nodes)

module _ {d : Deps} where
  -- `leaderAPIAddr`
  unfoldable pub leader_api_addr : Store d → String → String
  unfolding found_address
  leader_api_addr s raft_addr = found_address raft_addr (list_nodes s)

module _ {d : Deps} {A : Type 0} where
  unfoldable pub admitted :
      Store d → Bool → (Identity → Store d → Handled d A) → Result Identity → Handled d A
  admitted s admin_only next (err e) = (s, failed 401 "invalid token")
  admitted s admin_only next (ok id) =
      if admin_only && not id.is_admin then (s, failed 403 "admin only") else next id s

  -- `requireAuth`
  unfoldable pub require_auth :
      Store d → AuthCall → Bool → Request → (Identity → Store d → Handled d A) → Handled d A
  unfolding request_token admitted
  require_auth s call admin_only r next =
      let token = request_token call r in
      if str_eq token ""
      then (s, failed 401 "missing bearer token")
      else admitted s admin_only next (resolve_token call.hash s call.now token)

  unfoldable pub redirect_to : Store d → Request → String → Handled d A
  redirect_to s r address =
      if str_eq address ""
      then (s, failed 503 "leader api address unknown")
      else (s, redirected (("https://" <> address) <> r.uri))

  unfoldable pub follower_reply : Store d → Request → String → Handled d A
  unfolding redirect_to leader_api_addr
  follower_reply s r raft_addr =
      if str_eq raft_addr ""
      then (s, failed 503 "no raft leader yet")
      else redirect_to s r (leader_api_addr s raft_addr)

  -- `leaderRedirect`
  unfoldable pub leader_redirect :
      Store d → Option LeaderView → Request → (Store d → Handled d A) → Handled d A
  unfolding is_read exempt follower_reply
  leader_redirect s none r next = next s
  leader_redirect s (some raft) r next =
      if is_read r.verb || exempt r.path || raft.leads
      then next s
      else follower_reply s r raft.leader_addr

  -- `cors`, but for the headers
  unfoldable pub cors : Store d → Request → (Store d → Handled d A) → Handled d A
  cors s r next = if str_eq r.verb "OPTIONS" then (s, no_content) else next s
