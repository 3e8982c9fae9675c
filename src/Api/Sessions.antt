-- ===== src/Api/Sessions.antt =====
-- internal/api/handlers.go: login, the caller's identity and API tokens.
use selfcloud.Base.{
  ℕ, String, Option, none, some, List, str_eq, Error, Result, ok, err, if◌then◌else◌,
}
use selfcloud.Store.Types.{Time, User, Token}
use selfcloud.Store.Deps.{Deps}
use selfcloud.Store.Core.{Store}
use selfcloud.Store.Scoped.{Mint}
use selfcloud.Store.Typed.{get_user, list_tokens, delete_token}
use selfcloud.Auth.Tokens.{Identity, create_token}
use selfcloud.Auth.Login.{LoginCall, login}
use selfcloud.Api.Reply.{Reply, json, failed, read_reply, reply_deleted, reply_result, Handled}
use selfcloud.Api.Setup.{Session}

pub record LoginReq : Type 0 where
  pub email : String
  pub password : String

pub record CreateTokenReq : Type 0 where
  pub name : String
  pub ttl : String

-- what the creation of a token draws from outside; `parse_ttl` is `time.ParseDuration`, with 0 for
-- every duration that is not positive
pub record TokenCall : Type 0 where
  pub texts : Error → String
  pub hash : String → String
  pub generated : Result String
  pub parse_ttl : String → Result ℕ
  pub mint : Mint
  pub now : Time

abbrev pub Me : Type 0
Me = Identity × Option User

unfoldable pub me_reply : Identity → Result User → Reply Me
me_reply id (ok u) = json 200 (id, some u)
me_reply id (err e) = json 200 (id, none)

-- the duration of a request: none means 0
unfoldable pub requested_ttl : (String → Result ℕ) → String → Result ℕ
requested_ttl parse text = if str_eq text "" then ok 0 else parse text

module _ {d : Deps} where
  unfoldable pub login_reply : Store d × Result (Token × User) → Handled d Session
  login_reply (s, ok (tok, u)) = (s, json 200 (u, tok.plaintext))
  login_reply (s, err e) = (s, failed 401 "invalid credentials")

  -- `handleLogin`
  unfoldable pub handle_login :
      Store d → LoginCall → (Error → String) → Result LoginReq → Handled d Session
  unfolding login_reply
  handle_login s call texts (err e) = (s, failed 400 (texts e))
  handle_login s call texts (ok body) = login_reply (login s call body.email body.password)

  -- `handleMe`
  unfoldable pub handle_me : Store d → Option Identity → Reply Me
  unfolding me_reply
  handle_me s none = failed 401 "no identity"
  handle_me s (some id) = me_reply id (get_user s id.user_id)

  unfoldable pub create_with_ttl :
      Store d → TokenCall → Identity → String → Result ℕ → Handled d Token
  unfolding reply_result
  create_with_ttl s call id name (err e) = (s, failed 400 "invalid ttl")
  create_with_ttl s call id name (ok ttl) =
      reply_result call.texts 201
        (create_token call.hash s call.mint call.now name id.user_id call.generated ttl id.is_admin)

  -- `handleCreateToken`
  unfoldable pub handle_create_token :
      Store d → TokenCall → Option Identity → Result CreateTokenReq → Handled d Token
  unfolding create_with_ttl requested_ttl
  handle_create_token s call none body = (s, failed 401 "no identity")
  handle_create_token s call (some id) (err e) = (s, failed 400 (call.texts e))
  handle_create_token s call (some id) (ok body) =
      if str_eq body.name ""
      then (s, failed 400 "name required")
      else create_with_ttl s call id body.name (requested_ttl call.parse_ttl body.ttl)

  -- `handleListTokens`
  unfoldable pub handle_list_tokens : Store d → (Error → String) → Reply (List Token)
  unfolding read_reply
  handle_list_tokens s texts = read_reply texts (λ ts. ts) (list_tokens s)

  -- `handleDeleteToken`
  unfoldable pub handle_delete_token : Store d → (Error → String) → String → Handled d Token
  unfolding reply_deleted
  handle_delete_token s texts name = reply_deleted texts (delete_token s name)
