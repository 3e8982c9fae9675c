-- ===== src/Auth/Login.antt =====
-- internal/auth/auth.go: `Login`. The verification of a password and the text of the session's
-- second are arguments.
use selfcloud.Base.{ℕ, ◌*◌, String, ◌<>◌, Bool, invalid_credentials, Result, ok, err, if◌then◌else◌}
use selfcloud.Store.Types.{Time, User, Token}
use selfcloud.Store.Deps.{Deps}
use selfcloud.Store.Core.{Store}
use selfcloud.Store.Scoped.{Mint}
use selfcloud.Store.Typed.{put_user, get_user_by_email}
use selfcloud.Auth.Tokens.{create_token}

-- 30 days, in nanoseconds
abbrev pub session_ttl : ℕ
session_ttl = 30 * 24 * 3_600 * 1_000_000_000

-- What `Login` uses from outside: the hash, the verification, the fold of case, the new token, the
-- second in the session's name, and what the two writes mint.
pub record LoginCall : Type 0 where
  pub hash : String → String
  pub verify : String → String → Bool
  pub lower : String → String
  pub generated : Result String
  pub session : String
  pub token_mint : Mint
  pub user_mint : Mint
  pub now : Time

module _ {d : Deps} where
  -- the token was created: the time of the login is written, and an error of that is dropped
  unfoldable pub logged_in :
      LoginCall → User → Store d × Result Token → Store d × Result (Token × User)
  logged_in call u (s, err e) = (s, err e)
  logged_in call u (s, ok tok) =
      let w = put_user s call.user_mint (record u { last_login_at = call.now }) in
      (w.0, ok (tok, record w.1 { password_hash = "" }))

  unfoldable pub login_as : Store d → LoginCall → String → User → Store d × Result (Token × User)
  unfolding logged_in create_token
  login_as s call password u =
      if call.verify password u.password_hash
      then logged_in call u (
          create_token call.hash s call.token_mint call.now ("session-" <> call.session) u.meta.name
            call.generated session_ttl u.is_admin)
      else (s, err invalid_credentials)

  unfoldable pub login_found :
      Store d → LoginCall → String → Result User → Store d × Result (Token × User)
  unfolding login_as
  login_found s call password (err e) = (s, err invalid_credentials)
  login_found s call password (ok u) = login_as s call password u

  -- `Login`
  unfoldable pub login : Store d → LoginCall → String → String → Store d × Result (Token × User)
  unfolding login_found
  login s call email password = login_found s call password (get_user_by_email s call.lower email)
