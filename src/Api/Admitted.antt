-- ===== src/Api/Admitted.antt =====
-- The middleware requireAuth of internal/api/server.go: who a request reaches.
use selfcloud.Base.{◌≤◌, ◌<◌, ◌≢◌, Error, ℕ, ◌≡◌, ◌⊎◌, ok, err}
use selfcloud.Store.Deps.{Deps}
use selfcloud.Store.Core.{Store}
use selfcloud.Store.Types.{Time, Token}
use selfcloud.Store.Typed.{get_token_by_hash}
use selfcloud.Auth.Tokens.{Identity}
use selfcloud.Api.Reply.{status_of, Handled}
use selfcloud.Api.Guard.{Request, AuthCall, request_token}

module _ {d : Deps} (A : Type 0) (s : Store d) (r : Request) where
  -- the request was not handled: the store is as it was
  abbrev pub Refused : ℕ → Handled d A → Type 0
  Refused code h = (h.0 ≡ s) × (status_of h.1 ≡ code)

  -- a token that does not expire, or has not yet
  abbrev pub IsValid : Time → Token → Type 0
  IsValid now t = (t.expires_at ≡ 0) ⊎ (now ≤ t.expires_at)

  -- the token and the identity behind a result of `ResolveToken`
  abbrev pub Resolves : AuthCall → Identity → Type 0
  Resolves call id =
      (t : Token) × (get_token_by_hash s (call.hash (request_token call r)) ≡ ok t)
      × IsValid call.now t
      × (id.user_id ≡ t.user_id)
      × (id.is_admin ≡ t.is_admin)

  -- the token is not stored, or it has expired
  abbrev pub Unresolved : AuthCall → Type 0
  Unresolved call =
      ((e : Error) × (get_token_by_hash s (call.hash (request_token call r)) ≡ err e))
      ⊎ ((t : Token) × (get_token_by_hash s (call.hash (request_token call r)) ≡ ok t)
          × (t.expires_at ≢ 0)
          × (t.expires_at < call.now))
