-- ===== src/Api/Secrets.antt =====
-- internal/api/secrets.go
use selfcloud.Base.{String, Option, none, some, List, str_eq, Error, Result, ok, err, if◌then◌else◌}
use selfcloud.Store.Types.{Time, Bytes, Secret}
use selfcloud.Store.Deps.{Deps}
use selfcloud.Store.Core.{Store}
use selfcloud.Store.Scoped.{Mint}
use selfcloud.Store.Typed.{list_secrets, get_secret, delete_secret, redact_secret}
use selfcloud.Secrets.Manager.{Manager, store_secret, reveal_secret}
use selfcloud.Auth.Tokens.{Identity}
use selfcloud.Api.Reply.{
  Reply, json, failed, store_error, read_reply, reply_result, reply_deleted, Handled,
}

pub record PutSecretReq : Type 0 where
  pub name : String
  pub description : String
  pub value : String

pub record SecretCall : Type 0 where
  pub texts : Error → String
  pub manager : Option Manager
  pub nonce : Result Bytes
  pub mint : Mint
  pub now : Time

-- the name and the plaintext
abbrev pub RevealedSecret : Type 0
RevealedSecret = String × String

unfoldable pub revealed_reply : (Error → String) → String → Result String → Reply RevealedSecret
unfolding store_error
revealed_reply texts name (ok pt) = json 200 (name, pt)
revealed_reply texts name (err e) = store_error texts e

module _ {d : Deps} where
  -- `handleListSecrets`
  unfoldable pub handle_list_secrets : Store d → (Error → String) → String → Reply (List Secret)
  unfolding read_reply
  handle_list_secrets s texts project = read_reply texts (λ xs. xs) (list_secrets s project)

  unfoldable pub put_secret_decoded :
      Store d → SecretCall → Manager → String → Result PutSecretReq → Handled d Secret
  unfolding reply_result
  put_secret_decoded s call m project (err e) = (s, failed 400 (call.texts e))
  put_secret_decoded s call m project (ok body) =
      if str_eq body.name ""
      then (s, failed 400 "name required")
      else if str_eq body.value ""
      then (s, failed 400 "value required")
      else reply_result call.texts 201 (
          store_secret s m call.mint call.now call.nonce project body.name body.description
            body.value)

  unfoldable pub put_secret_with :
      Store d → SecretCall → String → Result PutSecretReq → Option Manager → Handled d Secret
  unfolding put_secret_decoded
  put_secret_with s call project body none = (s, failed 503 "secrets manager not configured")
  put_secret_with s call project body (some m) = put_secret_decoded s call m project body

  -- `handlePutSecret`
  unfoldable pub handle_put_secret :
      Store d → SecretCall → String → Result PutSecretReq → Handled d Secret
  unfolding put_secret_with
  handle_put_secret s call project body = put_secret_with s call project body call.manager

  -- `handleGetSecret`
  unfoldable pub handle_get_secret : Store d → (Error → String) → String → String → Reply Secret
  unfolding read_reply redact_secret
  handle_get_secret s texts project name =
      read_reply texts redact_secret (get_secret s project name)

  -- `handleDeleteSecret`
  unfoldable pub handle_delete_secret :
      Store d → (Error → String) → String → String → Handled d Secret
  unfolding reply_deleted
  handle_delete_secret s texts project name = reply_deleted texts (delete_secret s project name)

  unfoldable pub reveal_with :
      Store d → SecretCall → String → String → Option Manager → Reply RevealedSecret
  unfolding revealed_reply
  reveal_with s call project name none = failed 503 "secrets manager not configured"
  reveal_with s call project name (some m) =
      revealed_reply call.texts name (reveal_secret s m project name)

  -- `handleRevealSecret`
  unfoldable pub handle_reveal_secret :
      Store d → SecretCall → Option Identity → String → String → Reply RevealedSecret
  unfolding reveal_with
  handle_reveal_secret s call none project name = failed 403 "admin only"
  handle_reveal_secret s call (some id) project name =
      if id.is_admin then reveal_with s call project name call.manager else failed 403 "admin only"
