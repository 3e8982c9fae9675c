-- ===== src/Auth/Secrecy.antt =====
-- What internal/auth/auth.go and `PutToken` of internal/store/store.go keep of credentials.
use selfcloud.Base.{
  String, ◌<>◌, ◌≡◌, refl, ap, ◌∙◌, true, none, some, arith, Result, ok, err, Bool-cases, inl, inr,
}
use selfcloud.Store.Types.{kind_token, User, Token}
use selfcloud.Store.Deps.{Deps, token_scoped}
use selfcloud.Store.Core.{Store, key_for, get}
use selfcloud.Store.Scoped.{Mint, Written, default_project}
use selfcloud.Store.RoundTrip.{get-put_scoped}
use selfcloud.Store.Typed.{token_written, put_token, get_user_by_email}
use selfcloud.Auth.Tokens.{create_token}
use selfcloud.Auth.Login.{LoginCall, session_ttl, logged_in, login_as, login_found, login}

module _ {d : Deps} (s s' : Store d) where
  token_written_ok :
      (t t' : Token) (w : Written d Token)
      → token_written t w ≡ (s', t', none)
      → (v : Token) × (w ≡ (s', v, none)) × (t' ≡ record t { meta = v.meta })
  unfolding token_written
  token_written_ok t t' (z, v, none) h = (v, ground arith, ground arith)
  token_written_ok t t' (z, v, some e) h = absurd (ground arith)

  -- When `PutToken` succeeds and the database can be read, what is stored is the token that the
  -- caller then holds without its plaintext, and the caller still has the plaintext.
  pub get-put_token :
      (mt : Mint) (t t' : Token)
      → put_token s mt t ≡ (s', t', none)
      → d.bolt.begin_error s'.db ≡ none
      → (get s' d.token_json "tokens" (key_for t'.meta.project t'.meta.name)
          ≡ ok (record t' { plaintext = "" }))
        × (t'.plaintext ≡ t.plaintext)
  unfolding put_token
  get-put_token mt t t' h opens =
      let named : Token = record t { meta = default_project "system" t.meta } in
      let (v, w, e) = token_written_ok named t' _ h in
      let (same, read) =
        get-put_scoped token_scoped d.token_json s s' "tokens" kind_token mt
          (record named { plaintext = "" }) v w opens in
      let kept : v ≡ record t' { plaintext = "" } = rw (e, same) refl in
      (rw e (read ∙ ap ok (kept ∙ ap (λ (x : Token). record x { plaintext = "" }) e)), rw e refl)

  logged_in_ok :
      (call : LoginCall) (u user : User) (tok : Token) (w : Store d × Result Token)
      → logged_in call u w ≡ (s', ok (tok, user))
      → (w ≡ (w.0, ok tok)) × (user.password_hash ≡ "")
  unfolding logged_in
  logged_in_ok call u user tok (z, err e) h = absurd (ground arith)
  logged_in_ok call u user tok (z, ok t) h = (ground arith, ground arith)

  login_as_ok :
      (call : LoginCall) (password : String) (u user : User) (tok : Token)
      → login_as s call password u ≡ (s', ok (tok, user))
      → (call.verify password u.password_hash ≡ true) × (user.password_hash ≡ "")
  unfolding login_as
  login_as_ok call password u user tok h =
      let made =
        create_token call.hash s call.token_mint call.now ("session-" <> call.session) u.meta.name
          call.generated session_ttl u.is_admin in
      elim (Bool-cases (call.verify password u.password_hash)) [
        | inl y ↦ (y, (logged_in_ok call u user tok made (rw y at h)).1)
        | inr n ↦ absurd (ground arith)
      ]

  login_found_ok :
      (call : LoginCall) (password : String) (tok : Token) (user : User) (r : Result User)
      → login_found s call password r ≡ (s', ok (tok, user))
      → (u : User) × (r ≡ ok u)
        × (call.verify password u.password_hash ≡ true)
        × (user.password_hash ≡ "")
  unfolding login_found
  login_found_ok call password tok user (err e) h = absurd (ground arith)
  login_found_ok call password tok user (ok u) h =
      let (y, hidden) = login_as_ok call password u user tok h in (u, refl, y, hidden)

  -- A login succeeds only with the password of the first user of that email, and the user that it
  -- returns has no password hash.
  pub login_ok :
      (call : LoginCall) (email password : String) (tok : Token) (user : User)
      → login s call email password ≡ (s', ok (tok, user))
      → (u : User) × (get_user_by_email s call.lower email ≡ ok u)
        × (call.verify password u.password_hash ≡ true)
        × (user.password_hash ≡ "")
  unfolding login
  login_ok call email password tok user h =
      login_found_ok call password tok user (get_user_by_email s call.lower email) h
