-- ===== src/Auth/Tokens.antt =====
-- internal/auth/auth.go: users, API tokens and login. Hashes, random texts, the clock and the
-- verification of a password are arguments.
use selfcloud.Base.{
  ℕ, ◌+◌, String, Bool, false, Option, none, some, ltb, Error, invalid_credentials,
  credential_expired, Result, ok, err, if◌then◌else◌,
}
use selfcloud.Store.Types.{Time, is_zero_time, new_meta, User, Token}
use selfcloud.Store.Deps.{Deps}
use selfcloud.Store.Core.{Store}
use selfcloud.Store.Scoped.{Mint}
use selfcloud.Store.Typed.{put_user, put_token, get_token_by_hash}

pub record Identity : Type 0 where
  pub user_id : String
  pub email : String
  pub is_admin : Bool
  pub token : String

abbrev pub returned {ℓ} : {S : Type ℓ} {A : Type 0} → (A → A) → S × A × Option Error → S × Result A
returned f (s, v, none) = (s, ok (f v))
returned f (s, v, some e) = (s, err e)

-- `!t.ExpiresAt.IsZero() && time.Now().After(t.ExpiresAt)`
unfoldable pub has_expired : Time → Token → Bool
has_expired now t = if is_zero_time t.expires_at then false else ltb t.expires_at now

unfoldable pub identify : Time → Result Token → Result Identity
unfolding has_expired
identify now (err e) = err invalid_credentials
identify now (ok t) =
    if has_expired now t
    then err credential_expired
    else ok (record { user_id = t.user_id; email = ""; is_admin = t.is_admin; token = t.meta.name })

module _ {d : Deps} (hash : String → String) where
  -- `CreateUser`; `hashed` is the result of `HashPassword`
  unfoldable pub create_user :
      Store d → Mint → String → String → Result String → Bool → Store d × Result User
  create_user s mt name email (err e) admin = (s, err e)
  create_user s mt name email (ok hashed) admin =
      returned (λ u. record u { password_hash = "" })
        (put_user s mt (record {
          meta = new_meta "system" name;
          email = email;
          password_hash = hashed;
          is_admin = admin;
          last_login_at = 0;
        }))

  -- `CreateToken`; a ttl of 0 stands for every ttl that is not positive
  unfoldable pub create_token :
      Store d → Mint → Time → String → String → Result String → ℕ → Bool → Store d × Result Token
  create_token s mt now name user_id (err e) ttl admin = (s, err e)
  create_token s mt now name user_id (ok plain) ttl admin =
      returned (λ t. t)
        (put_token s mt (record {
          meta = new_meta "system" name;
          user_id = user_id;
          hash_hex = hash plain;
          plaintext = plain;
          expires_at = if ltb 0 ttl then now + ttl else 0;
          is_admin = admin;
        }))

  unfoldable pub resolve_token : Store d → Time → String → Result Identity
  unfolding identify
  resolve_token s now plain = identify now (get_token_by_hash s (hash plain))
