-- ===== src/Examples/Sessions.antt =====
-- The theorems about credentials at a store with one user.
use selfcloud.Base.{◌<>◌, ◌≡◌, refl, true, none, Option, Error, Result, ok, err, str_eq}
use selfcloud.Store.Types.{new_meta, User, Token}
use selfcloud.Store.Core.{Store, key_for, get}
use selfcloud.Store.Typed.{put_user, put_token, get_user_by_email}
use selfcloud.Auth.Login.{LoginCall, login}
use selfcloud.Auth.Secrecy.{get-put_token, login_ok}
use selfcloud.Examples.Memory.{memory}
use selfcloud.Examples.Stores.{opened, first_mint}

abbrev ada : User
ada = record {
  meta = new_meta "system" "ada";
  email = "ada@x";
  password_hash = "#pw";
  is_admin = true;
  last_login_at = 0;
}

abbrev session : Token
session = record {
  meta = new_meta "" "ci";
  user_id = "ada";
  hash_hex = "#t";
  plaintext = "t";
  expires_at = 0;
  is_admin = true;
}

abbrev issued : Store memory × Token × Option Error
issued = put_token opened first_mint session

issued_ok : issued ≡ (issued.0, issued.1, none)
unfolding put_token selfcloud.Store.Scoped.put_scoped selfcloud.Store.Core.put
issued_ok = refl

get-put_token_example :
    (get issued.0 memory.token_json "tokens" (key_for issued.1.meta.project issued.1.meta.name)
      ≡ ok (record issued.1 { plaintext = "" }))
    × (issued.1.plaintext ≡ session.plaintext)
get-put_token_example = get-put_token opened issued.0 first_mint session issued.1 issued_ok refl

abbrev peopled : Store memory
peopled = (put_user opened first_mint ada).0

abbrev call : LoginCall
call = record {
  hash = λ x. "#" <> x;
  verify = λ password hash. str_eq ("#" <> password) hash;
  lower = λ x. x;
  generated = ok "sct_1";
  session = "100";
  token_mint = first_mint;
  user_mint = first_mint;
  now = 100;
}

abbrev entered : Store memory × Result (Token × User)
entered = login peopled call "ada@x" "pw"

abbrev token_of : Result (Token × User) → Token
token_of (ok (tok, u)) = tok
token_of (err e) = session

abbrev user_of : Result (Token × User) → User
user_of (ok (tok, u)) = u
user_of (err e) = ada

entered_ok : entered ≡ (entered.0, ok (token_of entered.1, user_of entered.1))
unfolding login get_user_by_email selfcloud.Store.Core.list put_user
    selfcloud.Store.Scoped.put_scoped selfcloud.Store.Core.put selfcloud.Store.Core.emit
    selfcloud.Store.Core.decode_all selfcloud.Examples.Memory.sort_entries put_token
entered_ok = refl

login_ok_example :
    (u : User) × (get_user_by_email peopled call.lower "ada@x" ≡ ok u)
    × (call.verify "pw" u.password_hash ≡ true)
    × ((user_of entered.1).password_hash ≡ "")
login_ok_example =
    login_ok peopled entered.0 call "ada@x" "pw" (token_of entered.1) (user_of entered.1) entered_ok
