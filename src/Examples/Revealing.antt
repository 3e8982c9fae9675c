-- ===== src/Examples/Revealing.antt =====
-- The theorems about internal/secrets at a store with one secret.
use selfcloud.Base.{◌≡◌, refl, [], ◌∷◌, Result, ok, err}
use selfcloud.Store.Types.{Bytes, StringMap, Secret}
use selfcloud.Store.Core.{Store}
use selfcloud.Store.Typed.{get_secret}
use selfcloud.Secrets.Cipher.{Gcm}
use selfcloud.Secrets.Manager.{Manager, store_secret, reveal_secret, resolve_secrets}
use selfcloud.Secrets.Revealed.{Follows, reveal-store_secret}
use selfcloud.Secrets.Resolved.{IsResolved, resolve_secrets-IsResolved}
use selfcloud.Examples.Memory.{memory}
use selfcloud.Examples.Stores.{opened, first_mint}
use selfcloud.Examples.Values.{password}
use selfcloud.Examples.Bytes.{plain_gcm}

abbrev eight : Bytes
eight = 0 ∷ 0 ∷ 0 ∷ 0 ∷ 0 ∷ 0 ∷ 0 ∷ 0 ∷ []

abbrev pub manager : Manager
manager = record {
  gcm = plain_gcm;
  key =
      0 ∷ 0 ∷ 0 ∷ 0 ∷ 0 ∷ 0 ∷ 0 ∷ 0 ∷ 0 ∷ 0 ∷ 0 ∷ 0 ∷ 0 ∷ 0 ∷ 0 ∷ 0 ∷ 0 ∷ 0 ∷ 0 ∷ 0 ∷ 0 ∷ 0 ∷ 0 ∷ 0
      ∷ eight;
}

abbrev put_db : Store memory × Result Secret
put_db = store_secret opened manager first_mint 100 (ok (7 ∷ [])) "prod" "db" "" "hunter2"

-- the secret that `Put` returns
abbrev returned : Result Secret → Secret
returned (ok sec) = sec
returned (err e) = password

put_db_ok : put_db ≡ (put_db.0, ok (returned put_db.1))
unfolding store_secret selfcloud.Secrets.Cipher.seal_plain selfcloud.Store.Typed.put_secret
    selfcloud.Store.Scoped.put_scoped get_secret selfcloud.Store.Core.get selfcloud.Store.Core.put
put_db_ok = refl

reveal-store_secret_example :
    (reveal_secret put_db.0 manager (returned put_db.1).meta.project (returned put_db.1).meta.name
      ≡ ok "hunter2")
    × ((returned put_db.1).nonce ≡ [])
    × ((returned put_db.1).ciphertext ≡ [])
    × Follows opened put_db.0 (returned put_db.1).version (get_secret opened "prod" "db")
reveal-store_secret_example =
    reveal-store_secret opened put_db.0 manager first_mint 100 (7 ∷ []) "prod" "db" "" "hunter2"
      (returned put_db.1) put_db_ok refl refl

abbrev entries : StringMap
entries = ("A", "plain") ∷ ("B", "secret://db") ∷ []

abbrev resolved : StringMap
resolved = ("A", "plain") ∷ ("B", "hunter2") ∷ []

entries_resolve : resolve_secrets put_db.0 manager "prod" entries ≡ ok resolved
unfolding resolve_secrets get_secret selfcloud.Store.Core.get store_secret
    selfcloud.Secrets.Cipher.seal_plain selfcloud.Store.Typed.put_secret
    selfcloud.Store.Scoped.put_scoped selfcloud.Store.Core.put selfcloud.Store.Core.emit
    selfcloud.Store.Core.key_for selfcloud.Secrets.Cipher.open_sealed
entries_resolve = refl

resolve_secrets-IsResolved_example : IsResolved put_db.0 manager "prod" entries resolved
resolve_secrets-IsResolved_example =
    resolve_secrets-IsResolved put_db.0 manager "prod" entries resolved entries_resolve
