-- ===== src/Secrets/Manager.antt =====
-- internal/secrets/manager.go
use Prim.Native.Char.{code}
use selfcloud.Base.{
  ℕ, ◌+◌, ◌%◌, ◌^◌, String, Option, none, some, [], ◌∷◌, ◌==◌, str_eq, message, Result, ok, err,
  ◌>>=◌, map_ok, if◌then◌else◌,
}
use selfcloud.Store.Types.{Bytes, Time, StringMap, Meta, new_meta, Secret}
use selfcloud.Store.Deps.{Deps}
use selfcloud.Store.Core.{Store}
use selfcloud.Store.Scoped.{Mint, Written}
use selfcloud.Store.Typed.{put_secret, get_secret, redact_secret}
use selfcloud.Secrets.Cipher.{Gcm, seal_plain, open_sealed}

-- `MasterKeyVersion` and `SecretRefPrefix`
abbrev pub master_key_version : String
master_key_version = "v1"

abbrev pub secret_ref_prefix : String
secret_ref_prefix = "secret://"

-- `Manager`, but for its store
pub record Manager : Type 0 where
  pub gcm : Gcm
  pub key : Bytes

-- the rest of a text after a prefix
unfoldable pub strip_prefix : String → String → Option String
strip_prefix s String.[] = some s
strip_prefix String.[] (String.◌∷◌ p ps) = none
strip_prefix (String.◌∷◌ c s) (String.◌∷◌ p ps) =
    let rest = strip_prefix s ps in if code c == code p then rest else none

-- what stands before and after the first '/'
unfoldable pub split_at_slash : String → Option (String × String)
split_at_slash String.[] = none
split_at_slash (String.◌∷◌ c s) =
    let rest = split_at_slash s in
    if code c == 47
    then some ("", s)
    else elim rest [ none ↦ none | some x ↦ some (String.◌∷◌ c x.0, x.1) ]

-- the project and the name of a reference
unfoldable pub target : String → String → String × String
unfolding split_at_slash
target project ref = elim (split_at_slash ref) [
  | none ↦ (project, ref)
  | some x ↦ if str_eq x.0 "" then (project, ref) else x
]

-- the version, and the metadata that are taken over from the stored secret
unfoldable pub next_version : Result Secret → ℕ
next_version (ok cur) = (cur.version + 1) % 2 ^ 64
next_version (err e) = 1

unfoldable pub succeeding_meta : String → String → Time → Result Secret → Meta
succeeding_meta project name now (ok cur) = record (new_meta project name) {
  uid = cur.meta.uid;
  created_at = cur.meta.created_at;
  updated_at = now;
}
succeeding_meta project name now (err e) = record (new_meta project name) { updated_at = now }

unfoldable pub sealed_secret :
    String → String → String → Time → Bytes × Bytes → Result Secret → Secret
unfolding next_version succeeding_meta
sealed_secret project name description now sealed cur = record {
  meta = succeeding_meta project name now cur;
  description = description;
  key_id = master_key_version;
  nonce = sealed.0;
  ciphertext = sealed.1;
  version = next_version cur;
}

unfoldable pub unseal : Manager → Secret → Result String
unseal m sec =
    if str_eq sec.key_id master_key_version
    then open_sealed m.gcm m.key sec.nonce sec.ciphertext
    else err (message "secret sealed under unknown key")

module _ {d : Deps} where
  -- the results of `PutSecret`, with the sealed bytes cleared
  unfoldable pub returned_secret : Written d Secret → Store d × Result Secret
  unfolding redact_secret
  returned_secret (s, sec, none) = (s, ok (redact_secret sec))
  returned_secret (s, sec, some e) = (s, err e)

  unfoldable pub put_sealed :
      Store d
      → Mint
      → Time
      → String
      → String
      → String
      → Result (Bytes × Bytes)
      → Store d × Result Secret
  unfolding returned_secret sealed_secret
  put_sealed s mt now project name description (err e) = (s, err e)
  put_sealed s mt now project name description (ok sealed) = returned_secret (
      put_secret s mt
        (sealed_secret project name description now sealed (get_secret s project name)))

  -- `Put`
  unfoldable pub store_secret :
      Store d
      → Manager
      → Mint
      → Time
      → Result Bytes
      → String
      → String
      → String
      → String
      → Store d × Result Secret
  unfolding put_sealed
  store_secret s m mt now nonce project name description plain =
      if str_eq name ""
      then (s, err (message "secret name required"))
      else put_sealed s mt now project name description (seal_plain m.gcm m.key nonce plain)

  -- `Reveal`
  unfoldable pub reveal_secret : Store d → Manager → String → String → Result String
  unfolding unseal
  reveal_secret s m project name = get_secret s project name >>= unseal m

  -- one value of the map that `Resolve` goes through
  unfoldable pub resolve_value : Store d → Manager → String → String → Result String
  unfolding strip_prefix target reveal_secret
  resolve_value s m project v = elim (strip_prefix v secret_ref_prefix) [
    | none ↦ ok v
    | some ref ↦ let t = target project ref in reveal_secret s m t.0 t.1
  ]

  -- `Resolve`, over the entries of the map
  unfoldable pub resolve_secrets : Store d → Manager → String → StringMap → Result StringMap
  unfolding resolve_value
  resolve_secrets s m project [] = ok []
  resolve_secrets s m project ((k, v) ∷ entries) = resolve_value s m project v >>= λ pt.
      map_ok (◌∷◌ (k, pt)) (resolve_secrets s m project entries)
