-- ===== src/Secrets/Revealed.antt =====
-- What internal/secrets/manager.go reveals is what was put.
use selfcloud.Base.{
  ℕ, ◌+◌, ◌%◌, ◌^◌, Result, String, ◌≡◌, refl, true, none, some, [], length, ◌==◌, arith, Result,
  ok, err, str_eq, Bool-cases, Option-cases, inl, inr,
}
use selfcloud.Store.Types.{Bytes, Time, kind_secret, Secret}
use selfcloud.Store.Deps.{Deps, secret_scoped}
use selfcloud.Store.Core.{Store}
use selfcloud.Store.Scoped.{Mint, Written}
use selfcloud.Store.RoundTrip.{get-put_scoped}
use selfcloud.Store.Typed.{put_secret, get_secret, redact_secret}
use selfcloud.Secrets.Cipher.{Gcm, check_key, seal_plain, opened_or_tampered, open_sealed}
use selfcloud.Secrets.Manager.{
  Manager, master_key_version, next_version, sealed_secret, returned_secret, put_sealed,
  store_secret, unseal, reveal_secret,
}

-- what a seal that succeeds is made of
seal_ok :
    (g : Gcm) (key nonce : Bytes) (plain : String) (sealed : Bytes × Bytes)
    → seal_plain g key (ok nonce) plain ≡ ok sealed
    → (check_key g key ≡ none) × (sealed ≡ (nonce, g.encrypt key nonce plain))
unfolding seal_plain
seal_ok g key nonce plain sealed h = elim (Option-cases (check_key g key)) [
  | inl x ↦ (x, ground arith)
  | inr (e, x) ↦ absurd (ground arith)
]

-- Under a key of the right kind, opening what was sealed gives the plaintext back.
pub open_sealed-seal_plain :
    (g : Gcm) (key nonce : Bytes) (plain : String) (sealed : Bytes × Bytes)
    → seal_plain g key (ok nonce) plain ≡ ok sealed
    → length nonce == g.nonce_size ≡ true
    → open_sealed g key sealed.0 sealed.1 ≡ ok plain
unfolding open_sealed opened_or_tampered
open_sealed-seal_plain g key nonce plain sealed h sized =
    let (checked, made) = seal_ok g key nonce plain sealed h in
    rw (made, checked, sized, g.decrypt-encrypt key nonce plain) refl

module _ {d : Deps} (s s' : Store d) where
  returned_ok :
      (w : Written d Secret) (sec : Secret)
      → returned_secret w ≡ (s', ok sec)
      → (v : Secret) × (w ≡ (s', v, none)) × (sec ≡ redact_secret v)
  unfolding returned_secret
  returned_ok (t, v, none) sec h = (v, ground arith, ground arith)
  returned_ok (t, v, some e) sec h = absurd (ground arith)

  put_sealed_ok :
      (mt : Mint) (now : Time) (project name description : String) (r : Result (Bytes × Bytes))
      (sec : Secret)
      → put_sealed s mt now project name description r ≡ (s', ok sec)
      → (sealed : Bytes × Bytes) × (v : Secret) × (r ≡ ok sealed)
        × (put_secret s mt
              (sealed_secret project name description now sealed (get_secret s project name))
            ≡ (s', v, none))
        × (sec ≡ redact_secret v)
  unfolding put_sealed
  put_sealed_ok mt now project name description (err e) sec h = absurd (ground arith)
  put_sealed_ok mt now project name description (ok sealed) sec h =
      let (v, w, e) = returned_ok _ sec h in (sealed, v, refl, w, e)

  revealed_of :
      (m : Manager) (project name plain : String) (v : Secret)
      → get_secret s' project name ≡ ok v
      → v.key_id ≡ master_key_version
      → open_sealed m.gcm m.key v.nonce v.ciphertext ≡ ok plain
      → reveal_secret s' m project name ≡ ok plain
  unfolding reveal_secret unseal
  revealed_of m project name plain v read keyed opened = rw read (simp keyed opened)

  -- the version after what is stored: one more than it has, or 1 where it has none
  abbrev pub Follows : ℕ → Result Secret → Type 0
  Follows version (ok cur) = version ≡ (cur.version + 1) % 2 ^ 64
  Follows version (err e) = version ≡ 1

  next_version-Follows :
      (version : ℕ) (r : Result Secret) → version ≡ next_version r → Follows version r
  unfolding next_version
  next_version-Follows version (ok cur) h = h
  next_version-Follows version (err e) h = h

  -- the store holds a sealed secret, and the caller has it without its bytes
  put_sealed-stored :
      (m : Manager) (mt : Mint) (now : Time) (nonce : Bytes)
      (project name description plain : String) (sec : Secret)
      → put_sealed s mt now project name description (seal_plain m.gcm m.key (ok nonce) plain)
        ≡ (s', ok sec)
      → d.bolt.begin_error s'.db ≡ none
      → length nonce == m.gcm.nonce_size ≡ true
      → (reveal_secret s' m sec.meta.project sec.meta.name ≡ ok plain)
        × (sec.nonce ≡ [])
        × (sec.ciphertext ≡ [])
        × (sec.version ≡ next_version (get_secret s project name))
  unfolding put_secret get_secret redact_secret sealed_secret
  put_sealed-stored m mt now nonce project name description plain sec h opens sized =
      let (sealed, v, r, w, e) =
        put_sealed_ok mt now project name description (seal_plain m.gcm m.key (ok nonce) plain) sec
          h in
      let made = sealed_secret project name description now sealed (get_secret s project name) in
      let (same, read) =
        get-put_scoped secret_scoped d.secret_json s s' "secrets" kind_secret mt made v w opens in
      let opened = open_sealed-seal_plain m.gcm m.key nonce plain sealed r sized in
      (
        rw e
            (revealed_of m v.meta.project v.meta.name plain v read (rw same refl) (rw same opened)),
        rw e refl,
        rw e refl,
        rw (e, same) refl,
      )

  -- When `Put` succeeds with a nonce of the cipher's size and the database can be read, `Reveal`
  -- of the secret returns the plaintext; the secret that `Put` returns has no sealed bytes, and its
  -- version is one more, as a 64-bit number, than that of the secret that was read before, or 1
  -- where none was read.
  pub reveal-store_secret :
      (m : Manager) (mt : Mint) (now : Time) (nonce : Bytes)
      (project name description plain : String) (sec : Secret)
      → store_secret s m mt now (ok nonce) project name description plain ≡ (s', ok sec)
      → d.bolt.begin_error s'.db ≡ none
      → length nonce == m.gcm.nonce_size ≡ true
      → (reveal_secret s' m sec.meta.project sec.meta.name ≡ ok plain)
        × (sec.nonce ≡ [])
        × (sec.ciphertext ≡ [])
        × Follows (sec.version) (get_secret s project name)
  unfolding store_secret
  reveal-store_secret m mt now nonce project name description plain sec h opens sized =
      elim (Bool-cases (str_eq name "")) [
        | inl x ↦ absurd (ground arith)
        | inr x ↦
            let (revealed, no_nonce, no_ciphertext, version) =
              put_sealed-stored m mt now nonce project name description plain sec (rw x at h) opens
                sized in
            (
              revealed,
              no_nonce,
              no_ciphertext,
              next_version-Follows sec.version (get_secret s project name) version,
            )
      ]
