-- ===== src/Secrets/Resolved.antt =====
-- `Resolve` of internal/secrets/manager.go.
use selfcloud.Base.{
  ◌<>◌, ◌⊎◌, inl, inr, Bool-cases, Option-cases, Result-cases, str_eq, str_eq_iff, String, ◌≡◌,
  refl, none, [], ◌∷◌, All, arith, Result, ok, err, ◌>>=◌, map_ok,
}
use selfcloud.Store.Types.{StringMap, Secret}
use selfcloud.Store.Typed.{get_secret}
use selfcloud.Secrets.Cipher.{open_sealed}
use selfcloud.Secrets.References.{Names, strip_prefix_ok, target-Names}
use selfcloud.Store.Deps.{Deps}
use selfcloud.Store.Core.{Store}
use selfcloud.Secrets.Manager.{
  Manager, master_key_version, secret_ref_prefix, strip_prefix, target, unseal, reveal_secret,
  resolve_value, resolve_secrets,
}

module _ {d : Deps} (s : Store d) (m : Manager) (project : String) where
  -- a stored secret of the current master key, and the plaintext that was sealed in it
  abbrev pub Opens : String × String → String → Type 0
  Opens t pt =
      (sec : Secret) × (get_secret s t.0 t.1 ≡ ok sec)
      × (sec.key_id ≡ master_key_version)
      × (open_sealed m.gcm m.key sec.nonce sec.ciphertext ≡ ok pt)

  -- A value that is no reference stays; a reference becomes the plaintext of the secret it names.
  abbrev pub Resolves : String → String → Type 0
  Resolves v pt =
      ((strip_prefix v secret_ref_prefix ≡ none) × (pt ≡ v))
      ⊎ ((ref : String) × (v ≡ secret_ref_prefix <> ref)
          × ((t : String × String) × Names project ref t × Opens t pt))

  -- the same keys, each with its value resolved
  abbrev pub IsResolved : StringMap → StringMap → Type 0
  IsResolved [] [] = Unit
  IsResolved ((k, v) ∷ rest) ((j, pt) ∷ more) = (j ≡ k) × Resolves v pt × IsResolved rest more
  IsResolved _ _ = ⊥

  unseal_ok :
      (sec : Secret) (pt : String)
      → unseal m sec ≡ ok pt
      → (sec.key_id ≡ master_key_version)
        × (open_sealed m.gcm m.key sec.nonce sec.ciphertext ≡ ok pt)
  unfolding unseal
  unseal_ok sec pt h = elim (Bool-cases (str_eq sec.key_id master_key_version)) [
    | inl e ↦ ((str_eq_iff sec.key_id master_key_version).0 e, rw e at h)
    | inr e ↦ absurd (ground (arith, rw e at h))
  ]

  reveal_secret_ok :
      (t : String × String) (pt : String) → reveal_secret s m t.0 t.1 ≡ ok pt → Opens t pt
  unfolding reveal_secret
  reveal_secret_ok t pt h = elim (Result-cases (get_secret s t.0 t.1)) [
    | inl (sec, e) ↦ let (keyed, opened) = unseal_ok sec pt (rw e at h) in (sec, e, keyed, opened)
    | inr (x, e) ↦ absurd (ground (arith, rw e at h))
  ]

  resolve_value-Resolves : (v pt : String) → resolve_value s m project v ≡ ok pt → Resolves v pt
  unfolding resolve_value
  resolve_value-Resolves v pt h = elim (Option-cases (strip_prefix v secret_ref_prefix)) [
    | inl x ↦ inl (x, ground (arith, rw x at h))
    | inr (ref, x) ↦ inr (
      ref,
      strip_prefix_ok v secret_ref_prefix ref x,
      (
        target project ref,
        target-Names project ref,
        reveal_secret_ok (target project ref) pt (rw x at h),
      ),
    )
  ]

  resolve_entry :
      (k v : String) (rest out : StringMap) (r : Result String) (q : Result StringMap)
      → (r >>= λ pt. map_ok (◌∷◌ (k, pt)) q) ≡ ok out
      → (pt : String) × (more : StringMap) × (r ≡ ok pt) × (q ≡ ok more) × (out ≡ (k, pt) ∷ more)
  resolve_entry k v rest out (ok pt) (ok more) h = (pt, more, refl, refl, ground arith)
  resolve_entry k v rest out (ok pt) (err e) h = absurd (ground arith)
  resolve_entry k v rest out (err e) q h = absurd (ground arith)

  -- When `Resolve` succeeds it returns the same names, each with its own value resolved: a value
  -- without the prefix `secret://` stays, and behind the prefix "project/name", or a name in this
  -- project, is replaced by the plaintext that is sealed in that secret under the current key.
  pub resolve_secrets-IsResolved :
      (entries out : StringMap)
      → resolve_secrets s m project entries ≡ ok out
      → IsResolved entries out
  unfolding resolve_secrets
  resolve_secrets-IsResolved [] out h = let e : out ≡ [] = ground arith in rw e tt
  resolve_secrets-IsResolved ((k, v) ∷ rest) out h =
      let (pt, more, r, q, e) =
        resolve_entry k v rest out (resolve_value s m project v) (resolve_secrets s m project rest)
          h in
      rw e (refl, resolve_value-Resolves v pt r, resolve_secrets-IsResolved rest more q)

  -- Without a reference among the values, `Resolve` returns the map as it is.
  pub resolve_secrets-plain :
      (entries : StringMap)
      → All (λ e. strip_prefix e.1 secret_ref_prefix ≡ none) entries
      → resolve_secrets s m project entries ≡ ok entries
  unfolding resolve_secrets resolve_value
  resolve_secrets-plain [] a = refl
  resolve_secrets-plain ((k, v) ∷ rest) a = rw (a.0, resolve_secrets-plain rest a.1) refl
