-- ===== src/Api/Environment.antt =====
-- The environment that `invoke` of internal/api/triggers.go gives a function.
use selfcloud.Base.{
  String, ◌≡◌, refl, ap, ◌∙◌, Option, none, some, [], ◌∷◌, lookup, insert, lookup-insert, str_eq,
  str_eq_iff, arith, Result, ok, err, Bool-cases, inl, inr,
}
use selfcloud.Store.Types.{StringMap, Function}
use selfcloud.Store.Deps.{Deps}
use selfcloud.Store.Core.{Store}
use selfcloud.Secrets.Manager.{Manager, resolve_secrets}
use selfcloud.Secrets.Resolved.{IsResolved, resolve_secrets-IsResolved}
use selfcloud.Api.Invoke.{
  InvokeRequest, InvokeCall, Invoker, overlay, merge_env, with_env, mount_all, with_secrets,
  runtime_of, call_runtime, finished, invoke,
}

-- no key stands twice, as in a map
abbrev pub NoRepeat : StringMap → Type 0
NoRepeat [] = Unit
NoRepeat ((k, v) ∷ entries) = (lookup k entries ≡ none) × NoRepeat entries

abbrev first_found : Option String → Option String → Option String
first_found none o = o
first_found (some v) o = some v

lookup-overlay :
    (key : String) (entries m : StringMap)
    → NoRepeat entries
    → lookup key (overlay entries m) ≡ first_found (lookup key entries) (lookup key m)
unfolding overlay
lookup-overlay key [] m u = refl
lookup-overlay key ((k, v) ∷ entries) m u =
    lookup-overlay key entries (insert k v m) u.1 ∙ (elim (Bool-cases (str_eq k key)) [
      | inl same ↦
          let none_left : lookup key entries ≡ none = rw (← (str_eq_iff k key).0 same) u.0 in
          rw (lookup-insert k key v m, same, none_left) refl
      | inr other ↦ rw (lookup-insert k key v m, other) refl
    ])

module _ {d : Deps} (s : Store d) (m : Manager) (project : String) where
  lookup-IsResolved :
      (key : String) (entries out : StringMap)
      → IsResolved s m project entries out
      → lookup key entries ≡ none
      → lookup key out ≡ none
  lookup-IsResolved key [] [] r h = refl
  lookup-IsResolved key [] (x ∷ out) r h = absurd r
  lookup-IsResolved key ((k, v) ∷ entries) [] r h = absurd r
  lookup-IsResolved key ((k, v) ∷ entries) ((j, pt) ∷ out) r h = elim (Bool-cases (str_eq k key)) [
    | inl same ↦ absurd (ground (arith, same, h))
    | inr other ↦ rw (r.0, other) (lookup-IsResolved key entries out r.2 (rw other at h))
  ]

  lookup-merge_env :
      (key : String) (env : StringMap) (req : InvokeRequest) (r : Result StringMap)
      → resolve_secrets s m project env ≡ r
      → req.env ≡ env
      → NoRepeat env
      → lookup key (merge_env req r).env ≡ lookup key env
  unfolding merge_env with_env
  lookup-merge_env key env req (err e) h same u = ap (lookup key) same
  lookup-merge_env key env req (ok out) h same u =
      ap (λ entries. lookup key (overlay entries out)) same
      ∙ lookup-overlay key env out u
      ∙ kept (lookup key env) refl
    where
      kept : (o : Option String) → lookup key env ≡ o → first_found o (lookup key out) ≡ o
      kept (some v) e = refl
      kept none e =
          lookup-IsResolved key env out (resolve_secrets-IsResolved s m project env out h) e

module _ {d : Deps} (s : Store d) (call : InvokeCall) (m : Manager) (f : Function) where
  sent_request :
      (req : InvokeRequest) (o : Option Invoker) (sent : InvokeRequest)
      → (call_runtime call f req o).sent ≡ some sent
      → sent ≡ req
  unfolding call_runtime finished
  sent_request req none sent h = absurd (ground arith)
  sent_request req (some invoker) sent h = ground arith

  -- A function without secret mounts is given its own environment as it is stored, whenever the
  -- request carries that environment, as every caller's does: a value that refers to a secret is
  -- passed on as the reference, although the secret was resolved.
  pub invoke-env :
      (req sent : InvokeRequest)
      → call.secrets ≡ some m
      → f.secret_mounts ≡ []
      → req.env ≡ f.env
      → NoRepeat f.env
      → (invoke s call f req).sent ≡ some sent
      → (key : String) → lookup key sent.env ≡ lookup key f.env
  unfolding invoke with_secrets mount_all
  invoke-env req sent wired bare same u h key =
      let merged = merge_env req (resolve_secrets s m f.meta.project f.env) in
      let e : with_secrets s call.secrets f req ≡ merged = simp (wired, bare) in
      let e' : sent ≡ merged =
        sent_request (with_secrets s call.secrets f req) (runtime_of call f.runtime) sent h ∙ e in
      ap (λ r. lookup key r.env) e'
      ∙ lookup-merge_env s m f.meta.project key f.env req (resolve_secrets s m f.meta.project f.env)
          refl same u
