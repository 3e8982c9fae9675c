-- ===== src/Reconcile/Plaintext.antt =====
-- What `reconcileOne` of internal/runtime/container/reconcile.go persists of revealed secrets.
use selfcloud.Base.{
  Option, ◌&&◌, ltb, none, List, Option-cases, Result-cases, ◌⊎◌, inl, inr, String, ◌≡◌, ap, ◌∙◌,
  refl, false, some, [], ◌∷◌, lookup, str_eq, str_eq_refl, Error, ok, err,
}
use selfcloud.Store.Types.{
  kind_container, phase_eq, phase_failed, StringMap, Container, SecretMount,
}
use selfcloud.Store.Ordered.{lookup-insert_sorted}
use selfcloud.Reconcile.State.{
  Surroundings, SecretResolver, World, container_key, state_of, set_state,
}
use selfcloud.Store.Deps.{Deps, container_scoped}
use selfcloud.Store.Core.{Store, get, key_for}
use selfcloud.Store.Scoped.{Mint}
use selfcloud.Store.RoundTrip.{get-put_scoped}
use selfcloud.Store.Typed.{put_container, get_container}
use selfcloud.Reconcile.One.{is_skipped, is_settled, conclude, attempt, reconcile_one}
use selfcloud.Reconcile.Quiet.{kept_parts, attempt_lem}
use selfcloud.Reconcile.Step.{
  failed_status, same_failure, persist, start_failed, Prepared, env_mounts, inject, share,
  shared_env, prepare_with, prepare,
}

prepare_wired :
    (env : Surroundings) (sr : SecretResolver) (c : Container)
    → env.secrets ≡ some sr
    → prepare env c ≡ prepare_with sr c
unfolding prepare
prepare_wired env sr c wired = rw (wired, prepare) refl

prepare_unwired :
    (env : Surroundings) (c : Container) → env.secrets ≡ none → (prepare env c).kept ≡ c
unfolding prepare
prepare_unwired env c unwired = rw (unwired, prepare) refl

with_resolved :
    (sr : SecretResolver) (c : Container) (resolved : StringMap)
    → sr.resolve c.meta.project c.env ≡ ok resolved
    → (prepare_with sr c).kept ≡ c
unfolding prepare_with
with_resolved sr c resolved resolves = rw (resolves, prepare_with) refl

with_unresolved :
    (sr : SecretResolver) (c : Container) (e : Error)
    → sr.resolve c.meta.project c.env ≡ err e
    → (prepare_with sr c).kept ≡ shared_env c (env_mounts sr c.meta.project c.secret_mounts)
unfolding prepare_with
with_unresolved sr c e fails = rw (fails, prepare_with) refl

-- a shared map is one that is not nil
shared_cases :
    (m : StringMap) (c : Container) (mounts : List (String × String))
    → (share m c mounts ≡ c)
      ⊎ ((v : String × String) × (vs : StringMap) × (m ≡ v ∷ vs)
          × (share m c mounts ≡ record c { env = inject mounts m }))
unfolding share
shared_cases [] c mounts = inl refl
shared_cases (v ∷ vs) c mounts = inr (v, vs, refl, refl)

-- The container that is persisted is the one that was read, unless the references of a non-empty
-- environment did not resolve: then its environment has the plaintexts of the mounts in variables.
pub prepare-kept :
    (env : Surroundings) (c : Container)
    → ((prepare env c).kept ≡ c)
      ⊎ ((sr : SecretResolver) × (e : Error) × (v : String × String) × (vs : StringMap)
          × (env.secrets ≡ some sr)
          × (sr.resolve c.meta.project c.env ≡ err e)
          × (c.env ≡ v ∷ vs)
          × ((prepare env c).kept
              ≡ record c { env = inject (env_mounts sr c.meta.project c.secret_mounts) c.env }))
unfolding shared_env
prepare-kept env c = elim (Option-cases env.secrets) [
  | inl n ↦ inl (prepare_unwired env c n)
  | inr (sr, wired) ↦ elim (Result-cases (sr.resolve c.meta.project c.env)) [
    | inl (resolved, resolves) ↦ inl (
        ap (λ (p : Prepared). p.kept) (prepare_wired env sr c wired)
        ∙ with_resolved sr c resolved resolves)
    | inr (e, fails) ↦
        let kept =
          ap (λ (p : Prepared). p.kept) (prepare_wired env sr c wired)
          ∙ with_unresolved sr c e fails in
        elim (shared_cases c.env c (env_mounts sr c.meta.project c.secret_mounts)) [
          | inl same ↦ inl (kept ∙ same)
          | inr (v, vs, nonempty, shared) ↦
              inr (sr, e, v, vs, wired, fails, nonempty, kept ∙ shared)
        ]
  ]
]

one_mount :
    (sr : SecretResolver) (project plain : String) (sm : SecretMount)
    → str_eq sm.env_name "" ≡ false
    → sr.reveal project sm.secret ≡ ok plain
    → env_mounts sr project (sm ∷ []) ≡ (sm.env_name, plain) ∷ []
unfolding env_mounts
one_mount sr project plain sm named reveals = rw (named, reveals) refl

shared_lookup :
    (c : Container) (v : String × String) (vs : StringMap) (name plain : String)
    → c.env ≡ v ∷ vs
    → lookup name (shared_env c ((name, plain) ∷ [])).env ≡ some plain
unfolding shared_env inject
shared_lookup c v vs name plain nonempty =
    rw (nonempty, shared_env) (lookup-insert_sorted name name plain (v ∷ vs) ∙ rw str_eq_refl refl)

-- the container that is persisted has the plaintext of its only mount in its environment
prepare-leaks :
    (env : Surroundings) (sr : SecretResolver) (c : Container) (v : String × String)
    (vs : StringMap) (sm : SecretMount) (e : Error) (plain : String)
    → env.secrets ≡ some sr
    → c.env ≡ v ∷ vs
    → c.secret_mounts ≡ sm ∷ []
    → str_eq sm.env_name "" ≡ false
    → sr.resolve c.meta.project c.env ≡ err e
    → sr.reveal c.meta.project sm.secret ≡ ok plain
    → lookup sm.env_name (prepare env c).kept.env ≡ some plain
prepare-leaks env sr c v vs sm e plain wired nonempty mounts named fails reveals =
    let kept =
      ap (λ (p : Prepared). p.kept) (prepare_wired env sr c wired) ∙ with_unresolved sr c e fails in
    rw kept (
      simp (mounts, one_mount sr c.meta.project plain sm named reveals)
        (shared_lookup c v vs sm.env_name plain nonempty))

-- what the write after a failed start puts
abbrev pub failed_container : Surroundings → Container → Error → Container
failed_container env c e = record (prepare env c).kept { status = failed_status env e }

module _ {d : Deps} where
  failed_store :
      (env : Surroundings) (mt : Mint) (node : String) (c c' : Container) (w : World d)
      (s' : Store d) (e : Error)
      → env.start (prepare env c).work ≡ err e
      → same_failure env c e ≡ false
      → put_container w.store mt (failed_container env c e) ≡ (s', c', none)
      → (attempt env mt node c (container_key c) (state_of w (container_key c)) w).store ≡ s'
  unfolding attempt conclude start_failed persist set_state same_failure
  failed_store env mt node c c' w s' e fails fresh written =
      let (metas, status, node_same) = kept_parts env c in
      rw (fails, status, fresh) (ap (λ (x : Store d × Container × Option Error). x.0) written)

  -- Let a container of this node be due and not settled, with an environment that is not empty and
  -- whose references do not resolve, and with one mount, in a variable, whose secret is revealed.
  -- When its start fails in a way that is not its status yet, and the write of the failure
  -- succeeds, then the container that is read back from the store has the plaintext of the secret
  -- in its environment.
  pub reconcile_one-leaks :
      (env : Surroundings) (mt : Mint) (node : String) (c c' : Container) (w : World d)
      (s' : Store d) (sr : SecretResolver) (v : String × String) (vs : StringMap) (sm : SecretMount)
      (unresolved failure : Error) (plain : String)
      → is_skipped node c ≡ false
      → is_settled c (state_of w (container_key c)) ≡ false
      → phase_eq c.status.status.phase phase_failed
          && ltb env.now (state_of w (container_key c)).next_attempt
        ≡ false
      → env.secrets ≡ some sr
      → c.env ≡ v ∷ vs
      → c.secret_mounts ≡ sm ∷ []
      → str_eq sm.env_name "" ≡ false
      → sr.resolve c.meta.project c.env ≡ err unresolved
      → sr.reveal c.meta.project sm.secret ≡ ok plain
      → env.start (prepare env c).work ≡ err failure
      → same_failure env c failure ≡ false
      → put_container w.store mt (failed_container env c failure) ≡ (s', c', none)
      → d.bolt.begin_error s'.db ≡ none
      → (get_container (reconcile_one env mt node c w).store c'.meta.project c'.meta.name ≡ ok c')
        × (lookup sm.env_name c'.env ≡ some plain)
  unfolding get_container put_container
  reconcile_one-leaks env mt node c c' w s' sr v vs sm unresolved failure plain mine unsettled due
        wired nonempty mounts named fails reveals fails' fresh written opens =
      let (same, read) =
        get-put_scoped container_scoped d.container_json w.store s' "containers" kind_container mt
          (failed_container env c failure) c' written opens in
      let stored =
        ap (λ (x : World d). x.store) (attempt_lem env mt node c w mine unsettled due)
        ∙ failed_store env mt node c c' w s' failure fails' fresh written in
      (
        ap (λ x. get x d.container_json "containers" (key_for c'.meta.project c'.meta.name)) stored
            ∙ read,
        rw same (
            prepare-leaks env sr c v vs sm unresolved plain wired nonempty mounts named fails
              reveals),
      )
