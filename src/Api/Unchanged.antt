-- ===== src/Api/Unchanged.antt =====
-- Writes of the wizard of internal/api/handlers.go that leave the configuration as it is.
use selfcloud.Base.{
  String, ◌≡◌, refl, ap, ◌∙◌, sym, true, none, some, arith, Error, Result, ok, err, Bool-cases, inl,
  inr, invalid_credentials, if◌then◌else◌,
}
use selfcloud.Store.Types.{Time, ClusterConfig, Project}
use selfcloud.Store.Deps.{Deps}
use selfcloud.Store.Core.{Store}
use selfcloud.Store.Scoped.{Mint, Written}
use selfcloud.Store.Typed.{get_cluster, put_cluster}
use selfcloud.Store.Singleton.{put_cluster_error}
use selfcloud.Store.Elsewhere.{
  SameCluster, put_project-SameCluster, put_user-SameCluster, put_token-SameCluster,
}
use selfcloud.Auth.Bootstrap.{forget_value, accepts, verify_bootstrap_token, consume_with}
use selfcloud.Auth.Tokens.{create_user, create_token, returned}
use selfcloud.Api.Setup.{ensure_found}

module _ {d : Deps} where
  returned-0 : {A : Type 0} (f : A → A) (w : Written d A) → (returned f w).0 ≡ w.0
  returned-0 f (s, v, none) = refl
  returned-0 f (s, v, some e) = refl

  pub create_user-SameCluster :
      (hash : String → String) (s : Store d) (mt : Mint) (name email : String) (r : Result String)
      → SameCluster s (create_user hash s mt name email r true).0
  unfolding create_user
  create_user-SameCluster hash s mt name email (ok h) = rw returned-0 (put_user-SameCluster s mt _)
  create_user-SameCluster hash s mt name email (err e) = (refl, refl)

  pub create_token-SameCluster :
      (hash : String → String) (s : Store d) (mt : Mint) (now : Time) (name user : String)
      (r : Result String)
      → SameCluster s (create_token hash s mt now name user r 0 true).0
  unfolding create_token
  create_token-SameCluster hash s mt now name user (ok p) =
      rw returned-0 (put_token-SameCluster s mt _)
  create_token-SameCluster hash s mt now name user (err e) = (refl, refl)

  pub ensure_found-SameCluster :
      (s : Store d) (mt : Mint) (r : Result Project) → SameCluster s (ensure_found s mt r).0
  unfolding ensure_found
  ensure_found-SameCluster s mt (ok p) = (refl, refl)
  ensure_found-SameCluster s mt (err e) = put_project-SameCluster s mt _

  pub verify_of_ok :
      (hash : String → String) (s : Store d) (plain : String) (cfg : ClusterConfig)
      → get_cluster s ≡ ok cfg
      → verify_bootstrap_token hash s plain
        ≡ (if accepts hash cfg plain then none else some invalid_credentials)
  unfolding verify_bootstrap_token
  verify_of_ok hash s plain cfg g = rw (g, verify_bootstrap_token) refl

  -- a consumption that fails leaves the store as it was
  pub consume_with_error :
      (hash : String → String) (s t : Store d) (now : Time) (plain : String)
      (r : Result ClusterConfig) (e : Error)
      → consume_with hash s now plain r ≡ (t, some e)
      → t ≡ s
  unfolding consume_with
  consume_with_error hash s t now plain (err x) e h = ground arith
  consume_with_error hash s t now plain (ok cfg) e h = elim (Bool-cases (accepts hash cfg plain)) [
    | inl y ↦
        let w : forget_value
              (put_cluster s now (record cfg { bootstrap_token = ""; initialized = true }))
            ≡ (t, some e) =
          ground arith in
        sym (ap (λ x. x.0) w) ∙ put_cluster_error s t now _ e (ap (λ x. x.1) w)
    | inr n ↦ ground arith
  ]

-- The section's store is the one before the request, and the database stays open.
