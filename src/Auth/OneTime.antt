-- ===== src/Auth/OneTime.antt =====
-- The bootstrap token of internal/auth/auth.go is good until it is consumed, and no longer.
use selfcloud.Base.{
  String, ◌≡◌, ◌≢◌, ◌↔◌, refl, ap, true, none, some, arith, invalid_credentials, Result, ok, err,
  str_eq_iff, Bool-cases, inl, inr,
}
use selfcloud.Store.Types.{Time, ClusterConfig}
use selfcloud.Store.Deps.{Deps}
use selfcloud.Store.Core.{Store}
use selfcloud.Store.Typed.{get_cluster, put_cluster, stamp_cluster}
use selfcloud.Store.Singleton.{get_cluster-put_cluster}
use selfcloud.Auth.Bootstrap.{
  forget_value, accepts, create_with, create_bootstrap_token, verify_bootstrap_token, consume_with,
  consume_bootstrap_token,
}

module _ {d : Deps} (hash : String → String) (s s' : Store d) (now : Time) (plain : String) where
  consume_with_ok :
      (r : Result ClusterConfig)
      → consume_with hash s now plain r ≡ (s', none)
      → (cfg : ClusterConfig) × (r ≡ ok cfg)
        × (accepts hash cfg plain ≡ true)
        × (forget_value
              (put_cluster s now (record cfg { bootstrap_token = ""; initialized = true }))
            ≡ (s', none))
  unfolding consume_with
  consume_with_ok (err e) h = absurd (ground arith)
  consume_with_ok (ok cfg) h = elim (Bool-cases (accepts hash cfg plain)) [
    | inl y ↦ (cfg, refl, y, ground arith)
    | inr n ↦ absurd (ground arith)
  ]

  consumed_cluster :
      consume_bootstrap_token hash s now plain ≡ (s', none)
      → d.bolt.begin_error s'.db ≡ none
      → (cfg : ClusterConfig) × (get_cluster s ≡ ok cfg)
        × (get_cluster s'
            ≡ ok (stamp_cluster now (record cfg { bootstrap_token = ""; initialized = true })))
  unfolding consume_bootstrap_token
  consumed_cluster h opens =
      let (cfg, g, y, p) = consume_with_ok (get_cluster s) h in
      (cfg, g, get_cluster-put_cluster s s' now _ (ap (λ w. w.0) p) (ap (λ w. w.1) p) opens)

  -- After a bootstrap token was consumed, as long as the database can be read, the cluster is
  -- initialized, and no token at all, the same one included, is verified or consumed; those calls
  -- leave the store as it is.
  pub consume_once :
      consume_bootstrap_token hash s now plain ≡ (s', none)
      → d.bolt.begin_error s'.db ≡ none
      → (later : Time) (other : String)
      → (verify_bootstrap_token hash s' other ≡ some invalid_credentials)
        × (consume_bootstrap_token hash s' later other ≡ (s', some invalid_credentials))
        × ((cfg : ClusterConfig) × (get_cluster s' ≡ ok cfg) × (cfg.initialized ≡ true))
  unfolding verify_bootstrap_token consume_bootstrap_token stamp_cluster
  consume_once h opens later other =
      let (cfg, g, g') = consumed_cluster h opens in
      (
        rw (g', verify_bootstrap_token) refl,
        rw g' refl,
        (stamp_cluster now (record cfg { bootstrap_token = ""; initialized = true }), g', refl),
      )

  create_with_ok :
      (r : Result ClusterConfig)
      → create_with hash s now plain r ≡ (s', ok plain)
      → (cfg : ClusterConfig) × (r ≡ ok cfg)
        × ((put_cluster s now (record cfg { bootstrap_token = hash plain })).0 ≡ s')
        × ((put_cluster s now (record cfg { bootstrap_token = hash plain })).2 ≡ none)
  unfolding create_with
  create_with_ok (err e) h = absurd (ground arith)
  create_with_ok (ok cfg) h = (cfg, refl, ground arith, ground arith)

  -- Once a bootstrap token was created whose hash is not empty, and while the database can be
  -- read, a presented text is verified exactly when its hash is that of the token.
  pub verify_iff :
      create_bootstrap_token hash s now (ok plain) ≡ (s', ok plain)
      → d.bolt.begin_error s'.db ≡ none
      → hash plain ≢ ""
      → (other : String) → (verify_bootstrap_token hash s' other ≡ none) ↔ (hash other ≡ hash plain)
  unfolding create_bootstrap_token stamp_cluster accepts verify_bootstrap_token
  verify_iff h opens nonempty other =
      let (cfg, g, p, q) = create_with_ok (get_cluster s) h in
      rw (get_cluster-put_cluster s s' now _ p q opens, verify_bootstrap_token)
        (ground (arith, str_eq_iff (hash other) (hash plain), str_eq_iff (hash plain) ""))
