-- ===== src/Api/Retry.antt =====
-- The wizard of internal/api/handlers.go can be run again after a failure.
use selfcloud.Base.{
  String, ◌≡◌, ◌≢◌, refl, ap, ◌∙◌, sym, true, Option, none, some, Error, Result, ok, err,
  Bool-cases, inl, inr, ◌⊎◌, ◌==◌, ==_iff, ==_false, invalid_credentials,
}
use selfcloud.Store.Types.{ClusterConfig, User, Token}
use selfcloud.Store.Deps.{Deps}
use selfcloud.Store.Core.{Store}
use selfcloud.Store.Scoped.{Written}
use selfcloud.Store.Typed.{get_cluster, put_cluster, get_project, stamp_cluster}
use selfcloud.Store.Singleton.{get_cluster-put_cluster, put_cluster_error}
use selfcloud.Store.Elsewhere.{SameCluster, SameCluster-trans, get_cluster_of_same}
use selfcloud.Auth.Bootstrap.{accepts, verify_bootstrap_token, consume_bootstrap_token}
use selfcloud.Auth.OneTime.{consume_once}
use selfcloud.Auth.Tokens.{create_token}
use selfcloud.Api.Completed.{handle_initialize-Done}
use selfcloud.Api.Reply.{status_of, Handled}
use selfcloud.Api.Setup.{
  InitializeReq, InitializeCall, Session, wizard_config, incomplete, ensure_found,
  ensure_default_project, init_done, init_consume, init_cluster, init_project, init_token,
  init_user, init_verified, handle_initialize,
}
use selfcloud.Api.Unchanged.{
  create_user-SameCluster, create_token-SameCluster, ensure_found-SameCluster, verify_of_ok,
  consume_with_error,
}

module _ {d : Deps} (s : Store d) (call : InitializeCall) (body : InitializeReq)
    (opens : (db : d.bolt.Db) → d.bolt.begin_error db ≡ none) where
  abbrev SameAnswer : Store d → Type 0
  SameAnswer t =
      verify_bootstrap_token call.hash t body.bootstrap_token
      ≡ verify_bootstrap_token call.hash s body.bootstrap_token

  abbrev Kept : Handled d Session → Type 0
  Kept r = status_of r.1 ≢ 201 → SameAnswer r.0

  SameAnswer-of_cluster : (t : Store d) → SameCluster s t → SameAnswer t
  unfolding verify_bootstrap_token
  SameAnswer-of_cluster t same =
      rw (get_cluster_of_same s t same (opens s.db) (opens t.db), verify_bootstrap_token) refl

  init_done-Kept :
      (u : User) (tok : Token) (t : Store d) (w : Store d × Option Error)
      → SameAnswer t
      → consume_bootstrap_token call.hash t call.consumed_at body.bootstrap_token ≡ w
      → Kept (init_done call u tok w)
  unfolding init_done consume_bootstrap_token status_of
  init_done-Kept u tok t (t', none) same h = λ other. absurd (other refl)
  init_done-Kept u tok t (t', some e) same h = λ other.
      rw
        (consume_with_error call.hash t t' call.consumed_at body.bootstrap_token (get_cluster t) e
          h)
        same

  SameAnswer-put_cluster :
      (t t' : Store d) (cfg c : ClusterConfig)
      → SameCluster s t
      → get_cluster t ≡ ok cfg
      → put_cluster t call.now (wizard_config body.multi_node cfg) ≡ (t', c, none)
      → SameAnswer t'
  unfolding stamp_cluster wizard_config accepts
  SameAnswer-put_cluster t t' cfg c same g p =
      verify_of_ok call.hash t' body.bootstrap_token _
        (get_cluster-put_cluster t t' call.now _ (ap (λ w. w.0) p) (ap (λ w. w.2) p) (opens t'.db))
      ∙ sym (
          verify_of_ok call.hash s body.bootstrap_token cfg
            (sym (get_cluster_of_same s t same (opens s.db) (opens t.db)) ∙ g))

  init_consume-Kept :
      (u : User) (tok : Token) (t : Store d) (cfg : ClusterConfig) (w : Written d ClusterConfig)
      → SameCluster s t
      → get_cluster t ≡ ok cfg
      → put_cluster t call.now (wizard_config body.multi_node cfg) ≡ w
      → Kept (init_consume call body u tok w)
  unfolding init_consume
  init_consume-Kept u tok t cfg (t', c, none) same g p =
      init_done-Kept u tok t' _ (SameAnswer-put_cluster t t' cfg c same g p) refl
  init_consume-Kept u tok t cfg (t', c, some x) same g p = λ other.
      let e : t' ≡ t =
        sym (ap (λ w. w.0) p) ∙ put_cluster_error t t' call.now _ x (ap (λ w. w.2) p) in
      rw e (SameAnswer-of_cluster t same)

  init_cluster-Kept :
      (u : User) (tok : Token) (t : Store d) (r : Result ClusterConfig)
      → SameCluster s t
      → get_cluster t ≡ r
      → Kept (init_cluster call body u tok t r)
  unfolding init_cluster
  init_cluster-Kept u tok t (ok cfg) same g = init_consume-Kept u tok t cfg _ same g refl
  init_cluster-Kept u tok t (err e) same g = λ other. SameAnswer-of_cluster t same

  init_project-Kept :
      (u : User) (tok : Token) (w : Store d × Option Error)
      → SameCluster s w.0
      → Kept (init_project call body u tok w)
  unfolding init_project
  init_project-Kept u tok (t, none) same = init_cluster-Kept u tok t _ same refl
  init_project-Kept u tok (t, some e) same = λ other. SameAnswer-of_cluster t same

  init_token-Kept :
      (u : User) (w : Store d × Result Token) → SameCluster s w.0 → Kept (init_token call body u w)
  unfolding init_token ensure_default_project
  init_token-Kept u (t, ok tok) same = init_project-Kept u tok _ (
      SameCluster-trans s t (ensure_found t call.project_mint (get_project t "default")).0 same
        (ensure_found-SameCluster t call.project_mint (get_project t "default")))
  init_token-Kept u (t, err e) same = λ other. SameAnswer-of_cluster t same

  init_user-Kept : (w : Store d × Result User) → SameCluster s w.0 → Kept (init_user call body w)
  unfolding init_user
  init_user-Kept (t, ok u) same = init_token-Kept u _ (
      SameCluster-trans s t
        (create_token call.hash t call.token_mint call.now "admin-initial" u.meta.name
          call.generated 0 true).0
        same (create_token-SameCluster call.hash t call.token_mint call.now _ _ call.generated))
  init_user-Kept (t, err e) same = λ other. SameAnswer-of_cluster t same

  init_verified-Kept : (e : Option Error) → Kept (init_verified s call body e)
  unfolding init_verified
  init_verified-Kept none =
      init_user-Kept _ (create_user-SameCluster call.hash s call.user_mint _ _ _)
  init_verified-Kept (some e) = λ other. SameAnswer-of_cluster s (refl, refl)

  handle_initialize-Kept : Kept (handle_initialize s call (ok body))
  unfolding handle_initialize
  handle_initialize-Kept = elim (Bool-cases (incomplete body)) [
    | inl e ↦ rw e (λ other. refl)
    | inr e ↦ rw e (init_verified-Kept (verify_bootstrap_token call.hash s body.bootstrap_token))
  ]

  -- While the database stays open, a run of the wizard that does not reply 201 leaves the answer
  -- to the presented bootstrap token as it was, so a token that was good can be used again; a run
  -- that replies 201 leaves the cluster initialized, and no bootstrap token is good any more.
  pub handle_initialize_retry :
      ((status_of (handle_initialize s call (ok body)).1 ≢ 201)
        × (verify_bootstrap_token call.hash
              (handle_initialize s call (ok body)).0
              body.bootstrap_token
            ≡ verify_bootstrap_token call.hash s body.bootstrap_token))
      ⊎ ((status_of (handle_initialize s call (ok body)).1 ≡ 201)
          × ((other : String)
              → (verify_bootstrap_token call.hash (handle_initialize s call (ok body)).0 other
                  ≡ some invalid_credentials)
                × ((cfg : ClusterConfig) × (get_cluster (handle_initialize s call (ok body)).0
                      ≡ ok cfg)
                    × (cfg.initialized ≡ true))))
  handle_initialize_retry =
      elim (Bool-cases (status_of (handle_initialize s call (ok body)).1 == 201)) [
        | inl e ↦
            let code = (==_iff (status_of (handle_initialize s call (ok body)).1) 201).0 e in
            inr (
              code,
              λ other.
                  let (t, done) = handle_initialize-Done s call body code in
                  let once =
                    consume_once call.hash t (handle_initialize s call (ok body)).0 call.consumed_at
                      body.bootstrap_token done (opens (handle_initialize s call (ok body)).0.db)
                      call.consumed_at other in
                  (once.0, once.2),
            )
        | inr e ↦
            let code = ==_false (status_of (handle_initialize s call (ok body)).1) 201 e in
            inl (code, handle_initialize-Kept code)
      ]
