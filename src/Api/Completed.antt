-- ===== src/Api/Completed.antt =====
-- The wizard of internal/api/handlers.go replies 201 only after it has
-- consumed the bootstrap token.
use selfcloud.Base.{
  ◌≡◌, refl, true, Option, none, some, arith, Error, Result, ok, err, Bool-cases, inl, inr,
}
use selfcloud.Store.Types.{ClusterConfig, User, Token}
use selfcloud.Store.Deps.{Deps}
use selfcloud.Store.Core.{Store}
use selfcloud.Store.Scoped.{Written}
use selfcloud.Store.Typed.{get_cluster, put_cluster}
use selfcloud.Auth.Bootstrap.{verify_bootstrap_token, consume_bootstrap_token}
use selfcloud.Auth.Tokens.{create_user, create_token}
use selfcloud.Api.Reply.{status_of, server_error, Handled}
use selfcloud.Api.Setup.{
  InitializeReq, InitializeCall, Session, wizard_config, incomplete, ensure_default_project,
  init_done, init_consume, init_cluster, init_project, init_token, init_user, init_verified,
  handle_initialize,
}

module _ {d : Deps} (s : Store d) (call : InitializeCall) (body : InitializeReq) where
  -- the store of a run that replied 201 comes from a consumption that succeeded
  abbrev pub Done : Handled d Session → Type 0
  Done r =
      status_of r.1 ≡ 201
      → (t : Store d) × (consume_bootstrap_token call.hash t call.consumed_at body.bootstrap_token
          ≡ (r.0, none))

  init_done-Done :
      (u : User) (tok : Token) (t : Store d) (w : Store d × Option Error)
      → consume_bootstrap_token call.hash t call.consumed_at body.bootstrap_token ≡ w
      → Done (init_done call u tok w)
  unfolding init_done status_of server_error
  init_done-Done u tok t (t', none) h = λ code. (t, h)
  init_done-Done u tok t (t', some e) h = λ code. absurd (omega arith)

  init_consume-Done :
      (u : User) (tok : Token) (w : Written d ClusterConfig) → Done (init_consume call body u tok w)
  unfolding init_consume status_of server_error
  init_consume-Done u tok (t, c, none) = init_done-Done u tok t _ refl
  init_consume-Done u tok (t, c, some e) = λ code. absurd (omega arith)

  init_cluster-Done :
      (u : User) (tok : Token) (t : Store d) (r : Result ClusterConfig)
      → Done (init_cluster call body u tok t r)
  unfolding init_cluster status_of server_error
  init_cluster-Done u tok t (ok cfg) =
      init_consume-Done u tok (put_cluster t call.now (wizard_config body.multi_node cfg))
  init_cluster-Done u tok t (err e) = λ code. absurd (omega arith)

  init_project-Done :
      (u : User) (tok : Token) (w : Store d × Option Error) → Done (init_project call body u tok w)
  unfolding init_project status_of server_error
  init_project-Done u tok (t, none) = init_cluster-Done u tok t (get_cluster t)
  init_project-Done u tok (t, some e) = λ code. absurd (omega arith)

  init_token-Done : (u : User) (w : Store d × Result Token) → Done (init_token call body u w)
  unfolding init_token status_of server_error
  init_token-Done u (t, ok tok) =
      init_project-Done u tok (ensure_default_project t call.project_mint)
  init_token-Done u (t, err e) = λ code. absurd (omega arith)

  init_user-Done : (w : Store d × Result User) → Done (init_user call body w)
  unfolding init_user status_of server_error
  init_user-Done (t, ok u) = init_token-Done u (
      create_token call.hash t call.token_mint call.now "admin-initial" u.meta.name call.generated 0
        true)
  init_user-Done (t, err e) = λ code. absurd (omega arith)

  init_verified-Done : (e : Option Error) → Done (init_verified s call body e)
  unfolding init_verified status_of
  init_verified-Done none = init_user-Done (
      create_user call.hash s call.user_mint body.admin_name body.admin_email
        (call.hash_password body.admin_password) true)
  init_verified-Done (some e) = λ code. absurd (omega arith)

  pub handle_initialize-Done : Done (handle_initialize s call (ok body))
  unfolding handle_initialize status_of
  handle_initialize-Done = elim (Bool-cases (incomplete body)) [
    | inl e ↦ rw e (λ code. absurd (omega arith))
    | inr e ↦ rw e (init_verified-Done (verify_bootstrap_token call.hash s body.bootstrap_token))
  ]
