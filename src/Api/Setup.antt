-- ===== src/Api/Setup.antt =====
-- internal/api/handlers.go: the first-run wizard. The hashes, the random token and the clock are
-- those of the calls of internal/auth.
use selfcloud.Base.{
  ℕ, String, Bool, true, ◌||◌, Option, none, some, str_eq, ◌==◌, Error, Result, ok, err,
  if◌then◌else◌,
}
use selfcloud.Store.Types.{Time, new_meta, Project, ClusterConfig, User, Token}
use selfcloud.Store.Deps.{Deps}
use selfcloud.Store.Core.{Store}
use selfcloud.Store.Scoped.{Mint, Written}
use selfcloud.Store.Typed.{get_project, put_project, get_cluster, put_cluster}
use selfcloud.Auth.Bootstrap.{forget_value, verify_bootstrap_token, consume_bootstrap_token}
use selfcloud.Auth.Tokens.{create_user, create_token}
use selfcloud.Api.Reply.{Reply, json, failed, server_error, Handled}

pub record InitializeReq : Type 0 where
  pub bootstrap_token : String
  pub admin_email : String
  pub admin_name : String
  pub admin_password : String
  pub multi_node : Bool

-- what a run of the wizard draws from outside
pub record InitializeCall : Type 0 where
  pub texts : Error → String
  pub hash : String → String
  pub hash_password : String → Result String
  pub generated : Result String
  pub user_mint : Mint
  pub token_mint : Mint
  pub project_mint : Mint
  pub now : Time
  pub consumed_at : Time

pub record SetupStatus : Type 0 where
  pub initialized : Bool
  pub multi_node : Bool
  pub replication_factor : ℕ

-- the user and the plaintext of the new token
abbrev pub Session : Type 0
Session = User × String

unfoldable pub status_reply : (Error → String) → Result ClusterConfig → Reply SetupStatus
unfolding server_error
status_reply texts (err e) = server_error texts e
status_reply texts (ok cfg) = json 200 (record {
  initialized = cfg.initialized;
  multi_node = cfg.multi_node;
  replication_factor = cfg.replication_factor;
})

abbrev pub default_display : Project
default_display = record {
  meta = new_meta "" "default";
  display_name = "Default";
  description = "";
}

-- the configuration that the wizard writes
unfoldable pub wizard_config : Bool → ClusterConfig → ClusterConfig
wizard_config multi_node cfg = record cfg {
  multi_node = multi_node;
  replication_factor = if cfg.replication_factor == 0 then 1 else cfg.replication_factor;
}

unfoldable pub incomplete : InitializeReq → Bool
incomplete body =
    str_eq body.admin_email "" || str_eq body.admin_password "" || str_eq body.admin_name ""

module _ {d : Deps} where
  -- `handleSetupStatus`
  unfoldable pub handle_setup_status : Store d → (Error → String) → Reply SetupStatus
  unfolding status_reply
  handle_setup_status s texts = status_reply texts (get_cluster s)

  unfoldable pub ensure_found : Store d → Mint → Result Project → Store d × Option Error
  ensure_found s mt (ok p) = (s, none)
  ensure_found s mt (err e) = forget_value (put_project s mt default_display)

  unfoldable pub ensure_default_project : Store d → Mint → Store d × Option Error
  unfolding ensure_found
  ensure_default_project s mt = ensure_found s mt (get_project s "default")

  -- the last step, and the reply
  unfoldable pub init_done :
      InitializeCall → User → Token → Store d × Option Error → Handled d Session
  unfolding server_error
  init_done call u tok (s, some e) = (s, server_error call.texts e)
  init_done call u tok (s, none) = (s, json 201 (u, tok.plaintext))

  unfoldable pub init_consume :
      InitializeCall → InitializeReq → User → Token → Written d ClusterConfig → Handled d Session
  unfolding server_error init_done
  init_consume call body u tok (s, cfg, some e) = (s, server_error call.texts e)
  init_consume call body u tok (s, cfg, none) =
      init_done call u tok
        (consume_bootstrap_token call.hash s call.consumed_at body.bootstrap_token)

  unfoldable pub init_cluster :
      InitializeCall
      → InitializeReq
      → User
      → Token
      → Store d
      → Result ClusterConfig
      → Handled d Session
  unfolding server_error init_consume wizard_config
  init_cluster call body u tok s (err e) = (s, server_error call.texts e)
  init_cluster call body u tok s (ok cfg) =
      init_consume call body u tok (put_cluster s call.now (wizard_config body.multi_node cfg))

  unfoldable pub init_project :
      InitializeCall → InitializeReq → User → Token → Store d × Option Error → Handled d Session
  unfolding server_error init_cluster
  init_project call body u tok (s, some e) = (s, server_error call.texts e)
  init_project call body u tok (s, none) = init_cluster call body u tok s (get_cluster s)

  unfoldable pub init_token :
      InitializeCall → InitializeReq → User → Store d × Result Token → Handled d Session
  unfolding server_error init_project ensure_default_project
  init_token call body u (s, err e) = (s, server_error call.texts e)
  init_token call body u (s, ok tok) =
      init_project call body u tok (ensure_default_project s call.project_mint)

  unfoldable pub init_user :
      InitializeCall → InitializeReq → Store d × Result User → Handled d Session
  unfolding server_error init_token
  init_user call body (s, err e) = (s, server_error call.texts e)
  init_user call body (s, ok u) = init_token call body u (
      create_token call.hash s call.token_mint call.now "admin-initial" u.meta.name call.generated 0
        true)

  unfoldable pub init_verified :
      Store d → InitializeCall → InitializeReq → Option Error → Handled d Session
  unfolding init_user
  init_verified s call body (some e) = (s, failed 401 "invalid bootstrap token")
  init_verified s call body none = init_user call body (
      create_user call.hash s call.user_mint body.admin_name body.admin_email
        (call.hash_password body.admin_password) true)

  -- `handleInitialize`
  unfoldable pub handle_initialize :
      Store d → InitializeCall → Result InitializeReq → Handled d Session
  unfolding incomplete init_verified
  handle_initialize s call (err e) = (s, failed 400 (call.texts e))
  handle_initialize s call (ok body) =
      if incomplete body
      then (s, failed 400 "adminName, adminEmail and adminPassword are required")
      else init_verified s call body (verify_bootstrap_token call.hash s body.bootstrap_token)
