-- ===== src/Examples/Wizard.antt =====
-- The theorems about the wizard, the join and the middleware at small clusters.
use selfcloud.Base.{
  ℕ, String, ◌<>◌, ◌≡◌, ◌≢◌, ◌⊎◌, refl, true, false, none, some, [], invalid_credentials, ok,
}
use selfcloud.Store.Types.{Node, new_meta, no_status, ClusterConfig}
use selfcloud.Store.Core.{Store}
use selfcloud.Store.Typed.{put_node, get_cluster}
use selfcloud.Auth.Bootstrap.{create_bootstrap_token, verify_bootstrap_token}
use selfcloud.Auth.Tokens.{create_token, resolve_token}
use selfcloud.Api.Reply.{status_of, json, Handled}
use selfcloud.Api.Setup.{InitializeReq, InitializeCall, handle_initialize}
use selfcloud.Api.Retry.{handle_initialize_retry}
use selfcloud.Api.Guard.{
  LeaderView, Request, AuthCall, is_read, exempt, require_auth, leader_redirect,
}
use selfcloud.Api.Follower.{Follows, leader_redirect_cases}
use selfcloud.Examples.Memory.{memory}
use selfcloud.Examples.Stores.{opened, first_mint}

abbrev hashed : String → String
hashed x = "#" <> x

abbrev created : Store memory
created = (create_bootstrap_token hashed opened 100 (ok "boot")).0

abbrev wizard : InitializeCall
wizard = record {
  texts = λ e. "error";
  hash = hashed;
  hash_password = λ p. ok ("argon " <> p);
  generated = ok "sct_1";
  user_mint = first_mint;
  token_mint = first_mint;
  project_mint = first_mint;
  now = 200;
  consumed_at = 201;
}

abbrev filled : InitializeReq
filled = record {
  bootstrap_token = "boot";
  admin_email = "ada@x";
  admin_name = "ada";
  admin_password = "pw";
  multi_node = false;
}

handle_initialize_retry_example :
    ((status_of (handle_initialize created wizard (ok filled)).1 ≢ 201)
      × (verify_bootstrap_token hashed (handle_initialize created wizard (ok filled)).0 "boot"
          ≡ verify_bootstrap_token hashed created "boot"))
    ⊎ ((status_of (handle_initialize created wizard (ok filled)).1 ≡ 201)
        × ((other : String)
            → (verify_bootstrap_token hashed (handle_initialize created wizard (ok filled)).0 other
                ≡ some invalid_credentials)
              × ((cfg : ClusterConfig) × (get_cluster
                      (handle_initialize created wizard (ok filled)).0
                    ≡ ok cfg)
                  × (cfg.initialized ≡ true))))
handle_initialize_retry_example = handle_initialize_retry created wizard filled (λ db. refl)

abbrev request : Request
request = record {
  verb = "POST";
  path = "/api/v1/projects";
  uri = "/api/v1/projects";
  authorization = "Bearer sct_1";
  access_token = "";
}

abbrev guard : AuthCall
guard = record { hash = hashed; lower = λ x. "bearer "; trim = λ x. x; now = 300 }

abbrev leader : Node
leader = record {
  meta = new_meta "system" "n1";
  address = "10.0.0.1";
  api_address = "10.0.0.1:8443";
  raft_address = "10.0.0.1:7000";
  gossip_address = "";
  roles = [];
  capacity_gb = 10;
  zone = "";
  version = "";
  status = no_status;
  last_seen_at = 0;
}

abbrev clustered : Store memory
clustered = (put_node opened first_mint leader).0

abbrev following : LeaderView
following = record { leads = false; leader_addr = "10.0.0.1:7000" }

abbrev stopped : Handled memory ℕ
stopped = leader_redirect clustered (some following) request (λ s. (s, json 200 1))

leader_redirect_cases_example :
    ((view : LeaderView) × (some following ≡ some view)
      × (view.leads ≡ false)
      × (is_read "POST" ≡ false)
      × (exempt "/api/v1/projects" ≡ false)
      × Follows ℕ clustered request view.leader_addr stopped)
    ⊎ (((some following ≡ none)
          ⊎ ((view : LeaderView) × (some following ≡ some view)
              × ((view.leads ≡ true)
                  ⊎ (is_read "POST" ≡ true)
                  ⊎ (exempt "/api/v1/projects" ≡ true))))
        × (stopped ≡ (clustered, json 200 1)))
leader_redirect_cases_example =
    leader_redirect_cases ℕ clustered request (some following) (λ s. (s, json 200 1))

-- a store with the token of the request
abbrev tokened : Store memory
tokened = (create_token hashed opened first_mint 100 "ci" "ada" (ok "sct_1") 3_600 true).0

abbrev guarded : Handled memory ℕ
guarded = require_auth tokened guard true request (λ id s. (s, json 200 1))

-- the request gets past the guard
guarded_ok : guarded ≡ (tokened, json 200 1)
unfolding require_auth resolve_token selfcloud.Store.Typed.get_token_by_hash
    selfcloud.Store.Core.list create_token selfcloud.Store.Typed.put_token
    selfcloud.Store.Scoped.put_scoped selfcloud.Store.Core.put selfcloud.Store.Core.emit
    selfcloud.Store.Core.decode_all selfcloud.Examples.Memory.sort_entries
guarded_ok = refl
