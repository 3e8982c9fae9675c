-- ===== src/Examples/Admission.antt =====
-- The theorems about internal/auth, internal/cluster and internal/scheduler at small clusters.
use selfcloud.Base.{
  String, ◌<>◌, ◌≡◌, ◌⊎◌, refl, true, Option, none, some, [], ◌∷◌, arith, Error,
  invalid_credentials, token_used, no_capacity, Result, ok, err, str_eq, str_eq_iff, if◌then◌else◌,
}
use selfcloud.Store.Types.{new_meta, no_status, ClusterConfig, Node, compute, JoinToken}
use selfcloud.Store.Core.{Store}
use selfcloud.Store.Scoped.{Mint}
use selfcloud.Store.Typed.{get_cluster, list_nodes, put_node}
use selfcloud.Auth.Bootstrap.{
  create_bootstrap_token, verify_bootstrap_token, consume_bootstrap_token,
}
use selfcloud.Auth.OneTime.{consume_once}
use selfcloud.Cluster.Tokens.{issue, consume}
use selfcloud.Cluster.OneTime.{join_once}
use selfcloud.Scheduler.Place.{Scheduler, place_workload}
use selfcloud.Scheduler.Earliest.{IsEarliest, candidates, place_workload-IsEarliest}
use selfcloud.Examples.Memory.{memory}
use selfcloud.Examples.Stores.{opened}

abbrev hashed : String → String
hashed x = "#" <> x

abbrev created : Store memory × Result String
created = create_bootstrap_token hashed opened 100 (ok "boot")

created_ok : created ≡ (created.0, ok "boot")
unfolding create_bootstrap_token get_cluster selfcloud.Store.Core.get
    selfcloud.Store.Typed.put_cluster selfcloud.Store.Core.put
created_ok = refl

abbrev consumed : Store memory × Option Error
consumed = consume_bootstrap_token hashed created.0 200 "boot"

consumed_ok : consumed ≡ (consumed.0, none)
unfolding consume_bootstrap_token get_cluster selfcloud.Store.Core.get create_bootstrap_token
    selfcloud.Store.Typed.put_cluster selfcloud.Store.Core.put selfcloud.Store.Core.emit
consumed_ok = refl

consume_once_example :
    (verify_bootstrap_token hashed consumed.0 "boot" ≡ some invalid_credentials)
    × (consume_bootstrap_token hashed consumed.0 300 "boot"
        ≡ (consumed.0, some invalid_credentials))
    × ((cfg : ClusterConfig) × (get_cluster consumed.0 ≡ ok cfg) × (cfg.initialized ≡ true))
consume_once_example =
    consume_once hashed created.0 consumed.0 200 "boot" consumed_ok refl 300 "boot"

abbrev issued : Store memory × Result (String × JoinToken)
issued = issue hashed opened 100 "id" "secret" "admin" 3_600

abbrev joined : Store memory × Option Error
joined = consume hashed issued.0 200 "scjoin_secret" "n2"

joined_ok : joined ≡ (joined.0, none)
unfolding consume get_cluster selfcloud.Store.Core.get issue selfcloud.Store.Typed.put_cluster
    selfcloud.Store.Core.put selfcloud.Store.Core.emit
joined_ok = refl

join_once_example : consume hashed joined.0 300 "scjoin_secret" "n3" ≡ (joined.0, some token_used)
join_once_example =
    join_once hashed issued.0 joined.0 200 "scjoin_secret" "n2" joined_ok refl
      (ground (arith, str_eq_iff "n2" "")) 300 "n3"

abbrev node : String → Node
node name = record {
  meta = new_meta "system" name;
  address = "10.0.0.1";
  api_address = "";
  raft_address = "";
  gossip_address = "";
  roles = compute ∷ [];
  capacity_gb = 10;
  zone = "";
  version = "";
  status = no_status;
  last_seen_at = 0;
}

abbrev self : Scheduler
self = record { self_id = "n1"; required = compute }

abbrev one : Store memory × Node × Option Error
one = put_node opened (record { uid = "a"; created = 500; updated = 500 }) (node "n1")

abbrev two : Store memory × Node × Option Error
two = put_node one.0 (record { uid = "b"; created = 400; updated = 400 }) (node "n2")

listed : list_nodes two.0 ≡ ok (one.1 ∷ two.1 ∷ [])
unfolding list_nodes selfcloud.Store.Core.list put_node selfcloud.Store.Scoped.put_scoped
    selfcloud.Store.Core.put selfcloud.Store.Core.emit selfcloud.Store.Core.decode_all
    selfcloud.Examples.Memory.sort_entries selfcloud.Store.Core.key_for
listed = refl

place_workload-IsEarliest_example :
    ((n : Node) × (place_workload two.0 self compute ≡ ok n.meta.name)
      × IsEarliest n (candidates compute (one.1 ∷ two.1 ∷ [])))
    ⊎ ((candidates compute (one.1 ∷ two.1 ∷ []) ≡ [])
        × (place_workload two.0 self compute
            ≡ (if str_eq self.self_id "" then err no_capacity else ok self.self_id)))
place_workload-IsEarliest_example =
    place_workload-IsEarliest two.0 self compute (one.1 ∷ two.1 ∷ []) listed
