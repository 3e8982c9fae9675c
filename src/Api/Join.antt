-- ===== src/Api/Join.antt =====
-- internal/api/join.go: a node joins the cluster.
use selfcloud.Base.{
  ℕ, String, ◌<>◌, Bool, true, ◌||◌, Option, none, some, List, [], ◌∷◌, map, str_eq, Error, Result,
  ok, err, if◌then◌else◌,
}
use selfcloud.Store.Types.{
  Time, new_meta, no_status, phase_running, Node, NodeRole, control, compute, storage, role_other,
  ClusterConfig,
}
use selfcloud.Store.Deps.{Deps}
use selfcloud.Store.Core.{Store}
use selfcloud.Store.Scoped.{Mint, Written}
use selfcloud.Store.Typed.{put_node, get_cluster, put_cluster, list_nodes}
use selfcloud.Cluster.Tokens.{consume}
use selfcloud.Api.Reply.{json, failed, server_error, Handled}

pub record JoinReq : Type 0 where
  pub token : String
  pub node_id : String
  pub advertise_addr : String
  pub raft_addr : String
  pub api_addr : String
  pub roles : List String
  pub capacity_gb : ℕ

pub record JoinResp : Type 0 where
  pub node_id : String
  pub multi_node : Bool
  pub replication_factor : ℕ
  pub peers : List Node
  pub garage_rpc : String
  pub garage_admin : String
  pub version : String

-- what a join has: `AddVoter` of the raft node, where that is wired, and `version.String()`
pub record JoinCall : Type 0 where
  pub texts : Error → String
  pub hash : String → String
  pub add_voter : Option (String → String → Option Error)
  pub version : String
  pub mint : Mint
  pub consumed_at : Time
  pub seen_at : Time
  pub updated_at : Time

unfoldable pub role_of : String → NodeRole
role_of text =
    if str_eq text "control"
    then control
    else if str_eq text "compute"
    then compute
    else if str_eq text "storage"
    then storage
    else role_other text

unfoldable pub roles_of : List String → List NodeRole
unfolding role_of
roles_of [] = control ∷ compute ∷ storage ∷ []
roles_of (r ∷ rs) = map role_of (r ∷ rs)

unfoldable pub joining_node : JoinCall → JoinReq → Node
unfolding roles_of
joining_node call body = record {
  meta = new_meta "system" body.node_id;
  address = body.advertise_addr;
  api_address = body.api_addr;
  raft_address = body.raft_addr;
  gossip_address = "";
  roles = roles_of body.roles;
  capacity_gb = body.capacity_gb;
  zone = "";
  version = call.version;
  status = record no_status { phase = phase_running; updated_at = call.seen_at };
  last_seen_at = call.seen_at;
}

-- an error of `ListNodes` leaves the list empty
unfoldable pub peers_of : Result (List Node) → List Node
peers_of (ok nodes) = nodes
peers_of (err e) = []

unfoldable pub add_voter : Option (String → String → Option Error) → JoinReq → Option Error
add_voter none body = none
add_voter (some add) body = add body.node_id body.raft_addr

module _ {d : Deps} where
  unfoldable pub join_reply : JoinCall → JoinReq → Written d ClusterConfig → Handled d JoinResp
  unfolding server_error peers_of
  join_reply call body (s, cfg, some e) = (s, server_error call.texts e)
  join_reply call body (s, cfg, none) = (
    s,
    json 200 (record {
      node_id = body.node_id;
      multi_node = cfg.multi_node;
      replication_factor = cfg.replication_factor;
      peers = peers_of (list_nodes s);
      garage_rpc = cfg.garage_rpc_secret;
      garage_admin = cfg.garage_admin_token;
      version = call.version;
    }),
  )

  unfoldable pub join_cluster :
      JoinCall → JoinReq → Store d → Result ClusterConfig → Handled d JoinResp
  unfolding join_reply
  join_cluster call body s (err e) = (s, failed 500 ("load cluster: " <> call.texts e))
  join_cluster call body s (ok cfg) =
      join_reply call body (put_cluster s call.updated_at (record cfg { multi_node = true }))

  unfoldable pub join_node : JoinCall → JoinReq → Written d Node → Handled d JoinResp
  unfolding server_error join_cluster
  join_node call body (s, n, some e) = (s, server_error call.texts e)
  join_node call body (s, n, none) = join_cluster call body s (get_cluster s)

  unfoldable pub join_voted : JoinCall → JoinReq → Store d → Option Error → Handled d JoinResp
  unfolding join_node joining_node
  join_voted call body s (some e) = (s, failed 500 ("raft add voter: " <> call.texts e))
  join_voted call body s none = join_node call body (put_node s call.mint (joining_node call body))

  unfoldable pub join_consumed : JoinCall → JoinReq → Store d × Option Error → Handled d JoinResp
  unfolding join_voted add_voter
  join_consumed call body (s, some e) = (s, failed 401 (call.texts e))
  join_consumed call body (s, none) = join_voted call body s (add_voter call.add_voter body)

  -- `handleClusterJoin`
  unfoldable pub handle_cluster_join : Store d → JoinCall → Result JoinReq → Handled d JoinResp
  unfolding join_consumed
  handle_cluster_join s call (err e) = (s, failed 400 (call.texts e))
  handle_cluster_join s call (ok body) =
      if str_eq body.node_id "" || str_eq body.raft_addr ""
      then (s, failed 400 "nodeId and raftAddr are required")
      else join_consumed call body (consume call.hash s call.consumed_at body.token body.node_id)
