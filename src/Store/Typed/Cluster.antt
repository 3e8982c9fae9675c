-- ===== src/Store/Typed/Cluster.antt =====
-- internal/store/store.go: the cluster configuration, a singleton.
use selfcloud.Base.{false, some, [], not_found, Result, ok, err, if◌then◌else◌}
use selfcloud.Store.Types.{Time, is_zero_time, kind_cluster, op_put, cluster_value, ClusterConfig}
use selfcloud.Store.Deps.{Deps}
use selfcloud.Store.Core.{Store, put, get}
use selfcloud.Store.Scoped.{Written, written}

-- `&ClusterConfig{ReplicationFactor: 1}`
abbrev pub default_cluster : ClusterConfig
default_cluster = record {
  initialized = false;
  multi_node = false;
  bootstrap_token = "";
  replication_factor = 1;
  join_tokens = [];
  garage_rpc_secret = "";
  garage_admin_token = "";
  s3_internal_key_id = "";
  s3_internal_key_secret = "";
  secret_fingerprint = "";
  created_at = 0;
  updated_at = 0;
}

-- no configuration yet is the default one
unfoldable pub or_default : Result ClusterConfig → Result ClusterConfig
or_default (ok c) = ok c
or_default (err not_found) = ok default_cluster
or_default (err e) = err e

unfoldable pub stamp_cluster : Time → ClusterConfig → ClusterConfig
stamp_cluster now c = record c {
  created_at = if is_zero_time c.created_at then now else c.created_at;
  updated_at = now;
}

module _ {d : Deps} where
  unfoldable pub get_cluster : Store d → Result ClusterConfig
  unfolding or_default
  get_cluster s = or_default (get s d.cluster_json "cluster" "config")

  unfoldable pub put_cluster : Store d → Time → ClusterConfig → Written d ClusterConfig
  unfolding stamp_cluster written
  put_cluster s now c =
      let c' = stamp_cluster now c in
      written s c'
        (record {
          kind = kind_cluster;
          op = op_put;
          project = "";
          name = "config";
          value = some (cluster_value c');
        })
        (put s d.cluster_json "cluster" "config" c')
