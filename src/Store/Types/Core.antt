-- ===== src/Store/Types/Core.antt =====
-- internal/store/types.go: kinds, metadata, phases, projects, nodes and the cluster configuration.
use selfcloud.Base.{ℕ, String, Bool, true, false, List, [], str_eq}

-- `time.Time` in nanoseconds; 0 is Go's zero time
abbrev pub Time : Type 0
Time = ℕ

abbrev pub is_zero_time : Time → Bool
is_zero_time t = elim t [ ℕ.zero ↦ true | _ ↦ false ]

-- a `map[string]string` is the list of its entries in the order of the keys
abbrev pub StringMap : Type 0
StringMap = List (String × String)

-- `kind_other` is any text but those of the constants, the empty one included
pub data Kind : Type 0 where
  kind_project kind_node kind_container kind_function kind_bucket kind_access_key : Kind
  kind_user kind_token kind_cluster kind_secret kind_event_rule kind_build kind_event : Kind
  kind_other : String → Kind

pub record Meta : Type 0 where
  pub project : String
  pub name : String
  pub uid : String
  pub generation : ℕ  -- int64, as its 64-bit pattern
  pub created_at : Time
  pub updated_at : Time
  pub labels : StringMap

-- `phase_other` is any text but those of the constants and the empty one
pub data Phase : Type 0 where
  phase_unset phase_pending phase_running phase_failed phase_succeeded phase_stopped : Phase
  phase_other : String → Phase

unfoldable pub phase_eq : Phase → Phase → Bool
phase_eq phase_unset phase_unset = true
phase_eq phase_pending phase_pending = true
phase_eq phase_running phase_running = true
phase_eq phase_failed phase_failed = true
phase_eq phase_succeeded phase_succeeded = true
phase_eq phase_stopped phase_stopped = true
phase_eq (phase_other s) (phase_other t) = str_eq s t
phase_eq _ _ = false

pub record Status : Type 0 where
  pub phase : Phase
  pub note : String  -- Message
  pub node_id : String
  pub updated_at : Time

pub record Project : Type 0 where
  pub meta : Meta
  pub display_name : String
  pub description : String

pub data NodeRole : Type 0 where
  control compute storage : NodeRole
  role_other : String → NodeRole

unfoldable pub role_eq : NodeRole → NodeRole → Bool
role_eq control control = true
role_eq compute compute = true
role_eq storage storage = true
role_eq (role_other s) (role_other t) = str_eq s t
role_eq _ _ = false

pub record Node : Type 0 where
  pub meta : Meta
  pub address : String
  pub api_address : String
  pub raft_address : String
  pub gossip_address : String
  pub roles : List NodeRole
  pub capacity_gb : ℕ
  pub zone : String
  pub version : String
  pub status : Status
  pub last_seen_at : Time

pub record JoinToken : Type 0 where
  pub id : String
  pub hash_hex : String
  pub issued_by : String
  pub issued_at : Time
  pub expires_at : Time
  pub consumed_by : String

pub record ClusterConfig : Type 0 where
  pub initialized : Bool
  pub multi_node : Bool
  pub bootstrap_token : String
  pub replication_factor : ℕ
  pub join_tokens : List JoinToken
  pub garage_rpc_secret : String
  pub garage_admin_token : String
  pub s3_internal_key_id : String
  pub s3_internal_key_secret : String
  pub secret_fingerprint : String
  pub created_at : Time
  pub updated_at : Time

-- the zero values of Go
abbrev pub no_status : Status
no_status = record { phase = phase_unset; note = ""; node_id = ""; updated_at = 0 }

abbrev pub new_meta : String → String → Meta
new_meta project name = record {
  project = project;
  name = name;
  uid = "";
  generation = 0;
  created_at = 0;
  updated_at = 0;
  labels = [];
}
