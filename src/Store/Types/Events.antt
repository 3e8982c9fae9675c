-- ===== src/Store/Types/Events.antt =====
-- internal/store/types.go: event rules, event records and webhook deliveries; the `Event` of
-- internal/store/store.go.
use selfcloud.Base.{ℕ, String, Bool, Option, List}
use selfcloud.Store.Types.Core.{Time, StringMap, Kind, Meta, Project, Node, ClusterConfig}
use selfcloud.Store.Types.Workload.{Container, Function, Build}
use selfcloud.Store.Types.Access.{Bytes, Secret, Bucket, AccessKey, User, Token}

pub record EventMatch : Type 0 where
  pub types : List String
  pub subject : String
  pub filter : StringMap

pub record WebhookAction : Type 0 where
  pub url : String
  pub method : String
  pub headers : StringMap
  pub secret : String

pub record InvokeAction : Type 0 where
  pub project : String
  pub function : String
  pub path : String

pub record ContainerAction : Type 0 where
  pub project : String
  pub container : String
  pub action : String

pub record EventAction : Type 0 where
  pub webhook : Option WebhookAction
  pub invoke : Option InvokeAction
  pub container : Option ContainerAction

pub record EventRule : Type 0 where
  pub meta : Meta
  pub description : String
  pub matching : EventMatch  -- Match
  pub action : EventAction
  pub enabled : Bool
  pub last_fired_at : Time
  pub fire_count : ℕ  -- int64, as its 64-bit pattern

pub record EventRecord : Type 0 where
  pub uid : String
  pub event_type : String  -- Type
  pub project : String
  pub subject : String
  pub at : Time
  pub fields : StringMap  -- Data
  pub body : Bytes

pub record WebhookDelivery : Type 0 where
  pub meta : Meta
  pub rule : String
  pub url : String
  pub status : ℕ
  pub error : String
  pub attempt : ℕ
  pub next_attempt : Time
  pub done : Bool
  pub started_at : Time
  pub finished_at : Time
  pub event_uid : String
  pub event_type : String

-- the types that an event's `Value` holds
pub data Resource : Type 0 where
  project_value : Project → Resource
  container_value : Container → Resource
  function_value : Function → Resource
  bucket_value : Bucket → Resource
  access_key_value : AccessKey → Resource
  secret_value : Secret → Resource
  event_rule_value : EventRule → Resource
  cluster_value : ClusterConfig → Resource
  node_value : Node → Resource
  user_value : User → Resource
  token_value : Token → Resource
  build_value : Build → Resource
  delivery_value : WebhookDelivery → Resource

pub data EventOp : Type 0 where
  op_put op_delete : EventOp

-- `Event`: emitted on every successful mutation
pub record Event : Type 0 where
  pub kind : Kind
  pub op : EventOp
  pub project : String
  pub name : String
  pub value : Option Resource
