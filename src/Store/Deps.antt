-- ===== src/Store/Deps.antt =====
-- What internal/store uses of its libraries, and the resources that carry metadata.
use selfcloud.Base.{String, ◌≡◌, refl, Result}
use selfcloud.Store.Types.{
  Meta, Project, Node, ClusterConfig, Container, Function, Build, Secret, Bucket, AccessKey, User,
  Token, EventRule, EventRecord, WebhookDelivery, Kind, Resource, node_value, container_value,
  function_value, build_value, secret_value, bucket_value, access_key_value, user_value,
  token_value, event_rule_value, delivery_value,
}
use selfcloud.Store.Bolt.{Bolt, Codec}

-- The text of `LogOp.Op`; `other_log` is any text but those two.
pub data LogKind : Type 0 where
  put_log delete_log : LogKind
  other_log : String → LogKind

-- `LogOp` of internal/store/fsm.go
pub record LogOp (Raw : Type 0) : Type 0 where
  pub op : LogKind
  pub bucket : String
  pub kind : Kind
  pub project : String
  pub name : String
  pub key : String
  pub value : Raw

pub record Deps : Type 1 where
  pub Raw : Type 0
  pub bolt : Bolt Raw
  pub compact : Raw → Result Raw
  pub project_json : Codec Raw compact Project
  pub node_json : Codec Raw compact Node
  pub cluster_json : Codec Raw compact ClusterConfig
  pub container_json : Codec Raw compact Container
  pub function_json : Codec Raw compact Function
  pub build_json : Codec Raw compact Build
  pub secret_json : Codec Raw compact Secret
  pub bucket_json : Codec Raw compact Bucket
  pub access_key_json : Codec Raw compact AccessKey
  pub user_json : Codec Raw compact User
  pub token_json : Codec Raw compact Token
  pub event_rule_json : Codec Raw compact EventRule
  pub event_record_json : Codec Raw compact EventRecord
  pub delivery_json : Codec Raw compact WebhookDelivery
  pub log_json : Codec Raw compact (LogOp Raw)
  -- the empty `json.RawMessage` of a delete
  pub no_value : Raw

abbrev pub Json : Deps → Type 0 → Type 0
Json d A = Codec d.Raw d.compact A

-- `projectScoped`: `getMeta` returns a pointer, so the metadata is read and written through it.
-- `wrap` is the conversion of the value to an event's `interface{}`.
pub record ProjectScoped (A : Type 0) : Type 0 where
  pub get_meta : A → Meta
  pub with_meta : A → Meta → A
  pub wrap : A → Resource
  pub get_meta-with_meta : (a : A) (m : Meta) → get_meta (with_meta a m) ≡ m
  pub with_meta-get_meta : (a : A) → with_meta a (get_meta a) ≡ a
  pub with_meta-with_meta : (a : A) (m n : Meta) → with_meta (with_meta a m) n ≡ with_meta a n

abbrev pub container_scoped : ProjectScoped Container
container_scoped = record {
  get_meta = λ a. a.meta;
  with_meta = λ a m. record a { meta = m };
  wrap = container_value;
  get_meta-with_meta = λ a m. refl;
  with_meta-get_meta = λ a. refl;
  with_meta-with_meta = λ a m n. refl;
}

abbrev pub function_scoped : ProjectScoped Function
function_scoped = record {
  get_meta = λ a. a.meta;
  with_meta = λ a m. record a { meta = m };
  wrap = function_value;
  get_meta-with_meta = λ a m. refl;
  with_meta-get_meta = λ a. refl;
  with_meta-with_meta = λ a m n. refl;
}

abbrev pub bucket_scoped : ProjectScoped Bucket
bucket_scoped = record {
  get_meta = λ a. a.meta;
  with_meta = λ a m. record a { meta = m };
  wrap = bucket_value;
  get_meta-with_meta = λ a m. refl;
  with_meta-get_meta = λ a. refl;
  with_meta-with_meta = λ a m n. refl;
}

abbrev pub access_key_scoped : ProjectScoped AccessKey
access_key_scoped = record {
  get_meta = λ a. a.meta;
  with_meta = λ a m. record a { meta = m };
  wrap = access_key_value;
  get_meta-with_meta = λ a m. refl;
  with_meta-get_meta = λ a. refl;
  with_meta-with_meta = λ a m n. refl;
}

abbrev pub node_scoped : ProjectScoped Node
node_scoped = record {
  get_meta = λ a. a.meta;
  with_meta = λ a m. record a { meta = m };
  wrap = node_value;
  get_meta-with_meta = λ a m. refl;
  with_meta-get_meta = λ a. refl;
  with_meta-with_meta = λ a m n. refl;
}

abbrev pub user_scoped : ProjectScoped User
user_scoped = record {
  get_meta = λ a. a.meta;
  with_meta = λ a m. record a { meta = m };
  wrap = user_value;
  get_meta-with_meta = λ a m. refl;
  with_meta-get_meta = λ a. refl;
  with_meta-with_meta = λ a m n. refl;
}

abbrev pub token_scoped : ProjectScoped Token
token_scoped = record {
  get_meta = λ a. a.meta;
  with_meta = λ a m. record a { meta = m };
  wrap = token_value;
  get_meta-with_meta = λ a m. refl;
  with_meta-get_meta = λ a. refl;
  with_meta-with_meta = λ a m n. refl;
}

abbrev pub secret_scoped : ProjectScoped Secret
secret_scoped = record {
  get_meta = λ a. a.meta;
  with_meta = λ a m. record a { meta = m };
  wrap = secret_value;
  get_meta-with_meta = λ a m. refl;
  with_meta-get_meta = λ a. refl;
  with_meta-with_meta = λ a m n. refl;
}

abbrev pub event_rule_scoped : ProjectScoped EventRule
event_rule_scoped = record {
  get_meta = λ a. a.meta;
  with_meta = λ a m. record a { meta = m };
  wrap = event_rule_value;
  get_meta-with_meta = λ a m. refl;
  with_meta-get_meta = λ a. refl;
  with_meta-with_meta = λ a m n. refl;
}

abbrev pub build_scoped : ProjectScoped Build
build_scoped = record {
  get_meta = λ a. a.meta;
  with_meta = λ a m. record a { meta = m };
  wrap = build_value;
  get_meta-with_meta = λ a m. refl;
  with_meta-get_meta = λ a. refl;
  with_meta-with_meta = λ a m n. refl;
}

abbrev pub delivery_scoped : ProjectScoped WebhookDelivery
delivery_scoped = record {
  get_meta = λ a. a.meta;
  with_meta = λ a m. record a { meta = m };
  wrap = delivery_value;
  get_meta-with_meta = λ a m. refl;
  with_meta-get_meta = λ a. refl;
  with_meta-with_meta = λ a m n. refl;
}
