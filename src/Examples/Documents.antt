-- ===== src/Examples/Documents.antt =====
-- Codecs that meet the laws of encoding/json: a document is the value that was encoded.
use selfcloud.Base.{String, ◌≡◌, refl, sym, ap, message, Result, ok, err}
use selfcloud.Store.Types.{
  Kind, Project, Node, ClusterConfig, Container, Function, Build, Secret, Bucket, AccessKey, User,
  Token, EventRule, EventRecord, WebhookDelivery,
}
use selfcloud.Store.Bolt.{Codec}
use selfcloud.Store.Deps.{LogOp, LogKind}

-- a document: the value that was encoded
pub data Document : Type 0 where
  project_document : Project → Document
  node_document : Node → Document
  cluster_document : ClusterConfig → Document
  container_document : Container → Document
  function_document : Function → Document
  build_document : Build → Document
  secret_document : Secret → Document
  bucket_document : Bucket → Document
  access_key_document : AccessKey → Document
  user_document : User → Document
  token_document : Token → Document
  event_rule_document : EventRule → Document
  event_record_document : EventRecord → Document
  delivery_document : WebhookDelivery → Document
  log_document : LogKind → String → Kind → String → String → String → Document → Document
  null_document : Document

written_of : {x r : Document} → ok x ≡ ok r → x ≡ r
written_of h = cc

pub read-injected :
    {A : Type 0} (read : Document → Result A) (x r : Document) (a : A)
    → read x ≡ ok a
    → ok x ≡ ok r
    → read r ≡ ok a
read-injected read x r a h e = rw (← h) (ap read (sym (written_of e)))

abbrev pub plain_codec :
    {A : Type 0} (write : A → Document) (read : Document → Result A)
    → ((a : A) → read (write a) ≡ ok a)
    → Codec Document ok A
plain_codec write read back = record {
  marshal = λ a. ok (write a);
  unmarshal = read;
  unmarshal-marshal = λ a r. read-injected read (write a) r a (back a);
  compact-marshal = λ a r h. refl;
}

abbrev pub undecodable : {A : Type 0} → Result A
undecodable = err (message "decode")

abbrev pub read_project : Document → Result Project
read_project (project_document a) = ok a
read_project _ = undecodable

abbrev pub read_node : Document → Result Node
read_node (node_document a) = ok a
read_node _ = undecodable

abbrev pub read_cluster : Document → Result ClusterConfig
read_cluster (cluster_document a) = ok a
read_cluster _ = undecodable

abbrev pub read_container : Document → Result Container
read_container (container_document a) = ok a
read_container _ = undecodable

abbrev pub read_function : Document → Result Function
read_function (function_document a) = ok a
read_function _ = undecodable

abbrev pub read_build : Document → Result Build
read_build (build_document a) = ok a
read_build _ = undecodable

abbrev pub read_secret : Document → Result Secret
read_secret (secret_document a) = ok a
read_secret _ = undecodable

abbrev pub read_bucket : Document → Result Bucket
read_bucket (bucket_document a) = ok a
read_bucket _ = undecodable

abbrev pub read_access_key : Document → Result AccessKey
read_access_key (access_key_document a) = ok a
read_access_key _ = undecodable

abbrev pub read_user : Document → Result User
read_user (user_document a) = ok a
read_user _ = undecodable

abbrev pub read_token : Document → Result Token
read_token (token_document a) = ok a
read_token _ = undecodable

abbrev pub read_event_rule : Document → Result EventRule
read_event_rule (event_rule_document a) = ok a
read_event_rule _ = undecodable

abbrev pub read_event_record : Document → Result EventRecord
read_event_record (event_record_document a) = ok a
read_event_record _ = undecodable

abbrev pub read_delivery : Document → Result WebhookDelivery
read_delivery (delivery_document a) = ok a
read_delivery _ = undecodable

abbrev pub read_log : Document → Result (LogOp Document)
read_log (log_document op bucket kind project name key value) = ok (record {
  op = op;
  bucket = bucket;
  kind = kind;
  project = project;
  name = name;
  key = key;
  value = value;
})
read_log _ = undecodable
