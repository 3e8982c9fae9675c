-- ===== src/Store/Types/Workload.antt =====
-- internal/store/types.go: containers, functions and builds.
use selfcloud.Base.{ℕ, String, Bool, Option, List}
use selfcloud.Store.Types.Core.{Time, StringMap, Meta, Phase, Status}

pub data RestartPolicy : Type 0 where
  restart_never restart_on_failure restart_always : RestartPolicy
  restart_other : String → RestartPolicy

-- `string(p)`
unfoldable pub policy_text : RestartPolicy → String
policy_text restart_never = "Never"
policy_text restart_on_failure = "OnFailure"
policy_text restart_always = "Always"
policy_text (restart_other text) = text

pub record PortMapping : Type 0 where
  pub host : ℕ
  pub container : ℕ
  pub protocol : String

pub record ResourceLimits : Type 0 where
  pub cpu_millicores : ℕ
  pub memory_mb : ℕ

pub record SecretMount : Type 0 where
  pub secret : String
  pub env_name : String
  pub mount_path : String

pub record VolumeMount : Type 0 where
  pub bucket : String
  pub mount_path : String
  pub read_only : Bool

pub record ContainerStatus : Type 0 where
  pub status : Status
  pub containerd_id : String
  pub started_at : Time
  pub exit_code : ℕ
  pub ip_address : String
  pub image : String

pub record Container : Type 0 where
  pub meta : Meta
  pub image : String
  pub command : List String
  pub args : List String
  pub env : StringMap
  pub ports : List PortMapping
  pub volumes : List VolumeMount
  pub secret_mounts : List SecretMount
  pub restart_policy : RestartPolicy
  pub resources : ResourceLimits
  pub node_id : String
  pub status : ContainerStatus

pub data FunctionRuntime : Type 0 where
  wasm firecracker : FunctionRuntime
  runtime_other : String → FunctionRuntime

pub record HttpTrigger : Type 0 where
  pub path : String
  pub methods : List String

pub record CronTrigger : Type 0 where
  pub schedule : String

pub record FunctionTrigger : Type 0 where
  pub http : Option HttpTrigger
  pub cron : Option CronTrigger

pub record BuildSpec : Type 0 where
  pub language : String
  pub build_image : String
  pub commands : List String
  pub output : String
  pub entrypoint : List String
  pub template : String

pub record GitSourceSpec : Type 0 where
  pub url : String
  pub git_ref : String  -- Ref
  pub sub_path : String
  pub auth_secret : String
  pub webhook_token : String
  pub webhook_secret : String
  pub build : BuildSpec

pub record FunctionSource : Type 0 where
  pub source_type : String  -- Type
  pub git : Option GitSourceSpec

pub record Function : Type 0 where
  pub meta : Meta
  pub runtime : FunctionRuntime
  pub handler : String
  pub source_ref : String
  pub source : FunctionSource
  pub triggers : List FunctionTrigger
  pub env : StringMap
  pub secret_mounts : List SecretMount
  pub memory_mb : ℕ
  pub timeout_ms : ℕ
  pub latest_build : String
  pub status : Status

pub record Build : Type 0 where
  pub meta : Meta
  pub function_ref : String
  pub commit_sha : String
  pub trigger : String
  pub status : Phase
  pub note : String  -- Message
  pub started_at : Time
  pub finished_at : Time
  pub logs_ref : String
  pub artifact_ref : String
