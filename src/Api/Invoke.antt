-- ===== src/Api/Invoke.antt =====
-- internal/api/triggers.go and internal/api/handlers.go: the invocation of functions. The runtimes
-- answer what they are called with.
use selfcloud.Base.{
  ℕ, String, Bool, Option, none, some, List, [], ◌∷◌, insert, str_eq, Error, message, Result, ok,
  err, if◌then◌else◌,
}
use selfcloud.Store.Types.{
  Bytes, StringMap, Function, FunctionRuntime, wasm, firecracker, runtime_other, SecretMount,
  EventRecord,
}
use selfcloud.Store.Deps.{Deps}
use selfcloud.Store.Core.{Store}
use selfcloud.Secrets.Manager.{Manager, resolve_secrets, reveal_secret}

-- `InvokeRequest` and `InvokeResponse` of internal/runtime/wasm; the headers are not looked at
pub record InvokeRequest : Type 0 where
  pub verb : String  -- Method
  pub path : String
  pub body : Bytes
  pub env : StringMap
  pub secret_files : List (String × String)

pub record InvokeResponse : Type 0 where
  pub status : ℕ
  pub body : Bytes
  pub logs : Bytes

abbrev pub Invoker : Type 0
Invoker = Function → InvokeRequest → Result InvokeResponse

-- what `invoke` has; `itoa` is `fmtInt`, and `dur_ms` the text of the milliseconds that it took
pub record InvokeCall : Type 0 where
  pub secrets : Option Manager
  pub wasm_runtime : Option Invoker
  pub firecracker_runtime : Option Invoker
  pub has_bus : Bool
  pub itoa : ℕ → String
  pub dur_ms : String
  pub texts : Error → String

-- what a runtime was sent, its result, and what the bus was given
pub record Invoked : Type 0 where
  pub sent : Option InvokeRequest
  pub result : Result InvokeResponse
  pub emitted : List EventRecord

-- `for k, v := range entries { m[k] = v }`
unfoldable pub overlay : StringMap → StringMap → StringMap
overlay [] m = m
overlay ((k, v) ∷ entries) m = overlay entries (insert k v m)

unfoldable pub with_env : InvokeRequest → StringMap → InvokeRequest
with_env req env = record req { env = env }

-- the resolved variables, with the request's over them; an error of `Resolve` changes nothing
unfoldable pub merge_env : InvokeRequest → Result StringMap → InvokeRequest
unfolding overlay with_env
merge_env req (err e) = req
merge_env req (ok resolved) = with_env req (overlay req.env resolved)

unfoldable pub mounted_env : SecretMount → String → InvokeRequest → InvokeRequest
unfolding with_env
mounted_env sm pt req =
    if str_eq sm.env_name "" then req else with_env req (insert sm.env_name pt req.env)

unfoldable pub mounted_file : SecretMount → String → InvokeRequest → InvokeRequest
mounted_file sm pt req =
    if str_eq sm.mount_path ""
    then req
    else record req { secret_files = insert sm.mount_path pt req.secret_files }

unfoldable pub mount_secret : SecretMount → InvokeRequest → Result String → InvokeRequest
unfolding mounted_env mounted_file
mount_secret sm req (err e) = req
mount_secret sm req (ok pt) = mounted_file sm pt (mounted_env sm pt req)

unfoldable pub runtime_text : FunctionRuntime → String
runtime_text wasm = "wasm"
runtime_text firecracker = "firecracker"
runtime_text (runtime_other text) = text

-- the switch over the runtime
unfoldable pub runtime_of : InvokeCall → FunctionRuntime → Option Invoker
runtime_of call wasm = call.wasm_runtime
runtime_of call firecracker = call.firecracker_runtime
runtime_of call (runtime_other text) = call.wasm_runtime

unfoldable pub unavailable : FunctionRuntime → Error
unavailable wasm = message "wasm runtime not available"
unavailable firecracker = message "firecracker runtime not available"
unavailable (runtime_other text) = message "wasm runtime not available"

unfoldable pub invoked_event :
    InvokeCall → Function → InvokeRequest → Result InvokeResponse → EventRecord
unfolding runtime_text
invoked_event call f req (ok resp) = record {
  uid = "";
  event_type = "function.invoked";
  project = f.meta.project;
  subject = f.meta.name;
  at = 0;
  fields =
      ("durMs", call.dur_ms)
      ∷ ("function", f.meta.name)
      ∷ ("method", req.verb)
      ∷ ("path", req.path)
      ∷ ("runtime", runtime_text f.runtime)
      ∷ ("status", call.itoa resp.status)
      ∷ [];
  body = [];
}
invoked_event call f req (err e) = record {
  uid = "";
  event_type = "function.error";
  project = f.meta.project;
  subject = f.meta.name;
  at = 0;
  fields =
      ("durMs", call.dur_ms)
      ∷ ("error", call.texts e)
      ∷ ("function", f.meta.name)
      ∷ ("method", req.verb)
      ∷ ("path", req.path)
      ∷ ("runtime", runtime_text f.runtime)
      ∷ [];
  body = [];
}

unfoldable pub finished :
    InvokeCall → Function → InvokeRequest → Option InvokeRequest → Result InvokeResponse → Invoked
unfolding invoked_event
finished call f req sent result = record {
  sent = sent;
  result = result;
  emitted = if call.has_bus then invoked_event call f req result ∷ [] else [];
}

unfoldable pub call_runtime : InvokeCall → Function → InvokeRequest → Option Invoker → Invoked
unfolding finished unavailable
call_runtime call f req none = finished call f req none (err (unavailable f.runtime))
call_runtime call f req (some invoker) = finished call f req (some req) (invoker f req)

module _ {d : Deps} where
  -- the loop over the secret mounts: a secret that is not revealed is skipped
  unfoldable pub mount_all :
      Store d → Manager → String → List SecretMount → InvokeRequest → InvokeRequest
  unfolding mount_secret
  mount_all s m project [] req = req
  mount_all s m project (sm ∷ more) req =
      mount_all s m project more (mount_secret sm req (reveal_secret s m project sm.secret))

  -- the request with its secrets
  unfoldable pub with_secrets : Store d → Option Manager → Function → InvokeRequest → InvokeRequest
  unfolding merge_env mount_all
  with_secrets s none f req = req
  with_secrets s (some m) f req =
      mount_all s m f.meta.project f.secret_mounts
        (merge_env req (resolve_secrets s m f.meta.project f.env))

  -- `invoke`
  unfoldable pub invoke : Store d → InvokeCall → Function → InvokeRequest → Invoked
  unfolding with_secrets call_runtime runtime_of
  invoke s call f req =
      call_runtime call f (with_secrets s call.secrets f req) (runtime_of call f.runtime)
