-- ===== src/Api/Triggers.antt =====
-- internal/api/triggers.go and internal/api/handlers.go: the two ways to invoke a function over
-- HTTP, and their records. The bytes of a text are those of its UTF-8 form.
use Prim.Native.Char.{code}
use selfcloud.Base.{
  ℕ, ◌-◌, ◌/◌, ◌==◌, String, ◌<>◌, Bool, Option, none, some, List, [], ◌∷◌, ◌++◌, str_eq, Error,
  function_not_ready, Result, ok, err, length, drop, leb, if◌then◌else◌,
}
use selfcloud.Store.Types.{Time, Bytes, Function}
use selfcloud.Store.Deps.{Deps}
use selfcloud.Store.Core.{Store}
use selfcloud.Store.Typed.{get_function}
use selfcloud.Secrets.Manager.{strip_prefix}
use selfcloud.Api.Reply.{Reply, json, failed, store_error}
use selfcloud.Api.Invoke.{InvokeRequest, InvokeResponse, InvokeCall, Invoked, invoke}
use selfcloud.Api.Invocations.{InvocationRecord}

-- what the two handlers read of a request, and the clock
pub record Trigger : Type 0 where
  pub verb : String  -- Method
  pub url_path : String
  pub sub_path : String  -- the query's `path`
  pub body : Bytes
  pub started_at : Time
  pub dur_ms : ℕ

-- what the ring is given, what was invoked, and the reply
pub record Triggered : Type 0 where
  pub recorded : List (String × InvocationRecord)
  pub invoked : Option Invoked
  pub reply : Reply InvokeResponse

-- `strings.Split(s, "/")`: the first part, and the others
unfoldable pub split_slash : String → String × List String
split_slash String.[] = ("", [])
split_slash (String.◌∷◌ c s) =
    let rest = split_slash s in
    if code c == 47 then ("", rest.0 ∷ rest.1) else (String.◌∷◌ c rest.0, rest.1)

-- `strings.Join(parts, "/")`
unfoldable pub join_slash : List String → String
join_slash [] = ""
join_slash (p ∷ []) = p
join_slash (p ∷ q ∷ more) = (p <> "/") <> join_slash (q ∷ more)

unfoldable pub trim_prefix : String → Option String → String
trim_prefix whole none = whole
trim_prefix whole (some rest) = rest

-- the bytes of "…"
abbrev pub ellipsis : Bytes
ellipsis = 226 ∷ 128 ∷ 166 ∷ []

unfoldable pub tail_string : Bytes → ℕ → Bytes
tail_string s n = if leb (length s) n then s else ellipsis ++ drop (length s - n) s

unfoldable pub logs_tail_of : Bytes → Bytes
unfolding tail_string
logs_tail_of logs = if length logs == 0 then [] else tail_string logs 256

unfoldable pub base_record : Trigger → String → InvocationRecord
base_record t path = record {
  at = t.started_at;
  verb = t.verb;
  path = path;
  status = 0;
  dur_ms = t.dur_ms;
  body_kb = length t.body / 1_024;
  error = "";
  logs_tail = [];
}

unfoldable pub invocation_record :
    (Error → String) → Trigger → String → Result InvokeResponse → InvocationRecord
unfolding base_record logs_tail_of
invocation_record texts t path (err e) = record (base_record t path) {
  status = 500;
  error = texts e;
}
invocation_record texts t path (ok resp) = record (base_record t path) {
  status = resp.status;
  logs_tail = logs_tail_of resp.logs;
}

-- `CopyResponse`
unfoldable pub copy_response : InvokeResponse → Reply InvokeResponse
copy_response resp =
    let code = (if resp.status == 0 then 200 else resp.status) in
    json code (record resp { status = code })

unfoldable pub deploying : Error → Bool
deploying function_not_ready = Bool.true
deploying _ = Bool.false

-- the replies of the public route, and of the authenticated one
unfoldable pub public_reply : (Error → String) → Result InvokeResponse → Reply InvokeResponse
unfolding copy_response deploying
public_reply texts (ok resp) = copy_response resp
public_reply texts (err e) =
    if deploying e
    then failed 503 "function is deploying; try again in a moment"
    else failed 500 (texts e)

unfoldable pub api_reply : (Error → String) → Result InvokeResponse → Reply InvokeResponse
unfolding copy_response
api_reply texts (ok resp) = copy_response resp
api_reply texts (err e) = failed 500 (texts e)

unfoldable pub refused : Reply InvokeResponse → Triggered
refused reply = record { recorded = []; invoked = none; reply = reply }

unfoldable pub request_for : Trigger → String → Function → InvokeRequest
request_for t path f = record {
  verb = t.verb;
  path = path;
  body = t.body;
  env = f.env;
  secret_files = [];
}

unfoldable pub answered :
    (Error → String)
    → Trigger
    → String
    → String
    → ((Error → String) → Result InvokeResponse → Reply InvokeResponse)
    → Invoked
    → Triggered
unfolding invocation_record
answered texts t key path reply inv = record {
  recorded = (key, invocation_record texts t path inv.result) ∷ [];
  invoked = some inv;
  reply = reply texts inv.result;
}

-- the path that the function sees
unfoldable pub sub_path_of : List String → String
unfolding join_slash
sub_path_of [] = "/"
sub_path_of (p ∷ more) = "/" <> join_slash (p ∷ more)

unfoldable pub no_code_text : String → String → String
no_code_text project name =
    "function has no code deployed; upload a .wasm via POST /api/v1/projects/" <> project
    <> "/functions/" <> name <> "/code"

module _ {d : Deps} where
  unfoldable pub trigger_found :
      Store d → InvokeCall → Trigger → String → String → List String → Result Function → Triggered
  unfolding refused answered request_for sub_path_of public_reply
  trigger_found s call t project name more (err e) = refused (failed 404 "function not found")
  trigger_found s call t project name more (ok f) =
      if str_eq f.source_ref ""
      then refused (failed 503 (no_code_text project name))
      else answered call.texts t ((project <> "/") <> name) (sub_path_of more) public_reply
          (invoke s call f (request_for t (sub_path_of more) f))

  unfoldable pub trigger_parts : Store d → InvokeCall → Trigger → String × List String → Triggered
  unfolding trigger_found refused
  trigger_parts s call t (project, []) = refused (failed 404 "function not found")
  trigger_parts s call t (project, name ∷ more) =
      trigger_found s call t project name more (get_function s project name)

  -- `handleFunctionInvoke`
  unfoldable pub handle_function_invoke : Store d → InvokeCall → Trigger → Triggered
  unfolding trigger_parts trim_prefix split_slash
  handle_function_invoke s call t =
      trigger_parts s call t (split_slash (trim_prefix t.url_path (strip_prefix t.url_path "/fn/")))

  unfoldable pub invoke_found : Store d → InvokeCall → Trigger → Result Function → Triggered
  unfolding refused answered request_for api_reply store_error
  invoke_found s call t (err e) = refused (store_error call.texts e)
  invoke_found s call t (ok f) =
      let path = (if str_eq t.sub_path "" then "/" else t.sub_path) in
      answered call.texts t ((f.meta.project <> "/") <> f.meta.name) path api_reply
        (invoke s call f (request_for t path f))

  -- `handleInvokeFunction`
  unfoldable pub handle_invoke_function :
      Store d → InvokeCall → Trigger → String → String → Triggered
  unfolding invoke_found
  handle_invoke_function s call t project name = invoke_found s call t (get_function s project name)
