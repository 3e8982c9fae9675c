-- ===== src/Api/Webhooks.antt =====
-- internal/api/webhooks.go: push to deploy. The HMAC, the decoding of hexadecimal and of the
-- payload, and the folds of text are arguments.
use Prim.Native.Char.{code}
use selfcloud.Base.{
  ◌==◌, String, Bool, true, false, ◌||◌, Option, none, some, List, [], ◌∷◌, find_first, str_eq,
  Error, not_found, Result, ok, err, if◌then◌else◌,
}
use selfcloud.Store.Types.{Bytes, Function, GitSourceSpec, Build, Project, EventRecord}
use selfcloud.Store.Deps.{Deps}
use selfcloud.Store.Core.{Store, has_prefix}
use selfcloud.Store.Typed.{list_projects, list_functions}
use selfcloud.Api.Reply.{json, failed, server_error, absent, Calling}
use selfcloud.Api.Guard.{drop_text}
use selfcloud.Api.Defaults.{BuilderHook}

pub record WebhookRequest : Type 0 where
  pub token : String  -- the segment of the path
  pub body : Result Bytes
  pub signature : String  -- the header x-hub-signature-256
  pub authorization : String

-- `after` and `ref` of the payload
pub record PushPayload : Type 0 where
  pub after : String
  pub git_ref : String

pub record WebhookCall (d : Deps) : Type 0 where
  pub texts : Error → String
  pub hmac : String → Bytes → Bytes
  pub decode_hex : String → Result Bytes
  pub lower : String → String
  pub trim : String → String
  pub payload : Bytes → PushPayload
  pub builder : Option (BuilderHook d)
  pub has_bus : Bool

pub record QueuedBuild : Type 0 where
  pub build : String
  pub commit : String

-- `hmac.Equal`
unfoldable pub bytes_eq : Bytes → Bytes → Bool
bytes_eq [] [] = true
bytes_eq (a ∷ more) (b ∷ others) = let rest = bytes_eq more others in if a == b then rest else false
bytes_eq _ _ = false

-- `strings.SplitN(s, "=", 2)`, where there is a "="
unfoldable pub split_equals : String → Option (String × String)
split_equals String.[] = none
split_equals (String.◌∷◌ c s) =
    let rest = split_equals s in
    if code c == 61
    then some ("", s)
    else elim rest [ none ↦ none | some x ↦ some (String.◌∷◌ c x.0, x.1) ]

unfoldable pub digest_matches : Bytes → Result Bytes → Bool
unfolding bytes_eq
digest_matches mac (ok want) = bytes_eq mac want
digest_matches mac (err e) = false

unfoldable pub hmac_parts : (String → Result Bytes) → Bytes → Option (String × String) → Bool
unfolding digest_matches
hmac_parts decode_hex mac none = false
hmac_parts decode_hex mac (some (kind, hex)) =
    if str_eq kind "sha256" then digest_matches mac (decode_hex hex) else false

-- `verifyHMAC`
unfoldable pub verify_hmac :
    (String → Bytes → Bytes) → (String → Result Bytes) → String → Bytes → String → Bool
unfolding hmac_parts split_equals
verify_hmac hmac decode_hex header body secret =
    if str_eq header "" || str_eq secret ""
    then false
    else hmac_parts decode_hex (hmac secret body) (split_equals header)

-- `verifyBearer`; `hmac.Equal` of two texts is their equality
unfoldable pub verify_bearer : (String → String) → (String → String) → String → String → Bool
unfolding drop_text has_prefix
verify_bearer lower trim header secret =
    if str_eq header "" || str_eq secret ""
    then false
    else if has_prefix (lower header) "bearer "
    then str_eq (trim (drop_text 7 header)) secret
    else false

unfoldable pub git_token_is : String → Option GitSourceSpec → Bool
git_token_is token none = false
git_token_is token (some g) = str_eq g.webhook_token token

unfoldable pub has_token : String → Function → Bool
unfolding git_token_is
has_token token f = git_token_is token f.source.git

unfoldable pub token_in : String → Result (List Function) → Option Function
unfolding has_token
token_in token (err e) = none
token_in token (ok fns) = find_first (has_token token) fns

unfoldable pub or_else_found : Option Function → Result Function → Result Function
or_else_found (some f) rest = ok f
or_else_found none rest = rest

-- the secret of the function's source, "" for none
unfoldable pub webhook_secret_of : Option GitSourceSpec → String
webhook_secret_of none = ""
webhook_secret_of (some g) = g.webhook_secret

unfoldable pub push_event : Function → Build → PushPayload → EventRecord
push_event f build payload = record {
  uid = "";
  event_type = "git.push";
  project = f.meta.project;
  subject = f.meta.name;
  at = 0;
  fields =
      ("build", build.meta.uid)
      ∷ ("commit", payload.after)
      ∷ ("function", f.meta.name)
      ∷ ("ref", payload.git_ref)
      ∷ [];
  body = [];
}

module _ {d : Deps} where
  unfoldable pub authentic : WebhookCall d → WebhookRequest → Bytes → String → Bool
  unfolding verify_hmac verify_bearer
  authentic call r body secret =
      verify_hmac call.hmac call.decode_hex r.signature body secret
      || verify_bearer call.lower call.trim r.authorization secret

  -- the loops of `findFunctionByWebhookToken`
  unfoldable pub find_in_projects : Store d → String → List Project → Result Function
  unfolding or_else_found token_in
  find_in_projects s token [] = err not_found
  find_in_projects s token (p ∷ ps) =
      or_else_found (token_in token (list_functions s p.meta.name)) (find_in_projects s token ps)

  unfoldable pub find_listed : Store d → String → Result (List Project) → Result Function
  unfolding find_in_projects
  find_listed s token (err e) = err e
  find_listed s token (ok ps) = find_in_projects s token ps

  -- `findFunctionByWebhookToken`
  unfoldable pub find_function_by_webhook_token : Store d → String → Result Function
  unfolding find_listed
  find_function_by_webhook_token s token = find_listed s token (list_projects s)

  -- the calls are the events that the bus is given
  unfoldable pub build_queued :
      WebhookCall d
      → Function
      → PushPayload
      → Store d × Result Build
      → Calling d EventRecord QueuedBuild
  unfolding server_error push_event
  build_queued call f payload (s, err e) = (s, [], server_error call.texts e)
  build_queued call f payload (s, ok build) = (
    s,
    if call.has_bus then push_event f build payload ∷ [] else [],
    json 202 (record { build = build.meta.uid; commit = payload.after }),
  )

  unfoldable pub trigger_build :
      Store d
      → WebhookCall d
      → Function
      → Bytes
      → Option (BuilderHook d)
      → Calling d EventRecord QueuedBuild
  unfolding build_queued
  trigger_build s call f body none = (s, [], failed 503 "builder not configured")
  trigger_build s call f body (some trigger) =
      build_queued call f (call.payload body) (trigger s f "webhook")

  unfoldable pub webhook_found :
      Store d
      → WebhookCall d
      → WebhookRequest
      → Bytes
      → Result Function
      → Calling d EventRecord QueuedBuild
  unfolding trigger_build authentic webhook_secret_of
  webhook_found s call r body (err e) = (s, [], absent)
  webhook_found s call r body (ok f) =
      let secret = webhook_secret_of f.source.git in
      if str_eq secret "" || authentic call r body secret
      then trigger_build s call f body call.builder
      else (s, [], failed 401 "bad signature")

  unfoldable pub webhook_read :
      Store d → WebhookCall d → WebhookRequest → Result Bytes → Calling d EventRecord QueuedBuild
  unfolding webhook_found
  webhook_read s call r (err e) = (s, [], failed 400 "read body")
  webhook_read s call r (ok body) =
      webhook_found s call r body (find_function_by_webhook_token s r.token)

  -- `handleGitWebhook`
  unfoldable pub handle_git_webhook :
      Store d → WebhookCall d → WebhookRequest → Calling d EventRecord QueuedBuild
  unfolding webhook_read
  handle_git_webhook s call r =
      if str_eq r.token "" then (s, [], absent) else webhook_read s call r r.body
