-- ===== src/Examples/Building.antt =====
-- The theorems about builds, pushes and invocations at a store with one function.
use selfcloud.Base.{
  ◌≡◌, ◌⊎◌, refl, true, false, Option, none, some, [], ◌∷◌, lookup, arith, Result, ok, err, str_eq,
  str_eq_iff, if◌then◌else◌,
}
use selfcloud.Store.Types.{new_meta, Function, GitSourceSpec, BuildSpec, Build, phase_pending}
use selfcloud.Store.Core.{Store}
use selfcloud.Store.Scoped.{Mint}
use selfcloud.Store.Typed.{put_function, get_function}
use selfcloud.Builder.Records.{BuildCall}
use selfcloud.Builder.Final.{Final}
use selfcloud.Api.Reply.{Reply, json, Handled}
use selfcloud.Api.Defaults.{FunctionCall}
use selfcloud.Api.Functions.{handle_put_function}
use selfcloud.Api.Updates.{handle_put_function-token}
use selfcloud.Api.Webhooks.{has_token, WebhookRequest, WebhookCall, handle_git_webhook}
use selfcloud.Api.Push.{Ignored, Authentic, handle_git_webhook_cases}
use selfcloud.Api.Invoke.{InvokeRequest, InvokeResponse, InvokeCall, invoke}
use selfcloud.Api.Environment.{invoke-env}
use selfcloud.Examples.Memory.{memory}
use selfcloud.Examples.Stores.{opened, first_mint}
use selfcloud.Examples.Values.{hello}
use selfcloud.Examples.Revealing.{manager}

abbrev no_spec : BuildSpec
no_spec = record {
  language = "";
  build_image = "";
  commands = [];
  output = "";
  entrypoint = [];
  template = "";
}

abbrev remote : GitSourceSpec
remote = record {
  url = "https://git/x";
  git_ref = "main";
  sub_path = "";
  auth_secret = "";
  webhook_token = "w1";
  webhook_secret = "s";
  build = no_spec;
}

abbrev from_git : Function
from_git = record hello { source = record { source_type = "git"; git = some remote } }

abbrev pending : Build
pending = record {
  meta = new_meta "default" "build-1";
  function_ref = "hello";
  commit_sha = "";
  trigger = "manual";
  status = phase_pending;
  note = "";
  started_at = 0;
  finished_at = 0;
  logs_ref = "";
  artifact_ref = "";
}

abbrev run : BuildCall
run = record {
  clone = λ f. ok (record { dir = "/src"; commit_sha = "c1" });
  file_exists = λ dir name. str_eq name "go.mod";
  make_out_dir = none;
  sandbox = λ dir recipe. none;
  artifact = λ dir output. ok (1 ∷ 2 ∷ []);
  put_blob = λ code. ok "blob1";
  wasm_runtime = some (λ f code. none);
  firecracker_runtime = none;
  has_bus = true;
  texts = λ e. "error";
  started_at = 10;
  finished_at = 20;
  function_at = 15;
  running_mint = first_mint;
  cloned_mint = first_mint;
  function_mint = first_mint;
  final_mint = first_mint;
}

abbrev stored : Store memory
stored = (put_function opened first_mint from_git).0

abbrev push : WebhookRequest
push = record { token = "w1"; body = ok (1 ∷ []); signature = ""; authorization = "bearer s" }

abbrev pushed : WebhookCall memory
pushed = record {
  texts = λ e. "error";
  hmac = λ secret body. [];
  decode_hex = λ text. ok [];
  lower = λ x. x;
  trim = λ x. x;
  payload = λ body. record { after = "c1"; git_ref = "main" };
  builder = some (λ s f reason. (s, ok pending));
  has_bus = true;
}

handle_git_webhook_cases_example :
    Ignored stored pushed push (handle_git_webhook stored pushed push)
    ⊎ Authentic stored pushed push
handle_git_webhook_cases_example = handle_git_webhook_cases stored pushed push

abbrev bare : GitSourceSpec
bare = record remote { webhook_token = "" }

abbrev edited : Function
edited = record hello {
  meta = record (new_meta "" "hello") { uid = "u1" };
  source = record { source_type = "git"; git = some bare };
}

abbrev update : FunctionCall memory
update = record {
  texts = λ e. "error";
  webhook_token = ok "w2";
  scheduler = none;
  builder = none;
  mint = first_mint;
}

abbrev held : Result Function → Function
held (ok f) = f
held (err e) = hello

abbrev current : Result Function
current = get_function stored "default" "hello"

current_ok : current ≡ ok (held current)
unfolding get_function selfcloud.Store.Core.get put_function selfcloud.Store.Scoped.put_scoped
    selfcloud.Store.Core.put selfcloud.Store.Core.emit selfcloud.Store.Core.key_for
current_ok = refl

current_git : (held current).source.git ≡ some remote
unfolding get_function selfcloud.Store.Core.get put_function selfcloud.Store.Scoped.put_scoped
    selfcloud.Store.Core.put selfcloud.Store.Core.emit selfcloud.Store.Core.key_for
current_git = refl

abbrev reply_of : Reply Function → Function
reply_of (json code f) = f
reply_of other = hello

abbrev updated : Handled memory Function
updated = handle_put_function stored update "default" (ok edited)

updated_ok : updated.1 ≡ json 201 (reply_of updated.1)
unfolding handle_put_function get_function selfcloud.Store.Core.get put_function
    selfcloud.Store.Scoped.put_scoped selfcloud.Store.Core.put selfcloud.Store.Core.emit
    selfcloud.Store.Core.key_for
updated_ok = refl

handle_put_function-token_example :
    ((reply_of updated.1).source.git
      ≡ some (record bare { webhook_token = if str_eq "u1" "" then "w2" else "w1" }))
    × (has_token "w1" (reply_of updated.1) ≡ (if str_eq "u1" "" then str_eq "w2" "w1" else true))
handle_put_function-token_example =
    handle_put_function-token stored update "default" "w2" edited (held current)
      (reply_of updated.1) bare remote refl refl refl current_ok current_git
      (ground (arith, str_eq_iff "w1" "")) updated_ok

abbrev asking : Function
asking = record hello { env = ("A", "secret://db") ∷ [] }

abbrev answer : InvokeResponse
answer = record { status = 200; body = []; logs = [] }

abbrev serving : InvokeCall
serving = record {
  secrets = some manager;
  wasm_runtime = some (λ f req. ok answer);
  firecracker_runtime = none;
  has_bus = false;
  itoa = λ n. "200";
  dur_ms = "1";
  texts = λ e. "error";
}

abbrev asked : InvokeRequest
asked = record { verb = "GET"; path = "/"; body = []; env = asking.env; secret_files = [] }

abbrev sent_of : Option InvokeRequest → InvokeRequest
sent_of (some req) = req
sent_of none = asked

abbrev sent : Option InvokeRequest
sent = (invoke opened serving asking asked).sent

sent_ok : sent ≡ some (sent_of sent)
unfolding invoke
sent_ok = refl

invoke-env_example : lookup "A" (sent_of sent).env ≡ lookup "A" asking.env
invoke-env_example =
    invoke-env opened serving manager asking asked (sent_of sent) refl refl refl (refl, tt) sent_ok
      "A"
