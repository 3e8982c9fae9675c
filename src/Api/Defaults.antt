-- ===== src/Api/Defaults.antt =====
-- internal/api/handlers.go: what a write of a function fills in, and what it has.
use selfcloud.Base.{
  String, Bool, true, false, Option, none, some, List, [], ◌∷◌, str_eq, Error, Result, ok, err,
  map_ok, if◌then◌else◌,
}
use selfcloud.Store.Types.{
  Time, Bytes, phase_running, Function, FunctionRuntime, wasm, firecracker, runtime_other,
  GitSourceSpec, Build,
}
use selfcloud.Store.Deps.{Deps}
use selfcloud.Store.Core.{Store}
use selfcloud.Store.Scoped.{Mint}
use selfcloud.Scheduler.Place.{Scheduler}

-- `Trigger` of `BuilderHook`
abbrev pub BuilderHook : Deps → Type 0
BuilderHook d = Store d → Function → String → Store d × Result Build

-- what a write of a function has; `webhook_token` is the result of `mintWebhookToken`
pub record FunctionCall (d : Deps) : Type 0 where
  pub texts : Error → String
  pub webhook_token : Result String
  pub scheduler : Option Scheduler
  pub builder : Option (BuilderHook d)
  pub mint : Mint

-- a runtime that is wired, by its answer to `Deploy`
abbrev pub Deployer : Type 0
Deployer = Function → Bytes → Option Error

pub data DeployCall : Type 0 where
  removing_wasm removing_firecracker : Function → DeployCall
  deploying_wasm deploying_firecracker : Function → Bytes → DeployCall

pub record UploadCall : Type 0 where
  pub texts : Error → String
  pub blobs : Option (Bytes → Result String)
  pub wasm_runtime : Option Deployer
  pub firecracker_runtime : Option Deployer
  pub mint : Mint
  pub now : Time

unfoldable pub runtime_or_wasm : FunctionRuntime → FunctionRuntime
runtime_or_wasm wasm = wasm
runtime_or_wasm firecracker = firecracker
runtime_or_wasm (runtime_other text) = if str_eq text "" then wasm else runtime_other text

unfoldable pub source_type_of : String → Option GitSourceSpec → String
source_type_of given none = if str_eq given "" then "upload" else given
source_type_of given (some g) = if str_eq given "" then "git" else given

-- the project of the path, and the defaults
unfoldable pub with_defaults : String → Function → Function
unfolding runtime_or_wasm source_type_of
with_defaults project f = record f {
  meta = record (f.meta) { project = project };
  runtime = runtime_or_wasm f.runtime;
  source = record (f.source) { source_type = source_type_of f.source.source_type f.source.git };
}

unfoldable pub or_current : String → String → String
or_current given current = if str_eq given "" then current else given

-- the webhook token of the stored function, where the given source has none
unfoldable pub git_preserved : Option GitSourceSpec → Option GitSourceSpec → Option GitSourceSpec
unfolding or_current
git_preserved (some g) (some h) =
    some (record g { webhook_token = or_current g.webhook_token h.webhook_token })
git_preserved (some g) none = some g
git_preserved none h = none

unfoldable pub preserved : Function → Result Function → Function
unfolding or_current git_preserved
preserved f (err e) = f
preserved f (ok cur) = record f {
  source_ref = or_current f.source_ref cur.source_ref;
  latest_build = or_current f.latest_build cur.latest_build;
  source = record (f.source) { git = git_preserved f.source.git cur.source.git };
}

unfoldable pub set_token : Function → GitSourceSpec → String → Function
set_token f g token = record f {
  source = record (f.source) { git = some (record g { webhook_token = token }) };
}

-- a git source without a webhook token gets the one that is minted
unfoldable pub with_token : Result String → Function → Option GitSourceSpec → Result Function
unfolding set_token
with_token minted f none = ok f
with_token minted f (some g) =
    if str_eq g.webhook_token "" then map_ok (set_token f g) minted else ok f

unfoldable pub has_git : Option GitSourceSpec → Bool
has_git none = false
has_git (some g) = true

unfoldable pub function_on_node : String → Function → Function
function_on_node node f = record f { status = record (f.status) { node_id = node } }

unfoldable pub wired {ℓ} : {A : Type ℓ} → Option A → DeployCall → List DeployCall
wired none c = []
wired (some a) c = c ∷ []

unfoldable pub mark_running : Time → Function → Function
mark_running now f = record f {
  status = record (f.status) { phase = phase_running; updated_at = now };
}
