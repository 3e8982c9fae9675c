-- ===== src/Builder/Records.antt =====
-- internal/runtime/functions/builder/runner.go: what a build is made of, and what its run meets.
use selfcloud.Base.{
  String, ◌<>◌, Bool, false, ◌||◌, Option, none, some, List, [], ◌∷◌, str_eq, Error, Result,
  if◌then◌else◌,
}
use selfcloud.Store.Types.{
  Time, Bytes, new_meta, Function, FunctionRuntime, wasm, firecracker, runtime_other, GitSourceSpec,
  BuildSpec, Build, Phase, phase_eq, phase_unset, phase_pending, phase_running, phase_failed,
  EventRecord,
}
use selfcloud.Store.Deps.{Deps}
use selfcloud.Store.Core.{Store}
use selfcloud.Store.Scoped.{Mint}
use selfcloud.Builder.Detect.{Recipe}

-- the source directory and the commit of a clone
pub record Clone : Type 0 where
  pub dir : String
  pub commit_sha : String

-- What a run meets: the answers, the texts of errors, the optional parts, and what each write mints
-- and each reading of the clock returns.
pub record BuildCall : Type 0 where
  pub clone : Function → Result Clone
  pub file_exists : String → String → Bool
  pub make_out_dir : Option Error
  pub sandbox : String → Recipe → Option Error
  pub artifact : String → String → Result Bytes
  pub put_blob : Bytes → Result String
  pub wasm_runtime : Option (Function → Bytes → Option Error)
  pub firecracker_runtime : Option (Function → Bytes → Option Error)
  pub has_bus : Bool
  pub texts : Error → String
  pub started_at : Time
  pub finished_at : Time
  pub function_at : Time
  pub running_mint : Mint
  pub cloned_mint : Mint
  pub function_mint : Mint
  pub final_mint : Mint

-- A run: the store, what the bus was given, the records of the build that were put, in order, and
-- the function and the build that the goroutine holds.
pub record BuildRun (d : Deps) : Type 0 where
  pub store : Store d
  pub emitted : List EventRecord
  pub puts : List Build
  pub fn : Function
  pub build : Build

unfoldable pub is_git : String → Option GitSourceSpec → Bool
is_git source_type none = false
is_git source_type (some g) = str_eq source_type "git"

unfoldable pub spec_of : Option GitSourceSpec → BuildSpec
spec_of (some g) = g.build
spec_of none = record {
  language = "";
  build_image = "";
  commands = [];
  output = "";
  entrypoint = [];
  template = "";
}

unfoldable pub pending_build : String → Time → Function → String → Build
pending_build uid now f trigger = record {
  meta = record (new_meta f.meta.project ("build-" <> uid)) { uid = uid };
  function_ref = f.meta.name;
  commit_sha = "";
  trigger = trigger;
  status = phase_pending;
  note = "";
  started_at = now;
  finished_at = 0;
  logs_ref = "";
  artifact_ref = "";
}

unfoldable pub build_event : String → Function → Build → List (String × String) → EventRecord
build_event event_type f build fields = record {
  uid = "";
  event_type = event_type;
  project = f.meta.project;
  subject = f.meta.name;
  at = 0;
  fields = ("build", build.meta.uid) ∷ fields;
  body = [];
}

-- the phase of the function after a build that succeeds
unfoldable pub revived : Phase → Phase
unfolding phase_eq
revived phase =
    if phase_eq phase phase_unset || phase_eq phase phase_failed then phase_running else phase

unfoldable pub built_function : Time → String → String → Function → Function
unfolding revived
built_function now id uid f = record f {
  source_ref = id;
  latest_build = uid;
  status = record (f.status) { phase = revived f.status.phase; updated_at = now };
}

unfoldable pub runtime_for : BuildCall → FunctionRuntime → Option (Function → Bytes → Option Error)
runtime_for call firecracker = call.firecracker_runtime
runtime_for call wasm = call.wasm_runtime
runtime_for call (runtime_other text) = call.wasm_runtime

unfoldable pub runtime_name : FunctionRuntime → String
runtime_name wasm = "wasm"
runtime_name firecracker = "firecracker"
runtime_name (runtime_other text) = text
