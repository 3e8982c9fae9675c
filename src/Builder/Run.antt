-- ===== src/Builder/Run.antt =====
-- internal/runtime/functions/builder/runner.go: one build. The clone, the sandbox, the files, the
-- blob store and the deployment answer what they are called with; the log of the build is left out
-- here (Builder/Stream.antt).
use selfcloud.Base.{
  String, ◌<>◌, Option, none, some, List, [], ◌∷◌, ◌++◌, Error, message, Result, ok, err,
  if◌then◌else◌,
}
use selfcloud.Store.Types.{
  Time, Bytes, Function, Build, phase_running, phase_failed, phase_succeeded,
}
use selfcloud.Store.Deps.{Deps}
use selfcloud.Store.Core.{Store}
use selfcloud.Store.Scoped.{Mint, Written}
use selfcloud.Store.Typed.{put_build, put_function}
use selfcloud.Builder.Detect.{Recipe, detect}
use selfcloud.Builder.Records.{
  Clone, BuildCall, BuildRun, is_git, spec_of, pending_build, build_event, built_function,
  runtime_for, runtime_name,
}

module _ {d : Deps} where
  unfoldable pub trigger_put : Written d Build → Store d × Result Build
  trigger_put (s, build, none) = (s, ok build)
  trigger_put (s, build, some e) = (s, err e)

  -- `Trigger`, but for the run that it starts
  unfoldable pub trigger :
      String → Time → Mint → Store d → Function → String → Store d × Result Build
  unfolding trigger_put pending_build is_git
  trigger uid now mt s f reason =
      if is_git f.source.source_type f.source.git
      then trigger_put (put_build s mt (pending_build uid now f reason))
      else (s, err (message "function does not have a git source"))

  -- `_ = b.st.PutBuild(ctx, build)`: an error is dropped
  unfoldable pub put_record : Mint → Build → BuildRun d → BuildRun d
  put_record mt build r =
      let w = put_build r.store mt build in
      record r { store = w.0; build = w.1; puts = r.puts ++ w.1 ∷ [] }

  unfoldable pub emit_build : BuildCall → String → List (String × String) → BuildRun d → BuildRun d
  unfolding build_event
  emit_build call event_type fields r =
      if call.has_bus
      then record r { emitted = r.emitted ++ build_event event_type r.fn r.build fields ∷ [] }
      else r

  -- `failBuild`
  unfoldable pub fail_build : BuildCall → String → BuildRun d → BuildRun d
  unfolding put_record emit_build
  fail_build call text r =
      emit_build call "build.failed" (("error", text) ∷ ("function", r.fn.meta.name) ∷ []) (
        put_record call.final_mint
          (record (r.build) { status = phase_failed; note = text; finished_at = call.finished_at })
          r)

  unfoldable pub put_built : BuildCall → String → BuildRun d → BuildRun d
  unfolding built_function
  put_built call id r =
      let w =
        put_function r.store call.function_mint
          (built_function call.function_at id r.build.meta.uid r.fn) in
      record r { store = w.0; fn = w.1 }

  -- the last steps of a run that succeeds
  unfoldable pub succeed_build : BuildCall → String → BuildRun d → BuildRun d
  unfolding put_built put_record emit_build
  succeed_build call id r =
      let r' = put_built call id r in
      emit_build call "build.succeeded"
        (("function", r'.fn.meta.name) ∷ ("sha", r'.build.commit_sha) ∷ [])
        (put_record call.final_mint
          (record (r'.build) {
            status = phase_succeeded;
            artifact_ref = id;
            finished_at = call.finished_at;
            note = "build succeeded";
          })
          r')

  unfoldable pub run_deployed : BuildCall → String → Option Error → BuildRun d → BuildRun d
  unfolding fail_build succeed_build
  run_deployed call id (some e) r = fail_build call ("deploy: " <> call.texts e) r
  run_deployed call id none r = succeed_build call id r

  unfoldable pub run_deploy :
      BuildCall
      → Bytes
      → String
      → Option (Function → Bytes → Option Error)
      → BuildRun d
      → BuildRun d
  unfolding fail_build run_deployed runtime_name
  run_deploy call code id none r =
      fail_build call ("no runtime available for " <> runtime_name r.fn.runtime) r
  run_deploy call code id (some deploy) r = run_deployed call id (deploy r.fn code) r

  unfoldable pub run_stored : BuildCall → Bytes → Result String → BuildRun d → BuildRun d
  unfolding fail_build run_deploy runtime_for
  run_stored call code (err e) r = fail_build call ("store blob: " <> call.texts e) r
  run_stored call code (ok id) r = run_deploy call code id (runtime_for call r.fn.runtime) r

  unfoldable pub run_artifact : BuildCall → Result Bytes → BuildRun d → BuildRun d
  unfolding fail_build run_stored
  run_artifact call (err e) r = fail_build call (call.texts e) r
  run_artifact call (ok []) r = fail_build call "build produced empty artifact" r
  run_artifact call (ok (b ∷ bs)) r = run_stored call (b ∷ bs) (call.put_blob (b ∷ bs)) r

  unfoldable pub run_sandboxed :
      BuildCall → String → Recipe → Option Error → BuildRun d → BuildRun d
  unfolding fail_build run_artifact
  run_sandboxed call dir recipe (some e) r = fail_build call (call.texts e) r
  run_sandboxed call dir recipe none r = run_artifact call (call.artifact dir recipe.output) r

  unfoldable pub run_out_dir : BuildCall → String → Recipe → Option Error → BuildRun d → BuildRun d
  unfolding fail_build run_sandboxed
  run_out_dir call dir recipe (some e) r = fail_build call (call.texts e) r
  run_out_dir call dir recipe none r = run_sandboxed call dir recipe (call.sandbox dir recipe) r

  unfoldable pub run_detected : BuildCall → String → Result Recipe → BuildRun d → BuildRun d
  unfolding fail_build run_out_dir
  run_detected call dir (err e) r = fail_build call (call.texts e) r
  run_detected call dir (ok recipe) r = run_out_dir call dir recipe call.make_out_dir r

  unfoldable pub run_cloned : BuildCall → Result Clone → BuildRun d → BuildRun d
  unfolding fail_build run_detected put_record
  run_cloned call (err e) r = fail_build call (call.texts e) r
  run_cloned call (ok c) r =
      run_detected call c.dir
        (detect (call.file_exists c.dir) (spec_of r.fn.source.git) r.fn.runtime)
        (put_record call.cloned_mint (record (r.build) { commit_sha = c.commit_sha }) r)

  -- `runBuild`, between taking the function's slot and giving it back
  unfoldable pub run_build : BuildCall → Store d → Function → Build → BuildRun d
  unfolding run_cloned put_record emit_build
  run_build call s f build = run_cloned call (call.clone f) (
      emit_build call "build.started" (("function", f.meta.name) ∷ []) (
        put_record call.running_mint
          (record build { status = phase_running; started_at = call.started_at })
          (record { store = s; emitted = []; puts = []; fn = f; build = build })))
