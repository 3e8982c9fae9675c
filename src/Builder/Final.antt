-- ===== src/Builder/Final.antt =====
-- Every run of internal/runtime/functions/builder/runner.go comes to an end that is recorded.
use selfcloud.Base.{String, ◌≡◌, ◌⊎◌, false, List, [], ◌∷◌, ◌++◌}
use selfcloud.Store.Types.{Function, Build, phase_failed, phase_succeeded, EventRecord}
use selfcloud.Store.Deps.{Deps}
use selfcloud.Store.Core.{Store}
use selfcloud.Builder.Records.{BuildCall, BuildRun}

module _ {d : Deps} (call : BuildCall) (f : Function) where
  -- The last write of the build is what the run holds, and the last event, where there is a bus,
  -- has the given type.
  abbrev pub Ends : BuildRun d → String → Type 0
  Ends r event_type =
      ((before : List Build) × (r.puts ≡ before ++ r.build ∷ []))
      × ((call.has_bus ≡ false)
          ⊎ ((before : List EventRecord) × (ev : EventRecord) × (r.emitted ≡ before ++ ev ∷ [])
              × (ev.event_type ≡ event_type)))

  abbrev pub Final : BuildRun d → Type 0
  Final r =
      ((r.build.status ≡ phase_failed) × (r.fn ≡ f) × Ends r "build.failed")
      ⊎ ((r.build.status ≡ phase_succeeded)
          × (r.fn.source_ref ≡ r.build.artifact_ref)
          × Ends r "build.succeeded")
