-- ===== src/Wasm/Rehydrate.antt =====
-- internal/runtime/wasm/rehydrate.go: functions are deployed again at boot.
use selfcloud.Base.{String, Bool, List, [], ◌∷◌, ◌++◌, str_eq, Result, ok, err, if◌then◌else◌}
use selfcloud.Store.Types.{Bytes, Function, FunctionRuntime, wasm, firecracker, runtime_other}
use selfcloud.Store.Deps.{Deps}
use selfcloud.Store.Core.{Store}
use selfcloud.Store.Typed.{list_functions}

-- which runtimes are wired, and `Get` of the blob store
pub record Rehydrator : Type 0 where
  pub get_blob : String → Result Bytes
  pub has_wasm : Bool
  pub has_firecracker : Bool

pub data Redeploy : Type 0 where
  to_wasm to_firecracker : Function → Bytes → Redeploy

unfoldable pub redeploy_on : Rehydrator → FunctionRuntime → Function → Bytes → List Redeploy
redeploy_on r firecracker f code = if r.has_firecracker then to_firecracker f code ∷ [] else []
redeploy_on r wasm f code = if r.has_wasm then to_wasm f code ∷ [] else []
redeploy_on r (runtime_other text) f code = if r.has_wasm then to_wasm f code ∷ [] else []

unfoldable pub redeploy_blob : Rehydrator → Function → Result Bytes → List Redeploy
unfolding redeploy_on
redeploy_blob r f (err e) = []
redeploy_blob r f (ok code) = redeploy_on r f.runtime f code

-- the calls of `Deploy` for one function, whose errors are dropped
unfoldable pub redeploy : Rehydrator → Function → List Redeploy
unfolding redeploy_blob
redeploy r f = if str_eq f.source_ref "" then [] else redeploy_blob r f (r.get_blob f.source_ref)

unfoldable pub redeploy_all : Rehydrator → List Function → List Redeploy
unfolding redeploy
redeploy_all r [] = []
redeploy_all r (f ∷ fs) = redeploy r f ++ redeploy_all r fs

unfoldable pub redeploy_listed : Rehydrator → Result (List Function) → List Redeploy
unfolding redeploy_all
redeploy_listed r (err e) = []
redeploy_listed r (ok fs) = redeploy_all r fs

-- `Run`
unfoldable pub rehydrate : {d : Deps} → Store d → Rehydrator → List Redeploy
unfolding redeploy_listed
rehydrate s r = redeploy_listed r (list_functions s "")
