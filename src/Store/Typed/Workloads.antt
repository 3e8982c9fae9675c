-- ===== src/Store/Typed/Workloads.antt =====
-- internal/store/store.go: containers, functions and builds.
use selfcloud.Base.{String, ◌<>◌, Option, List, reverse, keep, str_eq, Error, Result, map_ok}
use selfcloud.Store.Types.{kind_container, kind_function, kind_build, Container, Function, Build}
use selfcloud.Store.Deps.{Deps, container_scoped, function_scoped, build_scoped}
use selfcloud.Store.Core.{Store, key_for, get}
use selfcloud.Store.Scoped.{Mint, Written, put_scoped, delete_scoped}
use selfcloud.Store.Typed.Listing.{project_prefix, list_values}

module _ {d : Deps} where
  unfoldable pub put_container : Store d → Mint → Container → Written d Container
  put_container s = put_scoped s container_scoped d.container_json "containers" kind_container

  unfoldable pub get_container : Store d → String → String → Result Container
  get_container s project name = get s d.container_json "containers" (key_for project name)

  unfoldable pub list_containers : Store d → String → Result (List Container)
  unfolding list_values project_prefix
  list_containers s project = list_values s d.container_json "containers" (project_prefix project)

  unfoldable pub delete_container : Store d → String → String → Store d × Option Error
  delete_container s = delete_scoped s "containers" kind_container

  unfoldable pub put_function : Store d → Mint → Function → Written d Function
  put_function s = put_scoped s function_scoped d.function_json "functions" kind_function

  unfoldable pub get_function : Store d → String → String → Result Function
  get_function s project name = get s d.function_json "functions" (key_for project name)

  unfoldable pub list_functions : Store d → String → Result (List Function)
  unfolding list_values project_prefix
  list_functions s project = list_values s d.function_json "functions" (project_prefix project)

  unfoldable pub delete_function : Store d → String → String → Store d × Option Error
  delete_function s = delete_scoped s "functions" kind_function

  unfoldable pub put_build : Store d → Mint → Build → Written d Build
  put_build s = put_scoped s build_scoped d.build_json "builds" kind_build

  unfoldable pub get_build : Store d → String → String → Result Build
  get_build s project name = get s d.build_json "builds" (key_for project name)

  -- the reversal loop is the library's `reverse`; keys ascend, so the newest name is first
  unfoldable pub list_builds : Store d → String → String → Result (List Build)
  unfolding list_values
  list_builds s project fn =
      map_ok (λ bs. reverse (keep (λ b. str_eq b.function_ref fn) bs))
        (list_values s d.build_json "builds" (project <> "/"))

  unfoldable pub delete_build : Store d → String → String → Store d × Option Error
  delete_build s = delete_scoped s "builds" kind_build
