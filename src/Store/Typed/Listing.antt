-- ===== src/Store/Typed/Listing.antt =====
-- internal/store/store.go: what the `List` methods have in common.
use selfcloud.Base.{String, ◌<>◌, List, str_eq, Result, map_ok, if◌then◌else◌}
use selfcloud.Store.Deps.{Deps, Json}
use selfcloud.Store.Core.{Store, list, decode_all}

unfoldable pub project_prefix : String → String
project_prefix project = if str_eq project "" then "" else project <> "/"

module _ {d : Deps} where
  unfoldable pub list_values : {A : Type 0} → Store d → Json d A → String → String → Result (List A)
  list_values s json bucket prefix = map_ok (decode_all d json) (list s bucket prefix)
