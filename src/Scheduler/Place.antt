-- ===== src/Scheduler/Place.antt =====
-- internal/scheduler/scheduler.go
use selfcloud.Base.{
  String, Bool, false, ◌||◌, List, [], ◌∷◌, keep, any_of, str_eq, ltb, no_capacity, Result, ok, err,
  ◌>>=◌, if◌then◌else◌,
}
use selfcloud.Store.Types.{Node, NodeRole, role_eq, compute, phase_eq, phase_unset, phase_running}
use selfcloud.Store.Deps.{Deps}
use selfcloud.Store.Core.{Store}
use selfcloud.Store.Typed.{list_nodes}

pub record Scheduler : Type 0 where
  pub self_id : String
  pub required : NodeRole

unfoldable pub has_role : Node → NodeRole → Bool
unfolding role_eq
has_role n r = any_of (λ x. role_eq x r) n.roles

-- the two tests of the loop over the nodes
unfoldable pub is_candidate : NodeRole → Node → Bool
unfolding has_role phase_eq
is_candidate required n =
    if has_role n required
    then phase_eq n.status.phase phase_unset || phase_eq n.status.phase phase_running
    else false

-- `sort.SliceStable` by `UpdatedAt`, as a stable insertion sort
unfoldable pub insert_node : Node → List Node → List Node
insert_node n [] = n ∷ []
insert_node n (m ∷ ms) =
    let later = insert_node n ms in
    if ltb m.meta.updated_at n.meta.updated_at then m ∷ later else n ∷ m ∷ ms

unfoldable pub sort_nodes : List Node → List Node
unfolding insert_node
sort_nodes [] = []
sort_nodes (n ∷ ns) = insert_node n (sort_nodes ns)

unfoldable pub choose : String → List Node → Result String
choose self_id [] = if str_eq self_id "" then err no_capacity else ok self_id
choose self_id (n ∷ ns) = ok n.meta.name

module _ {d : Deps} where
  unfoldable pub place_workload : Store d → Scheduler → NodeRole → Result String
  unfolding is_candidate sort_nodes choose
  place_workload s sc required =
      list_nodes s >>= λ nodes. choose sc.self_id (sort_nodes (keep (is_candidate required) nodes))

  -- `Place` and `PlaceFunction`; the workload is not looked at
  unfoldable pub place : Store d → Scheduler → Result String
  unfolding place_workload
  place s sc = place_workload s sc sc.required

  unfoldable pub place_function : Store d → Scheduler → Result String
  unfolding place_workload
  place_function s sc = place_workload s sc compute
