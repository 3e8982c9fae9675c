-- ===== src/Scheduler/Earliest.antt =====
-- The node that internal/scheduler/scheduler.go places a workload on.
use mathlib.Core.List.{Memᴰ}
use selfcloud.Base.{
  ◌≤◌, ◌≡◌, ◌⊎◌, inl, inr, refl, List, [], ◌∷◌, keep, All, arith, no_capacity, ok, err, str_eq, ltb,
  Bool-cases, if◌then◌else◌,
}
use selfcloud.Store.Types.{Node, NodeRole}
use selfcloud.Store.Deps.{Deps}
use selfcloud.Store.Core.{Store}
use selfcloud.Store.Typed.{list_nodes}
use selfcloud.Scheduler.Place.{
  Scheduler, is_candidate, insert_node, sort_nodes, choose, place_workload,
}

-- `n` is among the nodes, and none of them was updated before it
abbrev pub IsEarliest : Node → List Node → Type 0
IsEarliest n ns = Memᴰ n ns × All (λ m. n.meta.updated_at ≤ m.meta.updated_at) ns

abbrev SortedHead : List Node → List Node → Type 0
SortedHead ns sorted =
    ((ns ≡ []) × (sorted ≡ []))
    ⊎ ((x : Node) × (xs : List Node) × (sorted ≡ x ∷ xs) × IsEarliest x ns)

later_All :
    (x n : Node) (ns : List Node)
    → n.meta.updated_at ≤ x.meta.updated_at
    → All (λ m. x.meta.updated_at ≤ m.meta.updated_at) ns
    → All (λ m. n.meta.updated_at ≤ m.meta.updated_at) ns
later_All x n [] h a = tt
later_All x n (m ∷ ns) h a = (omega arith, later_All x n ns h a.1)

insert_head :
    (n : Node) (ns sorted : List Node)
    → SortedHead ns sorted
    → SortedHead (n ∷ ns) (insert_node n sorted)
unfolding insert_node
insert_head n ns sorted (inl (e, s)) =
    rw s (inr (n, [], refl, (Memᴰ.head refl, rw e (omega arith))))
insert_head n ns sorted (inr (x, xs, s, (at, least))) =
    rw s (elim (Bool-cases (ltb x.meta.updated_at n.meta.updated_at)) [
      | inl h ↦ rw h (inr (x, insert_node n xs, refl, (Memᴰ.tail at, (ground arith, least))))
      | inr h ↦ rw h (
          inr (
            n,
            x ∷ xs,
            refl,
            (Memᴰ.head refl, (omega arith, later_All x n ns (ground arith) least)),
          ))
    ])

sort_head : (ns : List Node) → SortedHead ns (sort_nodes ns)
unfolding sort_nodes
sort_head [] = inl (refl, refl)
sort_head (n ∷ ns) = insert_head n ns (sort_nodes ns) (sort_head ns)

abbrev pub candidates : NodeRole → List Node → List Node
candidates required nodes = keep (is_candidate required) nodes

-- When the nodes can be listed, a workload goes to a node of the required role that is running or
-- has no phase yet, and that was updated no later than any such node. With no such node it goes to
-- the scheduler's own node, and there is an error only if that has no name.
pub place_workload-IsEarliest :
    {d : Deps} (s : Store d) (sc : Scheduler) (required : NodeRole) (nodes : List Node)
    → list_nodes s ≡ ok nodes
    → ((n : Node) × (place_workload s sc required ≡ ok n.meta.name)
        × IsEarliest n (candidates required nodes))
      ⊎ ((candidates required nodes ≡ [])
          × (place_workload s sc required
              ≡ (if str_eq sc.self_id "" then err no_capacity else ok sc.self_id)))
unfolding place_workload choose
place_workload-IsEarliest s sc required nodes listed =
    elim (sort_head (candidates required nodes)) [
      | inl (e, sorted) ↦ inr (e, rw (listed, sorted) refl)
      | inr (x, xs, sorted, least) ↦ inl (x, rw (listed, sorted) refl, least)
    ]
