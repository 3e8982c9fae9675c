-- ===== src/Reconcile/Run.antt =====
-- internal/runtime/container/reconcile.go: `Run` and `bootstrap`.
use selfcloud.Base.{String, ◌<>◌, Bool, true, false, List, [], ◌∷◌, ok, err, if◌then◌else◌}
use selfcloud.Store.Types.{Container, Kind, kind_container, Event, EventOp, op_put, op_delete}
use selfcloud.Store.Deps.{Deps}
use selfcloud.Store.Scoped.{Mint}
use selfcloud.Store.Typed.{get_container, list_containers}
use selfcloud.Reconcile.State.{World, Surroundings, forget}
use selfcloud.Reconcile.One.{reconcile_one}

-- What one call of `reconcileOne` meets: the outside, and what its write would mint.
pub record Turn : Type 0 where
  pub env : Surroundings
  pub mint : Mint

-- what wakes the loop of `Run`
pub data Wake : Type 0 where
  on_event : Turn → Event → Wake
  on_tick : List Turn → Wake

unfoldable pub is_container : Kind → Bool
is_container kind_container = true
is_container _ = false

module _ {d : Deps} where
  -- the loop over the listed containers, a turn for each
  unfoldable pub reconcile_all : String → List Turn → List Container → World d → World d
  reconcile_all node (t ∷ ts) (c ∷ cs) w =
      reconcile_all node ts cs (reconcile_one t.env t.mint node c w)
  reconcile_all node ts cs w = w

  unfoldable pub bootstrap : String → List Turn → World d → World d
  unfolding reconcile_all
  bootstrap node turns w = elim (list_containers w.store "") [
    | err e ↦ w
    | ok cs ↦ reconcile_all node turns cs w
  ]

  unfoldable pub on_put : String → Turn → Event → World d → World d
  on_put node t ev w = elim (get_container w.store ev.project ev.name) [
    | err e ↦ w
    | ok c ↦ reconcile_one t.env t.mint node c w
  ]

  unfoldable pub on_op : EventOp → String → Turn → Event → World d → World d
  unfolding on_put forget
  on_op op_delete node t ev w = forget w ((ev.project <> "/") <> ev.name)
  on_op op_put node t ev w = on_put node t ev w

  -- one round of the loop of `Run`
  unfoldable pub handle : String → World d → Wake → World d
  unfolding on_op is_container bootstrap
  handle node w (on_event t ev) = if is_container ev.kind then on_op ev.op node t ev w else w
  handle node w (on_tick turns) = bootstrap node turns w

  unfoldable pub run : String → World d → List Wake → World d
  unfolding handle
  run node w [] = w
  run node w (wake ∷ wakes) = run node (handle node w wake) wakes
