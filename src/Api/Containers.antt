-- ===== src/Api/Containers.antt =====
-- internal/api/handlers.go and internal/api/event_adapters.go: containers. The runtime answers what
-- it is called with; its calls are recorded in their order.
use selfcloud.Base.{
  String, ◌++◌, Option, none, some, List, [], ◌∷◌, str_eq, Error, Result, ok, err, if◌then◌else◌,
}
use selfcloud.Store.Types.{Time, phase_stopped, Container, ContainerStatus}
use selfcloud.Store.Deps.{Deps}
use selfcloud.Store.Core.{Store}
use selfcloud.Store.Scoped.{Mint}
use selfcloud.Store.Typed.{put_container, get_container, delete_container}
use selfcloud.Scheduler.Place.{Scheduler, place}
use selfcloud.Api.Reply.{
  failed, store_error, server_error, delete_reply, reply_written, Calling, Handled,
}

-- `container.Runtime`, as the handlers use it
pub record ContainerRuntime : Type 0 where
  pub start_container : Container → Result ContainerStatus
  pub stop_container : Container → Option Error
  pub remove_container : Container → Option Error

pub data RuntimeCall : Type 0 where
  starting stopping removing : Container → RuntimeCall

pub record ContainerCall : Type 0 where
  pub texts : Error → String
  pub runtime : ContainerRuntime
  pub scheduler : Option Scheduler
  pub mint : Mint
  pub now : Time

-- the node of a workload that does not name one: an error of the scheduler leaves it open
unfoldable pub node_or : String → Result String → String
node_or node (ok id) = id
node_or node (err e) = node

unfoldable pub in_project : String → Container → Container
in_project project c = record c { meta = record (c.meta) { project = project } }

unfoldable pub on_node : String → Container → Container
on_node node c = record c { node_id = node }

unfoldable pub with_stopped : Time → Container → Container
with_stopped now c = record c {
  status = record (c.status) {
    status = record (c.status.status) { phase = phase_stopped; updated_at = now };
  };
}

-- the scheduler's answer for a workload whose node is `node`
unfoldable pub chosen_node : Option Scheduler → (Scheduler → Result String) → String → String
unfolding node_or
chosen_node none ask node = node
chosen_node (some sc) ask node = if str_eq node "" then node_or node (ask sc) else node

module _ {d : Deps} where
  -- `handlePutContainer`
  unfoldable pub handle_put_container :
      Store d → ContainerCall → String → Result Container → Handled d Container
  unfolding chosen_node reply_written in_project on_node
  handle_put_container s call project (err e) = (s, failed 400 (call.texts e))
  handle_put_container s call project (ok c) = reply_written call.texts 201 (
      put_container s call.mint
        (on_node (chosen_node call.scheduler (place s) c.node_id) (in_project project c)))

  unfoldable pub delete_read :
      Store d → ContainerCall → String → String → Result Container → Calling d RuntimeCall Container
  unfolding store_error delete_reply
  delete_read s call project name (err e) = (s, [], store_error call.texts e)
  delete_read s call project name (ok c) =
      let w = delete_container s project name in
      (w.0, stopping c ∷ removing c ∷ [], delete_reply call.texts w.1)

  -- `handleDeleteContainer`: the errors of the runtime are dropped
  unfoldable pub handle_delete_container :
      Store d → ContainerCall → String → String → Calling d RuntimeCall Container
  unfolding delete_read
  handle_delete_container s call project name =
      delete_read s call project name (get_container s project name)

  unfoldable pub started :
      Store d → ContainerCall → Container → Result ContainerStatus → Handled d Container
  unfolding server_error reply_written
  started s call c (err e) = (s, server_error call.texts e)
  started s call c (ok st) =
      reply_written call.texts 200 (put_container s call.mint (record c { status = st }))

  unfoldable pub start_read :
      Store d → ContainerCall → Result Container → Calling d RuntimeCall Container
  unfolding store_error started
  start_read s call (err e) = (s, [], store_error call.texts e)
  start_read s call (ok c) =
      let w = started s call c (call.runtime.start_container c) in (w.0, starting c ∷ [], w.1)

  -- `handleStartContainer`
  unfoldable pub handle_start_container :
      Store d → ContainerCall → String → String → Calling d RuntimeCall Container
  unfolding start_read
  handle_start_container s call project name = start_read s call (get_container s project name)

  unfoldable pub stop_answered :
      Store d → ContainerCall → Container → Option Error → Handled d Container
  unfolding server_error reply_written with_stopped
  stop_answered s call c (some e) = (s, server_error call.texts e)
  stop_answered s call c none =
      reply_written call.texts 200 (put_container s call.mint (with_stopped call.now c))

  unfoldable pub stop_read :
      Store d → ContainerCall → Result Container → Calling d RuntimeCall Container
  unfolding store_error stop_answered
  stop_read s call (err e) = (s, [], store_error call.texts e)
  stop_read s call (ok c) =
      let w = stop_answered s call c (call.runtime.stop_container c) in (w.0, stopping c ∷ [], w.1)

  -- `handleStopContainer`
  unfoldable pub handle_stop_container :
      Store d → ContainerCall → String → String → Calling d RuntimeCall Container
  unfolding stop_read
  handle_stop_container s call project name = stop_read s call (get_container s project name)

-- the container actions of a rule: the store, the calls, and the error
abbrev pub Acted : Deps → Type 0
Acted d = Store d × List RuntimeCall × Option Error

module _ {d : Deps} where
  unfoldable pub start_named :
      Store d → ContainerCall → Container → Result ContainerStatus → Acted d
  start_named s call c (err e) = (s, starting c ∷ [], some e)
  start_named s call c (ok st) =
      let w = put_container s call.mint (record c { status = st }) in (w.0, starting c ∷ [], w.2)

  unfoldable pub start_found : Store d → ContainerCall → Result Container → Acted d
  unfolding start_named
  start_found s call (err e) = (s, [], some e)
  start_found s call (ok c) = start_named s call c (call.runtime.start_container c)

  -- `StartByName`
  unfoldable pub start_by_name : Store d → ContainerCall → String → String → Acted d
  unfolding start_found
  start_by_name s call project name = start_found s call (get_container s project name)

  unfoldable pub stop_named : Store d → ContainerCall → Container → Option Error → Acted d
  unfolding with_stopped
  stop_named s call c (some e) = (s, stopping c ∷ [], some e)
  stop_named s call c none =
      let w = put_container s call.mint (with_stopped call.now c) in (w.0, stopping c ∷ [], w.2)

  unfoldable pub stop_read_by_name : Store d → ContainerCall → Result Container → Acted d
  unfolding stop_named
  stop_read_by_name s call (err e) = (s, [], some e)
  stop_read_by_name s call (ok c) = stop_named s call c (call.runtime.stop_container c)

  -- `StopByName`
  unfoldable pub stop_by_name : Store d → ContainerCall → String → String → Acted d
  unfolding stop_read_by_name
  stop_by_name s call project name = stop_read_by_name s call (get_container s project name)

  unfoldable pub restart_stopped : ContainerCall → String → String → Acted d → Acted d
  unfolding start_by_name
  restart_stopped call project name (s, calls, some e) = (s, calls, some e)
  restart_stopped call project name (s, calls, none) =
      let w = start_by_name s call project name in (w.0, calls ++ w.1, w.2)

  -- `RestartByName`, but for the pause
  unfoldable pub restart_by_name : Store d → ContainerCall → String → String → Acted d
  unfolding restart_stopped stop_by_name
  restart_by_name s call project name =
      restart_stopped call project name (stop_by_name s call project name)
