-- ===== src/Api/Functions.antt =====
-- internal/api/handlers.go: functions. The runtimes and the blob store answer what they are called
-- with; their calls are recorded in their order. The builder is the interface `BuilderHook`.
use selfcloud.Base.{
  String, Bool, ◌&&◌, Option, none, some, List, [], ◌∷◌, ◌++◌, str_eq, Error, Result, ok, err,
  if◌then◌else◌,
}
use selfcloud.Store.Types.{Bytes, Function, FunctionRuntime, wasm, firecracker, runtime_other}
use selfcloud.Store.Deps.{Deps}
use selfcloud.Store.Core.{Store}
use selfcloud.Store.Scoped.{Written}
use selfcloud.Store.Typed.{put_function, get_function, delete_function}
use selfcloud.Scheduler.Place.{place_function}
use selfcloud.Api.Reply.{
  json, failed, store_error, server_error, write_reply, delete_reply, Calling, Handled,
}
use selfcloud.Api.Containers.{chosen_node}
use selfcloud.Api.Defaults.{
  deploying_wasm, removing_firecracker, deploying_firecracker, removing_wasm, BuilderHook,
  FunctionCall, Deployer, DeployCall, UploadCall, with_defaults, preserved, with_token, has_git,
  function_on_node, wired, mark_running,
}

module _ {d : Deps} where
  -- the initial build of a git-backed function, whose result is dropped
  unfoldable pub first_build : Store d → Option (BuilderHook d) → Bool → Function → Store d
  unfolding has_git
  first_build s none was_new f = s
  first_build s (some trigger) was_new f =
      if was_new && has_git f.source.git then (trigger s f "create").0 else s

  unfoldable pub function_written : FunctionCall d → Bool → Written d Function → Handled d Function
  unfolding first_build store_error
  function_written call was_new (s, f, none) = (first_build s call.builder was_new f, json 201 f)
  function_written call was_new (s, f, some e) = (s, store_error call.texts e)

  unfoldable pub put_with_token :
      Store d → FunctionCall d → Bool → Result Function → Handled d Function
  unfolding server_error function_written chosen_node function_on_node
  put_with_token s call was_new (err e) = (s, server_error call.texts e)
  put_with_token s call was_new (ok f) = function_written call was_new (
      put_function s call.mint
        (function_on_node (chosen_node call.scheduler (place_function s) f.status.node_id) f))

  -- a function with a UID is taken for an update of the stored one
  unfoldable pub merged : Store d → Function → Function
  unfolding preserved
  merged s f =
      if str_eq f.meta.uid "" then f else preserved f (get_function s f.meta.project f.meta.name)

  unfoldable pub put_merged : Store d → FunctionCall d → Bool → Function → Handled d Function
  unfolding put_with_token with_token
  put_merged s call was_new f =
      put_with_token s call was_new (with_token call.webhook_token f f.source.git)

  -- `handlePutFunction`
  unfoldable pub handle_put_function :
      Store d → FunctionCall d → String → Result Function → Handled d Function
  unfolding put_merged merged with_defaults
  handle_put_function s call project (err e) = (s, failed 400 (call.texts e))
  handle_put_function s call project (ok f) =
      put_merged s call (str_eq f.meta.uid "") (merged s (with_defaults project f))

  unfoldable pub delete_function_read :
      Store d → UploadCall → Result Function → Calling d DeployCall Function
  unfolding wired store_error delete_reply
  delete_function_read s call (err e) = (s, [], store_error call.texts e)
  delete_function_read s call (ok f) =
      let w = delete_function s f.meta.project f.meta.name in
      (
        w.0,
        wired call.wasm_runtime (removing_wasm f)
            ++ wired call.firecracker_runtime (removing_firecracker f),
        delete_reply call.texts w.1,
      )

  -- `handleDeleteFunction`: the errors of the runtimes are dropped
  unfoldable pub handle_delete_function :
      Store d → UploadCall → String → String → Calling d DeployCall Function
  unfolding delete_function_read
  handle_delete_function s call project name =
      delete_function_read s call (get_function s project name)

  unfoldable pub deployed :
      Store d
      → UploadCall
      → Function
      → List DeployCall
      → Option Error
      → Calling d DeployCall Function
  unfolding server_error write_reply mark_running
  deployed s call f calls (some e) = (s, calls, server_error call.texts e)
  deployed s call f calls none =
      let w = put_function s call.mint (mark_running call.now f) in
      (w.0, calls, write_reply call.texts 200 w.1 w.2)

  -- a runtime that is not wired is skipped
  unfoldable pub deploy_with :
      Store d
      → UploadCall
      → Function
      → Bytes
      → (Function → Bytes → DeployCall)
      → Option Deployer
      → Calling d DeployCall Function
  unfolding deployed
  deploy_with s call f code named none = deployed s call f [] none
  deploy_with s call f code named (some deploy) =
      deployed s call f (named f code ∷ []) (deploy f code)

  unfoldable pub deploy_function :
      Store d → UploadCall → Function → Bytes → FunctionRuntime → Calling d DeployCall Function
  unfolding deploy_with
  deploy_function s call f code firecracker =
      deploy_with s call f code deploying_firecracker call.firecracker_runtime
  deploy_function s call f code wasm = deploy_with s call f code deploying_wasm call.wasm_runtime
  deploy_function s call f code (runtime_other text) =
      deploy_with s call f code deploying_wasm call.wasm_runtime

  unfoldable pub blob_stored :
      Store d → UploadCall → Function → Bytes → Result String → Calling d DeployCall Function
  unfolding server_error deploy_function
  blob_stored s call f code (err e) = (s, [], server_error call.texts e)
  blob_stored s call f code (ok id) =
      deploy_function s call (record f { source_ref = id }) code f.runtime

  unfoldable pub upload_body :
      Store d
      → UploadCall
      → Function
      → Option (Bytes → Result String)
      → Result Bytes
      → Calling d DeployCall Function
  unfolding blob_stored
  upload_body s call f blobs (err e) = (s, [], failed 400 (call.texts e))
  upload_body s call f none (ok code) = (s, [], failed 503 "blob store not initialised")
  upload_body s call f (some store) (ok code) = blob_stored s call f code (store code)

  unfoldable pub upload_read :
      Store d → UploadCall → Result Bytes → Result Function → Calling d DeployCall Function
  unfolding store_error upload_body
  upload_read s call body (err e) = (s, [], store_error call.texts e)
  upload_read s call body (ok f) = upload_body s call f call.blobs body

  -- `handleUploadFunctionCode`
  unfoldable pub handle_upload_function_code :
      Store d → UploadCall → String → String → Result Bytes → Calling d DeployCall Function
  unfolding upload_read
  handle_upload_function_code s call project name body =
      upload_read s call body (get_function s project name)
