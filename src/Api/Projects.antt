-- ===== src/Api/Projects.antt =====
-- internal/api/handlers.go and internal/api/cluster.go: projects, and the lists that are only read.
use selfcloud.Base.{String, List, Error, Result, ok, err}
use selfcloud.Store.Types.{Project, Node, Build, Bucket, Container, Function, AccessKey}
use selfcloud.Store.Deps.{Deps}
use selfcloud.Store.Core.{Store}
use selfcloud.Store.Scoped.{Mint}
use selfcloud.Store.Typed.{
  put_project, get_project, list_projects, delete_project, list_nodes, list_builds, get_build,
  list_buckets, get_bucket, list_containers, get_container, list_functions, get_function,
  list_access_keys, get_access_key, redact_access_key,
}
use selfcloud.Api.Reply.{Reply, failed, read_reply, reply_written, reply_deleted, Handled}

module _ {d : Deps} (texts : Error → String) where
  unfoldable pub handle_list_projects : Store d → Reply (List Project)
  unfolding read_reply
  handle_list_projects s = read_reply texts (λ ps. ps) (list_projects s)

  unfoldable pub handle_put_project : Store d → Mint → Result Project → Handled d Project
  unfolding reply_written
  handle_put_project s mt (err e) = (s, failed 400 (texts e))
  handle_put_project s mt (ok p) = reply_written texts 200 (put_project s mt p)

  unfoldable pub handle_get_project : Store d → String → Reply Project
  unfolding read_reply
  handle_get_project s name = read_reply texts (λ p. p) (get_project s name)

  unfoldable pub handle_delete_project : Store d → String → Handled d Project
  unfolding reply_deleted
  handle_delete_project s name = reply_deleted texts (delete_project s name)

  unfoldable pub handle_list_nodes : Store d → Reply (List Node)
  unfolding read_reply
  handle_list_nodes s = read_reply texts (λ ns. ns) (list_nodes s)

  unfoldable pub handle_list_builds : Store d → String → String → Reply (List Build)
  unfolding read_reply
  handle_list_builds s project name = read_reply texts (λ bs. bs) (list_builds s project name)

  unfoldable pub handle_get_build : Store d → String → String → Reply Build
  unfolding read_reply
  handle_get_build s project id = read_reply texts (λ b. b) (get_build s project id)

  unfoldable pub handle_list_buckets : Store d → String → Reply (List Bucket)
  unfolding read_reply
  handle_list_buckets s project = read_reply texts (λ bs. bs) (list_buckets s project)

  unfoldable pub handle_get_bucket : Store d → String → String → Reply Bucket
  unfolding read_reply
  handle_get_bucket s project name = read_reply texts (λ b. b) (get_bucket s project name)

  unfoldable pub handle_list_containers : Store d → String → Reply (List Container)
  unfolding read_reply
  handle_list_containers s project = read_reply texts (λ cs. cs) (list_containers s project)

  unfoldable pub handle_get_container : Store d → String → String → Reply Container
  unfolding read_reply
  handle_get_container s project name = read_reply texts (λ c. c) (get_container s project name)

  unfoldable pub handle_list_functions : Store d → String → Reply (List Function)
  unfolding read_reply
  handle_list_functions s project = read_reply texts (λ fs. fs) (list_functions s project)

  unfoldable pub handle_get_function : Store d → String → String → Reply Function
  unfolding read_reply
  handle_get_function s project name = read_reply texts (λ f. f) (get_function s project name)

  unfoldable pub handle_list_access_keys : Store d → String → Reply (List AccessKey)
  unfolding read_reply
  handle_list_access_keys s project = read_reply texts (λ ks. ks) (list_access_keys s project)

  -- the secret is stripped on read
  unfoldable pub handle_get_access_key : Store d → String → String → Reply AccessKey
  unfolding read_reply redact_access_key
  handle_get_access_key s project name =
      read_reply texts redact_access_key (get_access_key s project name)
