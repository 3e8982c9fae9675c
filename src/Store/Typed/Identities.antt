-- ===== src/Store/Typed/Identities.antt =====
-- internal/store/store.go: projects, nodes, users and tokens.
use selfcloud.Base.{
  String, ◌<>◌, Option, none, some, List, map, find_first, str_eq, Error, not_found, message,
  Result, ok, err, ◌>>=◌, map_ok, if◌then◌else◌,
}
use selfcloud.Store.Types.{
  kind_project, kind_node, kind_user, kind_token, op_put, project_value, Project, Node, User, Token,
}
use selfcloud.Store.Deps.{Deps, node_scoped, user_scoped, token_scoped}
use selfcloud.Store.Core.{Store, put, get, del}
use selfcloud.Store.Scoped.{Mint, Written, default_project, mint_meta, put_scoped, written, deleted}
use selfcloud.Store.Typed.Listing.{list_values}

unfoldable pub or_not_found : {A : Type 0} → Option A → Result A
or_not_found none = err not_found
or_not_found (some a) = ok a

unfoldable pub redact_user : User → User
redact_user u = record u { password_hash = "" }

unfoldable pub redact_token : Token → Token
redact_token t = record t { hash_hex = ""; plaintext = "" }

module _ {d : Deps} where
  unfoldable pub put_project : Store d → Mint → Project → Written d Project
  unfolding mint_meta written
  put_project s mt p =
      if str_eq p.meta.name ""
      then (s, p, some (message "project name is required"))
      else let p' = record p { meta = mint_meta mt p.meta } in
        written s p'
          (record {
            kind = kind_project;
            op = op_put;
            project = "";
            name = p'.meta.name;
            value = some (project_value p');
          })
          (put s d.project_json "projects" p'.meta.name p')

  unfoldable pub get_project : Store d → String → Result Project
  get_project s name = get s d.project_json "projects" name

  unfoldable pub list_projects : Store d → Result (List Project)
  unfolding list_values
  list_projects s = list_values s d.project_json "projects" ""

  unfoldable pub delete_project : Store d → String → Store d × Option Error
  unfolding deleted
  delete_project s name =
      if str_eq name "default"
      then (s, some (message "cannot delete the default project"))
      else deleted s kind_project "" name (del s "projects" name)

  unfoldable pub put_node : Store d → Mint → Node → Written d Node
  unfolding default_project
  put_node s mt n =
      put_scoped s node_scoped d.node_json "nodes" kind_node mt
        (record n { meta = default_project "system" n.meta })

  unfoldable pub get_node : Store d → String → Result Node
  get_node s id = get s d.node_json "nodes" ("system/" <> id)

  unfoldable pub list_nodes : Store d → Result (List Node)
  unfolding list_values
  list_nodes s = list_values s d.node_json "nodes" ""

  unfoldable pub delete_node : Store d → String → Store d × Option Error
  unfolding deleted
  delete_node s id = deleted s kind_node "" id (del s "nodes" ("system/" <> id))

  unfoldable pub put_user : Store d → Mint → User → Written d User
  unfolding default_project
  put_user s mt u =
      put_scoped s user_scoped d.user_json "users" kind_user mt
        (record u { meta = default_project "system" u.meta })

  unfoldable pub get_user : Store d → String → Result User
  get_user s name = get s d.user_json "users" ("system/" <> name)

  -- `lower` is `strings.ToLower`
  unfoldable pub get_user_by_email : Store d → (String → String) → String → Result User
  unfolding or_not_found list_values
  get_user_by_email s lower email = list_values s d.user_json "users" "" >>= λ us.
      or_not_found (find_first (λ u. str_eq (lower u.email) (lower email)) us)

  unfoldable pub list_users : Store d → Result (List User)
  unfolding list_values redact_user
  list_users s = map_ok (map redact_user) (list_values s d.user_json "users" "")

  unfoldable pub delete_user : Store d → String → Store d × Option Error
  unfolding deleted
  delete_user s name = deleted s kind_user "" name (del s "users" ("system/" <> name))

  -- `t.Meta = stored.Meta`, when the write succeeded
  unfoldable pub token_written : Token → Written d Token → Written d Token
  token_written t (s, stored, none) = (s, record t { meta = stored.meta }, none)
  token_written t (s, stored, some e) = (s, t, some e)

  unfoldable pub put_token : Store d → Mint → Token → Written d Token
  unfolding default_project token_written
  put_token s mt t =
      let t' = record t { meta = default_project "system" t.meta } in
      token_written t' (
        put_scoped s token_scoped d.token_json "tokens" kind_token mt
          (record t' { plaintext = "" }))

  unfoldable pub get_token_by_hash : Store d → String → Result Token
  unfolding or_not_found list_values
  get_token_by_hash s hash_hex = list_values s d.token_json "tokens" "" >>= λ ts.
      or_not_found (find_first (λ t. str_eq t.hash_hex hash_hex) ts)

  unfoldable pub list_tokens : Store d → Result (List Token)
  unfolding list_values redact_token
  list_tokens s = map_ok (map redact_token) (list_values s d.token_json "tokens" "")

  unfoldable pub delete_token : Store d → String → Store d × Option Error
  unfolding deleted
  delete_token s name = deleted s kind_token "" name (del s "tokens" ("system/" <> name))
