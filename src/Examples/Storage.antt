-- ===== src/Examples/Storage.antt =====
-- The theorems about internal/store/store.go at a store that holds one container.
use selfcloud.Base.{
  String, ◌<>◌, ◌≡◌, refl, true, Option, none, ◌&&◌, map, keep, arith, Error, not_found, ok, err,
  str_eq, if◌then◌else◌,
}
use selfcloud.Store.Types.{kind_container}
use selfcloud.Store.Deps.{container_scoped}
use selfcloud.Store.Core.{Store, key_for, has_prefix, get, list, decode_all}
use selfcloud.Store.Scoped.{Mint, put_scoped, delete_scoped}
use selfcloud.Store.Typed.{list_values}
use selfcloud.Store.RoundTrip.{minted_meta}
use selfcloud.Store.Isolation.{slash_free}
use selfcloud.Store.Tenancy.{IsKeyed, list_values-project, put_scoped-IsKeyed}
use selfcloud.Store.Deletion.{get-delete_scoped}
use selfcloud.Examples.Memory.{memory}
use selfcloud.Examples.Stores.{web, opened, first_mint, put_web, put_web_ok}

has_containers : memory.bolt.has_bucket put_web.0.db "containers" ≡ true
unfolding put_scoped selfcloud.Store.Core.put selfcloud.Store.Core.emit
has_containers = refl

opened-IsKeyed : IsKeyed memory container_scoped memory.container_json "containers" opened
opened-IsKeyed = record { at = λ k raw h. ground arith }

default_plain : slash_free (minted_meta container_scoped first_mint web).project ≡ true
unfolding selfcloud.Store.Scoped.mint_meta selfcloud.Store.Scoped.default_project
default_plain = refl

put_scoped-IsKeyed_example :
    IsKeyed memory container_scoped memory.container_json "containers" put_web.0
put_scoped-IsKeyed_example =
    put_scoped-IsKeyed container_scoped memory.container_json opened put_web.0 "containers"
      kind_container first_mint web put_web.1 opened-IsKeyed put_web_ok default_plain

web-IsKeyed : IsKeyed memory container_scoped memory.container_json "containers" put_web.0
web-IsKeyed =
    put_scoped-IsKeyed container_scoped memory.container_json opened put_web.0 "containers"
      kind_container first_mint web put_web.1 opened-IsKeyed put_web_ok default_plain

list_values-project_example :
    list_values put_web.0 memory.container_json "containers" ("default" <> "/")
    ≡ ok (
        keep
          (λ v. str_eq v.meta.project "default")
          (decode_all memory memory.container_json
            (map (λ e. e.1) (memory.bolt.entries put_web.0.db "containers"))))
list_values-project_example =
    list_values-project container_scoped memory.container_json put_web.0 "containers" "default" refl
      has_containers web-IsKeyed refl

abbrev prod : String
prod = "prod"

abbrev remove_web : Store memory × Option Error
remove_web = delete_scoped put_web.0 "containers" kind_container "default" "web"

remove_web_ok : remove_web ≡ (remove_web.0, none)
unfolding put_scoped selfcloud.Store.Core.put delete_scoped selfcloud.Store.Core.del
    selfcloud.Store.Core.emit key_for
remove_web_ok = refl

get-delete_scoped_example :
    (get remove_web.0 memory.container_json "containers" (key_for "default" "web") ≡ err not_found)
    × (memory.bolt.get remove_web.0.db "containers" "default/db" ≡ (
        if str_eq "containers" "containers" && str_eq (key_for "default" "web") "default/db"
        then none
        else memory.bolt.get put_web.0.db "containers" "default/db"))
get-delete_scoped_example =
    get-delete_scoped put_web.0 remove_web.0 "containers" kind_container "default" "web"
      memory.container_json remove_web_ok refl "containers" "default/db"
