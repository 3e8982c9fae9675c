-- ===== src/Examples/Replicating.antt =====
-- The theorems about replication at a leader of two servers.
use selfcloud.Base.{◌≡◌, refl, true, none, some, [], ◌∷◌, ok}
use selfcloud.Store.Types.{kind_container}
use selfcloud.Store.Deps.{container_scoped}
use selfcloud.Store.Scoped.{put_scoped, delete_scoped}
use selfcloud.Store.Typed.{
  put_container, put_function, put_bucket, put_access_key, put_secret, put_event_rule,
}
use selfcloud.Store.Replicated.{
  RaftView, apply_typed_put, apply_typed_delete, replicated_put_container, replicated_put_function,
  replicated_put_bucket, replicated_put_access_key, replicated_put_secret,
  replicated_put_event_rule,
}
use selfcloud.Store.Replication.{Leads, apply_typed_put-eq-put_scoped}
use selfcloud.Store.ReplicatedOps.{
  container-Decodes, replicated_puts-eq-local, apply_typed_delete-eq-delete_scoped,
}
use selfcloud.Examples.Memory.{memory}
use selfcloud.Examples.Values.{hello, photos, reader, password, on_crash}
use selfcloud.Examples.Stores.{web, opened, first_mint, put_web}

abbrev leading : RaftView
leading = record { servers = ok ("n1" ∷ "n2" ∷ []); leader = true; commit_error = none }

leading-Leads : Leads memory leading
leading-Leads = record { leads = refl; commits = refl; encodes = λ op. (_, refl) }

apply_typed_put-eq-put_scoped_example :
    apply_typed_put opened
      (some leading)
      container_scoped
      memory.container_json
      "containers"
      kind_container
      first_mint
      web
    ≡ put_scoped opened container_scoped memory.container_json "containers" kind_container
        first_mint web
apply_typed_put-eq-put_scoped_example =
    apply_typed_put-eq-put_scoped container_scoped memory.container_json opened leading "containers"
      kind_container leading-Leads (container-Decodes memory) first_mint web

replicated_puts-eq-local_example :
    (replicated_put_container opened (some leading) first_mint web
      ≡ put_container opened first_mint web)
    × (replicated_put_function opened (some leading) first_mint hello
        ≡ put_function opened first_mint hello)
    × (replicated_put_bucket opened (some leading) first_mint photos
        ≡ put_bucket opened first_mint photos)
    × (replicated_put_access_key opened (some leading) first_mint reader
        ≡ put_access_key opened first_mint reader)
    × (replicated_put_secret opened (some leading) first_mint password
        ≡ put_secret opened first_mint password)
    × (replicated_put_event_rule opened (some leading) first_mint on_crash
        ≡ put_event_rule opened first_mint on_crash)
replicated_puts-eq-local_example =
    replicated_puts-eq-local opened leading leading-Leads first_mint web hello photos reader
      password on_crash

apply_typed_delete-eq-delete_scoped_example :
    apply_typed_delete put_web.0 (some leading) "containers" kind_container "default" "web"
    ≡ delete_scoped put_web.0 "containers" kind_container "default" "web"
apply_typed_delete-eq-delete_scoped_example =
    apply_typed_delete-eq-delete_scoped put_web.0 leading leading-Leads "containers" kind_container
      "default" "web" refl
