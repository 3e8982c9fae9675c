-- ===== src/Store/Typed/Resources.antt =====
-- internal/store/store.go: buckets, access keys, secrets and event rules. What a list response
-- must not show is cleared.
use selfcloud.Base.{String, Option, none, some, List, [], map, Error, Result, map_ok}
use selfcloud.Store.Types.{
  kind_bucket, kind_access_key, kind_secret, kind_event_rule, Bucket, AccessKey, Secret, EventRule,
  WebhookAction,
}
use selfcloud.Store.Deps.{Deps, bucket_scoped, access_key_scoped, secret_scoped, event_rule_scoped}
use selfcloud.Store.Core.{Store, key_for, get}
use selfcloud.Store.Scoped.{Mint, Written, put_scoped, delete_scoped}
use selfcloud.Store.Typed.Listing.{project_prefix, list_values}

unfoldable pub redact_access_key : AccessKey → AccessKey
redact_access_key a = record a { secret_access_key = "" }

unfoldable pub redact_secret : Secret → Secret
redact_secret sec = record sec { nonce = []; ciphertext = [] }

unfoldable pub redact_webhook : Option WebhookAction → Option WebhookAction
redact_webhook none = none
redact_webhook (some w) = some (record w { secret = "" })

unfoldable pub redact_event_rule : EventRule → EventRule
unfolding redact_webhook
redact_event_rule er = record er {
  action = record (er.action) { webhook = redact_webhook er.action.webhook };
}

module _ {d : Deps} where
  unfoldable pub put_bucket : Store d → Mint → Bucket → Written d Bucket
  put_bucket s = put_scoped s bucket_scoped d.bucket_json "buckets" kind_bucket

  unfoldable pub get_bucket : Store d → String → String → Result Bucket
  get_bucket s project name = get s d.bucket_json "buckets" (key_for project name)

  unfoldable pub list_buckets : Store d → String → Result (List Bucket)
  unfolding list_values project_prefix
  list_buckets s project = list_values s d.bucket_json "buckets" (project_prefix project)

  unfoldable pub delete_bucket : Store d → String → String → Store d × Option Error
  delete_bucket s = delete_scoped s "buckets" kind_bucket

  unfoldable pub put_access_key : Store d → Mint → AccessKey → Written d AccessKey
  put_access_key s = put_scoped s access_key_scoped d.access_key_json "accesskeys" kind_access_key

  unfoldable pub get_access_key : Store d → String → String → Result AccessKey
  get_access_key s project name = get s d.access_key_json "accesskeys" (key_for project name)

  unfoldable pub list_access_keys : Store d → String → Result (List AccessKey)
  unfolding list_values project_prefix redact_access_key
  list_access_keys s project =
      map_ok (map redact_access_key)
        (list_values s d.access_key_json "accesskeys" (project_prefix project))

  unfoldable pub delete_access_key : Store d → String → String → Store d × Option Error
  delete_access_key s = delete_scoped s "accesskeys" kind_access_key

  unfoldable pub put_secret : Store d → Mint → Secret → Written d Secret
  put_secret s = put_scoped s secret_scoped d.secret_json "secrets" kind_secret

  unfoldable pub get_secret : Store d → String → String → Result Secret
  get_secret s project name = get s d.secret_json "secrets" (key_for project name)

  unfoldable pub list_secrets : Store d → String → Result (List Secret)
  unfolding list_values project_prefix redact_secret
  list_secrets s project =
      map_ok (map redact_secret) (list_values s d.secret_json "secrets" (project_prefix project))

  unfoldable pub delete_secret : Store d → String → String → Store d × Option Error
  delete_secret s = delete_scoped s "secrets" kind_secret

  unfoldable pub put_event_rule : Store d → Mint → EventRule → Written d EventRule
  put_event_rule s = put_scoped s event_rule_scoped d.event_rule_json "eventrules" kind_event_rule

  unfoldable pub get_event_rule : Store d → String → String → Result EventRule
  get_event_rule s project name = get s d.event_rule_json "eventrules" (key_for project name)

  unfoldable pub list_event_rules : Store d → String → Result (List EventRule)
  unfolding list_values project_prefix redact_event_rule
  list_event_rules s project =
      map_ok (map redact_event_rule)
        (list_values s d.event_rule_json "eventrules" (project_prefix project))

  unfoldable pub list_all_event_rules : Store d → Result (List EventRule)
  unfolding list_values
  list_all_event_rules s = list_values s d.event_rule_json "eventrules" ""

  unfoldable pub delete_event_rule : Store d → String → String → Store d × Option Error
  delete_event_rule s = delete_scoped s "eventrules" kind_event_rule
