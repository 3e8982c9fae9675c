-- ===== src/Store/Typed/Deliveries.antt =====
-- internal/store/store.go: webhook deliveries.
use selfcloud.Base.{String, ◌<>◌, ◌||◌, List, keep, take, reverse, str_eq, Result, map_ok}
use selfcloud.Store.Types.{kind_event_rule, WebhookDelivery}
use selfcloud.Store.Deps.{Deps, delivery_scoped}
use selfcloud.Store.Core.{Store}
use selfcloud.Store.Scoped.{Mint, Written, put_scoped}
use selfcloud.Store.Typed.Listing.{list_values}

module _ {d : Deps} where
  unfoldable pub put_delivery : Store d → Mint → WebhookDelivery → Written d WebhookDelivery
  put_delivery s = put_scoped s delivery_scoped d.delivery_json "deliveries" kind_event_rule

  unfoldable pub list_deliveries : Store d → String → String → Result (List WebhookDelivery)
  unfolding list_values
  list_deliveries s project rule =
      map_ok (λ ds. take 200 (reverse (keep (λ w. str_eq rule "" || str_eq w.rule rule) ds)))
        (list_values s d.delivery_json "deliveries" (project <> "/"))
