-- ===== src/Examples/Logging.antt =====
-- The theorems about the event log of internal/store/store.go at a log of two events.
use selfcloud.Base.{List, Result, ok, err, ◌≡◌, refl, none, [], Option, Error}
use selfcloud.Store.Types.{Time, EventRecord}
use selfcloud.Store.Core.{Store}
use selfcloud.Store.Typed.{append_event, trim_events}
use selfcloud.Examples.Memory.{memory}
use selfcloud.Examples.Stores.{opened, first_mint}

abbrev happened : Time → EventRecord
happened at = record {
  uid = "";
  event_type = "container.start";
  project = "prod";
  subject = "web";
  at = at;
  fields = [];
  body = [];
}

abbrev once : Store memory × EventRecord × Option Error
once = append_event opened (λ t. "1") first_mint (happened 1)

once_ok : once ≡ (once.0, once.1, none)
unfolding append_event selfcloud.Store.Core.put
once_ok = refl

abbrev twice : Store memory
twice = (append_event once.0 (λ t. "2") first_mint (happened 2)).0

abbrev trim : Store memory × Option Error
trim = trim_events twice "prod" 1

abbrev listed_raws : Result (List memory.Raw) → List memory.Raw
listed_raws (ok raws) = raws
listed_raws (err e) = []
