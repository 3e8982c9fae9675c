-- ===== src/Api/Readiness.antt =====
-- internal/api/readiness.go and `handleReady`. Components are an association list; `Snapshot` sorts
-- their names, which here is left open.
use selfcloud.Base.{
  String, Bool, true, false, not, ◌&&◌, Option, none, some, List, [], lookup, insert, any_of,
  if◌then◌else◌,
}
use selfcloud.Store.Types.{Time}
use selfcloud.Api.Reply.{Reply, json}

pub record ReadyState : Type 0 where
  pub required : Bool
  pub ready : Bool
  pub note : String  -- message
  pub updated : Time

abbrev pub Readiness : Type 0
Readiness = List (String × ReadyState)

unfoldable pub require_found : Readiness → String → Time → Option ReadyState → Readiness
require_found r name now (some st) = r
require_found r name now none =
    insert name (record { required = true; ready = false; note = ""; updated = now }) r

-- `Require`
unfoldable pub require : Readiness → String → Time → Readiness
unfolding require_found
require r name now = require_found r name now (lookup name r)

unfoldable pub is_required : Option ReadyState → Bool
is_required none = true
is_required (some st) = st.required

-- `Mark`
unfoldable pub mark_ready : Readiness → String → Bool → String → Time → Readiness
unfolding is_required
mark_ready r name ready note now =
    insert name
      (record { required = is_required (lookup name r); ready = ready; note = note; updated = now })
      r

unfoldable pub unfinished : String × ReadyState → Bool
unfinished (name, st) = st.required && not st.ready

-- the answer of `Snapshot` for the whole
unfoldable pub overall : Readiness → Bool
unfolding unfinished
overall r = not (any_of unfinished r)

-- `handleReady`
unfoldable pub handle_ready : Option Readiness → Reply Readiness
unfolding overall
handle_ready none = json 200 []
handle_ready (some r) = json (if overall r then 200 else 503) r
