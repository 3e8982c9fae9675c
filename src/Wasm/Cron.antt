-- ===== src/Wasm/Cron.antt =====
-- internal/runtime/wasm/cron.go: the cron entries of functions. The cron library numbers its
-- entries; a schedule that it refuses is skipped.
use selfcloud.Base.{
  ℕ, ◌+◌, String, ◌<>◌, Bool, true, false, not, Option, none, some, List, [], ◌∷◌, ◌++◌, keep,
  lookup, insert, remove, str_eq, ◌==◌, Result, ok, err, if◌then◌else◌,
}
use selfcloud.Store.Types.{
  Function, FunctionTrigger, CronTrigger, Event, EventOp, op_put, op_delete, Kind, kind_function,
  EventRecord,
}
use selfcloud.Store.Deps.{Deps}
use selfcloud.Store.Core.{Store}
use selfcloud.Store.Typed.{get_function, list_functions}

-- an entry of the cron library: its number, its schedule and the function that it captured
pub record CronEntry : Type 0 where
  pub id : ℕ
  pub schedule : String
  pub fn : Function

-- `CronScheduler`, with the entries and the next number of the library
pub record CronScheduler : Type 0 where
  pub jobs : List CronEntry
  pub next_id : ℕ
  pub entries : List (String × ℕ)

abbrev pub new_cron : CronScheduler
new_cron = record { jobs = []; next_id = 1; entries = [] }

unfoldable pub function_key : Function → String
function_key f = (f.meta.project <> "/") <> f.meta.name

-- `s.c.Remove(id)`
unfoldable pub remove_job : ℕ → List CronEntry → List CronEntry
remove_job id jobs = keep (λ e. not (e.id == id)) jobs

unfoldable pub remove_found : CronScheduler → String → Option ℕ → CronScheduler
unfolding remove_job
remove_found s key none = s
remove_found s key (some id) = record s {
  jobs = remove_job id s.jobs;
  entries = remove key s.entries;
}

-- `removeKey`
unfoldable pub remove_key : CronScheduler → String → CronScheduler
unfolding remove_found
remove_key s key = remove_found s key (lookup key s.entries)

-- `s.c.AddFunc`, where the schedule is valid, and the entry of the function
unfoldable pub add_cron : (String → Bool) → Function → String → CronScheduler → CronScheduler
unfolding function_key
add_cron valid f schedule s =
    if valid schedule
    then record s {
      jobs = s.jobs ++ record { id = s.next_id; schedule = schedule; fn = f } ∷ [];
      next_id = s.next_id + 1;
      entries = insert (function_key f) s.next_id s.entries;
    }
    else s

unfoldable pub add_trigger :
    (String → Bool) → Function → Option CronTrigger → CronScheduler → CronScheduler
unfolding add_cron
add_trigger valid f none s = s
add_trigger valid f (some c) s = if str_eq c.schedule "" then s else add_cron valid f c.schedule s

-- the loop over the triggers
unfoldable pub add_triggers :
    (String → Bool) → Function → List FunctionTrigger → CronScheduler → CronScheduler
unfolding add_trigger
add_triggers valid f [] s = s
add_triggers valid f (t ∷ ts) s = add_triggers valid f ts (add_trigger valid f t.cron s)

-- `sync`
unfoldable pub sync : (String → Bool) → Function → CronScheduler → CronScheduler
unfolding add_triggers remove_key
sync valid f s = add_triggers valid f f.triggers (remove_key s (function_key f))

-- the first pass of `Start`
unfoldable pub sync_all : (String → Bool) → List Function → CronScheduler → CronScheduler
unfolding sync
sync_all valid [] s = s
sync_all valid (f ∷ fs) s = sync_all valid fs (sync valid f s)

unfoldable pub sync_found : (String → Bool) → Result Function → CronScheduler → CronScheduler
sync_found valid (ok f) s = sync valid f s
sync_found valid (err e) s = s

unfoldable pub is_function : Kind → Bool
is_function kind_function = true
is_function _ = false

-- what a fire of an entry gives the bus
unfoldable pub cron_event : CronEntry → EventRecord
cron_event e = record {
  uid = "";
  event_type = "cron";
  project = e.fn.meta.project;
  subject = e.fn.meta.name;
  at = 0;
  fields = ("function", e.fn.meta.name) ∷ ("schedule", e.schedule) ∷ [];
  body = [];
}

unfoldable pub listed_or_none : Result (List Function) → List Function
listed_or_none (ok fs) = fs
listed_or_none (err e) = []

module _ {d : Deps} where
  unfoldable pub cron_op :
      (String → Bool) → Store d → Event → EventOp → CronScheduler → CronScheduler
  unfolding remove_key sync_found
  cron_op valid store ev op_delete s = remove_key s ((ev.project <> "/") <> ev.name)
  cron_op valid store ev op_put s = sync_found valid (get_function store ev.project ev.name) s

  -- one event in the loop of `Start`
  unfoldable pub cron_on_event : (String → Bool) → Store d → Event → CronScheduler → CronScheduler
  unfolding is_function cron_op
  cron_on_event valid store ev s = if is_function ev.kind then cron_op valid store ev ev.op s else s

  -- `Start`, before its loop
  unfoldable pub start_cron : (String → Bool) → Store d → CronScheduler → CronScheduler
  unfolding sync_all listed_or_none
  start_cron valid store s = sync_all valid (listed_or_none (list_functions store "")) s
