-- ===== src/Events/Rules.antt =====
-- internal/events/dispatcher.go: the rules that an event fires, and the actions they run. The
-- matchers of regexp and path are arguments.
use selfcloud.Base.{
  ◌+◌, ◌%◌, ◌^◌, String, Bool, true, false, not, ◌&&◌, ◌||◌, Option, none, some, List, [], ◌∷◌,
  ◌++◌, any_of, lookup, str_eq, ok, err, if◌then◌else◌,
}
use selfcloud.Store.Types.{Time, EventRule, EventRecord, WebhookAction}
use selfcloud.Store.Deps.{Deps}
use selfcloud.Store.Core.{Store}
use selfcloud.Store.Scoped.{Mint}
use selfcloud.Store.Typed.{put_event_rule, list_all_event_rules}

-- `regexp.Compile` with `MatchString`, `none` for a pattern that does not compile; `path.Match`,
-- false for a pattern that is malformed
pub record Matchers : Type 0 where
  pub regexp : String → Option (String → Bool)
  pub path : String → String → Bool

-- `ev.Data["line"]`, empty where it is missing
unfoldable pub line_of : EventRecord → String
line_of ev = elim (lookup "line" ev.fields) [ none ↦ "" | some line ↦ line ]

unfoldable pub type_matches : EventRule → EventRecord → Bool
type_matches rule ev = elim rule.matching.types [
  | [] ↦ true
  | t ∷ ts ↦ any_of (λ x. str_eq x ev.event_type || str_eq x "*") (t ∷ ts)
]

unfoldable pub subject_matches : Matchers → EventRule → EventRecord → Bool
unfolding line_of
subject_matches m rule ev =
    if str_eq rule.matching.subject ""
    then true
    else if str_eq ev.event_type "container.log"
    then elim (m.regexp rule.matching.subject) [ none ↦ false | some re ↦ re (line_of ev) ]
    else if str_eq ev.subject rule.matching.subject
    then true
    else m.path rule.matching.subject ev.subject

unfoldable pub rule_matches : Matchers → EventRule → EventRecord → Bool
unfolding type_matches subject_matches
rule_matches m rule ev = if type_matches rule ev then subject_matches m rule ev else false

-- the goroutines that are started: `deliverWebhook`, `invokeFunction` and `containerAction`
pub data Launched : Type 0 where
  delivering : EventRule → WebhookAction → EventRecord → Launched
  invoking : String → String → String → EventRecord → Launched
  controlling : String → String → String → Launched

abbrev or_else : String → String → String
or_else text fallback = if str_eq text "" then fallback else text

unfoldable pub webhook_actions : EventRule → EventRecord → List Launched
webhook_actions rule ev = elim rule.action.webhook [
  | none ↦ []
  | some cfg ↦ delivering rule cfg ev ∷ []
]

unfoldable pub invoke_actions : EventRule → EventRecord → List Launched
invoke_actions rule ev = elim rule.action.invoke [
  | none ↦ []
  | some cfg ↦
      invoking (or_else cfg.project rule.meta.project) cfg.function (or_else cfg.path "/") ev ∷ []
]

unfoldable pub container_actions : EventRule → List Launched
container_actions rule = elim rule.action.container [
  | none ↦ []
  | some cfg ↦ controlling (or_else cfg.project rule.meta.project) cfg.container cfg.action ∷ []
]

unfoldable pub run_actions : EventRule → EventRecord → List Launched
unfolding webhook_actions invoke_actions container_actions
run_actions rule ev = webhook_actions rule ev ++ invoke_actions rule ev ++ container_actions rule

-- the tests of the loop of `Handle`
unfoldable pub fires : Matchers → EventRecord → EventRule → Bool
unfolding rule_matches
fires m ev rule =
    if rule.enabled
    then if not (str_eq rule.meta.project "")
        && not (str_eq ev.project "")
        && not (str_eq rule.meta.project ev.project)
      then false
      else rule_matches m rule ev
    else false

-- the counters of a rule that fires; the count is an int64
unfoldable pub counted : Time → EventRule → EventRule
counted now rule = record rule { last_fired_at = now; fire_count = (rule.fire_count + 1) % 2 ^ 64 }

module _ {d : Deps} where
  -- one rule that fires: the counters are persisted, and the actions use the rule as it is then
  unfoldable pub fire :
      Time
      → (EventRule → Mint)
      → EventRecord
      → EventRule
      → Store d × List Launched
      → Store d × List Launched
  unfolding counted run_actions
  fire now mint ev rule (s, launched) =
      let w = put_event_rule s (mint rule) (counted now rule) in
      (w.0, launched ++ run_actions w.1 ev)

  -- the loop of `Handle`
  unfoldable pub fire_all :
      Matchers
      → Time
      → (EventRule → Mint)
      → EventRecord
      → List EventRule
      → Store d × List Launched
      → Store d × List Launched
  unfolding fires fire
  fire_all m now mint ev [] w = w
  fire_all m now mint ev (rule ∷ rules) w =
      if fires m ev rule
      then fire_all m now mint ev rules (fire now mint ev rule w)
      else fire_all m now mint ev rules w

  -- `Handle`
  unfoldable pub handle_event :
      Matchers → Time → (EventRule → Mint) → EventRecord → Store d → Store d × List Launched
  unfolding fire_all
  handle_event m now mint ev s = elim (list_all_event_rules s) [
    | err e ↦ (s, [])
    | ok rules ↦ fire_all m now mint ev rules (s, [])
  ]
