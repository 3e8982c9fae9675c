-- ===== src/Logscan/Scanner.antt =====
-- internal/events/logscan/logscan.go: which containers are followed, and what their lines emit. A
-- compiled pattern is a function from a line to its named groups; `compile` is `regexp.Compile`.
use selfcloud.Base.{
  String, ◌<>◌, Bool, ◌&&◌, ◌||◌, not, Option, none, some, List, [], ◌∷◌, ◌++◌, keep, any_of,
  str_eq, Result, ok, err, if◌then◌else◌,
}
use selfcloud.Store.Types.{StringMap, Container, phase_eq, phase_running, EventRule, EventRecord}
use selfcloud.Store.Deps.{Deps}
use selfcloud.Store.Core.{Store}
use selfcloud.Store.Typed.{list_containers, list_event_rules}

-- The keys of the table `known`, and in their order the keys that were cancelled and the containers
-- whose followers were started. A key stays in the table when its follower's stream ends.
pub record Scanner : Type 0 where
  pub known : List String
  pub cancelled : List String
  pub followed : List Container

abbrev pub new_scanner : Scanner
new_scanner = record { known = []; cancelled = []; followed = [] }

unfoldable pub scan_key : Container → String
scan_key c = (c.meta.project <> "/") <> c.meta.name

unfoldable pub knows : List String → String → Bool
knows keys key = any_of (λ k. str_eq k key) keys

unfoldable pub is_wanted : Container → Bool
unfolding phase_eq
is_wanted c = phase_eq c.status.status.phase phase_running

unfoldable pub wants : List Container → String → Bool
unfolding is_wanted scan_key
wants cs key = any_of (λ c. is_wanted c && str_eq (scan_key c) key) cs

-- the loop over `known`
unfoldable pub stop_lost : List Container → Scanner → Scanner
unfolding wants
stop_lost cs s = record s {
  known = keep (wants cs) s.known;
  cancelled = s.cancelled ++ keep (λ k. not (wants cs k)) s.known;
}

unfoldable pub follow_new : Scanner → Container → Scanner
unfolding scan_key knows is_wanted
follow_new s c =
    if is_wanted c && not (knows s.known (scan_key c))
    then record s { known = s.known ++ scan_key c ∷ []; followed = s.followed ++ c ∷ [] }
    else s

-- the loop over `want`
unfoldable pub follow_all : List Container → Scanner → Scanner
unfolding follow_new
follow_all [] s = s
follow_all (c ∷ cs) s = follow_all cs (follow_new s c)

unfoldable pub reconcile_listed : Result (List Container) → Scanner → Scanner
unfolding stop_lost follow_all
reconcile_listed (err e) s = s
reconcile_listed (ok cs) s = follow_all cs (stop_lost cs s)

-- `shutdown`
unfoldable pub shutdown : Scanner → Scanner
shutdown s = record s { known = []; cancelled = s.cancelled ++ s.known }

-- the test of a rule in `activeRegexes`
unfoldable pub is_log_rule : EventRule → Bool
is_log_rule er =
    er.enabled
    && any_of (λ t. str_eq t "container.log" || str_eq t "*") er.matching.types
    && not (str_eq er.matching.subject "")

-- a pattern: its text, and the named groups of a line that it matches
pub record Pattern : Type 0 where
  pub text : String
  pub groups : String → Option StringMap

unfoldable pub compiled : Result Pattern → List Pattern → List Pattern
compiled (ok p) rest = p ∷ rest
compiled (err e) rest = rest

unfoldable pub patterns_of : (String → Result Pattern) → List EventRule → List Pattern
unfolding compiled is_log_rule
patterns_of compile [] = []
patterns_of compile (er ∷ rules) =
    let rest = patterns_of compile rules in
    if is_log_rule er then compiled (compile er.matching.subject) rest else rest

unfoldable pub patterns_listed : (String → Result Pattern) → Result (List EventRule) → List Pattern
unfolding patterns_of
patterns_listed compile (ok rules) = patterns_of compile rules
patterns_listed compile (err e) = []

unfoldable pub group_fields : StringMap → StringMap
group_fields [] = []
group_fields ((name, text) ∷ groups) =
    let rest = group_fields groups in if str_eq name "" then rest else ("g." <> name, text) ∷ rest

unfoldable pub log_event : Container → String → Pattern → StringMap → EventRecord
unfolding group_fields
log_event c line p groups = record {
  uid = "";
  event_type = "container.log";
  project = c.meta.project;
  subject = c.meta.name;
  at = 0;
  fields =
      ("container", c.meta.name) ∷ group_fields groups ++ ("line", line) ∷ ("pattern", p.text) ∷ [];
  body = [];
}

unfoldable pub matched : Container → String → Pattern → Option StringMap → List EventRecord
unfolding log_event
matched c line p none = []
matched c line p (some groups) = log_event c line p groups ∷ []

-- what one line of a container emits
unfoldable pub line_events : Container → String → List Pattern → List EventRecord
unfolding matched
line_events c line [] = []
line_events c line (p ∷ ps) = matched c line p (p.groups line) ++ line_events c line ps

module _ {d : Deps} where
  -- `reconcile`
  unfoldable pub reconcile : Store d → Scanner → Scanner
  unfolding reconcile_listed
  reconcile store s = reconcile_listed (list_containers store "") s

  -- `activeRegexes`
  unfoldable pub active_regexes : Store d → (String → Result Pattern) → String → List Pattern
  unfolding patterns_listed
  active_regexes store compile project = patterns_listed compile (list_event_rules store project)

  -- the loop of `follow`: the patterns are read anew for each line
  unfoldable pub follow :
      Store d → (String → Result Pattern) → Container → List String → List EventRecord
  unfolding line_events active_regexes
  follow store compile c [] = []
  follow store compile c (line ∷ lines) =
      line_events c line (active_regexes store compile c.meta.project)
      ++ follow store compile c lines
