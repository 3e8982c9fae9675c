-- ===== src/Events/Listening.antt =====
-- Which rules of internal/events/dispatcher.go listen to an event.
use selfcloud.Base.{
  String, Bool, true, ◌||◌, ◌≡◌, ◌≢◌, ◌⊎◌, ◌↔◌, inl, inr, refl, Any, any_of, some, Option-cases,
  Bool-cases, List, [], ◌∷◌, arith, str_eq, str_eq_iff,
}
use selfcloud.Store.Types.{EventRule, EventRecord}
use selfcloud.Events.Rules.{Matchers, line_of, type_matches, subject_matches, rule_matches, fires}

-- A rule listens to an event: it is enabled, the two are not of different projects, one of its
-- types is the event's or "*" where it has types, and its subject, where it has one, is a regular
-- expression that the line of a log event matches, or the subject or a path pattern of another
-- event. The filter of the rule is not looked at.
abbrev pub Listens : Matchers → EventRecord → EventRule → Type 0
Listens m ev rule =
    (rule.enabled ≡ true)
    × ((rule.meta.project ≡ "") ⊎ (ev.project ≡ "") ⊎ (rule.meta.project ≡ ev.project))
    × ((rule.matching.types ≡ []) ⊎ Any (λ t. (t ≡ ev.event_type) ⊎ (t ≡ "*")) rule.matching.types)
    × ((rule.matching.subject ≡ "")
        ⊎ ((ev.event_type ≡ "container.log")
            × ((re : String → Bool) × (m.regexp rule.matching.subject ≡ some re)
                × (re (line_of ev) ≡ true)))
        ⊎ ((ev.event_type ≢ "container.log")
            × ((ev.subject ≡ rule.matching.subject)
                ⊎ (m.path rule.matching.subject ev.subject ≡ true))))

type_listed :
    (type : String) (ts : List String)
    → any_of (λ t. str_eq t type || str_eq t "*") ts ≡ true
    → Any (λ t. (t ≡ type) ⊎ (t ≡ "*")) ts
type_listed type [] h = absurd (ground arith)
type_listed type (t ∷ ts) h = elim (Bool-cases (str_eq t type)) [
  | inl x ↦ inl (inl ((str_eq_iff t type).0 x))
  | inr x ↦ elim (Bool-cases (str_eq t "*")) [
    | inl y ↦ inl (inr ((str_eq_iff t "*").0 y))
    | inr y ↦ inr (type_listed type ts (rw (x, y) at h))
  ]
]

listed_type :
    (type : String) (ts : List String)
    → Any (λ t. (t ≡ type) ⊎ (t ≡ "*")) ts
    → any_of (λ t. str_eq t type || str_eq t "*") ts ≡ true
listed_type type [] h = absurd h
listed_type type (t ∷ ts) (inl (inl e)) = ground (arith, str_eq_iff t type, e)
listed_type type (t ∷ ts) (inl (inr e)) = ground (arith, str_eq_iff t "*", e)
listed_type type (t ∷ ts) (inr more) = ground (arith, listed_type type ts more)

types_iff :
    (rule : EventRule) (ev : EventRecord) (types : List String)
    → rule.matching.types ≡ types
    → (type_matches rule ev ≡ true)
      ↔ ((types ≡ []) ⊎ Any (λ t. (t ≡ ev.event_type) ⊎ (t ≡ "*")) types)
unfolding type_matches
types_iff rule ev [] e = rw e (λ h. inl refl, λ h. refl)
types_iff rule ev (t ∷ ts) e = rw e (
  λ h. inr (type_listed ev.event_type (t ∷ ts) h),
  λ h. elim h [ inl x ↦ absurd (ground arith) | inr x ↦ listed_type ev.event_type (t ∷ ts) x ],
)

abbrev SubjectHeard : Matchers → EventRecord → String → Type 0
SubjectHeard m ev subject =
    (subject ≡ "")
    ⊎ ((ev.event_type ≡ "container.log")
        × ((re : String → Bool) × (m.regexp subject ≡ some re) × (re (line_of ev) ≡ true)))
    ⊎ ((ev.event_type ≢ "container.log")
        × ((ev.subject ≡ subject) ⊎ (m.path subject ev.subject ≡ true)))

subject_heard :
    (m : Matchers) (rule : EventRule) (ev : EventRecord)
    → subject_matches m rule ev ≡ true
    → SubjectHeard m ev rule.matching.subject
unfolding subject_matches
subject_heard m rule ev h = elim (Bool-cases (str_eq rule.matching.subject "")) [
  | inl x ↦ inl ((str_eq_iff rule.matching.subject "").0 x)
  | inr x ↦ elim (Bool-cases (str_eq ev.event_type "container.log")) [
    | inl y ↦ elim (Option-cases (m.regexp rule.matching.subject)) [
      | inl z ↦ absurd (ground (arith, rw (x, y, z) at h))
      | inr (re, z) ↦
          inr (inl ((str_eq_iff ev.event_type "container.log").0 y, (re, z, rw (x, y, z) at h)))
    ]
    | inr y ↦
        let other : ev.event_type ≢ "container.log" =
          λ e. absurd (ground (arith, y, str_eq_iff ev.event_type "container.log", e)) in
        elim (Bool-cases (str_eq ev.subject rule.matching.subject)) [
          | inl z ↦ inr (inr (other, inl ((str_eq_iff ev.subject rule.matching.subject).0 z)))
          | inr z ↦ inr (inr (other, inr (rw (x, y, z) at h)))
        ]
  ]
]

heard_subject :
    (m : Matchers) (rule : EventRule) (ev : EventRecord)
    → SubjectHeard m ev rule.matching.subject
    → subject_matches m rule ev ≡ true
unfolding subject_matches
heard_subject m rule ev (inl e) = rw ((str_eq_iff rule.matching.subject "").1 e) refl
heard_subject m rule ev (inr heard) = elim (Bool-cases (str_eq rule.matching.subject "")) [
  | inl x ↦ rw x refl
  | inr x ↦ elim heard [
    | inl (log, (re, found, matched)) ↦
        rw (x, (str_eq_iff ev.event_type "container.log").1 log, found) matched
    | inr (other, how) ↦ elim (Bool-cases (str_eq ev.event_type "container.log")) [
      | inl y ↦ absurd (other ((str_eq_iff ev.event_type "container.log").0 y))
      | inr y ↦ elim (Bool-cases (str_eq ev.subject rule.matching.subject)) [
        | inl z ↦ rw (x, y, z) refl
        | inr z ↦ elim how [
          | inl e ↦ absurd (ground (arith, z, str_eq_iff ev.subject rule.matching.subject, e))
          | inr e ↦ rw (x, y, z) e
        ]
      ]
    ]
  ]
]

-- the tests of the loop are those of a rule that listens
pub fires_iff :
    (m : Matchers) (ev : EventRecord) (rule : EventRule)
    → (fires m ev rule ≡ true) ↔ Listens m ev rule
unfolding fires rule_matches
fires_iff m ev rule = (
  λ h.
      let all : (rule.enabled ≡ true)
          × ((rule.meta.project ≡ "") ⊎ (ev.project ≡ "") ⊎ (rule.meta.project ≡ ev.project))
          × (type_matches rule ev ≡ true)
          × (subject_matches m rule ev ≡ true) =
        ground (
          arith,
          h,
          str_eq_iff rule.meta.project "",
          str_eq_iff ev.project "",
          str_eq_iff rule.meta.project ev.project,
        ) in
      let (enabled, projects, types, subject) = all in
      (
        enabled,
        projects,
        (types_iff rule ev rule.matching.types refl).0 types,
        subject_heard m rule ev subject,
      ),
  λ (enabled, projects, types, subject).
      let typed = (types_iff rule ev rule.matching.types refl).1 types in
      let heard = heard_subject m rule ev subject in
      ground (
        arith,
        enabled,
        projects,
        typed,
        heard,
        str_eq_iff rule.meta.project "",
        str_eq_iff ev.project "",
        str_eq_iff rule.meta.project ev.project,
      ),
)
