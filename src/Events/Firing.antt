-- ===== src/Events/Firing.antt =====
-- Which actions `Handle` of internal/events/dispatcher.go runs.
use mathlib.Core.List.{append_assoc, append-nil}
use selfcloud.Base.{
  true, ◌↔◌, ◌≡◌, refl, sym, ap, ◌∙◌, List, [], ◌∷◌, ◌++◌, keep, Result, ok, err, str_eq,
  Bool-cases, inl, inr, if◌then◌else◌,
}
use selfcloud.Store.Types.{Time, EventRule, EventRecord, Event}
use selfcloud.Store.Deps.{Deps, event_rule_scoped}
use selfcloud.Store.Core.{Store}
use selfcloud.Store.Scoped.{Mint, default_project, written}
use selfcloud.Store.RoundTrip.{minted, put_scoped_lem}
use selfcloud.Store.Typed.{put_event_rule, list_all_event_rules}
use selfcloud.Events.Listening.{Listens, fires_iff}
use selfcloud.Events.Rules.{
  Matchers, Launched, run_actions, fires, counted, fire, fire_all, handle_event,
}

-- the rule that the caller of `PutEventRule` holds afterwards, whether or not it was written
abbrev pub held : Mint → EventRule → EventRule
held mt rule =
    let m = default_project "default" rule.meta in
    if str_eq m.name "" then record rule { meta = m } else minted event_rule_scoped mt rule

abbrev pub actions_of : Time → (EventRule → Mint) → EventRecord → List EventRule → List Launched
actions_of now mint ev [] = []
actions_of now mint ev (rule ∷ rules) =
    run_actions (held (mint rule) (counted now rule)) ev ++ actions_of now mint ev rules

module _ {d : Deps} where
  written-value :
      {A : Type 0} (s : Store d) (v : A) (ev : Event) (r : Result (Store d))
      → (written s v ev r).1 ≡ v
  unfolding written
  written-value s v ev (ok t) = refl
  written-value s v ev (err e) = refl

  put_event_rule-held :
      (s : Store d) (mt : Mint) (rule : EventRule) → (put_event_rule s mt rule).1 ≡ held mt rule
  unfolding put_event_rule
  put_event_rule-held s mt rule =
      rw (put_scoped_lem event_rule_scoped d.event_rule_json)
        (elim (Bool-cases (str_eq (default_project "default" rule.meta).name "")) [
          | inl h ↦ rw h refl
          | inr h ↦ rw h (written-value s _ _ _)
        ])

  fire-launched :
      (now : Time) (mint : EventRule → Mint) (ev : EventRecord) (rule : EventRule) (s : Store d)
      (launched : List Launched)
      → (fire now mint ev rule (s, launched)).1
        ≡ launched ++ run_actions (held (mint rule) (counted now rule)) ev
  unfolding fire
  fire-launched now mint ev rule s launched =
      ap (λ r. launched ++ run_actions r ev) (put_event_rule-held s (mint rule) (counted now rule))

  fire_all-launched :
      (m : Matchers) (now : Time) (mint : EventRule → Mint) (ev : EventRecord)
      (rules : List EventRule) (s : Store d) (launched : List Launched)
      → (fire_all m now mint ev rules (s, launched)).1
        ≡ launched ++ actions_of now mint ev (keep (fires m ev) rules)
  unfolding fire_all
  fire_all-launched m now mint ev [] s launched = sym (append-nil launched)
  fire_all-launched m now mint ev (rule ∷ rules) s launched = elim (Bool-cases (fires m ev rule)) [
    | inl h ↦
        let w = fire now mint ev rule (s, launched) in
        rw h (
          fire_all-launched m now mint ev rules w.0 w.1
          ∙ rw (fire-launched now mint ev rule s launched, append_assoc) refl)
    | inr h ↦ rw h (fire_all-launched m now mint ev rules s launched)
  ]

  -- When the rules can be listed, an event runs the actions of exactly the rules that listen to
  -- it, in the order of the rules, each with its counters advanced, whether or not the counters
  -- could be persisted. The filter of a rule makes no difference.
  pub handle_event-launched :
      (m : Matchers) (now : Time) (mint : EventRule → Mint) (ev : EventRecord) (s : Store d)
      (rules : List EventRule)
      → list_all_event_rules s ≡ ok rules
      → ((handle_event m now mint ev s).1 ≡ actions_of now mint ev (keep (fires m ev) rules))
        × ((rule : EventRule) → (fires m ev rule ≡ true) ↔ Listens m ev rule)
  unfolding handle_event
  handle_event-launched m now mint ev s rules listed =
      (rw (listed, handle_event) (fire_all-launched m now mint ev rules s []), fires_iff m ev)
