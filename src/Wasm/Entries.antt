-- ===== src/Wasm/Entries.antt =====
-- The entries that the triggers of a function add in internal/runtime/wasm/cron.go.
use selfcloud.Base.{
  ℕ, ◌+◌, ◌≤◌, String, ◌≡◌, refl, sym, ◌∙◌, Bool, Option, none, some, List, [], ◌∷◌, ◌++◌, lookup,
  lookup-insert, str_eq, str_eq_refl, arith, Bool-cases, inl, inr, if◌then◌else◌,
}
use mathlib.Core.List.{append_assoc, append-nil}
use selfcloud.Store.Types.{Function, FunctionTrigger, CronTrigger}
use selfcloud.Wasm.Cron.{
  CronEntry, CronScheduler, function_key, add_cron, add_trigger, add_triggers,
}

-- the schedule that a trigger adds
unfoldable pub schedule_of : (String → Bool) → Option CronTrigger → Option String
schedule_of valid none = none
schedule_of valid (some c) =
    if str_eq c.schedule "" then none else if valid c.schedule then some c.schedule else none

unfoldable pub entry_added : ℕ → Function → Option String → (ℕ → List CronEntry) → List CronEntry
entry_added n f none rest = rest n
entry_added n f (some schedule) rest = record { id = n; schedule = schedule; fn = f } ∷ rest (n + 1)

-- the entries of the triggers of a function, numbered from `n`
unfoldable pub new_entries : (String → Bool) → Function → List FunctionTrigger → ℕ → List CronEntry
unfolding entry_added schedule_of
new_entries valid f [] n = []
new_entries valid f (t ∷ ts) n = entry_added n f (schedule_of valid t.cron) (new_entries valid f ts)

-- all but the last
unfoldable pub but_last : List CronEntry → List CronEntry
but_last [] = []
but_last (e ∷ []) = []
but_last (e ∷ g ∷ more) = e ∷ but_last (g ∷ more)

unfoldable pub last_id : Option ℕ → List CronEntry → Option ℕ
last_id o [] = o
last_id o (e ∷ es) = last_id (some e.id) es

-- the numbers go up from `n`
abbrev pub From : ℕ → List CronEntry → Type 0
From n [] = Unit
From n (e ∷ es) = (n ≤ e.id) × From (e.id + 1) es

module _ (valid : String → Bool) (f : Function) where
  add_trigger_step :
      (o : Option CronTrigger) (s : CronScheduler) (rest : ℕ → List CronEntry)
      → let s' = add_trigger valid f o s in
        (s'.jobs ++ rest s'.next_id ≡ s.jobs ++ entry_added s.next_id f (schedule_of valid o) rest)
  unfolding add_trigger add_cron schedule_of entry_added
  add_trigger_step none s rest = refl
  add_trigger_step (some c) s rest = elim (Bool-cases (str_eq c.schedule "")) [
    | inl e ↦ rw e refl
    | inr e ↦ rw e (elim (Bool-cases (valid c.schedule)) [
      | inl v ↦ rw v (
          append_assoc s.jobs (record { id = s.next_id; schedule = c.schedule; fn = f } ∷ [])
            (rest (s.next_id + 1)))
      | inr v ↦ rw v refl
    ])
  ]

  pub add_triggers-jobs :
      (ts : List FunctionTrigger) (s : CronScheduler)
      → (add_triggers valid f ts s).jobs ≡ s.jobs ++ new_entries valid f ts s.next_id
  unfolding add_triggers new_entries
  add_triggers-jobs [] s = sym (append-nil s.jobs)
  add_triggers-jobs (t ∷ ts) s =
      add_triggers-jobs ts (add_trigger valid f t.cron s)
      ∙ add_trigger_step t.cron s (new_entries valid f ts)

  add_trigger-lookup :
      (o : Option CronTrigger) (s : CronScheduler) (rest : ℕ → List CronEntry)
      → let s' = add_trigger valid f o s in
        last_id (lookup (function_key f) s'.entries) (rest s'.next_id)
        ≡ last_id
            (lookup (function_key f) s.entries)
            (entry_added s.next_id f (schedule_of valid o) rest)
  unfolding add_trigger add_cron schedule_of entry_added last_id
  add_trigger-lookup none s rest = refl
  add_trigger-lookup (some c) s rest = elim (Bool-cases (str_eq c.schedule "")) [
    | inl e ↦ rw e refl
    | inr e ↦ rw e (elim (Bool-cases (valid c.schedule)) [
      | inl v ↦
          rw
            (
              v,
              lookup-insert (function_key f) (function_key f) s.next_id s.entries,
              str_eq_refl (function_key f),
            )
            refl
      | inr v ↦ rw v refl
    ])
  ]

  pub add_triggers-lookup :
      (ts : List FunctionTrigger) (s : CronScheduler)
      → lookup (function_key f) (add_triggers valid f ts s).entries
        ≡ last_id (lookup (function_key f) s.entries) (new_entries valid f ts s.next_id)
  unfolding add_triggers new_entries
  add_triggers-lookup [] s = unfold last_id in refl
  add_triggers-lookup (t ∷ ts) s =
      add_triggers-lookup ts (add_trigger valid f t.cron s)
      ∙ add_trigger-lookup t.cron s (new_entries valid f ts)

  entry_added-From :
      (o : Option String) (n : ℕ) (rest : ℕ → List CronEntry)
      → ((m : ℕ) → From m (rest m))
      → From n (entry_added n f o rest)
  unfolding entry_added
  entry_added-From none n rest h = h n
  entry_added-From (some schedule) n rest h = (omega arith, h (n + 1))

  pub new_entries-From : (ts : List FunctionTrigger) (n : ℕ) → From n (new_entries valid f ts n)
  unfolding new_entries
  new_entries-From [] n = tt
  new_entries-From (t ∷ ts) n =
      entry_added-From (schedule_of valid t.cron) n (new_entries valid f ts) (new_entries-From ts)

-- the last of the numbers that go up
