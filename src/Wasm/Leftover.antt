-- ===== src/Wasm/Leftover.antt =====
-- The cron entries that internal/runtime/wasm/cron.go leaves behind.
use selfcloud.Base.{
  ℕ, ◌+◌, ◌<◌, ◌≤◌, String, ◌≡◌, refl, ap, ◌∙◌, Bool, false, Option, none, some, List, [], ◌∷◌,
  ◌++◌, lookup, lookup-remove, str_eq_refl, ◌==◌, All, arith, Bool-cases, inl, inr,
}
use selfcloud.Store.Types.{Function}
use selfcloud.Wasm.Cron.{
  CronEntry, CronScheduler, function_key, remove_job, remove_found, remove_key, add_triggers, sync,
}
use selfcloud.Wasm.Entries.{
  new_entries, but_last, last_id, From, add_triggers-jobs, add_triggers-lookup, new_entries-From,
}

last_number : ℕ → List CronEntry → ℕ
last_number n [] = n
last_number n (e ∷ es) = last_number e.id es

last_id-number : (n : ℕ) (es : List CronEntry) → last_id (some n) es ≡ some (last_number n es)
unfolding last_id last_number
last_id-number n [] = refl
last_id-number n (e ∷ es) = last_id-number e.id es

last_number-le : (n : ℕ) (es : List CronEntry) → From (n + 1) es → n ≤ last_number n es
unfolding last_number
last_number-le n [] h = omega arith
last_number-le n (e ∷ es) h = omega (arith, last_number-le e.id es h.1, h.0)

keep_others :
    (m : ℕ) (jobs : List CronEntry)
    → All (λ e. e.id < m) jobs
    → (id : ℕ) → m ≤ id
    → remove_job id jobs ≡ jobs
unfolding remove_job
keep_others m [] a id h = refl
keep_others m (e ∷ jobs) a id h =
    let other : (e.id == id) ≡ false = ground arith in
    rw other (ap (◌∷◌ e) (keep_others m jobs a.1 id h))

remove_last :
    (e : CronEntry) (es : List CronEntry)
    → From (e.id + 1) es
    → remove_job (last_number e.id es) (e ∷ es) ≡ but_last (e ∷ es)
unfolding remove_job last_number but_last
remove_last e [] h = ground arith
remove_last e (g ∷ es) h =
    let other : (e.id == last_number g.id es) ≡ false =
      ground (arith, last_number-le g.id es h.1, h.0) in
    rw other (ap (◌∷◌ e) (remove_last g es h.1))

remove_job-append :
    (id : ℕ) (xs ys : List CronEntry)
    → remove_job id (xs ++ ys) ≡ remove_job id xs ++ remove_job id ys
unfolding remove_job
remove_job-append id [] ys = refl
remove_job-append id (x ∷ xs) ys = elim (Bool-cases (x.id == id)) [
  | inl e ↦ rw e (remove_job-append id xs ys)
  | inr e ↦ rw e (ap (◌∷◌ x) (remove_job-append id xs ys))
]

-- the numbers of the library's entries are below the next one
abbrev pub IsFresh : CronScheduler → Type 0
IsFresh s = All (λ e. e.id < s.next_id) s.jobs

keep-below :
    (m id : ℕ) (jobs : List CronEntry)
    → All (λ e. e.id < m) jobs
    → All (λ e. e.id < m) (remove_job id jobs)
unfolding remove_job
keep-below m id [] a = tt
keep-below m id (e ∷ jobs) a = elim (Bool-cases (e.id == id)) [
  | inl hit ↦ rw hit (keep-below m id jobs a.1)
  | inr miss ↦ rw miss (a.0, keep-below m id jobs a.1)
]

remove_found-lookup :
    (s : CronScheduler) (key : String) (o : Option ℕ)
    → lookup key s.entries ≡ o
    → IsFresh s
    → (lookup key (remove_found s key o).entries ≡ none)
      × ((remove_found s key o).next_id ≡ s.next_id)
      × IsFresh (remove_found s key o)
unfolding remove_found
remove_found-lookup s key none h v = (h, refl, v)
remove_found-lookup s key (some id) h v = (
  lookup-remove key key s.entries ∙ rw (str_eq_refl key) refl,
  refl,
  keep-below s.next_id id s.jobs v,
)

remove_found-jobs :
    (s : CronScheduler) (key : String) (jobs es : List CronEntry) (n : ℕ)
    → lookup key s.entries ≡ last_id none es
    → s.jobs ≡ jobs ++ es
    → From n es
    → All (λ e. e.id < n) jobs
    → (remove_found s key (last_id none es)).jobs ≡ jobs ++ but_last es
unfolding remove_found last_id
remove_found-jobs s key jobs [] n h e f a = e ∙ (unfold but_last in refl)
remove_found-jobs s key jobs (x ∷ es) n h e f a = rw (last_id-number x.id es) (
    ap (remove_job (last_number x.id es)) e
    ∙ remove_job-append (last_number x.id es) jobs (x ∷ es)
    ∙ (rw
        (
          keep_others n jobs a (last_number x.id es)
              (omega (arith, f.0, last_number-le x.id es f.1)),
          remove_last x es f.1,
        )
        refl))

-- After a function was synced and then removed, all of its entries but the last are still with the
-- cron library, beside those that were there before: only a function with one valid schedule at
-- most leaves nothing behind.
pub remove_key-sync :
    (valid : String → Bool) (f : Function) (s : CronScheduler)
    → IsFresh s
    → (remove_key (sync valid f s) (function_key f)).jobs
      ≡ (remove_key s (function_key f)).jobs ++ but_last (new_entries valid f f.triggers s.next_id)
unfolding remove_key sync
remove_key-sync valid f s v =
    let key = function_key f in
    let s0 = remove_found s key (lookup key s.entries) in
    let (gone, next, fresh) = remove_found-lookup s key (lookup key s.entries) refl v in
    let found : lookup key (add_triggers valid f f.triggers s0).entries
        ≡ last_id none (new_entries valid f f.triggers s0.next_id) =
      add_triggers-lookup valid f f.triggers s0
      ∙ ap (λ o. last_id o (new_entries valid f f.triggers s0.next_id)) gone in
    ap (λ o. (remove_found (add_triggers valid f f.triggers s0) key o).jobs) found
    ∙ remove_found-jobs (add_triggers valid f f.triggers s0) key s0.jobs
        (new_entries valid f f.triggers s0.next_id) s0.next_id found
        (add_triggers-jobs valid f f.triggers s0) (new_entries-From valid f f.triggers s0.next_id)
        fresh
    ∙ ap (λ n. s0.jobs ++ but_last (new_entries valid f f.triggers n)) next
