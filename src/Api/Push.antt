-- ===== src/Api/Push.antt =====
-- Which pushes of internal/api/webhooks.go start a build.
use selfcloud.Base.{
  String, ◌≡◌, refl, Bool, true, ◌||◌, ◌⊎◌, inl, inr, Option, none, some, List, [], ◌∷◌, find_first,
  str_eq, arith, Result, ok, err, Bool-cases,
}
use selfcloud.Store.Types.{Bytes, Function, Project, EventRecord}
use selfcloud.Store.Deps.{Deps}
use selfcloud.Store.Core.{Store}
use selfcloud.Store.Typed.{list_projects, list_functions}
use selfcloud.Api.Reply.{Calling}
use selfcloud.Api.Webhooks.{
  WebhookRequest, WebhookCall, QueuedBuild, has_token, token_in, or_else_found, find_in_projects,
  find_listed, find_function_by_webhook_token, authentic, webhook_secret_of, webhook_found,
  webhook_read, handle_git_webhook,
}

find_first-holds :
    {A : Type 0} (p : A → Bool) (xs : List A) (x : A) → find_first p xs ≡ some x → p x ≡ true
find_first-holds p [] x h = absurd (ground arith)
find_first-holds p (y ∷ ys) x h = elim (Bool-cases (p y)) [
  | inl e ↦ let same : y ≡ x = ground arith in rw (← same) e
  | inr e ↦ find_first-holds p ys x (rw e at h)
]

token_in-holds :
    (token : String) (r : Result (List Function)) (f : Function)
    → token_in token r ≡ some f
    → has_token token f ≡ true
unfolding token_in
token_in-holds token (ok fns) f h = find_first-holds (has_token token) fns f h
token_in-holds token (err e) f h = absurd (ground arith)

module _ {d : Deps} (s : Store d) (token : String) (f : Function) where
  or_else_found-holds :
      (o : Option Function) (r : Result Function)
      → (o ≡ some f → has_token token f ≡ true)
      → (r ≡ ok f → has_token token f ≡ true)
      → or_else_found o r ≡ ok f
      → has_token token f ≡ true
  unfolding or_else_found
  or_else_found-holds (some g) r first rest h = first (ground arith)
  or_else_found-holds none r first rest h = rest h

  find_in_projects-holds :
      (ps : List Project) → find_in_projects s token ps ≡ ok f → has_token token f ≡ true
  unfolding find_in_projects
  find_in_projects-holds [] h = absurd (ground arith)
  find_in_projects-holds (p ∷ ps) h =
      or_else_found-holds (token_in token (list_functions s p.meta.name))
        (find_in_projects s token ps) (token_in-holds token (list_functions s p.meta.name) f)
        (find_in_projects-holds ps) h

  find_listed-holds :
      (r : Result (List Project)) → find_listed s token r ≡ ok f → has_token token f ≡ true
  unfolding find_listed
  find_listed-holds (ok ps) h = find_in_projects-holds ps h
  find_listed-holds (err e) h = absurd (ground arith)

  find_function-holds : find_function_by_webhook_token s token ≡ ok f → has_token token f ≡ true
  unfolding find_function_by_webhook_token
  find_function-holds h = find_listed-holds (list_projects s) h

module _ {d : Deps} (s : Store d) (call : WebhookCall d) (r : WebhookRequest) where
  -- nothing happened: the store is as it was, and the bus was given nothing
  abbrev pub Ignored : Calling d EventRecord QueuedBuild → Type 0
  Ignored h = (h.0 ≡ s) × (h.1 ≡ [])

  -- the push names a stored function, and is signed where that has a secret
  abbrev pub Authentic : Type 0
  Authentic =
      (f : Function) × (body : Bytes) × (r.body ≡ ok body)
      × (find_function_by_webhook_token s r.token ≡ ok f)
      × (has_token r.token f ≡ true)
      × (str_eq (webhook_secret_of f.source.git) ""
            || authentic call r body (webhook_secret_of f.source.git)
          ≡ true)

  webhook_found_cases :
      (body : Bytes) (o : Result Function)
      → Ignored (webhook_found s call r body o)
        ⊎ ((f : Function) × (o ≡ ok f)
            × (str_eq (webhook_secret_of f.source.git) ""
                  || authentic call r body (webhook_secret_of f.source.git)
                ≡ true))
  unfolding webhook_found
  webhook_found_cases body (err e) = inl (refl, refl)
  webhook_found_cases body (ok f) =
      elim (Bool-cases (
        str_eq (webhook_secret_of f.source.git) ""
        || authentic call r body (webhook_secret_of f.source.git))) [
          | inl e ↦ inr (f, refl, e)
          | inr e ↦ rw e (inl (refl, refl))
        ]

  webhook_read_cases :
      (o : Result Bytes) → r.body ≡ o → Ignored (webhook_read s call r o) ⊎ Authentic
  unfolding webhook_read
  webhook_read_cases (err e) b = inl (refl, refl)
  webhook_read_cases (ok body) b =
      elim (webhook_found_cases body (find_function_by_webhook_token s r.token)) [
        | inl quiet ↦ inl quiet
        | inr (f, found, signed) ↦
            inr (f, body, b, found, find_function-holds s r.token f found, signed)
      ]

  -- A push either changes nothing, neither the store nor what the bus is given, or its token is
  -- that of a stored function, and where that function has a webhook secret the body carries the
  -- signature of that secret or the header the secret itself.
  pub handle_git_webhook_cases : Ignored (handle_git_webhook s call r) ⊎ Authentic
  unfolding handle_git_webhook
  handle_git_webhook_cases = elim (Bool-cases (str_eq r.token "")) [
    | inl e ↦ rw e (inl (refl, refl))
    | inr e ↦ rw e (webhook_read_cases r.body refl)
  ]
