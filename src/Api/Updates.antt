-- ===== src/Api/Updates.antt =====
-- What an update of a function in internal/api/handlers.go keeps.
use selfcloud.Base.{
  str_eq_refl, refl, Bool, true, false, String, ◌≡◌, ◌≢◌, ap, ◌∙◌, Bool, none, some, str_eq,
  str_eq_iff, arith, ok, Bool-cases, inl, inr, if◌then◌else◌,
}
use selfcloud.Store.Types.{Function, GitSourceSpec, kind_function}
use selfcloud.Store.Deps.{Deps, function_scoped}
use selfcloud.Store.Core.{Store}
use selfcloud.Store.Scoped.{Written}
use selfcloud.Store.RoundTrip.{put_scoped-value}
use selfcloud.Store.Typed.{get_function, put_function}
use selfcloud.Api.Reply.{json}
use selfcloud.Api.Defaults.{
  FunctionCall, with_defaults, or_current, preserved, git_preserved, with_token, set_token,
  function_on_node,
}
use selfcloud.Api.Webhooks.{has_token, git_token_is}
use selfcloud.Api.Functions.{
  function_written, put_with_token, merged, put_merged, handle_put_function,
}

kept_token :
    (new : Bool) (given stored minted : String)
    → given ≡ ""
    → stored ≢ ""
    → or_current (if new then given else or_current given stored) minted
      ≡ (if new then minted else stored)
unfolding or_current
kept_token new given stored minted e h =
    ground (arith, str_eq_iff given "", str_eq_iff stored "", e)

-- the tokens that a function with a git source answers to
answers_to :
    (f : Function) (g : GitSourceSpec) (new : Bool) (token stored : String)
    → f.source.git ≡ some (record g { webhook_token = if new then token else stored })
    → has_token stored f ≡ (if new then str_eq token stored else true)
unfolding has_token git_token_is
answers_to f g true token stored e = rw e refl
answers_to f g false token stored e = rw (e, str_eq_refl) refl

module _ {d : Deps} (s : Store d) (call : FunctionCall d) where
  put_function-value : (f : Function) → (put_function s call.mint f).1.source ≡ f.source
  unfolding put_function
  put_function-value f =
      let (m, e) =
        put_scoped-value function_scoped d.function_json s "functions" kind_function call.mint f in
      ap (λ x. x.source) e

  function_written-value :
      (was_new : Bool) (w : Written d Function) (f' : Function)
      → (function_written call was_new w).1 ≡ json 201 f'
      → f' ≡ w.1
  unfolding function_written
  function_written-value was_new (t, f, none) f' h = ground arith
  function_written-value was_new (t, f, some e) f' h = absurd (ground arith)

  put_with_token-source :
      (was_new : Bool) (f f' : Function)
      → (put_with_token s call was_new (ok f)).1 ≡ json 201 f'
      → f'.source ≡ f.source
  unfolding put_with_token function_on_node
  put_with_token-source was_new f f' h =
      ap (λ x. x.source) (function_written-value was_new _ f' h) ∙ put_function-value _

  with_token-git :
      (token : String) (m : Function) (g : GitSourceSpec)
      → m.source.git ≡ some g
      → (r : Function) × (with_token (ok token) m m.source.git ≡ ok r)
        × (r.source.git ≡ some (record g { webhook_token = or_current g.webhook_token token }))
  unfolding with_token set_token or_current
  with_token-git token m g e = elim (Bool-cases (str_eq g.webhook_token "")) [
    | inl bare ↦ (set_token m g token, simp (e, bare), simp bare)
    | inr named ↦ (m, simp (e, named), e ∙ simp named)
  ]

  merged-git :
      (project : String) (f cur : Function) (g h : GitSourceSpec)
      → f.source.git ≡ some g
      → get_function s project f.meta.name ≡ ok cur
      → cur.source.git ≡ some h
      → (merged s (with_defaults project f)).source.git
        ≡ some (record g {
          webhook_token =
              if str_eq f.meta.uid ""
              then g.webhook_token
              else or_current g.webhook_token h.webhook_token;
        })
  unfolding merged with_defaults preserved git_preserved
  merged-git project f cur g h git found stored = elim (Bool-cases (str_eq f.meta.uid "")) [
    | inl new ↦ simp (new, git)
    | inr old ↦ simp (old, found, git, stored)
  ]

  -- An update that carries the function's UID and a git source without a webhook token keeps the
  -- webhook token of the stored function, where that has one; the same request without the UID is
  -- given the token that is minted for it. So the function of the reply answers to the webhook
  -- address of the stored one in the first case, and in the second only where the two tokens are
  -- the same.
  pub handle_put_function-token :
      (project token : String) (f cur f' : Function) (g h : GitSourceSpec)
      → call.webhook_token ≡ ok token
      → f.source.git ≡ some g
      → g.webhook_token ≡ ""
      → get_function s project f.meta.name ≡ ok cur
      → cur.source.git ≡ some h
      → h.webhook_token ≢ ""
      → (handle_put_function s call project (ok f)).1 ≡ json 201 f'
      → (f'.source.git
          ≡ some (record g {
            webhook_token = if str_eq f.meta.uid "" then token else h.webhook_token;
          }))
        × (has_token h.webhook_token f'
            ≡ (if str_eq f.meta.uid "" then str_eq token h.webhook_token else true))
  unfolding handle_put_function put_merged
  handle_put_function-token project token f cur f' g h minted git bare found stored named put =
      let m = merged s (with_defaults project f) in
      let given = record g {
        webhook_token =
            if str_eq f.meta.uid ""
            then g.webhook_token
            else or_current g.webhook_token h.webhook_token;
      } in
      let (r, tokened, git') =
        with_token-git token m given (merged-git project f cur g h git found stored) in
      let same : f'.source ≡ r.source =
        put_with_token-source (str_eq f.meta.uid "") r f' (simp (minted, tokened) at put) in
      let git'' =
        ap (λ x. x.git) same
        ∙ git'
        ∙ ap (λ t. some (record g { webhook_token = t }))
            (kept_token (str_eq f.meta.uid "") g.webhook_token h.webhook_token token bare named) in
      (git'', answers_to f' g (str_eq f.meta.uid "") token h.webhook_token git'')
