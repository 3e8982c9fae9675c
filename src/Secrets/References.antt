-- ===== src/Secrets/References.antt =====
-- What a reference of internal/secrets/manager.go names.
use Prim.Native.Char.{code}
use text.Mathlib.TextEquality.{Char-path}
use text.Mathlib.TextLemmas.{nil-append, cons-append}
use selfcloud.Base.{
  String, ◌<>◌, ◌≡◌, ◌≢◌, ◌⊎◌, refl, ap, sym, ◌∙◌, true, none, some, Option-cases, inl, inr, arith,
  ◌==◌, ==_iff, str_eq, str_eq_iff, Bool-cases,
}
use selfcloud.Store.Isolation.{slash_free, slash_append}
use selfcloud.Secrets.Manager.{strip_prefix, split_at_slash, target}

-- The project and the name behind `secret://`: "project/name", split at the first slash, or else a
-- name in the project of the reference.
abbrev pub Names : String → String → String × String → Type 0
Names project ref t =
    ((t.0 ≢ "") × (slash_free t.0 ≡ true) × (ref ≡ t.0 <> ("/" <> t.1)))
    ⊎ ((t ≡ (project, ref)) × ((slash_free ref ≡ true) ⊎ ((rest : String) × (ref ≡ "/" <> rest))))

pub strip_prefix_ok : (v p rest : String) → strip_prefix v p ≡ some rest → v ≡ p <> rest
unfolding strip_prefix
strip_prefix_ok v String.[] rest h = ground (arith, nil-append rest, h)
strip_prefix_ok String.[] (String.◌∷◌ p ps) rest h = absurd (ground arith)
strip_prefix_ok (String.◌∷◌ c v) (String.◌∷◌ p ps) rest h = elim (Bool-cases (code c == code p)) [
  | inl e ↦
      let more : v ≡ ps <> rest = strip_prefix_ok v ps rest (rw e at h) in
      ap (λ x. String.◌∷◌ x v) (Char-path c p ((==_iff (code c) (code p)).0 e))
      ∙ ap (String.◌∷◌ p) more
      ∙ sym (cons-append p ps rest)
  | inr e ↦ absurd (ground (arith, rw e at h))
]

split_none : (ref : String) → split_at_slash ref ≡ none → slash_free ref ≡ true
unfolding split_at_slash
split_none String.[] h = refl
split_none (String.◌∷◌ c s) h = elim (Bool-cases (code c == 47)) [
  | inl e ↦ absurd (ground (arith, rw e at h))
  | inr e ↦ elim (Option-cases (split_at_slash s)) [
    | inl x ↦ rw e (split_none s x)
    | inr (y, x) ↦ absurd (ground (arith, rw (e, x) at h))
  ]
]

split_some :
    (ref : String) (x : String × String)
    → split_at_slash ref ≡ some x
    → (slash_free x.0 ≡ true) × (ref ≡ x.0 <> ("/" <> x.1))
unfolding split_at_slash
split_some String.[] x h = absurd (ground arith)
split_some (String.◌∷◌ c s) x h = elim (Bool-cases (code c == 47)) [
  | inl e ↦
      let same : ("", s) ≡ x = ground (arith, rw e at h) in
      rw (← same) (
        refl,
        ap (λ k. String.◌∷◌ k s) (Char-path c "/" ((==_iff (code c) 47).0 e))
            ∙ sym (slash_append s)
            ∙ sym (nil-append ("/" <> s)),
      )
  | inr e ↦ elim (Option-cases (split_at_slash s)) [
    | inl y ↦ absurd (ground (arith, rw (e, y) at h))
    | inr (y, z) ↦
        let same : (String.◌∷◌ c y.0, y.1) ≡ x = ground (arith, rw (e, z) at h) in
        let (free, made) = split_some s y z in
        rw (← same) (rw e free, ap (String.◌∷◌ c) made ∙ sym (cons-append c y.0 ("/" <> y.1)))
  ]
]

pub target-Names : (project ref : String) → Names project ref (target project ref)
unfolding target
target-Names project ref = elim (Option-cases (split_at_slash ref)) [
  | inl x ↦ rw (x, target) (inr (refl, inl (split_none ref x)))
  | inr (t, x) ↦
      let (free, made) = split_some ref t x in
      elim (Bool-cases (str_eq t.0 "")) [
        | inl e ↦
            rw (x, target, e)
              (inr (
                refl,
                inr (
                  t.1,
                  made
                      ∙ ap (λ k. k <> ("/" <> t.1)) ((str_eq_iff t.0 "").0 e)
                      ∙ nil-append ("/" <> t.1),
                ),
              ))
        | inr e ↦
            rw (x, target, e)
              (inl ((λ y. absurd (ground (arith, e, str_eq_iff t.0 "", y))), free, made))
      ]
]
