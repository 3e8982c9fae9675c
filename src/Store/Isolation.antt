-- ===== src/Store/Isolation.antt =====
-- The keys of internal/store/store.go keep projects apart: `key_for` and the prefix of a listing.
use Prim.Native.Char.{Char, code}
use text.Mathlib.TextEquality.{Char-path}
use text.Mathlib.TextLemmas.{nil-append, cons-append}
use selfcloud.Base.{
  String, ◌<>◌, ◌≡◌, ◌≢◌, ◌↔◌, refl, ap, ◌∙◌, Bool, true, false, arith, ◌==◌, str_eq, str_eq_iff,
  Bool-cases, inl, inr, if◌then◌else◌,
}
use selfcloud.Store.Core.{key_for, has_prefix}

-- no character is '/'
abbrev pub slash_free : String → Bool
slash_free String.[] = true
slash_free (String.◌∷◌ c s) = let rest = slash_free s in if code c == 47 then false else rest

pub slash_append : (n : String) → "/" <> n ≡ String.◌∷◌ "/" n
slash_append n = cons-append "/" String.[] n ∙ ap (String.◌∷◌ "/") (nil-append n)

has_prefix-append : (s n : String) → has_prefix (s <> n) s ≡ true
unfolding has_prefix
has_prefix-append String.[] n = refl
has_prefix-append (String.◌∷◌ c s) n = rw cons-append (ground (arith, has_prefix-append s n))

has_prefix-cons :
    (c e : Char) (s p : String)
    → has_prefix (String.◌∷◌ c s) (String.◌∷◌ e p)
      ≡ (if code c == code e then has_prefix s p else false)
unfolding has_prefix
has_prefix-cons c e s p = refl

has_prefix-project :
    (q p n : String)
    → slash_free q ≡ true
    → slash_free p ≡ true
    → has_prefix ((q <> "/") <> n) (p <> "/") ≡ true
    → q ≡ p
has_prefix-project String.[] String.[] n hq hp h = refl
has_prefix-project String.[] (String.◌∷◌ e p) n hq hp h =
    absurd
      (ground (arith, rw (nil-append "/", slash_append n, cons-append e p, has_prefix-cons) at h))
has_prefix-project (String.◌∷◌ c q) String.[] n hq hp h = absurd (
    ground (
      arith,
      rw (cons-append c q, cons-append c (q <> "/") n, nil-append "/", has_prefix-cons) at h,
    ))
has_prefix-project (String.◌∷◌ c q) (String.◌∷◌ e p) n hq hp h = ground (
  arith,
  rw (cons-append c q, cons-append c (q <> "/") n, cons-append e p, has_prefix-cons) at h,
  has_prefix-project q p n,
  Char-path c e,
)

key_for_project : (q n : String) → q ≢ "" → key_for q n ≡ (q <> "/") <> n
unfolding key_for
key_for_project q n h = elim (Bool-cases (str_eq q "")) [
  | inl e ↦ absurd (h ((str_eq_iff q "").0 e))
  | inr e ↦ rw e
]

-- A key of a project `q`, which is not empty, begins with `p/` exactly when `q` is `p`, for
-- projects without a slash.
pub has_prefix-key_for :
    (q p n : String)
    → slash_free q ≡ true
    → slash_free p ≡ true
    → q ≢ ""
    → (has_prefix (key_for q n) (p <> "/") ≡ true) ↔ (q ≡ p)
has_prefix-key_for q p n hq hp hne =
    let keyed : key_for q n ≡ (q <> "/") <> n = key_for_project q n hne in
    (
      λ h. has_prefix-project q p n hq hp (rw keyed at h),
      λ e. rw (keyed, e) (has_prefix-append (p <> "/") n),
    )
