-- ===== src/Base/Text.antt =====
-- Byte order and prefixes of keys. A text is its sequence of characters; on UTF-8 the order of
-- the bytes is the order of the code points.
use Prim.Native.Char.{code}
use Prim.Native.String.{String}
use mathlib.Core.Path.{◌≡◌, refl}
use mathlib.Core.Bool.{Bool, true, false}
use native.Mathlib.Omega.{arith}
use text.Mathlib.TextEquality.{Char-path}
use selfcloud.Base.Tests.{ltb, if◌then◌else◌}

abbrev pub empty : String
empty = ""

-- strictly before, in the order of the bytes
abbrev pub key_ltb : String → String → Bool
key_ltb String.[] String.[] = false
key_ltb String.[] (String.◌∷◌ d t) = true
key_ltb (String.◌∷◌ c s) String.[] = false
key_ltb (String.◌∷◌ c s) (String.◌∷◌ d t) =
    let rest = key_ltb s t in
    if ltb (code c) (code d) then true else if ltb (code d) (code c) then false else rest

pub key_ltb_irrefl : (s : String) → key_ltb s s ≡ false
key_ltb_irrefl String.[] = refl
key_ltb_irrefl (String.◌∷◌ c s) = ground (arith, key_ltb_irrefl s)

pub key_ltb_asymm : (s t : String) → key_ltb s t ≡ true → key_ltb t s ≡ false
key_ltb_asymm String.[] String.[] h = cc
key_ltb_asymm String.[] (String.◌∷◌ d t) h = refl
key_ltb_asymm (String.◌∷◌ c s) String.[] h = cc
key_ltb_asymm (String.◌∷◌ c s) (String.◌∷◌ d t) h = ground (arith, key_ltb_asymm s t)

pub key_ltb_trans : (s t u : String) → key_ltb s t ≡ true → key_ltb t u ≡ true → key_ltb s u ≡ true
key_ltb_trans String.[] String.[] u h k = cc
key_ltb_trans String.[] (String.◌∷◌ d t) String.[] h k = cc
key_ltb_trans String.[] (String.◌∷◌ d t) (String.◌∷◌ e u) h k = refl
key_ltb_trans (String.◌∷◌ c s) String.[] u h k = cc
key_ltb_trans (String.◌∷◌ c s) (String.◌∷◌ d t) String.[] h k = cc
key_ltb_trans (String.◌∷◌ c s) (String.◌∷◌ d t) (String.◌∷◌ e u) h k =
    ground (arith, key_ltb_trans s t u)

pub key_ltb_total : (s t : String) → key_ltb s t ≡ false → key_ltb t s ≡ false → s ≡ t
key_ltb_total String.[] String.[] h k = refl
key_ltb_total String.[] (String.◌∷◌ d t) h k = cc
key_ltb_total (String.◌∷◌ c s) String.[] h k = cc
key_ltb_total (String.◌∷◌ c s) (String.◌∷◌ d t) h k =
    ground (arith, key_ltb_total s t, Char-path c d)
