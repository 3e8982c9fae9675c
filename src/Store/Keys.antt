-- ===== src/Store/Keys.antt =====
-- The keys of internal/store: prefixes against the byte order, and keys against their parts.
use selfcloud.Base.{String, ◌≡◌, refl, true, false, arith}
use selfcloud.Base.Text.{key_ltb}
use selfcloud.Store.Core.{has_prefix}

-- a key below the prefix does not have it
pub has_prefix_of_below : (k p : String) → key_ltb k p ≡ true → has_prefix k p ≡ false
unfolding has_prefix
has_prefix_of_below String.[] String.[] h = cc
has_prefix_of_below String.[] (String.◌∷◌ d p) h = refl
has_prefix_of_below (String.◌∷◌ c k) String.[] h = cc
has_prefix_of_below (String.◌∷◌ c k) (String.◌∷◌ d p) h = ground (arith, has_prefix_of_below k p)

-- past the prefix, no later key has it
pub has_prefix_of_past :
    (k j p : String)
    → key_ltb k p ≡ false
    → has_prefix k p ≡ false
    → key_ltb k j ≡ true
    → has_prefix j p ≡ false
unfolding has_prefix
has_prefix_of_past String.[] j String.[] b h l = cc
has_prefix_of_past String.[] j (String.◌∷◌ e p) b h l = cc
has_prefix_of_past (String.◌∷◌ c k) j String.[] b h l = cc
has_prefix_of_past (String.◌∷◌ c k) String.[] (String.◌∷◌ e p) b h l = refl
has_prefix_of_past (String.◌∷◌ c k) (String.◌∷◌ d j) (String.◌∷◌ e p) b h l =
    ground (arith, has_prefix_of_past k j p)
