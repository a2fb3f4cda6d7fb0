-- ===== src/Text/Compare.antt =====
-- The comparisons of src/lxc/string_utils.h.
use lxc.Base.{◌≡◌, refl, ◌↔◌, Bytes, [], ◌∷◌, Bool, true, false, ◌&&◌, ◌==◌, arith}

unfoldable pub strequal : Bytes → Bytes → Bool
strequal [] [] = true
strequal [] (y ∷ t) = false
strequal (x ∷ s) [] = false
strequal (x ∷ s) (y ∷ t) = x == y && strequal s t

unfoldable pub is_empty_string : Bytes → Bool
is_empty_string [] = true
is_empty_string (c ∷ s) = false

-- abspath: the text begins with a slash.
unfoldable pub abspath : Bytes → Bool
abspath [] = false
abspath (c ∷ s) = c == b'/'

-- strnequal with the length of the name
unfoldable pub begins_with : Bytes → Bytes → Bool
begins_with opt [] = true
begins_with [] (d ∷ name) = false
begins_with (c ∷ opt) (d ∷ name) = c == d && begins_with opt name

pub strequal_iff : (s t : Bytes) → (strequal s t ≡ true) ↔ (s ≡ t)
unfolding strequal
strequal_iff [] [] = ground arith
strequal_iff [] (y ∷ t) = ground arith
strequal_iff (x ∷ s) [] = ground arith
strequal_iff (x ∷ s) (y ∷ t) = ground (arith, strequal_iff s t)

pub begins_with_self : (s : Bytes) → begins_with s s ≡ true
unfolding begins_with
begins_with_self [] = refl
begins_with_self (c ∷ s) = ground (arith, begins_with_self s)
