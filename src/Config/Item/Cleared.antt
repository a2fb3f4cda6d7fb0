-- ===== src/Config/Item/Cleared.antt =====
-- Which lines of a configuration belong to a key that is cleared, by the key and the line alone.
use lxc.Base.{
  ◌≡◌, refl, sym, Bytes, codes, List, [], ◌∷◌, ◌++◌, Bool, true, false, ◌||◌, ◌==◌, eq_swap, Option,
  none, some, if◌then◌else◌, any, Bool-cases, inl, inr, drop, length, arith,
}
use lxc.Text.Compare.{strequal, begins_with}
use lxc.Text.Number.{lxc_safe_uint}
use lxc.Config.Unexpanded.{ends_key, is_cleared}
use lxc.Config.Unexpanded.Lines.{IsLine, remaining}
use lxc.Config.Item.{is_number, with_subkeys}

-- What is behind a prefix of a text that begins with it.
unfoldable pub after_prefix : Bytes → Bytes → Option Bytes
after_prefix [] s = some s
after_prefix (d ∷ prefix) [] = none
after_prefix (d ∷ prefix) (c ∷ s) =
    let rest = after_prefix prefix s in if c == d then rest else none

-- The end of the line, a blank or an equals sign.
abbrev pub ends_word : Bytes → Bool
ends_word [] = true
ends_word (c ∷ s) = any (λ d. c == d) (codes " =" ++ 9 ∷ 10 ∷ 11 ∷ 12 ∷ 13 ∷ [])

abbrev pub families : List Bytes
families = codes "lxc.cgroup" ∷ codes "lxc.network" ∷ codes "lxc.net" ∷ codes "lxc.hook" ∷ []

-- A key whose lines are all those that begin with it: one of four, or lxc.net. and a number.
abbrev indexes : Option Bytes → Bool
indexes none = false
indexes (some idx) = is_number (lxc_safe_uint idx)

abbrev pub is_family : Bytes → Bool
is_family key = any (strequal key) families || indexes (after_prefix (codes "lxc.net.") key)

abbrev belongs : Bool → Option Bytes → Bool
belongs family none = false
belongs family (some rest) = family || ends_word rest

-- A line belongs to a key that it begins with, where the key is of a family, or ends in the line there.
abbrev pub is_line_of : Bytes → Bytes → Bool
is_line_of key line = belongs (is_family key) (after_prefix key line)

-- The other lines.
unfoldable pub lines_without : Bytes → List Bytes → List Bytes
unfolding after_prefix
lines_without key [] = []
lines_without key (line ∷ lines) =
    let rest = lines_without key lines in if is_line_of key line then rest else line ∷ rest

after_prefix-begins_with :
    (prefix s : Bytes)
    → after_prefix prefix s ≡ (if begins_with s prefix then some (drop (length prefix) s) else none)
unfolding after_prefix begins_with
after_prefix-begins_with [] [] = refl
after_prefix-begins_with [] (c ∷ s) = refl
after_prefix-begins_with (d ∷ prefix) [] = refl
after_prefix-begins_with (d ∷ prefix) (c ∷ s) = ground (arith, after_prefix-begins_with prefix s)

with_subkeys-is_family : (key : Bytes) → with_subkeys key ≡ is_family key
unfolding with_subkeys
with_subkeys-is_family key = rw (after_prefix-begins_with (codes "lxc.net.") key) (ground arith)

ends_key-ends_word : (s : Bytes) → ends_key (s ++ b'\n' ∷ []) ≡ ends_word s
ends_key-ends_word [] = refl
ends_key-ends_word (c ∷ s) = ground arith

is_cleared-belongs :
    (key : Bytes) (family : Bool) (line : Bytes)
    → IsLine key
    → is_cleared key family (line ++ b'\n' ∷ []) ≡ belongs family (after_prefix key line)
unfolding is_cleared after_prefix begins_with
is_cleared-belongs [] family [] k = refl
is_cleared-belongs [] family (c ∷ line) k = rw (ends_key-ends_word (c ∷ line)) refl
is_cleared-belongs (d ∷ key) family [] (n, k) = rw (eq_swap d b'\n' n) refl
is_cleared-belongs (d ∷ key) family (c ∷ line) (n, k) = elim (Bool-cases (c == d)) [
  | inl e ↦ rw e (is_cleared-belongs key family line k)
  | inr e ↦ rw e refl
]

-- The lines that the code leaves are those that do not belong to the key.
pub remaining-lines_without :
    (key : Bytes) (lines : List Bytes)
    → IsLine key
    → remaining key (with_subkeys key) lines ≡ lines_without key lines
unfolding remaining lines_without
remaining-lines_without key [] k = refl
remaining-lines_without key (line ∷ lines) k =
    rw (is_cleared-belongs key (with_subkeys key) line k, with_subkeys-is_family key)
      (rw (sym (with_subkeys-is_family key)) (rw (remaining-lines_without key lines k) refl))
