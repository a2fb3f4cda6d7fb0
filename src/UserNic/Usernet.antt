-- ===== src/UserNic/Usernet.antt =====
-- The allotments of a user: get_alloted, append_alloted and name_is_in_groupnames of
-- src/lxc/cmd/lxc_user_nic.c, over sscanf of the C library.
pub mod Groups
use lxc.Base.{
  ℕ, zero, suc, ◌-◌, ◌%◌, ◌^◌, ltb, ℤ, pos, negsuc, ◌+ℤ◌, Bytes, List, [], ◌∷◌, ◌++◌, Bool, true,
  false, not, ◌&&◌, ◌||◌, ◌==◌, Option, none, some, if◌then◌else◌,
}
use lxc.Text.Number.{Scanned, skip_space, scan_signed, signed}
use lxc.Text.Compare.{strequal, is_empty_string}
use lxc.Text.Split.{is_blank}
use lxc.UserNic.{Alloted}

-- "%99[^ \t]": at most n bytes that are no blanks, and what follows them.
unfoldable pub scan_set : ℕ → Bytes → Bytes × Bytes
scan_set zero s = ([], s)
scan_set (suc n) [] = ([], [])
scan_set (suc n) (c ∷ s) =
    let (w, rest) = scan_set n s in if is_blank c then ([], c ∷ s) else (c ∷ w, rest)

abbrev pub field_of : Bytes × Bytes → Option (Bytes × Bytes)
field_of ([], rest) = none
field_of (c ∷ w, rest) = some (c ∷ w, skip_space rest)

-- A field and the white space behind it.
unfoldable pub scan_field : Bytes → Option (Bytes × Bytes)
unfolding scan_set skip_space
scan_field s = field_of (scan_set 99 s)

-- The long that strtol makes of a number, which is at its bound beyond it.
abbrev pub to_long : Bool → ℕ → ℤ
to_long negative n =
    if negative
    then (if ltb (2 ^ 63) n then negsuc (2 ^ 63 - 1) else signed true n)
    else if ltb (2 ^ 63 - 1) n
    then pos (2 ^ 63 - 1)
    else pos n

-- The 32 bits of an int that a number is cut to, and the int that they stand for.
abbrev low_bits : ℤ → ℕ
low_bits (pos n) = n % 2 ^ 32
low_bits (negsuc n) = 2 ^ 32 - 1 - n % 2 ^ 32

abbrev signed32 : ℕ → ℤ
signed32 w = if ltb w (2 ^ 31) then pos w else negsuc (2 ^ 32 - 1 - w)

unfoldable pub to_int : ℤ → ℤ
to_int z = signed32 (low_bits z)

-- The addition of two ints. C leaves its overflow open; it wraps around, as the machine does it.
unfoldable pub add_int : ℤ → ℤ → ℤ
unfolding to_int ◌+ℤ◌
add_int a b = to_int (a +ℤ b)

-- C leaves open what "%d" makes of a number that fits no int; glibc reads a long and cuts it.
unfoldable pub int_of : Bool × Scanned → Option ℤ
unfolding to_int signed
int_of (negative, n) = if n.found then some (to_int (to_long negative n.magnitude)) else none

-- "%d"
unfoldable pub scan_int : Bytes → Option ℤ
unfolding skip_space scan_signed int_of
scan_int s = int_of (scan_signed 10 (skip_space s))

pub record UsernetLine : Type 0 where
  pub name : Bytes
  pub net_type : Bytes
  pub br : Bytes
  pub n : ℤ

-- The four fields, if sscanf returns 4.
unfoldable pub scan_line : Bytes → Option UsernetLine
unfolding scan_field scan_int
scan_line s = elim (scan_field s) [
  | none ↦ none
  | some (name, s') ↦ elim (scan_field s') [
    | none ↦ none
    | some (net_type, s'') ↦ elim (scan_field s'') [
      | none ↦ none
      | some (br, s''') ↦ elim (scan_int s''') [
        | none ↦ none
        | some n ↦ some (record { name = name; net_type = net_type; br = br; n = n })
      ]
    ]
  ]
]

-- strcmp of a null pointer ends the program.
pub data Answer : Type 0 where
  answer : Bool → Answer
  crash : Answer

-- The array behind the pointer, of which the end is a null pointer, as is a group without a name.
unfoldable pub in_groupnames : Bytes → List (Option Bytes) → Answer
in_groupnames name [] = crash
in_groupnames name (none ∷ groupnames) = crash
in_groupnames name (some g ∷ groupnames) =
    let rest = in_groupnames name groupnames in if strequal name g then answer true else rest

-- `none` is NULL.
unfoldable pub name_is_in_groupnames : Bytes → Option (List (Option Bytes)) → Answer
unfolding in_groupnames
name_is_in_groupnames name none = answer false
name_is_in_groupnames name (some groupnames) = in_groupnames name groupnames

-- Whether the line is for the caller.
abbrev pub is_mine : Bytes → Option (List (Option Bytes)) → Bytes → Answer
is_mine me groups [] = answer false
is_mine me groups (c ∷ name) =
    if strequal (c ∷ name) me
    then answer true
    else if c == b'@'
    then name_is_in_groupnames name groups
    else answer false

pub data Total : Type 0 where
  total : ℤ → List Alloted → Total
  crashed : Total

abbrev pub add_alloted : Total → Bytes → ℤ → Total
add_alloted (total count alloted) name n =
    total (add_int count n) (alloted ++ record { name = name; allowed = n } ∷ [])
add_alloted crashed name n = crashed

abbrev pub alloted_by : Bytes → Bytes → UsernetLine → Answer → Total → Total
alloted_by intype link l crash t = crashed
alloted_by intype link l (answer false) t = t
alloted_by intype link l (answer true) t =
    if strequal l.net_type intype && strequal link l.br then add_alloted t l.name l.n else t

abbrev pub with_line :
    Bytes → Bytes → Bytes → Option (List (Option Bytes)) → Option UsernetLine → Total → Total
with_line me intype link groups none t = t
with_line me intype link groups (some l) t = alloted_by intype link l (is_mine me groups l.name) t

-- A crash ends the loop.
unfoldable pub alloted_loop :
    Bytes → Bytes → Bytes → Option (List (Option Bytes)) → List Bytes → Total → Total
unfolding name_is_in_groupnames
alloted_loop me intype link groups lines crashed = crashed
alloted_loop me intype link groups [] (total count alloted) = total count alloted
alloted_loop me intype link groups (line ∷ lines) (total count alloted) =
    alloted_loop me intype link groups lines
      (with_line me intype link groups (scan_line line) (total count alloted))

-- `none` is a file that cannot be opened.
unfoldable pub get_alloted :
    Bytes → Bytes → Bytes → Option (List (Option Bytes)) → Option (List Bytes) → Total
unfolding alloted_loop
get_alloted me intype link groups none = total (negsuc 0) []
get_alloted me intype link groups (some lines) =
    alloted_loop me intype link groups lines (total (pos 0) [])
