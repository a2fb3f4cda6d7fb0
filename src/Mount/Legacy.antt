-- ===== src/Mount/Legacy.antt =====
-- parse_mntopts_legacy of src/lxc/conf.c.
pub mod Fits
pub mod Parsed
use lxc.Base.{
  ℕ, ◌+◌, ◌-◌, Bytes, List, [], ◌∷◌, ◌++◌, Bool, true, false, ◌||◌, ◌==◌, ltb, Option, none, some,
  any, if◌then◌else◌, length, take, Result, ok, err, einval,
}
use lxc.Text.Number.{is_nil}
use lxc.Text.Compare.{strequal}
use lxc.Text.Split.{tokens}
use lxc.Mount.Table.{Flags, raise, lower, MountOpt, mount_opt}

abbrev pub is_comma : ℕ → Bool
is_comma c = c == b','

-- The string in a buffer of `size` bytes behind strlcat, and the returned length.
abbrev pub strlcat : Bytes → Bytes → ℕ → Bytes × ℕ
strlcat dst append size = (
  if ltb (length dst) size then dst ++ take (size - 1 - length dst) append else dst,
  length dst + length append,
)

unfoldable pub find_name : Bytes → List MountOpt → Option MountOpt
find_name opt [] = none
find_name opt (mo ∷ table) = if strequal opt mo.name then some mo else find_name opt table

unfoldable pub generic : Bytes → Option MountOpt
unfolding find_name mount_opt
generic opt = if any (λ c. c == b'=') opt then none else find_name opt mount_opt

abbrev pub apply_legacy : MountOpt → Flags → Flags
apply_legacy mo flags = if mo.clear then lower mo.legacy_flag flags else raise mo.legacy_flag flags

-- Behind the comma.
abbrev pub append_opt : Bytes → ℕ → Bytes × ℕ → Bytes
append_opt opt size (text, ret) = if ltb ret size then (strlcat text opt size).0 else text

-- A text that was cut is reported by a positive number, which the caller does not take for an error.
unfoldable pub append_data : Bytes → ℕ → Bytes → Bytes
append_data opt size text =
    if is_nil text
    then (strlcat text opt size).0
    else append_opt opt size (strlcat text (b',' ∷ []) size)

abbrev pub mntopt_of : Bytes → ℕ → Flags × Bytes → Option MountOpt → Flags × Bytes
mntopt_of opt size (flags, text) none = (flags, append_data opt size text)
mntopt_of opt size (flags, text) (some mo) = (apply_legacy mo flags, text)

unfoldable pub parse_mntopt : Bytes → ℕ → Flags × Bytes → Flags × Bytes
unfolding generic append_data
parse_mntopt opt size s = mntopt_of opt size s (generic opt)

unfoldable pub legacy_loop : List Bytes → ℕ → Flags × Bytes → Flags × Bytes
unfolding parse_mntopt
legacy_loop [] size s = s
legacy_loop (opt ∷ opts) size s = legacy_loop opts size (parse_mntopt opt size s)

-- `none` is NULL.
abbrev pub data_of : Bytes → Option Bytes
data_of [] = none
data_of (c ∷ s) = some (c ∷ s)

abbrev pub legacy_of : Flags × Bytes → Flags × Option Bytes
legacy_of (flags, text) = (flags, data_of text)

unfoldable pub parse_mntopts_legacy :
    Option Bytes → Flags → Option Bytes → Result (Flags × Option Bytes)
unfolding legacy_loop
parse_mntopts_legacy mntopts mntflags (some d) = err einval
parse_mntopts_legacy mntopts (b ∷ mntflags) none = err einval
parse_mntopts_legacy none [] none = ok ([], none)
parse_mntopts_legacy (some mntopts) [] none =
    ok (legacy_of (legacy_loop (tokens is_comma mntopts) (length mntopts + 1) ([], [])))
