-- ===== src/Idmap/Parse.antt =====
-- parse_idmaps of src/lxc/confile_utils.c: `u 0 100000 65536`.
pub mod RoundTrip
use lxc.Base.{
  ℕ, Bytes, List, [], ◌∷◌, ◌++◌, Bool, true, false, not, ◌&&◌, ◌||◌, ◌==◌, if◌then◌else◌, Result,
  ok, err, ◌>>=◌, einval,
}
use lxc.Text.Number.{lxc_safe_ulong}
use lxc.Text.Decimal.{decimal}

-- The text behind its first bytes that are in the set: `slide += strspn(slide, set)`.
unfoldable pub skip : (ℕ → Bool) → Bytes → Bytes
skip in_set [] = []
skip in_set (c ∷ s) = if in_set c then skip in_set s else c ∷ s

-- The first bytes that are not in the set, and the text behind them: strcspn.
unfoldable pub until : (ℕ → Bool) → Bytes → Bytes × Bytes
until in_set [] = ([], [])
until in_set (c ∷ s) =
    let rest = until in_set s in if in_set c then ([], c ∷ s) else (c ∷ rest.0, rest.1)

unfoldable pub is_blank : ℕ → Bool
is_blank c = c == b' ' || (c == b'\t' || c == b'\r')

unfoldable pub is_blank_or_newline : ℕ → Bool
is_blank_or_newline c = c == b' ' || (c == b'\t' || (c == b'\r' || c == b'\n'))

-- The byte at the start; 0 where the text ends.
abbrev pub head_or_nul : Bytes → ℕ
head_or_nul [] = 0
head_or_nul (c ∷ s) = c

abbrev pub tail : Bytes → Bytes
tail [] = []
tail (c ∷ s) = s

abbrev pub is_end : Bytes → Bool
is_end [] = true
is_end (c ∷ s) = false

-- A number that more text must follow: the bytes up to a blank, which is wiped.
unfoldable pub parse_inner : Bytes → Result (ℕ × Bytes)
parse_inner window =
    let (token, slide) = until is_blank window in
    if is_end token || is_end slide
    then err einval
    else (do value ← lxc_safe_ulong token; ok (value, tail slide))

-- The last number, with blanks and newlines at most behind it.
unfoldable pub parse_last : Bytes → Result ℕ
parse_last window =
    let (token, slide) = until is_blank window in
    if is_end token
    then err einval
    else if not (is_end (skip is_blank_or_newline slide))
    then err einval
    else lxc_safe_ulong token

-- Behind a number: blanks, and then more text.
unfoldable pub next_number : Bytes → Result Bytes
next_number slide =
    let window = skip is_blank slide in if is_end window then err einval else ok window

pub record Entry : Type 0 where
  pub type : ℕ
  pub nsid : ℕ
  pub hostid : ℕ
  pub range : ℕ

-- Behind the letter of the type.
unfoldable pub parse_numbers : ℕ → Bytes → Result Entry
parse_numbers type window =
    let slide = skip is_blank window in
    if not (is_blank (head_or_nul window)) then err einval else (do
      nsid_rest ← parse_inner slide
      window2 ← next_number nsid_rest.1
      hostid_rest ← parse_inner window2
      window3 ← next_number hostid_rest.1
      range ← parse_last window3
      ok (record { type = type; nsid = nsid_rest.0; hostid = hostid_rest.0; range = range }))

unfoldable pub parse_idmaps : Bytes → Result Entry
parse_idmaps idmap =
    let slide = skip is_blank idmap in
    if is_blank (head_or_nul idmap) && is_end slide
    then err einval
    else if not (head_or_nul slide == b'u') && not (head_or_nul slide == b'g')
    then err einval
    else parse_numbers (head_or_nul slide) (tail slide)

-- The three numbers of the format "%c %lu %lu %lu" of get_config_idmaps, each behind a blank.
abbrev pub numbers : Entry → Bytes
numbers e = b' ' ∷ (decimal e.nsid ++ b' ' ∷ (decimal e.hostid ++ b' ' ∷ (decimal e.range ++ [])))

unfoldable pub print_entry : Entry → Bytes
print_entry e = e.type ∷ numbers e
