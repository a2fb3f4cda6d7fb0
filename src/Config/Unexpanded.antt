-- ===== src/Config/Unexpanded.antt =====
-- The configuration as it was written, before it is expanded: src/lxc/confile.c.
pub mod Lines
pub mod Appended
pub mod Updated
use lxc.Base.{
  ℕ, zero, suc, ◌+◌, ◌-◌, ◌/◌, ◌%◌, Bytes, codes, [], ◌∷◌, ◌++◌, Bool, true, false, not, ◌&&◌, ◌||◌,
  ◌==◌, leb, if◌then◌else◌, length, get_or, take, drop,
}
use lxc.Text.Compare.{begins_with}
use lxc.Text.Trim.{lxc_char_left_gc}

-- unexpanded_config of struct lxc_conf, which is NULL where nothing is allocated.
pub record Unexpanded : Type 0 where
  pub text : Bytes
  pub len : ℕ
  pub alloced : ℕ

-- What `rand` draws for the digit at an offset; the second digit is even.
abbrev pub hex_digit : (ℕ → ℕ) → ℕ → ℕ
hex_digit rand i =
    get_or (codes "0123456789abcdef") (if i == 1 then rand i % 16 - rand i % 2 else rand i % 16) 0

-- From an offset on.
unfoldable pub rand_complete_hwaddr : (ℕ → ℕ) → ℕ → Bytes → Bytes
rand_complete_hwaddr rand i [] = []
rand_complete_hwaddr rand i (c ∷ s) =
    let rest = rand_complete_hwaddr rand (suc i) s in
    if c == b'\n'
    then c ∷ s
    else (if c == b'x' || c == b'X' then hex_digit rand i ∷ rest else c ∷ rest)

unfoldable pub complete_value : (ℕ → ℕ) → Bytes → Bytes
unfolding rand_complete_hwaddr
complete_value rand [] = []
complete_value rand (c ∷ s) =
    let rest = complete_value rand s in
    if c == b' ' || c == b'\t' then c ∷ rest else rand_complete_hwaddr rand 0 (c ∷ s)

-- Behind the first equals sign.
unfoldable pub update_value : (ℕ → ℕ) → Bytes → Bytes
unfolding complete_value
update_value rand [] = []
update_value rand (c ∷ s) =
    let rest = update_value rand s in if c == b'=' then c ∷ complete_value rand s else c ∷ rest

abbrev pub is_comment : Bytes → Bool
is_comment [] = false
is_comment (c ∷ s) = c == b'#'

-- `is_hwaddr` is lxc_config_net_is_hwaddr.
unfoldable pub update_hwaddr : (Bytes → Bool) → (ℕ → ℕ) → Bytes → Bytes
unfolding lxc_char_left_gc update_value
update_hwaddr is_hwaddr rand text =
    let n = lxc_char_left_gc text (length text) in
    let line = drop n text in
    if is_comment line || not (is_hwaddr line) then text else take n text ++ update_value rand line

-- At most `fuel` rounds.
unfoldable pub enlarge : ℕ → ℕ → ℕ → ℕ
enlarge zero need alloced = alloced
enlarge (suc fuel) need alloced =
    let rest = enlarge fuel need (alloced + 1024) in if leb alloced need then rest else alloced

-- The line is not empty.
unfoldable pub ends_newline : Bytes → Bool
ends_newline [] = false
ends_newline (c ∷ []) = c == b'\n'
ends_newline (c ∷ d ∷ s) = ends_newline (d ∷ s)

abbrev pub with_newline : Bytes → Bytes
with_newline line = if ends_newline line then line else line ++ b'\n' ∷ []

-- The updated line is appended at the offset `len`.
abbrev pub append_updated : Bytes → Unexpanded → Unexpanded
append_updated line conf = record {
  text = take conf.len conf.text ++ with_newline line;
  len = conf.len + length (with_newline line);
  alloced = enlarge (conf.len + length line + 3) (conf.len + length line + 2) conf.alloced;
}

unfoldable pub append_unexp_config_line : (Bytes → Bool) → (ℕ → ℕ) → Bytes → Unexpanded → Unexpanded
unfolding update_hwaddr enlarge ends_newline
append_unexp_config_line is_hwaddr rand line conf =
    append_updated (update_hwaddr is_hwaddr rand line) conf

-- Up to the newline, which is part of the line; and what is behind it.
unfoldable pub line_at : Bytes → Bytes
line_at [] = []
line_at (c ∷ s) = let rest = line_at s in if c == b'\n' then c ∷ [] else c ∷ rest

unfoldable pub line_end : Bytes → Bytes
line_end [] = []
line_end (c ∷ s) = let rest = line_end s in if c == b'\n' then s else rest

abbrev pub isspace : ℕ → Bool
isspace c = c == b' ' || (leb 9 c && leb c 13)

abbrev pub ends_key : Bytes → Bool
ends_key [] = false
ends_key (v ∷ s) = isspace v || v == b'='

unfoldable pub is_cleared : Bytes → Bool → Bytes → Bool
unfolding begins_with
is_cleared key rm_subkeys lstart =
    begins_with lstart key && (rm_subkeys || ends_key (drop (length key) lstart))

-- The text from lstart on, in at most `fuel` rounds.
unfoldable pub clear_lines : ℕ → Bytes → Bool → Bytes → Bytes
unfolding is_cleared line_at line_end
clear_lines zero key rm_subkeys lstart = lstart
clear_lines (suc fuel) key rm_subkeys [] = []
clear_lines (suc fuel) key rm_subkeys (c ∷ s) =
    let rest = clear_lines fuel key rm_subkeys (line_end (c ∷ s)) in
    if is_cleared key rm_subkeys (c ∷ s) then rest else line_at (c ∷ s) ++ rest

-- The length goes down by that of the lines that are taken out.
unfoldable pub clear_unexp_config_line : Bytes → Bool → Unexpanded → Unexpanded
unfolding clear_lines
clear_unexp_config_line key rm_subkeys conf =
    let text = clear_lines (length conf.text) key rm_subkeys conf.text in
    record conf { text = text; len = conf.len - (length conf.text - length text) }
