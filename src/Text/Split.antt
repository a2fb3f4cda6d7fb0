-- ===== src/Text/Split.antt =====
-- Splitting and joining strings: src/lxc/string_utils.c, over strtok_r of the C library.
pub mod RoundTrip
use lxc.Base.{
  ℕ, Bytes, List, [], ◌∷◌, ◌++◌, map, Bool, true, false, not, ◌&&◌, ◌||◌, ◌==◌, if◌then◌else◌,
}
use lxc.Text.Compare.{strequal}
use lxc.Text.Number.{is_space}

-- The next byte is there and no separator.
unfoldable pub in_word : (ℕ → Bool) → Bytes → Bool
in_word sep [] = false
in_word sep (c ∷ s) = not (sep c)

unfoldable pub prepend : ℕ → List Bytes → List Bytes
prepend c [] = (c ∷ []) ∷ []
prepend c (t ∷ ts) = (c ∷ t) ∷ ts

-- What strtok_r returns in turn: the longest runs without a separator, of which none is empty.
unfoldable pub tokens : (ℕ → Bool) → Bytes → List Bytes
tokens sep [] = []
tokens sep (c ∷ s) =
    let rest = tokens sep s in
    if sep c then rest else if in_word sep s then prepend c rest else (c ∷ []) ∷ rest

unfoldable pub lxc_string_split : Bytes → ℕ → List Bytes
lxc_string_split string sep = tokens (λ c. c == sep) string

unfoldable pub lxc_string_in_array : Bytes → List Bytes → Bool
lxc_string_in_array needle [] = false
lxc_string_in_array needle (p ∷ haystack) =
    if strequal needle p then true else lxc_string_in_array needle haystack

unfoldable pub lxc_string_in_list : Bytes → Bytes → ℕ → Bool
lxc_string_in_list needle haystack sep =
    lxc_string_in_array needle (tokens (λ c. c == sep) haystack)

-- The parts behind the first one.
unfoldable pub join_more : Bytes → List Bytes → Bytes
join_more sep [] = []
join_more sep (p ∷ parts) = sep ++ (p ++ join_more sep parts)

unfoldable pub join_parts : Bytes → List Bytes → Bytes
join_parts sep [] = []
join_parts sep (p ∷ parts) = p ++ join_more sep parts

unfoldable pub lxc_string_join : Bytes → List Bytes → Bool → Bytes
lxc_string_join sep parts use_as_prefix =
    (if use_as_prefix then sep else []) ++ join_parts sep parts

unfoldable pub is_blank : ℕ → Bool
is_blank c = c == b' ' || c == b'\t'

unfoldable pub skip_blank : Bytes → Bytes
skip_blank [] = []
skip_blank (c ∷ s) = if is_blank c then skip_blank s else c ∷ s

-- Blanks at the end are wiped.
unfoldable pub wipe_blank : Bytes → Bytes
wipe_blank [] = []
wipe_blank (c ∷ s) = elim (wipe_blank s) [
  | [] ↦ if is_blank c then [] else c ∷ []
  | x ∷ s' ↦ c ∷ x ∷ s'
]

unfoldable pub lxc_string_split_and_trim : Bytes → ℕ → List Bytes
lxc_string_split_and_trim string sep =
    map (λ t. wipe_blank (skip_blank t)) (tokens (λ c. c == sep) string)

-- The state of lxc_string_split_quoted: between words, in a word, and behind the quote.
pub data QuoteState : Type 0 where
  between plain : QuoteState
  quoted : ℕ → QuoteState

-- `word` is what stands behind `nextword`. A quote that is open at the end adds
-- no word.
unfoldable pub split_quoted_loop : QuoteState → Bytes → Bytes → List Bytes
split_quoted_loop between word [] = []
split_quoted_loop plain word [] = word ∷ []
split_quoted_loop (quoted q) word [] = []
split_quoted_loop between word (c ∷ p) =
    let skipped = split_quoted_loop between [] p in
    let in_quote = split_quoted_loop (quoted c) [] p in
    let in_plain = split_quoted_loop plain (c ∷ []) p in
    if is_space c then skipped else if c == b'"' || c == b'\'' then in_quote else in_plain
split_quoted_loop plain word (c ∷ p) =
    let done = split_quoted_loop between [] p in
    let more = split_quoted_loop plain (word ++ c ∷ []) p in
    if is_space c then word ∷ done else more
split_quoted_loop (quoted q) word (c ∷ p) =
    let done = split_quoted_loop between [] p in
    let more = split_quoted_loop (quoted q) (word ++ c ∷ []) p in
    if c == q then word ∷ done else more

unfoldable pub lxc_string_split_quoted : Bytes → List Bytes
lxc_string_split_quoted string = split_quoted_loop between [] string
