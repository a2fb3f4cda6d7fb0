-- ===== src/Text/Trim.antt =====
-- White space and sizes: src/lxc/string_utils.c.
pub mod Bounds
pub mod Sizes
use lxc.Base.{
  ℕ, zero, suc, ◌+◌, ◌-◌, ◌*◌, ◌^◌, ◌≤◌, ◌<◌, ◌≡◌, ℤ, pos, negsuc, Bytes, [], ◌∷◌, ◌++◌, Bool, true,
  false, not, ◌&&◌, ◌||◌, ◌==◌, ltb, leb, if◌then◌else◌, length, get_or, take, drop, Result, ok,
  err, ◌>>=◌, einval, erange, arith,
}
use lxc.Text.Compare.{strequal}
use lxc.Text.Number.{lxc_safe_long_long}

unfoldable pub is_left_blank : ℕ → Bool
is_left_blank c = c == b' ' || c == b'\t'

unfoldable pub is_right_blank : ℕ → Bool
is_right_blank c = c == b' ' || (c == b'\t' || (c == b'\n' || c == 0))

-- The loop from `i` on; `left` bytes are behind it.
unfoldable pub left_gc_loop : ℕ → ℕ → Bytes → ℕ
left_gc_loop i zero buffer = 0
left_gc_loop i (suc left) buffer =
    let more = left_gc_loop (suc i) left buffer in
    if is_left_blank (get_or buffer i 0) then more else i

unfoldable pub lxc_char_left_gc : Bytes → ℕ → ℕ
lxc_char_left_gc buffer len = left_gc_loop 0 len buffer

unfoldable pub lxc_char_right_gc : Bytes → ℕ → ℕ
lxc_char_right_gc buffer zero = 0
lxc_char_right_gc buffer (suc i) =
    let more = lxc_char_right_gc buffer i in
    if is_right_blank (get_or buffer i 0) then more else suc i

unfoldable pub lxc_trim_whitespace_in_place : Bytes → Bytes
lxc_trim_whitespace_in_place buffer =
    let rest = drop (lxc_char_left_gc buffer (length buffer)) buffer in
    take (lxc_char_right_gc rest (length rest)) rest

unfoldable pub is_line_blank : ℕ → Bool
is_line_blank c = c == b' ' || c == b'\t' || c == b'\n' || c == b'\r' || c == 12 || c == 0

unfoldable pub lxc_is_line_empty : Bytes → Bool
lxc_is_line_empty [] = true
lxc_is_line_empty (c ∷ line) = if not (is_line_blank c) then false else lxc_is_line_empty line

unfoldable pub newlines_loop : ℕ → Bytes → Bytes
newlines_loop zero l = []
newlines_loop (suc p) l =
    let more = newlines_loop p l in if get_or l p 0 == b'\n' then more else take (suc p) l

unfoldable pub remove_trailing_newlines : Bytes → Bytes
remove_trailing_newlines l = newlines_loop (length l) l

unfoldable pub is_digit : ℕ → Bool
is_digit c = leb b'0' c && leb c b'9'

unfoldable pub to_lower : ℕ → ℕ
to_lower c = if leb b'A' c && leb c b'Z' then c + 32 else c

unfoldable pub is_alpha : ℕ → Bool
is_alpha c = leb b'a' (to_lower c) && leb (to_lower c) b'z'

-- The byte at a distance from the end.
unfoldable pub from_end : Bytes → ℕ → ℕ
from_end s n = get_or s (length s - n) 0

-- The length of the suffix, for a string that is not empty.
unfoldable pub suffix_len : Bytes → Result ℕ
suffix_len s =
    if is_digit (from_end s 1)
    then ok 0
    else if not (is_alpha (from_end s 1))
    then err einval
    else if length s == 1
    then err einval
    else if length s == 2
    then (if is_alpha (from_end s 2) then err einval else ok 1)
    else if is_alpha (from_end s 2)
    then ok 2
    else ok 1

unfoldable pub multiplier : ℕ → ℕ → Result ℕ
multiplier a b =
    if not (to_lower b == b'b')
    then err einval
    else if to_lower a == b'k'
    then ok 1024
    else if to_lower a == b'm'
    then ok (1024 * 1024)
    else if to_lower a == b'g'
    then ok (1024 * 1024 * 1024)
    else err einval

-- check_mul_overflow on long long.
unfoldable pub mul_checked : ℤ → ℕ → Result ℤ
mul_checked (pos n) m = if ltb (2 ^ 63 - 1) (n * m) then err erange else ok (pos (n * m))
mul_checked (negsuc n) m =
    if ltb (2 ^ 63) (suc n * m) then err erange else ok (negsuc (suc n * m - 1))

unfoldable pub convert : Bytes → ℕ → ℤ → Result ℤ
convert s len conv =
    if not (len == 2)
    then ok conv
    else (do mltpl ← multiplier (from_end s 2) (from_end s 1); mul_checked conv mltpl)

-- INTTYPE_TO_STRLEN(long long int) is 22.
unfoldable pub parse_byte_size_string : Bytes → Result ℤ
parse_byte_size_string s = if length s == 0 || ltb 21 (length s) then err einval else (do
  len ← suffix_len s
  conv ← lxc_safe_long_long (
      take (lxc_char_right_gc (take (length s - len) s) (length s - len)) (take (length s - len) s))
  convert s len conv)
