-- ===== src/Text/Number.antt =====
-- The number parsers of src/lxc/string_utils.c, over strtoul and strtol of the C library: optional
-- white space, a sign, the base of the prefix where the base is 0, digits, and what is left.
pub mod Bounds
use lxc.Base.{
  ℕ, ◌+◌, ◌-◌, ◌*◌, ◌%◌, ◌^◌, ℤ, pos, negsuc, Bytes, [], ◌∷◌, Bool, true, false, not, ◌&&◌, ◌||◌,
  ◌==◌, ltb, leb, if◌then◌else◌, Result, ok, err, ◌>>=◌, einval, erange, Option, none, some, length,
}

-- isspace
unfoldable pub is_space : ℕ → Bool
is_space c = c == b' ' || (leb 9 c && leb c 13)

unfoldable pub skip_space : Bytes → Bytes
skip_space [] = []
skip_space (c ∷ s) = if is_space c then skip_space s else c ∷ s

-- The value of a digit or letter; 36 for any other byte.
unfoldable pub digit_value : ℕ → ℕ
digit_value c =
    if leb b'0' c && leb c b'9'
    then c - b'0'
    else if leb b'a' c && leb c b'z'
    then c - b'a' + 10
    else if leb b'A' c && leb c b'Z'
    then c - b'A' + 10
    else 36

-- The digits in front, as a number behind `n`, and what follows them.
unfoldable pub scan_digits : ℕ → ℕ → Bytes → ℕ × Bytes
scan_digits base n [] = (n, [])
scan_digits base n (c ∷ s) =
    let rest = scan_digits base (n * base + digit_value c) s in
    if ltb (digit_value c) base then rest else (n, c ∷ s)

-- A number behind its sign: whether there is a digit, its magnitude and what is left.
pub record Scanned : Type 0 where
  pub found : Bool
  pub magnitude : ℕ
  pub rest : Bytes

unfoldable pub first_is_digit : ℕ → Bytes → Bool
first_is_digit base [] = false
first_is_digit base (c ∷ s) = ltb (digit_value c) base

unfoldable pub scan_base : ℕ → Bytes → Scanned
scan_base base s = record {
  found = first_is_digit base s;
  magnitude = (scan_digits base 0 s).0;
  rest = (scan_digits base 0 s).1;
}

-- The base 0 stands for the base of the prefix.
unfoldable pub scan_prefixed : ℕ → Bytes → Scanned
scan_prefixed base [] = scan_base (if base == 0 then 10 else base) []
scan_prefixed base (c ∷ []) = scan_base (if base == 0 then 10 else base) (c ∷ [])
scan_prefixed base (c ∷ x ∷ s) =
    if c == b'0' && (base == 0 || base == 16) && (x == b'x' || x == b'X') && first_is_digit 16 s
    then scan_base 16 s
    else if base == 0 && c == b'0'
    then scan_base 8 (c ∷ x ∷ s)
    else scan_base (if base == 0 then 10 else base) (c ∷ x ∷ s)

-- The sign and the number behind it.
unfoldable pub scan_signed : ℕ → Bytes → Bool × Scanned
scan_signed base [] = (false, scan_prefixed base [])
scan_signed base (c ∷ s) =
    if c == b'-'
    then (true, scan_prefixed base s)
    else if c == b'+'
    then (false, scan_prefixed base s)
    else (false, scan_prefixed base (c ∷ s))

unfoldable pub starts_with_minus : Bytes → Bool
starts_with_minus [] = false
starts_with_minus (c ∷ s) = c == b'-'

unfoldable pub is_nil : Bytes → Bool
is_nil [] = true
is_nil (c ∷ s) = false

-- The value of strtoul for a scanned number, and the tests of errno, of `err == numstr` and of
-- `*err != '\0'` behind it.
unfoldable pub ulong_of : Bool × Scanned → Result ℕ
ulong_of (negative, n) =
    if ltb (2 ^ 64 - 1) n.magnitude
    then err erange
    else if not n.found || not (is_nil n.rest)
    then err einval
    else ok (if negative then (2 ^ 64 - n.magnitude) % 2 ^ 64 else n.magnitude)

unfoldable pub strtoul_checked : ℕ → Bytes → Result ℕ
strtoul_checked base s = ulong_of (scan_signed base (skip_space s))

unfoldable pub lxc_safe_ulong : Bytes → Result ℕ
lxc_safe_ulong numstr =
    let numstr' = skip_space numstr in
    if starts_with_minus numstr' then err einval else strtoul_checked 0 numstr'

unfoldable pub lxc_safe_uint64 : Bytes → ℕ → Result ℕ
lxc_safe_uint64 numstr base =
    let numstr' = skip_space numstr in
    if starts_with_minus numstr' then err einval else strtoul_checked base numstr'

unfoldable pub check_uint : ℕ → Result ℕ
check_uint uli = if ltb (2 ^ 32 - 1) uli then err erange else ok uli

unfoldable pub lxc_safe_uint : Bytes → Result ℕ
lxc_safe_uint numstr =
    let numstr' = skip_space numstr in
    if starts_with_minus numstr'
    then err einval
    else lxc.Base.◌>>=◌ (strtoul_checked 0 numstr') check_uint

unfoldable pub signed : Bool → ℕ → ℤ
signed negative n = if negative && not (n == 0) then negsuc (n - 1) else pos n

-- The value of strtol for a scanned number, and the tests behind it; LONG_MIN is -2^63.
unfoldable pub long_of : Bool × Scanned → Result ℤ
long_of (negative, n) =
    if ltb (if negative then 2 ^ 63 else 2 ^ 63 - 1) n.magnitude
    then err erange
    else if not n.found || not (is_nil n.rest)
    then err einval
    else ok (signed negative n.magnitude)

unfoldable pub lxc_safe_long : Bytes → Result ℤ
lxc_safe_long numstr = long_of (scan_signed 0 (skip_space numstr))

-- long and long long are the same type here.
unfoldable pub lxc_safe_long_long : Bytes → Result ℤ
lxc_safe_long_long numstr = lxc_safe_long numstr

unfoldable pub check_int : ℤ → Result ℤ
check_int (pos n) = if ltb (2 ^ 31 - 1) n then err erange else ok (pos n)
check_int (negsuc n) = if ltb (2 ^ 31 - 1) n then err erange else ok (negsuc n)

unfoldable pub lxc_safe_int : Bytes → Result ℤ
lxc_safe_int numstr = lxc.Base.◌>>=◌ (lxc_safe_long numstr) check_int

-- strtoll is at its bound where it overflows; only the upper one is refused.
unfoldable pub int64_of : Bool → Scanned → Result ℤ
int64_of negative n =
    if negative
    then ok (if ltb (2 ^ 63) n.magnitude then negsuc (2 ^ 63 - 1) else signed true n.magnitude)
    else if ltb (2 ^ 63 - 1) n.magnitude
    then err erange
    else ok (pos n.magnitude)

-- What is left behind the number, for a buffer of some length, or for none.
unfoldable pub residual_of : Option ℕ → Bytes → Result Bytes
residual_of none [] = ok []
residual_of none (c ∷ s) = err einval
residual_of (some residual_len) [] = ok []
residual_of (some residual_len) (c ∷ s) =
    if leb residual_len (length (c ∷ s)) then err einval else ok (c ∷ s)

abbrev pub is_empty_buffer : Option ℕ → Bool
is_empty_buffer none = false
is_empty_buffer (some residual_len) = residual_len == 0

-- The number and what is left. A buffer that is NULL has the length 0.
unfoldable pub lxc_safe_int64_residual : Bytes → ℕ → Option ℕ → Result (ℤ × Bytes)
unfolding skip_space scan_signed int64_of residual_of
lxc_safe_int64_residual numstr base residual =
    let (negative, n) = scan_signed base (skip_space numstr) in
    if is_empty_buffer residual then err einval else (do
      u ← int64_of negative n
      u ← (if n.found then ok u else err einval)
      rest ← residual_of residual n.rest
      ok (u, rest))
