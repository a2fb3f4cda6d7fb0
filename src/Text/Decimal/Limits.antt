-- ===== src/Text/Decimal/Limits.antt =====
-- What the number parsers answer to a number in decimal, with or without a sign, in and out of the
-- range of their types.
use lxc.Base.{
  ℕ, zero, suc, ◌+◌, ◌-◌, ◌^◌, ◌<◌, ◌≡◌, refl, ◌∙◌, Bytes, [], ◌∷◌, true, false, ltb, ok, err,
  einval, erange, pos, negsuc, if◌then◌else◌, arith,
}
use lxc.Text.Decimal.{digits_of, decimal}
use lxc.Text.Decimal.RoundTrip.{
  digits_of-head, digit_one, scan-digits_of, skip_space-nonzero, minus_one,
}
use lxc.Text.Number.{
  Scanned, scan_digits, digit_value, scan_base, scan_prefixed, scan_signed, is_space, skip_space,
  strtoul_checked, ulong_of, long_of, signed, check_uint, check_int, lxc_safe_ulong, lxc_safe_uint,
  lxc_safe_long, lxc_safe_int, first_is_digit, starts_with_minus, is_nil,
}

-- A number that was read to its end.
abbrev whole : ℕ → Scanned
whole n = record { found = true; magnitude = n; rest = [] }

-- A first digit other than 0 means base 10.
scan_prefixed-nonzero :
    (d : ℕ) (t : Bytes) → d < 9 → scan_prefixed 0 ((b'1' + d) ∷ t) ≡ scan_base 10 ((b'1' + d) ∷ t)
unfolding scan_prefixed
scan_prefixed-nonzero d [] h = ground arith
scan_prefixed-nonzero d (x ∷ s) h = ground arith

-- How a number in decimal is read.
record IsRead (n : ℕ) (s : Bytes) : Type 0 where
  number : scan_prefixed 0 s ≡ whole n
  spaceless : skip_space s ≡ s
  signless : starts_with_minus s ≡ false
  unsigned : scan_signed 0 s ≡ (false, whole n)

decimal-IsRead : (n : ℕ) → n < 10 ^ 20 → IsRead n (decimal n)
unfolding decimal
decimal-IsRead zero h =
    unfold digits_of skip_space is_space starts_with_minus scan_signed scan_prefixed scan_base
      scan_digits first_is_digit digit_value in
    record { number = refl; spaceless = refl; signless = refl; unsigned = refl }
decimal-IsRead (suc n) h =
    let (d, t, e, small) = digits_of-head 19 (suc n) [] (omega arith) h in
    rw e (
      read (suc n) d t small
        ((rw e at (scan-digits_of 19 (suc n) [] h)) ∙ unfold scan_digits in refl))
  where
    read :
        (m d : ℕ) (t : Bytes)
        → d < 9
        → scan_digits 10 0 ((b'1' + d) ∷ t) ≡ (m, [])
        → IsRead m ((b'1' + d) ∷ t)
    read m d t small scan =
        let number : scan_prefixed 0 ((b'1' + d) ∷ t) ≡ whole m =
          unfold scan_base in
          rw (scan_prefixed-nonzero d t small, scan, digit_one d t small) refl in
        record {
          number = number;
          spaceless = skip_space-nonzero d t small;
          signless = minus_one d t small;
          unsigned = unfold scan_signed in ground (arith, number);
        }

-- The answers of the unsigned and of the signed parsers, and behind a minus sign.
ulong-IsRead :
    (n : ℕ) (s : Bytes)
    → IsRead n s
    → lxc_safe_ulong s ≡ (if ltb n (2 ^ 64) then ok n else err erange)
unfolding lxc_safe_ulong strtoul_checked ulong_of is_nil
ulong-IsRead n s r = rw (r.spaceless, r.signless, r.spaceless, r.unsigned) (ground arith)

uint-IsRead :
    (n : ℕ) (s : Bytes)
    → IsRead n s
    → lxc_safe_uint s ≡ (if ltb n (2 ^ 32) then ok n else err erange)
unfolding lxc_safe_uint strtoul_checked ulong_of is_nil check_uint
uint-IsRead n s r = rw (r.spaceless, r.signless, r.spaceless, r.unsigned) (ground arith)

long-IsRead :
    (n : ℕ) (s : Bytes)
    → IsRead n s
    → lxc_safe_long s ≡ (if ltb n (2 ^ 63) then ok (pos n) else err erange)
unfolding lxc_safe_long long_of is_nil signed
long-IsRead n s r = rw (r.spaceless, r.unsigned) (ground arith)

minus_long-IsRead :
    (n : ℕ) (s : Bytes)
    → IsRead n s
    → lxc_safe_long (b'-' ∷ s) ≡ (if ltb (2 ^ 63) n then err erange else ok (signed true n))
unfolding lxc_safe_long long_of is_nil skip_space is_space scan_signed
minus_long-IsRead n s r = rw r.number (ground arith)

-- lxc_safe_int behind lxc_safe_long.
check_int-pos :
    (n : ℕ)
    → lxc.Base.◌>>=◌ (if ltb n (2 ^ 63) then ok (pos n) else err erange) check_int
      ≡ (if ltb n (2 ^ 31) then ok (pos n) else err erange)
unfolding check_int
check_int-pos n = ground arith

check_int-minus :
    (n : ℕ)
    → lxc.Base.◌>>=◌ (if ltb (2 ^ 63) n then err erange else ok (signed true n)) check_int
      ≡ (if ltb (2 ^ 31) n then err erange else ok (signed true n))
unfolding check_int signed
check_int-minus n = ground arith

-- Every number of up to 20 digits, as it is printed in decimal, is read as this very number where it
-- is in the range of the parser's type, and is refused with ERANGE where it is not: up to 2^64 - 1
-- for lxc_safe_ulong, 2^32 - 1 for lxc_safe_uint, 2^63 - 1 for lxc_safe_long and 2^31 - 1 for
-- lxc_safe_int. Behind a minus sign, the unsigned parsers refuse it with EINVAL, and the signed ones
-- read the negative number, down to -2^63 and -2^31.
pub parsers-decimal :
    (n : ℕ)
    → n < 10 ^ 20
    → (lxc_safe_ulong (decimal n) ≡ (if ltb n (2 ^ 64) then ok n else err erange))
      × (lxc_safe_uint (decimal n) ≡ (if ltb n (2 ^ 32) then ok n else err erange))
      × (lxc_safe_long (decimal n) ≡ (if ltb n (2 ^ 63) then ok (pos n) else err erange))
      × (lxc_safe_int (decimal n) ≡ (if ltb n (2 ^ 31) then ok (pos n) else err erange))
      × (lxc_safe_ulong (b'-' ∷ decimal n) ≡ err einval)
      × (lxc_safe_uint (b'-' ∷ decimal n) ≡ err einval)
      × (lxc_safe_long (b'-' ∷ decimal n)
          ≡ (if ltb (2 ^ 63) n then err erange else ok (signed true n)))
      × (lxc_safe_int (b'-' ∷ decimal n)
          ≡ (if ltb (2 ^ 31) n then err erange else ok (signed true n)))
unfolding lxc_safe_int lxc_safe_ulong lxc_safe_uint skip_space is_space starts_with_minus
parsers-decimal n h =
    let r = decimal-IsRead n h in
    let s = decimal n in
    (
      ulong-IsRead n s r,
      uint-IsRead n s r,
      long-IsRead n s r,
      rw (long-IsRead n s r) (check_int-pos n),
      refl,
      refl,
      minus_long-IsRead n s r,
      rw (minus_long-IsRead n s r) (check_int-minus n),
    )
