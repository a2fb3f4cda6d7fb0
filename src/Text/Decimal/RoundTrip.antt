-- ===== src/Text/Decimal/RoundTrip.antt =====
-- The number parsers read back what is printed in decimal.
use lxc.Base.{
  ℕ, zero, suc, ◌+◌, ◌-◌, ◌*◌, ◌/◌, ◌%◌, ◌^◌, ◌<◌, ◌≤◌, ◌≡◌, refl, ap, ◌∙◌, Bytes, [], ◌∷◌, All,
  true, false, ltb, ltb→lt, lt→ltb, Bool-cases, inl, inr, ok, arith,
}
use native.Mathlib.Nat.{pow-suc}
use lxc.Text.Decimal.{digits_of, decimal}
use lxc.Text.Number.{
  scan_digits, digit_value, scan_base, scan_prefixed, scan_signed, is_space, skip_space,
  strtoul_checked, ulong_of, lxc_safe_ulong, first_is_digit, starts_with_minus, is_nil,
}

abbrev pub IsDigit : ℕ → Type 0
IsDigit c = (b'0' ≤ c) × (c ≤ b'9')

pub digits_of-IsDigit : (f n : ℕ) (out : Bytes) → All IsDigit out → All IsDigit (digits_of f n out)
unfolding digits_of
digits_of-IsDigit zero n out h = h
digits_of-IsDigit (suc f) n out h =
    ground (arith, digits_of-IsDigit f (n / 10) ((b'0' + n % 10) ∷ out))

pub digits_of-ne-nil :
    (f n : ℕ) (out : Bytes) → (d : ℕ) × (t : Bytes) × (digits_of (suc f) n out ≡ d ∷ t)
unfolding digits_of
digits_of-ne-nil zero n out = (b'0' + n % 10, out, ground arith)
digits_of-ne-nil (suc f) n out = elim (Bool-cases (ltb n 10)) [
  | inl small ↦ (b'0' + n % 10, out, rw small)
  | inr big ↦ rw big (digits_of-ne-nil f (n / 10) ((b'0' + n % 10) ∷ out))
]

scan-digit :
    (k d : ℕ) (out : Bytes)
    → d < 10
    → scan_digits 10 k ((b'0' + d) ∷ out) ≡ scan_digits 10 (k * 10 + d) out
unfolding scan_digits digit_value
scan-digit k d out h = ground arith

-- One digit fewer.
tenth-lt : (f n : ℕ) → n < 10 ^ suc f → n / 10 < 10 ^ f
tenth-lt f n h = omega (arith, pow-suc 10 f)

mod_small : (n : ℕ) → n < 10 → 0 * 10 + n % 10 ≡ n
mod_small n h = omega arith

small_cons :
    (n : ℕ) (out : Bytes)
    → 0 < n
    → n < 10
    → ◌≡◌ {A = Bytes} ((b'0' + n % 10) ∷ out) ((b'1' + (n - 1)) ∷ out)
small_cons n out p h = ap (λ (c : ℕ). c ∷ out) (omega arith)

pub scan-digits_of :
    (f n : ℕ) (out : Bytes)
    → n < 10 ^ suc f
    → scan_digits 10 0 (digits_of (suc f) n out) ≡ scan_digits 10 n out
unfolding digits_of
scan-digits_of zero n out h = ground (arith, scan-digit 0 (n % 10) out, mod_small n)
scan-digits_of (suc f) n out h = elim (Bool-cases (ltb n 10)) [
  | inl small ↦ rw small (
      scan-digit 0 (n % 10) out (omega arith) ∙ ap (λ (k : ℕ). scan_digits 10 k out) (ground arith))
  | inr big ↦
      rw (big, scan-digits_of f (n / 10) ((b'0' + n % 10) ∷ out) (tenth-lt (suc f) n h))
        (scan-digit (n / 10) (n % 10) out (omega arith)
          ∙ ap (λ (k : ℕ). scan_digits 10 k out) (omega arith))
]

-- The first digit of a positive number is not 0.
pub digits_of-head :
    (f n : ℕ) (out : Bytes)
    → 0 < n
    → n < 10 ^ suc f
    → (d : ℕ) × (t : Bytes) × (digits_of (suc f) n out ≡ (b'1' + d) ∷ t) × (d < 9)
unfolding digits_of
digits_of-head zero n out p h = (n - 1, out, rw (lt→ltb n 10 h) (small_cons n out p h), omega arith)
digits_of-head (suc f) n out p h = elim (Bool-cases (ltb n 10)) [
  | inl small ↦ (n - 1, out, rw small (small_cons n out p (ltb→lt n 10 small)), ground arith)
  | inr big ↦
      rw big
        (digits_of-head f (n / 10) ((b'0' + n % 10) ∷ out) (ground arith) (tenth-lt (suc f) n h))
]

-- A first digit other than 0 means base 10, no sign and no white space.
scan_signed-nonzero :
    (d : ℕ) (t : Bytes)
    → d < 9
    → scan_signed 0 ((b'1' + d) ∷ t) ≡ (false, scan_base 10 ((b'1' + d) ∷ t))
unfolding scan_signed scan_prefixed
scan_signed-nonzero d [] h = ground arith
scan_signed-nonzero d (x ∷ s) h = ground arith

pub skip_space-nonzero : (d : ℕ) (t : Bytes) → d < 9 → skip_space ((b'1' + d) ∷ t) ≡ (b'1' + d) ∷ t
unfolding skip_space is_space
skip_space-nonzero d t h = ground arith

pub digit_one : (d : ℕ) (t : Bytes) → d < 9 → first_is_digit 10 ((b'1' + d) ∷ t) ≡ true
unfolding first_is_digit digit_value
digit_one d t h = ground arith

scan_base-decimal :
    (n d : ℕ) (t : Bytes)
    → d < 9
    → scan_digits 10 0 ((b'1' + d) ∷ t) ≡ (n, [])
    → n < 2 ^ 64
    → ulong_of (false, scan_base 10 ((b'1' + d) ∷ t)) ≡ ok n
unfolding ulong_of scan_base is_nil
scan_base-decimal n d t h e fits = rw (e, digit_one d t h) (ground arith)

pub minus_one : (d : ℕ) (t : Bytes) → d < 9 → starts_with_minus ((b'1' + d) ∷ t) ≡ false
unfolding starts_with_minus
minus_one d t h = ground arith

ulong-decimal_head :
    (n d : ℕ) (t : Bytes)
    → d < 9
    → scan_digits 10 0 ((b'1' + d) ∷ t) ≡ (n, [])
    → n < 2 ^ 64
    → lxc_safe_ulong ((b'1' + d) ∷ t) ≡ ok n
unfolding lxc_safe_ulong strtoul_checked
ulong-decimal_head n d t h e fits =
    rw
      (
        skip_space-nonzero d t h,
        minus_one d t h,
        skip_space-nonzero d t h,
        scan_signed-nonzero d t h,
      )
      (scan_base-decimal n d t h e fits)

-- lxc_safe_ulong reads every number of type unsigned long back from its print in decimal.
pub safe_ulong-decimal : (n : ℕ) → n < 2 ^ 64 → lxc_safe_ulong (decimal n) ≡ ok n
unfolding decimal
safe_ulong-decimal zero h =
    unfold digits_of lxc_safe_ulong strtoul_checked skip_space is_space starts_with_minus
      scan_signed scan_prefixed scan_base scan_digits first_is_digit digit_value ulong_of is_nil in
    refl
safe_ulong-decimal (suc n) h =
    let (d, t, e, small) = digits_of-head 19 (suc n) [] (omega arith) (omega arith) in
    rw e (
      ulong-decimal_head (suc n) d t small
        ((rw e at (scan-digits_of 19 (suc n) [] (omega arith))) ∙ unfold scan_digits in refl) h)
