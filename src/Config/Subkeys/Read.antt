-- ===== src/Config/Subkeys/Read.antt =====
-- Which index and which subkey are read from a key.
use lxc.Base.{
  ℕ, zero, suc, ◌+◌, ◌-◌, ◌%◌, ◌/◌, ◌^◌, ◌<◌, ◌≡◌, refl, sym, ◌∙◌, pos, Bytes, codes, [], ◌∷◌, ◌++◌,
  true, false, ◌==◌, ltb, leb, Bool-cases, inl, inr, some, length, ok, arith,
}
use lxc.Text.Compare.{begins_with, is_empty_string}
use lxc.Text.Decimal.{digits_of, decimal}
use lxc.Text.Decimal.RoundTrip.{IsDigit, scan-digits_of}
use lxc.Text.Number.{
  scan_digits, digit_value, first_is_digit, scan_base, scan_prefixed, scan_signed, skip_space,
  is_space, int64_of, residual_of, lxc_safe_int64_residual,
}
use lxc.Text.Trim.{is_digit}
use lxc.Config.Subkeys.{network_subkey_size_max, starts_with_digit, index_and_rest}

-- The key of a device, with what follows the index.
abbrev pub device_key : ℕ → Bytes → Bytes
device_key n rest = codes "lxc.net." ++ (decimal n ++ rest)

digits_of-append :
    (f n : ℕ) (out rest : Bytes) → digits_of f n (out ++ rest) ≡ digits_of f n out ++ rest
unfolding digits_of
digits_of-append zero n out rest = refl
digits_of-append (suc f) n out rest = elim (Bool-cases (ltb n 10)) [
  | inl small ↦ rw small refl
  | inr big ↦ rw big (digits_of-append f (n / 10) ((b'0' + n % 10) ∷ out) rest)
]

pub digits_of-first :
    (f n : ℕ) (out : Bytes) → (d : ℕ) × (t : Bytes) × (digits_of (suc f) n out ≡ d ∷ t) × IsDigit d
unfolding digits_of
digits_of-first zero n out = (b'0' + n % 10, out, ground arith, (omega arith, omega arith))
digits_of-first (suc f) n out = elim (Bool-cases (ltb n 10)) [
  | inl small ↦ (b'0' + n % 10, out, rw small refl, (omega arith, omega arith))
  | inr big ↦ rw big (digits_of-first f (n / 10) ((b'0' + n % 10) ∷ out))
]

-- What does not continue a number.
abbrev pub IsBehind : Bytes → Type 0
IsBehind [] = Unit
IsBehind (c ∷ s) = ltb (digit_value c) 10 ≡ false

scan_digits-end : (n : ℕ) (rest : Bytes) → IsBehind rest → scan_digits 10 n rest ≡ (n, rest)
unfolding scan_digits
scan_digits-end n [] b = refl
scan_digits-end n (c ∷ s) b = rw b refl

digit-read : (d : ℕ) → IsDigit d → ltb (digit_value d) 10 ≡ true
unfolding digit_value
digit-read d h = ground arith

digit-not_space : (d : ℕ) → IsDigit d → is_space d ≡ false
unfolding is_space
digit-not_space d h = ground arith

digit-not_sign : (d : ℕ) → IsDigit d → ((d == b'-') ≡ false) × ((d == b'+') ≡ false)
digit-not_sign d h = ground arith

-- In base 10 a text that begins with a digit has no prefix and no sign.
scan_signed-digit :
    (d : ℕ) (t : Bytes) → IsDigit d → scan_signed 10 (d ∷ t) ≡ (false, scan_base 10 (d ∷ t))
unfolding scan_signed scan_prefixed
scan_signed-digit d [] h = let s = digit-not_sign d h in rw (s.0, s.1) refl
scan_signed-digit d (x ∷ t) h =
    let s = digit-not_sign d h in
    rw (s.0, s.1) (elim (Bool-cases (d == b'0')) [ inl e ↦ rw e refl | inr e ↦ rw e refl ])

scanned :
    (n d : ℕ) (t rest : Bytes)
    → IsDigit d
    → scan_digits 10 0 (d ∷ t) ≡ (n, rest)
    → scan_signed 10 (skip_space (d ∷ t))
      ≡ (false, record { found = true; magnitude = n; rest = rest })
unfolding skip_space scan_base first_is_digit
scanned n d t rest h e =
    rw (digit-not_space d h, scan_signed-digit d t h) (rw (digit-read d h, e) refl)

fits-check : (n : ℕ) → n < 2 ^ 63 → ltb (2 ^ 63 - 1) n ≡ false
fits-check n h = ground arith

residual-short :
    (len : ℕ) (rest : Bytes) → length rest < len → residual_of (some len) rest ≡ ok rest
unfolding residual_of
residual-short len [] h = refl
residual-short len (c ∷ s) h =
    let short : leb len (length (c ∷ s)) ≡ false = ground arith in rw short refl

not_empty_buffer : (len n : ℕ) → n < len → (len == 0) ≡ false
not_empty_buffer len n h = ground arith

-- The digits in front of what does not continue them.
decimal-first :
    (n : ℕ) (rest : Bytes)
    → n < 10 ^ 20
    → IsBehind rest
    → (d : ℕ) × (t : Bytes) × (decimal n ++ rest ≡ d ∷ t)
      × IsDigit d
      × (scan_digits 10 0 (d ∷ t) ≡ (n, rest))
unfolding decimal
decimal-first n rest lt b =
    let (d, t, e, h) = digits_of-first 19 n rest in
    let scan = scan-digits_of 19 n rest lt ∙ scan_digits-end n rest b in
    (d, t, sym (digits_of-append 20 n [] rest) ∙ e, h, rw e at scan)

pub residual-decimal :
    (n len : ℕ) (rest : Bytes)
    → n < 2 ^ 63
    → IsBehind rest
    → length rest < len
    → lxc_safe_int64_residual (decimal n ++ rest) 10 (some len) ≡ ok (pos n, rest)
unfolding lxc_safe_int64_residual int64_of
residual-decimal n len rest fits b short =
    let (d, t, e, h, scan) = decimal-first n rest (omega arith) b in
    rw
      (
        e,
        scanned n d t rest h scan,
        not_empty_buffer len (length rest) short,
        fits-check n fits,
        residual-short len rest short,
      )
      refl

digit-first : (d : ℕ) → IsDigit d → is_digit d ≡ true
unfolding is_digit
digit-first d h = ground arith

pub starts_with_digit-key : (n : ℕ) (rest : Bytes) → starts_with_digit (decimal n ++ rest) ≡ true
unfolding decimal
starts_with_digit-key n rest =
    let (d, t, e, h) = digits_of-first 19 n rest in
    rw (sym (digits_of-append 20 n [] rest) ∙ e, digit-first d h) refl

index_small : (n : ℕ) → n < 2 ^ 31 - 1 → leb (2 ^ 31 - 1) n ≡ false
index_small n h = ground arith

-- The index and what is behind it.
pub index_and_rest-key :
    (n : ℕ) (rest : Bytes)
    → n < 2 ^ 31 - 1
    → IsBehind rest
    → length rest < network_subkey_size_max
    → index_and_rest (device_key n rest) ≡ ok (n, rest)
unfolding is_empty_string begins_with
index_and_rest-key n rest fits b short =
    rw
      (
        starts_with_digit-key n rest,
        residual-decimal n network_subkey_size_max rest (omega arith) b short,
        index_small n fits,
      )
      refl
