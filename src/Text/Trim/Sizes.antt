-- ===== src/Text/Trim/Sizes.antt =====
-- A size in decimal with a unit, read by parse_byte_size_string.
use lxc.Base.{
  ℕ, zero, suc, ◌+◌, ◌-◌, ◌*◌, ◌/◌, ◌%◌, ◌^◌, ◌≤◌, ◌<◌, ◌≡◌, refl, ap, ◌∙◌, sym, Bytes, [], ◌∷◌,
  ◌++◌, true, false, ◌||◌, ◌==◌, ltb, Bool-cases, inl, inr, length, length-append, append_assoc,
  get_or, take, codes, ok, err, erange, pos, ℤ, Result, if◌then◌else◌, arith,
}
use native.Mathlib.Nat.{pow-suc}
use lxc.Text.Decimal.{digits_of, decimal}
use lxc.Text.Decimal.Limits.{parsers-decimal}
use lxc.Text.Number.{lxc_safe_long_long}
use lxc.Text.Trim.{
  lxc_char_right_gc, is_right_blank, is_digit, is_alpha, to_lower, from_end, suffix_len, multiplier,
  mul_checked, convert, parse_byte_size_string,
}

-- The last digit.
digits_of-last :
    (f n : ℕ) (out : Bytes)
    → (pre : Bytes) × (digits_of (suc f) n out ≡ pre ++ (b'0' + n % 10) ∷ out)
unfolding digits_of
digits_of-last zero n out = ([], ground arith)
digits_of-last (suc f) n out = elim (Bool-cases (ltb n 10)) [
  | inl small ↦ ([], rw small refl)
  | inr big ↦
      let ih = digits_of-last f (n / 10) ((b'0' + n % 10) ∷ out) in
      (
        ih.0 ++ (b'0' + (n / 10) % 10) ∷ [],
        rw big
            (ih.1 ∙ sym (append_assoc ih.0 ((b'0' + (n / 10) % 10) ∷ []) ((b'0' + n % 10) ∷ out))),
      )
]

digits_of-length :
    (f k n : ℕ) (out : Bytes) → n < 10 ^ suc k → length (digits_of f n out) ≤ suc k + length out
unfolding digits_of
digits_of-length zero k n out h = omega arith
digits_of-length (suc f) zero n out h =
    let small : ltb n 10 ≡ true = ground arith in rw small (omega arith)
digits_of-length (suc f) (suc k) n out h = elim (Bool-cases (ltb n 10)) [
  | inl small ↦ rw small (omega arith)
  | inr big ↦ rw big (
      omega (
        arith,
        digits_of-length f k (n / 10) ((b'0' + n % 10) ∷ out)
            (omega (arith, pow-suc 10 (suc k), h)),
      ))
]

-- A text that ends in a digit.
record IsNumeral (t : Bytes) : Type 0 where
  front : Bytes
  digit : ℕ
  digit_small : digit < 10
  is_text : t ≡ front ++ (b'0' + digit) ∷ []
  short : length t ≤ 19

decimal-IsNumeral : (n : ℕ) → n < 10 ^ 19 → IsNumeral (decimal n)
unfolding decimal
decimal-IsNumeral n h =
    let last = digits_of-last 19 n [] in
    record {
      front = last.0;
      digit = n % 10;
      digit_small = omega arith;
      is_text = last.1;
      short = omega (arith, digits_of-length 20 18 n [] h);
    }

get_or-at : (t s : Bytes) (c : ℕ) → get_or (t ++ c ∷ s) (length t) 0 ≡ c
get_or-at [] s c = refl
get_or-at (d ∷ t) s c = get_or-at t s c

get_or-next : (t : Bytes) (a b : ℕ) → get_or (t ++ a ∷ b ∷ []) (suc (length t)) 0 ≡ b
get_or-next [] a b = refl
get_or-next (d ∷ t) a b = get_or-next t a b

take-front : (t s : Bytes) → take (length t) (t ++ s) ≡ t
take-front [] [] = refl
take-front [] (c ∷ s) = refl
take-front (c ∷ t) s = ap (λ r. c ∷ r) (take-front t s)

take-all : (t : Bytes) → take (length t) t ≡ t
take-all [] = refl
take-all (c ∷ t) = ap (λ r. c ∷ r) (take-all t)

digit-not_blank : (d : ℕ) → d < 10 → is_right_blank (b'0' + d) ≡ false
unfolding is_right_blank
digit-not_blank d h = ground arith

right_gc-numeral : (t : Bytes) → IsNumeral t → lxc_char_right_gc t (length t) ≡ length t
unfolding lxc_char_right_gc
right_gc-numeral t r =
    let len : length t ≡ suc (length r.front) =
      rw r.is_text (omega (arith, length-append r.front ((b'0' + r.digit) ∷ []))) in
    let last : get_or t (length r.front) 0 ≡ b'0' + r.digit =
      rw r.is_text (get_or-at r.front [] (b'0' + r.digit)) in
    rw (len, last, digit-not_blank r.digit r.digit_small) refl

-- What is multiplied, in the range of long long.
abbrev pub scaled : ℕ → ℕ → Result ℤ
scaled n m = if ltb (n * m) (2 ^ 63) then ok (pos (n * m)) else err erange

multiple_mono : (n w m : ℕ) → w ≤ m → n * w ≤ n * m
multiple_mono n w m h = grind arith

module _ (n : ℕ) (h : n < 10 ^ 19) where
  long_long-decimal :
      lxc_safe_long_long (decimal n) ≡ (if ltb n (2 ^ 63) then ok (pos n) else err erange)
  unfolding lxc_safe_long_long
  long_long-decimal = (parsers-decimal n (omega (arith, h))).2

  module _ (a b m : ℕ) (letters : (is_alpha a ≡ true) × (is_alpha b ≡ true) × (is_digit b ≡ false))
      (unit : multiplier a b ≡ ok m) (positive : 0 < m) where
    text : Bytes
    text = decimal n

    sized : Bytes
    unfolding text
    sized = text ++ a ∷ b ∷ []

    sized-length : length sized ≡ suc (suc (length text))
    unfolding sized
    sized-length = omega (arith, length-append text (a ∷ b ∷ []))

    sized-from_end : (from_end sized 1 ≡ b) × (from_end sized 2 ≡ a)
    unfolding sized from_end
    sized-from_end =
        let one : length (text ++ a ∷ b ∷ []) - 1 ≡ suc (length text) =
          omega (arith, sized-length) in
        let two : length (text ++ a ∷ b ∷ []) - 2 ≡ length text = omega (arith, sized-length) in
        (rw one (get_or-next text a b), rw two (get_or-at text (b ∷ []) a))

    text_length : (1 ≤ length text) × (length text ≤ 19)
    unfolding text
    text_length =
        let r = decimal-IsNumeral n h in
        (omega (arith, ap length r.is_text, length-append r.front ((b'0' + r.digit) ∷ [])), r.short)

    sized-suffix_len : suffix_len sized ≡ ok 2
    unfolding suffix_len
    sized-suffix_len =
        let one : (length sized == 1) ≡ false = ground (arith, sized-length, text_length) in
        let two : (length sized == 2) ≡ false = ground (arith, sized-length, text_length) in
        rw (sized-from_end.0, sized-from_end.1, letters.0, letters.1, letters.2, one, two) refl

    -- What is left in front of the unit.
    front-text :
        take
          (lxc_char_right_gc (take (length sized - 2) sized) (length sized - 2))
          (take (length sized - 2) sized)
        ≡ text
    unfolding text sized
    front-text =
        let len : length sized - 2 ≡ length text = omega (arith, sized-length) in
        let front : take (length text) sized ≡ text = take-front text (a ∷ b ∷ []) in
        rw (len, front, right_gc-numeral text (decimal-IsNumeral n h)) (take-all text)

    converted : convert sized 2 (pos n) ≡ scaled n m
    unfolding convert mul_checked
    converted = rw (sized-from_end.0, sized-from_end.1, unit) (ground arith)

    too_big : ltb n (2 ^ 63) ≡ false → scaled n m ≡ err erange
    too_big e = let more = multiple_mono n 1 m positive in ground (arith, more)

    parsed : parse_byte_size_string sized ≡ scaled n m
    unfolding parse_byte_size_string text
    parsed =
        let accepted : (length sized == 0 || ltb 21 (length sized)) ≡ false =
          ground (arith, sized-length, text_length) in
        elim (Bool-cases (ltb n (2 ^ 63))) [
          | inl fits ↦
              rw (accepted, sized-suffix_len, front-text, long_long-decimal, fits) converted
          | inr big ↦
              rw (accepted, sized-suffix_len, front-text, long_long-decimal, big)
                (sym (too_big big))
        ]

-- The units of a size.
kb_letters : (is_alpha b'k' ≡ true) × (is_alpha b'B' ≡ true) × (is_digit b'B' ≡ false)
unfolding is_alpha to_lower is_digit
kb_letters = (refl, refl, refl)

mb_letters : (is_alpha b'M' ≡ true) × (is_alpha b'B' ≡ true) × (is_digit b'B' ≡ false)
unfolding is_alpha to_lower is_digit
mb_letters = (refl, refl, refl)

gb_letters : (is_alpha b'G' ≡ true) × (is_alpha b'B' ≡ true) × (is_digit b'B' ≡ false)
unfolding is_alpha to_lower is_digit
gb_letters = (refl, refl, refl)

units :
    (multiplier b'k' b'B' ≡ ok 1024)
    × (multiplier b'M' b'B' ≡ ok (1024 * 1024))
    × (multiplier b'G' b'B' ≡ ok (1024 * 1024 * 1024))
unfolding multiplier to_lower
units = (refl, refl, refl)

-- A number below 10^19 in decimal, with one of the units kB, MB and GB right behind it, is read by
-- parse_byte_size_string as the number of bytes, where that is below 2^63, and is refused with ERANGE
-- where it is not.
pub byte_size-decimal :
    (n : ℕ)
    → n < 10 ^ 19
    → (parse_byte_size_string (decimal n ++ codes "kB") ≡ scaled n 1024)
      × (parse_byte_size_string (decimal n ++ codes "MB") ≡ scaled n (1024 * 1024))
      × (parse_byte_size_string (decimal n ++ codes "GB") ≡ scaled n (1024 * 1024 * 1024))
unfolding decimal sized
byte_size-decimal n h = (
  parsed n h b'k' b'B' 1024 kb_letters units.0 (omega arith),
  parsed n h b'M' b'B' (1024 * 1024) mb_letters units.1 (omega arith),
  parsed n h b'G' b'B' (1024 * 1024 * 1024) gb_letters units.2 (omega arith),
)
