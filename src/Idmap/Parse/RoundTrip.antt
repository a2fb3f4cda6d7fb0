-- ===== src/Idmap/Parse/RoundTrip.antt =====
-- parse_idmaps reads an entry back from its print.
use lxc.Base.{
  ℕ, ◌<◌, ◌^◌, ◌≡◌, refl, sym, ◌∙◌, ◌⊎◌, Bytes, [], ◌∷◌, ◌++◌, All, append-nil, true, false, not,
  ◌&&◌, ◌==◌, ok, arith,
}
use mathlib.Core.Bool.{false≢true}
use lxc.Text.Decimal.{decimal}
use lxc.Text.Decimal.RoundTrip.{safe_ulong-decimal, IsDigit, digits_of-IsDigit, digits_of-ne-nil}
use lxc.Idmap.Parse.{
  skip, until, is_blank, is_end, parse_inner, parse_last, next_number, Entry, parse_numbers,
  parse_idmaps, numbers, print_entry,
}

-- A token: digits only, and at least one.
abbrev IsToken : Bytes → Type 0
IsToken t = All IsDigit t × (is_end t ≡ false)

decimal-IsToken : (n : ℕ) → IsToken (decimal n)
unfolding decimal
decimal-IsToken n = let (d, t, e) = digits_of-ne-nil 19 n [] in (digits_of-IsDigit 20 n [] tt, rw e)

digit-not-blank : (c : ℕ) → IsDigit c → is_blank c ≡ false
unfolding is_blank
digit-not-blank c h = ground arith

until-blank :
    (t : Bytes) (b : ℕ) (rest : Bytes)
    → All IsDigit t
    → is_blank b ≡ true
    → until is_blank (t ++ b ∷ rest) ≡ (t, b ∷ rest)
unfolding until
until-blank [] b rest h e = ground arith
until-blank (c ∷ t) b rest (hc, ht) e = rw (digit-not-blank c hc, until-blank t b rest ht e)

until-end : (t : Bytes) → All IsDigit t → until is_blank t ≡ (t, [])
unfolding until
until-end [] h = refl
until-end (c ∷ t) (hc, ht) = rw (digit-not-blank c hc, until-end t ht)

-- Blanks in front of a token are skipped, and nothing of it.
skip-token : (t rest : Bytes) → IsToken t → skip is_blank (t ++ rest) ≡ t ++ rest
unfolding skip
skip-token [] rest (h, e) = absurd (false≢true (sym e))
skip-token (c ∷ t) rest ((hc, ht), e) = rw (digit-not-blank c hc)

is_end-token : (t rest : Bytes) → IsToken t → is_end (t ++ rest) ≡ false
is_end-token [] rest (h, e) = absurd (false≢true (sym e))
is_end-token (c ∷ t) rest h = refl

space_blank : is_blank b' ' ≡ true
unfolding is_blank
space_blank = refl

parse_inner-decimal :
    (n : ℕ) (rest : Bytes) → n < 2 ^ 64 → parse_inner (decimal n ++ b' ' ∷ rest) ≡ ok (n, rest)
unfolding parse_inner
parse_inner-decimal n rest h =
    let (digits, filled) = decimal-IsToken n in
    rw (until-blank (decimal n) b' ' rest digits space_blank, filled, safe_ulong-decimal n h)

parse_last-decimal : (n : ℕ) → n < 2 ^ 64 → parse_last (decimal n) ≡ ok n
unfolding parse_last skip
parse_last-decimal n h =
    let (digits, filled) = decimal-IsToken n in
    rw (until-end (decimal n) digits, filled) (safe_ulong-decimal n h)

next_number-decimal :
    (n : ℕ) (rest : Bytes) → next_number (decimal n ++ rest) ≡ ok (decimal n ++ rest)
unfolding next_number
next_number-decimal n rest = rw (
  skip-token (decimal n) rest (decimal-IsToken n),
  is_end-token (decimal n) rest (decimal-IsToken n),
)

skip-blank :
    (c : ℕ) (rest : Bytes) → is_blank c ≡ true → skip is_blank (c ∷ rest) ≡ skip is_blank rest
unfolding skip
skip-blank c rest h = rw h refl

-- Blanks in front of the first number.
skip-space : (n : ℕ) (rest : Bytes) → skip is_blank (b' ' ∷ (decimal n ++ rest)) ≡ decimal n ++ rest
skip-space n rest =
    skip-blank b' ' (decimal n ++ rest) space_blank
    ∙ skip-token (decimal n) rest (decimal-IsToken n)

parse_numbers-print :
    (e : Entry)
    → e.nsid < 2 ^ 64
    → e.hostid < 2 ^ 64
    → e.range < 2 ^ 64
    → parse_numbers e.type (numbers e) ≡ ok e
unfolding parse_numbers
parse_numbers-print e a b c =
    rw
      (
        space_blank,
        skip-space e.nsid,
        parse_inner-decimal e.nsid (decimal e.hostid ++ b' ' ∷ (decimal e.range ++ [])) a,
        next_number-decimal e.hostid,
        parse_inner-decimal e.hostid (decimal e.range ++ []) b,
        next_number-decimal e.range,
        append-nil (decimal e.range),
        parse_last-decimal e.range c,
      )
      refl

letter_not_blank : (c : ℕ) → (c ≡ b'u') ⊎ (c ≡ b'g') → is_blank c ≡ false
unfolding is_blank
letter_not_blank c h = ground arith

known_letter : (c : ℕ) → (c ≡ b'u') ⊎ (c ≡ b'g') → (not (c == b'u') && not (c == b'g')) ≡ false
known_letter c h = ground arith

skip-letter : (c : ℕ) (rest : Bytes) → (c ≡ b'u') ⊎ (c ≡ b'g') → skip is_blank (c ∷ rest) ≡ c ∷ rest
unfolding skip
skip-letter c rest h = rw (letter_not_blank c h)

-- An entry of type `u` or `g` whose numbers are of type unsigned long is read back from its print.
pub parse_idmaps-print :
    (e : Entry)
    → (e.type ≡ b'u') ⊎ (e.type ≡ b'g')
    → e.nsid < 2 ^ 64
    → e.hostid < 2 ^ 64
    → e.range < 2 ^ 64
    → parse_idmaps (print_entry e) ≡ ok e
unfolding parse_idmaps print_entry
parse_idmaps-print e t a b c =
    rw (skip-letter e.type (numbers e) t, letter_not_blank e.type t, known_letter e.type t)
      (parse_numbers-print e a b c)
