-- ===== src/UserNic/Words.antt =====
-- The words of a line, and its end.
use lxc.Base.{
  and_assoc, ℕ, suc, ◌≡◌, refl, sym, ap, ◌∙◌, Bytes, [], ◌∷◌, ◌++◌, Bool, true, false, ◌&&◌, ◌||◌,
  ◌==◌, length, All, arith,
}
use mathlib.Core.Bool.{false≢true}
use lxc.Text.Number.{is_nil}
use lxc.Text.Compare.{strequal, begins_with}
use lxc.Text.Split.{is_blank, skip_blank}
use lxc.UserNic.{ends_line, ends_word, get_eol, get_eow, line_at, word_at}

-- Not empty, and without blanks, ends of line and zero bytes.
abbrev pub IsWord : Bytes → Type 0
IsWord w = All (λ c. ends_word c ≡ false) w × (is_nil w ≡ false)

pub get_eow-word :
    (w : Bytes) (x : ℕ) (r : Bytes)
    → All (λ c. ends_word c ≡ false) w
    → ends_word x ≡ true
    → get_eow (w ++ x ∷ r) ≡ x ∷ r
unfolding get_eow
get_eow-word [] x r h e = rw e refl
get_eow-word (c ∷ w) x r (h, hs) e = rw h (get_eow-word w x r hs e)

pub word_at-word :
    (w : Bytes) (x : ℕ) (r : Bytes)
    → All (λ c. ends_word c ≡ false) w
    → ends_word x ≡ true
    → word_at (w ++ x ∷ r) ≡ w
unfolding word_at
word_at-word [] x r h e = rw e refl
word_at-word (c ∷ w) x r (h, hs) e = rw h (ap (λ t. c ∷ t) (word_at-word w x r hs e))

pub get_eol-line :
    (t r : Bytes) → All (λ c. ends_line c ≡ false) t → get_eol (t ++ b'\n' ∷ r) ≡ b'\n' ∷ r
unfolding get_eol
get_eol-line [] r h = refl
get_eol-line (c ∷ t) r (h, hs) = rw h (get_eol-line t r hs)

pub line_at-line : (t r : Bytes) → All (λ c. ends_line c ≡ false) t → line_at (t ++ b'\n' ∷ r) ≡ t
unfolding line_at
line_at-line [] r h = refl
line_at-line (c ∷ t) r (h, hs) = rw h (ap (λ s. c ∷ s) (line_at-line t r hs))

pub not_blank : (a b : Bool) → (a || b) ≡ false → b ≡ false
not_blank a b h = ground arith

pub no_end : (a b : Bool) → (a || b) ≡ false → a ≡ false
no_end a b h = ground arith

pub skip_blank-word : (w r : Bytes) → IsWord w → skip_blank (w ++ r) ≡ w ++ r
unfolding skip_blank is_nil
skip_blank-word [] r (h, n) = absurd (false≢true (sym n))
skip_blank-word (c ∷ w) r ((h, hs), n) = rw (not_blank (ends_line c) (is_blank c) h) refl

pub word-no_end : (w : Bytes) → All (λ c. ends_word c ≡ false) w → All (λ c. ends_line c ≡ false) w
word-no_end [] h = tt
word-no_end (c ∷ w) (h, hs) = (no_end (ends_line c) (is_blank c) h, word-no_end w hs)

pub All-append :
    (s t : Bytes)
    → All (λ c. ends_line c ≡ false) s
    → All (λ c. ends_line c ≡ false) t
    → All (λ c. ends_line c ≡ false) (s ++ t)
All-append [] t h k = k
All-append (c ∷ s) t (h, hs) k = (h, All-append s t hs k)

pub suc_eq : (a b : ℕ) → (suc a == suc b) ≡ (a == b)
suc_eq a b = ground arith

pub eq_comm : (a b : ℕ) → (a == b) ≡ (b == a)
eq_comm a b = ground arith

pub and_false : (a : Bool) → (a && false) ≡ false
and_false true = refl
and_false false = refl

pub suc_ne : (a : ℕ) → (suc a == 0) ≡ false
suc_ne a = ground arith

pub ne_suc : (a : ℕ) → (0 == suc a) ≡ false
ne_suc a = ground arith

-- The comparison of find_line with the name is equality of strings.
pub owner-strequal :
    (name w r : Bytes) (x : ℕ)
    → (begins_with (w ++ x ∷ r) name && length name == length w) ≡ strequal name w
unfolding begins_with strequal
owner-strequal [] [] r x = refl
owner-strequal [] (c ∷ w) r x = ne_suc (length w)
owner-strequal (d ∷ name) [] r x =
    ap (λ b. begins_with (x ∷ r) (d ∷ name) && b) (suc_ne (length name))
    ∙ and_false (begins_with (x ∷ r) (d ∷ name))
owner-strequal (d ∷ name) (c ∷ w) r x =
    ap (λ b. ((c == d) && begins_with (w ++ x ∷ r) name) && b) (suc_eq (length name) (length w))
    ∙ and_assoc (c == d) (begins_with (w ++ x ∷ r) name) (length name == length w)
    ∙ ap (λ b. (c == d) && b) (owner-strequal name w r x)
    ∙ ap (λ b. b && strequal name w) (eq_comm c d)
