-- ===== src/Text/Trim/Bounds.antt =====
-- What is left of a string behind trimming, and the range of a size.
use lxc.Base.{
  ℕ, zero, suc, ◌-◌, ◌*◌, ◌^◌, ◌≤◌, ◌<◌, ◌≡◌, ℤ, pos, negsuc, Bytes, Bool, true, false, ◌||◌, ◌==◌,
  ltb, Bool-cases, inl, inr, length, get_or, OnOk, OnOk->>=, OnOk-true, OnOk-intro, arith,
}
use lxc.Text.Number.{lxc_safe_long_long, lxc_safe_long}
use lxc.Text.Number.Bounds.{FitsSigned, long_of-FitsSigned}
use lxc.Text.Trim.{
  is_right_blank, lxc_char_right_gc, parse_byte_size_string, suffix_len, convert, multiplier,
  mul_checked, from_end,
}

-- All bytes from `i` up to `n` are blank.
abbrev pub Blank : (ℕ → Bool) → Bytes → ℕ → ℕ → Type 0
Blank is_blank buffer i n = (j : ℕ) → i ≤ j → j < n → is_blank (get_or buffer j 0) ≡ true

Blank-last :
    (p : ℕ → Bool) (buffer : Bytes) (i n : ℕ)
    → Blank p buffer i n
    → p (get_or buffer n 0) ≡ true
    → Blank p buffer i (suc n)
Blank-last p buffer i n h e j low high = elim (Bool-cases (j == n)) [
  | inl same ↦ ground arith
  | inr other ↦ h j low (ground arith)
]

-- All bytes from `gc` up to `n` are blank, and the one in front of `gc`, if any, is not.
pub record IsCut (buffer : Bytes) (n gc : ℕ) : Type 0 where
  pub within : gc ≤ n
  pub blank : Blank is_right_blank buffer gc n
  pub last : 0 < gc → is_right_blank (get_or buffer (gc - 1) 0) ≡ false

suc_pred : (n : ℕ) → suc n - 1 ≡ n
suc_pred n = omega arith

-- lxc_char_right_gc cuts a buffer of `n` bytes behind the last byte that is not blank; where all are
-- blank, it yields 0.
right_gc-IsCut : (buffer : Bytes) (n : ℕ) → IsCut buffer n (lxc_char_right_gc buffer n)
unfolding lxc_char_right_gc
right_gc-IsCut buffer zero = record {
  within = omega arith;
  blank = λ j low high. absurd (omega (arith, high));
  last = λ h. absurd (omega (arith, h));
}
right_gc-IsCut buffer (suc n) =
    let ih = right_gc-IsCut buffer n in
    elim (Bool-cases (is_right_blank (get_or buffer n 0))) [
      | inl e ↦ rw e (record {
        within = omega (arith, ih.within);
        blank = Blank-last is_right_blank buffer _ n ih.blank e;
        last = ih.last;
      })
      | inr e ↦ rw e (record {
        within = omega arith;
        blank = λ j low high. absurd (omega (arith, low, high));
        last = λ h. rw (suc_pred n) e;
      })
    ]

mul_checked-FitsSigned : (v : ℤ) (m : ℕ) → OnOk (FitsSigned (2 ^ 63)) (mul_checked v m)
unfolding mul_checked
mul_checked-FitsSigned (pos n) m = elim (Bool-cases (ltb (2 ^ 63 - 1) (n * m))) [
  | inl big ↦ rw big tt
  | inr fits ↦ rw fits (ground arith)
]
mul_checked-FitsSigned (negsuc n) m = elim (Bool-cases (ltb (2 ^ 63) (suc n * m))) [
  | inl big ↦ rw big tt
  | inr fits ↦ rw fits (ground arith)
]

convert-FitsSigned :
    (s : Bytes) (len : ℕ) (v : ℤ)
    → FitsSigned (2 ^ 63) v
    → OnOk (FitsSigned (2 ^ 63)) (convert s len v)
unfolding convert
convert-FitsSigned s len v h = elim (Bool-cases (len == 2)) [
  | inl two ↦ rw two (
      OnOk->>= _ _ (multiplier (from_end s 2) (from_end s 1)) _
        (OnOk-true (multiplier (from_end s 2) (from_end s 1)))
        (λ m unit. mul_checked-FitsSigned v m))
  | inr other ↦ rw other h
]

long_long-FitsSigned : (s : Bytes) → OnOk (FitsSigned (2 ^ 63)) (lxc_safe_long_long s)
unfolding lxc_safe_long_long lxc_safe_long
long_long-FitsSigned s = OnOk-intro _ _ (λ v e. long_of-FitsSigned _ v e)

-- A size that parse_byte_size_string accepts is of type long long, behind the multiplication by the
-- unit too.
parse_byte_size_string-FitsSigned :
    (s : Bytes) → OnOk (FitsSigned (2 ^ 63)) (parse_byte_size_string s)
unfolding parse_byte_size_string
parse_byte_size_string-FitsSigned s = elim (Bool-cases (length s == 0 || ltb 21 (length s))) [
  | inl bad ↦ rw bad tt
  | inr good ↦ rw good (
      OnOk->>= _ _ (suffix_len s) _ (OnOk-true (suffix_len s)) (λ len unit.
        OnOk->>= _ _ _ _ (long_long-FitsSigned _) (λ v h. convert-FitsSigned s len v h)))
]
