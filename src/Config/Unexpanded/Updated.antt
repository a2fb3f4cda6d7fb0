-- ===== src/Config/Unexpanded/Updated.antt =====
-- A line stays a line when random digits are put into it.
use lxc.Base.{
  ℕ, zero, suc, ◌-◌, ◌%◌, ◌≡◌, refl, Bytes, codes, List, [], ◌∷◌, ◌++◌, Bool, false, not, ◌||◌,
  ◌==◌, if◌then◌else◌, length, take, drop, get_or, Bool-cases, inl, inr,
}
use lxc.Text.Trim.{lxc_char_left_gc}
use lxc.Config.Unexpanded.{
  Unexpanded, hex_digit, rand_complete_hwaddr, complete_value, update_value, is_comment,
  update_hwaddr, append_unexp_config_line,
}
use lxc.Config.Unexpanded.Lines.{IsLine, IsLines, text-IsLine}
use lxc.Config.Unexpanded.Appended.{appended-IsLines}

get_or-All : (s : Bytes) (i : ℕ) → IsLine s → (get_or s i 0 == b'\n') ≡ false
get_or-All [] i a = refl
get_or-All (c ∷ s) zero (n, a) = n
get_or-All (c ∷ s) (suc i) (n, a) = get_or-All s i a

digits-IsLine : IsLine (codes "0123456789abcdef")
digits-IsLine = text-IsLine (codes "0123456789abcdef") refl

hex_digit-line : (rand : ℕ → ℕ) (i : ℕ) → (hex_digit rand i == b'\n') ≡ false
hex_digit-line rand i =
    get_or-All (codes "0123456789abcdef") (if i == 1 then rand i % 16 - rand i % 2 else rand i % 16)
      digits-IsLine

rand_complete-IsLine :
    (rand : ℕ → ℕ) (i : ℕ) (s : Bytes) → IsLine s → IsLine (rand_complete_hwaddr rand i s)
unfolding rand_complete_hwaddr
rand_complete-IsLine rand i [] a = tt
rand_complete-IsLine rand i (c ∷ s) (n, a) =
    let rest = rand_complete-IsLine rand (suc i) s a in
    elim (Bool-cases (c == b'x' || c == b'X')) [
      | inl t ↦ rw (n, t) (hex_digit-line rand i, rest)
      | inr f ↦ rw (n, f) (n, rest)
    ]

complete_value-IsLine : (rand : ℕ → ℕ) (s : Bytes) → IsLine s → IsLine (complete_value rand s)
unfolding complete_value
complete_value-IsLine rand [] a = tt
complete_value-IsLine rand (c ∷ s) (n, a) = elim (Bool-cases (c == b' ' || c == b'\t')) [
  | inl t ↦ rw t (n, complete_value-IsLine rand s a)
  | inr f ↦ rw f (rand_complete-IsLine rand 0 (c ∷ s) (n, a))
]

update_value-IsLine : (rand : ℕ → ℕ) (s : Bytes) → IsLine s → IsLine (update_value rand s)
unfolding update_value
update_value-IsLine rand [] a = tt
update_value-IsLine rand (c ∷ s) (n, a) = elim (Bool-cases (c == b'=')) [
  | inl t ↦ rw t (n, complete_value-IsLine rand s a)
  | inr f ↦ rw f (n, update_value-IsLine rand s a)
]

take-IsLine : (n : ℕ) (s : Bytes) → IsLine s → IsLine (take n s)
take-IsLine zero s a = tt
take-IsLine (suc n) [] a = tt
take-IsLine (suc n) (c ∷ s) (h, a) = (h, take-IsLine n s a)

drop-IsLine : (n : ℕ) (s : Bytes) → IsLine s → IsLine (drop n s)
drop-IsLine zero s a = a
drop-IsLine (suc n) [] a = tt
drop-IsLine (suc n) (c ∷ s) (h, a) = drop-IsLine n s a

pub append-IsLine : (s t : Bytes) → IsLine s → IsLine t → IsLine (s ++ t)
append-IsLine [] t a b = b
append-IsLine (c ∷ s) t (h, a) b = (h, append-IsLine s t a b)

update_hwaddr-IsLine :
    (is_hwaddr : Bytes → Bool) (rand : ℕ → ℕ) (text : Bytes)
    → IsLine text
    → IsLine (update_hwaddr is_hwaddr rand text)
unfolding update_hwaddr
update_hwaddr-IsLine is_hwaddr rand text a =
    let n = lxc_char_left_gc text (length text) in
    elim (Bool-cases (is_comment (drop n text) || not (is_hwaddr (drop n text)))) [
      | inl t ↦ rw t a
      | inr f ↦ rw f (
          append-IsLine (take n text) (update_value rand (drop n text)) (take-IsLine n text a)
            (update_value-IsLine rand (drop n text) (drop-IsLine n text a)))
    ]

-- For a text of lines, append_unexp_config_line adds the updated line behind them; all that it writes
-- is within what is allocated.
pub append-IsLines :
    (is_hwaddr : Bytes → Bool) (rand : ℕ → ℕ) (line : Bytes) (lines : List Bytes)
    (conf : Unexpanded)
    → IsLine line
    → IsLines lines conf
    → IsLines
        (lines ++ update_hwaddr is_hwaddr rand line ∷ [])
        (append_unexp_config_line is_hwaddr rand line conf)
unfolding append_unexp_config_line
append-IsLines is_hwaddr rand line lines conf i r =
    appended-IsLines (update_hwaddr is_hwaddr rand line) lines conf
      (update_hwaddr-IsLine is_hwaddr rand line i) r
