-- ===== src/Config/Unexpanded/Lines.antt =====
-- The configuration as it was written, as a list of lines.
use lxc.Base.{
  eq_swap, and_assoc, ℕ, zero, suc, ◌+◌, ◌-◌, ◌≤◌, ◌<◌, ◌≡◌, ◌⊎◌, refl, sym, ap, ◌∙◌, Bytes, List,
  [], ◌∷◌, ◌++◌, Bool, false, ◌&&◌, ◌||◌, ◌==◌, if◌then◌else◌, length, length-append, append_assoc,
  drop, any, any-cons, All, Bool-cases, inl, inr, arith,
}
use lxc.Text.Compare.{begins_with}
use lxc.Config.Unexpanded.{
  Unexpanded, line_at, line_end, ends_key, is_cleared, clear_lines, clear_unexp_config_line,
}

abbrev pub IsLine : Bytes → Type 0
IsLine line = All (λ c. (c == b'\n') ≡ false) line

or_false : (a b : Bool) → (a || b) ≡ false → (a ≡ false) × (b ≡ false)
or_false a b e = ground arith

-- A text without newlines is a line.
pub text-IsLine : (s : Bytes) → any (λ c. c == b'\n') s ≡ false → IsLine s
text-IsLine [] e = tt
text-IsLine (c ∷ s) e =
    let both =
      or_false (c == b'\n') (any (λ d. d == b'\n') s) (rw (any-cons (λ d. d == b'\n') c s) at e) in
    (both.0, text-IsLine s both.1)

abbrev pub unlines : List Bytes → Bytes
unlines [] = []
unlines (line ∷ lines) = line ++ b'\n' ∷ unlines lines

-- The lines that are not cleared.
unfoldable pub remaining : Bytes → Bool → List Bytes → List Bytes
unfolding is_cleared
remaining key rm_subkeys [] = []
remaining key rm_subkeys (line ∷ lines) =
    let rest = remaining key rm_subkeys lines in
    if is_cleared key rm_subkeys (line ++ b'\n' ∷ []) then rest else line ∷ rest

-- The text is that of the lines, and the terminating zero has its place.
pub record IsLines (lines : List Bytes) (conf : Unexpanded) : Type 0 where
  pub text : conf.text ≡ unlines lines
  pub len : conf.len ≡ length (unlines lines)
  pub whole : All IsLine lines
  pub room : (conf.len ≡ 0) ⊎ (conf.len < conf.alloced)

line_at-line :
    (line rest : Bytes) → IsLine line → line_at (line ++ b'\n' ∷ rest) ≡ line ++ b'\n' ∷ []
unfolding line_at
line_at-line [] rest i = refl
line_at-line (c ∷ line) rest (n, i) = rw n (ap (λ t. c ∷ t) (line_at-line line rest i))

line_end-line : (line rest : Bytes) → IsLine line → line_end (line ++ b'\n' ∷ rest) ≡ rest
unfolding line_end
line_end-line [] rest i = refl
line_end-line (c ∷ line) rest (n, i) = rw n (line_end-line line rest i)

-- What follows the line does not matter.
is_cleared-line :
    (key : Bytes) (rm_subkeys : Bool) (line rest : Bytes)
    → IsLine key
    → is_cleared key rm_subkeys (line ++ b'\n' ∷ rest)
      ≡ is_cleared key rm_subkeys (line ++ b'\n' ∷ [])
unfolding is_cleared begins_with
is_cleared-line [] rm_subkeys [] rest k = refl
is_cleared-line [] rm_subkeys (c ∷ line) rest k = refl
is_cleared-line (d ∷ key) rm_subkeys [] rest (n, k) = rw (eq_swap d b'\n' n) refl
is_cleared-line (d ∷ key) rm_subkeys (c ∷ line) rest (n, k) =
    let tail : Bytes → Bool =
      λ t. (rm_subkeys || ends_key (drop (length key) (line ++ b'\n' ∷ t))) in
    and_assoc (c == d) (begins_with (line ++ b'\n' ∷ rest) key) (tail rest)
    ∙ ap (λ b. (c == d) && b) (is_cleared-line key rm_subkeys line rest k)
    ∙ sym (and_assoc (c == d) (begins_with (line ++ b'\n' ∷ []) key) (tail []))

clear_lines-step :
    (fuel : ℕ) (key : Bytes) (rm_subkeys : Bool) (line rest : Bytes)
    → clear_lines (suc fuel) key rm_subkeys (line ++ b'\n' ∷ rest) ≡ (
        if is_cleared key rm_subkeys (line ++ b'\n' ∷ rest)
        then clear_lines fuel key rm_subkeys (line_end (line ++ b'\n' ∷ rest))
        else line_at (line ++ b'\n' ∷ rest)
          ++ clear_lines fuel key rm_subkeys (line_end (line ++ b'\n' ∷ rest)))
unfolding clear_lines
clear_lines-step fuel key rm_subkeys [] rest = refl
clear_lines-step fuel key rm_subkeys (c ∷ line) rest = refl

pub length-line :
    (line rest : Bytes) → length (line ++ b'\n' ∷ rest) ≡ length line + suc (length rest)
length-line line rest = length-append line (b'\n' ∷ rest)

clear_lines-remaining :
    (fuel : ℕ) (key : Bytes) (rm_subkeys : Bool) (lines : List Bytes)
    → IsLine key
    → All IsLine lines
    → length (unlines lines) ≤ fuel
    → clear_lines fuel key rm_subkeys (unlines lines) ≡ unlines (remaining key rm_subkeys lines)
unfolding remaining
clear_lines-remaining zero key rm_subkeys [] k a le = unfold clear_lines in refl
clear_lines-remaining (suc fuel) key rm_subkeys [] k a le = unfold clear_lines in refl
clear_lines-remaining zero key rm_subkeys (line ∷ lines) k a le =
    let l = length-line line (unlines lines) in absurd (omega arith)
clear_lines-remaining (suc fuel) key rm_subkeys (line ∷ lines) k (i, a) le =
    let l = length-line line (unlines lines) in
    let ih = clear_lines-remaining fuel key rm_subkeys lines k a (omega arith) in
    elim (Bool-cases (is_cleared key rm_subkeys (line ++ b'\n' ∷ []))) [
      | inl t ↦
          rw
            (
              clear_lines-step fuel key rm_subkeys line (unlines lines),
              is_cleared-line key rm_subkeys line (unlines lines) k,
              t,
              line_end-line line (unlines lines) i,
            )
            ih
      | inr f ↦
          rw
            (
              clear_lines-step fuel key rm_subkeys line (unlines lines),
              is_cleared-line key rm_subkeys line (unlines lines) k,
              f,
              line_end-line line (unlines lines) i,
              line_at-line line (unlines lines) i,
              ih,
            )
            (append_assoc line (b'\n' ∷ []) (unlines (remaining key rm_subkeys lines)))
    ]

remaining-length :
    (key : Bytes) (rm_subkeys : Bool) (lines : List Bytes)
    → length (unlines (remaining key rm_subkeys lines)) ≤ length (unlines lines)
unfolding remaining
remaining-length key rm_subkeys [] = omega arith
remaining-length key rm_subkeys (line ∷ lines) =
    let ih = remaining-length key rm_subkeys lines in
    let l = length-line line (unlines lines) in
    let l' = length-line line (unlines (remaining key rm_subkeys lines)) in
    elim (Bool-cases (is_cleared key rm_subkeys (line ++ b'\n' ∷ []))) [
      | inl t ↦ rw t (omega arith)
      | inr f ↦ rw f (omega arith)
    ]

remaining-All :
    (key : Bytes) (rm_subkeys : Bool) (lines : List Bytes)
    → All IsLine lines
    → All IsLine (remaining key rm_subkeys lines)
unfolding remaining
remaining-All key rm_subkeys [] a = tt
remaining-All key rm_subkeys (line ∷ lines) (i, a) =
    elim (Bool-cases (is_cleared key rm_subkeys (line ++ b'\n' ∷ []))) [
      | inl t ↦ rw t (remaining-All key rm_subkeys lines a)
      | inr f ↦ rw f (i, remaining-All key rm_subkeys lines a)
    ]

less_room : (n m alloced : ℕ) → m ≤ n → (n ≡ 0) ⊎ (n < alloced) → (m ≡ 0) ⊎ (m < alloced)
less_room n m alloced le (inl z) = inl (omega arith)
less_room n m alloced le (inr lt) = inr (omega arith)

minus_minus : (n m : ℕ) → m ≤ n → n - (n - m) ≡ m
minus_minus n m le = omega arith

-- For a text of lines and a key of one line: clear_unexp_config_line leaves the text of the lines that
-- are not for the key, and the length of that text.
pub clear-IsLines :
    (key : Bytes) (rm_subkeys : Bool) (lines : List Bytes) (conf : Unexpanded)
    → IsLine key
    → IsLines lines conf
    → IsLines (remaining key rm_subkeys lines) (clear_unexp_config_line key rm_subkeys conf)
unfolding clear_unexp_config_line
clear-IsLines key rm_subkeys lines conf k r =
    let le = remaining-length key rm_subkeys lines in
    let text : clear_lines (length conf.text) key rm_subkeys conf.text
        ≡ unlines (remaining key rm_subkeys lines) =
      rw r.text (
        clear_lines-remaining (length (unlines lines)) key rm_subkeys lines k r.whole
          (omega arith)) in
    let len : conf.len
          - (length conf.text - length (clear_lines (length conf.text) key rm_subkeys conf.text))
        ≡ length (unlines (remaining key rm_subkeys lines)) =
      rw (text, r.text, r.len)
        (minus_minus (length (unlines lines)) (length (unlines (remaining key rm_subkeys lines)))
          le) in
    record {
      text = text;
      len = len;
      whole = remaining-All key rm_subkeys lines r.whole;
      room = less_room conf.len _ conf.alloced (omega (arith, le, len, r.len)) r.room;
    }
