-- ===== src/State/Names.antt =====
-- The names of the states.
use lxc.Base.{
  ℕ, zero, suc, ◌+◌, ◌-◌, ◌≤◌, ◌<◌, ◌≡◌, refl, ap, ◌∙◌, pos, pos_part, Bytes, List, [], ◌∷◌, false,
  ltb, Bool-cases, inl, inr, get_or, arith, length,
}
use lxc.Text.Compare.{strequal, strequal_iff}
use lxc.State.{strstate, lxc_state2str, find_state, lxc_str2state, max_state}

-- lxc_str2state reads the name that lxc_state2str has for a state.
state2str-str2state : (n : ℕ) → n < max_state → lxc_str2state (lxc_state2str (pos n)) ≡ pos n
unfolding lxc_str2state lxc_state2str strstate find_state strequal
state2str-str2state zero h = refl
state2str-str2state (suc zero) h = refl
state2str-str2state (suc (suc zero)) h = refl
state2str-str2state (suc (suc (suc zero))) h = refl
state2str-str2state (suc (suc (suc (suc zero)))) h = refl
state2str-str2state (suc (suc (suc (suc (suc zero))))) h = refl
state2str-str2state (suc (suc (suc (suc (suc (suc zero)))))) h = refl
state2str-str2state (suc (suc (suc (suc (suc (suc (suc zero))))))) h = refl
state2str-str2state (suc (suc (suc (suc (suc (suc (suc (suc n)))))))) h = absurd (omega (arith, h))

index_lem : (i j : ℕ) → suc i ≤ j → j - i ≡ suc (j - suc i)
index_lem i j h = omega arith

get_or-behind :
    (x : Bytes) (names : List Bytes) (i j : ℕ)
    → suc i ≤ j
    → get_or (x ∷ names) (j - i) [] ≡ get_or names (j - suc i) []
get_or-behind x names i j h = rw (index_lem i j h) refl

pos-same : (i j : ℕ) → pos i ≡ pos j → i ≡ j
pos-same i j h = ap pos_part h

sub_self : (i j : ℕ) → i ≡ j → j - i ≡ 0
sub_self i j h = omega (arith, h)

get_or-here :
    (x : Bytes) (names : List Bytes) (s : Bytes) (i j : ℕ)
    → i ≡ j
    → x ≡ s
    → get_or (x ∷ names) (j - i) [] ≡ s
get_or-here x names s i j h e = rw (sub_self i j h) e

find_state-name :
    (i : ℕ) (names : List Bytes) (s : Bytes) (j : ℕ)
    → find_state i names s ≡ pos j
    → (i ≤ j) × (j < i + length names) × (get_or names (j - i) [] ≡ s)
unfolding find_state
find_state-name i [] s j h = ground arith
find_state-name i (x ∷ names) s j h = elim (Bool-cases (strequal x s)) [
  | inl e ↦
      let same = pos-same i j (rw (e, find_state) at h) in
      (
        omega (arith, same),
        omega (arith, same),
        get_or-here x names s i j same ((strequal_iff x s).0 e),
      )
  | inr e ↦
      let (low, high, same) = find_state-name (suc i) names s j (rw (e, find_state) at h) in
      (omega (arith, low), omega (arith, high), get_or-behind x names i j low ∙ same)
]

eight : length strstate ≡ 8
unfolding strstate
eight = refl

at_most : (n : ℕ) → n < 8 → ltb 7 n ≡ false
at_most n h = ground arith

sub_zero : (n : ℕ) → n ≡ n - 0
sub_zero n = omega arith

-- lxc_str2state accepts nothing but the names that lxc_state2str has for the states.
str2state-state2str :
    (s : Bytes) (n : ℕ) → lxc_str2state s ≡ pos n → (n < max_state) × (lxc_state2str (pos n) ≡ s)
unfolding lxc_str2state lxc_state2str
str2state-state2str s n h =
    let (low, high, same) = find_state-name 0 strstate s n h in
    (
      omega (arith, high, eight),
      rw (at_most n (omega (arith, high, eight)))
          (ap (λ i. get_or strstate i []) (sub_zero n) ∙ same),
    )

-- The name that lxc_state2str has for a state is read back as that state by lxc_str2state, which
-- accepts nothing but these names.
pub names_round_trip :
    (m n : ℕ) (s : Bytes)
    → m < max_state
    → lxc_str2state s ≡ pos n
    → (lxc_str2state (lxc_state2str (pos m)) ≡ pos m)
      × (n < max_state)
      × (lxc_state2str (pos n) ≡ s)
names_round_trip m n s h e =
    let (known, same) = str2state-state2str s n e in (state2str-str2state m h, known, same)
