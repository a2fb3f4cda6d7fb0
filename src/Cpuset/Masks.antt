-- ===== src/Cpuset/Masks.antt =====
-- lxc_cpumask_update: when a bit of the mask is cleared.
use lxc.Base.{
  ℕ, zero, suc, ◌+◌, ◌-◌, ◌≡◌, refl, sym, List, [], ◌∷◌, Bool, true, false, ◌||◌, not, ltb, leb,
  if◌then◌else◌, Bool-cases, inl, inr, arith,
}
use mathlib.Core.Bool.{false≢true}
use lxc.Cpuset.{Mask, update_range, update_token, update_loop}

-- One of the `n` bits from `first` on is set.
unfoldable pub has_bit : ℕ → ℕ → Mask → Bool
has_bit zero first m = false
has_bit (suc n) first m = m.is_set first || has_bit n (first + 1) m

-- A range that is in order and lies in the array has a bit of the mask.
unfoldable pub in_mask : ℕ × ℕ → ℕ → Mask → Bool
unfolding has_bit
in_mask (first, last) last_set_bit m =
    if not (leb first last)
    then false
    else if ltb last_set_bit last
    then false
    else has_bit (last + 1 - first) first m

-- Some range does.
unfoldable pub any_bit : List (ℕ × ℕ) → ℕ → Mask → Bool
unfolding in_mask
any_bit [] last_set_bit m = false
any_bit (r ∷ rs) last_set_bit m = in_mask r last_set_bit m || any_bit rs last_set_bit m

update_range-true : (n first : ℕ) (m : Mask) → (update_range n first true (true, m)).0 ≡ true
unfolding update_range
update_range-true zero first m = refl
update_range-true (suc n) first m = elim (Bool-cases (m.is_set first)) [
  | inl e ↦ rw (e, update_range) (update_range-true n (first + 1) _)
  | inr e ↦ rw (e, update_range) (update_range-true n (first + 1) m)
]

update_range-has_bit :
    (n first : ℕ) (m : Mask)
    → has_bit n first m ≡ true
    → (update_range n first true (false, m)).0 ≡ true
unfolding update_range has_bit
update_range-has_bit zero first m h = ground arith
update_range-has_bit (suc n) first m h = elim (Bool-cases (m.is_set first)) [
  | inl e ↦ rw (e, update_range) (update_range-true n (first + 1) _)
  | inr e ↦ rw (e, update_range) (update_range-has_bit n (first + 1) m (rw e at h))
]

update_range-kept :
    (n first : ℕ) (f : Bool) (m : Mask)
    → has_bit n first m ≡ false
    → update_range n first true (f, m) ≡ (f, m)
unfolding update_range has_bit
update_range-kept zero first f m h = refl
update_range-kept (suc n) first f m h = elim (Bool-cases (m.is_set first)) [
  | inl e ↦ ground arith
  | inr e ↦ rw (e, update_range) (update_range-kept n (first + 1) f m (rw e at h))
]

update_token-true :
    (r : ℕ × ℕ) (last_set_bit : ℕ) (s : Bool × Mask)
    → s.0 ≡ true
    → (update_token r last_set_bit true s).0 ≡ true
unfolding update_token
update_token-true (first, last) n (false, m) h = absurd (false≢true h)
update_token-true (first, last) n (true, m) h = elim (Bool-cases (leb first last)) [
  | inl e ↦ elim (Bool-cases (ltb n last)) [
    | inl i ↦ rw (e, i) refl
    | inr i ↦ rw (e, i) (update_range-true (last + 1 - first) first m)
  ]
  | inr e ↦ rw e refl
]

update_token-in_mask :
    (r : ℕ × ℕ) (last_set_bit : ℕ) (m : Mask)
    → in_mask r last_set_bit m ≡ true
    → (update_token r last_set_bit true (false, m)).0 ≡ true
unfolding update_token in_mask
update_token-in_mask (first, last) n m h = elim (Bool-cases (leb first last)) [
  | inl e ↦ elim (Bool-cases (ltb n last)) [
    | inl i ↦ absurd (false≢true (rw (e, i) at h))
    | inr i ↦ rw (e, i) (update_range-has_bit (last + 1 - first) first m (rw (e, i) at h))
  ]
  | inr e ↦ absurd (false≢true (rw e at h))
]

update_token-kept :
    (r : ℕ × ℕ) (last_set_bit : ℕ) (f : Bool) (m : Mask)
    → in_mask r last_set_bit m ≡ false
    → update_token r last_set_bit true (f, m) ≡ (f, m)
unfolding update_token in_mask
update_token-kept (first, last) n f m h = elim (Bool-cases (leb first last)) [
  | inl e ↦ elim (Bool-cases (ltb n last)) [
    | inl i ↦ rw (e, i) refl
    | inr i ↦ rw (e, i) (update_range-kept (last + 1 - first) first f m (rw (e, i) at h))
  ]
  | inr e ↦ rw e refl
]

pub update_loop-true :
    (rs : List (ℕ × ℕ)) (last_set_bit : ℕ) (s : Bool × Mask)
    → s.0 ≡ true
    → (update_loop rs last_set_bit true s).0 ≡ true
unfolding update_loop
update_loop-true [] n s h = h
update_loop-true (r ∷ rs) n s h =
    update_loop-true rs n (update_token r n true s) (update_token-true r n s h)

pub update_loop-any_bit :
    (rs : List (ℕ × ℕ)) (last_set_bit : ℕ) (m : Mask)
    → any_bit rs last_set_bit m ≡ true
    → (update_loop rs last_set_bit true (false, m)).0 ≡ true
unfolding update_loop any_bit
update_loop-any_bit [] n m h = ground arith
update_loop-any_bit (r ∷ rs) n m h = elim (Bool-cases (in_mask r n m)) [
  | inl e ↦ update_loop-true rs n (update_token r n true (false, m)) (update_token-in_mask r n m e)
  | inr e ↦
      rw (update_loop, update_token-kept r n false m e) (update_loop-any_bit rs n m (rw e at h))
]

pub update_loop-kept :
    (rs : List (ℕ × ℕ)) (last_set_bit : ℕ) (f : Bool) (m : Mask)
    → any_bit rs last_set_bit m ≡ false
    → update_loop rs last_set_bit true (f, m) ≡ (f, m)
unfolding update_loop any_bit
update_loop-kept [] n f m h = refl
update_loop-kept (r ∷ rs) n f m h = elim (Bool-cases (in_mask r n m)) [
  | inl e ↦ absurd (false≢true (sym (rw e at h)))
  | inr e ↦ rw (update_token-kept r n f m e) (update_loop-kept rs n f m (rw e at h))
]
