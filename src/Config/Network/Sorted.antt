-- ===== src/Config/Network/Sorted.antt =====
-- The list of network devices as a map from indices.
use lxc.Base.{
  ℕ, ◌<◌, ◌≡◌, refl, ap, sym, ◌∙◌, List, [], ◌∷◌, Option, none, some, Bool, true, false, ◌==◌,
  ==_iff, ltb, if◌then◌else◌, Bool-cases, inl, inr, ◌⊎◌, ◌&&◌, All, arith,
}
use lxc.Config.Network.{Netdev, new_netdev, lxc_get_netdev_by_idx, lxc_remove_nic_by_idx}

-- Each index is above all in front of it.
abbrev pub IsSorted : List Netdev → Type 0
IsSorted [] = Unit
IsSorted (d ∷ r) = All (λ (e : Netdev). d.idx < e.idx) r × IsSorted r

-- The device with an index, wherever it is.
abbrev pub lookup : List Netdev → ℕ → Option Netdev
lookup [] idx = none
lookup (d ∷ r) idx = if d.idx == idx then some d else lookup r idx

-- All indices are above a number.
abbrev pub Above : ℕ → List Netdev → Type 0
Above i netdevs = All (λ (e : Netdev). i < e.idx) netdevs

pub Above-weak : (i j : ℕ) (r : List Netdev) → i < j → Above j r → Above i r
Above-weak i j [] h a = tt
Above-weak i j (d ∷ r) h (x, a) = (omega (arith, x), Above-weak i j r h a)

pub lookup-Above : (i : ℕ) (r : List Netdev) → Above i r → lookup r i ≡ none
lookup-Above i [] a = refl
lookup-Above i (d ∷ r) (x, a) = ground (arith, lookup-Above i r a)

pub order-cases :
    (a b : ℕ)
    → ((a == b) ≡ true)
      ⊎ (((a == b) ≡ false) × (ltb b a ≡ true) ⊎ ((a == b) ≡ false) × (ltb b a ≡ false))
order-cases a b = elim (Bool-cases (a == b)) [
  | inl e ↦ inl e
  | inr n ↦ elim (Bool-cases (ltb b a)) [ inl l ↦ inr (inl (n, l)) | inr g ↦ inr (inr (n, g)) ]
]

pub before-lt : (a b : ℕ) → ltb b a ≡ true → b < a
before-lt a b h = ground arith

pub after-lt : (a b : ℕ) → (a == b) ≡ false → ltb b a ≡ false → a < b
after-lt a b n h = ground arith

get-Above :
    (i idx : ℕ) (r : List Netdev) (allocate : Bool)
    → i < idx
    → Above i r
    → Above i (lxc_get_netdev_by_idx r idx allocate).1
unfolding lxc_get_netdev_by_idx new_netdev
get-Above i idx [] false h a = tt
get-Above i idx [] true h a = (h, tt)
get-Above i idx (d ∷ r) allocate h (x, a) = elim (order-cases d.idx idx) [
  | inl same ↦ rw same (x, a)
  | inr (inl (n, before)) ↦
      rw (n, before) (elim (Bool-cases allocate) [ inl e ↦ rw e (h, (x, a)) | inr e ↦ rw e (x, a) ])
  | inr (inr (n, after)) ↦ rw (n, after) (x, get-Above i idx r allocate h a)
]

-- Looking a device up in a sorted list, and adding one where there is none, keeps it sorted.
pub get-IsSorted :
    (r : List Netdev) (idx : ℕ) (allocate : Bool)
    → IsSorted r
    → IsSorted (lxc_get_netdev_by_idx r idx allocate).1
unfolding lxc_get_netdev_by_idx new_netdev
get-IsSorted [] idx false h = tt
get-IsSorted [] idx true h = (tt, tt)
get-IsSorted (d ∷ r) idx allocate (a, s) = elim (order-cases d.idx idx) [
  | inl same ↦ rw same (a, s)
  | inr (inl (n, before)) ↦
      let lt = before-lt d.idx idx before in
      rw (n, before)
        (elim (Bool-cases allocate) [
          | inl e ↦ rw e ((lt, Above-weak idx d.idx r lt a), (a, s))
          | inr e ↦ rw e (a, s)
        ])
  | inr (inr (n, after)) ↦
      rw (n, after)
        (
          get-Above d.idx idx r allocate (after-lt d.idx idx n after) a,
          get-IsSorted r idx allocate s,
        )
]

-- A device that is there, or a new one.
abbrev pub or_new : Option Netdev → Bool → ℕ → Option Netdev
or_new (some d) add idx = some d
or_new none add idx = if add then some (new_netdev idx) else none

other_new :
    (idx i : ℕ) (r : List Netdev)
    → lookup (new_netdev idx ∷ r) i ≡ (if idx == i then some (new_netdev idx) else lookup r i)
unfolding new_netdev
other_new idx i r = refl

get-lookup_empty :
    (idx i : ℕ) (allocate : Bool)
    → lookup (lxc_get_netdev_by_idx [] idx allocate).1 i ≡ or_new none (i == idx && allocate) idx
unfolding lxc_get_netdev_by_idx
get-lookup_empty idx i allocate = elim (Bool-cases allocate) [
  | inl e ↦ rw (e, other_new idx i []) (ground arith)
  | inr e ↦ rw e (ground arith)
]

or_new-keep :
    (o : Option Netdev) (i idx : ℕ) (allocate : Bool)
    → (i == idx && allocate) ≡ false
    → o ≡ or_new o (i == idx && allocate) idx
or_new-keep none i idx allocate h = rw h refl
or_new-keep (some d) i idx allocate h = refl

-- A new device in front of one with a larger index.
before-lookup :
    (d : Netdev) (r : List Netdev) (idx i : ℕ)
    → idx < d.idx
    → Above d.idx r
    → lookup (new_netdev idx ∷ d ∷ r) i ≡ or_new (lookup (d ∷ r) i) (i == idx && true) idx
before-lookup d r idx i lt a = elim (Bool-cases (idx == i)) [
  | inl e ↦
      let none' = lookup-Above idx (d ∷ r) (lt, Above-weak idx d.idx r lt a) in
      let same = (==_iff idx i).0 e in
      other_new idx i (d ∷ r) ∙ rw (e, sym (ap (lookup (d ∷ r)) same) ∙ none') (ground arith)
  | inr n ↦
      other_new idx i (d ∷ r) ∙ rw n (or_new-keep (lookup (d ∷ r) i) i idx true (ground arith))
]

here-lookup :
    (d : Netdev) (r : List Netdev) (idx i : ℕ) (allocate : Bool)
    → (d.idx == idx) ≡ true
    → lookup (d ∷ r) i ≡ or_new (lookup (d ∷ r) i) (i == idx && allocate) idx
here-lookup d r idx i allocate same = elim (Bool-cases (d.idx == i)) [
  | inl e ↦ rw e refl
  | inr n ↦ or_new-keep (lookup (d ∷ r) i) i idx allocate (ground arith)
]

after-lookup :
    (d : Netdev) (r more : List Netdev) (idx i : ℕ) (allocate : Bool)
    → lookup more i ≡ or_new (lookup r i) (i == idx && allocate) idx
    → lookup (d ∷ more) i ≡ or_new (lookup (d ∷ r) i) (i == idx && allocate) idx
after-lookup d r more idx i allocate h = elim (Bool-cases (d.idx == i)) [
  | inl e ↦ rw e refl
  | inr n ↦ rw n h
]

-- Behind a look-up in a sorted list, each index has the device that it had; the index that was looked
-- up has a new one where it had none and a device was to be allocated.
pub get-lookup :
    (r : List Netdev) (idx i : ℕ) (allocate : Bool)
    → IsSorted r
    → lookup (lxc_get_netdev_by_idx r idx allocate).1 i
      ≡ or_new (lookup r i) (i == idx && allocate) idx
unfolding lxc_get_netdev_by_idx
get-lookup [] idx i allocate h = get-lookup_empty idx i allocate
get-lookup (d ∷ r) idx i allocate (a, s) = elim (order-cases d.idx idx) [
  | inl same ↦ rw same (here-lookup d r idx i allocate same)
  | inr (inl (n, before)) ↦ elim (Bool-cases allocate) [
    | inl e ↦ rw (n, before, e) (before-lookup d r idx i (before-lt d.idx idx before) a)
    | inr e ↦ rw (n, before, e) (or_new-keep (lookup (d ∷ r) i) i idx false (ground arith))
  ]
  | inr (inr (n, after)) ↦
      rw (n, after)
        (after-lookup d r (lxc_get_netdev_by_idx r idx allocate).1 idx i allocate
          (get-lookup r idx i allocate s))
]

-- Behind the removal of an index from a sorted list that index has no device, and every other index
-- has the one that it had.
pub remove-lookup :
    (r : List Netdev) (idx i : ℕ)
    → IsSorted r
    → lookup (lxc_remove_nic_by_idx r idx).1 i ≡ (if i == idx then none else lookup r i)
unfolding lxc_remove_nic_by_idx
remove-lookup [] idx i h = ground arith
remove-lookup (d ∷ r) idx i (a, s) = elim (Bool-cases (d.idx == idx)) [
  | inl same ↦ rw same (elim (Bool-cases (i == idx)) [
    | inl e ↦ rw e (ap (lookup r) (ground arith) ∙ lookup-Above d.idx r a)
    | inr n ↦ ground arith
  ])
  | inr other ↦ rw other (elim (Bool-cases (d.idx == i)) [
    | inl e ↦ ground arith
    | inr n ↦ rw n (remove-lookup r idx i s)
  ])
]

-- For a list of devices that is sorted by index: behind a look-up it is sorted, and each index has
-- the device that it had, but for the index that was looked up, which has a new one where it had
-- none and a device was to be allocated; behind the removal of an index that index has no device,
-- and every other index has the one that it had.
pub netdevs-lookup :
    (r : List Netdev) (idx i : ℕ) (allocate : Bool)
    → IsSorted r
    → IsSorted (lxc_get_netdev_by_idx r idx allocate).1
      × (lookup (lxc_get_netdev_by_idx r idx allocate).1 i
          ≡ or_new (lookup r i) (i == idx && allocate) idx)
      × (lookup (lxc_remove_nic_by_idx r idx).1 i ≡ (if i == idx then none else lookup r i))
netdevs-lookup r idx i allocate h =
    (get-IsSorted r idx allocate h, get-lookup r idx i allocate h, remove-lookup r idx i h)
