-- ===== src/Config/Subkeys/Devices.antt =====
-- The device of an index, and the list behind a change of it.
use lxc.Base.{
  ℕ, ◌≡◌, refl, ap, sym, ◌∙◌, List, [], ◌∷◌, Option, none, some, Bool, true, false, ◌==◌, ==_iff,
  eq_self, if◌then◌else◌, Bool-cases, inl, inr, some-injective, none-ne-some, arith,
}
use mathlib.Core.Path.{subst}
use lxc.Config.Network.{Netdev, new_netdev, lxc_get_netdev_by_idx}
use lxc.Config.Network.Sorted.{
  IsSorted, lookup, Above, Above-weak, lookup-Above, order-cases, before-lt, or_new, get-lookup,
}
use lxc.Config.Subkeys.{replace_netdev}

-- The device with an index, or the one that is added for it.
abbrev pub or_fresh : Option Netdev → ℕ → Netdev
or_fresh none idx = new_netdev idx
or_fresh (some d) idx = d

abbrev pub device_at : List Netdev → ℕ → Netdev
device_at r idx = or_fresh (lookup r idx) idx

-- What is found is in the list behind the look-up.
get-found :
    (r : List Netdev) (idx : ℕ) (allocate : Bool)
    → IsSorted r
    → (lxc_get_netdev_by_idx r idx allocate).0 ≡ lookup (lxc_get_netdev_by_idx r idx allocate).1 idx
unfolding lxc_get_netdev_by_idx new_netdev
get-found [] idx false s = refl
get-found [] idx true s = rw (eq_self idx) refl
get-found (d ∷ r) idx allocate (a, s) = elim (order-cases d.idx idx) [
  | inl same ↦ rw (same, same) refl
  | inr (inl (n, before)) ↦
      let lt = before-lt d.idx idx before in
      rw (n, before)
        (elim (Bool-cases allocate) [
          | inl e ↦ rw (e, eq_self idx) refl
          | inr e ↦ rw (e, n) (sym (lookup-Above idx r (Above-weak idx d.idx r lt a)))
        ])
  | inr (inr (n, after)) ↦ rw (n, after, n) (get-found r idx allocate s)
]

pub or_new-fresh : (o : Option Netdev) (idx : ℕ) → or_new o true idx ≡ some (or_fresh o idx)
or_new-fresh none idx = refl
or_new-fresh (some d) idx = refl

-- Where a device may be allocated, the device of the index is found.
pub get-device_at :
    (r : List Netdev) (idx : ℕ)
    → IsSorted r
    → ((lxc_get_netdev_by_idx r idx true).0 ≡ some (device_at r idx))
      × (lookup (lxc_get_netdev_by_idx r idx true).1 idx ≡ some (device_at r idx))
get-device_at r idx s =
    let there : lookup (lxc_get_netdev_by_idx r idx true).1 idx ≡ some (device_at r idx) =
      get-lookup r idx idx true s ∙ rw (eq_self idx) (or_new-fresh (lookup r idx) idx) in
    (get-found r idx true s ∙ there, there)

pub lookup-idx : (r : List Netdev) (i : ℕ) (d : Netdev) → lookup r i ≡ some d → d.idx ≡ i
lookup-idx [] i d e = absurd (none-ne-some d e)
lookup-idx (x ∷ r) i d e = elim (Bool-cases (x.idx == i)) [
  | inl t ↦ ap (λ y. y.idx) (sym (some-injective x d (rw t at e))) ∙ (==_iff x.idx i).0 t
  | inr f ↦ lookup-idx r i d (rw f at e)
]

pub replace-lookup :
    (r : List Netdev) (idx i : ℕ) (d x : Netdev)
    → x.idx ≡ idx
    → lookup r idx ≡ some d
    → lookup (replace_netdev idx x r) i ≡ (if i == idx then some x else lookup r i)
unfolding replace_netdev
replace-lookup [] idx i d x p e = absurd (none-ne-some d e)
replace-lookup (y ∷ r) idx i d x p e = elim (Bool-cases (y.idx == idx)) [
  | inl t ↦ rw t (ground arith)
  | inr f ↦
      rw (f, replace-lookup r idx i d x p (rw f at e))
        (elim (Bool-cases (y.idx == i)) [ inl k ↦ ground arith | inr k ↦ rw k refl ])
]

replace-Above :
    (j idx : ℕ) (r : List Netdev) (x : Netdev)
    → x.idx ≡ idx
    → Above j r
    → Above j (replace_netdev idx x r)
unfolding replace_netdev
replace-Above j idx [] x p a = tt
replace-Above j idx (y ∷ r) x p (lt, a) = elim (Bool-cases (y.idx == idx)) [
  | inl t ↦ rw t (ground arith, a)
  | inr f ↦ rw f (lt, replace-Above j idx r x p a)
]

pub replace-IsSorted :
    (idx : ℕ) (r : List Netdev) (x : Netdev)
    → x.idx ≡ idx
    → IsSorted r
    → IsSorted (replace_netdev idx x r)
unfolding replace_netdev
replace-IsSorted idx [] x p s = tt
replace-IsSorted idx (y ∷ r) x p (a, s) = elim (Bool-cases (y.idx == idx)) [
  | inl t ↦ rw t (subst (λ k. Above k r) ((==_iff y.idx idx).0 t ∙ sym p) a, s)
  | inr f ↦ rw f (replace-Above y.idx idx r x p a, replace-IsSorted idx r x p s)
]
