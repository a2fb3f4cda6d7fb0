-- ===== src/Devices/Rules/Active.antt =====
-- The list of rules as a set of keys: which rules act against the default of the list type.
use lxc.Base.{
  ℕ, ◌≡◌, refl, ◌↔◌, int_eq_iff, List, [], ◌∷◌, Bool, true, false, ◌&&◌, ◌||◌, if◌then◌else◌,
  Option-cases, none, some, inl, inr, arith,
}
use lxc.Text.Compare.{strequal_iff}
use lxc.Devices.Rules.{
  Device, ListType, allowlist, denylist, bpf_device_add, same_rule, switch_existing,
}
use lxc.Devices.Machine.{is_effective}

-- Two rules are for the same key.
abbrev pub SameKey : Device → Device → Type 0
SameKey a b = (a.type ≡ b.type) × (a.major ≡ b.major) × (a.minor ≡ b.minor) × (a.access ≡ b.access)

pub same_rule_iff : (a b : Device) → (same_rule a b ≡ true) ↔ SameKey a b
unfolding same_rule
same_rule_iff a b =
    ground (
      arith,
      int_eq_iff a.major b.major,
      int_eq_iff a.minor b.minor,
      strequal_iff a.access b.access,
    )

pub same_rule_refl : (a : Device) → same_rule a a ≡ true
same_rule_refl a = (same_rule_iff a a).1 (refl, refl, refl, refl)

-- Rules for one key are the same as any third.
pub same_rule_congr : (a b c : Device) → same_rule a b ≡ true → same_rule a c ≡ same_rule b c
same_rule_congr a b c h = ground (arith, same_rule_iff a b, same_rule_iff a c, same_rule_iff b c)

-- Some rule of the list with this key is effective.
abbrev pub active : ListType → Device → List Device → Bool
active t k [] = false
active t k (d ∷ r) = same_rule d k && is_effective t d || active t k r

-- No two effective rules have the same key.
abbrev pub IsUnique : ListType → List Device → Type 0
IsUnique t [] = Unit
IsUnique t (d ∷ r) = (is_effective t d ≡ true → active t d r ≡ false) × IsUnique t r

pub device_add-is_effective : (t : ListType) (d : Device) → bpf_device_add t d ≡ is_effective t d
unfolding bpf_device_add
device_add-is_effective allowlist d = ground arith
device_add-is_effective denylist d = ground arith

pub active_congr :
    (t : ListType) (a b : Device) (ds : List Device)
    → same_rule a b ≡ true
    → active t a ds ≡ active t b ds
active_congr t a b [] h = refl
active_congr t a b (d ∷ ds) h =
    ground (arith, same_rule_iff a b, same_rule_iff d a, same_rule_iff d b, active_congr t a b ds h)

-- What the loop leaves: the key of `d` is set to whether `d` is effective, the others are as before.
pub switch_none :
    (t : ListType) (d : Device) (ds : List Device)
    → switch_existing t d ds ≡ none
    → active t d ds ≡ false
unfolding switch_existing
switch_none t d [] h = refl
switch_none t d (dev ∷ r) h = ground (arith, device_add-is_effective t dev, switch_none t d r)

-- A rule whose flag is rewritten keeps its key.
pub same_rule_allow : (a k : Device) (x : ℕ) → same_rule (record a { allow = x }) k ≡ same_rule a k
unfolding same_rule
same_rule_allow a k x = refl

pub is_effective_allow :
    (t : ListType) (a d : Device) → is_effective t (record a { allow = d.allow }) ≡ is_effective t d
is_effective_allow allowlist a d = refl
is_effective_allow denylist a d = refl

is_effective_congr :
    (t : ListType) (a d : Device) → a.allow ≡ d.allow → is_effective t a ≡ is_effective t d
is_effective_congr allowlist a d h = rw h
is_effective_congr denylist a d h = rw h

module _ (t : ListType) (d k : Device) where
  switch_hit :
      (dev : Device) (r : List Device)
      → same_rule dev d ≡ true
      → is_effective t dev ≡ true
      → active t dev r ≡ false
      → (active t k (record dev { allow = d.allow } ∷ r)
          ≡ (if same_rule d k then is_effective t d else active t k (dev ∷ r)))
  switch_hit dev r s e u = ground (
    arith,
    same_rule_allow dev k d.allow,
    is_effective_allow t dev d,
    same_rule_congr dev d k s,
    active_congr t dev k r,
  )

  switch_kept :
      (dev : Device) (r : List Device)
      → same_rule dev d ≡ true
      → is_effective t dev ≡ true
      → dev.allow ≡ d.allow
      → active t k (dev ∷ r) ≡ (if same_rule d k then is_effective t d else active t k (dev ∷ r))
  switch_kept dev r s e a = ground (arith, is_effective_congr t dev d a, same_rule_congr dev d k s)

  switch_miss :
      (dev : Device) (r r' : List Device)
      → (same_rule dev d && is_effective t dev) ≡ false
      → active t k r' ≡ (if same_rule d k then is_effective t d else active t k r)
      → active t k (dev ∷ r') ≡ (if same_rule d k then is_effective t d else active t k (dev ∷ r))
  switch_miss dev r r' m ih =
      ground (arith, same_rule_iff dev d, same_rule_iff d k, same_rule_iff dev k)

  pub switch_some :
      (ds : List Device) (v : ℕ) (ds' : List Device)
      → IsUnique t ds
      → switch_existing t d ds ≡ some (v, ds')
      → active t k ds' ≡ (if same_rule d k then is_effective t d else active t k ds)
  unfolding switch_existing
  switch_some [] v ds' u h = cc
  switch_some (dev ∷ r) v ds' (u, us) h = elim (Option-cases (switch_existing t d r)) [
    | inl e ↦ ground (arith, device_add-is_effective t dev, switch_hit dev r, switch_kept dev r, e)
    | inr (x, e) ↦ ground (
      arith,
      device_add-is_effective t dev,
      switch_hit dev r,
      switch_kept dev r,
      e,
      switch_some r x.0 x.1 us,
      switch_miss dev r x.1,
    )
  ]
