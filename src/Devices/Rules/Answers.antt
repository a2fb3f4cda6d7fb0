-- ===== src/Devices/Rules/Answers.antt =====
-- What bpf_list_add_device does to the answers of the program.
use lxc.Base.{
  ◌≡◌, refl, sym, ◌∙◌, ◌↔◌, List, [], ◌∷◌, Bool, true, false, not, ◌&&◌, ◌||◌, if◌then◌else◌,
  Bool-cases, inl, inr, arith,
}
use lxc.Devices.Rules.{
  Device, BpfDevices, ListType, allowlist, denylist, list_type_value, is_global, same_rule, is_set,
}
use lxc.Devices.Rules.Active.{active, IsUnique, same_rule_iff, same_rule_refl}
use lxc.Devices.Rules.Add.{added, list_add_device-active}
use lxc.Devices.Machine.{Request, covers, is_effective, decide}

-- Some effective rule covers the request.
abbrev pub acting : ListType → List Device → Request → Bool
acting t [] q = false
acting t (d ∷ r) q = is_effective t d && covers d q || acting t r q

-- What the program answers for a request, as a permission.
abbrev pub permits : BpfDevices → Request → Bool
permits s q = is_set (decide s.list_type s.devices q)

permits-allowlist :
    (ds : List Device) (q : Request) → is_set (decide allowlist ds q) ≡ acting allowlist ds q
unfolding list_type_value
permits-allowlist [] q = refl
permits-allowlist (d ∷ r) q = ground (arith, permits-allowlist r q)

permits-denylist :
    (ds : List Device) (q : Request) → is_set (decide denylist ds q) ≡ not (acting denylist ds q)
unfolding list_type_value
permits-denylist [] q = refl
permits-denylist (d ∷ r) q = ground (arith, permits-denylist r q)

covers_congr : (a b : Device) (q : Request) → same_rule a b ≡ true → covers a q ≡ covers b q
unfolding covers
covers_congr a b q h = let (t, x, y, z) = (same_rule_iff a b).0 h in rw (t, x, y, z)

module _ (t : ListType) (q : Request) where
  -- The requests that are acted on are those that an effective key covers.
  acting_key :
      (ds : List Device)
      → acting t ds q ≡ true
      → (k : Device) × (active t k ds ≡ true) × (covers k q ≡ true)
  acting_key [] h = cc
  acting_key (d ∷ r) h = elim (Bool-cases (is_effective t d && covers d q)) [
    | inl yes' ↦ (d, ground (arith, same_rule_refl d), ground arith)
    | inr no' ↦ let (k, a, c) = acting_key r (ground arith) in (k, ground arith, c)
  ]

  key_acting :
      (k : Device) (ds : List Device)
      → active t k ds ≡ true
      → covers k q ≡ true
      → acting t ds q ≡ true
  key_acting k [] a c = a
  key_acting k (d ∷ r) a c = ground (arith, covers_congr d k q, key_acting k r)

eq_of_iff : (a b : Bool) → (a ≡ true → b ≡ true) → (b ≡ true → a ≡ true) → a ≡ b
eq_of_iff true b f g = sym (f refl)
eq_of_iff false true f g = g refl
eq_of_iff false false f g = refl

module _ (s : BpfDevices) (d : Device) (q : Request) (u : IsUnique s.list_type s.devices)
    (g : is_global d ≡ false) where
  added-active :
      (k : Device)
      → active s.list_type k (added s d).devices
        ≡ (if same_rule d k then is_effective s.list_type d else active s.list_type k s.devices)
  added-active k = let (t, a) = list_add_device-active s d k u in rw g at (rw (rw g at t) at a)

  added-list_type : (added s d).list_type ≡ s.list_type
  added-list_type = rw g at (list_add_device-active s d d u).0

  -- The keys that act behind an added rule.
  added-acting : (acting s.list_type (added s d).devices q ≡ true) ↔ (
      (k : Device) × ((if same_rule d k
          then is_effective s.list_type d
          else active s.list_type k s.devices)
        ≡ true)
      × (covers k q ≡ true))
  added-acting = (
    λ h.
        let (k, a, c) = acting_key s.list_type q (added s d).devices h in
        (k, sym (added-active k) ∙ a, c),
    λ (k, a, c). key_acting s.list_type q k (added s d).devices (added-active k ∙ a) c,
  )

  added-acting_effective :
      is_effective s.list_type d ≡ true
      → acting s.list_type (added s d).devices q ≡ (covers d q || acting s.list_type s.devices q)
  added-acting_effective e =
      eq_of_iff _ _
        (λ h.
          let (k, a, c) = added-acting.0 h in
          ground (arith, covers_congr d k q, key_acting s.list_type q k s.devices))
        (λ h. elim (Bool-cases (covers d q)) [
          | inl yes' ↦ added-acting.1 (d, rw (same_rule_refl d) e, yes')
          | inr no' ↦
              let (k, a, c) = acting_key s.list_type q s.devices (ground arith) in
              added-acting.1 (k, ground arith, c)
        ])

  added-acting_inert :
      is_effective s.list_type d ≡ false
      → (acting s.list_type (added s d).devices q ≡ true) ↔ (
          (k : Device) × (same_rule d k ≡ false)
          × (active s.list_type k s.devices ≡ true)
          × (covers k q ≡ true))
  added-acting_inert e = (
    λ h. let (k, a, c) = added-acting.0 h in (k, ground arith, ground arith, c),
    λ (k, n, a, c). added-acting.1 (k, rw n a, c),
  )

-- Under an allowlist with distinct effective keys, an allow rule that is not the one for all devices
-- permits, besides what was permitted, exactly what it covers.
pub list_add_device-allow :
    (s : BpfDevices) (d : Device) (q : Request)
    → IsUnique s.list_type s.devices
    → s.list_type ≡ allowlist
    → is_global d ≡ false
    → is_set d.allow ≡ true
    → permits (added s d) q ≡ (covers d q || permits s q)
list_add_device-allow s d q u t g a =
    rw (added-list_type s d q u g, t, permits-allowlist, permits-allowlist)
      (rw t at (added-acting_effective s d q u g (rw t a)))

-- Under an allowlist with distinct effective keys, a deny rule that is not the one for all devices
-- takes back exactly what only the allow rules with its key permit: a request is permitted behind it if and only if an effective rule with another key covers it.
pub list_add_device-deny :
    (s : BpfDevices) (d : Device) (q : Request)
    → IsUnique s.list_type s.devices
    → s.list_type ≡ allowlist
    → is_global d ≡ false
    → is_set d.allow ≡ false
    → (permits (added s d) q ≡ true) ↔ (
        (k : Device) × (same_rule d k ≡ false)
        × (active allowlist k s.devices ≡ true)
        × (covers k q ≡ true))
list_add_device-deny s d q u t g a =
    rw (added-list_type s d q u g, t, permits-allowlist)
      (rw t at (added-acting_inert s d q u g (rw t a)))

-- Under a denylist with distinct effective keys, a deny rule that is not the one for all devices
-- blocks, besides what was blocked, exactly what it covers.
pub list_add_device-block :
    (s : BpfDevices) (d : Device) (q : Request)
    → IsUnique s.list_type s.devices
    → s.list_type ≡ denylist
    → is_global d ≡ false
    → is_set d.allow ≡ false
    → permits (added s d) q ≡ (not (covers d q) && permits s q)
list_add_device-block s d q u t g a =
    rw
      (
        added-list_type s d q u g,
        t,
        permits-denylist,
        permits-denylist,
        rw t at (added-acting_effective s d q u g (rw (t, a))),
      )
      (ground arith)
