-- ===== src/Devices/Rules/Add.antt =====
-- What bpf_list_add_device does to the set of effective rules and to the answers.
use lxc.Base.{ℕ, ◌≡◌, ◌∙◌, List, [], ◌∷◌, false, if◌then◌else◌, Option-cases, some, inl, inr, arith}
use lxc.Devices.Rules.{
  Device, BpfDevices, ListType, allowlist, denylist, is_global, same_rule, switch_existing,
  bpf_list_add_device, is_set,
}
use lxc.Devices.Rules.Active.{
  active, IsUnique, same_rule_iff, same_rule_refl, active_congr, device_add-is_effective,
  switch_none, switch_some, same_rule_allow,
}
use lxc.Devices.Machine.{is_effective}

module _ (t : ListType) (d : Device) where
  -- The rewritten rule keeps its key, and nothing behind it has that key.
  hit-IsUnique :
      (dev : Device) (r : List Device)
      → active t dev r ≡ false
      → active t (record dev { allow = d.allow }) r ≡ false
  hit-IsUnique dev r u =
      active_congr t (record dev { allow = d.allow }) dev r
        (same_rule_allow dev dev d.allow ∙ same_rule_refl dev)
      ∙ u

  switch-IsUnique :
      (ds : List Device) (v : ℕ) (ds' : List Device)
      → IsUnique t ds
      → switch_existing t d ds ≡ some (v, ds')
      → IsUnique t ds'
  unfolding switch_existing
  switch-IsUnique [] v ds' u h = cc
  switch-IsUnique (dev ∷ r) v ds' (u, us) h = elim (Option-cases (switch_existing t d r)) [
    | inl e ↦ ground (arith, device_add-is_effective t dev, hit-IsUnique dev r)
    | inr (x, e) ↦ ground (
      arith,
      device_add-is_effective t dev,
      hit-IsUnique dev r,
      switch-IsUnique r x.0 x.1 us e,
      switch_some t d dev r x.0 x.1 us e,
      same_rule_iff d dev,
      same_rule_iff dev d,
    )
  ]

unfoldable pub added : BpfDevices → Device → BpfDevices
added s d = (bpf_list_add_device s d).1

-- Adding any rule to a list where no two effective rules have the same key keeps it so.
pub list_add_device-IsUnique :
    (s : BpfDevices) (d : Device)
    → IsUnique s.list_type s.devices
    → IsUnique (added s d).list_type (added s d).devices
unfolding added bpf_list_add_device
list_add_device-IsUnique s d u = elim (Option-cases (switch_existing s.list_type d s.devices)) [
  | inl e ↦ ground (arith, switch_none s.list_type d s.devices e)
  | inr (x, e) ↦ ground (arith, switch-IsUnique s.list_type d s.devices x.0 x.1 u e)
]

-- In a list where no two effective rules have the same key, a rule for all devices sets the list type
-- and empties the list. After any other rule the set of effective keys is as before, but that the
-- rule's own key is in it exactly if the rule is effective; the list type stays.
pub list_add_device-active :
    (s : BpfDevices) (d k : Device)
    → IsUnique s.list_type s.devices
    → ((added s d).list_type
        ≡ (if is_global d then (if is_set d.allow then denylist else allowlist) else s.list_type))
      × (active (added s d).list_type k (added s d).devices ≡ (
          if is_global d
          then false
          else if same_rule d k
          then is_effective s.list_type d
          else active s.list_type k s.devices))
unfolding added bpf_list_add_device
list_add_device-active s d k u = elim (Option-cases (switch_existing s.list_type d s.devices)) [
  | inl e ↦
      ground (arith, switch_none s.list_type d s.devices e, active_congr s.list_type d k s.devices)
  | inr (x, e) ↦ ground (arith, switch_some s.list_type d k s.devices x.0 x.1 u e)
]
