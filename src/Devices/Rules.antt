-- ===== src/Devices/Rules.antt =====
-- The list of device rules: struct device_item and struct bpf_devices of src/lxc/conf.h, and
-- bpf_list_add_device of src/lxc/cgroups/cgroup2_devices.c.
pub mod Active
pub mod Add
pub mod Answers
use lxc.Base.{
  ℕ, ℤ, is_neg, int_eq, Bytes, List, [], ◌∷◌, Option, none, some, Bool, true, false, not, ◌&&◌,
  ◌==◌, if◌then◌else◌,
}
use lxc.Text.Compare.{strequal, is_empty_string}

-- lxc_bpf_devices_rule_t: the value is what the program answers where no rule matches.
pub data ListType : Type 0 where
  allowlist denylist : ListType

unfoldable pub list_type_value : ListType → ℕ
list_type_value allowlist = 0
list_type_value denylist = 1

-- `major` and `minor` are below 0 where the rule is for all numbers; `allow` is a flag.
pub record Device : Type 0 where
  pub type : ℕ
  pub major : ℤ
  pub minor : ℤ
  pub access : Bytes
  pub allow : ℕ

-- The list from its head on.
pub record BpfDevices : Type 0 where
  pub list_type : ListType
  pub devices : List Device

abbrev pub is_set : ℕ → Bool
is_set allow = not (allow == 0)

unfoldable pub bpf_device_list_block_all : ListType → Bool
bpf_device_list_block_all allowlist = true
bpf_device_list_block_all denylist = false

unfoldable pub bpf_device_add : ListType → Device → Bool
unfolding bpf_device_list_block_all
bpf_device_add t d =
    if bpf_device_list_block_all t && not (is_set d.allow)
    then false
    else if not (bpf_device_list_block_all t) && is_set d.allow
    then false
    else true

-- The rule that determines the list type: `a` for all devices, with no access letters.
unfoldable pub is_global : Device → Bool
is_global d = d.type == b'a' && is_neg d.major && is_neg d.minor && is_empty_string d.access

-- The comparisons at the head of the loop's body.
unfoldable pub same_rule : Device → Device → Bool
same_rule dev d =
    dev.type == d.type
    && int_eq dev.major d.major
    && int_eq dev.minor d.minor
    && strequal dev.access d.access

-- The loop of bpf_list_add_device: `none` where it ends without a return, otherwise the value that
-- it returns and the list.
unfoldable pub switch_existing : ListType → Device → List Device → Option (ℕ × List Device)
switch_existing t d [] = none
switch_existing t d (dev ∷ r) = elim (same_rule dev d && bpf_device_add t dev) [
  | true ↦
      if dev.allow == d.allow
      then some (0, dev ∷ r)
      else some (1, record dev { allow = d.allow } ∷ r)
  | false ↦ elim (switch_existing t d r) [ none ↦ none | some (v, r') ↦ some (v, dev ∷ r') ]
]

-- The value is 1 if the list was altered.
unfoldable pub bpf_list_add_device : BpfDevices → Device → ℕ × BpfDevices
bpf_list_add_device s d =
    if is_global d
    then (1, record { list_type = if is_set d.allow then denylist else allowlist; devices = [] })
    else elim (switch_existing s.list_type d s.devices) [
      | some (v, r) ↦ (v, record s { devices = r })
      | none ↦ (1, record s { devices = d ∷ s.devices })
    ]
