-- ===== src/Config/Subkeys/Tests.antt =====
-- Keys of the network devices 8 and 10.
use lxc.Base.{
  ℕ, ◌-◌, ◌^◌, ◌≡◌, refl, negsuc, codes, List, [], ◌∷◌, none, some, ◌==◌, if◌then◌else◌, ok, err,
  enoent, arith,
}
use lxc.Text.Number.{
  lxc_safe_int64_residual, is_space, starts_with_minus, strtoul_checked, ulong_of, is_nil,
  check_uint, scan_prefixed, scan_base, scan_digits, digit_value, first_is_digit,
}
use lxc.Text.Trim.{is_digit}
use lxc.Config.Keys.{lxc_get_config_net}
use lxc.Config.Network.{Netdev, new_netdev}
use lxc.Config.Network.Sorted.{IsSorted, lookup}
use lxc.Config.Subkeys.{Callback, clr_config_jump_table_net, set_config_jump_table_net}
use lxc.Config.Subkeys.Read.{device_key}
use lxc.Config.Subkeys.Devices.{device_at}
use lxc.Config.Subkeys.Placed.{net_key, KeepsIdx, call_on, HasPlaced, set_config_net-HasPlaced}

abbrev device : ℕ → Netdev
device i = record { idx = i; ifindex = 0; type = 1; flags = 1; link = []; name = [] }

abbrev devices : List Netdev
devices = device 8 ∷ device 10 ∷ []

devices-IsSorted : IsSorted devices
devices-IsSorted = ((omega arith, tt), (tt, tt))

-- Every key sets the name.
abbrev set_name : Callback
set_name ops subkey value d = (ok tt, record d { name = value })

set_name-KeepsIdx : KeepsIdx set_name
set_name-KeepsIdx ops subkey value d = refl

set_config_net-HasPlaced_example :
    ((set_config_jump_table_net set_name set_name
        (net_key 9 (codes "name"))
        (codes "eth0")
        devices).0
      ≡ (call_on set_name
          (lxc_get_config_net (codes "name"))
          (codes "name")
          (codes "eth0")
          (device_at devices 9)).0)
    × HasPlaced devices 9
        (call_on set_name
          (lxc_get_config_net (codes "name"))
          (codes "name")
          (codes "eth0")
          (device_at devices 9)).1
        (set_config_jump_table_net set_name set_name
          (net_key 9 (codes "name"))
          (codes "eth0")
          devices).1
    × ((set_config_jump_table_net set_name set_name (device_key 9 []) [] devices).0 ≡ ok tt)
    × ((i : ℕ)
        → lookup (set_config_jump_table_net set_name set_name (device_key 9 []) [] devices).1 i
          ≡ (if i == 9 then none else lookup devices i))
set_config_net-HasPlaced_example =
    set_config_net-HasPlaced set_name set_name 9 (codes "name") b'e' (codes "th0") devices
      set_name-KeepsIdx (omega arith) (omega arith) devices-IsSorted

-- An unsupported key leaves a new device.
unsupported_key :
    set_config_jump_table_net set_name set_name (codes "lxc.net.9.nme") (codes "eth0") devices
    ≡ (err enoent, device 8 ∷ new_netdev 9 ∷ device 10 ∷ [])
unfolding set_config_jump_table_net new_netdev is_digit is_space scan_prefixed scan_base scan_digits
    digit_value first_is_digit
unsupported_key = refl

-- The index is octal where the device is removed, and decimal where its name is set.
octal_index :
    (clr_config_jump_table_net set_name (codes "lxc.net.010") devices ≡ (ok tt, device 10 ∷ []))
    × (set_config_jump_table_net set_name set_name (codes "lxc.net.010.name") (codes "eth0") devices
        ≡ (ok tt, device 8 ∷ (record (device 10) { name = codes "eth0" }) ∷ []))
unfolding set_config_jump_table_net clr_config_jump_table_net is_digit starts_with_minus is_space
    strtoul_checked ulong_of is_nil check_uint scan_prefixed scan_base scan_digits digit_value
    first_is_digit
octal_index = (refl, refl)

-- An overflow below is not refused.
below_int64 :
    lxc_safe_int64_residual (codes "-99999999999999999999") 10 (some 2)
    ≡ ok (negsuc (2 ^ 63 - 1), [])
unfolding lxc_safe_int64_residual is_space scan_prefixed scan_base scan_digits digit_value
    first_is_digit
below_int64 = refl
