-- ===== src/Config/Subkeys.antt =====
-- The keys of a network device, lxc.net.<n> and lxc.net.<n>.<subkey>: src/lxc/confile.c.
pub mod Read
pub mod Devices
pub mod Placed
mod Tests
use lxc.Base.{
  ℕ, ◌-◌, ◌^◌, ℤ, pos, negsuc, Bytes, codes, List, [], ◌∷◌, Bool, true, false, not, ◌||◌, ◌==◌, leb,
  Option, none, some, if◌then◌else◌, any, drop, Result, ok, err, ◌>>=◌, einval, enoent, erange,
}
use lxc.Text.Compare.{begins_with, is_empty_string}
use lxc.Text.Number.{lxc_safe_int64_residual, lxc_safe_uint}
use lxc.Text.Trim.{is_digit}
use lxc.Config.Keys.Table.{ConfigItem}
use lxc.Config.Keys.{lxc_get_config_net}
use lxc.Config.Network.{Netdev, lxc_get_netdev_by_idx, lxc_remove_nic_by_idx}

abbrev pub network_subkey_size_max : ℕ
network_subkey_size_max = 38

-- The text behind lxc.net., and whether it begins with a digit.
abbrev pub idx_start : Bytes → Bytes
idx_start key = drop 8 key

abbrev pub starts_with_digit : Bytes → Bool
starts_with_digit [] = false
starts_with_digit (c ∷ s) = is_digit c

abbrev pub index_of : ℤ → Result ℕ
index_of (pos n) = if leb (2 ^ 31 - 1) n then err erange else ok n
index_of (negsuc n) = err erange

-- Fields of struct config_net_info.
pub record ConfigNetInfo : Type 0 where
  pub subkey : Bytes
  pub ops : ConfigItem
  pub netdev : Netdev

abbrev pub info_with : Bytes → Netdev → Option ConfigItem → Result ConfigNetInfo
info_with subkey netdev none = err enoent
info_with subkey netdev (some ops) = ok (record { subkey = subkey; ops = ops; netdev = netdev })

-- What is left behind the index.
abbrev pub info_of : Option Netdev → Bytes → Result ConfigNetInfo
info_of none buf = err einval
info_of (some netdev) [] = err enoent
info_of (some netdev) (c ∷ subkey) =
    if c == b'.' then info_with subkey netdev (lxc_get_config_net subkey) else err einval

abbrev pub index_and_rest : Bytes → Result (ℕ × Bytes)
index_and_rest key =
    if is_empty_string key
    then err einval
    else (if not (begins_with key (codes "lxc.net."))
        then err einval
        else (if not (starts_with_digit (idx_start key)) then err einval else (do
          parsed ← lxc_safe_int64_residual (idx_start key) 10 (some network_subkey_size_max)
          idx ← index_of parsed.0
          ok (idx, parsed.1))))

-- The device is looked up, and allocated, in front of the tests of the subkey.
abbrev pub ops_for : List Netdev → Bool → Result (ℕ × Bytes) → Result ConfigNetInfo × List Netdev
ops_for netdevs allocate (err e) = (err e, netdevs)
ops_for netdevs allocate (ok (idx, buf)) =
    let found = lxc_get_netdev_by_idx netdevs idx allocate in (info_of found.0 buf, found.1)

unfoldable pub get_network_config_ops :
    Bytes → List Netdev → Bool → Result ConfigNetInfo × List Netdev
unfolding is_empty_string begins_with lxc_safe_int64_residual lxc_get_config_net
    lxc_get_netdev_by_idx
get_network_config_ops key netdevs allocate = ops_for netdevs allocate (index_and_rest key)

-- The device with an index is changed.
unfoldable pub replace_netdev : ℕ → Netdev → List Netdev → List Netdev
replace_netdev idx netdev [] = []
replace_netdev idx netdev (d ∷ r) =
    let rest = replace_netdev idx netdev r in if d.idx == idx then netdev ∷ r else d ∷ rest

-- A callback of an entry: its result, and the device behind it.
abbrev pub Callback : Type 0
Callback = ConfigItem → Bytes → Bytes → Netdev → Result (Unit {0}) × Netdev

abbrev pub call_ops :
    Callback → Bytes → Result ConfigNetInfo × List Netdev → Result (Unit {0}) × List Netdev
call_ops callback value (err e, netdevs) = (err e, netdevs)
call_ops callback value (ok info, netdevs) =
    let called = callback info.ops info.subkey value info.netdev in
    (called.0, replace_netdev info.netdev.idx called.1 netdevs)

abbrev pub removed : List Netdev → Result ℕ → Result (Unit {0}) × List Netdev
removed netdevs (err e) = (err e, netdevs)
removed netdevs (ok idx) = (ok tt, (lxc_remove_nic_by_idx netdevs idx).1)

-- For a key that begins with lxc.net.; with no further dot the whole device is removed.
unfoldable pub clr_config_jump_table_net :
    Callback → Bytes → List Netdev → Result (Unit {0}) × List Netdev
unfolding get_network_config_ops lxc_safe_uint lxc_remove_nic_by_idx replace_netdev
clr_config_jump_table_net clr key netdevs =
    if not (starts_with_digit (idx_start key))
    then (err einval, netdevs)
    else (if any (λ c. c == b'.') (idx_start key)
        then call_ops clr [] (get_network_config_ops key netdevs false)
        else removed netdevs (lxc_safe_uint (idx_start key)))

unfoldable pub set_config_jump_table_net :
    Callback → Callback → Bytes → Bytes → List Netdev → Result (Unit {0}) × List Netdev
unfolding clr_config_jump_table_net get_network_config_ops replace_netdev is_empty_string
set_config_jump_table_net set clr key value netdevs =
    if not (starts_with_digit (idx_start key))
    then (err einval, netdevs)
    else (if is_empty_string value
        then clr_config_jump_table_net clr key netdevs
        else call_ops set value (get_network_config_ops key netdevs true))
