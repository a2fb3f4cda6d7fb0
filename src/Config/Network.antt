-- ===== src/Config/Network.antt =====
-- The network devices of a configuration, sorted by their index: src/lxc/confile_utils.c.
pub mod Sorted
use lxc.Base.{
  ℕ, Bytes, List, [], ◌∷◌, Option, none, some, Bool, true, false, ◌==◌, ltb, if◌then◌else◌,
}

-- Fields of struct lxc_netdev; the others are zero as well in a device that is added.
pub record Netdev : Type 0 where
  pub idx : ℕ
  pub ifindex : ℕ
  pub type : ℕ
  pub flags : ℕ
  pub link : Bytes
  pub name : Bytes

-- The device that lxc_network_add allocates.
unfoldable pub new_netdev : ℕ → Netdev
new_netdev idx = record { idx = idx; ifindex = 0; type = 0; flags = 0; link = []; name = [] }

-- The device found or added, and the list; a device is added in front of the first one with a larger
-- index, and at the end where there is none.
unfoldable pub lxc_get_netdev_by_idx : List Netdev → ℕ → Bool → Option Netdev × List Netdev
lxc_get_netdev_by_idx [] idx allocate =
    if allocate then (some (new_netdev idx), new_netdev idx ∷ []) else (none, [])
lxc_get_netdev_by_idx (netdev ∷ r) idx allocate =
    let more = lxc_get_netdev_by_idx r idx allocate in
    if netdev.idx == idx
    then (some netdev, netdev ∷ r)
    else if ltb idx netdev.idx
    then if allocate
      then (some (new_netdev idx), new_netdev idx ∷ netdev ∷ r)
      else (none, netdev ∷ r)
    else (more.0, netdev ∷ more.1)

-- Whether a device was removed, and the list.
unfoldable pub lxc_remove_nic_by_idx : List Netdev → ℕ → Bool × List Netdev
lxc_remove_nic_by_idx [] idx = (false, [])
lxc_remove_nic_by_idx (netdev ∷ r) idx =
    let more = lxc_remove_nic_by_idx r idx in
    if netdev.idx == idx then (true, r) else (more.0, netdev ∷ more.1)

unfoldable pub lxc_free_networks : List Netdev → List Netdev
lxc_free_networks netdevs = []
