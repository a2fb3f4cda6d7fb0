-- ===== src/Config/Tests.antt =====
-- Network devices with the indices 0 and 5.
use lxc.Base.{ℕ, List, [], ◌∷◌, true, arith}
use lxc.Config.Network.{Netdev, lxc_get_netdev_by_idx}
use lxc.Config.Network.Sorted.{IsSorted, netdevs-lookup}

abbrev device : ℕ → Netdev
device i = record { idx = i; ifindex = 0; type = 1; flags = 1; link = []; name = [] }

abbrev devices : List Netdev
devices = device 0 ∷ device 5 ∷ []

devices-IsSorted : IsSorted devices
devices-IsSorted = ((omega arith, tt), (tt, tt))

-- An index between the two gets a new device.
new_between : IsSorted (lxc_get_netdev_by_idx devices 3 true).1
new_between = (netdevs-lookup devices 3 3 true devices-IsSorted).0
