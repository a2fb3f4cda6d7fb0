-- ===== src/Mount/Table.antt =====
-- The tables mount_opt and propagation_opt of src/lxc/conf.c. The field recursive is left out: nothing
-- reads it.
use lxc.Base.{
  ℕ, Bytes, codes, List, [], ◌∷◌, ◌++◌, Bool, true, false, ◌==◌, Option, none, some, any,
  if◌then◌else◌,
}

-- A word of flags, by the numbers of its bits that are set.
abbrev pub Flags : Type 0
Flags = List ℕ

abbrev pub has : ℕ → Flags → Bool
has i = any (λ b. b == i)

-- `|=`
abbrev pub raise : Flags → Flags → Flags
raise bits flags = bits ++ flags

-- `&= ~`
unfoldable pub lower : Flags → Flags → Flags
lower bits [] = []
lower bits (b ∷ flags) = if has b bits then lower bits flags else b ∷ lower bits flags

-- A flag ~0 is `none`.
pub record MountOpt : Type 0 where
  pub name : Bytes
  pub clear : Bool
  pub flag : Option Flags
  pub legacy_flag : Flags

abbrev option_of : Bytes → Bool → Option Flags → Flags → MountOpt
option_of name clear flag legacy_flag = record {
  name = name;
  clear = clear;
  flag = flag;
  legacy_flag = legacy_flag;
}

abbrev pub ms_rdonly : ℕ
ms_rdonly = 0

abbrev pub ms_nosuid : ℕ
ms_nosuid = 1

abbrev pub ms_nodev : ℕ
ms_nodev = 2

abbrev pub ms_noexec : ℕ
ms_noexec = 3

abbrev pub ms_synchronous : ℕ
ms_synchronous = 4

abbrev pub ms_remount : ℕ
ms_remount = 5

abbrev pub ms_mandlock : ℕ
ms_mandlock = 6

abbrev pub ms_dirsync : ℕ
ms_dirsync = 7

abbrev pub ms_nosymfollow : ℕ
ms_nosymfollow = 8

abbrev pub ms_noatime : ℕ
ms_noatime = 10

abbrev pub ms_nodiratime : ℕ
ms_nodiratime = 11

abbrev pub ms_bind : ℕ
ms_bind = 12

abbrev pub ms_move : ℕ
ms_move = 13

abbrev pub ms_rec : ℕ
ms_rec = 14

abbrev pub ms_unbindable : ℕ
ms_unbindable = 17

abbrev pub ms_private : ℕ
ms_private = 18

abbrev pub ms_slave : ℕ
ms_slave = 19

abbrev pub ms_shared : ℕ
ms_shared = 20

abbrev pub ms_relatime : ℕ
ms_relatime = 21

abbrev pub ms_strictatime : ℕ
ms_strictatime = 24

abbrev pub ms_lazytime : ℕ
ms_lazytime = 25

abbrev pub mount_attr_rdonly : ℕ
mount_attr_rdonly = 0

abbrev pub mount_attr_nosuid : ℕ
mount_attr_nosuid = 1

abbrev pub mount_attr_nodev : ℕ
mount_attr_nodev = 2

abbrev pub mount_attr_noexec : ℕ
mount_attr_noexec = 3

abbrev pub mount_attr_noatime : ℕ
mount_attr_noatime = 4

abbrev pub mount_attr_strictatime : ℕ
mount_attr_strictatime = 5

abbrev pub mount_attr_nodiratime : ℕ
mount_attr_nodiratime = 7

abbrev pub mount_attr_nosymfollow : ℕ
mount_attr_nosymfollow = 21

-- MOUNT_ATTR_RELATIME is 0.
unfoldable pub mount_opt : List MountOpt
mount_opt =
    option_of (codes "atime") true (some (mount_attr_noatime ∷ [])) (ms_noatime ∷ [])
    ∷ option_of (codes "dev") true (some (mount_attr_nodev ∷ [])) (ms_nodev ∷ [])
    ∷ option_of (codes "diratime") true (some (mount_attr_nodiratime ∷ [])) (ms_nodiratime ∷ [])
    ∷ option_of (codes "exec") true (some (mount_attr_noexec ∷ [])) (ms_noexec ∷ [])
    ∷ option_of (codes "noatime") false (some (mount_attr_noatime ∷ [])) (ms_noatime ∷ [])
    ∷ option_of (codes "nodev") false (some (mount_attr_nodev ∷ [])) (ms_nodev ∷ [])
    ∷ option_of (codes "nodiratime") false (some (mount_attr_nodiratime ∷ [])) (ms_nodiratime ∷ [])
    ∷ option_of (codes "noexec") false (some (mount_attr_noexec ∷ [])) (ms_noexec ∷ [])
    ∷ option_of (codes "norelatime") true (some []) (ms_relatime ∷ [])
    ∷ option_of (codes "nostrictatime") true (some (mount_attr_strictatime ∷ []))
        (ms_strictatime ∷ [])
    ∷ option_of (codes "nosymfollow") false (some (mount_attr_nosymfollow ∷ []))
        (ms_nosymfollow ∷ [])
    ∷ option_of (codes "nosuid") false (some (mount_attr_nosuid ∷ [])) (ms_nosuid ∷ [])
    ∷ option_of (codes "relatime") false (some []) (ms_relatime ∷ [])
    ∷ option_of (codes "ro") false (some (mount_attr_rdonly ∷ [])) (ms_rdonly ∷ [])
    ∷ option_of (codes "rw") true (some (mount_attr_rdonly ∷ [])) (ms_rdonly ∷ [])
    ∷ option_of (codes "strictatime") false (some (mount_attr_strictatime ∷ []))
        (ms_strictatime ∷ [])
    ∷ option_of (codes "suid") true (some (mount_attr_nosuid ∷ [])) (ms_nosuid ∷ [])
    ∷ option_of (codes "bind") false (some []) (ms_bind ∷ [])
    ∷ option_of (codes "move") false (some []) (ms_move ∷ [])
    ∷ option_of (codes "defaults") false (some []) ([])
    ∷ option_of (codes "rbind") false (some []) (ms_bind ∷ ms_rec ∷ [])
    ∷ option_of (codes "sync") false (none) (ms_synchronous ∷ [])
    ∷ option_of (codes "async") true (none) (ms_synchronous ∷ [])
    ∷ option_of (codes "dirsync") false (none) (ms_dirsync ∷ [])
    ∷ option_of (codes "lazytime") false (none) (ms_lazytime ∷ [])
    ∷ option_of (codes "mand") false (none) (ms_mandlock ∷ [])
    ∷ option_of (codes "nomand") true (none) (ms_mandlock ∷ [])
    ∷ option_of (codes "remount") false (none) (ms_remount ∷ [])
    ∷ []

unfoldable pub propagation_opt : List MountOpt
propagation_opt =
    option_of (codes "private") false (some (ms_private ∷ [])) (ms_private ∷ [])
    ∷ option_of (codes "shared") false (some (ms_shared ∷ [])) (ms_shared ∷ [])
    ∷ option_of (codes "slave") false (some (ms_slave ∷ [])) (ms_slave ∷ [])
    ∷ option_of (codes "unbindable") false (some (ms_unbindable ∷ [])) (ms_unbindable ∷ [])
    ∷ option_of (codes "rprivate") false (some (ms_private ∷ [])) (ms_private ∷ ms_rec ∷ [])
    ∷ option_of (codes "rshared") false (some (ms_shared ∷ [])) (ms_shared ∷ ms_rec ∷ [])
    ∷ option_of (codes "rslave") false (some (ms_slave ∷ [])) (ms_slave ∷ ms_rec ∷ [])
    ∷ option_of (codes "runbindable") false (some (ms_unbindable ∷ []))
        (ms_unbindable ∷ ms_rec ∷ [])
    ∷ []
