-- ===== src/Mount/Attrs.antt =====
-- parse_mount_attrs and parse_vfs_attr of src/lxc/conf.c.
pub mod Names
pub mod Effect
pub mod Agree
pub mod Compared
use lxc.Base.{
  ℕ, Bytes, codes, List, [], ◌∷◌, ◌++◌, Bool, true, false, ◌&&◌, ◌||◌, ◌==◌, Option, none, some,
  if◌then◌else◌,
}
use lxc.Text.Compare.{strequal, begins_with}
use lxc.Text.Split.{tokens}
use lxc.Mount.Table.{Flags, raise, lower, MountOpt, mount_opt, propagation_opt}
use lxc.Mount.Legacy.{is_comma, data_of, apply_legacy}

-- The fields of struct lxc_mount_options that these functions write.
pub record MountOptions : Type 0 where
  pub bind_recursively : Bool
  pub propagate_recursively : Bool
  pub bind : Bool
  pub mnt_flags : Flags
  pub prop_flags : Flags
  pub fs_data : Option Bytes
  pub attr_set : Flags
  pub attr_clr : Flags
  pub propagation : Flags

unfoldable pub find_prefix : Bytes → List MountOpt → Option MountOpt
unfolding begins_with
find_prefix opt [] = none
find_prefix opt (mo ∷ table) = if begins_with opt mo.name then some mo else find_prefix opt table

abbrev pub with_attr : MountOpt → Option Flags → MountOptions → MountOptions
with_attr mo none opts = opts
with_attr mo (some flag) opts =
    if mo.clear
    then record opts {
      attr_clr = raise flag opts.attr_clr;
      mnt_flags = apply_legacy mo opts.mnt_flags;
    }
    else record opts {
      attr_set = raise flag opts.attr_set;
      mnt_flags = apply_legacy mo opts.mnt_flags;
    }

abbrev pub with_mount_opt : MountOpt → MountOptions → MountOptions
with_mount_opt mo opts =
    if strequal mo.name (codes "rbind")
    then record opts {
      bind_recursively = true;
      bind = true;
      mnt_flags = raise mo.legacy_flag opts.mnt_flags;
    }
    else if strequal mo.name (codes "bind")
    then record opts { bind = true; mnt_flags = raise mo.legacy_flag opts.mnt_flags }
    else with_attr mo mo.flag opts

abbrev pub is_recursive : Bytes → Bool
is_recursive name =
    strequal name (codes "rslave")
    || strequal name (codes "rshared")
    || strequal name (codes "runbindable")
    || strequal name (codes "rprivate")

abbrev pub flag_or : Flags → Option Flags → Flags
flag_or d none = d
flag_or d (some flag) = flag

abbrev pub with_propagation : MountOpt → MountOptions → MountOptions
with_propagation mo opts = record opts {
  propagate_recursively = opts.propagate_recursively || is_recursive mo.name;
  propagation = flag_or [] mo.flag;
  prop_flags = raise mo.legacy_flag opts.prop_flags;
}

-- `none` is the result 1: the option was skipped.
abbrev pub vfs_attr_of : MountOptions → Option MountOpt → Option MountOpt → Option MountOptions
vfs_attr_of opts (some mo) p = some (with_mount_opt mo opts)
vfs_attr_of opts none (some mo) = some (with_propagation mo opts)
vfs_attr_of opts none none = none

unfoldable pub parse_vfs_attr : MountOptions → Bytes → Option MountOptions
unfolding find_prefix mount_opt propagation_opt
parse_vfs_attr opts opt =
    vfs_attr_of opts (find_prefix opt mount_opt) (find_prefix opt propagation_opt)

-- stpcpy at `end`, which is NULL before the first one.
abbrev pub append_fs : Bytes → Option Bytes → Option Bytes
append_fs opt none = some opt
append_fs opt (some text) = some (text ++ b',' ∷ opt)

abbrev pub attr_of :
    Bytes → MountOptions × Option Bytes → Option MountOptions → MountOptions × Option Bytes
attr_of opt (opts, text) (some opts') = (opts', text)
attr_of opt (opts, text) none = (opts, append_fs opt text)

unfoldable pub attrs_loop : List Bytes → MountOptions × Option Bytes → MountOptions × Option Bytes
unfolding parse_vfs_attr
attrs_loop [] s = s
attrs_loop (opt ∷ rest) s = attrs_loop rest (attr_of opt s (parse_vfs_attr s.0 opt))

abbrev pub attrs_of : MountOptions × Option Bytes → MountOptions
attrs_of (opts, none) = opts
attrs_of (opts, some []) = opts
attrs_of (opts, some (c ∷ s)) = record opts { fs_data = some (c ∷ s) }

-- It does not fail: parse_vfs_attr returns 0 or 1.
unfoldable pub parse_mount_attrs : MountOptions → Option Bytes → MountOptions
unfolding attrs_loop
parse_mount_attrs opts none = opts
parse_mount_attrs opts (some mntopts) = attrs_of (attrs_loop (tokens is_comma mntopts) (opts, none))
