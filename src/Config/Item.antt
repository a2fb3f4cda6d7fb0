-- ===== src/Config/Item.antt =====
-- Setting and clearing an item: src/lxc/lxccontainer.c, with the look-up of its key and the lines of the
-- configuration as it was written.
pub mod Cleared
pub mod Saved
mod Tests
use lxc.Base.{
  ℕ, Bytes, codes, [], ◌∷◌, ◌++◌, Bool, true, false, ◌||◌, Option, if◌then◌else◌, drop, Result, ok,
  err, einval,
}
use lxc.Text.Compare.{strequal, begins_with, is_empty_string}
use lxc.Text.Number.{lxc_safe_uint}
use lxc.Config.Keys.Table.{ConfigItem}
use lxc.Config.Keys.{lxc_get_config}
use lxc.Config.Unexpanded.{Unexpanded, append_unexp_config_line, clear_unexp_config_line}

abbrev pub is_number : Result ℕ → Bool
is_number (ok n) = true
is_number (err e) = false

-- Whether the lines of the keys below the key are cleared as well.
unfoldable pub with_subkeys : Bytes → Bool
unfolding strequal begins_with lxc_safe_uint
with_subkeys key =
    if strequal key (codes "lxc.cgroup")
    then true
    else (if strequal key (codes "lxc.network")
        then true
        else (if strequal key (codes "lxc.net")
            then true
            else (let hook = strequal key (codes "lxc.hook") in
                if begins_with key (codes "lxc.net.")
                then (if is_number (lxc_safe_uint (drop 8 key)) then true else hook)
                else hook)))

unfoldable pub do_clear_unexp_config_line : Bytes → Unexpanded → Unexpanded
unfolding with_subkeys clear_unexp_config_line
do_clear_unexp_config_line key conf = clear_unexp_config_line key (with_subkeys key) conf

-- "%s =" or "%s = %s"
unfoldable pub config_line : Bytes → Bytes → Bytes
unfolding is_empty_string
config_line key v = if is_empty_string v then key ++ codes " =" else key ++ (codes " = " ++ v)

module _ (is_hwaddr : Bytes → Bool) (rand : ℕ → ℕ) where
  unfoldable pub do_append_unexp_config_line : Bytes → Bytes → Unexpanded → Unexpanded
  unfolding append_unexp_config_line config_line
  do_append_unexp_config_line key v conf =
      append_unexp_config_line is_hwaddr rand (config_line key v) conf

  -- `set` answers whether the callback of the item accepts the value.
  unfoldable pub lxc_set_config_item_locked :
      (Option ConfigItem → Bool) → Bytes → Bytes → Unexpanded → Result (Unit {0}) × Unexpanded
  unfolding do_append_unexp_config_line do_clear_unexp_config_line lxc_get_config is_empty_string
  lxc_set_config_item_locked set key v conf =
      if set (lxc_get_config key)
      then (
        ok tt,
        if is_empty_string v
            then do_clear_unexp_config_line key conf
            else do_append_unexp_config_line key v conf,
      )
      else (err einval, conf)

-- do_lxcapi_clear_config_item; `clr` answers whether the callback of the item succeeds.
unfoldable pub clear_config_item :
    (Option ConfigItem → Bool) → Bytes → Unexpanded → Bool × Unexpanded
unfolding do_clear_unexp_config_line lxc_get_config
clear_config_item clr key conf =
    if clr (lxc_get_config key) then (true, do_clear_unexp_config_line key conf) else (false, conf)
