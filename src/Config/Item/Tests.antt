-- ===== src/Config/Item/Tests.antt =====
-- Keys, and the lines of a small configuration.
use lxc.Base.{◌≡◌, refl, Bytes, codes, List, [], ◌∷◌, true, false, some, length, ok, inr, arith}
use lxc.Text.Compare.{strequal, begins_with}
use lxc.Text.Number.{
  lxc_safe_uint, starts_with_minus, skip_space, is_space, strtoul_checked, ulong_of, scan_signed,
  scan_prefixed, scan_base, scan_digits, digit_value, first_is_digit, is_nil, check_uint,
}
use lxc.Text.Trim.{lxc_char_left_gc, left_gc_loop, is_left_blank}
use lxc.Config.Keys.Table.{ConfigItem, config_jump_table, config_jump_table_net}
use lxc.Config.Keys.{
  lxc_get_config, get_config, match_config_item, lxc_get_config_exact, get_config_exact,
  lxc_get_config_net,
}
use lxc.Config.Keys.Longest.{IsLongest, get_config-IsLongest}
use lxc.Config.Unexpanded.{
  Unexpanded, update_hwaddr, update_value, complete_value, rand_complete_hwaddr,
}
use lxc.Config.Unexpanded.Lines.{IsLines, unlines, text-IsLine}
use lxc.Config.Item.{lxc_set_config_item_locked, clear_config_item}
use lxc.Config.Item.Cleared.{lines_without}
use lxc.Config.Item.Saved.{lines_after, set_config_item-IsLines, clear_config_item-IsLines}

abbrev cgroup2 : ConfigItem
cgroup2 = record {
  name = codes "lxc.cgroup2";
  strict = false;
  callbacks = codes "cgroup2_controller";
}

abbrev hook_start : ConfigItem
hook_start = record { name = codes "lxc.hook.start"; strict = true; callbacks = codes "hooks" }

-- lxc.cgroup covers the key as well.
cgroup2_key : lxc_get_config (codes "lxc.cgroup2.memory.max") ≡ some cgroup2
unfolding lxc_get_config get_config match_config_item strequal begins_with
cgroup2_key = refl

get_config-IsLongest_example :
    IsLongest config_jump_table
      (codes "lxc.cgroup2.memory.max")
      (lxc_get_config (codes "lxc.cgroup2.memory.max"))
    × IsLongest config_jump_table_net
        (codes "lxc.cgroup2.memory.max")
        (lxc_get_config_net (codes "lxc.cgroup2.memory.max"))
get_config-IsLongest_example = get_config-IsLongest (codes "lxc.cgroup2.memory.max")

hook_start_exact : lxc_get_config_exact (codes "lxc.hook.start") ≡ some hook_start
unfolding lxc_get_config_exact get_config_exact strequal
hook_start_exact = refl

abbrev lines : List Bytes
lines =
    codes "lxc.net.1.type = veth" ∷ codes "lxc.net.1.link=br0" ∷ codes "lxc.net.10.type = vlan" ∷ []

abbrev conf : Unexpanded
conf = record { text = unlines lines; len = length (unlines lines); alloced = 1024 }

conf-IsLines : IsLines lines conf
conf-IsLines = record {
  text = refl;
  len = refl;
  whole = (
    text-IsLine (codes "lxc.net.1.type = veth") refl,
    (
      text-IsLine (codes "lxc.net.1.link=br0") refl,
      (text-IsLine (codes "lxc.net.10.type = vlan") refl, tt),
    ),
  );
  room = inr (omega arith);
}

abbrev hwaddr : Bytes
hwaddr = codes "00:16:3e:xx"

-- Two digits are drawn.
hwaddr_update :
    update_hwaddr (λ line. true) (λ i. 7) (codes "lxc.net.1.hwaddr = 00:16:3e:xx")
    ≡ codes "lxc.net.1.hwaddr = 00:16:3e:77"
unfolding update_hwaddr update_value complete_value rand_complete_hwaddr lxc_char_left_gc
    left_gc_loop is_left_blank
hwaddr_update = refl

set_config_item-IsLines_example :
    ((lxc_set_config_item_locked
        (λ line. true)
        (λ i. 7)
        (λ item. true)
        (codes "lxc.net.1.hwaddr")
        hwaddr
        conf).0
      ≡ ok tt)
    × IsLines
        (lines_after (λ line. true) (λ i. 7) true (codes "lxc.net.1.hwaddr") hwaddr lines)
        (lxc_set_config_item_locked
          (λ line. true)
          (λ i. 7)
          (λ item. true)
          (codes "lxc.net.1.hwaddr")
          hwaddr
          conf).1
set_config_item-IsLines_example =
    set_config_item-IsLines (λ line. true) (λ i. 7) (λ item. true) (codes "lxc.net.1.hwaddr") hwaddr
      lines conf (text-IsLine (codes "lxc.net.1.hwaddr") refl) (text-IsLine hwaddr refl)
      conf-IsLines

-- The lines of the tenth network go with those of the first.
cleared_lines : lines_without (codes "lxc.net.1") lines ≡ []
unfolding lines_without strequal lxc_safe_uint starts_with_minus skip_space is_space strtoul_checked
    ulong_of scan_signed scan_prefixed scan_base scan_digits digit_value first_is_digit is_nil
    check_uint
cleared_lines = refl

clear_config_item-IsLines_example :
    ((clear_config_item (λ item. true) (codes "lxc.net.1") conf).0 ≡ true)
    × IsLines
        (lines_without (codes "lxc.net.1") lines)
        (clear_config_item (λ item. true) (codes "lxc.net.1") conf).1
clear_config_item-IsLines_example =
    clear_config_item-IsLines (λ item. true) (codes "lxc.net.1") lines conf
      (text-IsLine (codes "lxc.net.1") refl) conf-IsLines
