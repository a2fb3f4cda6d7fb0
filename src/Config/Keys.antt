-- ===== src/Config/Keys.antt =====
-- Which callbacks a configuration key has: src/lxc/confile.c.
pub mod Table
pub mod Longest
pub mod Exact
use lxc.Base.{
  ℕ, Bytes, List, [], ◌∷◌, Bool, true, false, ◌==◌, ltb, Option, none, some, if◌then◌else◌, length,
}
use lxc.Text.Compare.{strequal, begins_with}
use lxc.Config.Keys.Table.{ConfigItem, config_jump_table, config_jump_table_net}

abbrev strnlen : Bytes → ℕ → ℕ
strnlen s maxlen = if ltb (length s) maxlen then length s else maxlen

abbrev pub lxc_subkey_len_max : ℕ
lxc_subkey_len_max = 256

-- 0, 1 and -E2BIG
pub data Match : Type 0 where
  no yes too_big : Match

abbrev pub match_of : Bool → Match
match_of true = yes
match_of false = no

unfoldable pub match_config_item : ConfigItem → Bytes → Match
unfolding strequal begins_with
match_config_item entry key =
    if entry.strict
    then match_of (strequal entry.name key)
    else (if strnlen entry.name lxc_subkey_len_max == lxc_subkey_len_max
        then too_big
        else match_of (begins_with key entry.name))

abbrev pub get_matched : ConfigItem → Option ConfigItem → Match → Option ConfigItem
get_matched cur rest no = rest
get_matched cur rest yes = some cur
get_matched cur rest too_big = none

-- The loop of lxc_get_config. `none` is unsupported_config_key.
unfoldable pub get_config : List ConfigItem → Bytes → Option ConfigItem
unfolding match_config_item
get_config [] key = none
get_config (cur ∷ table) key = get_matched cur (get_config table key) (match_config_item cur key)

unfoldable pub lxc_get_config : Bytes → Option ConfigItem
unfolding get_config
lxc_get_config key = get_config config_jump_table key

-- The loop of lxc_get_config_exact. `none` is NULL.
unfoldable pub get_config_exact : List ConfigItem → Bytes → Option ConfigItem
unfolding strequal
get_config_exact [] key = none
get_config_exact (cur ∷ table) key =
    let rest = get_config_exact table key in if strequal cur.name key then some cur else rest

unfoldable pub lxc_get_config_exact : Bytes → Option ConfigItem
unfolding get_config_exact
lxc_get_config_exact key = get_config_exact config_jump_table key

unfoldable pub match_config_net_item : ConfigItem → Bytes → Bool
unfolding strequal begins_with
match_config_net_item entry key =
    if entry.strict then strequal entry.name key else begins_with key entry.name

-- The loop of lxc_get_config_net. `none` is unsupported_config_net_key.
unfoldable pub get_config_net : List ConfigItem → Bytes → Option ConfigItem
unfolding match_config_net_item
get_config_net [] key = none
get_config_net (cur ∷ table) key =
    let rest = get_config_net table key in if match_config_net_item cur key then some cur else rest

unfoldable pub lxc_get_config_net : Bytes → Option ConfigItem
unfolding get_config_net
lxc_get_config_net key = get_config_net config_jump_table_net key
