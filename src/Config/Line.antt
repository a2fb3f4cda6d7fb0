-- ===== src/Config/Line.antt =====
-- Reading a line of a configuration file: parse_line of src/lxc/confile.c.
pub mod RoundTrip
mod Tests
use lxc.Base.{
  ℕ, Bytes, codes, [], ◌∷◌, ◌++◌, Bool, true, false, not, ◌&&◌, ◌||◌, ◌==◌, ltb, Option, none, some,
  if◌then◌else◌, length, get_or, ◌-◌, take, drop, Result, ok, err, einval,
}
use lxc.Text.Compare.{begins_with}
use lxc.Text.Trim.{lxc_char_left_gc, lxc_char_right_gc, lxc_is_line_empty}
use lxc.Config.Keys.Table.{ConfigItem}
use lxc.Config.Keys.{lxc_get_config}
use lxc.Config.Unexpanded.{Unexpanded, is_comment, update_hwaddr, append_unexp_config_line}

-- A line without an item, an invalid line, or a key with its value.
pub data Parsed : Type 0 where
  no_item invalid : Parsed
  key_value : Bytes → Bytes → Parsed

-- In front of the first equals sign, and behind it.
unfoldable pub split_equals : Bytes → Option (Bytes × Bytes)
split_equals [] = none
split_equals (c ∷ s) =
    let rest = split_equals s in
    if c == b'='
    then some ([], s)
    else (elim rest [ none ↦ none | some (key, value) ↦ some (c ∷ key, value) ])

unfoldable pub trim_right : Bytes → Bytes
unfolding lxc_char_right_gc
trim_right s = take (lxc_char_right_gc s (length s)) s

abbrev pub is_quote : ℕ → Bool
is_quote c = c == b'\'' || c == b'"'

abbrev pub unquote : Bytes → Bytes
unquote [] = []
unquote (c ∷ s) =
    if is_quote c && (ltb 1 (length (c ∷ s)) && get_or (c ∷ s) (length (c ∷ s) - 1) 0 == c)
    then take (length s - 1) s
    else c ∷ s

abbrev pub item_of : Option (Bytes × Bytes) → Parsed
item_of none = invalid
item_of (some (key, value)) =
    key_value (trim_right key)
      (unquote (trim_right (drop (lxc_char_left_gc value (length value)) value)))

-- The line behind its blanks.
abbrev pub parsed_of : Bytes → Parsed
parsed_of line =
    if is_comment line
    then no_item
    else (if not (begins_with line (codes "lxc.")) then no_item else item_of (split_equals line))

unfoldable pub parse_item : Bytes → Parsed
unfolding lxc_char_left_gc split_equals trim_right begins_with
parse_item text = parsed_of (drop (lxc_char_left_gc text (length text)) text)

-- `set` is the callback of an item.
abbrev pub set_parsed :
    (Option ConfigItem → Bytes → Bytes → Result (Unit {0})) → Parsed → Result (Unit {0})
set_parsed set no_item = ok tt
set_parsed set invalid = err einval
set_parsed set (key_value key value) = set (lxc_get_config key) key value

-- The line is updated in place where it is appended.
unfoldable pub parse_line :
    (Bytes → Bool)
    → (ℕ → ℕ)
    → (Option ConfigItem → Bytes → Bytes → Result (Unit {0}))
    → Bool
    → Bytes
    → Unexpanded
    → Result (Unit {0}) × Unexpanded
unfolding append_unexp_config_line parse_item lxc_get_config lxc_is_line_empty update_hwaddr
parse_line is_hwaddr rand set from_include buffer conf =
    let dup = if lxc_is_line_empty buffer then b'\n' ∷ [] else buffer in
    let line = if from_include then dup else update_hwaddr is_hwaddr rand dup in
    (
      if lxc_is_line_empty buffer then ok tt else set_parsed set (parse_item line),
      if from_include then conf else append_unexp_config_line is_hwaddr rand dup conf,
    )
