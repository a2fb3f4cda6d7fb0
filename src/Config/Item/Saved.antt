-- ===== src/Config/Item/Saved.antt =====
-- The lines that are saved for an item.
use lxc.Base.{
  ℕ, ◌≡◌, refl, Bytes, codes, List, [], ◌∷◌, ◌++◌, Bool, true, Option, if◌then◌else◌, Bool-cases,
  inl, inr, ok, err, einval,
}
use lxc.Text.Compare.{is_empty_string}
use lxc.Config.Keys.Table.{ConfigItem}
use lxc.Config.Keys.{lxc_get_config}
use lxc.Config.Unexpanded.{Unexpanded, update_hwaddr, clear_unexp_config_line}
use lxc.Config.Unexpanded.Lines.{IsLine, IsLines, text-IsLine, clear-IsLines}
use lxc.Config.Unexpanded.Updated.{append-IsLine, append-IsLines}
use lxc.Config.Item.Cleared.{lines_without, remaining-lines_without}
use lxc.Config.Item.{
  with_subkeys, do_clear_unexp_config_line, config_line, do_append_unexp_config_line,
  lxc_set_config_item_locked, clear_config_item,
}

clear-lines_without :
    (key : Bytes) (lines : List Bytes) (conf : Unexpanded)
    → IsLine key
    → IsLines lines conf
    → IsLines (lines_without key lines) (clear_unexp_config_line key (with_subkeys key) conf)
clear-lines_without key lines conf k r =
    rw⁻¹ (remaining-lines_without key lines k) (clear-IsLines key (with_subkeys key) lines conf k r)

module _ (is_hwaddr : Bytes → Bool) (rand : ℕ → ℕ) where
  abbrev pub lines_after : Bool → Bytes → Bytes → List Bytes → List Bytes
  lines_after accepted key v lines =
      if accepted
      then (if is_empty_string v
          then lines_without key lines
          else lines ++ update_hwaddr is_hwaddr rand (config_line key v) ∷ [])
      else lines

  config_line-IsLine : (key v : Bytes) → IsLine key → IsLine v → IsLine (config_line key v)
  unfolding config_line
  config_line-IsLine key v k i = elim (Bool-cases (is_empty_string v)) [
    | inl t ↦ rw t (append-IsLine key (codes " =") k (text-IsLine (codes " =") refl))
    | inr f ↦ rw f (
        append-IsLine key (codes " = " ++ v) k
          (append-IsLine (codes " = ") v (text-IsLine (codes " = ") refl) i))
  ]

  accepted-IsLines :
      (key v : Bytes) (lines : List Bytes) (conf : Unexpanded)
      → IsLine key
      → IsLine v
      → IsLines lines conf
      → IsLines (lines_after true key v lines) (
          if is_empty_string v
          then do_clear_unexp_config_line key conf
          else do_append_unexp_config_line is_hwaddr rand key v conf)
  unfolding do_clear_unexp_config_line do_append_unexp_config_line is_empty_string
  accepted-IsLines key [] lines conf k i r = clear-lines_without key lines conf k r
  accepted-IsLines key (c ∷ v) lines conf k i r =
      append-IsLines is_hwaddr rand (config_line key (c ∷ v)) lines conf
        (config_line-IsLine key (c ∷ v) k i) r

  -- For a key and a value without newlines, and a text of lines: lxc_set_config_item_locked fails, and
  -- leaves the text, exactly where the callback of the entry of the key refuses. Any value but the
  -- empty one adds one line behind all others. The empty value takes out exactly the lines that begin
  -- with the key and end there, or have a blank or an equals sign behind it; for lxc.cgroup,
  -- lxc.network, lxc.net, lxc.hook and lxc.net.<n>, all the lines that begin with the key, whatever
  -- follows it. The text is again one of lines with its length, within what is allocated.
  pub set_config_item-IsLines :
      (set : Option ConfigItem → Bool) (key v : Bytes) (lines : List Bytes) (conf : Unexpanded)
      → IsLine key
      → IsLine v
      → IsLines lines conf
      → ((lxc_set_config_item_locked is_hwaddr rand set key v conf).0
          ≡ (if set (lxc_get_config key) then ok tt else err einval))
        × IsLines
            (lines_after (set (lxc_get_config key)) key v lines)
            (lxc_set_config_item_locked is_hwaddr rand set key v conf).1
  unfolding lxc_set_config_item_locked
  set_config_item-IsLines set key v lines conf k i r =
      elim (Bool-cases (set (lxc_get_config key))) [
        | inl t ↦ rw t (refl, accepted-IsLines key v lines conf k i r)
        | inr f ↦ rw f (refl, r)
      ]

-- For a key without newlines and a text of lines: where the callback of the entry of the key succeeds,
-- do_lxcapi_clear_config_item succeeds and takes out exactly the lines that begin with the key and
-- end there, or have a blank or an equals sign behind it; for lxc.cgroup, lxc.network, lxc.net,
-- lxc.hook and lxc.net.<n> these are all the lines that begin with the key, whatever follows it, so
-- that lxc.net.1 takes those of lxc.net.10. Where the callback fails, so does the function, and the
-- text is left as it is.
pub clear_config_item-IsLines :
    (clr : Option ConfigItem → Bool) (key : Bytes) (lines : List Bytes) (conf : Unexpanded)
    → IsLine key
    → IsLines lines conf
    → ((clear_config_item clr key conf).0 ≡ clr (lxc_get_config key))
      × IsLines
          (if clr (lxc_get_config key) then lines_without key lines else lines)
          (clear_config_item clr key conf).1
unfolding clear_config_item do_clear_unexp_config_line
clear_config_item-IsLines clr key lines conf k r = elim (Bool-cases (clr (lxc_get_config key))) [
  | inl t ↦ rw t (refl, clear-lines_without key lines conf k r)
  | inr f ↦ rw f (refl, r)
]
