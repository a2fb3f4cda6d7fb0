-- ===== src/Config/Keys/Exact.antt =====
-- The keys that are supported as they are.
use lxc.Base.{
  none-ne-some, &&-both, ◌≡◌, sym, ◌∙◌, Bytes, List, [], ◌∷◌, true, false, some, Bool-cases, inl,
  inr,
}
use mathlib.Core.Path.{subst}
use lxc.Text.Compare.{begins_with_self, strequal, strequal_iff, begins_with}
use lxc.Config.Keys.Table.{ConfigItem, config_jump_table}
use lxc.Config.Keys.{
  lxc_get_config, get_config_exact, lxc_get_config_exact, match_config_net_item, get_config_net,
}
use lxc.Config.Keys.Longest.{
  covers, is_behind, all_behind, is_ordered, tables_ordered, table_short, get_config-net,
  not_behind,
}

-- An earlier entry does not cover the name of a later one, unless it is its own.
not_covered :
    (earlier : ConfigItem) (table : List ConfigItem) (key : Bytes) (entry : ConfigItem)
    → all_behind earlier table ≡ true
    → strequal earlier.name key ≡ false
    → get_config_exact table key ≡ some entry
    → covers earlier key ≡ false
unfolding all_behind get_config_exact match_config_net_item
not_covered earlier [] key entry b n e = absurd (none-ne-some entry e)
not_covered earlier (later ∷ table) key entry b n e =
    let both = &&-both (is_behind earlier later) (all_behind earlier table) b in
    elim (Bool-cases (strequal later.name key)) [
      | inl t ↦
          let same = (strequal_iff later.name key).0 t in
          elim (Bool-cases earlier.strict) [
            | inl s ↦ rw s n
            | inr f ↦ elim (Bool-cases (begins_with key earlier.name)) [
              | inl p ↦ absurd (
                  not_behind earlier.strict (begins_with later.name earlier.name) both.0 f
                    (subst (λ k. begins_with k earlier.name ≡ true) (sym same) p))
              | inr q ↦ rw f q
            ]
          ]
      | inr f ↦ not_covered earlier table key entry both.1 n (rw f at e)
    ]

covers_self :
    (entry : ConfigItem) (key : Bytes) → strequal entry.name key ≡ true → covers entry key ≡ true
unfolding match_config_net_item
covers_self entry key t = elim (Bool-cases entry.strict) [
  | inl s ↦ rw s t
  | inr f ↦ rw f (
      subst (λ k. begins_with k entry.name ≡ true) ((strequal_iff entry.name key).0 t)
        (begins_with_self entry.name))
]

exact-net :
    (table : List ConfigItem) (key : Bytes) (entry : ConfigItem)
    → is_ordered table ≡ true
    → get_config_exact table key ≡ some entry
    → get_config_net table key ≡ some entry
unfolding is_ordered get_config_exact get_config_net
exact-net [] key entry o e = absurd (none-ne-some entry e)
exact-net (first ∷ table) key entry o e =
    let both = &&-both (all_behind first table) (is_ordered table) o in
    elim (Bool-cases (strequal first.name key)) [
      | inl t ↦ rw (covers_self first key t) (rw t at e)
      | inr f ↦
          let e' : get_config_exact table key ≡ some entry = rw f at e in
          rw (not_covered first table key entry both.0 f e') (exact-net table key entry both.1 e')
    ]

-- lxc_get_config answers a key that lxc_get_config_exact finds with the same entry: no supported key is
-- taken by an entry for the keys below another name.
pub get_config-exact :
    (key : Bytes) (entry : ConfigItem)
    → lxc_get_config_exact key ≡ some entry
    → lxc_get_config key ≡ some entry
unfolding lxc_get_config lxc_get_config_exact
get_config-exact key entry e =
    get_config-net config_jump_table key table_short
    ∙ exact-net config_jump_table key entry tables_ordered.0 e
