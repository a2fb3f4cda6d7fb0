-- ===== src/Config/Keys/Longest.antt =====
-- The entry of a table that answers a key.
use lxc.Base.{
  &&-both, ℕ, ◌≤◌, ◌≡◌, ◌⊎◌, refl, sym, ◌∙◌, Bytes, List, [], ◌∷◌, Bool, true, false, not, ◌&&◌,
  ◌||◌, ◌==◌, ltb, Option, none, some, if◌then◌else◌, length, All, Bool-cases, inl, inr, arith,
}
use mathlib.Core.List.{Memᴰ}
use mathlib.Core.Path.{subst}
use mathlib.Core.Bool.{false≢true}
use lxc.Text.Compare.{begins_with_self, strequal_iff, begins_with}
use lxc.Config.Keys.Table.{ConfigItem, config_jump_table, config_jump_table_net}
use lxc.Config.Keys.{
  lxc_subkey_len_max, match_of, match_config_item, get_matched, get_config, lxc_get_config,
  match_config_net_item, get_config_net, lxc_get_config_net,
}

-- An entry answers its own name, and where it is not strict every key that begins with it.
abbrev pub covers : ConfigItem → Bytes → Bool
covers entry key = match_config_net_item entry key

-- No later name begins with an earlier one that is not strict.
abbrev pub is_behind : ConfigItem → ConfigItem → Bool
is_behind earlier later = earlier.strict || not (begins_with later.name earlier.name)

unfoldable pub all_behind : ConfigItem → List ConfigItem → Bool
all_behind earlier [] = true
all_behind earlier (later ∷ table) = is_behind earlier later && all_behind earlier table

unfoldable pub is_ordered : List ConfigItem → Bool
is_ordered [] = true
is_ordered (entry ∷ table) = all_behind entry table && is_ordered table

unfoldable pub all_short : List ConfigItem → Bool
all_short [] = true
all_short (entry ∷ table) = ltb (length entry.name) lxc_subkey_len_max && all_short table

pub tables_ordered :
    (is_ordered config_jump_table ≡ true) × (is_ordered config_jump_table_net ≡ true)
unfolding is_ordered all_behind begins_with
tables_ordered = (refl, refl)

pub table_short : all_short config_jump_table ≡ true
unfolding all_short
table_short = refl

both-&& : (a b : Bool) → a ≡ true → b ≡ true → (a && b) ≡ true
both-&& a b ea eb = ground arith

eq-same : (c x y : ℕ) → (c == x) ≡ true → (c == y) ≡ true → (y == x) ≡ true
eq-same c x y ex ey = ground arith

begins_with-length : (key name : Bytes) → begins_with key name ≡ true → length name ≤ length key
unfolding begins_with
begins_with-length key [] e = omega arith
begins_with-length [] (d ∷ name) e = absurd (false≢true e)
begins_with-length (c ∷ key) (d ∷ name) e =
    let le = begins_with-length key name (&&-both (c == d) (begins_with key name) e).1 in
    omega arith

-- Of two prefixes of one text, the first is not shorter than the second, or a prefix of it.
prefixes :
    (key a b : Bytes)
    → begins_with key a ≡ true
    → begins_with key b ≡ true
    → (length b ≤ length a) ⊎ (begins_with b a ≡ true)
unfolding begins_with
prefixes key [] b ea eb = inr refl
prefixes key (x ∷ a) [] ea eb = inl (omega arith)
prefixes [] (x ∷ a) (y ∷ b) ea eb = absurd (false≢true ea)
prefixes (c ∷ key) (x ∷ a) (y ∷ b) ea eb =
    let fa = &&-both (c == x) (begins_with key a) ea in
    let fb = &&-both (c == y) (begins_with key b) eb in
    elim (prefixes key a b fa.1 fb.1) [
      | inl le ↦ inl (omega arith)
      | inr e ↦ inr (both-&& (y == x) (begins_with b a) (eq-same c x y fa.0 fb.0) e)
    ]

pub covers-begins_with :
    (entry : ConfigItem) (key : Bytes) → covers entry key ≡ true → begins_with key entry.name ≡ true
unfolding match_config_net_item
covers-begins_with entry key e = elim (Bool-cases entry.strict) [
  | inl t ↦
      let same = (strequal_iff entry.name key).0 (rw t at e) in
      subst (λ k. begins_with k entry.name ≡ true) same (begins_with_self entry.name)
  | inr f ↦ rw f at e
]

pub not_behind : (a b : Bool) → (a || not b) ≡ true → a ≡ false → b ≡ true → ⊥
not_behind a b o f t = false≢true (rw (f, t) at o)

-- An earlier entry that answers a key is not shorter than a later one.
behind-length :
    (earlier later : ConfigItem) (key : Bytes)
    → is_behind earlier later ≡ true
    → covers earlier key ≡ true
    → covers later key ≡ true
    → length later.name ≤ length earlier.name
unfolding match_config_net_item
behind-length earlier later key b e l = elim (Bool-cases earlier.strict) [
  | inl t ↦
      let same = (strequal_iff earlier.name key).0 (rw t at e) in
      subst (λ k. length later.name ≤ length k) (sym same)
        (begins_with-length key later.name (covers-begins_with later key l))
  | inr f ↦
      elim (prefixes key earlier.name later.name (rw f at e) (covers-begins_with later key l)) [
        | inl le ↦ le
        | inr e' ↦ absurd (not_behind earlier.strict (begins_with later.name earlier.name) b f e')
      ]
]

-- The answer is an entry of the table that covers the key, and no entry that covers the key has a
-- longer name; or no entry covers the key.
abbrev pub IsLongest : List ConfigItem → Bytes → Option ConfigItem → Type 0
IsLongest table key none = All (λ e. covers e key ≡ false) table
IsLongest table key (some entry) =
    (covers entry key ≡ true)
    × Memᴰ entry table
    × All (λ e. covers e key ≡ true → length e.name ≤ length entry.name) table

no_longer :
    (entry : ConfigItem) (table : List ConfigItem) (key : Bytes)
    → covers entry key ≡ true
    → all_behind entry table ≡ true
    → All (λ e. covers e key ≡ true → length e.name ≤ length entry.name) table
unfolding all_behind
no_longer entry [] key c b = tt
no_longer entry (later ∷ table) key c b =
    let both = &&-both (is_behind entry later) (all_behind entry table) b in
    (behind-length entry later key both.0 c, no_longer entry table key c both.1)

missed-IsLongest :
    (entry : ConfigItem) (table : List ConfigItem) (key : Bytes) (answer : Option ConfigItem)
    → covers entry key ≡ false
    → IsLongest table key answer
    → IsLongest (entry ∷ table) key answer
missed-IsLongest entry table key none c l = (c, l)
missed-IsLongest entry table key (some e) c (covered, mem, longest) =
    (covered, Memᴰ.tail mem, ((λ t. absurd (false≢true (sym c ∙ t))), longest))

get_config_net-IsLongest :
    (table : List ConfigItem) (key : Bytes)
    → is_ordered table ≡ true
    → IsLongest table key (get_config_net table key)
unfolding get_config_net is_ordered
get_config_net-IsLongest [] key o = tt
get_config_net-IsLongest (entry ∷ table) key o =
    let both = &&-both (all_behind entry table) (is_ordered table) o in
    elim (Bool-cases (covers entry key)) [
      | inl t ↦ rw t (t, Memᴰ.head refl, ((λ c. omega arith), no_longer entry table key t both.0))
      | inr f ↦ rw f (
          missed-IsLongest entry table key (get_config_net table key) f
            (get_config_net-IsLongest table key both.1))
    ]

matched :
    (entry : ConfigItem) (rest : Option ConfigItem) (b : Bool)
    → get_matched entry rest (match_of b) ≡ (if b then some entry else rest)
matched entry rest true = refl
matched entry rest false = refl

not_full : (n : ℕ) → ltb n lxc_subkey_len_max ≡ true → (n == lxc_subkey_len_max) ≡ false
not_full n short = ground arith

-- With short names, match_config_item does as match_config_net_item.
match-net :
    (entry : ConfigItem) (key : Bytes)
    → ltb (length entry.name) lxc_subkey_len_max ≡ true
    → match_config_item entry key ≡ match_of (covers entry key)
unfolding match_config_item match_config_net_item
match-net entry key short = elim (Bool-cases entry.strict) [
  | inl t ↦ rw t refl
  | inr f ↦ rw (f, short, not_full (length entry.name) short) refl
]

pub get_config-net :
    (table : List ConfigItem) (key : Bytes)
    → all_short table ≡ true
    → get_config table key ≡ get_config_net table key
unfolding get_config get_config_net all_short
get_config-net [] key a = refl
get_config-net (entry ∷ table) key a =
    let both = &&-both (ltb (length entry.name) lxc_subkey_len_max) (all_short table) a in
    rw (match-net entry key both.0, get_config-net table key both.1)
      (matched entry (get_config_net table key) (covers entry key))

-- For every key: lxc_get_config answers with the entry of its table that has the longest name of those
-- that cover the key, and with the unsupported key where none does; lxc_get_config_net does so for the
-- keys of a network device.
pub get_config-IsLongest :
    (key : Bytes)
    → IsLongest config_jump_table key (lxc_get_config key)
      × IsLongest config_jump_table_net key (lxc_get_config_net key)
unfolding lxc_get_config lxc_get_config_net
get_config-IsLongest key = (
  subst (IsLongest config_jump_table key) (sym (get_config-net config_jump_table key table_short))
      (get_config_net-IsLongest config_jump_table key tables_ordered.0),
  get_config_net-IsLongest config_jump_table_net key tables_ordered.1,
)
