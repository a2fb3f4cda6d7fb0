-- ===== src/Config/Line/RoundTrip.antt =====
-- A line that is printed for an item is read as that item.
use lxc.Base.{
  &&-both, ℕ, zero, suc, ◌-◌, ◌<◌, ◌≡◌, refl, sym, ap, ◌∙◌, Bytes, codes, [], ◌∷◌, ◌++◌, Bool, true,
  false, ◌&&◌, ◌==◌, Option, some, Result, length, length-append, append_assoc, take, take_all,
  drop, get_or, All, arith,
}
use mathlib.Core.Bool.{false≢true}
use lxc.Text.Compare.{begins_with, is_empty_string}
use lxc.Text.Trim.{
  is_left_blank, is_right_blank, is_line_blank, lxc_is_line_empty, left_gc_loop, lxc_char_left_gc,
  lxc_char_right_gc,
}
use lxc.Config.Unexpanded.{Unexpanded}
use lxc.Config.Keys.Table.{ConfigItem}
use lxc.Config.Keys.{lxc_get_config}
use lxc.Config.Item.{config_line}
use lxc.Config.Line.{
  key_value, split_equals, trim_right, is_quote, unquote, item_of, parse_item, parse_line,
}

-- The byte at the end is not blank.
abbrev pub IsTrimmed : Bytes → Type 0
IsTrimmed s = (0 < length s) × (is_right_blank (get_or s (length s - 1) 0) ≡ false)

pub record IsKey (key : Bytes) : Type 0 where
  pub prefix : begins_with key (codes "lxc.") ≡ true
  pub no_equals : All (λ c. (c == b'=') ≡ false) key
  pub trimmed : IsTrimmed key

-- No quote and no blank in front, and no blank at the end.
pub record IsValue (v : Bytes) : Type 0 where
  pub first : is_left_blank (get_or v 0 0) ≡ false
  pub unquoted : is_quote (get_or v 0 0) ≡ false
  pub trimmed : IsTrimmed v

suc_minus : (n : ℕ) → n ≡ suc n - 1
suc_minus n = omega arith

right_gc-last :
    (s : Bytes) (n : ℕ)
    → 0 < n
    → is_right_blank (get_or s (n - 1) 0) ≡ false
    → lxc_char_right_gc s n ≡ n
unfolding lxc_char_right_gc
right_gc-last s zero lt b = absurd (omega arith)
right_gc-last s (suc n) lt b =
    let b' : is_right_blank (get_or s n 0) ≡ false =
      ap (λ m. is_right_blank (get_or s m 0)) (suc_minus n) ∙ b in
    rw b' refl

trim_right-IsTrimmed : (s : Bytes) → IsTrimmed s → trim_right s ≡ s
unfolding trim_right
trim_right-IsTrimmed s (lt, b) =
    rw (right_gc-last s (length s) lt b) (take_all (length s) s (omega arith))

get_or-front : (s t : Bytes) (i : ℕ) → i < length s → get_or (s ++ t) i 0 ≡ get_or s i 0
get_or-front [] t i lt = absurd (omega arith)
get_or-front (c ∷ s) t zero lt = refl
get_or-front (c ∷ s) t (suc i) lt = get_or-front s t i (omega arith)

get_or-middle : (s : Bytes) (c : ℕ) (t : Bytes) → get_or (s ++ c ∷ t) (length s) 0 ≡ c
get_or-middle [] c t = refl
get_or-middle (d ∷ s) c t = get_or-middle s c t

take-front : (s t : Bytes) → take (length s) (s ++ t) ≡ s
take-front [] [] = refl
take-front [] (c ∷ t) = refl
take-front (c ∷ s) t = ap (λ r. c ∷ r) (take-front s t)

-- One blank is cut.
trim_right-blank : (s : Bytes) → IsTrimmed s → trim_right (s ++ b' ' ∷ []) ≡ s
unfolding trim_right lxc_char_right_gc is_right_blank
trim_right-blank s (lt, b) =
    let n : length (s ++ b' ' ∷ []) ≡ suc (length s) = length-append s (b' ' ∷ []) ∙ omega arith in
    let last : is_right_blank (get_or (s ++ b' ' ∷ []) (length s - 1) 0) ≡ false =
      ap is_right_blank (get_or-front s (b' ' ∷ []) (length s - 1) (omega arith)) ∙ b in
    rw (n, get_or-middle s b' ' [], right_gc-last (s ++ b' ' ∷ []) (length s) lt last)
      (take-front s (b' ' ∷ []))

split_equals-key :
    (key value : Bytes)
    → All (λ c. (c == b'=') ≡ false) key
    → split_equals (key ++ b'=' ∷ value) ≡ some (key, value)
unfolding split_equals
split_equals-key [] value a = refl
split_equals-key (c ∷ key) value (n, a) = rw (n, split_equals-key key value a) refl

begins_with-front :
    (s t name : Bytes) → begins_with s name ≡ true → begins_with (s ++ t) name ≡ true
unfolding begins_with
begins_with-front s t [] e = refl
begins_with-front [] t (d ∷ name) e = absurd (false≢true e)
begins_with-front (c ∷ s) t (d ∷ name) e =
    let both = &&-both (c == d) (begins_with s name) e in
    rw both.0 (begins_with-front s t name both.1)

-- A value is read behind one blank.
value-read :
    (v : Bytes)
    → IsValue v
    → unquote (trim_right (drop (lxc_char_left_gc (b' ' ∷ v) (length (b' ' ∷ v))) (b' ' ∷ v))) ≡ v
unfolding lxc_char_left_gc left_gc_loop is_left_blank
value-read [] r = absurd (omega (arith, r.trimmed.0))
value-read (d ∷ v) r = rw (r.first, trim_right-IsTrimmed (d ∷ v) r.trimmed, r.unquoted) refl

-- The first byte of a key.
letter :
    (c : ℕ) (b : Bool)
    → ((c == b'l') && b) ≡ true
    → (is_left_blank c ≡ false) × ((c == b'#') ≡ false)
unfolding is_left_blank
letter c b e = ground arith

parse_item-text :
    (key rest : Bytes)
    → begins_with key (codes "lxc.") ≡ true
    → parse_item (key ++ rest) ≡ item_of (split_equals (key ++ rest))
unfolding parse_item lxc_char_left_gc left_gc_loop
parse_item-text [] rest e = absurd (false≢true (unfold begins_with in e))
parse_item-text (c ∷ key) rest e =
    let l = letter c (begins_with key (codes "xc.")) (unfold begins_with in e) in
    rw (l.0, l.1, begins_with-front (c ∷ key) rest (codes "lxc.") e) refl

All-last :
    (key : Bytes)
    → All (λ c. (c == b'=') ≡ false) key
    → All (λ c. (c == b'=') ≡ false) (key ++ b' ' ∷ [])
All-last [] a = (refl, tt)
All-last (c ∷ key) (n, a) = (n, All-last key a)

not_empty : (v : Bytes) → 0 < length v → is_empty_string v ≡ false
unfolding is_empty_string
not_empty [] lt = absurd (omega arith)
not_empty (d ∷ v) lt = refl

parse_item-config_line :
    (key v : Bytes) → IsKey key → IsValue v → parse_item (config_line key v) ≡ key_value key v
unfolding config_line
parse_item-config_line key v k r =
    let split : split_equals (key ++ (codes " = " ++ v)) ≡ some (key ++ b' ' ∷ [], b' ' ∷ v) =
      ap split_equals (sym (append_assoc key (b' ' ∷ []) (b'=' ∷ b' ' ∷ v)))
      ∙ split_equals-key (key ++ b' ' ∷ []) (b' ' ∷ v) (All-last key k.no_equals) in
    rw (not_empty v r.trimmed.0) (
      parse_item-text key (codes " = " ++ v) k.prefix
      ∙ ap item_of split
      ∙ ap
          (λ x. key_value x (
            unquote
              (trim_right (drop (lxc_char_left_gc (b' ' ∷ v) (length (b' ' ∷ v))) (b' ' ∷ v)))))
          (trim_right-blank key k.trimmed)
      ∙ ap (key_value key) (value-read v r))

letter_not_blank : (c : ℕ) (b : Bool) → ((c == b'l') && b) ≡ true → is_line_blank c ≡ false
unfolding is_line_blank
letter_not_blank c b e = ground arith

text_not_empty :
    (key rest : Bytes)
    → begins_with key (codes "lxc.") ≡ true
    → lxc_is_line_empty (key ++ rest) ≡ false
unfolding lxc_is_line_empty
text_not_empty [] rest e = absurd (false≢true (unfold begins_with in e))
text_not_empty (c ∷ key) rest e =
    rw (letter_not_blank c (begins_with key (codes "xc.")) (unfold begins_with in e)) refl

-- For a key that begins with lxc., has no equals sign and does not end in a blank, and a value that has
-- no blank at its ends and no quote in front: where parse_line reads the line that
-- do_append_unexp_config_line prints for them, from an included file, it calls the callback that
-- lxc_get_config has for the key, with this key and this value, and returns its result.
pub parse_line-config_line :
    (is_hwaddr : Bytes → Bool) (rand : ℕ → ℕ)
    (set : Option ConfigItem → Bytes → Bytes → Result (Unit {0})) (key v : Bytes)
    (conf : Unexpanded)
    → IsKey key
    → IsValue v
    → parse_line is_hwaddr rand set true (config_line key v) conf
      ≡ (set (lxc_get_config key) key v, conf)
unfolding parse_line
parse_line-config_line is_hwaddr rand set key v conf k r =
    let full : lxc_is_line_empty (config_line key v) ≡ false =
      unfold config_line in
      rw (not_empty v r.trimmed.0) (text_not_empty key (codes " = " ++ v) k.prefix) in
    rw (full, parse_item-config_line key v k r) refl
