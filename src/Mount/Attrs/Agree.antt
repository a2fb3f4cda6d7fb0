-- ===== src/Mount/Attrs/Agree.antt =====
-- parse_mount_attrs and parse_mntopts_legacy compared.
use lxc.Base.{
  &&-both, ℕ, ◌≡◌, refl, sym, ap, ◌∙◌, Bytes, List, [], ◌∷◌, ◌++◌, append_assoc, append-nil, Bool,
  true, false, ◌&&◌, ◌||◌, Option, none, some, any, any-cons, All, Option-cases, inl, inr, arith,
}
use lxc.Text.Split.{join_more, join_parts}
use lxc.Mount.Table.{Flags, has, MountOpt, mount_opt, propagation_opt}
use lxc.Mount.Legacy.{generic}
use lxc.Mount.Legacy.Fits.{comma, others, others-other, others-generic}
use lxc.Mount.Legacy.Parsed.{
  decides, last_decision, or_else, or_else-latest, latest, has-apply_legacy,
}
use lxc.Mount.Attrs.{
  MountOptions, find_prefix, with_mount_opt, parse_vfs_attr, vfs_attr_of, append_fs, attr_of,
  attrs_loop,
}
use lxc.Mount.Attrs.Names.{generic-find_prefix}
use lxc.Mount.Attrs.Effect.{raises_of, raises, lowers_of, lowers, Effect, with_mount_opt-Effect}

abbrev is_none : Option MountOpt → Bool
is_none none = true
is_none (some mo) = false

abbrev is_plain_of : Bytes → Option MountOpt → Bool
is_plain_of opt none =
    is_none (find_prefix opt mount_opt) && is_none (find_prefix opt propagation_opt)
is_plain_of opt (some mo) = elim mo.flag [ none ↦ false | some flag ↦ true ]

-- A name in the table of mount options that is not ignored, or no name of the tables is in front of it.
unfoldable pub is_plain : Bytes → Bool
unfolding find_prefix generic mount_opt propagation_opt
is_plain opt = is_plain_of opt (generic opt)

abbrev pub text_of : Option Bytes → List Bytes → Option Bytes
text_of none [] = none
text_of none (t ∷ ts) = some (join_parts comma (t ∷ ts))
text_of (some text) ts = some (text ++ join_more comma ts)

-- What the loop makes of the options.
pub record Parsed (opts : List Bytes) (s s' : MountOptions × Option Bytes) : Type 0 where
  pub mnt : (i : ℕ) → has i s'.0.mnt_flags ≡ or_else (has i s.0.mnt_flags) (last_decision i opts)
  pub set : (i : ℕ) → has i s'.0.attr_set ≡ (any (raises i) opts || has i s.0.attr_set)
  pub clr : (i : ℕ) → has i s'.0.attr_clr ≡ (any (lowers i) opts || has i s.0.attr_clr)
  pub fs : s'.0.fs_data ≡ s.0.fs_data
  pub text : s'.1 ≡ text_of s.1 (others opts)

or_swap : (a b c : Bool) → (a || (b || c)) ≡ ((b || a) || c)
or_swap a true c = ground arith
or_swap a false c = refl

text_of-other :
    (opt : Bytes) (ts : List Bytes) (text : Option Bytes)
    → text_of (append_fs opt text) ts ≡ text_of text (opt ∷ ts)
unfolding join_parts join_more
text_of-other opt ts none = refl
text_of-other opt ts (some text) = ap some (append_assoc text (comma ++ opt) (join_more comma ts))

module _ (i : ℕ) (opt : Bytes) (opts : List Bytes) {g : Option MountOpt} (e : generic opt ≡ g) where
  last_decision-cons : last_decision i (opt ∷ opts) ≡ latest (decides i g) (last_decision i opts)
  unfolding last_decision
  last_decision-cons = ap (λ g. latest (decides i g) (last_decision i opts)) e

  any-raises-cons : any (raises i) (opt ∷ opts) ≡ (raises_of i g || any (raises i) opts)
  any-raises-cons = any-cons (raises i) opt opts ∙ ap (λ g. raises_of i g || any (raises i) opts) e

  any-lowers-cons : any (lowers i) (opt ∷ opts) ≡ (lowers_of i g || any (lowers i) opts)
  any-lowers-cons = any-cons (lowers i) opt opts ∙ ap (λ g. lowers_of i g || any (lowers i) opts) e

-- The option is in the table.
generic-Parsed :
    (opt : Bytes) (mo : MountOpt) (opts : List Bytes) (o o' : MountOptions) (text : Option Bytes)
    (s' : MountOptions × Option Bytes)
    → generic opt ≡ some mo
    → Effect mo o o'
    → Parsed opts (o', text) s'
    → Parsed (opt ∷ opts) (o, text) s'
generic-Parsed opt mo opts o o' text s' g e p = record {
  mnt = λ i.
      p.mnt i
      ∙ ap (λ f. or_else (has i f) (last_decision i opts)) e.mnt
      ∙ ap (λ d. or_else d (last_decision i opts)) (has-apply_legacy i mo o.mnt_flags)
      ∙ or_else-latest (has i o.mnt_flags) (decides i (some mo)) (last_decision i opts)
      ∙ ap (or_else (has i o.mnt_flags)) (sym (last_decision-cons i opt opts g));
  set = λ i.
      p.set i
      ∙ ap (λ c. any (raises i) opts || c) (e.set i)
      ∙ or_swap (any (raises i) opts) (raises_of i (some mo)) (has i o.attr_set)
      ∙ ap (λ b. b || has i o.attr_set) (sym (any-raises-cons i opt opts g));
  clr = λ i.
      p.clr i
      ∙ ap (λ c. any (lowers i) opts || c) (e.clr i)
      ∙ or_swap (any (lowers i) opts) (lowers_of i (some mo)) (has i o.attr_clr)
      ∙ ap (λ b. b || has i o.attr_clr) (sym (any-lowers-cons i opt opts g));
  fs = p.fs ∙ e.fs;
  text = p.text ∙ ap (text_of text) (sym (others-generic opt opts mo g));
}

other-Parsed :
    (opt : Bytes) (opts : List Bytes) (o : MountOptions) (text : Option Bytes)
    (s' : MountOptions × Option Bytes)
    → generic opt ≡ none
    → Parsed opts (o, append_fs opt text) s'
    → Parsed (opt ∷ opts) (o, text) s'
unfolding decides
other-Parsed opt opts o text s' g p = record {
  mnt = λ i.
      p.mnt i
      ∙ or_else-latest (has i o.mnt_flags) none (last_decision i opts)
      ∙ ap (or_else (has i o.mnt_flags)) (sym (last_decision-cons i opt opts g));
  set = λ i. p.set i ∙ ap (λ b. b || has i o.attr_set) (sym (any-raises-cons i opt opts g));
  clr = λ i. p.clr i ∙ ap (λ b. b || has i o.attr_clr) (sym (any-lowers-cons i opt opts g));
  fs = p.fs;
  text =
      p.text
      ∙ text_of-other opt (others opts) text
      ∙ ap (text_of text) (sym (others-other opt opts g));
}

module _ (opt : Bytes) (o : MountOptions) (text : Option Bytes) where
  attrs_loop-generic :
      (mo : MountOpt)
      → generic opt ≡ some mo
      → attr_of opt (o, text) (parse_vfs_attr o opt) ≡ (with_mount_opt mo o, text)
  unfolding parse_vfs_attr
  attrs_loop-generic mo g =
      ap (λ f. attr_of opt (o, text) (vfs_attr_of o f (find_prefix opt propagation_opt)))
        (generic-find_prefix opt mo g)

  attrs_loop-other :
      find_prefix opt mount_opt ≡ none
      → find_prefix opt propagation_opt ≡ none
      → attr_of opt (o, text) (parse_vfs_attr o opt) ≡ (o, append_fs opt text)
  unfolding parse_vfs_attr
  attrs_loop-other g p = rw (g, p) refl

is_none-none : (x : Option MountOpt) → is_none x ≡ true → x ≡ none
is_none-none none h = refl
is_none-none (some mo) h = ground arith

has_flag :
    (flag : Option Flags)
    → (elim flag [ none ↦ false | some f ↦ true ]) ≡ true
    → (f : Flags) × (flag ≡ some f)
has_flag none h = ground arith
has_flag (some f) h = (f, refl)

text_of-nil : (text : Option Bytes) → text ≡ text_of text []
unfolding join_more
text_of-nil none = refl
text_of-nil (some text) = ap some (sym (append-nil text))

plain_of-other :
    (opt : Bytes)
    → is_plain opt ≡ true
    → generic opt ≡ none
    → (find_prefix opt mount_opt ≡ none) × (find_prefix opt propagation_opt ≡ none)
unfolding is_plain
plain_of-other opt h g =
    let split =
      &&-both (is_none (find_prefix opt mount_opt)) (is_none (find_prefix opt propagation_opt))
        (rw g at h) in
    (is_none-none _ split.0, is_none-none _ split.1)

plain_of-generic :
    (opt : Bytes) (mo : MountOpt)
    → is_plain opt ≡ true
    → generic opt ≡ some mo
    → (f : Flags) × (mo.flag ≡ some f)
unfolding is_plain
plain_of-generic opt mo h g = has_flag mo.flag (rw g at h)

pub attrs_loop-Parsed :
    (opts : List Bytes) (s : MountOptions × Option Bytes)
    → All (λ opt. is_plain opt ≡ true) opts
    → Parsed opts s (attrs_loop opts s)
unfolding attrs_loop last_decision others
attrs_loop-Parsed [] (o, text) h = record {
  mnt = λ i. refl;
  set = λ i. refl;
  clr = λ i. refl;
  fs = refl;
  text = text_of-nil text;
}
attrs_loop-Parsed (opt ∷ opts) (o, text) (h, hs) = elim (Option-cases (generic opt)) [
  | inl g ↦
      let p = plain_of-other opt h g in
      rw (attrs_loop-other opt o text p.0 p.1)
        (other-Parsed opt opts o text _ g (attrs_loop-Parsed opts (o, append_fs opt text) hs))
  | inr (mo, g) ↦
      let f = plain_of-generic opt mo h g in
      rw (attrs_loop-generic opt o text mo g) (
        generic-Parsed opt mo opts o (with_mount_opt mo o) text _ g
          (with_mount_opt-Effect opt mo f.0 o g f.1)
          (attrs_loop-Parsed opts (with_mount_opt mo o, text) hs))
]
