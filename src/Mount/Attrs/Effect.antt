-- ===== src/Mount/Attrs/Effect.antt =====
-- What parse_mount_attrs does for a name in the table of mount options.
use lxc.Base.{
  ℕ, ◌≡◌, refl, sym, ap, ◌∙◌, Bytes, codes, [], Bool, false, not, ◌&&◌, ◌||◌, Option, none, some,
  Bool-cases, inl, inr,
}
use mathlib.Core.Path.{subst}
use lxc.Text.Compare.{strequal}
use lxc.Mount.Table.{Flags, has, raise, MountOpt}
use lxc.Mount.Legacy.{generic, apply_legacy}
use lxc.Mount.Legacy.Parsed.{has-raise}
use lxc.Mount.Attrs.{MountOptions, with_attr, with_mount_opt, flag_or}
use lxc.Mount.Attrs.Names.{bind-flag}

abbrev pub raises_of : ℕ → Option MountOpt → Bool
raises_of i none = false
raises_of i (some mo) = not mo.clear && has i (flag_or [] mo.flag)

-- The option raises the attribute with the number i.
abbrev pub raises : ℕ → Bytes → Bool
raises i opt = raises_of i (generic opt)

abbrev pub lowers_of : ℕ → Option MountOpt → Bool
lowers_of i none = false
lowers_of i (some mo) = mo.clear && has i (flag_or [] mo.flag)

abbrev pub lowers : ℕ → Bytes → Bool
lowers i opt = lowers_of i (generic opt)

-- What an entry of the table does.
pub record Effect (mo : MountOpt) (opts opts' : MountOptions) : Type 0 where
  pub mnt : opts'.mnt_flags ≡ apply_legacy mo opts.mnt_flags
  pub set : (i : ℕ) → has i opts'.attr_set ≡ (raises_of i (some mo) || has i opts.attr_set)
  pub clr : (i : ℕ) → has i opts'.attr_clr ≡ (lowers_of i (some mo) || has i opts.attr_clr)
  pub fs : opts'.fs_data ≡ opts.fs_data

raised_attr :
    (i : ℕ) (mo : MountOpt) (flag attrs : Flags)
    → mo.flag ≡ some flag
    → has i (raise flag attrs) ≡ (has i (flag_or [] mo.flag) || has i attrs)
raised_attr i mo flag attrs e =
    has-raise i flag attrs ∙ ap (λ f. has i (flag_or [] f) || has i attrs) (sym e)

with_attr-Effect :
    (mo : MountOpt) (flag : Flags) (opts : MountOptions)
    → mo.flag ≡ some flag
    → Effect mo opts (with_attr mo (some flag) opts)
with_attr-Effect mo flag opts e = elim (Bool-cases mo.clear) [
  | inl c ↦ rw c (record {
    mnt = refl;
    set = λ i. refl;
    clr = λ i. raised_attr i mo flag opts.attr_clr e;
    fs = refl;
  })
  | inr c ↦ rw c (record {
    mnt = refl;
    set = λ i. raised_attr i mo flag opts.attr_set e;
    clr = λ i. refl;
    fs = refl;
  })
]

with_bind-Effect :
    (mo : MountOpt) (opts opts' : MountOptions)
    → (mo.clear ≡ false) × (mo.flag ≡ some [])
    → opts'.mnt_flags ≡ raise mo.legacy_flag opts.mnt_flags
    → opts'.attr_set ≡ opts.attr_set
    → opts'.attr_clr ≡ opts.attr_clr
    → opts'.fs_data ≡ opts.fs_data
    → Effect mo opts opts'
with_bind-Effect mo opts opts' (c, f) m s r d = record {
  mnt = m ∙ (rw c refl);
  set = λ i. ap (has i) s ∙ (rw (c, f) refl);
  clr = λ i. ap (has i) r ∙ (rw c refl);
  fs = d;
}

pub with_mount_opt-Effect :
    (opt : Bytes) (mo : MountOpt) (flag : Flags) (opts : MountOptions)
    → generic opt ≡ some mo
    → mo.flag ≡ some flag
    → Effect mo opts (with_mount_opt mo opts)
with_mount_opt-Effect opt mo flag opts g e = elim (Bool-cases (strequal mo.name (codes "rbind"))) [
  | inl r ↦ rw r (with_bind-Effect mo opts _ (bind-flag opt mo g (rw r refl)) refl refl refl refl)
  | inr r ↦ elim (Bool-cases (strequal mo.name (codes "bind"))) [
    | inl b ↦
        rw (r, b)
          (with_bind-Effect mo opts _ (bind-flag opt mo g (rw (r, b) refl)) refl refl refl refl)
    | inr b ↦
        rw (r, b)
          (subst (λ f. Effect mo opts (with_attr mo f opts)) (sym e)
            (with_attr-Effect mo flag opts e))
  ]
]
