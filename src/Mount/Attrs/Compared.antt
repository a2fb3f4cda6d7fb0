-- ===== src/Mount/Attrs/Compared.antt =====
-- parse_mount_attrs and parse_mntopts_legacy on the same options.
use lxc.Base.{
  or_false, ◌+◌, length, arith, ℕ, ◌≡◌, refl, sym, ap, ◌∙◌, Bytes, codes, List, [], ◌∷◌, ◌++◌,
  append-nil, true, false, ◌==◌, Option, none, some, any, All, ok, Bool-cases, inl, inr,
}
use lxc.Text.Split.{tokens, join_parts}
use lxc.Text.Split.RoundTrip.{tokens-word, in_word-nil}
use lxc.Text.Compare.{strequal}
use lxc.Mount.Table.{Flags, has, ms_rdonly, mount_attr_rdonly}
use lxc.Mount.Legacy.{is_comma, data_of, legacy_of, generic, legacy_loop, parse_mntopts_legacy}
use lxc.Mount.Legacy.Fits.{comma, others, legacy_loop-other, append_data-first}
use lxc.Mount.Legacy.Parsed.{mntopts_legacy-last}
use lxc.Mount.Attrs.{MountOptions, attrs_loop, attrs_of, parse_mount_attrs}
use lxc.Mount.Attrs.Effect.{raises, lowers}
use lxc.Mount.Attrs.Agree.{is_plain, text_of, attrs_loop-Parsed}

abbrev pub no_options : MountOptions
no_options = record {
  bind_recursively = false;
  propagate_recursively = false;
  bind = false;
  mnt_flags = [];
  prop_flags = [];
  fs_data = none;
  attr_set = [];
  attr_clr = [];
  propagation = [];
}

-- The text is put in its place, and nothing else changes.
record Placed (s : MountOptions × Option Bytes) (opts : MountOptions) : Type 0 where
  mnt : opts.mnt_flags ≡ s.0.mnt_flags
  set : opts.attr_set ≡ s.0.attr_set
  clr : opts.attr_clr ≡ s.0.attr_clr

attrs_of-Placed : (s : MountOptions × Option Bytes) → Placed s (attrs_of s)
attrs_of-Placed (o, none) = record { mnt = refl; set = refl; clr = refl }
attrs_of-Placed (o, some []) = record { mnt = refl; set = refl; clr = refl }
attrs_of-Placed (o, some (c ∷ t)) = record { mnt = refl; set = refl; clr = refl }

attrs_of-some :
    (o : MountOptions) (t : Bytes) → o.fs_data ≡ none → (attrs_of (o, some t)).fs_data ≡ data_of t
attrs_of-some o [] h = h
attrs_of-some o (c ∷ t) h = refl

attrs_of-text :
    (s : MountOptions × Option Bytes) (ts : List Bytes)
    → s.0.fs_data ≡ none
    → s.1 ≡ text_of none ts
    → (attrs_of s).fs_data ≡ data_of (join_parts comma ts)
unfolding join_parts
attrs_of-text (o, text) [] h e = rw e h
attrs_of-text (o, text) (t ∷ ts) h e = rw e (attrs_of-some o (join_parts comma (t ∷ ts)) h)

-- For options of which each is a name in the table of mount options that is not ignored, or has no name
-- of the two tables in front: parse_mount_attrs, on fresh options, gets the flags for mount(2) and the
-- text for the file system that parse_mntopts_legacy gets. The attributes for mount_setattr(2) do not
-- depend on the order: those to set are all that some option raises, those to clear all that some
-- option lowers, also where a later option takes it back.
pub mount_attrs-agree :
    (mntopts : Bytes)
    → All (λ opt. is_plain opt ≡ true) (tokens is_comma mntopts)
    → (flags : Flags) × (parse_mntopts_legacy (some mntopts) [] none
        ≡ ok (flags, (parse_mount_attrs no_options (some mntopts)).fs_data))
      × ((i : ℕ) → has i (parse_mount_attrs no_options (some mntopts)).mnt_flags ≡ has i flags)
      × ((i : ℕ)
          → has i (parse_mount_attrs no_options (some mntopts)).attr_set
            ≡ any (raises i) (tokens is_comma mntopts))
      × ((i : ℕ)
          → has i (parse_mount_attrs no_options (some mntopts)).attr_clr
            ≡ any (lowers i) (tokens is_comma mntopts))
unfolding parse_mount_attrs
mount_attrs-agree mntopts h =
    let opts = tokens is_comma mntopts in
    let legacy = mntopts_legacy-last mntopts in
    let parsed = attrs_loop-Parsed opts (no_options, none) h in
    let placed = attrs_of-Placed (attrs_loop opts (no_options, none)) in
    let text =
      attrs_of-text (attrs_loop opts (no_options, none)) (others opts) parsed.fs parsed.text in
    (
      legacy.0,
      legacy.1 ∙ ap (λ t. ok (legacy.0, t)) (sym text),
      λ i. ap (has i) placed.mnt ∙ parsed.mnt i ∙ sym (legacy.2 i),
      λ i. ap (has i) placed.set ∙ parsed.set i ∙ or_false (any (raises i) opts),
      λ i. ap (has i) placed.clr ∙ parsed.clr i ∙ or_false (any (lowers i) opts),
    )

-- "ro" and at least one more byte.
abbrev behind_ro : ℕ → Bytes → Bytes
behind_ro c rest = codes "ro" ++ c ∷ rest

ro-generic : (c : ℕ) (rest : Bytes) → generic (behind_ro c rest) ≡ none
unfolding generic strequal
ro-generic c rest = elim (Bool-cases (any (λ c. c == b'=') (behind_ro c rest))) [
  | inl e ↦ rw e refl
  | inr e ↦ rw e refl
]

module _ (c : ℕ) (rest : Bytes) (h : All (λ c. is_comma c ≡ false) (c ∷ rest)) where
  ro-tokens : tokens is_comma (behind_ro c rest) ≡ behind_ro c rest ∷ []
  unfolding tokens
  ro-tokens =
      ap (tokens is_comma) (sym (append-nil (behind_ro c rest)))
      ∙ tokens-word is_comma b'r' (b'o' ∷ c ∷ rest) [] refl (refl, h) (in_word-nil is_comma)

  ro-legacy :
      parse_mntopts_legacy (some (behind_ro c rest)) [] none ≡ ok ([], some (behind_ro c rest))
  unfolding parse_mntopts_legacy
  ro-legacy =
      ap (λ ts. ok (legacy_of (legacy_loop ts (length (behind_ro c rest) + 1) ([], [])))) ro-tokens
      ∙ ap (λ s. ok (legacy_of s))
          (legacy_loop-other (behind_ro c rest) [] (length (behind_ro c rest) + 1) [] []
            (ro-generic c rest))
      ∙ ap (λ t. ok ([], data_of t))
          (append_data-first (behind_ro c rest) (length (behind_ro c rest) + 1) (omega arith))

  ro-attrs :
      parse_mount_attrs no_options (some (behind_ro c rest))
      ≡ record no_options { mnt_flags = ms_rdonly ∷ []; attr_set = mount_attr_rdonly ∷ [] }
  unfolding parse_mount_attrs strequal
  ro-attrs = ap (λ ts. attrs_of (attrs_loop ts (no_options, none))) ro-tokens

-- A single option that begins with "ro" and goes on without a comma, such as rootcontext=x, is text for
-- the file system to parse_mntopts_legacy; parse_mount_attrs takes it for the option ro, sets the mount
-- read-only, and drops the text.
pub ro_prefix-swallowed :
    (c : ℕ) (rest : Bytes)
    → All (λ c. is_comma c ≡ false) (c ∷ rest)
    → (parse_mntopts_legacy (some (behind_ro c rest)) [] none ≡ ok ([], some (behind_ro c rest)))
      × (parse_mount_attrs no_options (some (behind_ro c rest))
          ≡ record no_options { mnt_flags = ms_rdonly ∷ []; attr_set = mount_attr_rdonly ∷ [] })
ro_prefix-swallowed c rest h = (ro-legacy c rest h, ro-attrs c rest h)
