-- ===== src/Mount/Attrs/Names.antt =====
-- Names and prefixes of names in the tables of mount options.
use lxc.Base.{
  some-injective, ◌≡◌, ◌≢◌, refl, sym, ap, ◌∙◌, Bytes, codes, List, [], ◌∷◌, Bool, true, false, not,
  ◌&&◌, ◌||◌, ◌==◌, Option, none, some, any, Bool-cases, inl, inr, arith,
}
use mathlib.Core.Bool.{false≢true}
use lxc.Text.Compare.{begins_with_self, begins_with, strequal, strequal_iff}
use lxc.Mount.Table.{Flags, MountOpt, mount_opt}
use lxc.Mount.Legacy.{find_name, generic}
use lxc.Mount.Attrs.{find_prefix}

-- Another name is a prefix.
abbrev begins_with_other : Bytes → MountOpt → Bool
begins_with_other opt mo = begins_with opt mo.name && not (strequal opt mo.name)

abbrev begins_with_any : Bytes → List MountOpt → Bool
begins_with_any opt = any (begins_with_other opt)

-- No name has another one as a prefix.
names_differ : any (λ mo. begins_with_any mo.name mount_opt) mount_opt ≡ false
unfolding mount_opt begins_with strequal
names_differ = refl

any-cons :
    (p : MountOpt → Bool) (mo : MountOpt) (table : List MountOpt)
    → any p (mo ∷ table) ≡ false
    → (p mo ≡ false) × (any p table ≡ false)
any-cons p mo table h = ground arith

strequal-begins_with : (s t : Bytes) → strequal s t ≡ true → begins_with s t ≡ true
strequal-begins_with s t h = rw ((strequal_iff s t).0 h) (begins_with_self t)

some-ne-none : (a : MountOpt) → some a ≢ none
some-ne-none a h = cc

find_prefix-find_name :
    (opt : Bytes) (table : List MountOpt)
    → begins_with_any opt table ≡ false
    → find_prefix opt table ≡ find_name opt table
unfolding find_prefix find_name
find_prefix-find_name opt [] h = refl
find_prefix-find_name opt (mo ∷ table) h = elim (Bool-cases (strequal opt mo.name)) [
  | inl e ↦ rw (strequal-begins_with opt mo.name e, e) refl
  | inr e ↦ elim (Bool-cases (begins_with opt mo.name)) [
    | inl b ↦
        absurd (false≢true (sym (rw (b, e) at (any-cons (begins_with_other opt) mo table h).0)))
    | inr b ↦
        rw (b, e) (find_prefix-find_name opt table (any-cons (begins_with_other opt) mo table h).1)
  ]
]

find_name-strequal :
    (opt : Bytes) (table : List MountOpt) (mo : MountOpt)
    → find_name opt table ≡ some mo
    → strequal opt mo.name ≡ true
unfolding find_name
find_name-strequal opt [] mo h = ground arith
find_name-strequal opt (mo' ∷ table) mo h = elim (Bool-cases (strequal opt mo'.name)) [
  | inl e ↦ ap (λ m. strequal opt m.name) (sym (some-injective mo' mo (rw e at h))) ∙ e
  | inr e ↦ find_name-strequal opt table mo (rw e at h)
]

find_name-any :
    (p : MountOpt → Bool) (opt : Bytes) (table : List MountOpt) (mo : MountOpt)
    → any p table ≡ false
    → find_name opt table ≡ some mo
    → p mo ≡ false
unfolding find_name
find_name-any p opt [] mo n h = ground arith
find_name-any p opt (mo' ∷ table) mo n h = elim (Bool-cases (strequal opt mo'.name)) [
  | inl e ↦ ap p (sym (some-injective mo' mo (rw e at h))) ∙ (any-cons p mo' table n).0
  | inr e ↦ find_name-any p opt table mo (any-cons p mo' table n).1 (rw e at h)
]

find_prefix-none :
    (opt : Bytes) (table : List MountOpt)
    → find_prefix opt table ≡ none
    → find_name opt table ≡ none
unfolding find_name find_prefix
find_prefix-none opt [] h = refl
find_prefix-none opt (mo ∷ table) h = elim (Bool-cases (strequal opt mo.name)) [
  | inl e ↦ absurd (some-ne-none mo (rw (strequal-begins_with opt mo.name e) at h))
  | inr e ↦ elim (Bool-cases (begins_with opt mo.name)) [
    | inl b ↦ absurd (some-ne-none mo (rw b at h))
    | inr b ↦ rw e (find_prefix-none opt table (rw b at h))
  ]
]

generic-find_name :
    (opt : Bytes) (mo : MountOpt) → generic opt ≡ some mo → find_name opt mount_opt ≡ some mo
unfolding generic
generic-find_name opt mo h = elim (Bool-cases (any (λ c. c == b'=') opt)) [
  | inl e ↦ absurd (some-ne-none mo (sym (rw e at h)))
  | inr e ↦ rw e at h
]

-- Both look-ups find the same entry for a name.
pub generic-find_prefix :
    (opt : Bytes) (mo : MountOpt) → generic opt ≡ some mo → find_prefix opt mount_opt ≡ some mo
generic-find_prefix opt mo h =
    let found = generic-find_name opt mo h in
    let same = (strequal_iff opt mo.name).0 (find_name-strequal opt mount_opt mo found) in
    find_prefix-find_name opt mount_opt (
      rw same
        (find_name-any (λ m. begins_with_any m.name mount_opt) opt mount_opt mo names_differ found))
    ∙ found

pub find_prefix-generic : (opt : Bytes) → find_prefix opt mount_opt ≡ none → generic opt ≡ none
unfolding generic
find_prefix-generic opt h = elim (Bool-cases (any (λ c. c == b'=') opt)) [
  | inl e ↦ rw e refl
  | inr e ↦ rw e (find_prefix-none opt mount_opt h)
]

abbrev is_bits : Option Flags → Bool
is_bits (some []) = true
is_bits (some (b ∷ f)) = false
is_bits none = false

abbrev pub is_bind : Bytes → Bool
is_bind name = strequal name (codes "rbind") || strequal name (codes "bind")

abbrev bad_bind : MountOpt → Bool
bad_bind mo = is_bind mo.name && not (not mo.clear && is_bits mo.flag)

binds_plain : any bad_bind mount_opt ≡ false
unfolding mount_opt strequal
binds_plain = refl

no_bits : (flag : Option Flags) → is_bits flag ≡ true → flag ≡ some []
no_bits (some []) h = refl
no_bits (some (b ∷ f)) h = ground arith
no_bits none h = ground arith

and_split : (a b : Bool) → not (a && b) ≡ false → (a ≡ true) × (b ≡ true)
and_split a b h = ground arith

-- Bind mounts raise flags, and no attributes.
pub bind-flag :
    (opt : Bytes) (mo : MountOpt)
    → generic opt ≡ some mo
    → is_bind mo.name ≡ true
    → (mo.clear ≡ false) × (mo.flag ≡ some [])
bind-flag opt mo h b =
    let fine = find_name-any bad_bind opt mount_opt mo binds_plain (generic-find_name opt mo h) in
    let both = and_split (not mo.clear) (is_bits mo.flag) (rw b at fine) in
    (ground (arith, both.0), no_bits mo.flag both.1)
