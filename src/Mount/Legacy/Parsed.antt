-- ===== src/Mount/Legacy/Parsed.antt =====
-- What parse_mntopts_legacy makes of a list of options.
use lxc.Base.{
  ℕ, ◌+◌, ◌≡◌, refl, sym, ap, ◌∙◌, Bytes, List, [], ◌∷◌, Bool, true, false, not, ◌&&◌, ◌||◌, ◌==◌,
  ==_iff, Option, none, some, any-append, if◌then◌else◌, length, ok, Bool-cases, inl, inr, arith,
}
use lxc.Text.Split.{tokens, join_parts}
use lxc.Mount.Table.{Flags, has, raise, lower, MountOpt}
use lxc.Mount.Legacy.Fits.{comma, others, legacy_loop-text, tokens-AreFull, weight-tokens}
use lxc.Mount.Legacy.{
  is_comma, generic, apply_legacy, mntopt_of, parse_mntopt, legacy_loop, data_of,
  parse_mntopts_legacy,
}

-- What the option makes of the flag with the number i.
unfoldable pub decides : ℕ → Option MountOpt → Option Bool
decides i none = none
decides i (some mo) = if has i mo.legacy_flag then some (not mo.clear) else none

abbrev pub latest : Option Bool → Option Bool → Option Bool
latest a none = a
latest a (some b) = some b

-- What the last option that decides on the flag makes of it.
unfoldable pub last_decision : ℕ → List Bytes → Option Bool
unfolding decides
last_decision i [] = none
last_decision i (opt ∷ opts) = latest (decides i (generic opt)) (last_decision i opts)

abbrev pub or_else : Bool → Option Bool → Bool
or_else d none = d
or_else d (some b) = b

pub or_else-latest :
    (d : Bool) (a b : Option Bool) → or_else (or_else d a) b ≡ or_else d (latest a b)
or_else-latest d none none = refl
or_else-latest d (some a) none = refl
or_else-latest d none (some b) = refl
or_else-latest d (some a) (some b) = refl

pub has-raise : (i : ℕ) (bits f : Flags) → has i (raise bits f) ≡ (has i bits || has i f)
has-raise i bits f = any-append (λ b. b == i) bits f

not_and_false : (b : Bool) → false ≡ (not b && false)
not_and_false true = refl
not_and_false false = refl

lowered_set :
    (i b : ℕ) (bits : Flags) (d : Bool)
    → has b bits ≡ true
    → (not (has i bits) && d) ≡ (not (has i bits) && ((b == i) || d))
lowered_set i b bits d h = elim (Bool-cases (b == i)) [
  | inl e ↦ rw (sym ((==_iff b i).0 e), h) refl
  | inr e ↦ rw e refl
]

lowered_clear :
    (i b : ℕ) (bits : Flags) (d : Bool)
    → has b bits ≡ false
    → ((b == i) || (not (has i bits) && d)) ≡ (not (has i bits) && ((b == i) || d))
lowered_clear i b bits d h = elim (Bool-cases (b == i)) [
  | inl e ↦ rw (sym ((==_iff b i).0 e), h) refl
  | inr e ↦ rw e refl
]

has-cons : (i b : ℕ) (f : Flags) → has i (b ∷ f) ≡ ((b == i) || has i f)
has-cons i b f = ground arith

pub has-lower : (i : ℕ) (bits f : Flags) → has i (lower bits f) ≡ (not (has i bits) && has i f)
unfolding lower
has-lower i bits [] = not_and_false (has i bits)
has-lower i bits (b ∷ f) = elim (Bool-cases (has b bits)) [
  | inl e ↦ rw (e, has-cons i b f, has-lower i bits f) (lowered_set i b bits (has i f) e)
  | inr e ↦
      rw (e, has-cons i b (lower bits f), has-cons i b f, has-lower i bits f)
        (lowered_clear i b bits (has i f) e)
]

raised : (a b : Bool) → (a || b) ≡ or_else b (if a then some true else none)
raised true b = refl
raised false b = refl

lowered : (a b : Bool) → (not a && b) ≡ or_else b (if a then some false else none)
lowered true b = refl
lowered false b = refl

pub has-apply_legacy :
    (i : ℕ) (mo : MountOpt) (f : Flags)
    → has i (apply_legacy mo f) ≡ or_else (has i f) (decides i (some mo))
unfolding decides
has-apply_legacy i mo f = elim (Bool-cases mo.clear) [
  | inl e ↦ rw e (has-lower i mo.legacy_flag f ∙ lowered (has i mo.legacy_flag) (has i f))
  | inr e ↦ rw e (has-raise i mo.legacy_flag f ∙ raised (has i mo.legacy_flag) (has i f))
]

has-mntopt_of :
    (i : ℕ) (opt : Bytes) (size : ℕ) (s : Flags × Bytes) (g : Option MountOpt)
    → has i (mntopt_of opt size s g).0 ≡ or_else (has i s.0) (decides i g)
unfolding decides
has-mntopt_of i opt size (f, text) none = refl
has-mntopt_of i opt size (f, text) (some mo) = has-apply_legacy i mo f

has-legacy_loop :
    (i : ℕ) (opts : List Bytes) (size : ℕ) (s : Flags × Bytes)
    → has i (legacy_loop opts size s).0 ≡ or_else (has i s.0) (last_decision i opts)
unfolding legacy_loop last_decision parse_mntopt
has-legacy_loop i [] size s = refl
has-legacy_loop i (opt ∷ opts) size s =
    has-legacy_loop i opts size (parse_mntopt opt size s)
    ∙ ap (λ d. or_else d (last_decision i opts)) (has-mntopt_of i opt size s (generic opt))
    ∙ or_else-latest (has i s.0) (decides i (generic opt)) (last_decision i opts)

-- Where the caller has no flags and no text yet, parse_mntopts_legacy succeeds; each flag is what the
-- last option that decides on it makes of it, and clear if none does; and the text is the options that
-- are not in the table, in their order, with commas between them, and NULL if there are none.
pub mntopts_legacy-last :
    (mntopts : Bytes)
    → (flags : Flags) × (parse_mntopts_legacy (some mntopts) [] none
        ≡ ok (flags, data_of (join_parts comma (others (tokens is_comma mntopts)))))
      × ((i : ℕ) → has i flags ≡ or_else false (last_decision i (tokens is_comma mntopts)))
unfolding parse_mntopts_legacy
mntopts_legacy-last mntopts =
    let opts = tokens is_comma mntopts in
    let size = length mntopts + 1 in
    (
      (legacy_loop opts size ([], [])).0,
      ap (λ t. ok ((legacy_loop opts size ([], [])).0, data_of t))
          (legacy_loop-text opts size [] (tokens-AreFull is_comma mntopts)
            (weight-tokens is_comma mntopts)),
      λ i. has-legacy_loop i opts size ([], []),
    )
