-- ===== src/Mount/Legacy/Fits.antt =====
-- The text that parse_mntopts_legacy puts together, and its buffer.
use lxc.Base.{
  ℕ, suc, ◌+◌, ◌-◌, ◌≤◌, ◌<◌, ◌≡◌, refl, sym, ap, ◌∙◌, Bytes, List, [], ◌∷◌, ◌++◌, append_assoc,
  append-nil, Bool, false, lt→ltb, Option, none, some, length, length-append, take_all, Bool-cases,
  Option-cases, All, inl, inr, arith,
}
use mathlib.Core.Bool.{false≢true}
use lxc.Text.Number.{is_nil}
use lxc.Text.Split.{in_word, prepend, tokens, join_more, join_parts}
use lxc.Mount.Table.{Flags, MountOpt}
use lxc.Mount.Legacy.{
  apply_legacy, strlcat, generic, append_data, mntopt_of, parse_mntopt, legacy_loop,
}

-- The bytes of the words, and one more for each.
unfoldable pub weight : List Bytes → ℕ
weight [] = 0
weight (t ∷ ts) = length t + 1 + weight ts

weight-prepend : (c n : ℕ) (ts : List Bytes) → weight ts ≤ n + 1 → weight (prepend c ts) ≤ suc n + 1
unfolding weight prepend
weight-prepend c n [] h = omega arith
weight-prepend c n (t ∷ ts) h = omega arith

-- The second part is for a word that ends in front of `s`.
weight-tokens_step :
    (sep : ℕ → Bool) (s : Bytes)
    → (weight (tokens sep s) ≤ length s + 1)
      × (in_word sep s ≡ false → weight (tokens sep s) ≤ length s)
unfolding tokens in_word weight
weight-tokens_step sep [] = (omega arith, λ h. omega arith)
weight-tokens_step sep (c ∷ s) =
    let rest = weight-tokens_step sep s in
    elim (Bool-cases (sep c)) [
      | inl e ↦ rw e (omega (arith, rest.0), λ h. omega (arith, rest.0))
      | inr e ↦ elim (Bool-cases (in_word sep s)) [
        | inl w ↦
            rw (e, w)
              (weight-prepend c (length s) (tokens sep s) rest.0, λ h. absurd (false≢true (sym h)))
        | inr w ↦ rw (e, w) (omega (arith, rest.1 w), λ h. absurd (false≢true (sym h)))
      ]
    ]

pub weight-tokens : (sep : ℕ → Bool) (s : Bytes) → weight (tokens sep s) ≤ length s + 1
weight-tokens sep s = (weight-tokens_step sep s).0

-- No word is empty.
abbrev pub AreFull : List Bytes → Type 0
AreFull = All (λ t. is_nil t ≡ false)

prepend-AreFull : (c : ℕ) (ts : List Bytes) → AreFull ts → AreFull (prepend c ts)
unfolding prepend is_nil
prepend-AreFull c [] h = (refl, tt)
prepend-AreFull c (t ∷ ts) (h, hs) = (refl, hs)

pub tokens-AreFull : (sep : ℕ → Bool) (s : Bytes) → AreFull (tokens sep s)
unfolding tokens is_nil
tokens-AreFull sep [] = tt
tokens-AreFull sep (c ∷ s) = elim (Bool-cases (sep c)) [
  | inl e ↦ rw e (tokens-AreFull sep s)
  | inr e ↦ elim (Bool-cases (in_word sep s)) [
    | inl w ↦ rw (e, w) (prepend-AreFull c (tokens sep s) (tokens-AreFull sep s))
    | inr w ↦ rw (e, w) (refl, tokens-AreFull sep s)
  ]
]

abbrev keep_other : Bytes → Option MountOpt → List Bytes → List Bytes
keep_other opt none rest = opt ∷ rest
keep_other opt (some mo) rest = rest

-- The options that are not in the table, or that have an equals sign.
unfoldable pub others : List Bytes → List Bytes
others [] = []
others (opt ∷ opts) = keep_other opt (generic opt) (others opts)

strlcat_fits :
    (dst append : Bytes) (size : ℕ)
    → length dst + length append < size
    → (strlcat dst append size).0 ≡ dst ++ append
strlcat_fits dst append size h =
    rw (lt→ltb (length dst) size (omega arith))
      (ap (λ t. dst ++ t) (take_all (size - 1 - length dst) append (omega arith)))

abbrev pub comma : Bytes
comma = b',' ∷ []

append-full : (text opt : Bytes) → is_nil (text ++ (comma ++ opt)) ≡ false
unfolding is_nil
append-full [] opt = refl
append-full (c ∷ text) opt = refl

more_fits :
    (text opt : Bytes) (n size : ℕ)
    → length text + 1 + (length opt + 1 + n) ≤ size
    → length (text ++ (comma ++ opt)) + 1 + n ≤ size
more_fits text opt n size l = omega (arith, length-append text (comma ++ opt))

append_data-more :
    (opt : Bytes) (size : ℕ) (text : Bytes)
    → is_nil text ≡ false
    → length text + 1 + length opt < size
    → append_data opt size text ≡ text ++ (comma ++ opt)
unfolding append_data
append_data-more opt size text h l =
    rw
      (
        h,
        strlcat_fits text comma size (omega arith),
        lt→ltb (length text + length comma) size (omega arith),
        strlcat_fits (text ++ comma) opt size (omega (arith, length-append text comma)),
      )
      (append_assoc text comma opt)

pub append_data-first : (opt : Bytes) (size : ℕ) → length opt < size → append_data opt size [] ≡ opt
unfolding append_data is_nil
append_data-first opt size l = strlcat_fits [] opt size (omega arith)

module _ (opt : Bytes) (opts : List Bytes) (size : ℕ) (f : Flags) (text : Bytes) where
  pub legacy_loop-other :
      generic opt ≡ none
      → legacy_loop (opt ∷ opts) size (f, text)
        ≡ legacy_loop opts size (f, append_data opt size text)
  unfolding legacy_loop parse_mntopt
  legacy_loop-other e = ap (λ g. legacy_loop opts size (mntopt_of opt size (f, text) g)) e

  legacy_loop-generic :
      (mo : MountOpt)
      → generic opt ≡ some mo
      → legacy_loop (opt ∷ opts) size (f, text) ≡ legacy_loop opts size (apply_legacy mo f, text)
  unfolding legacy_loop parse_mntopt
  legacy_loop-generic mo e = ap (λ g. legacy_loop opts size (mntopt_of opt size (f, text) g)) e

module _ (opt : Bytes) (opts : List Bytes) where
  pub others-other : generic opt ≡ none → others (opt ∷ opts) ≡ opt ∷ others opts
  unfolding others
  others-other e = ap (λ g. keep_other opt g (others opts)) e

  pub others-generic : (mo : MountOpt) → generic opt ≡ some mo → others (opt ∷ opts) ≡ others opts
  unfolding others
  others-generic mo e = ap (λ g. keep_other opt g (others opts)) e

legacy_loop-more :
    (opts : List Bytes) (size : ℕ) (f : Flags) (text : Bytes)
    → is_nil text ≡ false
    → length text + 1 + weight opts ≤ size
    → (legacy_loop opts size (f, text)).1 ≡ text ++ join_more comma (others opts)
unfolding weight
legacy_loop-more [] size f text h l = unfold legacy_loop others join_more in sym (append-nil text)
legacy_loop-more (opt ∷ opts) size f text h l = elim (Option-cases (generic opt)) [
  | inl e ↦
      let more =
        legacy_loop-more opts size f (text ++ (comma ++ opt)) (append-full text opt)
          (more_fits text opt (weight opts) size l) in
      rw
        (
          legacy_loop-other opt opts size f text e,
          others-other opt opts e,
          append_data-more opt size text h (omega arith),
        )
        (more
          ∙ append_assoc text (comma ++ opt) (join_more comma (others opts))
          ∙ (unfold join_more in refl))
  | inr (mo, e) ↦
      rw (legacy_loop-generic opt opts size f text mo e, others-generic opt opts mo e)
        (legacy_loop-more opts size (apply_legacy mo f) text h (omega arith))
]

pub legacy_loop-text :
    (opts : List Bytes) (size : ℕ) (f : Flags)
    → AreFull opts
    → weight opts ≤ size
    → (legacy_loop opts size (f, [])).1 ≡ join_parts comma (others opts)
unfolding weight
legacy_loop-text [] size f h l = unfold legacy_loop others join_parts in refl
legacy_loop-text (opt ∷ opts) size f (h, hs) l = elim (Option-cases (generic opt)) [
  | inl e ↦
      rw
        (
          legacy_loop-other opt opts size f [] e,
          others-other opt opts e,
          append_data-first opt size (omega arith),
        )
        (legacy_loop-more opts size f opt h (omega arith) ∙ (unfold join_parts in refl))
  | inr (mo, e) ↦
      rw (legacy_loop-generic opt opts size f [] mo e, others-generic opt opts mo e)
        (legacy_loop-text opts size (apply_legacy mo f) hs (omega arith))
]
