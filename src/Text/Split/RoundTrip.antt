-- ===== src/Text/Split/RoundTrip.antt =====
-- Splitting takes a joined string apart.
use lxc.Base.{
  ℕ, ◌≡◌, refl, ap, sym, ◌∙◌, ◌↔◌, Bytes, List, [], ◌∷◌, ◌++◌, Bool, true, false, not, ◌==◌, All,
  any, Bool-cases, inl, inr, arith,
}
use mathlib.Core.Bool.{false≢true}
use lxc.Text.Number.{is_nil}
use lxc.Text.Compare.{strequal, strequal_iff}
use lxc.Text.Split.{
  in_word, prepend, tokens, lxc_string_split, lxc_string_in_array, lxc_string_in_list, join_more,
  join_parts, lxc_string_join,
}

not-true : (b : Bool) → not b ≡ true → b ≡ false
not-true b h = ground arith

module _ (sep : ℕ → Bool) where
  -- No byte is a separator, and there is one.
  abbrev pub IsWord : Bytes → Type 0
  IsWord t = All (λ c. sep c ≡ false) t × (is_nil t ≡ false)

  pub tokens-skip : (c : ℕ) (s : Bytes) → sep c ≡ true → tokens sep (c ∷ s) ≡ tokens sep s
  unfolding tokens
  tokens-skip c s h = rw h refl

  pub tokens-grow :
      (c : ℕ) (s : Bytes)
      → sep c ≡ false
      → in_word sep s ≡ true
      → tokens sep (c ∷ s) ≡ prepend c (tokens sep s)
  unfolding tokens
  tokens-grow c s h w = rw (h, w) refl

  pub tokens-end :
      (c : ℕ) (s : Bytes)
      → sep c ≡ false
      → in_word sep s ≡ false
      → tokens sep (c ∷ s) ≡ (c ∷ []) ∷ tokens sep s
  unfolding tokens
  tokens-end c s h w = rw (h, w) refl

  pub in_word-cons : (c : ℕ) (s : Bytes) → in_word sep (c ∷ s) ≡ not (sep c)
  unfolding in_word
  in_word-cons c s = refl

  pub in_word-nil : in_word sep [] ≡ false
  unfolding in_word
  in_word-nil = refl

  -- A word that no further byte follows is the first token.
  pub tokens-word :
      (c : ℕ) (t rest : Bytes)
      → sep c ≡ false
      → All (λ c. sep c ≡ false) t
      → in_word sep rest ≡ false
      → tokens sep (c ∷ (t ++ rest)) ≡ (c ∷ t) ∷ tokens sep rest
  tokens-word c [] rest hc ht hr = tokens-end c rest hc hr
  tokens-word c (d ∷ t) rest hc (hd, ht) hr =
      tokens-grow c (d ∷ (t ++ rest)) hc (in_word-cons d (t ++ rest) ∙ ap not hd)
      ∙ rw (tokens-word d t rest hd ht hr) (unfold prepend in refl)

  prepend-append :
      (c : ℕ) (ts us : List Bytes)
      → (t : Bytes) × (r : List Bytes) × (ts ≡ t ∷ r)
      → prepend c (ts ++ us) ≡ prepend c ts ++ us
  unfolding prepend
  prepend-append c ts us (t, r, e) = rw e refl

  prepend-cons : (c : ℕ) (ts : List Bytes) → (t : Bytes) × (r : List Bytes) × (prepend c ts ≡ t ∷ r)
  unfolding prepend
  prepend-cons c [] = (c ∷ [], [], refl)
  prepend-cons c (t ∷ r) = (c ∷ t, r, refl)

  in_word-tokens :
      (s : Bytes) → in_word sep s ≡ true → (t : Bytes) × (r : List Bytes) × (tokens sep s ≡ t ∷ r)
  in_word-tokens [] h = absurd (false≢true (sym in_word-nil ∙ h))
  in_word-tokens (c ∷ s) h =
      let hc = not-true (sep c) (sym (in_word-cons c s) ∙ h) in
      elim (Bool-cases (in_word sep s)) [
        | inl w ↦ rw (tokens-grow c s hc w) (prepend-cons c (tokens sep s))
        | inr w ↦ (c ∷ [], tokens sep s, tokens-end c s hc w)
      ]

  in_word-append :
      (a : Bytes) (c : ℕ) (b : Bytes) → sep c ≡ true → in_word sep (a ++ c ∷ b) ≡ in_word sep a
  unfolding in_word
  in_word-append [] c b h = rw h refl
  in_word-append (x ∷ a) c b h = refl

  -- A separator cuts the tokens in two.
  pub tokens-append :
      (a : Bytes) (c : ℕ) (b : Bytes)
      → sep c ≡ true
      → tokens sep (a ++ c ∷ b) ≡ tokens sep a ++ tokens sep b
  tokens-append [] c b h = tokens-skip c b h ∙ unfold tokens in refl
  tokens-append (x ∷ a) c b h = elim (Bool-cases (sep x)) [
    | inl s ↦
        tokens-skip x (a ++ c ∷ b) s
        ∙ tokens-append a c b h
        ∙ ap (λ ts. ts ++ tokens sep b) (sym (tokens-skip x a s))
    | inr s ↦ elim (Bool-cases (in_word sep a)) [
      | inl w ↦
          tokens-grow x (a ++ c ∷ b) s (in_word-append a c b h ∙ w)
          ∙ rw (tokens-append a c b h, tokens-grow x a s w)
              (prepend-append x (tokens sep a) (tokens sep b) (in_word-tokens a w))
      | inr w ↦
          tokens-end x (a ++ c ∷ b) s (in_word-append a c b h ∙ w)
          ∙ rw (tokens-append a c b h, tokens-end x a s w) refl
    ]
  ]

-- The test for one separator.
abbrev pub is_sep : ℕ → ℕ → Bool
is_sep sep c = c == sep

is_sep_refl : (sep : ℕ) → is_sep sep sep ≡ true
is_sep_refl sep = ground arith

join_more-behind :
    (sep : ℕ) (parts : List Bytes) → in_word (is_sep sep) (join_more (sep ∷ []) parts) ≡ false
unfolding join_more in_word
join_more-behind sep [] = refl
join_more-behind sep (p ∷ parts) = rw (is_sep_refl sep) refl

first-token :
    (sep : ℕ) (p : Bytes) (parts : List Bytes)
    → IsWord (is_sep sep) p
    → tokens (is_sep sep) (p ++ join_more (sep ∷ []) parts)
      ≡ p ∷ tokens (is_sep sep) (join_more (sep ∷ []) parts)
first-token sep [] parts (h, e) = absurd (false≢true (sym e ∙ unfold is_nil in refl))
first-token sep (c ∷ t) parts ((hc, ht), e) =
    tokens-word (is_sep sep) c t (join_more (sep ∷ []) parts) hc ht (join_more-behind sep parts)

tokens-join_more :
    (sep : ℕ) (parts : List Bytes)
    → All (IsWord (is_sep sep)) parts
    → tokens (is_sep sep) (join_more (sep ∷ []) parts) ≡ parts
unfolding join_more
tokens-join_more sep [] h = unfold tokens in refl
tokens-join_more sep (p ∷ parts) (hp, hs) =
    tokens-skip (is_sep sep) sep (p ++ join_more (sep ∷ []) parts) (is_sep_refl sep)
    ∙ first-token sep p parts hp
    ∙ ap (λ (ts : List Bytes). p ∷ ts) (tokens-join_more sep parts hs)

-- Splitting a string that is joined by one separator yields the parts, where no part is empty or
-- holds the separator.
pub string_split-join :
    (sep : ℕ) (parts : List Bytes)
    → All (IsWord (is_sep sep)) parts
    → lxc_string_split (lxc_string_join (sep ∷ []) parts false) sep ≡ parts
unfolding lxc_string_split lxc_string_join join_parts
string_split-join sep [] h = unfold tokens in refl
string_split-join sep (p ∷ parts) (hp, hs) =
    first-token sep p parts hp ∙ ap (λ (ts : List Bytes). p ∷ ts) (tokens-join_more sep parts hs)

in_array-any :
    (needle : Bytes) (parts : List Bytes)
    → lxc_string_in_array needle parts ≡ any (strequal needle) parts
unfolding lxc_string_in_array
in_array-any needle [] = refl
in_array-any needle (p ∷ parts) = ground (arith, in_array-any needle parts)

any-split :
    (needle : Bytes) (parts : List Bytes)
    → any (strequal needle) parts ≡ true
    → (a b : List Bytes) × (parts ≡ a ++ needle ∷ b)
any-split needle [] h = cc
any-split needle (p ∷ parts) h = elim (Bool-cases (strequal needle p)) [
  | inl e ↦ ([], parts, ap (λ (x : Bytes). x ∷ parts) (sym ((strequal_iff needle p).0 e)))
  | inr n ↦
      let (a, b, e) = any-split needle parts (rw (n, any) at h) in
      (p ∷ a, b, ap (λ (ts : List Bytes). p ∷ ts) e)
]

split-any : (needle : Bytes) (a b : List Bytes) → any (strequal needle) (a ++ needle ∷ b) ≡ true
split-any needle [] b = rw ((strequal_iff needle needle).1 refl, any) refl
split-any needle (x ∷ a) b = ground (arith, split-any needle a b)

-- A string is found in a list that is joined by one separator, where no part is empty or holds the
-- separator, if and only if it is one of the parts.
pub string_in_list-join :
    (needle : Bytes) (sep : ℕ) (parts : List Bytes)
    → All (IsWord (is_sep sep)) parts
    → (lxc_string_in_list needle (lxc_string_join (sep ∷ []) parts false) sep ≡ true)
      ↔ ((a b : List Bytes) × (parts ≡ a ++ needle ∷ b))
unfolding lxc_string_in_list lxc_string_split
string_in_list-join needle sep parts h =
    let e =
      ap (lxc_string_in_array needle) (string_split-join sep parts h) ∙ in_array-any needle parts in
    (λ found. any-split needle parts (sym e ∙ found), λ (a, b, q). e ∙ rw q (split-any needle a b))
