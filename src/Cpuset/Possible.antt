-- ===== src/Cpuset/Possible.antt =====
-- lxc_cpumask: which bits are set for a list of ranges.
use mathlib.Core.Bool.{false≢true}
use lxc.Base.{
  or_false, ℕ, zero, suc, ◌+◌, ◌-◌, ◌≤◌, ◌<◌, ◌≡◌, refl, sym, ap, ◌∙◌, lt→ltb, List, [], ◌∷◌, Bool,
  true, false, ◌&&◌, ◌||◌, leb, ltb, ◌==◌, some, Bytes, if◌then◌else◌, arith,
}
use lxc.Cpuset.{
  Mask, Masking, masked, ranges, set_bit, set_range, with_range, mask_token, mask_loop, no_cpus,
  lxc_cpumask,
}

-- The number is in one of the ranges.
unfoldable pub covers : List (ℕ × ℕ) → ℕ → Bool
covers [] n = false
covers ((first, last) ∷ rs) n = (leb first n && leb n last) || covers rs n

-- The ranges are in order, and end below 256.
unfoldable pub IsSmall : List (ℕ × ℕ) → Type 0
IsSmall [] = Unit
IsSmall ((first, last) ∷ rs) = (first ≤ last) × (last < 256) × IsSmall rs

-- The mask has the bits from `first` to below `last` besides those that it had.
record Sets (first last : ℕ) (m m' : Mask) : Type 0 where
  bits : m'.bits ≡ m.bits
  is_set : (n : ℕ) → m'.is_set n ≡ (m.is_set n || (leb first n && ltb n last))

set_none : (b : Bool) (first n : ℕ) → b ≡ (b || (leb first n && ltb n (first + 0)))
set_none true first n = refl
set_none false first n = ground arith

set_first :
    (b : Bool) (first k n : ℕ)
    → ((if n == first then true else b) || (leb (first + 1) n && ltb n (first + 1 + k)))
      ≡ (b || (leb first n && ltb n (first + suc k)))
set_first true first k n = ground arith
set_first false first k n = ground arith

set_range-Sets :
    (k first : ℕ) (m : Mask)
    → first + k ≤ m.bits
    → (m' : Mask) × (set_range k first m ≡ some m') × Sets first (first + k) m m'
unfolding set_range set_bit
set_range-Sets zero first m h =
    (m, refl, record { bits = refl; is_set = λ n. set_none (m.is_set n) first n })
set_range-Sets (suc k) first m h =
    let below : first < m.bits = omega arith in
    let rest =
      set_range-Sets k (first + 1)
        (record m { is_set = λ j. if j == first then true else m.is_set j }) (omega arith) in
    (
      rest.0,
      rw (set_range, set_bit, lt→ltb first m.bits below) rest.1,
      record {
        bits = rest.2.bits;
        is_set = λ n. rest.2.is_set n ∙ set_first (m.is_set n) first k n;
      },
    )

or_assoc : (a b c : Bool) → ((a || (b || false)) || c) ≡ (a || (b || c))
or_assoc true b c = refl
or_assoc false true c = refl
or_assoc false false c = refl

-- No more than the first 256 bits were used, and `n` is set if it is one of those that are covered.
record Holds (rs : List (ℕ × ℕ)) (s s' : Masking) : Type 0 where
  bits : s'.mask.bits ≡ 256
  nbits : s'.nbits ≡ 256
  is_set : (n : ℕ) → s'.mask.is_set n ≡ (s.mask.is_set n || covers rs n)
  grows : s.cur_last_set_bit ≤ s'.cur_last_set_bit
  last : (n : ℕ) → covers rs n ≡ true → n ≤ s'.cur_last_set_bit

one_range :
    (b : Bool) (first last n : ℕ)
    → first ≤ last
    → (b || (leb first n && ltb n (first + (last + 1 - first))))
      ≡ (b || ((leb first n && leb n last) || false))
one_range true first last n h = refl
one_range false first last n h = ground arith

in_order : (first last : ℕ) → first ≤ last → leb first last ≡ true
in_order first last h = ground arith

fits : (nbits last : ℕ) → last < nbits → leb nbits last ≡ false
fits nbits last h = ground arith

with_range-some :
    (first last : ℕ) (s : Masking) (m : Mask)
    → set_range (last + 1 - first) first s.mask ≡ some m
    → with_range (first, last) (some s)
      ≡ masked (record s {
        mask = m;
        cur_last_set_bit = if ltb s.cur_last_set_bit last then last else s.cur_last_set_bit;
      })
with_range-some first last s m h = rw (with_range, h) refl

not_below : (last new : ℕ) → last ≤ (if ltb last new then new else last)
not_below last new = ground arith

in_range :
    (first last n old : ℕ)
    → ((leb first n && leb n last) || false) ≡ true
    → n ≤ (if ltb old last then last else old)
in_range first last n old h = ground arith

le_then : (a b c : ℕ) → a ≤ b → b ≤ c → a ≤ c
le_then a b c h h' = omega arith

in_either :
    (a b : Bool) (n last last' : ℕ)
    → ((a || false) ≡ true → n ≤ last)
    → last ≤ last'
    → (b ≡ true → n ≤ last')
    → (a || b) ≡ true
    → n ≤ last'
in_either true b n last last' f l g h = le_then n last last' (f refl) l
in_either false b n last last' f l g h = g h

mask_token-Holds :
    (first last : ℕ) (s : Masking)
    → first ≤ last
    → last < 256
    → s.mask.bits ≡ 256
    → s.nbits ≡ 256
    → (s' : Masking) × (mask_token (first, last) s ≡ masked s') × Holds ((first, last) ∷ []) s s'
unfolding mask_token covers
mask_token-Holds first last s h l e e' =
    let sets = set_range-Sets (last + 1 - first) first s.mask (omega arith) in
    (
      record s {
        mask = sets.0;
        cur_last_set_bit = if ltb s.cur_last_set_bit last then last else s.cur_last_set_bit;
      },
      rw (mask_token, in_order first last h, fits s.nbits last (omega arith))
          (with_range-some first last s sets.0 sets.1),
      record {
        bits = sets.2.bits ∙ e;
        nbits = e';
        is_set = λ n. sets.2.is_set n ∙ one_range (s.mask.is_set n) first last n h;
        grows = not_below s.cur_last_set_bit last;
        last = λ n c. in_range first last n s.cur_last_set_bit c;
      },
    )

mask_loop-Holds :
    (rs : List (ℕ × ℕ)) (s : Masking)
    → IsSmall rs
    → s.mask.bits ≡ 256
    → s.nbits ≡ 256
    → (s' : Masking) × (mask_loop rs s ≡ masked s') × Holds rs s s'
unfolding mask_loop covers IsSmall
mask_loop-Holds [] s h e e' = (
  s,
  refl,
  record {
    bits = e;
    nbits = e';
    is_set = λ n. sym (or_false (s.mask.is_set n));
    grows = omega arith;
    last = λ n c. absurd (false≢true c);
  },
)
mask_loop-Holds ((first, last) ∷ rs) s (h, l, hs) e e' =
    let one = mask_token-Holds first last s h l e e' in
    let rest = mask_loop-Holds rs one.0 hs one.2.bits one.2.nbits in
    (
      rest.0,
      rw (mask_loop, one.1) rest.1,
      record {
        bits = rest.2.bits;
        nbits = rest.2.nbits;
        is_set = λ n.
            rest.2.is_set n
            ∙ ap (λ b. b || covers rs n) (one.2.is_set n)
            ∙ or_assoc (s.mask.is_set n) (leb first n && leb n last) (covers rs n);
        grows =
            le_then s.cur_last_set_bit one.0.cur_last_set_bit rest.0.cur_last_set_bit one.2.grows
              rest.2.grows;
        last = λ n c.
            in_either (leb first n && leb n last) (covers rs n) n one.0.cur_last_set_bit
              rest.0.cur_last_set_bit (one.2.last n) rest.2.grows (rest.2.last n) c;
      },
    )

pub lxc_cpumask-covers :
    (buf : Bytes)
    → IsSmall (ranges buf)
    → (s : Masking) × (lxc_cpumask buf ≡ masked s)
      × ((n : ℕ) → s.mask.is_set n ≡ covers (ranges buf) n)
      × ((n : ℕ) → covers (ranges buf) n ≡ true → n ≤ s.cur_last_set_bit)
unfolding lxc_cpumask
lxc_cpumask-covers buf h =
    let built = mask_loop-Holds (ranges buf) no_cpus h refl refl in
    (built.0, built.1, built.2.is_set, built.2.last)
