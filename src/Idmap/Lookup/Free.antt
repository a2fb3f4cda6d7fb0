-- ===== src/Idmap/Lookup/Free.antt =====
-- find_unmapped_nsid finds the smallest id of the namespace that no entry maps.
use lxc.Base.{
  ℕ, zero, suc, pos, ◌+◌, ◌%◌, ◌^◌, ◌≤◌, ◌<◌, ◌≡◌, refl, List, [], ◌∷◌, none, some, Bool, true,
  false, ◌&&◌, ltb, if◌then◌else◌, Bool-cases, Option-cases, inl, inr, any, All, length, arith,
  ltb→lt,
}
use lxc.Idmap.Lookup.{
  IdType, IdMap, LxcConf, same_type, in_ns_range, next_free, unmapped_from, find_unmapped_nsid,
  to_int,
}

-- Some entry of the type maps the id of the namespace.
abbrev pub is_mapped : IdType → List IdMap → ℕ → Bool
is_mapped t maps id = any (λ (m : IdMap). same_type m.idtype t && in_ns_range id m) maps

-- The ids of an entry are of type int and at least 0, and so is the id behind them.
abbrev pub IsNarrow : List IdMap → Type 0
IsNarrow maps = All (λ (m : IdMap). m.nsid + m.range < 2 ^ 31) maps

-- The entries of the type that end behind the id.
abbrev count : IdType → List IdMap → ℕ → ℕ
count t [] freeid = 0
count t (m ∷ r) freeid =
    let rest = count t r freeid in
    if same_type m.idtype t && ltb freeid (m.nsid + m.range) then suc rest else rest

count_mono : (t : IdType) (maps : List IdMap) (a b : ℕ) → a ≤ b → count t maps b ≤ count t maps a
count_mono t [] a b h = omega arith
count_mono t (m ∷ r) a b h = ground (arith, count_mono t r a b h)

count_le_length : (t : IdType) (maps : List IdMap) (a : ℕ) → count t maps a ≤ length maps
count_le_length t [] a = omega arith
count_le_length t (m ∷ r) a = ground (arith, count_le_length t r a)

-- An entry that is narrow is left behind.
left_range :
    (m : IdMap) (a : ℕ)
    → m.nsid + m.range < 2 ^ 31
    → in_ns_range a m ≡ true
    → (a < (m.nsid + m.range) % 2 ^ 32) × ((m.nsid + m.range) % 2 ^ 32 ≡ m.nsid + m.range)
unfolding in_ns_range
left_range m a n h = ground arith

range-between :
    (m : IdMap) (a j : ℕ)
    → m.nsid + m.range < 2 ^ 31
    → in_ns_range a m ≡ true
    → a ≤ j
    → j < m.nsid + m.range
    → in_ns_range j m ≡ true
unfolding in_ns_range
range-between m a j n h low high = ground arith

next_free-lt :
    (t : IdType) (maps : List IdMap) (a b : ℕ) → IsNarrow maps → next_free t maps a ≡ some b → a < b
unfolding next_free
next_free-lt t [] a b n h = ground arith
next_free-lt t (m ∷ r) a b (n, ns) h = ground (arith, left_range m a n, next_free-lt t r a b ns)

next_free-count :
    (t : IdType) (maps : List IdMap) (a b : ℕ)
    → IsNarrow maps
    → next_free t maps a ≡ some b
    → count t maps b < count t maps a
unfolding next_free
next_free-count t [] a b n h = ground arith
next_free-count t (m ∷ r) a b (n, ns) h =
    elim (Bool-cases (same_type m.idtype t && in_ns_range a m)) [
      | inl hit ↦ ground (arith, left_range m a n, count_mono t r a b)
      | inr miss ↦ ground (arith, next_free-count t r a b ns, next_free-lt t r a b ns)
    ]

next_free-mapped :
    (t : IdType) (maps : List IdMap) (a b j : ℕ)
    → IsNarrow maps
    → next_free t maps a ≡ some b
    → a ≤ j
    → j < b
    → is_mapped t maps j ≡ true
unfolding next_free
next_free-mapped t [] a b j n h low high = ground arith
next_free-mapped t (m ∷ r) a b j (n, ns) h low high =
    elim (Bool-cases (same_type m.idtype t && in_ns_range a m)) [
      | inl hit ↦ ground (arith, left_range m a n, range-between m a j n)
      | inr miss ↦ ground (arith, next_free-mapped t r a b j ns)
    ]

next_free-fits :
    (t : IdType) (maps : List IdMap) (a b : ℕ)
    → IsNarrow maps
    → next_free t maps a ≡ some b
    → b < 2 ^ 31
unfolding next_free
next_free-fits t [] a b n h = ground arith
next_free-fits t (m ∷ r) a b (n, ns) h = ground (arith, next_free-fits t r a b ns)

next_free-none :
    (t : IdType) (maps : List IdMap) (a : ℕ)
    → next_free t maps a ≡ none
    → is_mapped t maps a ≡ false
unfolding next_free
next_free-none t [] a h = refl
next_free-none t (m ∷ r) a h = ground (arith, next_free-none t r a)

-- Every id below `id` is mapped, and `id` is not; it is of type int.
pub record IsFirstFree (t : IdType) (maps : List IdMap) (id : ℕ) : Type 0 where
  pub free : is_mapped t maps id ≡ false
  pub fits : id < 2 ^ 31
  pub first : (j : ℕ) → j < id → is_mapped t maps j ≡ true

unmapped_from-IsFirstFree :
    (passes : ℕ) (t : IdType) (maps : List IdMap) (a : ℕ)
    → IsNarrow maps
    → count t maps a < passes
    → a < 2 ^ 31
    → ((j : ℕ) → j < a → is_mapped t maps j ≡ true)
    → (id : ℕ) × (unmapped_from passes t maps a ≡ some id) × IsFirstFree t maps id
unfolding unmapped_from
unmapped_from-IsFirstFree zero t maps a n c l h = absurd (omega (arith, c))
unmapped_from-IsFirstFree (suc passes) t maps a n c l h = elim (Option-cases (next_free t maps a)) [
  | inl e ↦ (
    a,
    rw (e, unmapped_from) refl,
    record { free = next_free-none t maps a e; fits = l; first = h },
  )
  | inr (b, e) ↦
      rw (e, unmapped_from)
        (unmapped_from-IsFirstFree passes t maps b n (omega (arith, next_free-count t maps a b n e))
          (next_free-fits t maps a b n e)
          (λ j below. elim (Bool-cases (ltb j a)) [
            | inl old ↦ h j (ltb→lt j a old)
            | inr new ↦ next_free-mapped t maps a b j n e (ground arith) below
          ]))
]

to_int-small : (n : ℕ) → n < 2 ^ 31 → to_int n ≡ pos n
unfolding to_int
to_int-small n h = ground arith

-- Where the entries end below 2^31, one pass more than there are entries ends the search, and what
-- is found is the smallest id of the namespace that no entry of the type maps.
pub find_unmapped_nsid-IsFirstFree :
    (conf : LxcConf) (t : IdType)
    → IsNarrow conf.id_map
    → (id : ℕ) × (find_unmapped_nsid conf t ≡ some (pos id)) × IsFirstFree t conf.id_map id
unfolding find_unmapped_nsid
find_unmapped_nsid-IsFirstFree conf t n =
    let (id, e, f) =
      unmapped_from-IsFirstFree (suc (length conf.id_map)) t conf.id_map 0 n
        (omega (arith, count_le_length t conf.id_map 0)) (omega arith)
        (λ j below. absurd (omega (arith, below))) in
    (id, rw (e, find_unmapped_nsid, to_int-small id f.fits) refl, f)
