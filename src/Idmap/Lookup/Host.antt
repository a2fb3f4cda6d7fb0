-- ===== src/Idmap/Lookup/Host.antt =====
-- mapped_hostid_add of src/lxc/idmap_utils.c: an entry for an id of the host.
use lxc.Base.{
  ℕ, ◌^◌, ◌<◌, ◌≡◌, refl, ◌⊎◌, List, [], ◌∷◌, none, some, Bool, true, false, ◌&&◌, Bool-cases,
  Option-cases, inl, inr, any, arith,
}
use lxc.Idmap.Lookup.{
  IdType, id_type_uid, id_type_gid, IdMap, LxcConf, same_type, in_host_range, mapped_hostid_add,
  find_mapped_hostid_entry, new_entry,
}
use lxc.Idmap.Lookup.Free.{IsNarrow, IsFirstFree, find_unmapped_nsid-IsFirstFree}

-- Some entry of the type maps the id of the host.
abbrev pub maps_host : IdType → ℕ → List IdMap → Bool
maps_host t id maps = any (λ (m : IdMap). same_type m.idtype t && in_host_range id m) maps

abbrev pub Maps : IdType → ℕ → IdMap → Type 0
Maps t id m = (same_type m.idtype t && in_host_range id m) ≡ true

same_type_refl : (t : IdType) → same_type t t ≡ true
unfolding same_type
same_type_refl id_type_uid = refl
same_type_refl id_type_gid = refl

find_mapped_hostid_entry-Maps :
    (maps : List IdMap) (id : ℕ) (t : IdType) (m : IdMap)
    → find_mapped_hostid_entry maps id t ≡ some m
    → Maps t id m
unfolding find_mapped_hostid_entry
find_mapped_hostid_entry-Maps [] id t m h = ground arith
find_mapped_hostid_entry-Maps (x ∷ r) id t m h =
    elim (Bool-cases (same_type x.idtype t && in_host_range id x)) [
      | inl hit ↦ ground arith
      | inr miss ↦ find_mapped_hostid_entry-Maps r id t m (ground arith)
    ]

find_mapped_hostid_entry-none :
    (maps : List IdMap) (id : ℕ) (t : IdType)
    → find_mapped_hostid_entry maps id t ≡ none
    → maps_host t id maps ≡ false
unfolding find_mapped_hostid_entry
find_mapped_hostid_entry-none [] id t h = refl
find_mapped_hostid_entry-none (x ∷ r) id t h = ground (arith, find_mapped_hostid_entry-none r id t)

-- The entry that is made for an id of the host alone.
abbrev pub single : ℕ → IdType → ℕ → IdMap
single id t free = record { idtype = t; nsid = free; hostid = id; range = 1 }

-- Where the entries end below 2^31, the search for an id of the host ends and succeeds: where some
-- entry of the type maps the id, the answer is the first such entry, and otherwise an entry for that
-- id alone, at the smallest id of the namespace that no entry of the type maps.
pub mapped_hostid_add-entry :
    (conf : LxcConf) (id : ℕ) (t : IdType)
    → IsNarrow conf.id_map
    → ((m : IdMap) × (find_mapped_hostid_entry conf.id_map id t ≡ some m)
        × (mapped_hostid_add conf id t ≡ some (some m)))
      ⊎ ((free : ℕ) × (maps_host t id conf.id_map ≡ false)
          × IsFirstFree t conf.id_map free
          × (mapped_hostid_add conf id t ≡ some (some (single id t free))))
unfolding mapped_hostid_add
mapped_hostid_add-entry conf id t n =
    elim (Option-cases (find_mapped_hostid_entry conf.id_map id t)) [
      | inl e ↦
          let (free, q, f) = find_unmapped_nsid-IsFirstFree conf t n in
          inr (
            free,
            find_mapped_hostid_entry-none conf.id_map id t e,
            f,
            rw (e, q, mapped_hostid_add) (unfold new_entry in refl),
          )
      | inr (m, e) ↦ inl (m, e, rw (e, mapped_hostid_add) refl)
    ]

single-Maps : (id : ℕ) (t : IdType) (free : ℕ) → id < 2 ^ 32 → Maps t id (single id t free)
unfolding in_host_range
single-Maps id t free h = rw (same_type_refl t) (ground arith)

-- Either way the entry maps the id.
pub mapped_hostid_add-Maps :
    (conf : LxcConf) (id : ℕ) (t : IdType)
    → IsNarrow conf.id_map
    → id < 2 ^ 32
    → (m : IdMap) × (mapped_hostid_add conf id t ≡ some (some m)) × Maps t id m
mapped_hostid_add-Maps conf id t n h = elim (mapped_hostid_add-entry conf id t n) [
  | inl (m, f, e) ↦ (m, e, find_mapped_hostid_entry-Maps conf.id_map id t m f)
  | inr (free, _, _, e) ↦ (single id t free, e, single-Maps id t free h)
]
