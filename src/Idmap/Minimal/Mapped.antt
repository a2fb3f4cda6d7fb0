-- ===== src/Idmap/Minimal/Mapped.antt =====
-- The maps of a new user namespace map the user, and the container's root.
use lxc.Base.{
  ℕ, ◌^◌, ◌<◌, ◌≡◌, refl, sym, ◌∙◌, List, [], ◌∷◌, ◌++◌, some, true, ◌&&◌, Bool-cases, inl, inr,
  any-append, All, arith,
}
use lxc.Idmap.Lookup.{
  IdType, id_type_uid, id_type_gid, IdMap, LxcConf, same_type, in_host_range, in_ns_range,
  mapped_nsid_add, nsid_loop,
}
use lxc.Idmap.Config.Rooted.{IsRooted, IsProper, find_mapped_nsid_entry-loop}
use lxc.Idmap.Lookup.Host.{maps_host, Maps, mapped_hostid_add-Maps}
use lxc.Idmap.Lookup.Free.{IsNarrow, is_mapped}
use lxc.Idmap.Config.{root_nsid}
use lxc.Idmap.Minimal.{
  minimal_of, get_minimal_idmap, maps_user, container_root, full_of, is_some, full_idmap,
}

any-left :
    (t : IdType) (id : ℕ) (a b : List IdMap)
    → maps_host t id a ≡ true
    → maps_host t id (a ++ b) ≡ true
any-left t id a b h =
    rw (any-append (λ (m : IdMap). same_type m.idtype t && in_host_range id m) a b, h)

any-right :
    (t : IdType) (id : ℕ) (a b : List IdMap)
    → maps_host t id b ≡ true
    → maps_host t id (a ++ b) ≡ true
any-right t id a b h =
    rw (any-append (λ (m : IdMap). same_type m.idtype t && in_host_range id m) a b, h)
      (ground arith)

mapped-left :
    (t : IdType) (id : ℕ) (a b : List IdMap)
    → is_mapped t a id ≡ true
    → is_mapped t (a ++ b) id ≡ true
mapped-left t id a b h =
    rw (any-append (λ (m : IdMap). same_type m.idtype t && in_ns_range id m) a b, h)

mapped-right :
    (t : IdType) (id : ℕ) (a b : List IdMap)
    → is_mapped t b id ≡ true
    → is_mapped t (a ++ b) id ≡ true
mapped-right t id a b h =
    rw (any-append (λ (m : IdMap). same_type m.idtype t && in_ns_range id m) a b, h) (ground arith)

any-one : (t : IdType) (id : ℕ) (m : IdMap) → Maps t id m → maps_host t id (m ∷ []) ≡ true
any-one t id m k = ground arith

-- More entries behind those that map the id, and in between.
any-behind :
    (t : IdType) (id : ℕ) (a b c : List IdMap)
    → maps_host t id (a ++ b) ≡ true
    → maps_host t id (a ++ (b ++ c)) ≡ true
any-behind t id [] b c h = any-left t id b c h
any-behind t id (m ∷ r) b c h = ground (arith, any-behind t id r b c)

any-between :
    (t : IdType) (id : ℕ) (a b c : List IdMap)
    → maps_host t id (a ++ c) ≡ true
    → maps_host t id (a ++ (b ++ c)) ≡ true
any-between t id [] b c h = any-right t id b c h
any-between t id (m ∷ r) b c h = ground (arith, any-between t id r b c)

maps_user-maps_host :
    (t : IdType) (id : ℕ) (maps : List IdMap) → maps_user t id maps ≡ maps_host t id maps
unfolding maps_user
maps_user-maps_host t id [] = refl
maps_user-maps_host t id (m ∷ r) = ground (arith, maps_user-maps_host t id r)

full_of-maps :
    (conf : LxcConf) (id : ℕ) (t : IdType)
    → IsNarrow conf.id_map
    → id < 2 ^ 32
    → (maps : List IdMap) × (full_of conf t id ≡ some (some maps))
      × (maps_host t id (conf.id_map ++ maps) ≡ true)
unfolding full_of
full_of-maps conf id t n h = elim (Bool-cases (maps_user t id conf.id_map)) [
  | inl old ↦ (
    [],
    rw old refl,
    any-left t id conf.id_map [] (sym (maps_user-maps_host t id conf.id_map) ∙ old),
  )
  | inr new ↦
      let (m, e, k) = mapped_hostid_add-Maps conf id t n h in
      (m ∷ [], rw (new, e, full_of) refl, any-right t id conf.id_map (m ∷ []) (any-one t id m k))
]

-- Where the entries end below 2^31 and there is one for the root user and one for the root group,
-- the maps of the new namespace are found; they begin with those of the configuration, and the
-- caller's user id and group id are both mapped.
pub full_idmap-maps :
    (conf : LxcConf) (euid egid : ℕ)
    → IsNarrow conf.id_map
    → euid < 2 ^ 32
    → egid < 2 ^ 32
    → is_some (container_root id_type_uid conf.id_map) ≡ true
    → is_some (container_root id_type_gid conf.id_map) ≡ true
    → (more : List IdMap) × (full_idmap conf euid egid ≡ some (some (conf.id_map ++ more)))
      × (maps_host id_type_uid euid (conf.id_map ++ more) ≡ true)
      × (maps_host id_type_gid egid (conf.id_map ++ more) ≡ true)
unfolding full_idmap
full_idmap-maps conf euid egid n u g ru rg =
    let (us, eu, ku) = full_of-maps conf euid id_type_uid n u in
    let (gs, eg, kg) = full_of-maps conf egid id_type_gid n g in
    (
      us ++ gs,
      rw (ru, rg, eu, eg) refl,
      any-behind id_type_uid euid conf.id_map us gs ku,
      any-between id_type_gid egid conf.id_map us gs kg,
    )

nsid_loop-mapped :
    (id : ℕ) (t : IdType) (maps : List IdMap) (m : IdMap)
    → nsid_loop id t maps ≡ some m
    → (same_type m.idtype t && in_ns_range id m) ≡ true
unfolding nsid_loop
nsid_loop-mapped id t [] m h = ground arith
nsid_loop-mapped id t (x ∷ r) m h = elim (Bool-cases (same_type x.idtype t && in_ns_range id x)) [
  | inl hit ↦ ground arith
  | inr miss ↦ nsid_loop-mapped id t r m (ground arith)
]

-- The caller's id is mapped, and so is the id of the root.
abbrev pub IsMinimal : LxcConf → IdType → ℕ → List IdMap → Type 0
IsMinimal conf t id maps =
    (maps_host t id maps ≡ true) × (is_mapped t maps (root_nsid conf t) ≡ true)

module _ (conf : LxcConf) (n : IsNarrow conf.id_map) (rooted : IsRooted conf)
    (proper : All IsProper conf.id_map) where
  minimal_of-IsMinimal :
      (t : IdType) (id : ℕ) (root : IdMap)
      → id < 2 ^ 32
      → nsid_loop (root_nsid conf t) t conf.id_map ≡ some root
      → (maps : List IdMap) × (minimal_of conf t id ≡ some (some maps)) × IsMinimal conf t id maps
  unfolding minimal_of mapped_nsid_add
  minimal_of-IsMinimal t id root h e =
      let found = find_mapped_nsid_entry-loop conf (root_nsid conf t) t rooted proper ∙ e in
      let mapped = nsid_loop-mapped (root_nsid conf t) t conf.id_map root e in
      elim (Bool-cases (in_host_range id root)) [
        | inl own ↦ (
          root ∷ [],
          rw (found, own, minimal_of, mapped_nsid_add) refl,
          (ground arith, ground arith),
        )
        | inr other ↦
            let (m, q, k) = mapped_hostid_add-Maps conf id t n h in
            (
              m ∷ root ∷ [],
              rw (found, other, q, minimal_of, mapped_nsid_add) refl,
              (ground arith, ground arith),
            )
      ]

  -- In a configuration whose root maps are the first entries that begin at 0, and whose entries map
  -- some ids each and end below 2^31, where the root user and the root group are mapped, the minimal
  -- maps are found, and they map the caller's user id and group id and those of the root.
  pub get_minimal_idmap-IsMinimal :
      (euid egid : ℕ) (root_uid root_gid : IdMap)
      → euid < 2 ^ 32
      → egid < 2 ^ 32
      → nsid_loop (root_nsid conf id_type_uid) id_type_uid conf.id_map ≡ some root_uid
      → nsid_loop (root_nsid conf id_type_gid) id_type_gid conf.id_map ≡ some root_gid
      → (maps : List IdMap) × (get_minimal_idmap conf euid egid ≡ some (some maps))
        × IsMinimal conf id_type_uid euid maps
        × IsMinimal conf id_type_gid egid maps
  unfolding get_minimal_idmap
  get_minimal_idmap-IsMinimal euid egid root_uid root_gid u g ru rg =
      let (us, eu, (hu, nu)) = minimal_of-IsMinimal id_type_uid euid root_uid u ru in
      let (gs, eg, (hg, ng)) = minimal_of-IsMinimal id_type_gid egid root_gid g rg in
      (
        us ++ gs,
        rw (eu, eg, get_minimal_idmap) refl,
        (
          any-left id_type_uid euid us gs hu,
          mapped-left id_type_uid (root_nsid conf id_type_uid) us gs nu,
        ),
        (
          any-right id_type_gid egid us gs hg,
          mapped-right id_type_gid (root_nsid conf id_type_gid) us gs ng,
        ),
      )
