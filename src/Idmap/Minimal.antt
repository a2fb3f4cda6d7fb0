-- ===== src/Idmap/Minimal.antt =====
-- The id maps of a new user namespace: get_minimal_idmap and userns_exec_full of src/lxc/conf.c.
pub mod Mapped
use lxc.Base.{
  ℕ, List, [], ◌∷◌, ◌++◌, Option, none, some, Bool, true, false, ◌&&◌, ◌==◌, if◌then◌else◌,
}
use lxc.Idmap.Lookup.{
  IdType, id_type_uid, id_type_gid, IdMap, LxcConf, same_type, in_host_range, mapped_nsid_add,
  mapped_hostid_add,
}
use lxc.Idmap.Config.{root_nsid}

-- The maps of one type that get_minimal_idmap adds: the user's, and the root's where it is another.
unfoldable pub minimal_of : LxcConf → IdType → ℕ → Option (Option (List IdMap))
minimal_of conf t id = elim (mapped_nsid_add conf (root_nsid conf t) t) [
  | none ↦ some none
  | some container_root ↦
      if in_host_range id container_root
      then some (some (container_root ∷ []))
      else elim (mapped_hostid_add conf id t) [
        | none ↦ none
        | some none ↦ some none
        | some (some host_map) ↦ some (some (host_map ∷ container_root ∷ []))
      ]
]

-- The outer `none` is a look-up that does not end in time, the inner one is a failure.
unfoldable pub get_minimal_idmap : LxcConf → ℕ → ℕ → Option (Option (List IdMap))
get_minimal_idmap conf euid egid = elim (minimal_of conf id_type_uid euid) [
  | none ↦ none
  | some none ↦ some none
  | some (some uid_maps) ↦ elim (minimal_of conf id_type_gid egid) [
    | none ↦ none
    | some none ↦ some none
    | some (some gid_maps) ↦ some (some (uid_maps ++ gid_maps))
  ]
]

-- What the loop of userns_exec_full finds for one type: whether some entry maps the user's id, and
-- the first entry for the root.
unfoldable pub maps_user : IdType → ℕ → List IdMap → Bool
maps_user t id [] = false
maps_user t id (m ∷ r) =
    if same_type m.idtype t && in_host_range id m then true else maps_user t id r

unfoldable pub container_root : IdType → List IdMap → Option IdMap
container_root t [] = none
container_root t (m ∷ r) =
    if same_type m.idtype t && m.nsid == 0 then some m else container_root t r

-- The entry that is added for the user, if any: host_uid_map is the root's entry where some entry
-- maps the user already, and that one is not added again.
unfoldable pub full_of : LxcConf → IdType → ℕ → Option (Option (List IdMap))
full_of conf t id =
    if maps_user t id conf.id_map then some (some []) else elim (mapped_hostid_add conf id t) [
      | none ↦ none
      | some none ↦ some none
      | some (some host_map) ↦ some (some (host_map ∷ []))
    ]

unfoldable pub is_some : Option IdMap → Bool
is_some none = false
is_some (some m) = true

-- The list that userns_exec_full hands to lxc_map_ids.
unfoldable pub full_idmap : LxcConf → ℕ → ℕ → Option (Option (List IdMap))
full_idmap conf euid egid =
    if is_some (container_root id_type_uid conf.id_map)
      && is_some (container_root id_type_gid conf.id_map)
    then elim (full_of conf id_type_uid euid) [
      | none ↦ none
      | some none ↦ some none
      | some (some uid_maps) ↦ elim (full_of conf id_type_gid egid) [
        | none ↦ none
        | some none ↦ some none
        | some (some gid_maps) ↦ some (some (conf.id_map ++ (uid_maps ++ gid_maps)))
      ]
    ]
    else some none
