-- ===== src/Idmap/Lookup.antt =====
-- struct id_map of src/lxc/conf.h and the look-ups of src/lxc/idmap_utils.c.
pub mod Free
pub mod Host
use lxc.Base.{
  ℕ, zero, suc, ◌+◌, ◌-◌, ◌%◌, ◌^◌, ℤ, pos, negsuc, is_neg, pos_part, List, [], ◌∷◌, Option, none,
  some, Bool, true, false, ◌&&◌, ◌==◌, ltb, leb, if◌then◌else◌, length,
}

pub data IdType : Type 0 where
  id_type_uid id_type_gid : IdType

-- Every field but the type is of type unsigned long.
pub record IdMap : Type 0 where
  pub idtype : IdType
  pub nsid : ℕ
  pub hostid : ℕ
  pub range : ℕ

-- The fields of struct lxc_conf that id mapping reads. The two root maps point to members of the
-- list, which are not changed once they are in it.
pub record LxcConf : Type 0 where
  pub id_map : List IdMap
  pub root_nsuid_map : Option IdMap
  pub root_nsgid_map : Option IdMap
  pub init_uid : ℕ
  pub init_gid : ℕ

unfoldable pub same_type : IdType → IdType → Bool
same_type id_type_uid id_type_uid = true
same_type id_type_uid id_type_gid = false
same_type id_type_gid id_type_uid = false
same_type id_type_gid id_type_gid = true

-- The test `id >= map->hostid && id < map->hostid + map->range`, on unsigned long.
unfoldable pub in_host_range : ℕ → IdMap → Bool
in_host_range id m = leb m.hostid id && ltb id ((m.hostid + m.range) % 2 ^ 64)

unfoldable pub in_ns_range : ℕ → IdMap → Bool
in_ns_range id m = leb m.nsid id && ltb id ((m.nsid + m.range) % 2 ^ 64)

-- An unsigned value as the int that a function returns.
unfoldable pub to_int : ℕ → ℤ
to_int n =
    let bits = n % 2 ^ 32 in if ltb bits (2 ^ 31) then pos bits else negsuc (2 ^ 32 - 1 - bits)

unfoldable pub hostid_loop : ℕ → IdType → List IdMap → ℤ
hostid_loop id t [] = negsuc 0
hostid_loop id t (m ∷ r) =
    if same_type m.idtype t && in_host_range id m
    then to_int (id - m.hostid + m.nsid)
    else hostid_loop id t r

unfoldable pub mapped_hostid : ℕ → LxcConf → IdType → ℤ
mapped_hostid id conf t = hostid_loop id t conf.id_map

-- One pass over the list: the new `freeid` of the `goto again`, or `none` at the end of the list.
unfoldable pub next_free : IdType → List IdMap → ℕ → Option ℕ
next_free t [] freeid = none
next_free t (m ∷ r) freeid =
    if same_type m.idtype t && in_ns_range freeid m
    then some ((m.nsid + m.range) % 2 ^ 32)
    else next_free t r freeid

-- `none` where the passes are not enough.
unfoldable pub unmapped_from : ℕ → IdType → List IdMap → ℕ → Option ℕ
unmapped_from zero t maps freeid = none
unmapped_from (suc passes) t maps freeid = elim (next_free t maps freeid) [
  | none ↦ some freeid
  | some freeid' ↦ unmapped_from passes t maps freeid'
]

-- With one pass more than there are maps; the outer `none` is a loop that takes more passes.
unfoldable pub find_unmapped_nsid : LxcConf → IdType → Option ℤ
find_unmapped_nsid conf t = elim (unmapped_from (suc (length conf.id_map)) t conf.id_map 0) [
  | none ↦ none
  | some freeid ↦ some (to_int freeid)
]

unfoldable pub nsid_loop : ℕ → IdType → List IdMap → Option IdMap
nsid_loop id t [] = none
nsid_loop id t (m ∷ r) =
    if same_type m.idtype t && in_ns_range id m then some m else nsid_loop id t r

unfoldable pub root_map : LxcConf → IdType → Option IdMap
root_map conf id_type_uid = conf.root_nsuid_map
root_map conf id_type_gid = conf.root_nsgid_map

unfoldable pub find_mapped_nsid_entry : LxcConf → ℕ → IdType → Option IdMap
find_mapped_nsid_entry conf id t = if id == 0 then root_map conf t else nsid_loop id t conf.id_map

-- A copy of the entry.
unfoldable pub mapped_nsid_add : LxcConf → ℕ → IdType → Option IdMap
mapped_nsid_add conf id t = find_mapped_nsid_entry conf id t

unfoldable pub find_mapped_hostid_entry : List IdMap → ℕ → IdType → Option IdMap
find_mapped_hostid_entry [] id t = none
find_mapped_hostid_entry (m ∷ r) id t =
    if same_type m.idtype t && in_host_range id m then some m else find_mapped_hostid_entry r id t

unfoldable pub new_entry : ℕ → IdType → ℤ → Option IdMap
new_entry id t hostid_mapped =
    if is_neg hostid_mapped
    then none
    else some (record { idtype = t; nsid = pos_part hostid_mapped; hostid = id; range = 1 })

-- The outer `none` is a look-up of a free id that does not end in time, the inner one is NULL.
unfoldable pub mapped_hostid_add : LxcConf → ℕ → IdType → Option (Option IdMap)
mapped_hostid_add conf id t = elim (find_mapped_hostid_entry conf.id_map id t) [
  | some tmp ↦ some (some tmp)
  | none ↦ elim (find_unmapped_nsid conf t) [
    | none ↦ none
    | some hostid_mapped ↦ some (new_entry id t hostid_mapped)
  ]
]
