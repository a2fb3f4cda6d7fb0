-- ===== src/Idmap/Config.antt =====
-- The id maps of a configuration: set_config_idmaps and get_config_idmaps of src/lxc/confile.c,
-- lxc_clear_idmaps and get_mapped_rootid of src/lxc/conf.c.
pub mod Rooted
use lxc.Base.{
  ℕ, ◌+◌, ◌-◌, ◌%◌, ◌^◌, Bytes, List, [], ◌∷◌, ◌++◌, Option, none, some, Bool, true, false, ◌&&◌,
  ◌==◌, ltb, if◌then◌else◌, length, Result, ok, err, ◌>>=◌, einval, eio,
}
use lxc.Text.Compare.{is_empty_string}
use lxc.Idmap.Parse.{Entry, parse_idmaps, print_entry}
use lxc.Idmap.Lookup.{IdType, id_type_uid, id_type_gid, IdMap, LxcConf, same_type, root_map}

unfoldable pub lxc_config_value_empty : Bytes → Bool
lxc_config_value_empty value = if ltb 0 (length value) then false else true

unfoldable pub lxc_clear_idmaps : LxcConf → LxcConf
lxc_clear_idmaps conf = record conf { root_nsuid_map = none; root_nsgid_map = none; id_map = [] }

-- The assignment to a root map that is not set yet.
unfoldable pub root_of : IdType → Option IdMap → IdMap → Option IdMap
root_of t (some m) idmap = some m
root_of t none idmap = if same_type idmap.idtype t && idmap.nsid == 0 then some idmap else none

unfoldable pub add_idmap : LxcConf → IdMap → LxcConf
add_idmap conf idmap = record conf {
  id_map = conf.id_map ++ idmap ∷ [];
  root_nsuid_map = root_of id_type_uid conf.root_nsuid_map idmap;
  root_nsgid_map = root_of id_type_gid conf.root_nsgid_map idmap;
}

unfoldable pub idtype_of : ℕ → Result IdType
idtype_of type =
    if type == b'u' then ok id_type_uid else if type == b'g' then ok id_type_gid else err einval

unfoldable pub add_entry : LxcConf → Entry → Result LxcConf
add_entry conf e = (do
  idtype ← idtype_of e.type
  ok (
      add_idmap conf
        (record { idtype = idtype; nsid = e.nsid; hostid = e.hostid; range = e.range })))

unfoldable pub set_config_idmaps : Bytes → LxcConf → Result LxcConf
set_config_idmaps value conf =
    if lxc_config_value_empty value
    then ok (lxc_clear_idmaps conf)
    else elim (parse_idmaps value) [ err _ ↦ err einval | ok e ↦ add_entry conf e ]

unfoldable pub type_letter : IdType → ℕ
type_letter id_type_uid = b'u'
type_letter id_type_gid = b'g'

unfoldable pub print_map : IdMap → Bytes
print_map m =
    print_entry
      (record { type = type_letter m.idtype; nsid = m.nsid; hostid = m.hostid; range = m.range })

-- __LXC_IDMAP_STR_BUF: three times INTTYPE_TO_STRLEN(uint32_t), which is 12, and 5.
abbrev pub idmap_str_buf : ℕ
idmap_str_buf = 41

-- The text, for a reader with room for all of it; a newline follows each map but the last.
unfoldable pub print_maps : List IdMap → Result Bytes
print_maps [] = ok []
print_maps (m ∷ []) = if ltb (length (print_map m)) idmap_str_buf then ok (print_map m) else err eio
print_maps (m ∷ m' ∷ r) =
    let rest = print_maps (m' ∷ r) in
    if ltb (length (print_map m)) idmap_str_buf
    then (do more ← rest; ok (print_map m ++ b'\n' ∷ more))
    else err eio

unfoldable pub get_config_idmaps : LxcConf → Result Bytes
get_config_idmaps conf = print_maps conf.id_map

-- LXC_INVALID_UID and LXC_INVALID_GID: -1 of an unsigned type of 32 bits.
abbrev pub invalid_id : ℕ
invalid_id = 2 ^ 32 - 1

unfoldable pub rootid_loop : ℕ → IdType → List IdMap → ℕ
rootid_loop nsid t [] = invalid_id
rootid_loop nsid t (m ∷ r) =
    if same_type m.idtype t && m.nsid == nsid then m.hostid % 2 ^ 32 else rootid_loop nsid t r

unfoldable pub init_id : LxcConf → IdType → ℕ
init_id conf id_type_uid = conf.init_uid
init_id conf id_type_gid = conf.init_gid

-- The id of the container's root user in the namespace: 0 where there is a root map.
unfoldable pub root_nsid : LxcConf → IdType → ℕ
root_nsid conf t = elim (root_map conf t) [ some _ ↦ 0 | none ↦ init_id conf t ]

unfoldable pub get_mapped_rootid : LxcConf → IdType → ℕ
get_mapped_rootid conf t = rootid_loop (root_nsid conf t) t conf.id_map
