-- ===== src/Idmap/Tests.antt =====
-- The id maps of a configuration for 65536 ids, as shipped for unprivileged containers.
use lxc.Base.{
  not, ℕ, ◌<◌, ◌≡◌, refl, inl, pos, codes, List, [], ◌∷◌, ◌++◌, none, some, true, false, ◌||◌,
  if◌then◌else◌, OnOk, length, ok, arith,
}
use lxc.Idmap.Parse.{Entry, parse_idmaps, print_entry}
use lxc.Idmap.Parse.RoundTrip.{parse_idmaps-print}
use lxc.Idmap.Lookup.{
  IdType, id_type_uid, id_type_gid, IdMap, LxcConf, find_unmapped_nsid, nsid_loop,
  find_mapped_nsid_entry, find_mapped_hostid_entry, mapped_hostid_add, same_type, in_ns_range,
  in_host_range, next_free, unmapped_from, root_map,
}
use lxc.Idmap.Lookup.Free.{IsNarrow, IsFirstFree, find_unmapped_nsid-IsFirstFree}
use lxc.Idmap.Config.{set_config_idmaps, root_nsid}
use lxc.Idmap.Config.Rooted.{IsRooted, set_config_idmaps-IsRooted}
use lxc.Idmap.Minimal.{full_idmap, container_root, is_some}
use lxc.Idmap.Minimal.Mapped.{full_idmap-maps}
use lxc.Idmap.Lookup.Host.{maps_host}
use lxc.Text.Decimal.{decimal, digits_of}
use lxc.Text.Number.{is_nil}
use lxc.Idmap.Write.{System, idmaplen, use_shadow, lxc_map_ids}
use lxc.Idmap.Write.Events.{IsDirect, lines, has_type, writes, lxc_map_ids-written}

abbrev entry : Entry
entry = record { type = b'u'; nsid = 0; hostid = 100000; range = 65536 }

parse_idmaps-print_example : parse_idmaps (print_entry entry) ≡ ok entry
parse_idmaps-print_example =
    parse_idmaps-print entry (inl refl) (omega arith) (omega arith) (omega arith)

abbrev uid_map : IdMap
uid_map = record { idtype = id_type_uid; nsid = 0; hostid = 100000; range = 65536 }

abbrev gid_map : IdMap
gid_map = record { idtype = id_type_gid; nsid = 0; hostid = 200000; range = 65536 }

abbrev conf : LxcConf
conf = record {
  id_map = uid_map ∷ gid_map ∷ [];
  root_nsuid_map = some uid_map;
  root_nsgid_map = some gid_map;
  init_uid = 0;
  init_gid = 0;
}

conf-IsNarrow : IsNarrow conf.id_map
conf-IsNarrow = (omega arith, (omega arith, tt))

conf-IsRooted : IsRooted conf
unfolding root_map same_type
conf-IsRooted id_type_uid = refl
conf-IsRooted id_type_gid = refl

find_unmapped_nsid-IsFirstFree_example :
    (id : ℕ) × (find_unmapped_nsid conf id_type_uid ≡ some (pos id))
    × IsFirstFree id_type_uid conf.id_map id
find_unmapped_nsid-IsFirstFree_example =
    find_unmapped_nsid-IsFirstFree conf id_type_uid conf-IsNarrow

-- The id behind the only entry.
unmapped_id : find_unmapped_nsid conf id_type_uid ≡ some (pos 65536)
unfolding find_unmapped_nsid unmapped_from next_free same_type in_ns_range lxc.Idmap.Lookup.to_int
unmapped_id = refl

set_config_idmaps-IsRooted_example :
    OnOk IsRooted (set_config_idmaps (codes "u 1000 9900 100") conf)
set_config_idmaps-IsRooted_example =
    set_config_idmaps-IsRooted (codes "u 1000 9900 100") conf conf-IsRooted

root_entry : find_mapped_nsid_entry conf 0 id_type_gid ≡ some gid_map
unfolding find_mapped_nsid_entry root_map
root_entry = refl

root_uid : is_some (container_root id_type_uid conf.id_map) ≡ true
unfolding is_some container_root same_type
root_uid = refl

root_gid : is_some (container_root id_type_gid conf.id_map) ≡ true
unfolding is_some container_root same_type
root_gid = refl

full_idmap-maps_example :
    (more : List IdMap) × (full_idmap conf 1000 1000 ≡ some (some (conf.id_map ++ more)))
    × (maps_host id_type_uid 1000 (conf.id_map ++ more) ≡ true)
    × (maps_host id_type_gid 1000 (conf.id_map ++ more) ≡ true)
full_idmap-maps_example =
    full_idmap-maps conf 1000 1000 conf-IsNarrow (omega arith) (omega arith) root_uid root_gid

loop_uid : nsid_loop (root_nsid conf id_type_uid) id_type_uid conf.id_map ≡ some uid_map
unfolding nsid_loop root_nsid root_map same_type in_ns_range
loop_uid = refl

loop_gid : nsid_loop (root_nsid conf id_type_gid) id_type_gid conf.id_map ≡ some gid_map
unfolding nsid_loop root_nsid root_map same_type in_ns_range
loop_gid = refl

-- A user without the tools.
abbrev system : System
system = record {
  euid = 1000;
  egid = 1000;
  uidmap = pos 0;
  gidmap = pos 0;
  open_setgroups = none;
  write_deny = true;
  write_map = λ t buf. not (is_nil buf);
  run_command = λ buf. false;
}

abbrev own : List IdMap
own = record { idtype = id_type_uid; nsid = 0; hostid = 1000; range = 1 } ∷ []

own-room : (t : IdType) → length (lines false t own) < idmaplen
unfolding lxc.Idmap.Write.map_line same_type decimal digits_of
own-room id_type_uid = omega arith
own-room id_type_gid = omega arith

own-IsDirect : IsDirect system own
unfolding use_shadow same_type lxc.Idmap.Write.is_positive is_some find_mapped_hostid_entry
    in_host_range
own-IsDirect = record {
  direct = refl;
  setgroups = refl;
  denied = refl;
  written = λ t buf. refl;
  room = own-room;
}

lxc_map_ids-written_example : lxc_map_ids system own 7 ≡ (
  (if has_type id_type_uid own then writes system id_type_uid own else [])
      ++ (if has_type id_type_uid own || has_type id_type_gid own
          then writes system id_type_gid own
          else []),
  not (has_type id_type_uid own) || has_type id_type_gid own,
)
lxc_map_ids-written_example = lxc_map_ids-written system own 7 own-IsDirect
