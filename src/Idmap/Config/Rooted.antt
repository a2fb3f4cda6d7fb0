-- ===== src/Idmap/Config/Rooted.antt =====
-- The root maps are the first entries that map the root user.
use lxc.Base.{
  ℕ, zero, suc, ◌+◌, ◌%◌, ◌^◌, ◌<◌, ◌≡◌, refl, ap, sym, ◌∙◌, ◌⊎◌, Bytes, List, [], ◌∷◌, ◌++◌,
  Option, none, some, false, ◌&&◌, ◌==◌, if◌then◌else◌, Bool-cases, inl, inr, All, arith, Result,
  OnOk, OnOk->>=, OnOk-true, ok, err, einval,
}
use lxc.Idmap.Parse.{Entry, parse_idmaps, print_entry}
use lxc.Idmap.Parse.RoundTrip.{parse_idmaps-print}
use lxc.Idmap.Lookup.{
  IdType, id_type_uid, id_type_gid, IdMap, LxcConf, same_type, root_map, in_ns_range, nsid_loop,
  find_mapped_nsid_entry,
}
use lxc.Idmap.Config.{
  lxc_config_value_empty, lxc_clear_idmaps, root_of, add_idmap, add_entry, idtype_of,
  set_config_idmaps, print_map, type_letter, rootid_loop, root_nsid, get_mapped_rootid,
}

-- The first entry of the type that begins at id 0.
abbrev pub first_root : IdType → List IdMap → Option IdMap
first_root t [] = none
first_root t (m ∷ r) = if same_type m.idtype t && m.nsid == 0 then some m else first_root t r

abbrev pub IsRooted : LxcConf → Type 0
IsRooted conf = (t : IdType) → root_map conf t ≡ first_root t conf.id_map

first_root-append :
    (t : IdType) (maps : List IdMap) (m : IdMap)
    → first_root t (maps ++ m ∷ []) ≡ root_of t (first_root t maps) m
unfolding root_of
first_root-append t [] m = ground arith
first_root-append t (x ∷ r) m = ground (arith, first_root-append t r m)

root_map-add :
    (conf : LxcConf) (m : IdMap) (t : IdType)
    → root_map (add_idmap conf m) t ≡ root_of t (root_map conf t) m
unfolding root_map add_idmap
root_map-add conf m id_type_uid = refl
root_map-add conf m id_type_gid = refl

add_idmap-IsRooted : (conf : LxcConf) (m : IdMap) → IsRooted conf → IsRooted (add_idmap conf m)
unfolding add_idmap
add_idmap-IsRooted conf m h t =
    root_map-add conf m t
    ∙ ap (λ (o : Option IdMap). root_of t o m) (h t)
    ∙ sym (first_root-append t conf.id_map m)

clear-IsRooted : (conf : LxcConf) → IsRooted (lxc_clear_idmaps conf)
unfolding lxc_clear_idmaps root_map
clear-IsRooted conf id_type_uid = refl
clear-IsRooted conf id_type_gid = refl

add_entry-IsRooted : (conf : LxcConf) (e : Entry) → IsRooted conf → OnOk IsRooted (add_entry conf e)
unfolding add_entry
add_entry-IsRooted conf e h =
    OnOk->>= _ IsRooted (idtype_of e.type) _ (OnOk-true (idtype_of e.type))
      (λ t unit. add_idmap-IsRooted conf _ h)

parsed-IsRooted :
    (conf : LxcConf) (r : Result Entry)
    → IsRooted conf
    → OnOk IsRooted (elim r [ err _ ↦ err einval | ok e ↦ add_entry conf e ])
parsed-IsRooted conf (ok e) h = add_entry-IsRooted conf e h
parsed-IsRooted conf (err x) h = tt

-- Where each root map is the first entry of its type that begins at id 0, it still is behind
-- every setting of the key that is accepted, the empty one that clears the maps included.
pub set_config_idmaps-IsRooted :
    (value : Bytes) (conf : LxcConf) → IsRooted conf → OnOk IsRooted (set_config_idmaps value conf)
unfolding set_config_idmaps
set_config_idmaps-IsRooted value conf h = elim (Bool-cases (lxc_config_value_empty value)) [
  | inl empty ↦ rw empty (clear-IsRooted conf)
  | inr filled ↦ rw filled (parsed-IsRooted conf (parse_idmaps value) h)
]

-- The values of an entry are of type unsigned long.
pub record IsLong (m : IdMap) : Type 0 where
  pub nsid_fits : m.nsid < 2 ^ 64
  pub hostid_fits : m.hostid < 2 ^ 64
  pub range_fits : m.range < 2 ^ 64

letter-known : (t : IdType) → (type_letter t ≡ b'u') ⊎ (type_letter t ≡ b'g')
unfolding type_letter
letter-known id_type_uid = inl refl
letter-known id_type_gid = inr refl

idtype_of-letter : (t : IdType) → idtype_of (type_letter t) ≡ ok t
unfolding type_letter idtype_of
idtype_of-letter id_type_uid = refl
idtype_of-letter id_type_gid = refl

abbrev entry_of : IdMap → Entry
entry_of m = record {
  type = type_letter m.idtype;
  nsid = m.nsid;
  hostid = m.hostid;
  range = m.range;
}

entry-not-empty : (e : Entry) → lxc_config_value_empty (print_entry e) ≡ false
unfolding lxc_config_value_empty print_entry
entry-not-empty e = ground arith

-- A line that get_config_idmaps prints for a map with values of type unsigned long is accepted by
-- set_config_idmaps, which adds that map to the configuration.
pub set_config_idmaps-print_map :
    (conf : LxcConf) (m : IdMap)
    → IsLong m
    → set_config_idmaps (print_map m) conf ≡ ok (add_idmap conf m)
unfolding set_config_idmaps print_map add_entry
set_config_idmaps-print_map conf m h =
    let e = entry_of m in
    rw
      (
        entry-not-empty e,
        parse_idmaps-print e (letter-known m.idtype) h.nsid_fits h.hostid_fits h.range_fits,
        idtype_of-letter m.idtype,
      )
      refl

-- An entry maps at least one id, and its ids do not wrap around.
pub record IsProper (m : IdMap) : Type 0 where
  pub maps_some : 0 < m.range
  pub no_wrap : m.nsid + m.range < 2 ^ 64

zero-in_range : (m : IdMap) → IsProper m → in_ns_range 0 m ≡ (m.nsid == 0)
unfolding in_ns_range
zero-in_range m h = ground arith

first_root-loop :
    (t : IdType) (maps : List IdMap) → All IsProper maps → first_root t maps ≡ nsid_loop 0 t maps
unfolding nsid_loop
first_root-loop t [] h = refl
first_root-loop t (m ∷ r) (p, h) = ground (arith, zero-in_range m p, first_root-loop t r h)

-- Where the root maps are the first entries that begin at 0, and every entry maps some ids without
-- a wrap-around, the shortcut of find_mapped_nsid_entry for id 0 changes nothing: for every id the
-- result is the first entry of the type that maps it.
pub find_mapped_nsid_entry-loop :
    (conf : LxcConf) (id : ℕ) (t : IdType)
    → IsRooted conf
    → All IsProper conf.id_map
    → find_mapped_nsid_entry conf id t ≡ nsid_loop id t conf.id_map
unfolding find_mapped_nsid_entry
find_mapped_nsid_entry-loop conf zero t h p = h t ∙ first_root-loop t conf.id_map p
find_mapped_nsid_entry-loop conf (suc id) t h p = ground arith

rootid_loop-first :
    (t : IdType) (maps : List IdMap) (m : IdMap)
    → first_root t maps ≡ some m
    → rootid_loop 0 t maps ≡ m.hostid % 2 ^ 32
unfolding rootid_loop
rootid_loop-first t [] m h = ground arith
rootid_loop-first t (x ∷ r) m h = ground (arith, rootid_loop-first t r m)

root_nsid-some :
    (conf : LxcConf) (t : IdType) (m : IdMap) → root_map conf t ≡ some m → root_nsid conf t ≡ 0
unfolding root_nsid
root_nsid-some conf t m e = rw (e, root_nsid) refl

rooted-rootid :
    (conf : LxcConf) (t : IdType) (m : IdMap)
    → IsRooted conf
    → root_map conf t ≡ some m
    → get_mapped_rootid conf t ≡ m.hostid % 2 ^ 32
unfolding get_mapped_rootid
rooted-rootid conf t m h e =
    rw (root_nsid-some conf t m e) (rootid_loop-first t conf.id_map m (sym (h t) ∙ e))

-- Where the root maps are the first entries that begin at 0, and there is one of the type, the host
-- id of the container's root is the first host id of that entry, as an unsigned int.
get_mapped_rootid-root :
    (conf : LxcConf) (t : IdType) (m : IdMap)
    → IsRooted conf
    → find_mapped_nsid_entry conf 0 t ≡ some m
    → get_mapped_rootid conf t ≡ m.hostid % 2 ^ 32
unfolding find_mapped_nsid_entry
get_mapped_rootid-root conf t m h e = rooted-rootid conf t m h e
