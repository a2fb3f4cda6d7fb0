-- ===== src/Idmap/Write.antt =====
-- lxc_map_ids and write_id_mapping of src/lxc/idmap_utils.c: what is written for a process, and
-- which tools are run.
pub mod Events
use lxc.Base.{
  ℕ, suc, ◌+◌, ◌-◌, ℤ, is_neg, pos_part, Bytes, codes, List, [], ◌∷◌, ◌++◌, Option, none, some,
  Bool, true, false, not, ◌&&◌, ◌||◌, ◌==◌, ltb, if◌then◌else◌, length, Result, ok, err, ◌>>=◌,
  enoent, any,
}
use lxc.Text.Decimal.{decimal}
use lxc.Idmap.Lookup.{IdType, id_type_uid, id_type_gid, IdMap, same_type, find_mapped_hostid_entry}
use lxc.Idmap.Config.{type_letter}
use lxc.Idmap.Minimal.{is_some}

-- What the kernel and the file system answer: the effective ids, whether newuidmap and newgidmap are
-- found and privileged, the errno of opening setgroups, and whether each write, and each run of a
-- tool, succeeds.
pub record System : Type 0 where
  pub euid : ℕ
  pub egid : ℕ
  pub uidmap : ℤ
  pub gidmap : ℤ
  pub open_setgroups : Option ℕ
  pub write_deny : Bool
  pub write_map : IdType → Bytes → Bool
  pub run_command : Bytes → Bool

-- What is done: `deny` is written to setgroups, a text to uid_map or gid_map, and a tool is run.
pub data Event : Type 0 where
  deny : Event
  map_text : IdType → Bytes → Event
  tool : Bytes → Event

-- The events, and whether the function succeeds.
abbrev pub Trace : Type 0
Trace = List Event × Bool

unfoldable pub is_gid : IdType → Bool
is_gid t = same_type t id_type_gid

unfoldable pub write_text : System → IdType → Bytes → Trace
write_text s t buf = if s.write_map t buf then (map_text t buf ∷ [], true) else ([], false)

unfoldable pub behind : Event → Trace → Trace
behind e (es, ok') = (e ∷ es, ok')

unfoldable pub write_id_mapping : System → IdType → Bytes → Trace
write_id_mapping s t buf =
    if not (s.euid == 0) && is_gid t
    then elim s.open_setgroups [
      | none ↦ if s.write_deny then behind deny (write_text s t buf) else ([], false)
      | some e ↦ if e == enoent then write_text s t buf else ([], false)
    ]
    else write_text s t buf

-- LXC_IDMAPLEN
abbrev pub idmaplen : ℕ
idmaplen = 4096

-- "%s%lu %lu %lu%s"
unfoldable pub map_line : Bool → IdMap → Bytes
map_line use_shadow m =
    (if use_shadow then b' ' ∷ [] else [])
    ++ (decimal m.nsid
        ++ b' '
          ∷ (decimal m.hostid
              ++ b' ' ∷ (decimal m.range ++ (if use_shadow then [] else b'\n' ∷ []))))

-- The inner loop: the buffer and `had_entry`, or `none` where there is no room for a line.
unfoldable pub fill_mapbuf : Bool → IdType → List IdMap → Bytes → Bool → Option (Bytes × Bool)
fill_mapbuf use_shadow t [] buf had = some (buf, had)
fill_mapbuf use_shadow t (m ∷ r) buf had =
    let line = map_line use_shadow m in
    let more = fill_mapbuf use_shadow t r (buf ++ line) true in
    let same = fill_mapbuf use_shadow t r buf had in
    if same_type m.idtype t
    then (if ltb (length line) (idmaplen - length buf) then more else none)
    else same

-- "new%cidmap %d"
unfoldable pub tool_name : IdType → ℕ → Bytes
tool_name t pid = codes "new" ++ type_letter t ∷ (codes "idmap " ++ decimal pid)

unfoldable pub is_own : System → IdMap → Bool
is_own s m =
    same_type m.idtype id_type_uid && m.range == 1 && m.nsid == s.euid && m.hostid == s.euid
    || same_type m.idtype id_type_gid && m.range == 1 && m.nsid == s.egid && m.hostid == s.egid

unfoldable pub is_positive : ℤ → Bool
is_positive z = not (is_neg z) && not (pos_part z == 0)

unfoldable pub use_shadow : System → List IdMap → Bool
use_shadow s maps =
    if is_some (find_mapped_hostid_entry maps 0 id_type_uid)
    then false
    else if not (is_positive s.uidmap && is_positive s.gidmap)
    then false
    else if length maps == 2
    then any (λ m. not (is_own s m)) maps
    else true

-- What the outer loop does with a buffer that is filled.
unfoldable pub flush : System → Bool → IdType → Bytes → Trace
flush s shadow t buf =
    if shadow
    then (if s.run_command buf then (tool buf ∷ [], true) else ([], false))
    else write_id_mapping s t buf

-- One round of the outer loop: what is done, whether to go on, and `had_entry`.
unfoldable pub map_type : System → Bool → ℕ → List IdMap → IdType → Bool → Trace × Bool
map_type s shadow pid maps t had =
    elim (fill_mapbuf shadow t maps (if shadow then tool_name t pid else []) had) [
      | none ↦ (([], false), had)
      | some (buf, had') ↦ (if had' then flush s shadow t buf else ([], true), had')
    ]

unfoldable pub then_gid : System → Bool → ℕ → List IdMap → Trace × Bool → Trace
then_gid s shadow pid maps ((events, success), had) =
    let (events', success') = (map_type s shadow pid maps id_type_gid had).0 in
    if success then (events ++ events', success') else (events, false)

unfoldable pub lxc_map_ids : System → List IdMap → ℕ → Trace
lxc_map_ids s maps pid =
    then_gid s (use_shadow s maps) pid maps
      (map_type s (use_shadow s maps) pid maps id_type_uid false)
