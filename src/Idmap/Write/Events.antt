-- ===== src/Idmap/Write/Events.antt =====
-- What lxc_map_ids writes and runs.
use lxc.Base.{
  ℕ, ◌+◌, ◌-◌, ◌<◌, ◌≡◌, refl, ◌∙◌, Bytes, List, [], ◌∷◌, ◌++◌, append_assoc, append-nil, none,
  some, Bool, true, false, not, ◌&&◌, ◌||◌, ◌==◌, lt→ltb, if◌then◌else◌, Bool-cases, inl, inr,
  length, length-append, any, arith,
}
use lxc.Text.Number.{is_nil}
use lxc.Text.Decimal.{decimal}
use lxc.Text.Decimal.RoundTrip.{digits_of-ne-nil}
use lxc.Idmap.Lookup.{IdType, id_type_uid, id_type_gid, IdMap, same_type}
use lxc.Idmap.Write.{
  System, Event, deny, map_text, write_text, behind, write_id_mapping, idmaplen, map_line,
  fill_mapbuf, use_shadow, flush, map_type, then_gid, lxc_map_ids, is_gid,
}

-- The lines of the entries of one type.
abbrev pub lines : Bool → IdType → List IdMap → Bytes
lines shadow t [] = []
lines shadow t (m ∷ r) =
    if same_type m.idtype t then map_line shadow m ++ lines shadow t r else lines shadow t r

abbrev pub has_type : IdType → List IdMap → Bool
has_type t maps = any (λ (m : IdMap). same_type m.idtype t) maps

has_type-miss :
    (t : IdType) (m : IdMap) (r : List IdMap)
    → same_type m.idtype t ≡ false
    → has_type t (m ∷ r) ≡ has_type t r
has_type-miss t m r e = ground arith

fill_mapbuf-lines :
    (shadow : Bool) (t : IdType) (maps : List IdMap) (buf : Bytes) (had : Bool)
    → length buf + length (lines shadow t maps) < idmaplen
    → fill_mapbuf shadow t maps buf had ≡ some (buf ++ lines shadow t maps, had || has_type t maps)
unfolding fill_mapbuf
fill_mapbuf-lines shadow t [] buf had h = rw (append-nil buf) (ground arith)
fill_mapbuf-lines shadow t (m ∷ r) buf had h = elim (Bool-cases (same_type m.idtype t)) [
  | inl e ↦
      let line = map_line shadow m in
      let total = length-append line (lines shadow t r) in
      let h' = rw e at h in
      rw (e, lt→ltb (length line) (idmaplen - length buf) (omega (arith, h', total)))
        (fill_mapbuf-lines shadow t r (buf ++ line) true
            (omega (arith, h', total, length-append buf line))
          ∙ rw (append_assoc buf line (lines shadow t r)) (ground arith))
  | inr e ↦ rw (e, has_type-miss t m r e) (fill_mapbuf-lines shadow t r buf had (rw e at h))
]

has_type-hit :
    (t : IdType) (m : IdMap) (r : List IdMap)
    → same_type m.idtype t ≡ true
    → has_type t (m ∷ r) ≡ true
has_type-hit t m r e = ground arith

-- A type has lines where it has entries.
map_line-is_nil : (m : IdMap) (rest : Bytes) → is_nil (map_line false m ++ rest) ≡ false
unfolding map_line decimal is_nil
map_line-is_nil m rest = let (d, t, e) = digits_of-ne-nil 19 m.nsid [] in rw e refl

lines-is_nil :
    (t : IdType) (maps : List IdMap) → is_nil (lines false t maps) ≡ not (has_type t maps)
unfolding is_nil
lines-is_nil t [] = refl
lines-is_nil t (m ∷ r) = elim (Bool-cases (same_type m.idtype t)) [
  | inl e ↦ rw (e, has_type-hit t m r e) (map_line-is_nil m (lines false t r))
  | inr e ↦ rw (e, has_type-miss t m r e) (lines-is_nil t r)
]

-- The entries are written directly, and what is asked of the system succeeds, but for a map without
-- a line, which the kernel refuses: see user_namespaces(7).
pub record IsDirect (s : System) (maps : List IdMap) : Type 0 where
  pub direct : use_shadow s maps ≡ false
  pub setgroups : s.open_setgroups ≡ none
  pub denied : s.write_deny ≡ true
  pub written : (t : IdType) (buf : Bytes) → s.write_map t buf ≡ not (is_nil buf)
  pub room : (t : IdType) → length (lines false t maps) < idmaplen

-- What is done for one type: `deny` is written first, and then the lines, where there are any.
abbrev pub writes : System → IdType → List IdMap → List Event
writes s t maps =
    (if not (s.euid == 0) && is_gid t then deny ∷ [] else [])
    ++ (if has_type t maps then map_text t (lines false t maps) ∷ [] else [])

write_text-lines :
    (s : System) (maps : List IdMap) (t : IdType)
    → IsDirect s maps
    → write_text s t (lines false t maps)
      ≡ (if has_type t maps then map_text t (lines false t maps) ∷ [] else [], has_type t maps)
unfolding write_text
write_text-lines s maps t d =
    rw (d.written t (lines false t maps), lines-is_nil t maps) (ground arith)

write_id_mapping-written :
    (s : System) (maps : List IdMap) (t : IdType)
    → IsDirect s maps
    → write_id_mapping s t (lines false t maps) ≡ (writes s t maps, has_type t maps)
unfolding write_id_mapping behind is_gid write_text
write_id_mapping-written s maps t d =
    rw (d.setgroups, d.denied, write_text-lines s maps t d) (ground arith)

map_type-written :
    (s : System) (maps : List IdMap) (pid : ℕ) (t : IdType) (had : Bool)
    → IsDirect s maps
    → map_type s false pid maps t had ≡ (
      if had || has_type t maps then (writes s t maps, has_type t maps) else ([], true),
      had || has_type t maps,
    )
unfolding map_type flush
map_type-written s maps pid t had d =
    rw
      (
        fill_mapbuf-lines false t maps [] had (omega (arith, d.room t)),
        map_type,
        write_id_mapping-written s maps t d,
      )
      (ground arith)

-- Where the maps are written directly, their lines fit and no call of the system fails but the
-- writing of an empty map: the lines of the user entries are written to uid_map, and then those of
-- the group entries to gid_map, behind a `deny` to setgroups where the caller is not root, and
-- lxc_map_ids succeeds, unless there are user entries and no group entry: then gid_map is written as
-- well, `deny` first, its text is empty, and lxc_map_ids fails. Without any entry nothing is written.
pub lxc_map_ids-written :
    (s : System) (maps : List IdMap) (pid : ℕ)
    → IsDirect s maps
    → lxc_map_ids s maps pid ≡ (
      (if has_type id_type_uid maps then writes s id_type_uid maps else [])
          ++ (if has_type id_type_uid maps || has_type id_type_gid maps
              then writes s id_type_gid maps
              else []),
      not (has_type id_type_uid maps) || has_type id_type_gid maps,
    )
unfolding lxc_map_ids then_gid
lxc_map_ids-written s maps pid d =
    rw
      (
        d.direct,
        map_type-written s maps pid id_type_uid false d,
        then_gid,
        map_type-written s maps pid id_type_gid (has_type id_type_uid maps) d,
      )
      (ground arith)
