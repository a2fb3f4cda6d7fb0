-- ===== src/Terminal/Written.antt =====
-- What the log holds behind a write, where the system does all that it is asked for.
use lxc.Base.{
  ℕ, ◌+◌, ◌-◌, ◌^◌, ◌≤◌, ◌<◌, ◌≡◌, refl, Bytes, [], ◌++◌, Bool, true, false, not, ◌&&◌, ◌==◌, ltb,
  leb, if◌then◌else◌, length, length-append, length-take, ltb→lt, take_all, length-take-eq_min,
  take, Option, some, ℤ, pos, arith, Bool-cases, inl, inr, min,
}
use lxc.Terminal.{
  Kernel, Log, Outcome, returned, write_nointr, write_up_to, write_rest, make_room, on_filled,
  write_limited, lxc_terminal_write_log_file, lxc_terminal_truncate_log_file,
  lxc_terminal_rotate_log_file,
}
use lxc.Terminal.Limit.{space_left-pos}

-- A regular log file within its limit, and a system that does what it is asked for.
pub record IsServed (k : Kernel) (t : Log) : Type 0 where
  pub path : t.has_path ≡ true
  pub opened : t.fd_open ≡ true
  pub file : t.regular ≡ true
  pub limited : 0 < t.log_size
  pub small : t.log_size < 2 ^ 63
  pub current : length t.contents ≤ t.log_size
  pub stat : k.fstat ≡ true
  pub truncates : k.ftruncate ≡ true
  pub renames : k.rename ≡ true
  pub opens : k.open_log ≡ true
  pub writes : (old buf : Bytes) → k.write old buf ≡ some (length buf)

-- The return value, the file and the rotated file, for a limit, whether the file is rotated, what
-- the two files held, and what is to be written.
abbrev pub logged : ℕ → Bool → Bytes → Option Bytes → Bytes → ℤ × Bytes × Option Bytes
logged size rotates old kept buf =
    let n = length buf in
    let space = size - length old in
    let left = n - space in
    if space == 0 && not rotates
    then (pos (min size n), take size buf, kept)
    else if leb n space
    then (pos n, old ++ buf, kept)
    else (
      pos (left - min size left),
      take (min size left) buf,
      if rotates then some (old ++ take space buf) else kept,
    )

abbrev pub with_files : Log → ℤ × Bytes × Option Bytes → Outcome
with_files t (r, contents, rotated) =
    returned r (record t { contents = contents; rotated = rotated })

write_nointr-served :
    (k : Kernel) (t : Log) (buf : Bytes)
    → ((old buf : Bytes) → k.write old buf ≡ some (length buf))
    → write_nointr k t buf ≡ (pos (length buf), record t { contents = t.contents ++ buf })
unfolding write_nointr
write_nointr-served k t buf w = rw (w t.contents buf, take_all (length buf) buf (omega arith)) refl

write_up_to-served :
    (k : Kernel) (t : Log) (buf : Bytes)
    → ((old buf : Bytes) → k.write old buf ≡ some (length buf))
    → write_up_to k t.log_size t buf ≡ (
      pos (min t.log_size (length buf)),
      record t { contents = t.contents ++ take t.log_size buf },
    )
unfolding write_up_to
write_up_to-served k t buf w = elim (Bool-cases (leb (length buf) t.log_size)) [
  | inl e ↦
      rw (e, write_nointr-served k t buf w, take_all t.log_size buf (ground arith)) (ground arith)
  | inr e ↦
      rw (e, write_nointr-served k t (take t.log_size buf) w, length-take-eq_min t.log_size buf)
        refl
]

write_rest-served :
    (k : Kernel) (left : ℕ) (t : Log) (buf : Bytes)
    → ((old buf : Bytes) → k.write old buf ≡ some (length buf))
    → left ≤ length buf
    → write_rest k left t buf
      ≡ returned
          (pos (left - min t.log_size left))
          (record t { contents = t.contents ++ take (min t.log_size left) buf })
unfolding write_rest
write_rest-served k left t buf w h = elim (Bool-cases (ltb t.log_size left)) [
  | inl e ↦
      let m : min t.log_size left ≡ t.log_size = ground arith in
      rw (e, m, write_nointr-served k t (take t.log_size buf) w, length-take-eq_min t.log_size buf)
        (ground arith)
  | inr e ↦
      let m : min t.log_size left ≡ left = ground arith in
      rw (e, m, write_nointr-served k t (take left buf) w, length-take-eq_min left buf)
        (ground arith)
]

truncate-served :
    (k : Kernel) (t : Log)
    → IsServed k t
    → lxc_terminal_truncate_log_file k t ≡ (pos 0, record t { contents = [] })
unfolding lxc_terminal_truncate_log_file
truncate-served k t s = ground arith

rotate-served :
    (k : Kernel) (t : Log)
    → IsServed k t
    → 0 < t.log_rotate
    → lxc_terminal_rotate_log_file k t
      ≡ (pos 0, record t { contents = []; rotated = some t.contents })
unfolding lxc_terminal_rotate_log_file
rotate-served k t s h = ground arith

-- The system goes on to do what it is asked for.
append-IsServed :
    (k : Kernel) (t : Log) (buf : Bytes)
    → IsServed k t
    → length t.contents + length buf ≤ t.log_size
    → IsServed k (record t { contents = t.contents ++ buf })
append-IsServed k t buf s h = ground (arith, length-append t.contents buf)

-- The log behind its rotation or its truncation.
abbrev roomy : Log → Log
roomy t = record t {
  contents = [];
  rotated = if ltb 0 t.log_rotate then some t.contents else t.rotated;
}

make_room-served : (k : Kernel) (t : Log) → IsServed k t → make_room k t ≡ (pos 0, roomy t)
make_room-served k t s = elim (Bool-cases (ltb 0 t.log_rotate)) [
  | inl e ↦ rw e (rotate-served k t s (ltb→lt 0 t.log_rotate e))
  | inr e ↦ rw e (truncate-served k t s)
]

on_filled-served :
    (k : Kernel) (t : Log) (buf : Bytes) (n left : ℕ)
    → IsServed k t
    → left ≤ length buf
    → on_filled k left buf (pos n, t)
      ≡ returned
          (pos (left - min t.log_size left))
          (record (roomy t) { contents = take (min t.log_size left) buf })
on_filled-served k t buf n left s h =
    rw (make_room-served k t s) (write_rest-served k left (roomy t) buf s.writes h)

limited-served :
    (k : Kernel) (t : Log) (buf : Bytes)
    → IsServed k t
    → write_limited k (pos (t.log_size - length t.contents)) t buf
      ≡ with_files t (logged t.log_size (ltb 0 t.log_rotate) t.contents t.rotated buf)
unfolding write_limited
limited-served k t buf s =
    let space : ℕ = t.log_size - length t.contents in
    elim (Bool-cases (space == 0 && t.log_rotate == 0)) [
      | inl e ↦
          let e' : (space == 0 && not (ltb 0 t.log_rotate)) ≡ true = ground arith in
          rw (e, e', truncate-served k t s)
            (rw (write_up_to-served k (record t { contents = [] }) buf s.writes) refl)
      | inr e ↦
          let e' : (space == 0 && not (ltb 0 t.log_rotate)) ≡ false = ground arith in
          elim (Bool-cases (leb (length buf) space)) [
            | inl le ↦ rw (e, e', le, write_nointr-served k t buf s.writes) refl
            | inr gt ↦
                let fits : length t.contents + length (take space buf) ≤ t.log_size =
                  omega (arith, length-take space buf, s.current) in
                rw (e, e', gt, write_nointr-served k t (take space buf) s.writes)
                  (on_filled-served k (record t { contents = t.contents ++ take space buf }) buf
                    (length (take space buf)) (length buf - space)
                    (append-IsServed k t (take space buf) s fits) (omega arith))
          ]
    ]

-- Where the system does all that it is asked for, and the log is a regular file within a limit
-- between 1 and 2^63 - 1: what fits is appended, and the number of its bytes returned; where nothing
-- fits and the file is not rotated, it is emptied and takes the first bytes up to the limit; else
-- the bytes that fit are appended, the file is rotated away (or just emptied where it is not
-- rotated), and the new file holds as many bytes as did not fit, up to the limit, but counted from
-- the start of the buffer again, so that the first bytes of the buffer are written twice and its
-- last ones are lost.
pub write_log_file-logged :
    (k : Kernel) (t : Log) (buf : Bytes)
    → IsServed k t
    → lxc_terminal_write_log_file k t buf
      ≡ with_files t (logged t.log_size (ltb 0 t.log_rotate) t.contents t.rotated buf)
unfolding lxc_terminal_write_log_file
write_log_file-logged k t buf s =
    let left = space_left-pos t.log_size (length t.contents) s.small s.current in
    rw left (ground (arith, limited-served k t buf s))
