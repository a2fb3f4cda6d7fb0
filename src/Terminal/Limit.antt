-- ===== src/Terminal/Limit.antt =====
-- The limit on the size of the log.
use lxc.Base.{
  ℕ, ◌+◌, ◌-◌, ◌^◌, ◌≤◌, ◌<◌, ◌≡◌, ap, Bytes, [], ◌&&◌, ◌==◌, ltb, leb, length, length-append,
  length-take, length-take_le, take, Option, none, some, ℤ, pos, negsuc, arith, Bool-cases,
  Option-cases, inl, inr,
}
use lxc.Terminal.{
  Kernel, Log, Outcome, returned, refused, space_left, write_nointr, write_up_to, write_rest,
  make_room, on_emptied, on_filled, on_room, remaining, write_limited, lxc_terminal_write_log_file,
  lxc_terminal_truncate_log_file, lxc_terminal_rotate_log_file,
}

pub space_left-pos :
    (size used : ℕ) → size < 2 ^ 63 → used ≤ size → space_left size used ≡ pos (size - used)
space_left-pos size used h k = ground arith

-- The file, and the one left by a rotation, have at most `size` bytes.
abbrev pub RotatedWithin : ℕ → Option Bytes → Type 0
RotatedWithin size none = Unit
RotatedWithin size (some old) = length old ≤ size

pub record IsWithin (size : ℕ) (t : Log) : Type 0 where
  pub limit : t.log_size ≡ size
  pub current : length t.contents ≤ size
  pub old : RotatedWithin size t.rotated

abbrev pub ReturnsWithin : ℕ → Outcome → Type 0
ReturnsWithin size (returned r t) = IsWithin size t
ReturnsWithin size (refused t) = ⊥

-- A write that fits.
write_nointr-IsWithin :
    (k : Kernel) (size : ℕ) (t : Log) (buf : Bytes)
    → IsWithin size t
    → length t.contents + length buf ≤ size
    → IsWithin size (write_nointr k t buf).1
unfolding write_nointr
write_nointr-IsWithin k size t buf w h = elim (Option-cases (k.write t.contents buf)) [
  | inl e ↦ rw e w
  | inr (n, e) ↦ rw e (record {
    limit = w.limit;
    current = omega (arith, length-append t.contents (take n buf), length-take_le n buf);
    old = w.old;
  })
]

-- What makes room keeps the bounds, and leaves an empty file where it succeeds.
abbrev Emptied : ℕ → ℤ × Log → Type 0
Emptied size (pos n, t) = IsWithin size t × (t.contents ≡ [])
Emptied size (negsuc n, t) = IsWithin size t

truncate-Emptied :
    (k : Kernel) (size : ℕ) (t : Log)
    → IsWithin size t
    → Emptied size (lxc_terminal_truncate_log_file k t)
unfolding lxc_terminal_truncate_log_file
truncate-Emptied k size t w = ground arith

rotate-Emptied :
    (k : Kernel) (size : ℕ) (t : Log)
    → IsWithin size t
    → Emptied size (lxc_terminal_rotate_log_file k t)
unfolding lxc_terminal_rotate_log_file
rotate-Emptied k size t w = ground arith

make_room-Emptied :
    (k : Kernel) (size : ℕ) (t : Log) → IsWithin size t → Emptied size (make_room k t)
make_room-Emptied k size t w = elim (Bool-cases (ltb 0 t.log_rotate)) [
  | inl e ↦ rw e (rotate-Emptied k size t w)
  | inr e ↦ rw e (truncate-Emptied k size t w)
]

write_empty-IsWithin :
    (k : Kernel) (size : ℕ) (t : Log) (buf : Bytes)
    → IsWithin size t
    → t.contents ≡ []
    → length buf ≤ size
    → IsWithin size (write_nointr k t buf).1
write_empty-IsWithin k size t buf w e h =
    write_nointr-IsWithin k size t buf w (omega (arith, ap length e))

remaining-IsWithin :
    (size left : ℕ) (r : ℤ × Log) → IsWithin size r.1 → ReturnsWithin size (remaining left r)
remaining-IsWithin size left (pos n, t) h = h
remaining-IsWithin size left (negsuc n, t) h = h

write_rest-IsWithin :
    (k : Kernel) (size left : ℕ) (t : Log) (buf : Bytes)
    → IsWithin size t
    → t.contents ≡ []
    → ReturnsWithin size (write_rest k left t buf)
unfolding write_rest
write_rest-IsWithin k size left t buf w e = elim (Bool-cases (ltb t.log_size left)) [
  | inl lt ↦ rw lt (
      remaining-IsWithin size left (write_nointr k t (take t.log_size buf)) (
        write_empty-IsWithin k size t (take t.log_size buf) w e
          (omega (arith, length-take t.log_size buf, w.limit))))
  | inr ge ↦ rw ge (
      remaining-IsWithin size left (write_nointr k t (take left buf)) (
        write_empty-IsWithin k size t (take left buf) w e
          (ground (arith, length-take left buf, w.limit))))
]

write_up_to-IsWithin :
    (k : Kernel) (size : ℕ) (t : Log) (buf : Bytes)
    → IsWithin size t
    → t.contents ≡ []
    → IsWithin size (write_up_to k t.log_size t buf).1
unfolding write_up_to
write_up_to-IsWithin k size t buf w e = elim (Bool-cases (leb (length buf) t.log_size)) [
  | inl le ↦ rw le (write_empty-IsWithin k size t buf w e (ground (arith, w.limit)))
  | inr gt ↦ rw gt (
      write_empty-IsWithin k size t (take t.log_size buf) w e
        (omega (arith, length-take t.log_size buf, w.limit)))
]

on_emptied-IsWithin :
    (k : Kernel) (size : ℕ) (buf : Bytes) (r : ℤ × Log)
    → Emptied size r
    → ReturnsWithin size (on_emptied k buf r)
on_emptied-IsWithin k size buf (pos n, t) (w, e) = write_up_to-IsWithin k size t buf w e
on_emptied-IsWithin k size buf (negsuc n, t) w = w

on_room-IsWithin :
    (k : Kernel) (size left : ℕ) (buf : Bytes) (r : ℤ × Log)
    → Emptied size r
    → ReturnsWithin size (on_room k left buf r)
on_room-IsWithin k size left buf (pos n, t) (w, e) = write_rest-IsWithin k size left t buf w e
on_room-IsWithin k size left buf (negsuc n, t) w = w

on_filled-IsWithin :
    (k : Kernel) (size left : ℕ) (buf : Bytes) (r : ℤ × Log)
    → IsWithin size r.1
    → ReturnsWithin size (on_filled k left buf r)
on_filled-IsWithin k size left buf (pos n, t) w =
    on_room-IsWithin k size left buf (make_room k t) (make_room-Emptied k size t w)
on_filled-IsWithin k size left buf (negsuc n, t) w = w

write_limited-IsWithin :
    (k : Kernel) (size space : ℕ) (t : Log) (buf : Bytes)
    → IsWithin size t
    → length t.contents + space ≡ size
    → ReturnsWithin size (write_limited k (pos space) t buf)
unfolding write_limited
write_limited-IsWithin k size space t buf w h =
    elim (Bool-cases (space == 0 && t.log_rotate == 0)) [
      | inl e ↦ rw e (on_emptied-IsWithin k size buf _ (truncate-Emptied k size t w))
      | inr e ↦ elim (Bool-cases (leb (length buf) space)) [
        | inl le ↦ rw (e, le) (write_nointr-IsWithin k size t buf w (ground arith))
        | inr gt ↦
            rw (e, gt)
              (on_filled-IsWithin k size (length buf - space) buf _ (
                write_nointr-IsWithin k size t (take space buf) w
                  (omega (arith, length-take space buf))))
      ]
    ]

-- With a limit between 1 and 2^63 - 1 on the size, a log file and a rotated file that are within it
-- stay within it, whatever is written and whatever the system answers; and write(2) is
-- never called with a negative number of bytes, which it would refuse.
pub write_log_file-IsWithin :
    (k : Kernel) (size : ℕ) (t : Log) (buf : Bytes)
    → 0 < size
    → size < 2 ^ 63
    → IsWithin size t
    → ReturnsWithin size (lxc_terminal_write_log_file k t buf)
unfolding lxc_terminal_write_log_file
write_log_file-IsWithin k size t buf h lim w =
    let s =
      space_left-pos t.log_size (length t.contents) (omega (arith, w.limit))
        (omega (arith, w.limit, w.current)) in
    let l =
      write_limited-IsWithin k size (t.log_size - length t.contents) t buf w
        (omega (arith, w.limit, w.current)) in
    rw s (ground (arith, l))
