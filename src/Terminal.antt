-- ===== src/Terminal.antt =====
-- The log of a terminal: lxc_terminal_write_log_file of lxc/terminal.c, and the rotation and the
-- truncation of the file.
pub mod Limit
pub mod Written
mod Tests
use lxc.Base.{
  ℕ, ◌+◌, ◌-◌, ◌%◌, ◌^◌, Bytes, [], ◌++◌, Bool, true, false, not, ◌||◌, ◌&&◌, ◌==◌, ltb, leb,
  if◌then◌else◌, length, take, Option, none, some, ℤ, pos, negsuc, ebadf, einval,
}

-- What the system answers. `write` is the number of bytes that a file with some contents takes of
-- those it is given, or none where the write fails; the others say whether the call succeeds.
pub record Kernel : Type 0 where
  pub write : Bytes → Bytes → Option ℕ
  pub fstat : Bool
  pub ftruncate : Bool
  pub rename : Bool
  pub open_log : Bool

-- struct lxc_terminal_log, with the file behind log_fd and the one that the last rotation left.
-- The file is opened with O_APPEND.
pub record Log : Type 0 where
  pub log_size : ℕ
  pub has_path : Bool
  pub fd_open : Bool
  pub log_rotate : ℕ
  pub regular : Bool
  pub contents : Bytes
  pub rotated : Option Bytes

-- The return value and the state behind it. `refused` is the return of -1 where the count for write(2)
-- is 2^63 or more, which Linux refuses with EINVAL before it looks at the buffer.
pub data Outcome : Type 0 where
  returned : ℤ → Log → Outcome
  refused : Log → Outcome

-- -e, where e is not 0
abbrev pub minus : ℕ → ℤ
minus e = negsuc (e - 1)

abbrev eopnotsupp : ℕ
eopnotsupp = 95

unfoldable pub lxc_terminal_truncate_log_file : Kernel → Log → ℤ × Log
lxc_terminal_truncate_log_file k t =
    if not t.has_path || not t.fd_open
    then (minus ebadf, t)
    else if k.ftruncate
    then (pos 0, record t { contents = [] })
    else (negsuc 0, t)

unfoldable pub lxc_terminal_create_log_file : Kernel → Log → ℤ × Log
lxc_terminal_create_log_file k t =
    if not t.has_path
    then (pos 0, t)
    else if k.open_log
    then (pos 0, record t { fd_open = true })
    else (negsuc 0, t)

-- The name behind the path is the file that is opened next, so it is empty once it was renamed.
unfoldable pub lxc_terminal_rotate_log_file : Kernel → Log → ℤ × Log
unfolding lxc_terminal_create_log_file
lxc_terminal_rotate_log_file k t =
    if not t.has_path || t.log_rotate == 0
    then (minus eopnotsupp, t)
    else if not t.fd_open
    then (minus ebadf, t)
    else (let closed : Log = record t { fd_open = false } in
        if k.rename
        then lxc_terminal_create_log_file k
            (record closed { rotated = some t.contents; contents = []; regular = true })
        else (negsuc 0, closed))

abbrev write_then : Log → Bytes → Option ℕ → ℤ × Log
write_then t buf none = (negsuc 0, t)
write_then t buf (some n) = (pos n, record t { contents = t.contents ++ take n buf })

-- lxc_write_nointr of the whole of `buf`
unfoldable pub write_nointr : Kernel → Log → Bytes → ℤ × Log
write_nointr k t buf = write_then t buf (k.write t.contents buf)

abbrev pub outcome : ℤ × Log → Outcome
outcome r = returned r.0 r.1

-- log_size - st_size, of type int64_t
abbrev pub space_left : ℕ → ℕ → ℤ
space_left size used =
    let d = (size + 2 ^ 64 - used) % 2 ^ 64 in
    if ltb d (2 ^ 63) then pos d else negsuc (2 ^ 64 - 1 - d)

-- The first write that is made when the log was emptied.
unfoldable pub write_up_to : Kernel → ℕ → Log → Bytes → ℤ × Log
unfolding write_nointr
write_up_to k limit t buf =
    if leb (length buf) limit then write_nointr k t buf else write_nointr k t (take limit buf)

abbrev pub remaining : ℕ → ℤ × Log → Outcome
remaining left (pos n, t) = returned (pos (left - n)) t
remaining left (negsuc n, t) = returned (negsuc 0) t

-- What is written behind the rotation or the truncation: `left` bytes, from the start of `buf`.
unfoldable pub write_rest : Kernel → ℕ → Log → Bytes → Outcome
unfolding write_nointr
write_rest k left t buf =
    if ltb t.log_size left
    then remaining left (write_nointr k t (take t.log_size buf))
    else remaining left (write_nointr k t (take left buf))

abbrev pub make_room : Kernel → Log → ℤ × Log
make_room k t =
    if ltb 0 t.log_rotate
    then lxc_terminal_rotate_log_file k t
    else lxc_terminal_truncate_log_file k t

abbrev pub on_room : Kernel → ℕ → Bytes → ℤ × Log → Outcome
on_room k left buf (pos n, t) = write_rest k left t buf
on_room k left buf (negsuc n, t) = returned (negsuc n) t

abbrev pub on_filled : Kernel → ℕ → Bytes → ℤ × Log → Outcome
on_filled k left buf (pos n, t) = on_room k left buf (make_room k t)
on_filled k left buf (negsuc n, t) = returned (negsuc 0) t

abbrev pub on_emptied : Kernel → Bytes → ℤ × Log → Outcome
on_emptied k buf (pos n, t) = outcome (write_up_to k t.log_size t buf)
on_emptied k buf (negsuc n, t) = returned (negsuc n) t

-- A regular file with a limit on its size.
unfoldable pub write_limited : Kernel → ℤ → Log → Bytes → Outcome
unfolding write_nointr write_up_to write_rest lxc_terminal_rotate_log_file
    lxc_terminal_truncate_log_file
write_limited k (negsuc n) t buf =
    if t.log_rotate == 0 then on_emptied k buf (lxc_terminal_truncate_log_file k t) else refused t
write_limited k (pos space) t buf =
    if space == 0 && t.log_rotate == 0
    then on_emptied k buf (lxc_terminal_truncate_log_file k t)
    else if leb (length buf) space
    then outcome (write_nointr k t buf)
    else on_filled k (length buf - space) buf (write_nointr k t (take space buf))

unfoldable pub lxc_terminal_write_log_file : Kernel → Log → Bytes → Outcome
unfolding write_limited write_nointr
lxc_terminal_write_log_file k t buf =
    if not t.fd_open
    then returned (pos 0) t
    else if t.log_size == 0
    then outcome (write_nointr k t buf)
    else if not k.fstat
    then returned (negsuc 0) t
    else if not t.regular
    then (if ltb 0 t.log_rotate || ltb 0 t.log_size
        then returned (minus einval) t
        else outcome (write_nointr k t buf))
    else write_limited k (space_left t.log_size (length t.contents)) t buf
