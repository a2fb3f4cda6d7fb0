-- ===== src/Terminal/Tests.antt =====
-- The log at concrete files: a limit of 8 bytes.
use lxc.Base.{◌≡◌, refl, ltb, length, codes, Bytes, true, none, some, pos, arith, ℕ}
use lxc.Terminal.{Kernel, Log, returned, refused, lxc_terminal_write_log_file}
use lxc.Terminal.Limit.{ReturnsWithin, write_log_file-IsWithin}
use lxc.Terminal.Written.{logged, with_files, write_log_file-logged}

-- The system does what it is asked for.
abbrev willing : Kernel
willing = record {
  write = λ _ buf. some (length buf);
  fstat = true;
  ftruncate = true;
  rename = true;
  open_log = true;
}

-- A log that is to be rotated.
abbrev log_of : ℕ → Bytes → Log
log_of rotate contents = record {
  log_size = 8;
  has_path = true;
  fd_open = true;
  log_rotate = rotate;
  regular = true;
  contents = contents;
  rotated = none;
}

-- Two bytes of "ghi" fit; "i" is lost, and "g" is written twice.
rotated_log :
    lxc_terminal_write_log_file willing (log_of 1 (codes "abcdef")) (codes "ghi")
    ≡ returned (pos 0) (record (log_of 1 (codes "g")) { rotated = some (codes "abcdefgh") })
unfolding lxc_terminal_write_log_file
rotated_log = refl

write_log_file-IsWithin_example :
    ReturnsWithin 8 (lxc_terminal_write_log_file willing (log_of 1 (codes "abcdef")) (codes "ghi"))
write_log_file-IsWithin_example =
    write_log_file-IsWithin willing 8 (log_of 1 (codes "abcdef")) (codes "ghi") (omega arith)
      (omega arith) (omega arith)

write_log_file-logged_example :
    lxc_terminal_write_log_file willing (log_of 0 (codes "abcdefgh")) (codes "ghi")
    ≡ with_files
        (log_of 0 (codes "abcdefgh"))
        (logged 8 (ltb 0 0) (codes "abcdefgh") none (codes "ghi"))
write_log_file-logged_example =
    write_log_file-logged willing (log_of 0 (codes "abcdefgh")) (codes "ghi") (record {
      path = refl;
      opened = refl;
      file = refl;
      limited = omega arith;
      small = omega arith;
      current = omega arith;
      stat = refl;
      truncates = refl;
      renames = refl;
      opens = refl;
      writes = λ _ _. refl;
    })

-- A file that is longer than the limit, and is to be rotated: nothing is written, and it stays.
refused_log :
    lxc_terminal_write_log_file willing (log_of 1 (codes "abcdefghijk")) (codes "l")
    ≡ refused (log_of 1 (codes "abcdefghijk"))
unfolding lxc_terminal_write_log_file
refused_log = refl
