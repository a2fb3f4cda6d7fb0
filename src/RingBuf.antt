-- ===== src/RingBuf.antt =====
-- src/lxc/ringbuf.c and ringbuf.h: the ring buffer of a terminal. Offsets and sizes are of type
-- uint64_t, so sums and differences are modulo 2^64.
pub mod Memory
pub mod Queue
pub mod Tests
use lxc.Base.{
  ℕ, zero, suc, ◌+◌, ◌-◌, ◌*◌, ◌%◌, ◌^◌, Bytes, List, [], ◌∷◌, Bool, true, false, not, ◌&&◌, ◌==◌,
  ltb, leb, if◌then◌else◌, length, set, Result, ok, err, eperm, einval, efbig, enodata,
}

-- `mem` is the file that is mapped twice in a row at `addr`; offsets are relative to `addr`.
pub record RingBuf : Type 0 where
  pub mem : ℕ → ℕ
  pub size : ℕ
  pub r_off : ℕ
  pub w_off : ℕ

abbrev pub u64_mod : ℕ
u64_mod = 2 ^ 64

-- The byte of the file at an offset of the two mappings.
abbrev pub cell : ℕ → ℕ → ℕ
cell size off = if ltb off size then off else off - size

-- memcpy out of the mapping and into it.
abbrev pub read_from : (ℕ → ℕ) → ℕ → ℕ → ℕ → Bytes
read_from mem size off zero = []
read_from mem size off (suc n) = mem (cell size off) ∷ read_from mem size (off + 1) n

abbrev pub store : (ℕ → ℕ) → ℕ → ℕ → ℕ → ℕ
store mem i c j = if j == i then c else mem j

abbrev pub copy_to : (ℕ → ℕ) → ℕ → ℕ → Bytes → ℕ → ℕ
copy_to mem size off [] = mem
copy_to mem size off (c ∷ msg) = copy_to (store mem (cell size off) c) size (off + 1) msg

-- `reserved` says that the address range was reserved, and `backed` that the file was created, cut
-- to its size and mapped twice.
pub lxc_ringbuf_create : ℕ → Bool → Bool → ℕ → Result RingBuf
lxc_ringbuf_create page reserved backed size =
    if not (size % page == 0)
    then err einval
    else if not reserved
    then err einval
    else if not backed
    then err eperm
    else ok (record { mem = λ _. 0; size = size; r_off = 0; w_off = 0 })

pub lxc_ringbuf_clear : RingBuf → RingBuf
lxc_ringbuf_clear buf = record buf { r_off = 0; w_off = 0 }

pub lxc_ringbuf_used : RingBuf → ℕ
lxc_ringbuf_used buf = (buf.w_off + u64_mod - buf.r_off) % u64_mod

pub lxc_ringbuf_free : RingBuf → ℕ
unfolding lxc_ringbuf_used
lxc_ringbuf_free buf = (buf.size + u64_mod - lxc_ringbuf_used buf) % u64_mod

pub lxc_ringbuf_move_read_addr : RingBuf → ℕ → RingBuf
lxc_ringbuf_move_read_addr buf len =
    let r_off = (buf.r_off + len) % u64_mod in
    if ltb r_off buf.size
    then record buf { r_off = r_off }
    else record buf { r_off = r_off - buf.size; w_off = (buf.w_off + u64_mod - buf.size) % u64_mod }

pub lxc_ringbuf_move_write_addr : RingBuf → ℕ → RingBuf
lxc_ringbuf_move_write_addr buf len = record buf { w_off = (buf.w_off + len) % u64_mod }

-- A copy that leaves the two mappings is out of bounds.
pub data Access (A : Type 0) : Type 0 where
  done : A → Access A
  out_of_bounds : Access A

pub copy_message : RingBuf → Bytes → Access RingBuf
unfolding lxc_ringbuf_move_write_addr
copy_message buf msg =
    if leb (buf.w_off + length msg) (2 * buf.size)
    then done (
        lxc_ringbuf_move_write_addr (record buf { mem = copy_to buf.mem buf.size buf.w_off msg })
          (length msg))
    else out_of_bounds

pub lxc_ringbuf_write : RingBuf → Bytes → Result (Access RingBuf)
unfolding lxc_ringbuf_free lxc_ringbuf_move_read_addr copy_message
lxc_ringbuf_write buf msg =
    if ltb buf.size (length msg)
    then err efbig
    else if ltb (lxc_ringbuf_free buf) (length msg)
    then ok (copy_message (lxc_ringbuf_move_read_addr buf (length msg)) msg)
    else ok (copy_message buf msg)

-- What is copied to the reader; `out[*len - 1]` is out of bounds where nothing is copied.
pub lxc_ringbuf_read : RingBuf → ℕ → Result (Access Bytes)
unfolding lxc_ringbuf_used
lxc_ringbuf_read buf len =
    if buf.r_off == buf.w_off
    then err enodata
    else (let n = if ltb (lxc_ringbuf_used buf) len then lxc_ringbuf_used buf else len in
        if n == 0
        then ok out_of_bounds
        else ok (done (set (read_from buf.mem buf.size buf.r_off n) (n - 1) 0)))
