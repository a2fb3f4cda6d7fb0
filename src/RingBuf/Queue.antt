-- ===== src/RingBuf/Queue.antt =====
-- The ring buffer as a queue of bytes.
use lxc.Base.{
  ℕ, ◌+◌, ◌-◌, ◌*◌, ◌^◌, ◌≤◌, ◌<◌, ◌≡◌, refl, ap, sym, ◌∙◌, Bytes, ◌++◌, ltb, leb, if◌then◌else◌,
  length, take, drop, set, ◌==◌, min, ok, err, arith, Bool-cases, inl, inr, enodata,
}
use lxc.RingBuf.{
  RingBuf, read_from, copy_to, lxc_ringbuf_free, lxc_ringbuf_used, lxc_ringbuf_write,
  lxc_ringbuf_read, done, out_of_bounds,
}
use lxc.RingBuf.Memory.{
  length-read_from, take-read_from, read_from-copy_to_append, drop-read_from_append,
  read_from-shift, read_from_congr,
}

-- Twice the size is mapped, so it is far below 2^64.
pub record IsValid (b : RingBuf) : Type 0 where
  pub mapped : b.size < 2 ^ 62
  pub read_in : b.r_off < b.size
  pub ordered : b.r_off ≤ b.w_off
  pub fits : b.w_off ≤ b.r_off + b.size

-- The bytes that are not read yet, oldest first.
abbrev pub contents : RingBuf → Bytes
contents b = read_from b.mem b.size b.r_off (b.w_off - b.r_off)

pub used_lem : (b : RingBuf) → IsValid b → lxc_ringbuf_used b ≡ b.w_off - b.r_off
unfolding lxc_ringbuf_used
used_lem b v = omega arith

pub free_lem : (b : RingBuf) → IsValid b → lxc_ringbuf_free b ≡ b.size - (b.w_off - b.r_off)
unfolding lxc_ringbuf_free
free_lem b v = omega arith

-- The buffer behind a write: where the message fits, where the read offset moves on, and where both
-- offsets wrap around.
pub after_write : RingBuf → Bytes → RingBuf
after_write b msg =
    if leb (length msg) (b.size - (b.w_off - b.r_off))
    then record b { mem = copy_to b.mem b.size b.w_off msg; w_off = b.w_off + length msg }
    else if ltb (b.r_off + length msg) b.size
    then record b {
      mem = copy_to b.mem b.size b.w_off msg;
      r_off = b.r_off + length msg;
      w_off = b.w_off + length msg;
    }
    else record b {
      mem = copy_to b.mem b.size (b.w_off - b.size) msg;
      r_off = b.r_off + length msg - b.size;
      w_off = b.w_off - b.size + length msg;
    }

write-after_write :
    (b : RingBuf) (msg : Bytes)
    → IsValid b
    → 2 * length msg ≤ b.size
    → lxc_ringbuf_write b msg ≡ ok (done (after_write b msg))
unfolding lxc_ringbuf_write after_write
write-after_write b msg v h =
    ground (arith, free_lem b v, Bool-cases (leb (length msg) (b.size - (b.w_off - b.r_off))))

after_write-IsValid :
    (b : RingBuf) (msg : Bytes) → IsValid b → 2 * length msg ≤ b.size → IsValid (after_write b msg)
unfolding after_write
after_write-IsValid b msg v h = ground arith

-- Where the message does not fit, what is kept of the bytes in front of it.
kept_lem :
    (b : RingBuf) (msg : Bytes)
    → IsValid b
    → 2 * length msg ≤ b.size
    → b.size < b.w_off - b.r_off + length msg
    → drop (length msg) (contents b ++ msg)
      ≡ read_from b.mem b.size (b.r_off + length msg) (b.w_off - (b.r_off + length msg)) ++ msg
kept_lem b msg v h full =
    drop-read_from_append b.size b.mem b.r_off (length msg) (b.w_off - b.r_off) msg (omega arith)
    ∙ ap (λ (t : Bytes). t ++ msg) (read_from_congr b.size b.mem _ _ _ _ refl (omega arith))

-- The same behind the wrap.
wrapped_lem :
    (b : RingBuf) (msg : Bytes)
    → IsValid b
    → 2 * length msg ≤ b.size
    → b.size < b.w_off - b.r_off + length msg
    → b.size ≤ b.r_off + length msg
    → read_from b.mem b.size (b.r_off + length msg) (b.w_off - (b.r_off + length msg))
      ≡ read_from b.mem b.size
          (b.r_off + length msg - b.size)
          (b.w_off - b.size - (b.r_off + length msg - b.size))
wrapped_lem b msg v h full wrap =
    read_from_congr b.size b.mem _ (b.r_off + length msg - b.size + b.size) _ _ (omega arith)
      (omega arith)
    ∙ read_from-shift b.size b.mem (b.r_off + length msg - b.size) _ (omega arith)

contents-after_write :
    (b : RingBuf) (msg : Bytes)
    → IsValid b
    → 2 * length msg ≤ b.size
    → contents (after_write b msg)
      ≡ drop (if leb (length msg) (lxc_ringbuf_free b) then 0 else length msg) (contents b ++ msg)
unfolding after_write
contents-after_write b msg v h =
    let len = length msg in
    elim (Bool-cases (leb len (b.size - (b.w_off - b.r_off)))) [
      | inl fits ↦
          rw (free_lem b v, fits)
            (read_from-copy_to_append b.size b.mem b.r_off b.w_off msg (omega arith) (ground arith)
              (ground arith))
      | inr full ↦ elim (Bool-cases (ltb (b.r_off + len) b.size)) [
        | inl inside ↦
            rw (free_lem b v, full, inside)
              (read_from-copy_to_append b.size b.mem (b.r_off + len) b.w_off msg (ground arith)
                  (ground arith) (ground arith)
                ∙ sym (kept_lem b msg v h (ground arith)))
        | inr wrap ↦
            rw (free_lem b v, full, wrap)
              (read_from-copy_to_append b.size b.mem (b.r_off + len - b.size) (b.w_off - b.size) msg
                  (ground arith) (ground arith) (ground arith)
                ∙ sym (
                    kept_lem b msg v h (ground arith)
                    ∙ ap (λ (t : Bytes). t ++ msg)
                        (wrapped_lem b msg v h (ground arith) (ground arith))))
      ]
    ]

-- A message of at most half the size of a valid buffer is written, the buffer stays valid, and what
-- is to be read behind the write is what was to be read before, with the message behind it: all of
-- it where the message fits, and otherwise without as many of the oldest bytes as the message has.
pub write-contents :
    (b : RingBuf) (msg : Bytes)
    → IsValid b
    → 2 * length msg ≤ b.size
    → (b' : RingBuf) × (lxc_ringbuf_write b msg ≡ ok (done b'))
      × IsValid b'
      × (contents b'
          ≡ drop
              (if leb (length msg) (lxc_ringbuf_free b) then 0 else length msg)
              (contents b ++ msg))
write-contents b msg v h = (
  after_write b msg,
  write-after_write b msg v h,
  after_write-IsValid b msg v h,
  contents-after_write b msg v h,
)

-- A message of at most the size that does not fit, in a valid buffer whose write offset lies in the
-- first mapping, and that moves the read offset to the second mapping, is copied to an address out of bounds.
pub write-out_of_bounds :
    (b : RingBuf) (msg : Bytes)
    → IsValid b
    → length msg ≤ b.size
    → lxc_ringbuf_free b < length msg
    → b.size ≤ b.r_off + length msg
    → b.w_off < b.size
    → lxc_ringbuf_write b msg ≡ ok out_of_bounds
unfolding lxc_ringbuf_write
write-out_of_bounds b msg v fits full wrap low = ground (arith, free_lem b v)

min_right : (a b : ℕ) → b ≤ a → min a b ≡ b
min_right a b h = omega arith

min_left : (a b : ℕ) → a ≤ b → min a b ≡ a
min_left a b h = omega arith

-- Reading at least one byte of a valid buffer that is not empty yields as many of the oldest bytes
-- as were asked for and are there, the last of them replaced by zero; an empty buffer has no data.
pub read-contents :
    (b : RingBuf) (len : ℕ)
    → IsValid b
    → 0 < len
    → lxc_ringbuf_read b len ≡ (
        if b.r_off == b.w_off
        then err enodata
        else ok (
            done (
              set
                (take (min len (length (contents b))) (contents b))
                (min len (length (contents b)) - 1)
                0)))
unfolding lxc_ringbuf_read
read-contents b len v h =
    let used = b.w_off - b.r_off in
    let same = take-read_from b.size b.mem b.r_off (min len used) used (omega arith) in
    rw (used_lem b v, length-read_from b.size b.mem b.r_off used, same)
      (elim (Bool-cases (ltb used len)) [
        | inl short ↦ rw (min_right len used (ground arith)) (ground arith)
        | inr long ↦ rw (min_left len used (ground arith)) (ground arith)
      ])
