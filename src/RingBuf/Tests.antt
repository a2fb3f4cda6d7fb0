-- ===== src/RingBuf/Tests.antt =====
-- The ring buffer at concrete buffers of 16 bytes.
use lxc.Base.{
  ◌-◌, ◌≡◌, refl, codes, ◌++◌, leb, if◌then◌else◌, length, take, drop, set, min, ◌==◌, ok, err,
  enodata, einval, true, arith, [], ◌∷◌,
}
use lxc.RingBuf.{
  RingBuf, lxc_ringbuf_free, lxc_ringbuf_write, lxc_ringbuf_read, lxc_ringbuf_create, done,
  out_of_bounds,
}
use lxc.RingBuf.Queue.{IsValid, contents, write-contents, write-out_of_bounds, read-contents}

-- Fourteen bytes are to be read, so two are free, and the offsets wrap around.
abbrev nearly_full : RingBuf
nearly_full = record { mem = λ i. i; size = 16; r_off = 12; w_off = 26 }

abbrev low : RingBuf
low = record { mem = λ i. i; size = 16; r_off = 5; w_off = 9 }

write-contents_example :
    (b' : RingBuf) × (lxc_ringbuf_write nearly_full (codes "hello") ≡ ok (done b'))
    × IsValid b'
    × (contents b'
        ≡ drop
            (if leb (length (codes "hello")) (lxc_ringbuf_free nearly_full)
              then 0
              else length (codes "hello"))
            (contents nearly_full ++ codes "hello"))
write-contents_example = write-contents nearly_full (codes "hello") (omega arith) (omega arith)

free_of_low : lxc_ringbuf_free low ≡ 12
unfolding lxc_ringbuf_free
free_of_low = refl

write-out_of_bounds_example : lxc_ringbuf_write low (codes "thirteen byte") ≡ ok out_of_bounds
write-out_of_bounds_example =
    write-out_of_bounds low (codes "thirteen byte") (omega arith) (omega arith)
      (omega (arith, free_of_low)) (omega arith) (omega arith)

read-contents_example : lxc_ringbuf_read low 3 ≡ (
    if low.r_off == low.w_off
    then err enodata
    else ok (
        done (
          set
            (take (min 3 (length (contents low))) (contents low))
            (min 3 (length (contents low)) - 1)
            0)))
read-contents_example = read-contents low 3 (omega arith) (omega arith)

-- Three of the bytes 5, 6, 7, 8 are asked for.
read_low : lxc_ringbuf_read low 3 ≡ ok (done (5 ∷ 6 ∷ 0 ∷ []))
unfolding lxc_ringbuf_read
read_low = refl

odd_size : lxc_ringbuf_create 4096 true true 5000 ≡ err einval
unfolding lxc_ringbuf_create
odd_size = refl
