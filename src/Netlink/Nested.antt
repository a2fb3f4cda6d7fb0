-- ===== src/Netlink/Nested.antt =====
-- Nested attributes, and attributes put one behind the other.
use lxc.Base.{
  ℕ, ◌+◌, ◌-◌, ◌%◌, ◌≤◌, ◌≡◌, refl, ap, sym, ◌∙◌, Bytes, List, [], ◌∷◌, ◌++◌, length, length-append,
  append_assoc, append-nil, arith,
}
use lxc.Netlink.{
  Nlmsg, Put, put, no_room, out_of_bounds, then_put, align, rta_length, rtattr_size, zeros, u16,
  nlmsg_tail, nla_put, nla_begin_nested, nla_end_nested, nla_put_attr,
}
use lxc.Netlink.Attributes.{Holds, PutHolds, encode, length-encode, write_at-over, nla_put-Holds}

-- The attributes put one behind the other.
abbrev pub encode_all : List (ℕ × Bytes) → Bytes
encode_all [] = []
encode_all ((attr, payload) ∷ r) = encode attr payload ++ encode_all r

abbrev pub put_all : List (ℕ × Bytes) → Nlmsg → Put
put_all [] m = put m
put_all ((attr, payload) ∷ r) m = then_put (nla_put m attr payload) (put_all r)

-- One step behind another, the second for any message that the first yields.
then_put-Holds :
    (m : Nlmsg) (used used' : Bytes) (p : Put) (f : Nlmsg → Put)
    → PutHolds m used p
    → length used ≤ length used'
    → ((m' : Nlmsg) → Holds m' used → PutHolds m' used' (f m'))
    → PutHolds m used' (then_put p f)
then_put-Holds m used used' (put m') f (h, c) le k = same_cap (f m') (k m' h)
  where
    same_cap : (q : Put) → PutHolds m' used' q → PutHolds m used' q
    same_cap (put n) (h', c') = (h', c' ∙ c)
    same_cap no_room lt = omega (arith, c)
    same_cap out_of_bounds bad = bad
then_put-Holds m used used' no_room f h le k = omega arith
then_put-Holds m used used' out_of_bounds f h le k = h

put_all-Holds :
    (l : List (ℕ × Bytes)) (m : Nlmsg) (used : Bytes)
    → Holds m used
    → PutHolds m (used ++ encode_all l) (put_all l m)
put_all-Holds [] m used h = rw (append-nil used) (h, refl)
put_all-Holds ((attr, payload) ∷ r) m used h =
    let assoc = append_assoc used (encode attr payload) (encode_all r) in
    rw (← assoc) (
      then_put-Holds m (used ++ encode attr payload) _ (nla_put m attr payload) (put_all r)
        (nla_put-Holds m used attr payload h)
        (omega (arith, length-append (used ++ encode attr payload) (encode_all r)))
        (λ m' h'. put_all-Holds r m' (used ++ encode attr payload) h'))

encode-aligned :
    (attr : ℕ) (payload : Bytes)
    → length payload % 4 ≡ 0
    → encode attr payload ≡ u16 (rtattr_size + length payload) ++ u16 attr ++ payload
encode-aligned attr payload h =
    let none_left : align (rta_length (length payload)) - rta_length (length payload) ≡ 0 =
      omega arith in
    rw none_left
      (ap (λ r. u16 (rtattr_size + length payload) ++ u16 attr ++ r) (append-nil payload))

-- The message behind the end of a nested attribute.
closed_Holds :
    (m : Nlmsg) (used : Bytes) (attr : ℕ) (inner : Bytes)
    → Holds m ((used ++ encode attr []) ++ inner)
    → length ((used ++ encode attr []) ++ inner) ≡ length used + 4 + length inner
    → encode attr inner ≡ u16 (rtattr_size + length inner) ++ u16 attr ++ inner
    → Holds
        (record m {
          bytes =
              used
              ++ (u16 (rtattr_size + length inner)
                  ++ (u16 attr
                      ++ (inner ++ zeros (m.cap - length ((used ++ encode attr []) ++ inner)))));
        })
        (used ++ encode attr inner)
closed_Holds m used attr inner h size closed =
    let total : length (used ++ encode attr inner) ≡ length used + 4 + length inner =
      omega (arith, length-append used (encode attr inner), ap length closed) in
    let rest = zeros (m.cap - length ((used ++ encode attr []) ++ inner)) in
    let same : rest ≡ zeros (m.cap - length (used ++ encode attr inner)) =
      ap (λ n. zeros (m.cap - n)) (size ∙ sym total) in
    record {
      len = omega (arith, h.len, size, total);
      aligned = omega (arith, h.aligned, size, total);
      within = omega (arith, h.within, size, total);
      small = h.small;
      memory =
          ap (λ r. used ++ (u16 (rtattr_size + length inner) ++ (u16 attr ++ (inner ++ r)))) same
          ∙ ap (λ r. used ++ (r ++ zeros (m.cap - length (used ++ encode attr inner)))) (sym closed)
          ∙ sym (append_assoc used (encode attr inner) _);
    }

end_nested-Holds :
    (m : Nlmsg) (used : Bytes) (attr : ℕ) (inner : Bytes)
    → Holds m ((used ++ encode attr []) ++ inner)
    → length used % 4 ≡ 0
    → PutHolds m (used ++ encode attr inner) (nla_end_nested m (length used))
unfolding nla_end_nested
end_nested-Holds m used attr inner h a =
    let opened = encode attr [] in
    let size : length ((used ++ opened) ++ inner) ≡ length used + 4 + length inner =
      omega (arith, length-append (used ++ opened) inner, length-append used opened) in
    let rest = zeros (m.cap - length ((used ++ opened) ++ inner)) in
    let tail_at : nlmsg_tail m - length used ≡ rtattr_size + length inner =
      omega (arith, h.len, h.aligned, size) in
    let shape : m.bytes ≡ used ++ (u16 4 ++ (u16 attr ++ (inner ++ rest))) =
      h.memory
      ∙ append_assoc (used ++ opened) inner rest
      ∙ append_assoc used opened (inner ++ rest) in
    let closed = encode-aligned attr inner (omega (arith, h.aligned, size)) in
    rw
      (
        shape,
        tail_at,
        write_at-over used (u16 4) (u16 attr ++ (inner ++ rest)) (u16 (rtattr_size + length inner))
            (length used) refl refl,
      )
      (closed_Holds m used attr inner h size closed, refl)

end_nested_at :
    (m : Nlmsg) (used : Bytes) (attr : ℕ) (inner : Bytes) (at : ℕ)
    → Holds m ((used ++ encode attr []) ++ inner)
    → at ≡ length used
    → length used % 4 ≡ 0
    → PutHolds m (used ++ encode attr inner) (nla_end_nested m at)
end_nested_at m used attr inner at h e a = rw e (end_nested-Holds m used attr inner h a)

nested_room :
    (used : Bytes) (attr : ℕ) (inner : Bytes)
    → (length (used ++ encode attr []) ≤ length (used ++ encode attr inner))
      × (length ((used ++ encode attr []) ++ inner) ≤ length (used ++ encode attr inner))
nested_room used attr inner = omega (
  arith,
  length-append used (encode attr inner),
  length-encode attr inner,
  length-append (used ++ encode attr []) inner,
  length-append used (encode attr []),
)

-- What lies between nla_begin_nested and nla_end_nested.
abbrev pub put_nested : ℕ → List (ℕ × Bytes) → Nlmsg → Put
put_nested attr inner m =
    let (begun, at) = nla_begin_nested m attr in
    then_put begun (λ m'. then_put (put_all inner m') (λ m''. nla_end_nested m'' at))

-- A message that ends at a multiple of 4, whose memory of less than 2^16 bytes is zero behind that:
-- attributes put between nla_begin_nested and nla_end_nested become the data of one attribute
-- behind what the message held, of the type of the nest, unless there is no room for all of them;
-- no write leaves the memory of the message.
pub put_nested-Holds :
    (m : Nlmsg) (used : Bytes) (attr : ℕ) (inner : List (ℕ × Bytes))
    → Holds m used
    → PutHolds m (used ++ encode attr (encode_all inner)) (put_nested attr inner m)
unfolding nla_begin_nested nla_put_attr
put_nested-Holds m used attr inner h =
    let opened : Bytes = used ++ encode attr [] in
    then_put-Holds m opened _ (nla_put m attr []) _ (nla_put-Holds m used attr [] h)
      (nested_room used attr (encode_all inner)).0
      (λ m' h'.
        then_put-Holds m' (opened ++ encode_all inner) _ (put_all inner m') _
          (put_all-Holds inner m' opened h') (nested_room used attr (encode_all inner)).1
          (λ m'' h''.
            end_nested_at m'' used attr (encode_all inner) (nlmsg_tail m) h''
              (omega (arith, h.len, h.aligned)) h.aligned))
