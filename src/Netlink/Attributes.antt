-- ===== src/Netlink/Attributes.antt =====
-- What a message holds behind the functions that put attributes.
use lxc.Base.{
  ℕ, zero, suc, ◌+◌, ◌-◌, ◌%◌, ◌^◌, ◌≤◌, ◌<◌, ◌≡◌, refl, ap, sym, ◌∙◌, Bytes, [], ◌∷◌, ◌++◌, true,
  ltb, leb, length, length-append, drop-append, append_assoc, take, drop, some, arith, Bool-cases,
  inl, inr, ltb→lt,
}
use lxc.Netlink.{
  Nlmsg, Put, put, no_room, out_of_bounds, written, then_put, align, rta_length, rtattr_size, zeros,
  u16, write_at, nlmsg_tail, nla_put, nlmsg_alloc, nlmsg_hdrlen,
}

pub length-zeros : (n : ℕ) → length (zeros n) ≡ n
length-zeros zero = omega arith
length-zeros (suc n) = omega (arith, length-zeros n)

pub take-append : (xs ys : Bytes) → take (length xs) (xs ++ ys) ≡ xs
take-append [] ys = refl
take-append (x ∷ xs) ys = ap (λ r. x ∷ r) (take-append xs ys)

zeros_split : (n m k : ℕ) → n ≡ m + k → zeros n ≡ zeros m ++ zeros k
zeros_split n zero k h = ap zeros (let e : n ≡ k = omega arith in e)
zeros_split zero (suc m) k h = absurd (omega arith)
zeros_split (suc n) (suc m) k h = ap (λ r. 0 ∷ r) (zeros_split n m k (omega arith))

-- A write over bytes that are there replaces them.
pub write_at-over :
    (pre old post bs : Bytes) (off : ℕ)
    → off ≡ length pre
    → length old ≡ length bs
    → write_at off bs (pre ++ (old ++ post)) ≡ some (pre ++ (bs ++ post))
unfolding write_at
write_at-over pre old post bs off h k =
    let total : length (pre ++ (old ++ post)) ≡ length pre + (length old + length post) =
      omega (arith, length-append pre (old ++ post), length-append old post) in
    let fits : leb (off + length bs) (length (pre ++ (old ++ post))) ≡ true =
      ground (arith, total) in
    let behind : drop (off + length bs) (pre ++ (old ++ post)) ≡ post =
      ap (λ n. drop n (pre ++ (old ++ post))) (omega (arith, length-append pre old))
      ∙ ap (drop (length (pre ++ old))) (sym (append_assoc pre old post))
      ∙ drop-append (pre ++ old) post in
    rw (fits, behind, h) (ap (λ r. some (r ++ (bs ++ post))) (take-append pre (old ++ post)))

-- One attribute: its header, its data, and zeros up to the next multiple of 4.
abbrev pub encode : ℕ → Bytes → Bytes
encode attr payload =
    u16 (rta_length (length payload))
    ++ u16 attr
    ++ payload
    ++ zeros (align (rta_length (length payload)) - rta_length (length payload))

pub length-encode :
    (attr : ℕ) (payload : Bytes)
    → length (encode attr payload) ≡ align (rta_length (length payload))
length-encode attr payload = omega (
  arith,
  length-append (u16 (rta_length (length payload)) ++ u16 attr ++ payload)
      (zeros (align (rta_length (length payload)) - rta_length (length payload))),
  length-append (u16 (rta_length (length payload)) ++ u16 attr) payload,
  length-zeros (align (rta_length (length payload)) - rta_length (length payload)),
)

-- The message ends behind `used`, at a multiple of 4; zeros fill the rest of its memory.
pub record Holds (m : Nlmsg) (used : Bytes) : Type 0 where
  pub len : m.nlmsg_len ≡ length used
  pub aligned : length used % 4 ≡ 0
  pub within : length used ≤ m.cap
  pub small : m.cap < 2 ^ 16
  pub memory : m.bytes ≡ used ++ zeros (m.cap - length used)

pub nlmsg_alloc-Holds : (size : ℕ) → size < 65500 → Holds (nlmsg_alloc size) (zeros nlmsg_hdrlen)
unfolding nlmsg_alloc
nlmsg_alloc-Holds size h = record {
  len = refl;
  aligned = refl;
  within = omega arith;
  small = omega arith;
  memory = zeros_split (16 + align size) 16 (16 + align size - 16) (omega arith);
}

abbrev pub PutHolds : Nlmsg → Bytes → Put → Type 0
PutHolds m used (put m') = Holds m' used × (m'.cap ≡ m.cap)
PutHolds m used no_room = m.cap < length used
PutHolds m used out_of_bounds = ⊥

-- The header and the data of an attribute, written one behind the other into zeros.
two_writes :
    (m : Nlmsg) (used header payload post old old' : Bytes) (k : Nlmsg → Put)
    → m.bytes ≡ used ++ (old ++ (old' ++ post))
    → nlmsg_tail m ≡ length used
    → length header ≡ 4
    → length old ≡ 4
    → length old' ≡ length payload
    → then_put
        (written m (write_at (nlmsg_tail m) header m.bytes))
        (λ m'. then_put (written m' (write_at (nlmsg_tail m + rtattr_size) payload m'.bytes)) k)
      ≡ k (record m { bytes = used ++ (header ++ (payload ++ post)) })
two_writes m used header payload post old old' k hm ht hh ho hp =
    let first = write_at-over used old (old' ++ post) header (nlmsg_tail m) ht (ho ∙ sym hh) in
    let again : write_at (nlmsg_tail m + rtattr_size) payload ((used ++ header) ++ (old' ++ post))
        ≡ some ((used ++ header) ++ (payload ++ post)) =
      write_at-over (used ++ header) old' post payload (nlmsg_tail m + rtattr_size)
        (omega (arith, length-append used header)) hp in
    let second =
      rw (append_assoc used header (old' ++ post), append_assoc used header (payload ++ post)) at
        again in
    rw (hm, first, second) refl

-- The zeros that an attribute of `n` bytes takes: its header, its data, and the rest.
zeros_for :
    (total n : ℕ)
    → rtattr_size + n ≤ total
    → zeros total ≡ zeros 4 ++ (zeros n ++ zeros (total - rtattr_size - n))
zeros_for total n h =
    zeros_split total 4 (total - 4) (omega arith)
    ∙ ap (λ r. zeros 4 ++ r) (zeros_split (total - 4) n (total - 4 - n) (omega arith))

put-Holds :
    (m : Nlmsg) (used : Bytes) (attr : ℕ) (payload : Bytes)
    → Holds m used
    → align m.nlmsg_len + align (rta_length (length payload)) ≤ m.cap
    → Holds
        (record m {
          bytes =
              used
              ++ ((u16 (rta_length (length payload)) ++ u16 attr)
                  ++ (payload ++ zeros (m.cap - length used - rtattr_size - length payload)));
          nlmsg_len = (align m.nlmsg_len + align (rta_length (length payload))) % 2 ^ 32;
        })
        (used ++ encode attr payload)
put-Holds m used attr payload h fits =
    let total : length (used ++ encode attr payload)
        ≡ length used + align (rta_length (length payload)) =
      omega (arith, length-append used (encode attr payload), length-encode attr payload) in
    let header = u16 (rta_length (length payload)) ++ u16 attr in
    let pad : ℕ = align (rta_length (length payload)) - rta_length (length payload) in
    let rest : ℕ = m.cap - length (used ++ encode attr payload) in
    let split : zeros (m.cap - length used - rtattr_size - length payload)
        ≡ zeros pad ++ zeros rest =
      zeros_split _ pad rest (omega (arith, h.len, h.aligned)) in
    record {
      len = omega (arith, h.len, h.aligned, h.small);
      aligned = omega (arith, h.aligned);
      within = omega (arith, h.len, h.aligned);
      small = h.small;
      memory =
          ap (λ z. used ++ (header ++ (payload ++ z))) split
          ∙ ap (λ z. used ++ (header ++ z)) (sym (append_assoc payload (zeros pad) (zeros rest)))
          ∙ sym (append_assoc used (encode attr payload) (zeros rest));
    }

-- An attribute is put behind what a message holds, or there is no room for it; nothing is written
-- outside the message.
pub nla_put-Holds :
    (m : Nlmsg) (used : Bytes) (attr : ℕ) (payload : Bytes)
    → Holds m used
    → PutHolds m (used ++ encode attr payload) (nla_put m attr payload)
unfolding nla_put
nla_put-Holds m used attr payload h =
    let total : length (used ++ encode attr payload)
        ≡ length used + align (rta_length (length payload)) =
      omega (arith, length-append used (encode attr payload), length-encode attr payload) in
    elim (Bool-cases (ltb m.cap (align m.nlmsg_len + align (rta_length (length payload))))) [
      | inl e ↦ rw e (omega (arith, ltb→lt _ _ e, total, h.len, h.aligned))
      | inr e ↦
          let fits : align m.nlmsg_len + align (rta_length (length payload)) ≤ m.cap =
            ground arith in
          let z =
            zeros_for (m.cap - length used) (length payload) (omega (arith, h.len, h.aligned)) in
          rw
            (
              e,
              two_writes m used (u16 (rta_length (length payload)) ++ u16 attr) payload
                  (zeros (m.cap - length used - rtattr_size - length payload)) (zeros 4)
                  (zeros (length payload))
                  (λ m''. put (record m'' {
                    nlmsg_len = (align m.nlmsg_len + align (rta_length (length payload))) % 2 ^ 32;
                  }))
                  (h.memory ∙ ap (λ r. used ++ r) z) (omega (arith, h.len, h.aligned)) refl refl
                  (length-zeros (length payload)),
            )
            (put-Holds m used attr payload h fits, refl)
    ]
