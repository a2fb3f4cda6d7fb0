-- ===== src/Netlink/Address.antt =====
-- The address that is read from the attributes of a message.
use lxc.Base.{
  ℕ, zero, suc, ◌<◌, ◌≡◌, refl, ap, sym, ◌∙◌, Bytes, List, [], ◌∷◌, ◌++◌, true, ◌||◌, ◌==◌,
  if◌then◌else◌, length, length-append, drop-append, append_assoc, take, drop, Option, some, arith,
  Bool-cases, inl, inr, All, ==_iff,
}
use lxc.Netlink.{
  align, rta_length, rta_len, rta_type, rta_ok, rta_next, rta_data, rta_payload, Found, found,
  bad_size, ifa_local, ifa_address, local_ip_loop, ifa_get_local_ip, addrlen_of,
}
use lxc.Netlink.Attributes.{encode, length-encode, take-append}
use lxc.Netlink.Nested.{encode_all}

-- The types and lengths of attributes are 16-bit numbers.
abbrev pub IsAttribute : ℕ × Bytes → Type 0
IsAttribute (attr, payload) = (attr < 65536) × (length payload < 65532)

-- The address by the list of attributes: the data of the first IFA_LOCAL, or else of the last
-- IFA_ADDRESS, where no attribute of the two types before it has a wrong size.
unfoldable pub local_ip : ℕ → List (ℕ × Bytes) → Option Bytes → Found
local_ip addrlen [] res = found res
local_ip addrlen ((attr, payload) ∷ r) res =
    let next_found = local_ip addrlen r (some payload) in
    let next = local_ip addrlen r res in
    if attr == ifa_local || attr == ifa_address
    then if length payload == addrlen
      then if attr == ifa_local then found (some payload) else next_found
      else bad_size
    else next

module _ (attr : ℕ) (payload rest : Bytes) (h : IsAttribute (attr, payload)) where
  first_len : rta_len (encode attr payload ++ rest) ≡ rta_length (length payload)
  first_len = omega (arith, h.1)

  first_type : rta_type (encode attr payload ++ rest) ≡ attr
  first_type = omega (arith, h.0)

  first_next : rta_next (encode attr payload ++ rest) ≡ rest
  first_next =
      ap (λ n. drop n (encode attr payload ++ rest))
        (ap align first_len ∙ sym (length-encode attr payload))
      ∙ drop-append (encode attr payload) rest

  first_ok : rta_ok (encode attr payload ++ rest) ≡ true
  first_ok =
      ground
        (arith, first_len, length-append (encode attr payload) rest, length-encode attr payload)

  first_data : take (length payload) (rta_data (encode attr payload ++ rest)) ≡ payload
  first_data = ap (take (length payload)) (append_assoc payload _ rest) ∙ take-append payload _

no_attribute :
    (fuel addrlen : ℕ) (res : Option Bytes) → local_ip_loop (suc fuel) addrlen [] res ≡ found res
unfolding local_ip_loop
no_attribute fuel addrlen res = refl

-- One round of the loop, by what the first attribute is.
one_round :
    (fuel addrlen attr : ℕ) (payload bs rest : Bytes) (res : Option Bytes)
    → rta_ok bs ≡ true
    → rta_type bs ≡ attr
    → rta_payload bs ≡ length payload
    → rta_next bs ≡ rest
    → take (length payload) (rta_data bs) ≡ payload
    → local_ip_loop (suc fuel) addrlen bs res ≡ (
        if attr == ifa_local || attr == ifa_address
        then if length payload == addrlen
          then if attr == ifa_local
            then found (some payload)
            else local_ip_loop fuel addrlen rest (some payload)
          else bad_size
        else local_ip_loop fuel addrlen rest res)
unfolding local_ip_loop
one_round fuel addrlen attr payload bs rest res good type size next value =
    elim (Bool-cases (length payload == addrlen)) [
      | inl e ↦
          let same : take addrlen (rta_data bs) ≡ payload =
            ap (λ n. take n (rta_data bs)) (sym ((==_iff (length payload) addrlen).0 e)) ∙ value in
          rw (good, type, size, next, same) refl
      | inr e ↦ rw (good, type, size, next, e) refl
    ]

local_ip_loop-encode :
    (fuel addrlen : ℕ) (l : List (ℕ × Bytes)) (res : Option Bytes)
    → All IsAttribute l
    → length (encode_all l) < fuel
    → local_ip_loop fuel addrlen (encode_all l) res ≡ local_ip addrlen l res
unfolding local_ip
local_ip_loop-encode zero addrlen l res a h = absurd (omega arith)
local_ip_loop-encode (suc fuel) addrlen [] res a h = no_attribute fuel addrlen res
local_ip_loop-encode (suc fuel) addrlen ((attr, payload) ∷ r) res (p, a) h =
    let size : rta_payload (encode attr payload ++ encode_all r) ≡ length payload =
      omega (arith, first_len attr payload (encode_all r) p) in
    let enough : length (encode_all r) < fuel =
      omega
        (arith, length-append (encode attr payload) (encode_all r), length-encode attr payload) in
    rw
      (
        one_round fuel addrlen attr payload (encode attr payload ++ encode_all r) (encode_all r) res
            (first_ok attr payload (encode_all r) p) (first_type attr payload (encode_all r) p) size
            (first_next attr payload (encode_all r) p) (first_data attr payload (encode_all r) p),
        local_ip_loop-encode fuel addrlen r (some payload) a enough,
        local_ip_loop-encode fuel addrlen r res a enough,
      )
      refl

-- The address that is read from the bytes of well-formed attributes, each put as nla_put puts it, is
-- that of the list of attributes: the data of the first IFA_LOCAL, or of the last IFA_ADDRESS
-- where there is none, or an error where an attribute of the two types that comes before has
-- another size than an address of the family; for another family than that of the message, what
-- was there before. The loop comes to its end.
pub ifa_get_local_ip-encode :
    (family ifa_family : ℕ) (l : List (ℕ × Bytes)) (res : Option Bytes)
    → All IsAttribute l
    → ifa_get_local_ip family ifa_family (encode_all l) res
      ≡ (if family == ifa_family then local_ip (addrlen_of family) l res else found res)
unfolding ifa_get_local_ip
ifa_get_local_ip-encode family ifa_family l res a =
    rw
      (local_ip_loop-encode (suc (length (encode_all l))) (addrlen_of family) l res a (omega arith))
      refl
