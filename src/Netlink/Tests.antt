-- ===== src/Netlink/Tests.antt =====
-- Messages at concrete attributes.
use lxc.Base.{ℕ, ◌≡◌, refl, Bytes, List, [], ◌∷◌, ◌++◌, some, none, arith, if◌then◌else◌, ◌==◌}
use lxc.Netlink.{
  nlmsg_alloc, zeros, nlmsg_hdrlen, af_inet, ifa_address, ifa_local, ifa_get_local_ip, found,
  addrlen_of,
}
use lxc.Netlink.Attributes.{PutHolds, nlmsg_alloc-Holds, encode}
use lxc.Netlink.Nested.{put_nested, put_nested-Holds, encode_all}
use lxc.Netlink.Address.{local_ip, ifa_get_local_ip-encode}

-- IFLA_LINKINFO with IFLA_INFO_KIND "veth"
abbrev kind : List (ℕ × Bytes)
kind = (1, b'v' ∷ b'e' ∷ b't' ∷ b'h' ∷ 0 ∷ []) ∷ []

put_nested-Holds_example :
    PutHolds
      (nlmsg_alloc 100)
      (zeros nlmsg_hdrlen ++ encode 18 (encode_all kind))
      (put_nested 18 kind (nlmsg_alloc 100))
put_nested-Holds_example =
    put_nested-Holds (nlmsg_alloc 100) (zeros nlmsg_hdrlen) 18 kind
      (nlmsg_alloc-Holds 100 (omega arith))

-- An attribute of another type, an address and a local address.
abbrev addresses : List (ℕ × Bytes)
addresses =
    (3, b'e' ∷ 0 ∷ [])
    ∷ (ifa_address, 10 ∷ 0 ∷ 3 ∷ 255 ∷ [])
    ∷ (ifa_local, 10 ∷ 0 ∷ 3 ∷ 1 ∷ [])
    ∷ []

ifa_get_local_ip-encode_example :
    ifa_get_local_ip af_inet af_inet (encode_all addresses) none
    ≡ (if af_inet == af_inet then local_ip (addrlen_of af_inet) addresses none else found none)
ifa_get_local_ip-encode_example =
    ifa_get_local_ip-encode af_inet af_inet addresses none (omega arith)

local_found :
    ifa_get_local_ip af_inet af_inet (encode_all addresses) none
    ≡ found (some (10 ∷ 0 ∷ 3 ∷ 1 ∷ []))
unfolding ifa_get_local_ip
local_found = refl
