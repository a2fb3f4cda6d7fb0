-- ===== src/Netlink.antt =====
-- Netlink messages: lxc/nl.c, and the reader of an address in lxc/network.c. A struct rtattr is
-- two 16-bit numbers, its length and its type, in the byte order of a little-endian machine.
pub mod Attributes
pub mod Nested
pub mod Address
mod Tests
use lxc.Base.{
  ℕ, zero, suc, ◌+◌, ◌-◌, ◌*◌, ◌/◌, ◌%◌, ◌^◌, Bytes, List, [], ◌∷◌, ◌++◌, Bool, true, false, ◌||◌,
  ◌&&◌, ◌==◌, ltb, leb, if◌then◌else◌, length, get_or, take, drop, Option, none, some,
}

-- struct nlmsg, with the bytes behind nlmsghdr. The length in the header is kept apart from them.
pub record Nlmsg : Type 0 where
  pub nlmsg_len : ℕ
  pub cap : ℕ
  pub bytes : Bytes

-- NLMSG_HDRLEN
abbrev pub nlmsg_hdrlen : ℕ
nlmsg_hdrlen = 16

-- sizeof(struct rtattr)
abbrev pub rtattr_size : ℕ
rtattr_size = 4

-- NLMSG_ALIGN and RTA_ALIGN
abbrev pub align : ℕ → ℕ
align n = (n + 3) / 4 * 4

-- RTA_LENGTH
abbrev pub rta_length : ℕ → ℕ
rta_length len = rtattr_size + len

abbrev pub zeros : ℕ → Bytes
zeros zero = []
zeros (suc n) = 0 ∷ zeros n

-- The bytes of an unsigned short
abbrev pub u16 : ℕ → Bytes
u16 n = (n % 256) ∷ (n / 256 % 256) ∷ []

-- A write that leaves the memory is out of bounds.
unfoldable pub write_at : ℕ → Bytes → Bytes → Option Bytes
write_at off bs mem =
    if leb (off + length bs) (length mem)
    then some (take off mem ++ (bs ++ drop (off + length bs) mem))
    else none

-- `no_room` is -ENOMEM, or NULL.
pub data Put : Type 0 where
  put : Nlmsg → Put
  no_room out_of_bounds : Put

abbrev pub written : Nlmsg → Option Bytes → Put
written m none = out_of_bounds
written m (some bytes) = put (record m { bytes = bytes })

abbrev pub then_put : Put → (Nlmsg → Put) → Put
then_put (put m) f = f m
then_put no_room f = no_room
then_put out_of_bounds f = out_of_bounds

-- NLMSG_TAIL
abbrev pub nlmsg_tail : Nlmsg → ℕ
nlmsg_tail m = align m.nlmsg_len

unfoldable pub nla_put : Nlmsg → ℕ → Bytes → Put
unfolding write_at
nla_put m attr payload =
    let rtalen = rta_length (length payload) in
    let tlen = align m.nlmsg_len + align rtalen in
    if ltb m.cap tlen
    then no_room
    else then_put (written m (write_at (nlmsg_tail m) (u16 rtalen ++ u16 attr) m.bytes)) (λ m'.
      then_put (written m' (write_at (nlmsg_tail m + rtattr_size) payload m'.bytes))
        (λ m''. put (record m'' { nlmsg_len = tlen % 2 ^ 32 })))

unfoldable pub nla_put_buffer : Nlmsg → ℕ → Bytes → Put
unfolding nla_put
nla_put_buffer m attr payload = nla_put m attr payload

-- `text` is the string without its terminating zero.
unfoldable pub nla_put_string : Nlmsg → ℕ → Bytes → Put
unfolding nla_put
nla_put_string m attr text = nla_put m attr (text ++ 0 ∷ [])

unfoldable pub nla_put_u32 : Nlmsg → ℕ → ℕ → Put
unfolding nla_put
nla_put_u32 m attr value = nla_put m attr (u16 value ++ u16 (value / 65536))

unfoldable pub nla_put_u16 : Nlmsg → ℕ → ℕ → Put
unfolding nla_put
nla_put_u16 m attr value = nla_put m attr (u16 value)

unfoldable pub nla_put_attr : Nlmsg → ℕ → Put
unfolding nla_put
nla_put_attr m attr = nla_put m attr []

-- The attribute stands at the offset that the message ended at.
unfoldable pub nla_begin_nested : Nlmsg → ℕ → Put × ℕ
unfolding nla_put_attr
nla_begin_nested m attr = (nla_put_attr m attr, nlmsg_tail m)

unfoldable pub nla_end_nested : Nlmsg → ℕ → Put
unfolding write_at
nla_end_nested m attr = written m (write_at attr (u16 (nlmsg_tail m - attr)) m.bytes)

-- With memory that is there.
unfoldable pub nlmsg_alloc : ℕ → Nlmsg
nlmsg_alloc size =
    let len = nlmsg_hdrlen + align size in
    record { nlmsg_len = nlmsg_hdrlen; cap = len; bytes = zeros len }

-- The offset of what is reserved is the length before.
unfoldable pub nlmsg_reserve : Nlmsg → ℕ → Put
unfolding write_at
nlmsg_reserve m len =
    let tlen = align len in
    if ltb m.cap (m.nlmsg_len + tlen)
    then no_room
    else then_put (written m (write_at (m.nlmsg_len + len) (zeros (tlen - len)) m.bytes))
        (λ m'. put (record m' { nlmsg_len = (m.nlmsg_len + tlen) % 2 ^ 32 }))

unfoldable pub nlmsg_alloc_reserve : ℕ → Nlmsg
unfolding nlmsg_alloc
nlmsg_alloc_reserve size = let m = nlmsg_alloc size in record m { nlmsg_len = m.cap }

-- The first attribute of some bytes: rta_len, rta_type, and RTA_OK.
abbrev pub rta_len : Bytes → ℕ
rta_len bs = get_or bs 0 0 + 256 * get_or bs 1 0

abbrev pub rta_type : Bytes → ℕ
rta_type bs = get_or bs 2 0 + 256 * get_or bs 3 0

abbrev pub rta_ok : Bytes → Bool
rta_ok bs =
    leb rtattr_size (length bs) && leb rtattr_size (rta_len bs) && leb (rta_len bs) (length bs)

-- RTA_PAYLOAD and RTA_DATA
abbrev pub rta_payload : Bytes → ℕ
rta_payload bs = rta_len bs - rtattr_size

abbrev pub rta_data : Bytes → Bytes
rta_data bs = drop rtattr_size bs

-- RTA_NEXT
abbrev pub rta_next : Bytes → Bytes
rta_next bs = drop (align (rta_len bs)) bs

abbrev pub ifa_address : ℕ
ifa_address = 1

abbrev pub ifa_local : ℕ
ifa_local = 2

-- The return value -1, the address that was found, or the end of the fuel.
pub data Found : Type 0 where
  found : Option Bytes → Found
  bad_size no_fuel : Found

-- The loop of ifa_get_local_ip on the attributes behind its struct ifaddrmsg, with memory that is
-- there. The length of the bytes is fuel enough.
unfoldable pub local_ip_loop : ℕ → ℕ → Bytes → Option Bytes → Found
local_ip_loop zero addrlen bs res = no_fuel
local_ip_loop (suc fuel) addrlen bs res =
    let value = take addrlen (rta_data bs) in
    let next_found = local_ip_loop fuel addrlen (rta_next bs) (some value) in
    let next = local_ip_loop fuel addrlen (rta_next bs) res in
    if rta_ok bs
    then if rta_type bs == ifa_local || rta_type bs == ifa_address
      then if rta_payload bs == addrlen
        then if rta_type bs == ifa_local then found (some value) else next_found
        else bad_size
      else next
    else found res

-- AF_INET, and the sizes of struct in_addr and struct in6_addr
abbrev pub af_inet : ℕ
af_inet = 2

abbrev pub addrlen_of : ℕ → ℕ
addrlen_of family = if family == af_inet then 4 else 16

-- `ifa_family` is the family in the message.
unfoldable pub ifa_get_local_ip : ℕ → ℕ → Bytes → Option Bytes → Found
unfolding local_ip_loop
ifa_get_local_ip family ifa_family attributes res =
    if family == ifa_family
    then local_ip_loop (suc (length attributes)) (addrlen_of family) attributes res
    else found res
