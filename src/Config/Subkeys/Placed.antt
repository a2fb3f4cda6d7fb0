-- ===== src/Config/Subkeys/Placed.antt =====
-- What setting and clearing the keys of a network device does to the list of devices.
use lxc.Base.{
  ℕ, suc, ◌-◌, ◌^◌, ◌<◌, ◌≡◌, refl, ap, ◌∙◌, Bytes, List, [], ◌∷◌, ◌++◌, append-nil, Option, none,
  some, true, false, ◌==◌, ◌&&◌, ==_iff, eq_self, if◌then◌else◌, Bool-cases, inl, inr, any,
  any-cons, length, Result, ok, err, ◌>>=◌, einval, enoent, All, arith,
}
use lxc.Text.Compare.{is_empty_string}
use lxc.Text.Number.{
  digit_value, lxc_safe_ulong, lxc_safe_uint, starts_with_minus, skip_space, check_uint,
}
use lxc.Text.Decimal.{digits_of, decimal}
use lxc.Text.Decimal.RoundTrip.{IsDigit, digits_of-IsDigit, safe_ulong-decimal}
use lxc.Config.Keys.Table.{ConfigItem}
use lxc.Config.Keys.{lxc_get_config_net}
use lxc.Config.Network.{Netdev, lxc_get_netdev_by_idx, lxc_remove_nic_by_idx}
use lxc.Config.Network.Sorted.{IsSorted, lookup, get-IsSorted, get-lookup, remove-lookup, or_new}
use lxc.Config.Subkeys.{
  network_subkey_size_max, info_with, get_network_config_ops, replace_netdev, Callback, call_ops,
  clr_config_jump_table_net, set_config_jump_table_net,
}
use lxc.Config.Subkeys.Read.{device_key, IsBehind, starts_with_digit-key, index_and_rest-key}
use lxc.Config.Subkeys.Devices.{
  or_fresh, or_new-fresh, device_at, get-device_at, lookup-idx, replace-lookup, replace-IsSorted,
}

-- lxc.net.<n>.<subkey>
abbrev pub net_key : ℕ → Bytes → Bytes
net_key n subkey = device_key n (b'.' ∷ subkey)

abbrev pub KeepsIdx : Callback → Type 0
KeepsIdx callback =
    (ops : ConfigItem) (subkey value : Bytes) (d : Netdev)
    → (callback ops subkey value d).1.idx ≡ d.idx

-- The callback of an entry, or the answer to an unsupported key.
abbrev pub call_on :
    Callback → Option ConfigItem → Bytes → Bytes → Netdev → Result (Unit {0}) × Netdev
call_on callback none subkey value d = (err enoent, d)
call_on callback (some ops) subkey value d = callback ops subkey value d

-- The list has a device at an index, and is as it was elsewhere.
pub record HasPlaced (r : List Netdev) (n : ℕ) (d : Netdev) (r' : List Netdev) : Type 0 where
  pub sorted : IsSorted r'
  pub at : (i : ℕ) → lookup r' i ≡ (if i == n then some d else lookup r i)

or_new-not : (o : Option Netdev) (n : ℕ) → or_new o false n ≡ o
or_new-not none n = refl
or_new-not (some d) n = refl

or_new-placed :
    (r : List Netdev) (n i : ℕ)
    → or_new (lookup r i) (i == n && true) n ≡ (if i == n then some (device_at r n) else lookup r i)
or_new-placed r n i = elim (Bool-cases (i == n)) [
  | inl e ↦
      rw e
        (or_new-fresh (lookup r i) n ∙ ap (λ k. some (or_fresh (lookup r k) n)) ((==_iff i n).0 e))
  | inr e ↦ rw e (or_new-not (lookup r i) n)
]

got-HasPlaced :
    (r : List Netdev) (n : ℕ)
    → IsSorted r
    → HasPlaced r n (device_at r n) (lxc_get_netdev_by_idx r n true).1
got-HasPlaced r n s = record {
  sorted = get-IsSorted r n true s;
  at = λ i. get-lookup r n i true s ∙ or_new-placed r n i;
}

replaced-HasPlaced :
    (r r' : List Netdev) (n : ℕ) (d x : Netdev)
    → HasPlaced r n d r'
    → x.idx ≡ d.idx
    → HasPlaced r n x (replace_netdev d.idx x r')
replaced-HasPlaced r r' n d x p kept =
    let there : lookup r' n ≡ some d = p.at n ∙ rw (eq_self n) refl in
    let same : d.idx ≡ n = lookup-idx r' n d there in
    record {
      sorted = replace-IsSorted d.idx r' x kept p.sorted;
      at = λ i.
          replace-lookup r' d.idx i d x kept (ap (lookup r') same ∙ there)
          ∙ rw same (elim (Bool-cases (i == n)) [
            | inl e ↦ rw e refl
            | inr e ↦ rw e (p.at i ∙ rw e refl)
          ]);
    }

called-HasPlaced :
    (set : Callback) (r r' : List Netdev) (n : ℕ) (ops : Option ConfigItem) (subkey value : Bytes)
    (d : Netdev)
    → KeepsIdx set
    → HasPlaced r n d r'
    → ((call_ops set value (info_with subkey d ops, r')).0 ≡ (call_on set ops subkey value d).0)
      × HasPlaced r n
          (call_on set ops subkey value d).1
          (call_ops set value (info_with subkey d ops, r')).1
called-HasPlaced set r r' n none subkey value d keeps p = (refl, p)
called-HasPlaced set r r' n (some ops) subkey value d keeps p =
    (refl, replaced-HasPlaced r r' n d (set ops subkey value d).1 p (keeps ops subkey value d))

dot-IsBehind : (subkey : Bytes) → IsBehind (b'.' ∷ subkey)
unfolding digit_value
dot-IsBehind subkey = refl

get_ops-key :
    (n : ℕ) (subkey : Bytes) (r : List Netdev)
    → n < 2 ^ 31 - 1
    → suc (length subkey) < network_subkey_size_max
    → IsSorted r
    → get_network_config_ops (net_key n subkey) r true ≡ (
      info_with subkey (device_at r n) (lxc_get_config_net subkey),
      (lxc_get_netdev_by_idx r n true).1,
    )
unfolding get_network_config_ops
get_ops-key n subkey r fits short s =
    rw
      (
        index_and_rest-key n (b'.' ∷ subkey) fits (dot-IsBehind subkey) short,
        (get-device_at r n s).0,
      )
      refl

digit-not_dot : (c : ℕ) → IsDigit c → (c == b'.') ≡ false
digit-not_dot c h = ground arith

digits_no_dot : (s : Bytes) → All IsDigit s → any (λ c. c == b'.') s ≡ false
digits_no_dot [] a = refl
digits_no_dot (c ∷ s) (h, a) =
    let first : (c == b'.') ≡ false = digit-not_dot c h in
    rw (any-cons (λ d. d == b'.') c s, first) (digits_no_dot s a)

err-ne-ok : (e n : ℕ) → ◌≡◌ {A = Result ℕ} (err e) (ok n) → ⊥
err-ne-ok e n h = cc

safe_uint-ulong : (s : Bytes) (n : ℕ) → lxc_safe_ulong s ≡ ok n → lxc_safe_uint s ≡ check_uint n
unfolding lxc_safe_ulong lxc_safe_uint
safe_uint-ulong s n h = elim (Bool-cases (starts_with_minus (skip_space s))) [
  | inl t ↦ absurd (err-ne-ok einval n (rw t at h))
  | inr f ↦ rw f (ap (λ r. r >>= check_uint) (rw f at h))
]

check-small : (n : ℕ) → n < 2 ^ 32 → check_uint n ≡ ok n
unfolding check_uint
check-small n h = ground arith

safe_uint-decimal : (n : ℕ) → n < 2 ^ 32 → lxc_safe_uint (decimal n) ≡ ok n
safe_uint-decimal n h =
    safe_uint-ulong (decimal n) n (safe_ulong-decimal n (omega arith)) ∙ check-small n h

clear_device :
    (clr : Callback) (n : ℕ) (r : List Netdev)
    → n < 2 ^ 32
    → clr_config_jump_table_net clr (device_key n []) r ≡ (ok tt, (lxc_remove_nic_by_idx r n).1)
unfolding clr_config_jump_table_net
clear_device clr n r h =
    let no_dot : any (λ c. c == b'.') (decimal n ++ []) ≡ false =
      rw (append-nil (decimal n))
        (unfold decimal in digits_no_dot (digits_of 20 n []) (digits_of-IsDigit 20 n [] tt)) in
    let number : lxc_safe_uint (decimal n ++ []) ≡ ok n =
      rw (append-nil (decimal n)) (safe_uint-decimal n h) in
    rw (starts_with_digit-key n [], no_dot, number) refl

set_config-key :
    (set clr : Callback) (n : ℕ) (rest : Bytes) (c : ℕ) (value : Bytes) (r : List Netdev)
    → set_config_jump_table_net set clr (device_key n rest) (c ∷ value) r
      ≡ call_ops set (c ∷ value) (get_network_config_ops (device_key n rest) r true)
unfolding set_config_jump_table_net is_empty_string
set_config-key set clr n rest c value r = rw (starts_with_digit-key n rest) refl

set_config-empty :
    (set clr : Callback) (n : ℕ) (rest : Bytes) (r : List Netdev)
    → set_config_jump_table_net set clr (device_key n rest) [] r
      ≡ clr_config_jump_table_net clr (device_key n rest) r
unfolding set_config_jump_table_net is_empty_string
set_config-empty set clr n rest r = rw (starts_with_digit-key n rest) refl

-- For a list of devices that is sorted by index, an index n below 2^31 - 1 in decimal, a subkey of at most
-- 36 bytes, and callbacks that keep the index of their device. Where lxc.net.<n>.<subkey> is set to a
-- value, the device of n is looked up, or added where there is none: where the subkey is supported, the
-- result is that of its callback, and the device becomes what the callback makes of it; otherwise the
-- result is ENOENT, and the added device stays. The list stays sorted, and all other devices are as they
-- were. Where lxc.net.<n> is set to the empty value, the device of n is gone, and all others stay.
pub set_config_net-HasPlaced :
    (set clr : Callback) (n : ℕ) (subkey : Bytes) (c : ℕ) (value : Bytes) (r : List Netdev)
    → KeepsIdx set
    → n < 2 ^ 31 - 1
    → suc (length subkey) < network_subkey_size_max
    → IsSorted r
    → ((set_config_jump_table_net set clr (net_key n subkey) (c ∷ value) r).0
        ≡ (call_on set (lxc_get_config_net subkey) subkey (c ∷ value) (device_at r n)).0)
      × HasPlaced r n
          (call_on set (lxc_get_config_net subkey) subkey (c ∷ value) (device_at r n)).1
          (set_config_jump_table_net set clr (net_key n subkey) (c ∷ value) r).1
      × ((set_config_jump_table_net set clr (device_key n []) [] r).0 ≡ ok tt)
      × ((i : ℕ)
          → lookup (set_config_jump_table_net set clr (device_key n []) [] r).1 i
            ≡ (if i == n then none else lookup r i))
set_config_net-HasPlaced set clr n subkey c value r keeps fits short s =
    let added = (lxc_get_netdev_by_idx r n true).1 in
    let ops = lxc_get_config_net subkey in
    let placed =
      called-HasPlaced set r added n ops subkey (c ∷ value) (device_at r n) keeps
        (got-HasPlaced r n s) in
    rw
      (
        set_config-key set clr n (b'.' ∷ subkey) c value r,
        get_ops-key n subkey r fits short s,
        set_config-empty set clr n [] r,
        clear_device clr n r (omega arith),
      )
      (placed.0, placed.1, refl, λ i. remove-lookup r n i s)
