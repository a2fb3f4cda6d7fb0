-- ===== src/Cpuset.antt =====
-- The cpus of a legacy cpuset cgroup: lxc_cpumask, lxc_cpumask_update, lxc_cpumask_to_cpulist and
-- cpuset1_cpus_initialize of src/lxc/cgroups/cgfsng.c.
pub mod Masks
pub mod Copied
pub mod Possible
mod Tests
use lxc.Base.{
  ℕ, zero, suc, ◌+◌, ◌-◌, ◌*◌, ◌/◌, ◌%◌, ◌^◌, min, Bytes, List, [], ◌∷◌, Bool, true, false, not,
  ◌&&◌, ◌||◌, ◌==◌, ltb, leb, if◌then◌else◌, map, Option, none, some,
}
use lxc.Text.Number.{Scanned, scan_signed, skip_space}
use lxc.Text.Decimal.{decimal}
use lxc.Text.Split.{tokens, lxc_string_join}

-- An array of __u32, as its number of bits and the bits; a bit behind them is out of bounds.
pub record Mask : Type 0 where
  pub bits : ℕ
  pub is_set : ℕ → Bool

unfoldable pub set_bit : ℕ → Bool → Mask → Option Mask
set_bit n b m =
    if ltb n m.bits
    then some (record m { is_set = λ j. if j == n then b else m.is_set j })
    else none

-- strtoul with the base 0, in a variable of type __u32.
abbrev pub value_of : Bool × Scanned → ℕ
value_of (negative, n) =
    if ltb (2 ^ 64 - 1) n.magnitude
    then 2 ^ 32 - 1
    else (if negative then (2 ^ 64 - n.magnitude) % 2 ^ 64 else n.magnitude) % 2 ^ 32

unfoldable pub strtoul32 : Bytes → ℕ
strtoul32 s = value_of (scan_signed 0 (skip_space s))

-- What strchr finds for '-', without that byte.
unfoldable pub behind_dash : Bytes → Option Bytes
behind_dash [] = none
behind_dash (c ∷ s) = if c == b'-' then some s else behind_dash s

abbrev pub last_of : ℕ → Option Bytes → ℕ
last_of first none = first
last_of first (some s) = strtoul32 s

-- The first and the last bit of a token.
unfoldable pub range_of : Bytes → ℕ × ℕ
unfolding strtoul32 behind_dash
range_of token = (strtoul32 token, last_of (strtoul32 token) (behind_dash token))

abbrev pub is_comma : ℕ → Bool
is_comma c = c == b','

unfoldable pub ranges : Bytes → List (ℕ × ℕ)
unfolding range_of
ranges buf = map range_of (tokens is_comma buf)

-- The variables of lxc_cpumask; nr_u32 is 8 throughout.
pub record Masking : Type 0 where
  pub mask : Mask
  pub nbits : ℕ
  pub cur_last_set_bit : ℕ

pub data Masked : Type 0 where
  masked : Masking → Masked
  bad_range out_of_bounds : Masked

-- BITS_TO_LONGS
abbrev pub bits_to_longs : ℕ → ℕ
bits_to_longs nr = (nr + 31) / 32

-- The array behind realloc; memset clears it from its word 8 on.
unfoldable pub grow : ℕ → Masking → Option Masking
grow last_bit s =
    let add_bits = (last_bit + 2 ^ 32 - s.nbits + 32) % 2 ^ 32 in
    let new_nr_u32 = bits_to_longs ((s.nbits + add_bits) % 2 ^ 32) in
    if ltb new_nr_u32 8
    then none
    else some (record s {
      mask = record {
        bits = new_nr_u32 * 32;
        is_set = λ j. if ltb j 256 then s.mask.is_set j else false;
      };
      nbits = (s.nbits + add_bits) % 2 ^ 32;
    })

-- `while (first_bit <= last_bit)`, by the number of rounds; for last_bit = 2^32 - 1 the loop of the
-- code does not end.
unfoldable pub set_range : ℕ → ℕ → Mask → Option Mask
unfolding set_bit
set_range zero first m = some m
set_range (suc n) first m = elim (set_bit first true m) [
  | none ↦ none
  | some m' ↦ set_range n (first + 1) m'
]

abbrev pub with_range : ℕ × ℕ → Option Masking → Masked
with_range r none = out_of_bounds
with_range (first, last) (some s) = elim (set_range (last + 1 - first) first s.mask) [
  | none ↦ out_of_bounds
  | some m ↦ masked (record s {
    mask = m;
    cur_last_set_bit = if ltb s.cur_last_set_bit last then last else s.cur_last_set_bit;
  })
]

unfoldable pub mask_token : ℕ × ℕ → Masking → Masked
unfolding grow set_range
mask_token (first, last) s =
    if not (leb first last)
    then bad_range
    else with_range (first, last) (if leb s.nbits last then grow last s else some s)

unfoldable pub mask_loop : List (ℕ × ℕ) → Masking → Masked
unfolding mask_token
mask_loop [] s = masked s
mask_loop (r ∷ rs) s = elim (mask_token r s) [
  | masked s' ↦ mask_loop rs s'
  | bad_range ↦ bad_range
  | out_of_bounds ↦ out_of_bounds
]

abbrev pub no_cpus : Masking
no_cpus = record {
  mask = record { bits = 256; is_set = λ _. false };
  nbits = 256;
  cur_last_set_bit = 0;
}

unfoldable pub lxc_cpumask : Bytes → Masked
unfolding mask_loop ranges
lxc_cpumask buf = mask_loop (ranges buf) no_cpus

-- Whether a bit was changed, and the mask. The last set bit lies in the array.
unfoldable pub update_range : ℕ → ℕ → Bool → Bool × Mask → Bool × Mask
update_range zero first clear s = s
update_range (suc n) first clear (flipped, m) = update_range n (first + 1) clear (
    if clear && m.is_set first
    then (true, record m { is_set = λ j. if j == first then false else m.is_set j })
    else if not clear && not (m.is_set first)
    then (true, record m { is_set = λ j. if j == first then true else m.is_set j })
    else (flipped, m))

unfoldable pub update_token : ℕ × ℕ → ℕ → Bool → Bool × Mask → Bool × Mask
unfolding update_range
update_token (first, last) last_set_bit clear s =
    if not (leb first last)
    then s
    else if ltb last_set_bit last
    then s
    else update_range (last + 1 - first) first clear s

unfoldable pub update_loop : List (ℕ × ℕ) → ℕ → Bool → Bool × Mask → Bool × Mask
unfolding update_token
update_loop [] last_set_bit clear s = s
update_loop (r ∷ rs) last_set_bit clear s =
    update_loop rs last_set_bit clear (update_token r last_set_bit clear s)

unfoldable pub lxc_cpumask_update : Bytes → Mask → ℕ → Bool → Bool × Mask
unfolding update_loop ranges
lxc_cpumask_update buf bitarr last_set_bit clear =
    update_loop (ranges buf) last_set_bit clear (false, bitarr)

-- The numbers of the set bits among `n` from `bit` on.
unfoldable pub set_bits : ℕ → ℕ → Mask → List ℕ
set_bits zero bit m = []
set_bits (suc n) bit m =
    let rest = set_bits n (bit + 1) m in if m.is_set bit then bit ∷ rest else rest

abbrev pub list_of : List ℕ → Option Bytes
list_of [] = none
list_of (n ∷ ns) = some (lxc_string_join (b',' ∷ []) (map decimal (n ∷ ns)) false)

unfoldable pub lxc_cpumask_to_cpulist : Mask → ℕ → Option Bytes
unfolding set_bits
lxc_cpumask_to_cpulist bitarr last_set_bit = list_of (set_bits (last_set_bit + 1) 0 bitarr)

-- What strtok_r leaves of the string that it splits: separators in front, and the first token.
unfoldable pub first_token : Bytes → Bytes
first_token [] = []
first_token (c ∷ s) = if is_comma c then [] else c ∷ first_token s

unfoldable pub behind_strtok : Bytes → Bytes
unfolding first_token
behind_strtok [] = []
behind_strtok (c ∷ s) = if is_comma c then c ∷ behind_strtok s else first_token (c ∷ s)

abbrev pub update_with : Option Bytes → ℕ → Bool × Mask → Bool × Mask
update_with none last s = s
update_with (some cpus) last (flipped, m) =
    let (again, m') = lxc_cpumask_update cpus m last true in (flipped || again, m')

-- `ret` behind both updates decides between the list of the mask and the string of the parent.
abbrev pub chosen : Bytes → ℕ → Bool × Mask → Option Bytes
chosen posscpus last (true, m) = some (behind_strtok posscpus)
chosen posscpus last (false, m) = lxc_cpumask_to_cpulist m last

abbrev pub chosen_of : Bytes → Option Bytes → Option Bytes → Masked → Option Bytes
chosen_of posscpus isolcpus offlinecpus (masked s) = chosen posscpus s.cur_last_set_bit (
    update_with offlinecpus s.cur_last_set_bit
      (update_with isolcpus s.cur_last_set_bit (false, s.mask)))
chosen_of posscpus isolcpus offlinecpus bad_range = none
chosen_of posscpus isolcpus offlinecpus out_of_bounds = none

-- The list that cpuset1_cpus_initialize writes to a child that is not initialized: for the cpus of the
-- parent, and the isolated and the offline ones where their files begin with a digit.
unfoldable pub cpulist_of : Bytes → Option Bytes → Option Bytes → Option Bytes
unfolding lxc_cpumask lxc_cpumask_update lxc_cpumask_to_cpulist behind_strtok
cpulist_of posscpus none none = some posscpus
cpulist_of posscpus none (some offlinecpus) =
    chosen_of posscpus none (some offlinecpus) (lxc_cpumask posscpus)
cpulist_of posscpus (some isolcpus) offlinecpus =
    chosen_of posscpus (some isolcpus) offlinecpus (lxc_cpumask posscpus)
