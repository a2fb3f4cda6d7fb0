-- ===== src/Cpuset/Tests.antt =====
-- Masks and lists of cpus.
use lxc.Text.Split.{tokens, in_word, prepend, lxc_string_join, join_parts, join_more}
use lxc.Text.Number.{
  scan_signed, skip_space, is_space, scan_prefixed, scan_base, scan_digits, digit_value,
}
use lxc.Text.Decimal.{decimal, digits_of}
use lxc.Base.{ℕ, ◌≤◌, ◌≡◌, refl, Bytes, ◌∷◌, [], true, ◌||◌, if◌then◌else◌, some, none, arith}
use lxc.Cpuset.{
  ranges, lxc_cpumask, lxc_cpumask_to_cpulist, behind_strtok, cpulist_of, Masking, masked,
}
use lxc.Cpuset.Possible.{covers, IsSmall}
use lxc.Cpuset.Copied.{takes_cpu, cpulist_of-kept}

-- "0-3,8"
abbrev posscpus : Bytes
posscpus = b'0' ∷ b'-' ∷ b'3' ∷ b',' ∷ b'8' ∷ []

-- "2"
abbrev isolcpus : Bytes
isolcpus = b'2' ∷ []

-- The isolated cpu 2 stays in the list, and the cpu 8 behind the comma is lost.
isolated_stays : cpulist_of posscpus (some isolcpus) none ≡ some (b'0' ∷ b'-' ∷ b'3' ∷ [])
unfolding cpulist_of tokens in_word prepend scan_signed skip_space is_space scan_prefixed scan_base
    scan_digits digit_value
isolated_stays = refl

-- No possible cpu is isolated.
none_isolated :
    cpulist_of posscpus (some (b'5' ∷ [])) none
    ≡ some (b'0' ∷ b',' ∷ b'1' ∷ b',' ∷ b'2' ∷ b',' ∷ b'3' ∷ b',' ∷ b'8' ∷ [])
unfolding cpulist_of tokens in_word prepend scan_signed skip_space is_space scan_prefixed scan_base
    scan_digits digit_value lxc_string_join join_parts decimal digits_of join_more
none_isolated = refl

posscpus-IsSmall : IsSmall (ranges posscpus)
unfolding IsSmall ranges tokens in_word prepend scan_signed skip_space is_space scan_prefixed
    scan_base scan_digits digit_value
posscpus-IsSmall = (omega arith, omega arith, (omega arith, omega arith, tt))

cpulist_of-kept_example :
    (s : Masking) × (lxc_cpumask posscpus ≡ masked s)
    × ((n : ℕ) → s.mask.is_set n ≡ covers (ranges posscpus) n)
    × ((n : ℕ) → covers (ranges posscpus) n ≡ true → n ≤ s.cur_last_set_bit)
    × (cpulist_of posscpus (some isolcpus) none ≡ (
        if takes_cpu (some isolcpus) s || takes_cpu none s
        then some (behind_strtok posscpus)
        else lxc_cpumask_to_cpulist s.mask s.cur_last_set_bit))
cpulist_of-kept_example = cpulist_of-kept posscpus isolcpus none posscpus-IsSmall
