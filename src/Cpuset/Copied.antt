-- ===== src/Cpuset/Copied.antt =====
-- cpuset1_cpus_initialize: which list a child cpuset gets.
use mathlib.Core.Bool.{false≢true}
use lxc.Base.{
  ℕ, ◌≤◌, ◌≡◌, refl, sym, Bytes, Bool, true, false, ◌||◌, if◌then◌else◌, Option, none, some,
  Bool-cases, inl, inr,
}
use lxc.Cpuset.{
  Mask, ranges, lxc_cpumask, lxc_cpumask_update, lxc_cpumask_to_cpulist, behind_strtok, update_with,
  chosen, cpulist_of, Masking, masked,
}
use lxc.Cpuset.Possible.{covers, IsSmall, lxc_cpumask-covers}
use lxc.Cpuset.Masks.{any_bit, update_loop-any_bit, update_loop-kept}

-- A range of the list that is in order, and ends at or below the last bit that is reported, has a
-- cpu of the mask. The ranges that end above it are skipped, with all their cpus.
abbrev pub takes_cpu : Option Bytes → Masking → Bool
takes_cpu none s = false
takes_cpu (some cpus) s = any_bit (ranges cpus) s.cur_last_set_bit s.mask

update_with-kept :
    (cpus : Option Bytes) (s : Masking)
    → takes_cpu cpus s ≡ false
    → update_with cpus s.cur_last_set_bit (false, s.mask) ≡ (false, s.mask)
unfolding lxc_cpumask_update
update_with-kept none s h = refl
update_with-kept (some cpus) s h =
    rw (update_loop-kept (ranges cpus) s.cur_last_set_bit false s.mask h) refl

update_with-takes_cpu :
    (cpus : Option Bytes) (s : Masking)
    → takes_cpu cpus s ≡ true
    → (update_with cpus s.cur_last_set_bit (false, s.mask)).0 ≡ true
unfolding lxc_cpumask_update
update_with-takes_cpu none s h = h
update_with-takes_cpu (some cpus) s h =
    update_loop-any_bit (ranges cpus) s.cur_last_set_bit s.mask h

update_with-true :
    (cpus : Option Bytes) (n : ℕ) (x : Bool × Mask) → x.0 ≡ true → (update_with cpus n x).0 ≡ true
update_with-true none n x h = h
update_with-true (some cpus) n (f, m) h = rw h refl

-- Both updates.
abbrev updated : Option Bytes → Option Bytes → Masking → Bool × Mask
updated isolcpus offlinecpus s =
    update_with offlinecpus s.cur_last_set_bit
      (update_with isolcpus s.cur_last_set_bit (false, s.mask))

updated-takes_cpu :
    (isolcpus offlinecpus : Option Bytes) (s : Masking)
    → (takes_cpu isolcpus s || takes_cpu offlinecpus s) ≡ true
    → (updated isolcpus offlinecpus s).0 ≡ true
updated-takes_cpu isolcpus offlinecpus s h = elim (Bool-cases (takes_cpu isolcpus s)) [
  | inl e ↦
      update_with-true offlinecpus s.cur_last_set_bit
        (update_with isolcpus s.cur_last_set_bit (false, s.mask))
        (update_with-takes_cpu isolcpus s e)
  | inr e ↦ rw (update_with-kept isolcpus s e) (update_with-takes_cpu offlinecpus s (rw e at h))
]

updated-kept :
    (isolcpus offlinecpus : Option Bytes) (s : Masking)
    → (takes_cpu isolcpus s || takes_cpu offlinecpus s) ≡ false
    → updated isolcpus offlinecpus s ≡ (false, s.mask)
updated-kept isolcpus offlinecpus s h = elim (Bool-cases (takes_cpu isolcpus s)) [
  | inl e ↦ absurd (false≢true (sym (rw e at h)))
  | inr e ↦ rw (update_with-kept isolcpus s e) (update_with-kept offlinecpus s (rw e at h))
]

chosen-true :
    (posscpus : Bytes) (n : ℕ) (x : Bool × Mask)
    → x.0 ≡ true
    → chosen posscpus n x ≡ some (behind_strtok posscpus)
chosen-true posscpus n (true, m) h = refl
chosen-true posscpus n (false, m) h = absurd (false≢true h)

cpulist_of-masked :
    (posscpus isolcpus : Bytes) (offlinecpus : Option Bytes) (s : Masking)
    → lxc_cpumask posscpus ≡ masked s
    → cpulist_of posscpus (some isolcpus) offlinecpus ≡ (
        if takes_cpu (some isolcpus) s || takes_cpu offlinecpus s
        then some (behind_strtok posscpus)
        else lxc_cpumask_to_cpulist s.mask s.cur_last_set_bit)
unfolding cpulist_of
cpulist_of-masked posscpus isolcpus offlinecpus s h =
    elim (Bool-cases (takes_cpu (some isolcpus) s || takes_cpu offlinecpus s)) [
      | inl e ↦
          rw (h, e)
            (chosen-true posscpus s.cur_last_set_bit (updated (some isolcpus) offlinecpus s)
              (updated-takes_cpu (some isolcpus) offlinecpus s e))
      | inr e ↦ rw (h, e, updated-kept (some isolcpus) offlinecpus s e) refl
    ]

-- For a parent's list of ranges that are in order and below 256, and known isolated cpus: the mask of
-- lxc_cpumask has exactly the bits of those ranges, the last bit that it reports is not below any of
-- them, and the list that is chosen is the parent's own text up to its first comma, where some range
-- of the isolated or of the offline cpus that is in order and ends at or below that last bit has a cpu
-- of the mask, and otherwise the list of the mask. Ranges that end above that bit are without effect.
pub cpulist_of-kept :
    (posscpus isolcpus : Bytes) (offlinecpus : Option Bytes)
    → IsSmall (ranges posscpus)
    → (s : Masking) × (lxc_cpumask posscpus ≡ masked s)
      × ((n : ℕ) → s.mask.is_set n ≡ covers (ranges posscpus) n)
      × ((n : ℕ) → covers (ranges posscpus) n ≡ true → n ≤ s.cur_last_set_bit)
      × (cpulist_of posscpus (some isolcpus) offlinecpus ≡ (
          if takes_cpu (some isolcpus) s || takes_cpu offlinecpus s
          then some (behind_strtok posscpus)
          else lxc_cpumask_to_cpulist s.mask s.cur_last_set_bit))
cpulist_of-kept posscpus isolcpus offlinecpus h =
    let built = lxc_cpumask-covers posscpus h in
    (
      built.0,
      built.1,
      built.2,
      built.3,
      cpulist_of-masked posscpus isolcpus offlinecpus built.0 built.1,
    )
