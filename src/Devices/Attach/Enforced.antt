-- ===== src/Devices/Attach/Enforced.antt =====
-- What the cgroup decides behind bpf_cgroup_devices_update.
use lxc.Base.{
  ℕ, ◌≡◌, refl, ap, sym, ◌∙◌, List, [], ◌∷◌, Bool, true, false, ◌==◌, ==_iff, is_neg, some, All,
  arith, Bool-cases, Option-cases, inl, inr, ◌&&◌,
}
use lxc.Devices.Rules.{
  Device, BpfDevices, ListType, bpf_list_add_device, switch_existing, same_rule, bpf_device_add,
  is_global,
}
use lxc.Devices.Bpf.{Insn, BpfProgram, bpf_cgroup_devices}
use lxc.Devices.Bpf.Correct.{program-decide, built_closed}
use lxc.Devices.Machine.{Machine, Request, Registers, IsWellFormed, decide}
use lxc.Devices.Attach.{Bpf, CgroupOps, bpf_cgroup_devices_update, update_built, update_program}
use lxc.Devices.Attach.Update.{View, Documented, IsAttached, Updated, built-Updated}

switch_existing-zero :
    (t : ListType) (d : Device) (l l' : List Device) → switch_existing t d l ≡ some (0, l') → l' ≡ l
unfolding switch_existing
switch_existing-zero t d [] l' h = cc
switch_existing-zero t d (dev ∷ r) l' h =
    elim (Bool-cases (same_rule dev d && bpf_device_add t dev)) [
      | inl e ↦ ground arith
      | inr e ↦ elim (Option-cases (switch_existing t d r)) [
        | inl e' ↦ ground arith
        | inr ((n, r'), e') ↦ ground (arith, switch_existing-zero t d r r')
      ]
    ]

-- A list that is not altered is the same.
unaltered :
    (s : BpfDevices) (d : Device)
    → (bpf_list_add_device s d).0 ≡ 0
    → (bpf_list_add_device s d).1 ≡ s
unfolding bpf_list_add_device
unaltered s d h = elim (Bool-cases (is_global d)) [
  | inl e ↦ ground arith
  | inr e ↦ elim (Option-cases (switch_existing s.list_type d s.devices)) [
    | inl e' ↦ ground arith
    | inr ((n, r), e') ↦ ground (arith, switch_existing-zero s.list_type d s.devices r)
  ]
]

-- The answer that the rules give, from the instructions of a program.
abbrev pub Answers : Machine → Request → Registers → BpfDevices → List Insn → Type 0
Answers m q r s insns = m.exec q insns r ≡ some (decide s.list_type s.devices q)

module _ {K : Type 0} (sys : Bpf K) (v : View K) where
  -- The cgroup decides by the rules where the call succeeded, and as before where it failed.
  abbrev pub Decides :
      Machine → Request → Registers → K → BpfDevices → Bool × CgroupOps × K → Type 0
  Decides m q r k s (true, ops, k') =
      (fd : ℕ) × (insns : List Insn) × (v.attached k' ≡ (fd, insns) ∷ []) × Answers m q r s insns
  Decides m q r k s (false, ops, k') = v.attached k' ≡ v.attached k

  Updated-Decides :
      (m : Machine) (q : Request) (r : Registers) (k : K) (s : BpfDevices)
      (before : List (ℕ × List Insn)) (insns : List Insn) (x : Bool × CgroupOps × K)
      → v.attached k ≡ before
      → Answers m q r s insns
      → Updated sys v before insns x
      → Decides m q r k s x
  Updated-Decides m q r k s before insns (true, ops, k') b a (fd, h) = (fd, insns, h, a)
  Updated-Decides m q r k s before insns (false, ops, k') b a h = h ∙ sym b

  program-Decides :
      (m : Machine) (q : Request) (r : Registers) (k : K) (ops : CgroupOps) (old : BpfProgram)
      (f c : ℕ) (s : BpfDevices)
      → Documented sys v
      → IsAttached v k old f c
      → r 1 ≡ m.context_pointer
      → All IsWellFormed s.devices
      → Decides m q r k s (update_built sys k ops old (bpf_cgroup_devices s))
  program-Decides m q r k ops old f c s d a ctx w =
      let (p, built, answers) = program-decide m q r s ctx w in
      let (not_loaded, not_attached) = built_closed s p w built in
      rw built (
        Updated-Decides m q r k s _ p.instructions _ a.only answers
          (built-Updated sys v d k ops old p f c a not_loaded not_attached))

module _ {K : Type 0} (sys : Bpf K) (k : K) (ops : CgroupOps) (s : BpfDevices) (new : Device)
    (pure : ops.pure_unified ≡ true) (lim : is_neg ops.dfd_lim ≡ false) where
  update_unaltered :
      ((bpf_list_add_device s new).0 == 0) ≡ true
      → bpf_cgroup_devices_update sys k ops s new ≡ ((true, ops, k), (bpf_list_add_device s new).1)
  unfolding bpf_cgroup_devices_update
  update_unaltered e = ground arith

  pub update_altered :
      (old : BpfProgram)
      → ((bpf_list_add_device s new).0 == 0) ≡ false
      → ops.cgroup2_devices ≡ some old
      → bpf_cgroup_devices_update sys k ops s new ≡ (
        update_built sys k ops old (bpf_cgroup_devices (bpf_list_add_device s new).1),
        (bpf_list_add_device s new).1,
      )
  unfolding bpf_cgroup_devices_update
  update_altered old e has =
      let some_old = ap (update_program sys k ops (bpf_list_add_device s new).1) has in
      ground (arith, some_old)

-- For a kernel that does what bpf(2) documents, on a pure cgroup2 layout: where the one program
-- that is attached to the cgroup gives the answers of the rules, and the rules with a new one are
-- well-formed, then behind bpf_cgroup_devices_update the list has the new rule. If the call
-- returns true, one program is attached, and it gives the answers of the new rules; if it returns
-- false, the same programs are attached as before.
pub update-Decides :
    {K : Type 0} (sys : Bpf K) (v : View K) (m : Machine) (q : Request) (r : Registers) (k : K)
    (ops : CgroupOps) (old : BpfProgram) (f c : ℕ) (s : BpfDevices) (new : Device)
    → Documented sys v
    → ops.pure_unified ≡ true
    → is_neg ops.dfd_lim ≡ false
    → ops.cgroup2_devices ≡ some old
    → IsAttached v k old f c
    → r 1 ≡ m.context_pointer
    → Answers m q r s old.instructions
    → All IsWellFormed (bpf_list_add_device s new).1.devices
    → ((bpf_cgroup_devices_update sys k ops s new).1 ≡ (bpf_list_add_device s new).1)
      × Decides sys v m q r k
          (bpf_list_add_device s new).1
          (bpf_cgroup_devices_update sys k ops s new).0
update-Decides sys v m q r k ops old f c s new d pure lim has a ctx before w =
    elim (Bool-cases ((bpf_list_add_device s new).0 == 0)) [
      | inl e ↦
          let same = unaltered s new ((==_iff _ 0).0 e) in
          rw (update_unaltered sys k ops s new pure lim e)
            (refl, (f, old.instructions, a.only, rw same before))
      | inr e ↦
          rw (update_altered sys k ops s new pure lim old e has)
            (refl, program-Decides sys v m q r k ops old f c _ d a ctx w)
    ]
