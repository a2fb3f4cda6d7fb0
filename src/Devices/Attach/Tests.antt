-- ===== src/Devices/Attach/Tests.antt =====
-- A kernel that does what bpf(2) documents, with and without BPF_F_REPLACE, and updates of the rules.
use lxc.Base.{
  ebadf, ℕ, ◌+◌, ◌≡◌, refl, List, [], ◌∷◌, ◌++◌, Bool, true, false, ◌==◌, if◌then◌else◌, ℤ, pos,
  negsuc, some, ok, err, Result, All, einval, arith, pos_part,
}
use lxc.Devices.Rules.{
  BpfDevices, bpf_list_add_device, switch_existing, is_global, same_rule, bpf_device_add,
}
use lxc.Devices.Bpf.{Insn, BpfProgram}
use lxc.Devices.Bpf.Correct.{program-decide, built_closed, bpf_cgroup_devices_built}
use lxc.Devices.Machine.{IsWellFormed}
use lxc.Devices.Tests.{
  kernel, read_tty, start_regs, start_context, allowed, allowed-IsWellFormed, create_block, no_tty,
}
use lxc.Text.Compare.{strequal}
use lxc.Devices.Attach.{bpf_program_load_kernel, Bpf, CgroupOps, unknown, bpf_cgroup_devices_update}
use lxc.Devices.Attach.Update.{View, Documented, IsAttached, Replaces}
use lxc.Devices.Attach.Enforced.{Answers, Decides, update_altered, update-Decides}
use lxc.Devices.Attach.Fallback.{NoReplace, Fails, update-Fails_after_fallback}

-- The attached programs, the programs behind descriptors, and the next descriptor.
record Cgroup : Type 0 where
  attached : List (ℕ × List Insn)
  code : ℕ → List Insn
  next : ℕ

abbrev put_in : ℕ → ℕ × List Insn → List (ℕ × List Insn) → List (ℕ × List Insn)
put_in old new [] = []
put_in old new ((g, c) ∷ r) = if g == old then new ∷ r else (g, c) ∷ put_in old new r

abbrev take_out : ℕ → List (ℕ × List Insn) → List (ℕ × List Insn)
take_out fd [] = []
take_out fd ((g, c) ∷ r) = if g == fd then r else (g, c) ∷ take_out fd r

abbrev attach_program : Bool → Cgroup → ℤ → ℕ → ℕ → ℤ → Result ℕ × Cgroup
attach_program replace k (negsuc n) fd flags old = (err ebadf, k)
attach_program replace k (pos c) fd flags old =
    if flags == 2
    then (ok 0, record k { attached = k.attached ++ (fd, k.code fd) ∷ [] })
    else if replace
    then (ok 0, record k { attached = put_in (pos_part old) (fd, k.code fd) k.attached })
    else (err einval, k)

abbrev bpf_of : Bool → Bpf Cgroup
bpf_of replace = record {
  load = λ k insns. (
    ok k.next,
    record k { code = λ j. if j == k.next then insns else k.code j; next = k.next + 1 },
  );
  attach = attach_program replace;
  detach = λ k target fd. (ok 0, record k { attached = take_out (pos_part fd) k.attached });
  dup = λ k target. ok 9;
}

abbrev view : View Cgroup
view = record { attached = λ k. k.attached; code = λ k. k.code }

replaces_lem :
    (replace : Bool) (k : Cgroup) (c fd old : ℕ) (insns : List Insn)
    → k.attached ≡ (old, insns) ∷ []
    → Replaces view k fd (attach_program replace k (pos c) fd 6 (pos old))
replaces_lem true k c fd old insns h = rw h (ground arith)
replaces_lem false k c fd old insns h = (refl, refl)

bpf_of-Documented : (replace : Bool) → Documented (bpf_of replace) view
bpf_of-Documented replace = record {
  loads = λ k insns. (refl, ground arith);
  appends = λ k c fd. refl;
  replaces = replaces_lem replace;
  refuses = λ k n fd flags old. (refl, refl);
  detaches = λ k c fd insns rest h. rw h (ground arith);
}

-- The program of the rules `allowed`, loaded and attached.
old_program : BpfProgram
old_program =
    record (program-decide kernel read_tty start_regs allowed start_context
      allowed-IsWellFormed).0 { kernel_fd = pos 3; fd_cgroup = pos 5 }

old-Answers : Answers kernel read_tty start_regs allowed old_program.instructions
unfolding old_program
old-Answers =
    (program-decide kernel read_tty start_regs allowed start_context allowed-IsWellFormed).2

abbrev before : Cgroup
before = record {
  attached = (3, old_program.instructions) ∷ [];
  code = λ _. old_program.instructions;
  next = 4;
}

abbrev ops : CgroupOps
ops = record {
  pure_unified = true;
  dfd_lim = pos 7;
  cgroup2_devices = some old_program;
  can_use_bpf_replace = unknown;
}

before-IsAttached : IsAttached view before old_program 3 5
unfolding old_program
before-IsAttached = record { loaded = refl; in_cgroup = refl; only = refl }

added-IsWellFormed : All IsWellFormed (bpf_list_add_device allowed create_block).1.devices
unfolding bpf_list_add_device switch_existing is_global same_rule bpf_device_add
added-IsWellFormed = ground arith

update-Decides_example :
    ((bpf_cgroup_devices_update (bpf_of true) before ops allowed create_block).1
      ≡ (bpf_list_add_device allowed create_block).1)
    × Decides
        (bpf_of true)
        view
        kernel
        read_tty
        start_regs
        before
        (bpf_list_add_device allowed create_block).1
        (bpf_cgroup_devices_update (bpf_of true) before ops allowed create_block).0
update-Decides_example =
    update-Decides (bpf_of true) view kernel read_tty start_regs before ops old_program 3 5 allowed
      create_block (bpf_of-Documented true) refl refl refl before-IsAttached start_context
      old-Answers added-IsWellFormed

no_replace : NoReplace (bpf_of false) view
no_replace = λ k c fd old. (refl, refl)

abbrev added_rules : BpfDevices
added_rules = (bpf_list_add_device allowed create_block).1

altered : ((bpf_list_add_device allowed create_block).0 == 0) ≡ false
unfolding bpf_list_add_device switch_existing is_global same_rule bpf_device_add
altered = refl

-- The first call appends the new program and detaches the old one.
first_succeeds :
    (bpf_cgroup_devices_update (bpf_of false) before ops allowed create_block).0.0 ≡ true
unfolding bpf_program_load_kernel old_program
first_succeeds =
    let (p, built) = bpf_cgroup_devices_built added_rules added-IsWellFormed in
    let (not_loaded, _) = built_closed added_rules p added-IsWellFormed built in
    rw
      (
        update_altered (bpf_of false) before ops allowed create_block refl refl old_program altered
            refl,
        built,
        not_loaded,
      )
      refl

altered_again : ((bpf_list_add_device added_rules no_tty).0 == 0) ≡ false
unfolding bpf_list_add_device switch_existing is_global same_rule bpf_device_add strequal
altered_again = refl

again-IsWellFormed : All IsWellFormed (bpf_list_add_device added_rules no_tty).1.devices
unfolding bpf_list_add_device switch_existing is_global same_rule bpf_device_add strequal
again-IsWellFormed = ground arith

update-Fails_after_fallback_example :
    Fails
      (bpf_of false)
      view
      (bpf_cgroup_devices_update (bpf_of false) before ops allowed create_block).0.2
      (bpf_cgroup_devices_update
        (bpf_of false)
        (bpf_cgroup_devices_update (bpf_of false) before ops allowed create_block).0.2
        (bpf_cgroup_devices_update (bpf_of false) before ops allowed create_block).0.1
        added_rules
        no_tty).0
update-Fails_after_fallback_example =
    update-Fails_after_fallback (bpf_of false) view before ops old_program 3 5 allowed create_block
      no_tty (bpf_of-Documented false) no_replace refl refl refl before-IsAttached
      added-IsWellFormed altered first_succeeds again-IsWellFormed altered_again
