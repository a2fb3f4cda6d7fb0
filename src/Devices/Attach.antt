-- ===== src/Devices/Attach.antt =====
-- Loading, attaching, detaching and exchanging the program of the device cgroup:
-- src/lxc/cgroups/cgroup2_devices.c from bpf_program_load_kernel on. bpf(2) and dup are parameters.
pub mod Update
pub mod Enforced
pub mod Fallback
mod Tests
use lxc.Base.{
  ℕ, ℤ, pos, negsuc, is_neg, pos_part, ◌+◌, List, Bool, true, false, not, ◌||◌, ◌==◌, leb,
  if◌then◌else◌, Option, none, some, Result, ok, err, ebadf, ebusy, einval,
}
use lxc.Devices.Rules.{Device, BpfDevices, bpf_list_add_device}
use lxc.Devices.Bpf.{Insn, BpfProgram, bpf_cgroup_devices}

-- BPF_PROG_LOAD, BPF_PROG_ATTACH and BPF_PROG_DETACH on a state of the kernel, and dup_cloexec.
-- `attach k target fd flags replaced`: the program `fd` to the cgroup `target`.
pub record Bpf (K : Type 0) : Type 0 where
  pub load : K → List Insn → Result ℕ × K
  pub attach : K → ℤ → ℕ → ℕ → ℤ → Result ℕ × K
  pub detach : K → ℤ → ℤ → Result ℕ × K
  pub dup : K → ℤ → Result ℕ

-- -EBADF, the value of a descriptor that is not open
abbrev pub no_fd : ℤ
no_fd = negsuc 8

-- BPF_CGROUP_DEVICE
abbrev pub bpf_cgroup_device : ℕ
bpf_cgroup_device = 6

abbrev pub bpf_f_allow_multi : ℕ
bpf_f_allow_multi = 2

abbrev pub bpf_f_replace : ℕ
bpf_f_replace = 4

-- The static variable of bpf_cgroup_devices_update: -1, 1 or 0.
pub data CanReplace : Type 0 where
  unknown usable unusable : CanReplace

-- What is used of struct cgroup_ops, with that variable.
pub record CgroupOps : Type 0 where
  pub pure_unified : Bool
  pub dfd_lim : ℤ
  pub cgroup2_devices : Option BpfProgram
  pub can_use_bpf_replace : CanReplace

-- With the program that a call leaves in the caller's structure.
abbrev pub Call : Type 0 → Type 0
Call K = Result ℕ × BpfProgram × K

-- A load that fails leaves -1 in the descriptor, and its errno for bpf_program_cgroup_attach to return.
abbrev pub on_load : {K : Type 0} → BpfProgram → Result ℕ × K → Call K
on_load prog (ok fd, k) = (ok 0, record prog { kernel_fd = pos fd }, k)
on_load prog (err e, k) = (err e, record prog { kernel_fd = negsuc 0 }, k)

abbrev pub on_attach : {K : Type 0} → ℕ → ℕ → ℕ → BpfProgram → Result ℕ × K → Call K
on_attach type fd_attach flags prog (ok r, k) = (
  ok 0,
  record prog { fd_cgroup = pos fd_attach; attached_type = type; attached_flags = flags },
  k,
)
on_attach type fd_attach flags prog (err e, k) = (err e, prog, k)

abbrev pub is_ok : Result ℕ → Bool
is_ok (ok r) = true
is_ok (err e) = false

module _ {K : Type 0} (sys : Bpf K) where
  unfoldable pub bpf_program_load_kernel : K → BpfProgram → Call K
  bpf_program_load_kernel k prog =
      if not (is_neg prog.kernel_fd)
      then (ok 0, prog, k)
      else on_load prog (sys.load k prog.instructions)

  -- The rest of bpf_program_cgroup_attach behind the load.
  unfoldable pub attach_loaded : ℕ → ℕ → ℕ → Call K → Call K
  attach_loaded type fd_attach flags (err e, prog, k) = (err e, prog, k)
  attach_loaded type fd_attach flags (ok r, prog, k) =
      on_attach type fd_attach flags prog
        (sys.attach k (pos fd_attach) (pos_part prog.kernel_fd) flags (pos 0))

  unfoldable pub attach_dup : K → BpfProgram → ℕ → ℕ → Result ℕ → Call K
  unfolding attach_loaded bpf_program_load_kernel
  attach_dup k prog type flags (err e) = (err e, prog, k)
  attach_dup k prog type flags (ok fd_attach) =
      attach_loaded type fd_attach flags (bpf_program_load_kernel k prog)

  -- Flags are those of BPF_F_ALLOW_OVERRIDE, BPF_F_ALLOW_MULTI and BPF_F_REPLACE below 8.
  unfoldable pub bpf_program_cgroup_attach : K → BpfProgram → ℕ → ℤ → ℕ → Call K
  unfolding attach_dup
  bpf_program_cgroup_attach k prog type fd_cgroup flags =
      if not (is_neg prog.fd_cgroup) || not (is_neg prog.kernel_fd)
      then (err ebusy, prog, k)
      else if is_neg fd_cgroup
      then (err ebadf, prog, k)
      else if leb 8 flags
      then (err einval, prog, k)
      else attach_dup k prog type flags (sys.dup k fd_cgroup)

  abbrev pub closed : BpfProgram → BpfProgram
  closed prog = record prog { fd_cgroup = no_fd; kernel_fd = no_fd }

  unfoldable pub bpf_program_cgroup_detach : K → BpfProgram → Call K
  bpf_program_cgroup_detach k prog =
      if is_neg prog.fd_cgroup || is_neg prog.kernel_fd
      then (ok 0, closed prog, k)
      else (let (r, k') = sys.detach k prog.fd_cgroup prog.kernel_fd in (r, closed prog, k'))

  -- bpf_program_free, which also leaves a scope with its program.
  unfoldable pub bpf_program_free : K → Option BpfProgram → K
  unfolding bpf_program_cgroup_detach
  bpf_program_free k none = k
  bpf_program_free k (some prog) = (bpf_program_cgroup_detach k prog).2

  unfoldable pub bpf_device_program_free : K → CgroupOps → CgroupOps × K
  unfolding bpf_program_free
  bpf_device_program_free k ops =
      (record ops { cgroup2_devices = none }, bpf_program_free k ops.cgroup2_devices)

  abbrev swap_in : CgroupOps → Call K → Bool × CgroupOps × K
  swap_in ops (ok r, prog, k) =
      (true, record ops { cgroup2_devices = some prog }, bpf_program_free k ops.cgroup2_devices)
  swap_in ops (err e, prog, k) = (false, ops, bpf_program_free k (some prog))

  abbrev attach_built : K → CgroupOps → Result BpfProgram → Bool × CgroupOps × K
  attach_built k ops (err e) = (false, ops, k)
  attach_built k ops (ok prog) =
      swap_in ops (bpf_program_cgroup_attach k prog bpf_cgroup_device ops.dfd_lim bpf_f_allow_multi)

  unfoldable pub bpf_cgroup_devices_attach : K → CgroupOps → BpfDevices → Bool × CgroupOps × K
  unfolding bpf_program_cgroup_attach bpf_program_free
  bpf_cgroup_devices_attach k ops devices = attach_built k ops (bpf_cgroup_devices devices)

  -- The calls of bpf(2) in bpf_cgroup_devices_update: whether the last one succeeded, and what is
  -- known of BPF_F_REPLACE then.
  abbrev appended : K → CanReplace → ℤ → ℕ → Bool × CanReplace × K
  appended k can target fd =
      let (r, k') = sys.attach k target fd bpf_f_allow_multi (pos 0) in (is_ok r, can, k')

  abbrev try_replace : ℤ → ℕ → Result ℕ × K → Bool × CanReplace × K
  try_replace target fd (ok r, k) = (true, usable, k)
  try_replace target fd (err e, k) = appended k unusable target fd

  abbrev exchange : K → CanReplace → BpfProgram → ℕ → Bool × CanReplace × K
  exchange k usable old fd =
      let (r, k') =
        sys.attach k old.fd_cgroup fd (bpf_f_replace + bpf_f_allow_multi) old.kernel_fd in
      (is_ok r, usable, k')
  exchange k unknown old fd =
      try_replace old.fd_cgroup fd
        (sys.attach k old.fd_cgroup fd (bpf_f_replace + bpf_f_allow_multi) old.kernel_fd)
  exchange k unusable old fd = appended k unusable old.fd_cgroup fd

  -- What is done behind the calls: the program that is exchanged leaves the scope.
  abbrev exchanged :
      CgroupOps → BpfProgram → BpfProgram → Bool × CanReplace × K → Bool × CgroupOps × K
  exchanged ops old prog (false, can, k) =
      (false, record ops { can_use_bpf_replace = can }, bpf_program_free k (some prog))
  exchanged ops old prog (true, usable, k) = (
    true,
    record ops {
      can_use_bpf_replace = usable;
      cgroup2_devices = some (record prog {
        fd_cgroup = old.fd_cgroup;
        attached_type = old.attached_type;
        attached_flags = bpf_f_replace + bpf_f_allow_multi;
      });
    },
    bpf_program_free k (some (record old { fd_cgroup = no_fd; kernel_fd = no_fd })),
  )
  exchanged ops old prog (true, can, k) = (
    true,
    record ops {
      can_use_bpf_replace = can;
      cgroup2_devices =
          some
            (record prog { attached_type = old.attached_type; attached_flags = bpf_f_allow_multi });
    },
    bpf_program_free k (some old),
  )

  abbrev update_loaded : CgroupOps → BpfProgram → Call K → Bool × CgroupOps × K
  update_loaded ops old (err e, prog, k) = (false, ops, bpf_program_free k (some prog))
  update_loaded ops old (ok r, prog, k) =
      exchanged ops old prog (exchange k ops.can_use_bpf_replace old (pos_part prog.kernel_fd))

  abbrev update_built : K → CgroupOps → BpfProgram → Result BpfProgram → Bool × CgroupOps × K
  update_built k ops old (err e) = (false, ops, k)
  update_built k ops old (ok prog) = update_loaded ops old (bpf_program_load_kernel k prog)

  abbrev update_program : K → CgroupOps → BpfDevices → Option BpfProgram → Bool × CgroupOps × K
  update_program k ops devices none = bpf_cgroup_devices_attach k ops devices
  update_program k ops devices (some old) = update_built k ops old (bpf_cgroup_devices devices)

  -- With the list of rules that is left.
  unfoldable pub bpf_cgroup_devices_update :
      K → CgroupOps → BpfDevices → Device → (Bool × CgroupOps × K) × BpfDevices
  unfolding bpf_cgroup_devices_attach bpf_program_free bpf_program_load_kernel
  bpf_cgroup_devices_update k ops devices new =
      if not ops.pure_unified
      then ((false, ops, k), devices)
      else if is_neg ops.dfd_lim
      then ((false, ops, k), devices)
      else (let (altered, devices') = bpf_list_add_device devices new in
          if altered == 0
          then ((true, ops, k), devices')
          else (update_program k ops devices' ops.cgroup2_devices, devices'))
