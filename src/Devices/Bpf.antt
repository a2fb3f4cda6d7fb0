-- ===== src/Devices/Bpf.antt =====
-- The eBPF program of the device cgroup: its instructions, and how bpf_program_init,
-- bpf_program_append_device and bpf_program_finalize of src/lxc/cgroups/cgroup2_devices.c build it.
pub mod Append
pub mod Run
pub mod Correct
use Prim.Native.Nat.{bit_or}
use lxc.Base.{
  ℕ, ◌+◌, ℤ, negsuc, is_neg, pos_part, Bytes, List, [], ◌∷◌, ◌++◌, Bool, true, false, not, ◌==◌,
  ltb, if◌then◌else◌, Result, ok, err, ◌>>=◌, ebusy, einval,
}
use lxc.Devices.Rules.{Device, BpfDevices, ListType, allowlist, list_type_value, bpf_device_add}

pub data AluOp : Type 0 where
  bpf_and bpf_rsh : AluOp

-- One constructor for each macro that builds a struct bpf_insn; the only size is BPF_W and the only
-- test of a jump is BPF_JNE.
pub data Insn : Type 0 where
  ldx_mem : ℕ → ℕ → ℕ → Insn
  alu32_imm : AluOp → ℕ → ℕ → Insn
  mov64_imm : ℕ → ℕ → Insn
  mov32_reg : ℕ → ℕ → Insn
  jne_reg : ℕ → ℕ → ℕ → Insn
  jne_imm : ℕ → ℕ → ℕ → Insn
  exit_insn : Insn

pub record BpfProgram : Type 0 where
  pub device_list_type : ListType
  pub kernel_fd : ℤ
  pub fd_cgroup : ℤ
  pub instructions : List Insn
  pub attached_type : ℕ
  pub attached_flags : ℕ

pub bpf_program_add_instructions : BpfProgram → List Insn → Result BpfProgram
bpf_program_add_instructions prog insns =
    if not (is_neg prog.kernel_fd)
    then err ebusy
    else ok (record prog { instructions = prog.instructions ++ insns })

-- `mask |= …` for each letter of the access string.
pub access_mask_from : ℕ → Bytes → Result ℕ
access_mask_from mask [] = ok mask
access_mask_from mask (c ∷ acc) =
    let read = access_mask_from (bit_or mask 2) acc in
    let write = access_mask_from (bit_or mask 4) acc in
    let mknod = access_mask_from (bit_or mask 1) acc in
    if c == b'r' then read else if c == b'w' then write else if c == b'm' then mknod else err einval

pub bpf_access_mask : Bytes → Result ℕ
unfolding access_mask_from
bpf_access_mask acc = access_mask_from 0 acc

pub bpf_device_type : ℕ → Result ℕ
bpf_device_type c =
    if c == b'a' then ok 0 else if c == b'b' then ok 1 else if c == b'c' then ok 2 else err einval

pub bpf_device_all_access : ℕ → Bool
bpf_device_all_access mask = mask == 7

pub bpf_program_new : BpfProgram
bpf_program_new = record {
  device_list_type = allowlist;
  kernel_fd = negsuc 8;
  fd_cgroup = negsuc 8;
  instructions = [];
  attached_type = 0;
  attached_flags = 0;
}

-- Device type to r2, access type to r3, major number to r4, minor number to r5.
pub bpf_program_init : BpfProgram → Result BpfProgram
unfolding bpf_program_add_instructions
bpf_program_init prog = bpf_program_add_instructions prog (
    ldx_mem 2 1 0
    ∷ alu32_imm bpf_and 2 0xFFFF
    ∷ ldx_mem 3 1 0
    ∷ alu32_imm bpf_rsh 3 16
    ∷ ldx_mem 4 1 4
    ∷ ldx_mem 5 1 8
    ∷ [])

abbrev pub one_if : Bool → ℕ
one_if b = if b then 1 else 0

-- One guarded call of bpf_program_add_instructions that uses `jump_nr--`.
pub add_guarded : Bool → (ℕ → List Insn) → BpfProgram × ℕ → Result (BpfProgram × ℕ)
unfolding bpf_program_add_instructions
add_guarded b insns (prog, jump_nr) =
    if b
    then (do
      prog' ← bpf_program_add_instructions prog (insns jump_nr)
      ok (prog', Prim.Native.Nat.pred jump_nr))
    else ok (prog, jump_nr)

-- The additions of bpf_program_append_device, once its tests are made.
pub append_guarded : BpfProgram → Bool → Bool → Bool → Bool → Device → ℕ → ℕ → Result BpfProgram
unfolding add_guarded bpf_program_add_instructions
append_guarded prog limited typed with_major with_minor d mask device_type = do
  let jump_nr = 1 + one_if limited + one_if typed + one_if with_major + one_if with_minor
  s1 ←
      add_guarded limited (λ n. mov32_reg 1 3 ∷ alu32_imm bpf_and 1 mask ∷ jne_reg 1 3 n ∷ [])
        (prog, jump_nr)
  s2 ← add_guarded typed (λ n. jne_imm 2 device_type n ∷ []) s1
  s3 ← add_guarded with_major (λ n. jne_imm 4 (pos_part d.major) n ∷ []) s2
  s4 ← add_guarded with_minor (λ n. jne_imm 5 (pos_part d.minor) n ∷ []) s3
  bpf_program_add_instructions s4.0 (mov64_imm 0 d.allow ∷ exit_insn ∷ [])

pub bpf_program_append_device : BpfProgram → Device → Result BpfProgram
unfolding bpf_access_mask bpf_device_type bpf_device_all_access append_guarded
bpf_program_append_device prog d = do
  mask ← bpf_access_mask d.access
  device_type ← bpf_device_type d.type
  append_guarded prog (not (bpf_device_all_access mask)) (ltb 0 device_type) (not (is_neg d.major))
      (not (is_neg d.minor)) d mask device_type

pub bpf_program_finalize : BpfProgram → Result BpfProgram
unfolding bpf_program_add_instructions
bpf_program_finalize prog =
    bpf_program_add_instructions prog
      (mov64_imm 0 (list_type_value prog.device_list_type) ∷ exit_insn ∷ [])

-- The loop over the rules, which skips those that agree with the default.
pub append_devices : ListType → BpfProgram → List Device → Result BpfProgram
append_devices t prog [] = ok prog
append_devices t prog (dev ∷ r) = elim (bpf_device_add t dev) [
  | true ↦ (do prog' ← bpf_program_append_device prog dev; append_devices t prog' r)
  | false ↦ append_devices t prog r
]

-- __bpf_cgroup_devices
pub bpf_cgroup_devices : BpfDevices → Result BpfProgram
unfolding bpf_program_new bpf_program_init append_devices bpf_program_finalize
bpf_cgroup_devices s = do
  prog ← bpf_program_init bpf_program_new
  prog' ← append_devices s.list_type (record prog { device_list_type = s.list_type }) s.devices
  bpf_program_finalize prog'
