-- ===== src/Devices/Bpf/Correct.antt =====
-- The whole program of bpf_cgroup_devices answers every request as the list of rules says.
use Prim.Native.Nat.{bit_and}
use lxc.Base.{
  negsuc, ℕ, ◌+◌, ◌*◌, ◌/◌, ◌%◌, ◌^◌, ◌<◌, ◌≡◌, refl, ◌∙◌, is_neg, List, [], ◌∷◌, ◌++◌,
  append_assoc, append-nil, Bool, true, false, if◌then◌else◌, Bool-cases, inl, inr, ok, some, All,
  arith,
}
use lxc.Devices.Rules.{Device, BpfDevices, ListType, allowlist, denylist, list_type_value}
use lxc.Devices.Bpf.{
  Insn, ldx_mem, alu32_imm, bpf_and, bpf_rsh, mov64_imm, exit_insn, BpfProgram, append_devices,
  bpf_program_new, bpf_cgroup_devices,
}
use lxc.Devices.Bpf.Append.{block_of, append_device_lem}
use lxc.Devices.Bpf.Run.{Holds, exec-block_of}
use lxc.Devices.Rules.Active.{device_add-is_effective}
use lxc.Devices.Machine.{
  Machine, Request, Registers, Kind, bits, kind_value, context_word, covers, is_effective, decide,
  assign, IsWellFormed,
}

-- The blocks of the rules that are not skipped.
abbrev blocks : ListType → List Device → List Insn
blocks t [] = []
blocks t (d ∷ r) = if is_effective t d then block_of d ++ blocks t r else blocks t r

append_devices_lem :
    (t : ListType) (prog : BpfProgram) (ds : List Device)
    → is_neg prog.kernel_fd ≡ true
    → All IsWellFormed ds
    → append_devices t prog ds
      ≡ ok (record prog { instructions = prog.instructions ++ blocks t ds })
unfolding append_devices
append_devices_lem t prog [] h w = rw append-nil
append_devices_lem t prog (d ∷ r) h (w, ws) = elim (Bool-cases (is_effective t d)) [
  | inl yes' ↦
      rw (device_add-is_effective t d, append_devices, yes', append_device_lem prog d h w)
        (append_devices_lem t (record prog { instructions = prog.instructions ++ block_of d }) r h
            ws
          ∙ rw append_assoc)
  | inr no' ↦
      rw (device_add-is_effective t d, append_devices, no') (append_devices_lem t prog r h ws)
]

abbrev prologue : List Insn
prologue =
    ldx_mem 2 1 0
    ∷ alu32_imm bpf_and 2 0xFFFF
    ∷ ldx_mem 3 1 0
    ∷ alu32_imm bpf_rsh 3 16
    ∷ ldx_mem 4 1 4
    ∷ ldx_mem 5 1 8
    ∷ []

abbrev epilogue : ListType → List Insn
epilogue t = mov64_imm 0 (list_type_value t) ∷ exit_insn ∷ []

list_type-lt : (t : ListType) → list_type_value t < 2 ^ 31
unfolding list_type_value
list_type-lt allowlist = omega arith
list_type-lt denylist = omega arith

if_some : (b : Bool) (x y : ℕ) → (if b then some x else some y) ≡ some (if b then x else y)
if_some true x y = refl
if_some false x y = refl

module _ (m : Machine) (q : Request) where
  exec-epilogue :
      (t : ListType) (r : Registers) → m.exec q (epilogue t) r ≡ some (list_type_value t)
  exec-epilogue t r =
      rw (m.exec-mov64_imm q 0 (list_type_value t) _ r (list_type-lt t)) (m.exec-exit_insn q [] _)

  exec-blocks :
      (t : ListType) (ds : List Device) (r : Registers)
      → All IsWellFormed ds
      → Holds q r
      → m.exec q (blocks t ds ++ epilogue t) r ≡ some (decide t ds q)
  exec-blocks t [] r w h = exec-epilogue t r
  exec-blocks t (d ∷ ds) r (w, ws) h = elim (Bool-cases (is_effective t d)) [
    | inl yes' ↦
        let (r', h', e) = exec-block_of m q r d (blocks t ds ++ epilogue t) w h in
        rw (yes', append_assoc, e, exec-blocks t ds r' ws h')
          (if_some (covers d q) d.allow (decide t ds q))
    | inr no' ↦ rw no' (exec-blocks t ds r ws h)
  ]

  -- The registers behind each of the loads.
  abbrev typed_regs : Registers → Registers
  typed_regs r =
      let r' = assign r 2 (context_word q 0) in assign r' 2 (bit_and (r' 2 % 2 ^ 32) 0xFFFF)

  abbrev loaded : Registers → Registers
  loaded r =
      let r' = assign (typed_regs r) 3 (context_word q 0) in
      assign (assign (assign r' 3 (r' 3 % 2 ^ 32 / 2 ^ 16)) 4 q.major) 5 q.minor

  word_parts :
      (k : Kind) (a b c : Bool)
      → (bit_and ((bits a b c * 2 ^ 16 + kind_value k) % 2 ^ 32) 0xFFFF ≡ kind_value k)
        × ((bits a b c * 2 ^ 16 + kind_value k) % 2 ^ 32 / 2 ^ 16 ≡ bits a b c)
  word_parts k a b c = ground arith

  loaded-Holds : (r : Registers) → Holds q (loaded r)
  loaded-Holds r =
      let (in_type, in_access) = word_parts q.kind q.mknod q.read q.write in
      record { in_type = in_type; in_access = in_access; in_major = refl; in_minor = refl }

  exec-prologue :
      (p : List Insn) (r : Registers)
      → r 1 ≡ m.context_pointer
      → m.exec q (prologue ++ p) r ≡ m.exec q p (loaded r)
  exec-prologue p r h =
      rw
        (
          m.exec-ldx_mem q 2 1 0 _ r h,
          m.exec-and q 2 0xFFFF _ _,
          m.exec-ldx_mem q 3 1 0 _ (typed_regs r) h,
          m.exec-rsh q 3 16 _ _,
          m.exec-ldx_mem q 4 1 4 _ _ h,
          m.exec-ldx_mem q 5 1 8 _ _ h,
        )
        refl

bpf_cgroup_devices_lem :
    (s : BpfDevices)
    → All IsWellFormed s.devices
    → (p : BpfProgram) × (bpf_cgroup_devices s ≡ ok p)
      × (p.instructions ≡ (prologue ++ blocks s.list_type s.devices) ++ epilogue s.list_type)
      × (p.kernel_fd ≡ negsuc 8)
      × (p.fd_cgroup ≡ negsuc 8)
unfolding bpf_cgroup_devices
bpf_cgroup_devices_lem s w = (
  record bpf_program_new {
    device_list_type = s.list_type;
    instructions = (prologue ++ blocks s.list_type s.devices) ++ epilogue s.list_type;
  },
  rw (
      append_devices_lem s.list_type
        (record bpf_program_new { device_list_type = s.list_type; instructions = prologue })
        s.devices refl w),
  refl,
  refl,
  refl,
)

pub bpf_cgroup_devices_built :
    (s : BpfDevices) → All IsWellFormed s.devices → (p : BpfProgram) × (bpf_cgroup_devices s ≡ ok p)
bpf_cgroup_devices_built s w = let (p, built, _, _, _) = bpf_cgroup_devices_lem s w in (p, built)

-- The program that is built is neither loaded nor attached.
pub built_closed :
    (s : BpfDevices) (p : BpfProgram)
    → All IsWellFormed s.devices
    → bpf_cgroup_devices s ≡ ok p
    → (p.kernel_fd ≡ negsuc 8) × (p.fd_cgroup ≡ negsuc 8)
built_closed s p w e =
    let (p', built, _, loaded_fd, cgroup_fd) = bpf_cgroup_devices_lem s w in
    let same : p' ≡ p = cc in (cc, cc)

-- For a list of well-formed rules bpf_cgroup_devices builds a program, and wherever the
-- instructions have their documented effect, the program returns for every request, from a context
-- pointer in r1, the answer of the first effective rule that covers the request, and the default of
-- the list type where there is none.
pub program-decide :
    (m : Machine) (q : Request) (r : Registers) (s : BpfDevices)
    → r 1 ≡ m.context_pointer
    → All IsWellFormed s.devices
    → (p : BpfProgram) × (bpf_cgroup_devices s ≡ ok p)
      × (m.exec q p.instructions r ≡ some (decide s.list_type s.devices q))
program-decide m q r s h w =
    let (p, built, e, _, _) = bpf_cgroup_devices_lem s w in
    (
      p,
      built,
      rw (e, append_assoc)
          (exec-prologue m q _ r h
            ∙ exec-blocks m q s.list_type s.devices _ w (loaded-Holds m q r)),
    )
