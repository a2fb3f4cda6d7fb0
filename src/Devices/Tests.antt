-- ===== src/Devices/Tests.antt =====
-- A machine that meets the documented effects, and the device theorems at concrete lists.
use Prim.Native.Nat.{bit_and}
use lxc.Base.{
  ℕ, zero, suc, ◌/◌, ◌%◌, ◌^◌, ◌≡◌, refl, ℤ, pos, negsuc, List, [], ◌∷◌, Bool, true, false, ◌==◌,
  if◌then◌else◌, ok, some, none, Option, All, arith, drop, codes,
}
use lxc.Devices.Rules.{Device, BpfDevices, allowlist, denylist, is_global, is_set, same_rule}
use lxc.Devices.Rules.Active.{active, IsUnique}
use lxc.Devices.Rules.Add.{added, list_add_device-active}
use lxc.Text.Compare.{strequal}
use lxc.Devices.Bpf.{
  Insn, ldx_mem, alu32_imm, bpf_and, bpf_rsh, mov64_imm, mov32_reg, jne_reg, jne_imm, exit_insn,
  BpfProgram, bpf_cgroup_devices,
}
use lxc.Devices.Bpf.Correct.{program-decide}
use lxc.Devices.Machine.{
  Machine, Request, Registers, assign, context_word, char, decide, is_effective, covers,
  IsWellFormed,
}

-- Jumps go forward, so a count of the instructions to skip makes this a recursion on the list.
run : Request → ℕ → List Insn → Registers → Option ℕ
run q skip [] r = none
run q (suc skip) (i ∷ p) r = run q skip p r
run q zero (ldx_mem dst src off ∷ p) r = run q 0 p (assign r dst (context_word q off))
run q zero (alu32_imm bpf_and dst imm ∷ p) r =
    run q 0 p (assign r dst (bit_and (r dst % 2 ^ 32) imm))
run q zero (alu32_imm bpf_rsh dst imm ∷ p) r = run q 0 p (assign r dst (r dst % 2 ^ 32 / 2 ^ imm))
run q zero (mov64_imm dst imm ∷ p) r = run q 0 p (assign r dst imm)
run q zero (mov32_reg dst src ∷ p) r = run q 0 p (assign r dst (r src % 2 ^ 32))
run q zero (jne_reg dst src off ∷ p) r = run q (if r dst == r src then 0 else off) p r
run q zero (jne_imm dst imm off ∷ p) r = run q (if r dst == imm then 0 else off) p r
run q zero (exit_insn ∷ p) r = some (r 0)

run-drop :
    (q : Request) (n : ℕ) (p : List Insn) (r : Registers) → run q n p r ≡ run q 0 (drop n p) r
unfolding run
run-drop q zero p r = refl
run-drop q (suc n) [] r = refl
run-drop q (suc n) (i ∷ p) r = run-drop q n p r

run_jump :
    (q : Request) (b : Bool) (n : ℕ) (p : List Insn) (r : Registers)
    → run q (if b then 0 else n) p r ≡ (if b then run q 0 p r else run q 0 (drop n p) r)
run_jump q true n p r = refl
run_jump q false n p r = run-drop q n p r

pub kernel : Machine
unfolding run
kernel = record {
  context_pointer = 1000;
  exec = λ q. run q 0;
  exec-ldx_mem = λ q dst src off p r h. refl;
  exec-and = λ q dst imm p r. refl;
  exec-rsh = λ q dst imm p r. refl;
  exec-mov64_imm = λ q dst imm p r h. refl;
  exec-mov32_reg = λ q dst src p r. refl;
  exec-jne_reg = λ q dst src off p r. run_jump q (r dst == r src) off p r;
  exec-jne_imm = λ q dst imm off p r h. run_jump q (r dst == imm) off p r;
  exec-exit_insn = λ q p r. refl;
}

abbrev pub rule : ℕ → ℤ → ℤ → List ℕ → ℕ → Device
rule t a b acc v = record { type = t; major = a; minor = b; access = acc; allow = v }

-- /dev/null, and every terminal but not its creation.
abbrev pub null_rule : Device
null_rule = rule b'c' (pos 1) (pos 3) (codes "rwm") 1

abbrev pub tty_rule : Device
tty_rule = rule b'c' (pos 136) (negsuc 0) (codes "rw") 1

abbrev pub allowed : BpfDevices
allowed = record { list_type = allowlist; devices = null_rule ∷ tty_rule ∷ [] }

abbrev blocked : BpfDevices
blocked = record { list_type = denylist; devices = record null_rule { allow = 0 } ∷ [] }

abbrev pub read_tty : Request
read_tty = record { kind = char; mknod = false; read = true; write = false; major = 136; minor = 7 }

abbrev pub start_regs : Registers
start_regs i = if i == 1 then 1000 else 0

abbrev pub create_block : Device
create_block = rule b'b' (negsuc 0) (negsuc 0) (codes "m") 1

abbrev pub no_tty : Device
no_tty = record tty_rule { allow = 0 }

allowed-IsUnique : IsUnique allowed.list_type allowed.devices
unfolding same_rule strequal
allowed-IsUnique = (λ _. refl, (λ _. refl, tt))

create_block_not_global : is_global create_block ≡ false
unfolding is_global
create_block_not_global = refl

no_tty_not_global : is_global no_tty ≡ false
unfolding is_global
no_tty_not_global = refl

pub allowed-IsWellFormed : All IsWellFormed allowed.devices
allowed-IsWellFormed = ground arith

pub start_context : start_regs 1 ≡ kernel.context_pointer
unfolding kernel
start_context = refl

program-decide_example :
    (p : BpfProgram) × (bpf_cgroup_devices allowed ≡ ok p)
    × (kernel.exec read_tty p.instructions start_regs
        ≡ some (decide allowlist allowed.devices read_tty))
unfolding kernel
program-decide_example = program-decide kernel read_tty start_regs allowed refl allowed-IsWellFormed

-- The request is permitted by the second rule.
read_tty_permitted : decide allowlist allowed.devices read_tty ≡ 1
unfolding covers
read_tty_permitted = refl

list_add_device-active_example :
    ((added allowed no_tty).list_type ≡ (
      if is_global no_tty
      then (if is_set no_tty.allow then denylist else allowlist)
      else allowlist))
    × (active (added allowed no_tty).list_type tty_rule (added allowed no_tty).devices ≡ (
        if is_global no_tty
        then false
        else if same_rule no_tty tty_rule
        then is_effective allowlist no_tty
        else active allowlist tty_rule allowed.devices))
list_add_device-active_example = list_add_device-active allowed no_tty tty_rule allowed-IsUnique
