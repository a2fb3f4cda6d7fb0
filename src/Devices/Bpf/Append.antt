-- ===== src/Devices/Bpf/Append.antt =====
-- The instructions of one rule: what bpf_program_append_device appends, and how the kernel runs it.
use Prim.Native.Nat.{bit_or}
use lxc.Base.{
  ℕ, ◌≡◌, is_neg, pos_part, Bytes, List, [], ◌∷◌, ◌++◌, Bool, true, false, not, ◌||◌, ◌==◌,
  if◌then◌else◌, ltb, length, append_assoc, arith, ok,
}
use lxc.Devices.Rules.{Device}
use lxc.Devices.Bpf.{
  Insn, mov64_imm, mov32_reg, alu32_imm, bpf_and, jne_reg, jne_imm, exit_insn, BpfProgram,
  access_mask_from, bpf_device_type, bpf_program_append_device, append_guarded,
}
use lxc.Devices.Machine.{bits, has, letters_known, IsWellFormed}

bit_or-read : (m r w : Bool) → bit_or (bits m r w) 2 ≡ bits m true w
bit_or-read m r w = ground arith

bit_or-write : (m r w : Bool) → bit_or (bits m r w) 4 ≡ bits m r true
bit_or-write m r w = ground arith

bit_or-mknod : (m r w : Bool) → bit_or (bits m r w) 1 ≡ bits true r w
bit_or-mknod m r w = ground arith

-- The loop over the letters, from any mask.
access_mask_from_lem :
    (m r w : Bool) (s : Bytes)
    → letters_known s ≡ true
    → access_mask_from (bits m r w) s
      ≡ ok (bits (m || has b'm' s) (r || has b'r' s) (w || has b'w' s))
unfolding access_mask_from
access_mask_from_lem m r w [] h = ground arith
access_mask_from_lem m r w (c ∷ s) h = ground (
  arith,
  bit_or-read m r w,
  bit_or-write m r w,
  bit_or-mknod m r w,
  access_mask_from_lem m true w s,
  access_mask_from_lem m r true s,
  access_mask_from_lem true r w s,
)

-- The instructions of a rule from its last one to its first; each jump leaves the rest of the rule.
abbrev pub decision : Device → List Insn
decision d = mov64_imm 0 d.allow ∷ exit_insn ∷ []

abbrev pub guard_imm : Bool → ℕ → ℕ → List Insn → List Insn
guard_imm b reg v p = if b then jne_imm reg v (length p) ∷ p else p

abbrev pub guard_access : Bool → ℕ → List Insn → List Insn
guard_access b mask p =
    if b then mov32_reg 1 3 ∷ alu32_imm bpf_and 1 mask ∷ jne_reg 1 3 (length p) ∷ p else p

abbrev pub numbers_part : Device → List Insn
numbers_part d =
    guard_imm (not (is_neg d.major)) 4 (pos_part d.major)
      (guard_imm (not (is_neg d.minor)) 5 (pos_part d.minor) (decision d))

abbrev pub rule_block : ℕ → ℕ → Device → List Insn
rule_block mask device_type d =
    guard_access (not (mask == 7)) mask
      (guard_imm (ltb 0 device_type) 2 device_type (numbers_part d))

abbrev pub mask_of : Device → ℕ
mask_of d = bits (has b'm' d.access) (has b'r' d.access) (has b'w' d.access)

abbrev pub type_of : Device → ℕ
type_of d = if d.type == b'a' then 0 else if d.type == b'b' then 1 else 2

abbrev pub block_of : Device → List Insn
block_of d = rule_block (mask_of d) (type_of d) d

device_type_lem :
    (c : ℕ)
    → (c == b'a' || (c == b'b' || c == b'c')) ≡ true
    → bpf_device_type c ≡ ok (if c == b'a' then 0 else if c == b'b' then 1 else 2)
unfolding bpf_device_type
device_type_lem c h = ground arith

-- The appended instructions, whichever of the guards are there.
append_guarded_lem :
    (prog : BpfProgram) (limited typed major minor : Bool) (d : Device) (mask t : ℕ)
    → is_neg prog.kernel_fd ≡ true
    → append_guarded prog limited typed major minor d mask t
      ≡ ok (record prog {
        instructions =
            prog.instructions
            ++ guard_access limited mask (
                guard_imm typed 2 t (
                  guard_imm major 4
                    (pos_part d.major)
                    (guard_imm minor 5 (pos_part d.minor) (decision d))));
      })
unfolding append_guarded
append_guarded_lem prog true true true true d mask t h = simp (h, append_assoc)
append_guarded_lem prog true true true false d mask t h = simp (h, append_assoc)
append_guarded_lem prog true true false true d mask t h = simp (h, append_assoc)
append_guarded_lem prog true true false false d mask t h = simp (h, append_assoc)
append_guarded_lem prog true false true true d mask t h = simp (h, append_assoc)
append_guarded_lem prog true false true false d mask t h = simp (h, append_assoc)
append_guarded_lem prog true false false true d mask t h = simp (h, append_assoc)
append_guarded_lem prog true false false false d mask t h = simp (h, append_assoc)
append_guarded_lem prog false true true true d mask t h = simp (h, append_assoc)
append_guarded_lem prog false true true false d mask t h = simp (h, append_assoc)
append_guarded_lem prog false true false true d mask t h = simp (h, append_assoc)
append_guarded_lem prog false true false false d mask t h = simp (h, append_assoc)
append_guarded_lem prog false false true true d mask t h = simp (h, append_assoc)
append_guarded_lem prog false false true false d mask t h = simp (h, append_assoc)
append_guarded_lem prog false false false true d mask t h = simp (h, append_assoc)
append_guarded_lem prog false false false false d mask t h = simp h

-- A well-formed rule is appended, as its block.
pub append_device_lem :
    (prog : BpfProgram) (d : Device)
    → is_neg prog.kernel_fd ≡ true
    → IsWellFormed d
    → bpf_program_append_device prog d
      ≡ ok (record prog { instructions = prog.instructions ++ block_of d })
unfolding bpf_program_append_device
append_device_lem prog d h w =
    rw
      (
        access_mask_from_lem false false false d.access w.access_known,
        device_type_lem d.type w.type_known,
      )
      (append_guarded_lem prog _ _ _ _ d (mask_of d) (type_of d) h)
