-- ===== src/Devices/Machine.antt =====
-- What the kernel promises of the instructions, and which requests a rule covers.
use Prim.Native.Nat.{bit_and}
use lxc.Base.{
  ℕ, ◌+◌, ◌*◌, ◌/◌, ◌%◌, ◌^◌, ◌<◌, ◌≡◌, ℤ, pos, negsuc, pos_part, Bytes, List, [], ◌∷◌, Option,
  some, Bool, true, false, not, ◌&&◌, ◌||◌, ◌==◌, if◌then◌else◌, drop,
}
use lxc.Devices.Rules.{Device, ListType, allowlist, denylist, is_set, list_type_value}
use lxc.Devices.Bpf.{
  Insn, ldx_mem, alu32_imm, bpf_and, bpf_rsh, mov64_imm, mov32_reg, jne_reg, jne_imm, exit_insn,
}

pub data Kind : Type 0 where
  block char : Kind

-- An access to a device that the kernel asks the program about.
pub record Request : Type 0 where
  pub kind : Kind
  pub mknod : Bool
  pub read : Bool
  pub write : Bool
  pub major : ℕ
  pub minor : ℕ

abbrev pub digit : Bool → ℕ
digit b = if b then 1 else 0

-- BPF_DEVCG_ACC_MKNOD, BPF_DEVCG_ACC_READ and BPF_DEVCG_ACC_WRITE.
abbrev pub bits : Bool → Bool → Bool → ℕ
bits mknod read write = digit mknod + 2 * digit read + 4 * digit write

-- BPF_DEVCG_DEV_BLOCK and BPF_DEVCG_DEV_CHAR.
abbrev pub kind_value : Kind → ℕ
kind_value block = 1
kind_value char = 2

-- The word of struct bpf_cgroup_dev_ctx at an offset.
abbrev pub context_word : Request → ℕ → ℕ
context_word q off =
    if off == 0
    then bits q.mknod q.read q.write * 2 ^ 16 + kind_value q.kind
    else if off == 4
    then q.major
    else if off == 8
    then q.minor
    else 0

abbrev pub Registers : Type 0
Registers = ℕ → ℕ

abbrev pub assign : Registers → ℕ → ℕ → Registers
assign r dst v i = if i == dst then v else r i

-- The documented effect of the instructions that the program uses: `exec q p r` is what running the
-- instructions `p` from the registers `r` returns for the request `q`.
pub record Machine : Type 0 where
  pub context_pointer : ℕ
  pub exec : Request → List Insn → Registers → Option ℕ
  pub exec-ldx_mem :
      (q : Request) (dst src off : ℕ) (p : List Insn) (r : Registers)
      → r src ≡ context_pointer
      → exec q (ldx_mem dst src off ∷ p) r ≡ exec q p (assign r dst (context_word q off))
  pub exec-and :
      (q : Request) (dst imm : ℕ) (p : List Insn) (r : Registers)
      → exec q (alu32_imm bpf_and dst imm ∷ p) r
        ≡ exec q p (assign r dst (bit_and (r dst % 2 ^ 32) imm))
  pub exec-rsh :
      (q : Request) (dst imm : ℕ) (p : List Insn) (r : Registers)
      → exec q (alu32_imm bpf_rsh dst imm ∷ p) r
        ≡ exec q p (assign r dst (r dst % 2 ^ 32 / 2 ^ imm))
  pub exec-mov64_imm :
      (q : Request) (dst imm : ℕ) (p : List Insn) (r : Registers)
      → imm < 2 ^ 31
      → exec q (mov64_imm dst imm ∷ p) r ≡ exec q p (assign r dst imm)
  pub exec-mov32_reg :
      (q : Request) (dst src : ℕ) (p : List Insn) (r : Registers)
      → exec q (mov32_reg dst src ∷ p) r ≡ exec q p (assign r dst (r src % 2 ^ 32))
  pub exec-jne_reg :
      (q : Request) (dst src off : ℕ) (p : List Insn) (r : Registers)
      → exec q (jne_reg dst src off ∷ p) r
        ≡ (if r dst == r src then exec q p r else exec q (drop off p) r)
  pub exec-jne_imm :
      (q : Request) (dst imm off : ℕ) (p : List Insn) (r : Registers)
      → imm < 2 ^ 31
      → exec q (jne_imm dst imm off ∷ p) r
        ≡ (if r dst == imm then exec q p r else exec q (drop off p) r)
  pub exec-exit_insn :
      (q : Request) (p : List Insn) (r : Registers) → exec q (exit_insn ∷ p) r ≡ some (r 0)

abbrev pub has : ℕ → Bytes → Bool
has c [] = false
has c (x ∷ s) = c == x || has c s

abbrev pub implies : Bool → Bool → Bool
implies a b = not a || b

abbrev pub kind_letter : Kind → ℕ
kind_letter block = b'b'
kind_letter char = b'c'

-- A number below 0 in a rule stands for every number.
abbrev pub number_covers : ℤ → ℕ → Bool
number_covers (pos n) m = m == n
number_covers (negsuc n) m = true

abbrev pub covers_device : Device → Request → Bool
covers_device d q =
    (d.type == b'a' || d.type == kind_letter q.kind)
    && (number_covers d.major q.major && number_covers d.minor q.minor)

abbrev pub covers_access : Device → Request → Bool
covers_access d q =
    implies q.mknod (has b'm' d.access)
    && (implies q.read (has b'r' d.access) && implies q.write (has b'w' d.access))

-- The rule is for the device, and names each access that is requested by its letter.
unfoldable pub covers : Device → Request → Bool
covers d q = covers_device d q && covers_access d q

-- An allow rule says something new under an allowlist, which blocks by default, and a deny rule
-- under a denylist.
abbrev pub is_effective : ListType → Device → Bool
is_effective allowlist d = is_set d.allow
is_effective denylist d = not (is_set d.allow)

-- The answer of the first effective rule, from the head of the list on, that covers the request;
-- without one, the default of the list type.
abbrev pub decide : ListType → List Device → Request → ℕ
decide t [] q = list_type_value t
decide t (d ∷ r) q = if is_effective t d && covers d q then d.allow else decide t r q

abbrev pub letters_known : Bytes → Bool
letters_known [] = true
letters_known (c ∷ s) = (c == b'r' || (c == b'w' || c == b'm')) && letters_known s

-- What the parsers of a rule make sure of: a known type, known letters and numbers of type int.
pub record IsWellFormed (d : Device) : Type 0 where
  pub type_known : (d.type == b'a' || (d.type == b'b' || d.type == b'c')) ≡ true
  pub access_known : letters_known d.access ≡ true
  pub major_fits : pos_part d.major < 2 ^ 31
  pub minor_fits : pos_part d.minor < 2 ^ 31
  pub allow_fits : d.allow < 2 ^ 31
