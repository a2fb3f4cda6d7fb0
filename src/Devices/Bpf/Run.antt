-- ===== src/Devices/Bpf/Run.antt =====
-- How the kernel runs the instructions of one rule.
use Prim.Native.Nat.{bit_and}
use lxc.Base.{
  ℕ, ◌%◌, ◌^◌, ◌<◌, ◌≡◌, refl, is_neg, pos_part, List, ◌++◌, Bool, true, false, not, ◌&&◌, ◌||◌,
  ◌==◌, if◌then◌else◌, ltb, length, drop-append, arith, ◌⊎◌, Bool-cases, inl, inr, some,
}
use lxc.Devices.Rules.{Device}
use lxc.Devices.Bpf.{Insn}
use lxc.Devices.Machine.{
  Machine, Request, Registers, Kind, block, char, bits, has, implies, kind_value, kind_letter,
  number_covers, covers_device, covers_access, covers, assign, IsWellFormed,
}
use lxc.Devices.Bpf.Append.{
  guard_imm, guard_access, decision, numbers_part, mask_of, type_of, block_of,
}

-- The mask of the requested accesses leaves them unchanged exactly if each is named.
bit_and-bits :
    (a b c m r w : Bool)
    → (bit_and (bits a b c % 2 ^ 32 % 2 ^ 32) (bits m r w) == bits a b c)
      ≡ (implies a m && (implies b r && implies c w))
bit_and-bits a b c m r w = ground arith

-- The registers hold the request: what the first instructions load, and every rule leaves alone.
pub record Holds (q : Request) (r : Registers) : Type 0 where
  pub in_type : r 2 ≡ kind_value q.kind
  pub in_access : r 3 ≡ bits q.mknod q.read q.write
  pub in_major : r 4 ≡ q.major
  pub in_minor : r 5 ≡ q.minor

kind-cases : (k : Kind) → (k ≡ block) ⊎ (k ≡ char)
kind-cases block = inl refl
kind-cases char = inr refl

module _ (m : Machine) (q : Request) (r : Registers) where
  open m use {
    exec, exec-and, exec-mov64_imm, exec-mov32_reg, exec-jne_reg, exec-jne_imm, exec-exit_insn,
  }

  -- A test of a register against a constant: the rest of the rule, or what follows it.
  exec-guard_imm :
      (b : Bool) (reg v : ℕ) (p rest : List Insn)
      → v < 2 ^ 31
      → exec q (guard_imm b reg v p ++ rest) r
        ≡ (if implies b (r reg == v) then exec q (p ++ rest) r else exec q rest r)
  exec-guard_imm true reg v p rest h =
      rw (exec-jne_imm q reg v (length p) (p ++ rest) r h, drop-append p rest)
  exec-guard_imm false reg v p rest h = refl

  exec-decision :
      (d : Device) (rest : List Insn)
      → d.allow < 2 ^ 31
      → exec q (decision d ++ rest) r ≡ some d.allow
  exec-decision d rest h =
      rw (exec-mov64_imm q 0 d.allow _ r h) (exec-exit_insn q rest (assign r 0 d.allow))

  exec-numbers :
      (d : Device) (rest : List Insn)
      → IsWellFormed d
      → Holds q r
      → exec q (numbers_part d ++ rest) r ≡ (
          if number_covers d.major q.major && number_covers d.minor q.minor
          then some d.allow
          else exec q rest r)
  exec-numbers d rest w h = ground (
    arith,
    exec-guard_imm (not (is_neg d.major)) 4 (pos_part d.major)
        (guard_imm (not (is_neg d.minor)) 5 (pos_part d.minor) (decision d)) rest,
    exec-guard_imm (not (is_neg d.minor)) 5 (pos_part d.minor) (decision d) rest,
    exec-decision d rest,
  )

  type_covers :
      (d : Device)
      → IsWellFormed d
      → Holds q r
      → implies (ltb 0 (type_of d)) (r 2 == type_of d)
        ≡ (d.type == b'a' || d.type == kind_letter q.kind)
  type_covers d w h = ground (arith, kind-cases q.kind)

  exec-typed :
      (d : Device) (rest : List Insn)
      → IsWellFormed d
      → Holds q r
      → exec q (guard_imm (ltb 0 (type_of d)) 2 (type_of d) (numbers_part d) ++ rest) r
        ≡ (if covers_device d q then some d.allow else exec q rest r)
  exec-typed d rest w h = ground (
    arith,
    exec-guard_imm (ltb 0 (type_of d)) 2 (type_of d) (numbers_part d) rest,
    type_covers d w h,
    exec-numbers d rest w h,
  )

  -- The masked copy of the requested accesses, in r1.
  masked : ℕ → Registers
  masked mask = assign (assign r 1 (r 3 % 2 ^ 32)) 1 (bit_and (r 3 % 2 ^ 32 % 2 ^ 32) mask)

  masked-Holds : (mask : ℕ) → Holds q r → Holds q (masked mask)
  unfolding masked
  masked-Holds mask h = record {
    in_type = h.in_type;
    in_access = h.in_access;
    in_major = h.in_major;
    in_minor = h.in_minor;
  }

  exec-guard_access :
      (mask : ℕ) (p rest : List Insn)
      → exec q (guard_access true mask p ++ rest) r ≡ (
          if masked mask 1 == r 3
          then exec q (p ++ rest) (masked mask)
          else exec q rest (masked mask))
  unfolding masked
  exec-guard_access mask p rest = rw (
    exec-mov32_reg q 1 3 _ r,
    exec-and q 1 mask _ (assign r 1 (r 3 % 2 ^ 32)),
    exec-jne_reg q 1 3 (length p) (p ++ rest) (masked mask),
    drop-append p rest,
  )

-- A rule that names every access covers every access.
all_access :
    (a b c m r w : Bool)
    → (bits m r w == 7) ≡ true
    → (implies a m && (implies b r && implies c w)) ≡ true
all_access a b c m r w h = ground arith

abbrev typed_part : Device → List Insn
typed_part d = guard_imm (ltb 0 (type_of d)) 2 (type_of d) (numbers_part d)

-- The block with its first guard decided.
block_all : (d : Device) → (mask_of d == 7) ≡ true → block_of d ≡ typed_part d
block_all d h = rw h

block_limited :
    (d : Device)
    → (mask_of d == 7) ≡ false
    → block_of d ≡ guard_access true (mask_of d) (typed_part d)
block_limited d h = rw h

masked_covers :
    (m : Machine) (q : Request) (r : Registers) (a b c : Bool)
    → Holds q r
    → (masked m q r (bits a b c) 1 == r 3)
      ≡ (implies q.mknod a && (implies q.read b && implies q.write c))
unfolding masked
masked_covers m q r a b c h = rw h.in_access (bit_and-bits q.mknod q.read q.write a b c)

if_and {ℓ} :
    {A : Type ℓ} (x y : Bool) (a b : A)
    → (if y then (if x then a else b) else b) ≡ (if x && y then a else b)
if_and true true a b = refl
if_and false true a b = refl
if_and true false a b = refl
if_and false false a b = refl

-- From registers that hold the request, the block of a rule returns the rule's answer if the rule
-- covers the request, and otherwise goes on behind the block with such registers.
pub exec-block_of :
    (m : Machine) (q : Request) (r : Registers) (d : Device) (rest : List Insn)
    → IsWellFormed d
    → Holds q r
    → (r' : Registers) × Holds q r'
      × (m.exec q (block_of d ++ rest) r ≡ (if covers d q then some d.allow else m.exec q rest r'))
unfolding covers
exec-block_of m q r d rest w h = elim (Bool-cases (mask_of d == 7)) [
  | inl all ↦ (
    r,
    h,
    rw (block_all d all, exec-typed m q r d rest w h)
        (rw
          (all_access q.mknod q.read q.write (has b'm' d.access) (has b'r' d.access)
            (has b'w' d.access) all)
          (if_and (covers_device d q) true (some d.allow) (m.exec q rest r))),
  )
  | inr limited ↦
      let r' = masked m q r (mask_of d) in
      let h' = masked-Holds m q r (mask_of d) h in
      (
        r',
        h',
        rw
            (
              block_limited d limited,
              exec-guard_access m q r (mask_of d) (typed_part d) rest,
              exec-typed m q r' d rest w h',
              masked_covers m q r _ _ _ h,
            )
            (if_and (covers_device d q) (covers_access d q) (some d.allow) (m.exec q rest r')),
      )
]
