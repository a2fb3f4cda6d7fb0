-- ===== src/Devices/Attach/Update.antt =====
-- The program of a cgroup behind bpf_cgroup_devices_update.
use lxc.Base.{
  ℕ, ◌≡◌, refl, ap, ◌∙◌, ℤ, pos, negsuc, is_neg, List, [], ◌∷◌, ◌++◌, Bool, true, false, some,
  Result, ok, err, arith,
}
use lxc.Devices.Bpf.{Insn, BpfProgram}
use lxc.Devices.Attach.{
  Bpf, CgroupOps, CanReplace, unknown, usable, unusable, no_fd, is_ok, bpf_program_load_kernel,
  bpf_program_free, bpf_program_cgroup_detach, on_load, try_replace, exchange, exchanged,
  update_loaded, update_built,
}

-- The programs that are attached to the cgroup, and the program behind a descriptor.
pub record View (K : Type 0) : Type 0 where
  pub attached : K → List (ℕ × List Insn)
  pub code : K → ℕ → List Insn

module _ {K : Type 0} (v : View K) where
  abbrev pub Same : K → ℕ → K → Type 0
  Same k fd k' = (v.attached k' ≡ v.attached k) × (v.code k' fd ≡ v.code k fd)

  abbrev pub Loads : K → List Insn → Result ℕ × K → Type 0
  Loads k insns (ok fd, k') = (v.attached k' ≡ v.attached k) × (v.code k' fd ≡ insns)
  Loads k insns (err e, k') = v.attached k' ≡ v.attached k

  abbrev pub Appends : K → ℕ → Result ℕ × K → Type 0
  Appends k fd (ok r, k') = v.attached k' ≡ v.attached k ++ (fd, v.code k fd) ∷ []
  Appends k fd (err e, k') = Same k fd k'

  abbrev pub Replaces : K → ℕ → Result ℕ × K → Type 0
  Replaces k fd (ok r, k') = v.attached k' ≡ (fd, v.code k fd) ∷ []
  Replaces k fd (err e, k') = Same k fd k'

  abbrev pub Refuses : K → ℕ → Result ℕ × K → Type 0
  Refuses k fd (ok r, k') = ⊥
  Refuses k fd (err e, k') = Same k fd k'

  abbrev pub Detaches : List (ℕ × List Insn) → Result ℕ × K → Type 0
  Detaches rest (ok r, k') = v.attached k' ≡ rest
  Detaches rest (err e, k') = ⊥

-- What bpf(2) documents: a program that is loaded stands behind its descriptor; BPF_F_ALLOW_MULTI
-- adds a program behind those that are attached, and BPF_F_REPLACE puts it in the place of
-- another; a descriptor that is not open is refused; what is attached can be detached; and a
-- failure changes nothing.
pub record Documented {K : Type 0} (sys : Bpf K) (v : View K) : Type 0 where
  pub loads : (k : K) (insns : List Insn) → Loads v k insns (sys.load k insns)
  pub appends : (k : K) (c fd : ℕ) → Appends v k fd (sys.attach k (pos c) fd 2 (pos 0))
  pub replaces :
      (k : K) (c fd old : ℕ) (insns : List Insn)
      → v.attached k ≡ (old, insns) ∷ []
      → Replaces v k fd (sys.attach k (pos c) fd 6 (pos old))
  pub refuses :
      (k : K) (n fd flags : ℕ) (old : ℤ) → Refuses v k fd (sys.attach k (negsuc n) fd flags old)
  pub detaches :
      (k : K) (c fd : ℕ) (insns : List Insn) (rest : List (ℕ × List Insn))
      → v.attached k ≡ (fd, insns) ∷ rest
      → Detaches v rest (sys.detach k (pos c) (pos fd))

-- The program in the structure is the only one that is attached.
pub record IsAttached {K : Type 0} (v : View K) (k : K) (old : BpfProgram) (fd c : ℕ) : Type 0 where
  pub loaded : old.kernel_fd ≡ pos fd
  pub in_cgroup : old.fd_cgroup ≡ pos c
  pub only : v.attached k ≡ (fd, old.instructions) ∷ []

module _ {K : Type 0} (sys : Bpf K) (v : View K) where
  -- What the calls of bpf(2) come to, for the program `fd` and the one that is attached.
  abbrev Exchanged : K → List (ℕ × List Insn) → ℕ × List Insn → Bool × CanReplace × K → Type 0
  Exchanged k before new (true, usable, k') = v.attached k' ≡ new ∷ []
  Exchanged k before new (true, unknown, k') = v.attached k' ≡ before ++ new ∷ []
  Exchanged k before new (true, unusable, k') = v.attached k' ≡ before ++ new ∷ []
  Exchanged k before new (false, can, k') = v.attached k' ≡ before

  replaced_lem :
      (k : K) (fd : ℕ) (before : List (ℕ × List Insn)) (x : Result ℕ × K)
      → v.attached k ≡ before
      → Replaces v k fd x
      → Exchanged k before (fd, v.code k fd) (is_ok x.0, usable, x.1)
  replaced_lem k fd before (ok r, k') b h = h
  replaced_lem k fd before (err e, k') b h = h.0 ∙ b

  appended_lem :
      (k : K) (fd : ℕ) (before : List (ℕ × List Insn)) (x : Result ℕ × K)
      → v.attached k ≡ before
      → Appends v k fd x
      → Exchanged k before (fd, v.code k fd) (is_ok x.0, unusable, x.1)
  appended_lem k fd before (ok r, k') b h = h ∙ ap (λ l. l ++ (fd, v.code k fd) ∷ []) b
  appended_lem k fd before (err e, k') b h = h.0 ∙ b

  tried_lem :
      (d : Documented sys v) (k : K) (c fd : ℕ) (before : List (ℕ × List Insn)) (x : Result ℕ × K)
      → v.attached k ≡ before
      → Replaces v k fd x
      → Exchanged k before (fd, v.code k fd) (try_replace sys (pos c) fd x)
  tried_lem d k c fd before (ok r, k') b h = h
  tried_lem d k c fd before (err e, k') b h =
      rw (← h.1) (
        appended_lem k' fd before (sys.attach k' (pos c) fd 2 (pos 0)) (h.0 ∙ b)
          (d.appends k' c fd))

  exchange-Exchanged :
      (d : Documented sys v) (can : CanReplace) (k : K) (old : BpfProgram) (f c fd : ℕ)
      → IsAttached v k old f c
      → Exchanged k ((f, old.instructions) ∷ []) (fd, v.code k fd) (exchange sys k can old fd)
  exchange-Exchanged d usable k old f c fd a =
      rw (a.in_cgroup, a.loaded)
        (replaced_lem k fd _ (sys.attach k (pos c) fd 6 (pos f)) a.only
          (d.replaces k c fd f old.instructions a.only))
  exchange-Exchanged d unknown k old f c fd a =
      rw (a.in_cgroup, a.loaded)
        (tried_lem d k c fd _ (sys.attach k (pos c) fd 6 (pos f)) a.only
          (d.replaces k c fd f old.instructions a.only))
  exchange-Exchanged d unusable k old f c fd a =
      rw a.in_cgroup
        (appended_lem k fd _ (sys.attach k (pos c) fd 2 (pos 0)) a.only (d.appends k c fd))

  -- Where the call succeeded, only the new program is attached; where it failed, what was.
  abbrev pub Updated : List (ℕ × List Insn) → List Insn → Bool × CgroupOps × K → Type 0
  Updated before insns (true, ops, k') = (fd : ℕ) × (v.attached k' ≡ (fd, insns) ∷ [])
  Updated before insns (false, ops, k') = v.attached k' ≡ before

  pub free_closed :
      (k : K) (p : BpfProgram) → is_neg p.fd_cgroup ≡ true → bpf_program_free sys k (some p) ≡ k
  unfolding bpf_program_free bpf_program_cgroup_detach
  free_closed k p h = ground arith

  detach_rest :
      (rest : List (ℕ × List Insn)) (x : Result ℕ × K) → Detaches v rest x → v.attached x.1 ≡ rest
  detach_rest rest (ok r, k') h = h
  detach_rest rest (err e, k') h = absurd h

  free_attached :
      (d : Documented sys v) (k : K) (old : BpfProgram) (f c : ℕ) (rest : List (ℕ × List Insn))
      → old.kernel_fd ≡ pos f
      → old.fd_cgroup ≡ pos c
      → v.attached k ≡ (f, old.instructions) ∷ rest
      → v.attached (bpf_program_free sys k (some old)) ≡ rest
  unfolding bpf_program_free bpf_program_cgroup_detach
  free_attached d k old f c rest hf hc h =
      rw (hf, hc) (detach_rest rest _ (d.detaches k c f old.instructions rest h))

  exchanged-Updated :
      (d : Documented sys v) (k : K) (ops : CgroupOps) (old prog : BpfProgram) (f c fd : ℕ)
      (x : Bool × CanReplace × K)
      → old.kernel_fd ≡ pos f
      → old.fd_cgroup ≡ pos c
      → is_neg prog.fd_cgroup ≡ true
      → Exchanged k ((f, old.instructions) ∷ []) (fd, prog.instructions) x
      → Updated ((f, old.instructions) ∷ []) prog.instructions (exchanged sys ops old prog x)
  exchanged-Updated d k ops old prog f c fd (false, can, k') hf hc hn h =
      rw (free_closed k' prog hn) h
  exchanged-Updated d k ops old prog f c fd (true, usable, k') hf hc hn h =
      (fd, rw (free_closed k' (record old { fd_cgroup = no_fd; kernel_fd = no_fd }) refl) h)
  exchanged-Updated d k ops old prog f c fd (true, unknown, k') hf hc hn h =
      (fd, free_attached d k' old f c _ hf hc h)
  exchanged-Updated d k ops old prog f c fd (true, unusable, k') hf hc hn h =
      (fd, free_attached d k' old f c _ hf hc h)

  loaded-Updated :
      (d : Documented sys v) (k : K) (ops : CgroupOps) (old prog : BpfProgram) (f c : ℕ)
      (x : Result ℕ × K)
      → IsAttached v k old f c
      → is_neg prog.fd_cgroup ≡ true
      → Loads v k prog.instructions x
      → Updated
          ((f, old.instructions) ∷ [])
          prog.instructions
          (update_loaded sys ops old (on_load prog x))
  loaded-Updated d k ops old prog f c (err e, k') a hn h =
      rw (free_closed k' (record prog { kernel_fd = negsuc 0 }) hn) (h ∙ a.only)
  loaded-Updated d k ops old prog f c (ok fd, k') a hn h =
      let a' : IsAttached v k' old f c = record {
        loaded = a.loaded;
        in_cgroup = a.in_cgroup;
        only = h.0 ∙ a.only;
      } in
      exchanged-Updated d k' ops old (record prog { kernel_fd = pos fd }) f c fd _ a.loaded
        a.in_cgroup hn (rw h.1 at (exchange-Exchanged d ops.can_use_bpf_replace k' old f c fd a'))

  pub built-Updated :
      (d : Documented sys v) (k : K) (ops : CgroupOps) (old prog : BpfProgram) (f c : ℕ)
      → IsAttached v k old f c
      → prog.kernel_fd ≡ negsuc 8
      → prog.fd_cgroup ≡ negsuc 8
      → Updated
          ((f, old.instructions) ∷ [])
          prog.instructions
          (update_built sys k ops old (ok prog))
  unfolding bpf_program_load_kernel
  built-Updated d k ops old prog f c a hk hc = rw hk (
      loaded-Updated d k ops old prog f c (sys.load k prog.instructions) a (rw hc refl)
        (d.loads k prog.instructions))
