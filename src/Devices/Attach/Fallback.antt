-- ===== src/Devices/Attach/Fallback.antt =====
-- bpf_cgroup_devices_update on a kernel that does not know BPF_F_REPLACE.
use lxc.Base.{
  ℕ, ◌≡◌, refl, ap, ◌∙◌, Bool, true, false, ◌==◌, ℤ, pos, negsuc, is_neg, some, ok, err, Result,
  All,
}
use lxc.Devices.Rules.{Device, BpfDevices, bpf_list_add_device}
use lxc.Devices.Bpf.{BpfProgram}
use lxc.Devices.Bpf.Correct.{built_closed, bpf_cgroup_devices_built}
use lxc.Devices.Machine.{IsWellFormed}
use lxc.Devices.Attach.{
  Bpf, CgroupOps, bpf_cgroup_devices_update, update_built, usable, unknown, unusable, CanReplace,
  exchange, exchanged, update_loaded, on_load, is_ok, bpf_program_load_kernel, try_replace,
}
use lxc.Devices.Attach.Update.{View, Documented, IsAttached, Refuses, Loads, free_closed}
use lxc.Devices.Attach.Enforced.{update_altered}

module _ {K : Type 0} (sys : Bpf K) (v : View K) where
  -- BPF_F_REPLACE is refused.
  abbrev pub NoReplace : Type 0
  NoReplace = (k : K) (c fd : ℕ) (old : ℤ) → Refuses v k fd (sys.attach k (pos c) fd 6 old)

  -- Nothing was replaced.
  abbrev NotReplaced : Bool × CanReplace × K → Type 0
  NotReplaced (true, usable, k) = ⊥
  NotReplaced (true, unknown, k) = Unit
  NotReplaced (true, unusable, k) = Unit
  NotReplaced (false, can, k) = Unit

  refused-NotReplaced :
      (k : K) (fd : ℕ) (x : Result ℕ × K) → Refuses v k fd x → NotReplaced (is_ok x.0, usable, x.1)
  refused-NotReplaced k fd (ok r, k') h = absurd h
  refused-NotReplaced k fd (err e, k') h = tt

  appended-NotReplaced : (b : Bool) (k : K) → NotReplaced (b, unusable, k)
  appended-NotReplaced true k = tt
  appended-NotReplaced false k = tt

  tried-NotReplaced :
      (k : K) (target : ℤ) (fd : ℕ) (x : Result ℕ × K)
      → Refuses v k fd x
      → NotReplaced (try_replace sys target fd x)
  tried-NotReplaced k target fd (ok r, k') h = absurd h
  tried-NotReplaced k target fd (err e, k') h = appended-NotReplaced _ _

  exchange-NotReplaced :
      (can : CanReplace) (k : K) (old : BpfProgram) (c fd : ℕ)
      → NoReplace
      → old.fd_cgroup ≡ pos c
      → NotReplaced (exchange sys k can old fd)
  exchange-NotReplaced usable k old c fd h e =
      rw e (
        refused-NotReplaced k fd (sys.attach k (pos c) fd 6 old.kernel_fd) (h k c fd old.kernel_fd))
  exchange-NotReplaced unknown k old c fd h e = rw e (
      tried-NotReplaced k (pos c) fd (sys.attach k (pos c) fd 6 old.kernel_fd)
        (h k c fd old.kernel_fd))
  exchange-NotReplaced unusable k old c fd h e = appended-NotReplaced _ _

  -- The structure has a program with no descriptor of the cgroup.
  abbrev Unowned : CgroupOps → Bool × CgroupOps × K → Type 0
  Unowned ops (true, ops', k) =
      (p : BpfProgram) × (ops'.cgroup2_devices ≡ some p)
      × (p.fd_cgroup ≡ negsuc 8)
      × (ops'.pure_unified ≡ ops.pure_unified)
      × (ops'.dfd_lim ≡ ops.dfd_lim)
  Unowned ops (false, ops', k) = Unit

  exchanged-Unowned :
      (ops : CgroupOps) (old prog : BpfProgram) (x : Bool × CanReplace × K)
      → prog.fd_cgroup ≡ negsuc 8
      → NotReplaced x
      → Unowned ops (exchanged sys ops old prog x)
  exchanged-Unowned ops old prog (true, usable, k) e h = absurd h
  exchanged-Unowned ops old prog (true, unknown, k) e h = (_, refl, e, refl, refl)
  exchanged-Unowned ops old prog (true, unusable, k) e h = (_, refl, e, refl, refl)
  exchanged-Unowned ops old prog (false, can, k) e h = tt

  loaded-Unowned :
      (ops : CgroupOps) (old prog : BpfProgram) (c : ℕ) (x : Result ℕ × K)
      → NoReplace
      → old.fd_cgroup ≡ pos c
      → prog.fd_cgroup ≡ negsuc 8
      → Unowned ops (update_loaded sys ops old (on_load prog x))
  loaded-Unowned ops old prog c (err e, k) n h p = tt
  loaded-Unowned ops old prog c (ok fd, k) n h p =
      exchanged-Unowned ops old (record prog { kernel_fd = pos fd }) _ p
        (exchange-NotReplaced ops.can_use_bpf_replace k old c fd n h)

  built-Unowned :
      (k : K) (ops : CgroupOps) (old prog : BpfProgram) (c : ℕ)
      → NoReplace
      → old.fd_cgroup ≡ pos c
      → prog.kernel_fd ≡ negsuc 8
      → prog.fd_cgroup ≡ negsuc 8
      → Unowned ops (update_built sys k ops old (ok prog))
  unfolding bpf_program_load_kernel
  built-Unowned k ops old prog c n h pk pc =
      rw pk (loaded-Unowned ops old prog c (sys.load k prog.instructions) n h pc)

  -- The call fails, and the attached programs stay.
  abbrev pub Fails : K → Bool × CgroupOps × K → Type 0
  Fails k (true, ops, k') = ⊥
  Fails k (false, ops, k') = v.attached k' ≡ v.attached k

  -- What the calls of bpf(2) come to where the cgroup's descriptor is not open.
  abbrev Refused : K → Bool × CanReplace × K → Type 0
  Refused k (true, can, k') = ⊥
  Refused k (false, can, k') = v.attached k' ≡ v.attached k

  Refused-from :
      (k k' : K) (x : Bool × CanReplace × K)
      → v.attached k' ≡ v.attached k
      → Refused k' x
      → Refused k x
  Refused-from k k' (true, can, k'') e h = h
  Refused-from k k' (false, can, k'') e h = h ∙ e

  Fails-from :
      (k k' : K) (x : Bool × CgroupOps × K) → v.attached k' ≡ v.attached k → Fails k' x → Fails k x
  Fails-from k k' (true, ops, k'') e h = h
  Fails-from k k' (false, ops, k'') e h = h ∙ e

  refused_lem :
      (k : K) (fd : ℕ) (can : CanReplace) (x : Result ℕ × K)
      → Refuses v k fd x
      → Refused k (is_ok x.0, can, x.1)
  refused_lem k fd can (ok r, k') h = absurd h
  refused_lem k fd can (err e, k') h = h.0

  tried_Refused :
      (d : Documented sys v) (k : K) (n fd : ℕ) (x : Result ℕ × K)
      → Refuses v k fd x
      → Refused k (try_replace sys (negsuc n) fd x)
  tried_Refused d k n fd (ok r, k') h = absurd h
  tried_Refused d k n fd (err e, k') h = Refused-from k k' _ h.0 (
      refused_lem k' fd unusable (sys.attach k' (negsuc n) fd 2 (pos 0))
        (d.refuses k' n fd 2 (pos 0)))

  exchange-Refused :
      (d : Documented sys v) (can : CanReplace) (k : K) (old : BpfProgram) (n fd : ℕ)
      → old.fd_cgroup ≡ negsuc n
      → Refused k (exchange sys k can old fd)
  exchange-Refused d usable k old n fd e = rw e (
      refused_lem k fd usable (sys.attach k (negsuc n) fd 6 old.kernel_fd)
        (d.refuses k n fd 6 old.kernel_fd))
  exchange-Refused d unknown k old n fd e = rw e (
      tried_Refused d k n fd (sys.attach k (negsuc n) fd 6 old.kernel_fd)
        (d.refuses k n fd 6 old.kernel_fd))
  exchange-Refused d unusable k old n fd e = rw e (
      refused_lem k fd unusable (sys.attach k (negsuc n) fd 2 (pos 0)) (d.refuses k n fd 2 (pos 0)))

  exchanged-Fails :
      (k : K) (ops : CgroupOps) (old prog : BpfProgram) (x : Bool × CanReplace × K)
      → is_neg prog.fd_cgroup ≡ true
      → Refused k x
      → Fails k (exchanged sys ops old prog x)
  exchanged-Fails k ops old prog (true, can, k') p h = absurd h
  exchanged-Fails k ops old prog (false, can, k') p h = rw (free_closed sys v k' prog p) h

  loaded-Fails :
      (d : Documented sys v) (k : K) (ops : CgroupOps) (old prog : BpfProgram) (n : ℕ)
      (x : Result ℕ × K)
      → old.fd_cgroup ≡ negsuc n
      → is_neg prog.fd_cgroup ≡ true
      → Loads v k prog.instructions x
      → Fails k (update_loaded sys ops old (on_load prog x))
  loaded-Fails d k ops old prog n (err e, k') h p l =
      rw (free_closed sys v k' (record prog { kernel_fd = negsuc 0 }) p) l
  loaded-Fails d k ops old prog n (ok fd, k') h p l = Fails-from k k' _ l.0 (
      exchanged-Fails k' ops old (record prog { kernel_fd = pos fd }) _ p
        (exchange-Refused d ops.can_use_bpf_replace k' old n fd h))

  built-Fails :
      (d : Documented sys v) (k : K) (ops : CgroupOps) (old prog : BpfProgram) (n : ℕ)
      → old.fd_cgroup ≡ negsuc n
      → prog.kernel_fd ≡ negsuc 8
      → prog.fd_cgroup ≡ negsuc 8
      → Fails k (update_built sys k ops old (ok prog))
  unfolding bpf_program_load_kernel
  built-Fails d k ops old prog n h pk pc = rw pk (
      loaded-Fails d k ops old prog n (sys.load k prog.instructions) h (rw pc refl)
        (d.loads k prog.instructions))

  -- An update of a program that has no descriptor of the cgroup.
  Unowned-Fails :
      (ops : CgroupOps) (s : BpfDevices) (new : Device) (x : Bool × CgroupOps × K)
      → Documented sys v
      → ops.pure_unified ≡ true
      → is_neg ops.dfd_lim ≡ false
      → x.0 ≡ true
      → Unowned ops x
      → All IsWellFormed (bpf_list_add_device s new).1.devices
      → ((bpf_list_add_device s new).0 == 0) ≡ false
      → Fails x.2 (bpf_cgroup_devices_update sys x.2 x.1 s new).0
  Unowned-Fails ops s new (false, o, k') d pure lim t h w e = cc
  Unowned-Fails ops s new (true, o, k') d pure lim t (p, has, no_cgroup, pure', lim') w e =
      let (prog, built) = bpf_cgroup_devices_built (bpf_list_add_device s new).1 w in
      let (not_loaded, not_attached) = built_closed (bpf_list_add_device s new).1 prog w built in
      rw (update_altered sys k' o s new (pure' ∙ pure) (ap is_neg lim' ∙ lim) p e has, built)
        (built-Fails d k' o p prog 8 no_cgroup not_loaded not_attached)

-- On a kernel that does what bpf(2) documents but refuses BPF_F_REPLACE: behind a call of
-- bpf_cgroup_devices_update that altered the rules and returned true, the next call that alters
-- them, to rules that are well-formed too, returns false and leaves the attached programs as they
-- are, though the list has the new rule: the structure has lost its descriptor of the cgroup.
pub update-Fails_after_fallback :
    {K : Type 0} (sys : Bpf K) (v : View K) (k : K) (ops : CgroupOps) (old : BpfProgram) (f c : ℕ)
    (s : BpfDevices) (new next : Device)
    → Documented sys v
    → NoReplace sys v
    → ops.pure_unified ≡ true
    → is_neg ops.dfd_lim ≡ false
    → ops.cgroup2_devices ≡ some old
    → IsAttached v k old f c
    → All IsWellFormed (bpf_list_add_device s new).1.devices
    → ((bpf_list_add_device s new).0 == 0) ≡ false
    → (bpf_cgroup_devices_update sys k ops s new).0.0 ≡ true
    → All IsWellFormed (bpf_list_add_device (bpf_list_add_device s new).1 next).1.devices
    → ((bpf_list_add_device (bpf_list_add_device s new).1 next).0 == 0) ≡ false
    → Fails sys v
        (bpf_cgroup_devices_update sys k ops s new).0.2
        (bpf_cgroup_devices_update sys
          (bpf_cgroup_devices_update sys k ops s new).0.2
          (bpf_cgroup_devices_update sys k ops s new).0.1
          (bpf_list_add_device s new).1
          next).0
update-Fails_after_fallback sys v k ops old f c s new next d n pure lim has a w e done w' e' =
    let (prog, built) = bpf_cgroup_devices_built (bpf_list_add_device s new).1 w in
    let (not_loaded, not_attached) = built_closed (bpf_list_add_device s new).1 prog w built in
    let first : Unowned sys v ops (bpf_cgroup_devices_update sys k ops s new).0 =
      rw (update_altered sys k ops s new pure lim old e has, built)
        (built-Unowned sys v k ops old prog c n a.in_cgroup not_loaded not_attached) in
    Unowned-Fails sys v ops _ next (bpf_cgroup_devices_update sys k ops s new).0 d pure lim done
      first w' e'
