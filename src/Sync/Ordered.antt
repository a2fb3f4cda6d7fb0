-- ===== src/Sync/Ordered.antt =====
-- The order that the numbers impose on what the two processes do.
use lxc.Base.{
  Bool-cases, ltb, leb, length, length-append, ◌≤◌, ◌≡◌, refl, ap, ◌∙◌, List, [], ◌∷◌, ◌++◌, Bool,
  true, false, some, ℤ, ◌⊎◌, inl, inr, arith, not, ◌&&◌, ◌||◌, any,
}
use lxc.Sync.{
  Status, open_end, Op, task, wake, wait, System, running, next_op, parent_step, child_step, abort,
  warn_father, started, spawn_ops, start_ops, ◌⟶◌, parent_goes, child_goes, parent_breaks,
  child_breaks, child_dies, ◌⟶*◌, here, further, devices_activate, create_network, setup_limits,
  idmap_parent, receive_fds, prepare_rootfs, mount_child, setup_child,
}
use lxc.Sync.Agreed.{last_number, wakes, waits, Agreed, reachable-Agreed, started-Agreed}

-- What is left of a list of operations.
pub data Suffix : List Op → List Op → Type 0 where
  whole : {xs : List Op} → Suffix xs xs
  later : {x : Op} {xs ys : List Op} → Suffix (x ∷ xs) ys → Suffix xs ys

unfoldable pub every_suffix : (List Op → Bool) → List Op → Bool
every_suffix p [] = p []
every_suffix p (x ∷ xs) = p (x ∷ xs) && every_suffix p xs

pub every_suffix-later :
    (p : List Op → Bool) (xs ys : List Op)
    → Suffix xs ys
    → every_suffix p ys ≡ true
    → every_suffix p xs ≡ true
unfolding every_suffix
every_suffix-later p xs ys whole h = h
every_suffix-later p xs ys (later {x} q) h =
    let rest = every_suffix-later p (x ∷ xs) ys q h in ground arith

pub every_suffix-head : (p : List Op → Bool) (xs : List Op) → every_suffix p xs ≡ true → p xs ≡ true
unfolding every_suffix
every_suffix-head p [] h = h
every_suffix-head p (x ∷ xs) h = ground arith

abbrev pub rest_of : List Op → List Op
rest_of [] = []
rest_of (x ∷ xs) = xs

Suffix-rest_of : (xs ys : List Op) → Suffix xs ys → Suffix (rest_of xs) ys
Suffix-rest_of [] ys h = h
Suffix-rest_of (x ∷ xs) ys h = later h

-- A step leaves a list of operations as it is, or takes its first one away.
abbrev pub Shorter : List Op → List Op → Type 0
Shorter before after = (after ≡ before) ⊎ (after ≡ rest_of before)

Suffix-Shorter : (xs xs' ys : List Op) → Shorter xs xs' → Suffix xs ys → Suffix xs' ys
Suffix-Shorter xs xs' ys (inl e) h = rw e h
Suffix-Shorter xs xs' ys (inr e) h = rw e (Suffix-rest_of xs ys h)

parent_step-Shorter :
    (s t : System)
    → parent_step s ≡ some t
    → Shorter s.parent.todo t.parent.todo × (t.child.todo ≡ s.child.todo)
unfolding parent_step next_op abort
parent_step-Shorter s t h = ground arith

child_step-Shorter :
    (s t : System)
    → child_step s ≡ some t
    → Shorter s.child.todo t.child.todo × (t.parent.todo ≡ s.parent.todo)
unfolding child_step next_op warn_father
child_step-Shorter s t h = ground arith

warn_father-todo : (s : System) → (warn_father s).parent.todo ≡ s.parent.todo
unfolding warn_father
warn_father-todo s = ground arith

-- What is left for the parent and for the child.
abbrev pub Left : System → Type 0
Left s = Suffix s.parent.todo spawn_ops × Suffix s.child.todo start_ops

step-Left : {s t : System} → s ⟶ t → Left s → Left t
unfolding abort warn_father
step-Left (parent_goes {s} {t} e) (p, c) =
    let (shorter, same) = parent_step-Shorter s t e in (Suffix-Shorter _ _ _ shorter p, rw same c)
step-Left (child_goes {s} {t} e) (p, c) =
    let (shorter, same) = child_step-Shorter s t e in (rw same p, Suffix-Shorter _ _ _ shorter c)
step-Left (parent_breaks h) l = l
step-Left (child_breaks {s} h) (p, c) = (rw (warn_father-todo s) p, c)
step-Left (child_dies h) l = l

pub reachable-Left : {s t : System} → s ⟶* t → Left s → Left t
reachable-Left here a = a
reachable-Left (further p q) a = step-Left q (reachable-Left p a)

-- What the parent does before the container may run init, and what the child does before its
-- device rules hold.
abbrev pub configures : Op → Bool
configures (task setup_limits) = true
configures (task create_network) = true
configures (task prepare_rootfs) = true
configures (task idmap_parent) = true
configures (task devices_activate) = true
configures (task receive_fds) = true
configures op = false

abbrev pub mounts : Op → Bool
mounts (task mount_child) = true
mounts (task setup_child) = true
mounts op = false

abbrev has_wake : List Op → Bool
has_wake [] = false
has_wake (task t ∷ r) = has_wake r
has_wake (wake n ∷ r) = true
has_wake (wait n ∷ r) = has_wake r

has_wake-wakes : (ops : List Op) → wakes ops ≡ [] → has_wake ops ≡ false
has_wake-wakes [] h = refl
has_wake-wakes (task t ∷ r) h = has_wake-wakes r h
has_wake-wakes (wake n ∷ r) h = cc
has_wake-wakes (wait n ∷ r) h = has_wake-wakes r h

-- No wake is left, so nothing that is to be done before a wake is left.
abbrev silent : (Op → Bool) → List Op → Bool
silent p ops = has_wake ops || not (any p ops)

parent_silent : every_suffix (silent configures) spawn_ops ≡ true
unfolding every_suffix spawn_ops
parent_silent = refl

child_silent : every_suffix (silent mounts) start_ops ≡ true
unfolding every_suffix start_ops
child_silent = refl

silent_lem :
    (p : Op → Bool) (ops full : List Op)
    → every_suffix (silent p) full ≡ true
    → Suffix ops full
    → wakes ops ≡ []
    → any p ops ≡ false
silent_lem p ops full check suffix h =
    let all =
      every_suffix-head (silent p) ops (every_suffix-later (silent p) ops full suffix check) in
    ground (arith, has_wake-wakes ops h)

append_nil_parts : (xs ys : List ℤ) → xs ++ ys ≡ [] → ys ≡ []
append_nil_parts [] ys h = h
append_nil_parts (x ∷ xs) ys h = cc

one_number : (xs ys ws : List ℤ) → xs ++ (ys ++ last_number) ≡ ws → length ws ≤ 1 → ys ≡ []
one_number xs [] ws h k = refl
one_number xs (y ∷ ys) ws h k = absurd (
    omega (
      arith,
      ap length h,
      length-append xs ((y ∷ ys) ++ last_number),
      length-append ys last_number,
    ))

pub started-Left : Left started
unfolding started
started-Left = (whole, whole)

abbrev pub has_wait : List Op → Bool
has_wait [] = false
has_wait (task t ∷ r) = has_wait r
has_wait (wake n ∷ r) = has_wait r
has_wait (wait n ∷ r) = true

-- A number other than READY_START + 1 is still waited for.
abbrev pub expects_child : List Op → Bool
expects_child [] = false
expects_child (task t ∷ r) = expects_child r
expects_child (wake n ∷ r) = expects_child r
expects_child (wait n ∷ r) = ltb n 7 || expects_child r

has_wait-waits : (ops : List Op) → has_wait ops ≡ false → waits ops ≡ []
has_wait-waits [] h = refl
has_wait-waits (task t ∷ r) h = has_wait-waits r h
has_wait-waits (wake n ∷ r) h = has_wait-waits r h
has_wait-waits (wait n ∷ r) h = cc

configured_first :
    (s : System)
    → Agreed s
    → Left s
    → s.parent.status ≡ running
    → s.child.status ≡ running
    → (has_wait s.child.todo || not (any configures s.parent.todo)) ≡ true
configured_first s a l h k = elim (Bool-cases (has_wait s.child.todo)) [
  | inl e ↦ rw e refl
  | inr e ↦
      let none_left =
        silent_lem configures s.parent.todo spawn_ops parent_silent l.0
          (append_nil_parts s.child.inbox _ (a.to_child h k ∙ has_wait-waits s.child.todo e)) in
      rw (e, none_left) refl
]

parent_one_number :
    every_suffix (λ ops. expects_child ops || leb (length (waits ops)) 1) spawn_ops ≡ true
unfolding every_suffix spawn_ops
parent_one_number = refl

open_unless_done :
    (ops : List Op) (st : Status) → st ≡ running → (open_end ops st ≡ true) ⊎ (ops ≡ [])
open_unless_done [] st h = inr refl
open_unless_done (op ∷ r) st h = inl (rw h refl)

mounted_first :
    (s : System)
    → Agreed s
    → Left s
    → s.parent.status ≡ running
    → s.child.status ≡ running
    → (expects_child s.parent.todo || not (any mounts s.child.todo)) ≡ true
mounted_first s a l h k = elim (Bool-cases (expects_child s.parent.todo)) [
  | inl e ↦ rw e refl
  | inr e ↦ elim (open_unless_done s.child.todo s.child.status k) [
    | inr done ↦ rw (e, done) refl
    | inl o ↦
        let all =
          every_suffix-head _ s.parent.todo
            (every_suffix-later _ s.parent.todo spawn_ops l.0 parent_one_number) in
        let few : length (waits s.parent.todo) ≤ 1 = ground arith in
        let none_left =
          silent_lem mounts s.child.todo start_ops child_silent l.1
            (one_number s.parent.inbox _ _ (a.to_parent h o) few) in
        rw (e, none_left) refl
  ]
]

-- In every state that can be reached, while neither process has failed and the child was not
-- killed: as long as lxc_spawn has some part of the limits, the network, the root file system,
-- the mounts, the device rules and the descriptors before it, do_start has a wait before it; and
-- as long as do_start has its mounts or its other set-up before it, lxc_spawn has a wait for one
-- of the numbers below READY_START + 1 before it.
pub set_up_in_order :
    {s : System}
    → started ⟶* s
    → s.parent.status ≡ running
    → s.child.status ≡ running
    → ((has_wait s.child.todo || not (any configures s.parent.todo)) ≡ true)
      × ((expects_child s.parent.todo || not (any mounts s.child.todo)) ≡ true)
set_up_in_order {s} reach h k =
    let a = reachable-Agreed reach started-Agreed in
    let l = reachable-Left reach started-Left in
    (configured_first s a l h k, mounted_first s a l h k)
