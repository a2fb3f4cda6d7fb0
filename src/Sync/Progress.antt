-- ===== src/Sync/Progress.antt =====
-- The two processes never wait for one another with the numbers that they send.
use lxc.Base.{
  false, ℕ, suc, ◌+◌, ◌≤◌, ◌<◌, ◌≡◌, refl, ap, ◌∙◌, sym, List, [], ◌∷◌, ◌++◌, Bool, true, some,
  none, ℤ, pos, ◌⊎◌, inl, inr, arith, ◌&&◌, ◌||◌, ltb, pos_part, Option-cases, Bool-cases, length,
  if◌then◌else◌,
}
use lxc.Sync.{
  Status, sync_wait, Op, task, wake, wait, Process, System, running, is_open, open_end, blocked,
  next_op, parent_step, child_step, abort, warn_father, started, spawn_ops, start_ops, ◌⟶◌,
  parent_goes, child_goes, parent_breaks, child_breaks, child_dies, ◌⟶*◌, here, further,
}
use lxc.Sync.Agreed.{last_number, wakes, waits, Agreed, reachable-Agreed, started-Agreed}
use lxc.Sync.Ordered.{
  every_suffix, every_suffix-head, every_suffix-later, Left, reachable-Left, started-Left,
}

-- The next number sent behind a wait is greater than the one waited for, which is then not the
-- last one.
abbrev first_above : ℕ → List ℤ → Bool
first_above n [] = true
first_above n (m ∷ ms) = ltb n (pos_part m) && ltb n 7

abbrev rising : List Op → Bool
rising [] = true
rising (task t ∷ r) = true
rising (wake n ∷ r) = true
rising (wait n ∷ r) = first_above n (wakes r)

parent_rising : every_suffix rising spawn_ops ≡ true
unfolding every_suffix spawn_ops
parent_rising = refl

child_rising : every_suffix rising start_ops ≡ true
unfolding every_suffix start_ops
child_rising = refl

Left-rising : (s : System) → Left s → (rising s.parent.todo ≡ true) × (rising s.child.todo ≡ true)
Left-rising s (p, c) = (
  every_suffix-head rising _ (every_suffix-later rising _ _ p parent_rising),
  every_suffix-head rising _ (every_suffix-later rising _ _ c child_rising),
)

-- What an operation that cannot go on is: a wait that has nothing to read, while the other end is
-- open.
record Blocked (other : Bool) (inbox : List ℤ) (todo : List Op) : Type 0 where
  other_open : other ≡ true
  empty : inbox ≡ []
  number : ℕ
  rest : List Op
  is_wait : todo ≡ wait number ∷ rest

next_op-Blocked :
    (other : Bool) (inbox : List ℤ) (todo : List Op) (st : Status)
    → next_op other inbox todo ≡ blocked
    → open_end todo st ≡ true
    → Blocked other inbox todo
unfolding next_op sync_wait
next_op-Blocked other inbox [] st h o = cc
next_op-Blocked other inbox (task k ∷ r) st h o = cc
next_op-Blocked other inbox (wake n ∷ r) st h o = absurd (ground arith)
next_op-Blocked other (x ∷ inbox) (wait n ∷ r) st h o = absurd (ground arith)
next_op-Blocked other [] (wait n ∷ r) st h o = record {
  other_open = ground arith;
  empty = refl;
  number = n;
  rest = r;
  is_wait = refl;
}

parent_Blocked :
    (s : System)
    → parent_step s ≡ none
    → is_open s.parent ≡ true
    → Blocked (is_open s.child) s.parent.inbox s.parent.todo
unfolding parent_step
parent_Blocked s h o =
    next_op-Blocked (is_open s.child) s.parent.inbox s.parent.todo s.parent.status (ground arith) o

child_Blocked :
    (s : System)
    → child_step s ≡ none
    → is_open s.child ≡ true
    → Blocked (is_open s.parent) s.child.inbox s.child.todo
unfolding child_step
child_Blocked s h o =
    next_op-Blocked (is_open s.parent) s.child.inbox s.child.todo s.child.status (ground arith) o

open_running : (p : Process) → is_open p ≡ true → p.status ≡ running
open_running p h = ground arith

-- Two processes that wait for one another: each expects what the other sends next, and sends
-- only greater numbers behind it.
waits_cross :
    (n m : ℕ) (wr wq a b : List ℤ)
    → first_above n wr ≡ true
    → first_above m wq ≡ true
    → wr ≡ pos m ∷ a
    → wq ++ last_number ≡ pos n ∷ b
    → ⊥
waits_cross n m [] wq a b hn hm down up = cc
waits_cross n m (x ∷ wr) [] a b hn hm down up = ground arith
waits_cross n m (x ∷ wr) (y ∷ wq) a b hn hm down up = ground arith

both-Blocked :
    (s : System)
    → Agreed s
    → Left s
    → is_open s.parent ≡ true
    → is_open s.child ≡ true
    → Blocked true s.parent.inbox s.parent.todo
    → Blocked true s.child.inbox s.child.todo
    → ⊥
both-Blocked s a l op oc p c =
    let (rp, rc) = Left-rising s l in
    let h = open_running s.parent op in
    waits_cross p.number c.number (wakes p.rest) (wakes c.rest) (waits c.rest) (waits p.rest)
      (sym (ap rising p.is_wait) ∙ rp) (sym (ap rising c.is_wait) ∙ rc)
      (ground (arith, a.to_child, ap wakes p.is_wait, ap waits c.is_wait))
      (ground (arith, a.to_parent, ap waits p.is_wait, ap wakes c.is_wait))

stuck_nowhere :
    (s : System)
    → Agreed s
    → Left s
    → (is_open s.parent || is_open s.child) ≡ true
    → parent_step s ≡ none
    → child_step s ≡ none
    → ⊥
stuck_nowhere s a l o hp hc = elim (Bool-cases (is_open s.parent)) [
  | inl op ↦
      let p = parent_Blocked s hp op in
      let oc = p.other_open in
      let c = child_Blocked s hc oc in both-Blocked s a l op oc (rw oc at p) (rw op at c)
  | inr closed ↦
      let oc : is_open s.child ≡ true = rw closed at o in
      let c = child_Blocked s hc oc in cc (c.other_open)
]

-- In every state that the start can reach, as long as one of the processes holds its end of the
-- socket open, one of them can do its next operation, where a task counts as one that can be done.
no_deadlock :
    {s : System}
    → started ⟶* s
    → (is_open s.parent || is_open s.child) ≡ true
    → (t : System) × ((parent_step s ≡ some t) ⊎ (child_step s ≡ some t))
no_deadlock {s} reach o = elim (Option-cases (parent_step s)) [
  | inr (t, e) ↦ (t, inl e)
  | inl hp ↦ elim (Option-cases (child_step s)) [
    | inr (t, e) ↦ (t, inr e)
    | inl hc ↦ absurd (
        stuck_nowhere s (reachable-Agreed reach started-Agreed) (reachable-Left reach started-Left)
          o hp hc)
  ]
]

-- What is left to be done.
abbrev left_of : Process → ℕ
left_of p = if is_open p then length p.todo else 0

abbrev pub work : System → ℕ
work s = left_of s.parent + left_of s.child

parent_step-work : (s t : System) → parent_step s ≡ some t → work t < work s
unfolding parent_step next_op abort
parent_step-work s t h = ground arith

child_step-work : (s t : System) → child_step s ≡ some t → work t < work s
unfolding child_step next_op warn_father
child_step-work s t h = ground arith

step-work : {s t : System} → s ⟶ t → work t < work s
unfolding abort warn_father
step-work (parent_goes {s} {t} e) = parent_step-work s t e
step-work (child_goes {s} {t} e) = child_step-work s t e
step-work (parent_breaks h) = ground arith
step-work (child_breaks h) = ground arith
step-work (child_dies h) = ground arith

pub steps : {s t : System} → s ⟶* t → ℕ
steps here = 0
steps (further p q) = suc (steps p)

steps-work : {s t : System} (run : s ⟶* t) → steps run + work t ≤ work s
unfolding steps
steps-work here = omega arith
steps-work (further p q) = omega (arith, steps-work p, step-work q)

-- However the steps, failures and signals are ordered, the start ends within 29 steps, and less
-- whatever is still left to be done.
start_ends : {s : System} (run : started ⟶* s) → steps run + work s ≤ 29
unfolding started spawn_ops start_ops
start_ends run = steps-work run

-- A process whose next operation is a task.
abbrev pub at_task : List Op → Bool
at_task [] = false
at_task (task t ∷ r) = true
at_task (wake n ∷ r) = false
at_task (wait n ∷ r) = false

abbrev pub in_task : Process → Bool
in_task p = is_open p && at_task p.todo

-- However the steps, failures and signals are ordered, a run of the start has at most 29 steps, and
-- fewer by what is still left to be done. In every state on its way where one of the processes holds its
-- end of the synchronisation socket open, one of them is in a task, or one of them can send or read
-- its next number, or sees that the other end is closed: they never wait for one another with the
-- numbers of that socket. Whether a task ends, and the data that it may wait for over the other
-- socket, is left open.
pub start_progress :
    {s : System} (run : started ⟶* s)
    → (steps run + work s ≤ 29)
      × (((is_open s.parent || is_open s.child) ≡ false)
          ⊎ (((in_task s.parent || in_task s.child) ≡ true)
              ⊎ ((t : System) × ((parent_step s ≡ some t) ⊎ (child_step s ≡ some t)))))
start_progress {s} run = (
  start_ends run,
  elim (Bool-cases (is_open s.parent || is_open s.child)) [
    | inl o ↦ inr (inr (no_deadlock run o))
    | inr closed ↦ inl closed
  ],
)
