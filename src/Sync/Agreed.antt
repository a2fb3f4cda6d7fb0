-- ===== src/Sync/Agreed.antt =====
-- What each process reads is what it waits for, in any interleaving of the two.
use lxc.Base.{
  ◌≡◌, ◌||◌, ◌&&◌, not, ◌≢◌, refl, ap, List, [], ◌∷◌, ◌++◌, append_assoc, ◌∙◌, Bool, true, false,
  some, ℤ, pos, int_eq, int_eq_iff, if◌then◌else◌, ◌⊎◌, inl, inr, arith,
}
use lxc.Sync.{
  Status, sync_error, sync_wait, Op, task, wake, wait, Process, System, running, failed, killed,
  is_open, next_op, parent_step, child_step, abort, warn_father, started, ◌⟶◌, parent_goes,
  child_goes, parent_breaks, child_breaks, child_dies, ◌⟶*◌, here, further,
}

-- The numbers that a process has still to send, and those that it has still to wait for.
abbrev pub wakes : List Op → List ℤ
wakes [] = []
wakes (task t ∷ r) = wakes r
wakes (wake n ∷ r) = pos n ∷ wakes r
wakes (wait n ∷ r) = wakes r

abbrev pub waits : List Op → List ℤ
waits [] = []
waits (task t ∷ r) = waits r
waits (wake n ∷ r) = waits r
waits (wait n ∷ r) = pos n ∷ waits r

-- What was sent is waited for in that order; an error is the last that is sent.
abbrev pub Fits : List ℤ → List ℤ → Type 0
Fits [] ws = Unit
Fits (x ∷ xs) [] = ⊥
Fits (x ∷ xs) (w ∷ ws) = (x ≡ w) × Fits xs ws ⊎ (x ≡ sync_error) × (xs ≡ [])

Fits-prefix : (xs ys ws : List ℤ) → xs ++ ys ≡ ws → Fits xs ws
Fits-prefix [] ys ws h = tt
Fits-prefix (x ∷ xs) ys [] h = cc
Fits-prefix (x ∷ xs) ys (w ∷ ws) h = inl (cc, Fits-prefix xs ys ws (cc))

Fits-error :
    (xs ws : List ℤ) (y : ℤ) (ys : List ℤ) → xs ++ y ∷ ys ≡ ws → Fits (xs ++ sync_error ∷ []) ws
Fits-error [] [] y ys h = cc
Fits-error [] (w ∷ ws) y ys h = inr (refl, refl)
Fits-error (x ∷ xs) [] y ys h = cc
Fits-error (x ∷ xs) (w ∷ ws) y ys h = inl (cc, Fits-error xs ws y ys (cc))

abbrev pub has_error : List ℤ → Bool
has_error [] = false
has_error (x ∷ xs) = if int_eq x sync_error then true else has_error xs

has_error-append : (xs : List ℤ) → has_error (xs ++ sync_error ∷ []) ≡ true
has_error-append [] = refl
has_error-append (x ∷ xs) = ground (arith, has_error-append xs)

abbrev pub last_number : List ℤ
last_number = pos 7 ∷ []

pub record Agreed (s : System) : Type 0 where
  pub to_child :
      s.parent.status ≡ running
      → s.child.status ≡ running
      → s.child.inbox ++ wakes s.parent.todo ≡ waits s.child.todo
  pub to_parent :
      s.parent.status ≡ running
      → is_open s.child ≡ true
      → s.parent.inbox ++ (wakes s.child.todo ++ last_number) ≡ waits s.parent.todo
  pub fits : s.parent.status ≡ running → Fits s.parent.inbox (waits s.parent.todo)
  pub heard : s.parent.status ≡ running → s.child.status ≡ failed → has_error s.parent.inbox ≡ true

pub started-Agreed : Agreed started
unfolding started
started-Agreed = ground arith

abbrev both : List Op → Status → List ℤ → Process → System
both todo st inbox c = record {
  parent = record { todo = todo; status = st; inbox = inbox };
  child = c;
}

parent_op :
    (todo : List Op) (st : Status) (inbox : List ℤ) (c : Process) (t : System)
    → parent_step (both todo st inbox c) ≡ some t
    → Agreed (both todo st inbox c)
    → Agreed t
unfolding parent_step next_op sync_wait abort
parent_op [] st inbox c t e a = cc
parent_op (task k ∷ r) st inbox c t e a = ground arith
parent_op (wake n ∷ r) st inbox c t e a =
    ground (arith, append_assoc c.inbox (pos n ∷ []) (wakes r))
parent_op (wait n ∷ r) st [] c t e a = ground arith
parent_op (wait n ∷ r) st (x ∷ inbox) c t e a = ground (arith, int_eq_iff x (pos n))

parent_goes-Agreed : (s t : System) → parent_step s ≡ some t → Agreed s → Agreed t
parent_goes-Agreed s t = parent_op s.parent.todo s.parent.status s.parent.inbox s.child t

abbrev with_child : Process → List Op → Status → List ℤ → System
with_child p todo st inbox = record {
  parent = p;
  child = record { todo = todo; status = st; inbox = inbox };
}

-- A number that arrives is the next one that the parent waits for.
Fits-sent : (inbox ws ys : List ℤ) (x : ℤ) → inbox ++ x ∷ ys ≡ ws → Fits (inbox ++ x ∷ []) ws
Fits-sent inbox ws ys x h = Fits-prefix (inbox ++ x ∷ []) ys ws (append_assoc inbox (x ∷ []) ys ∙ h)

-- An error that the child reports is behind all that it has sent.
Fits-warned :
    (inbox sent : List ℤ) (ops : List Op)
    → inbox ++ (sent ++ last_number) ≡ waits ops
    → Fits (inbox ++ sync_error ∷ []) (waits ops)
Fits-warned inbox [] ops h = Fits-error inbox (waits ops) (pos 7) [] h
Fits-warned inbox (y ∷ ys) ops h = Fits-error inbox (waits ops) y (ys ++ last_number) h

expects_some :
    (inbox sent : List ℤ) (ops : List Op) → inbox ++ (sent ++ last_number) ≡ waits ops → ops ≢ []
expects_some [] [] [] h = cc
expects_some [] (y ∷ ys) [] h = cc
expects_some (x ∷ xs) ys [] h = cc
expects_some inbox sent (op ∷ r) h = cc

warn_father-Agreed : (s : System) → is_open s.child ≡ true → Agreed s → Agreed (warn_father s)
unfolding warn_father
warn_father-Agreed s h a = ground (
  arith,
  Fits-warned s.parent.inbox (wakes s.child.todo) s.parent.todo,
  expects_some s.parent.inbox (wakes s.child.todo) s.parent.todo,
  has_error-append s.parent.inbox,
)

child_op :
    (p : Process) (todo : List Op) (st : Status) (inbox : List ℤ) (t : System)
    → child_step (with_child p todo st inbox) ≡ some t
    → Agreed (with_child p todo st inbox)
    → Agreed t
unfolding child_step next_op sync_wait
child_op p [] st inbox t e a = cc
child_op p (task k ∷ r) st inbox t e a = ground arith
child_op p (wake n ∷ r) st inbox t e a = ground (
  arith,
  append_assoc p.inbox (pos n ∷ []) (wakes r ++ last_number),
  Fits-sent p.inbox (waits p.todo) (wakes r ++ last_number) (pos n),
  expects_some p.inbox (wakes (wake n ∷ r)) p.todo,
  warn_father-Agreed (with_child p (wake n ∷ r) st inbox),
)
child_op p (wait n ∷ r) st [] t e a =
    ground (arith, warn_father-Agreed (with_child p (wait n ∷ r) st []))
child_op p (wait n ∷ r) st (x ∷ inbox) t e a =
    ground
      (arith, warn_father-Agreed (with_child p (wait n ∷ r) st (x ∷ inbox)), int_eq_iff x (pos n))

child_goes-Agreed : (s t : System) → child_step s ≡ some t → Agreed s → Agreed t
child_goes-Agreed s t = child_op s.parent s.child.todo s.child.status s.child.inbox t

step-Agreed : {s t : System} → s ⟶ t → Agreed s → Agreed t
unfolding abort
step-Agreed (parent_goes {s} {t} e) a = parent_goes-Agreed s t e a
step-Agreed (child_goes {s} {t} e) a = child_goes-Agreed s t e a
step-Agreed (parent_breaks h) a = ground arith
step-Agreed (child_breaks {s} h) a = warn_father-Agreed s h a
step-Agreed (child_dies h) a = ground arith

pub reachable-Agreed : {s t : System} → s ⟶* t → Agreed s → Agreed t
reachable-Agreed here a = a
reachable-Agreed (further p q) a = step-Agreed q (reachable-Agreed p a)

-- The first unread number is the one that the next wait expects, or an error where one may come.
abbrev pub reads_expected : Bool → List Op → List ℤ → Bool
reads_expected error (wait n ∷ r) (x ∷ i) = int_eq x (pos n) || (error && int_eq x sync_error)
reads_expected error ops inbox = true

abbrev pub is_running : Status → Bool
is_running running = true
is_running failed = false
is_running killed = false

parent_reads :
    (ops : List Op) (inbox : List ℤ) → Fits inbox (waits ops) → reads_expected true ops inbox ≡ true
parent_reads [] inbox h = refl
parent_reads (task k ∷ r) inbox h = refl
parent_reads (wake n ∷ r) inbox h = refl
parent_reads (wait n ∷ r) [] h = refl
parent_reads (wait n ∷ r) (x ∷ inbox) h = ground arith

child_reads :
    (ops : List Op) (inbox ws : List ℤ)
    → inbox ++ ws ≡ waits ops
    → reads_expected false ops inbox ≡ true
child_reads [] inbox ws h = refl
child_reads (task k ∷ r) inbox ws h = refl
child_reads (wake n ∷ r) inbox ws h = refl
child_reads (wait n ∷ r) [] ws h = refl
child_reads (wait n ∷ r) (x ∷ inbox) ws h = ground arith

-- In every state that the start of a container can reach, by whatever order of steps, failures
-- and signals, while lxc_spawn has not failed: the first number that lxc_spawn has not read is the
-- one that its next wait expects, or SYNC_ERROR; and if do_start has not failed and was not killed,
-- the first number that it has not read is the one that its next wait expects.
pub waits_expected :
    {s : System}
    → started ⟶* s
    → s.parent.status ≡ running
    → (reads_expected true s.parent.todo s.parent.inbox ≡ true)
      × ((not (is_running s.child.status) || reads_expected false s.child.todo s.child.inbox)
          ≡ true)
waits_expected {s} reach h =
    let a = reachable-Agreed reach started-Agreed in
    (
      parent_reads s.parent.todo s.parent.inbox (a.fits h),
      ground (arith, child_reads s.child.todo s.child.inbox (wakes s.parent.todo)),
    )

heard_waits : (xs ws : List ℤ) → Fits xs ws → has_error xs ≡ true → ws ≢ []
heard_waits [] ws f h = cc
heard_waits (x ∷ xs) [] f h = absurd f
heard_waits (x ∷ xs) (w ∷ ws) f h = cc

-- Where lxc_spawn has come to its end, the child has not failed with an error: it has run init,
-- or it was killed.
pub success-no_error :
    {s : System}
    → started ⟶* s
    → s.parent.status ≡ running
    → s.parent.todo ≡ []
    → s.child.status ≢ failed
success-no_error reach h e bad =
    let a = reachable-Agreed reach started-Agreed in
    heard_waits _ _ (a.fits h) (a.heard h bad) (ap waits e)
