-- ===== src/Mainloop/Tests.antt =====
-- Event loops with two handlers.
use lxc.Base.{
  eq_self, ℕ, suc, ◌≡◌, refl, ◌+◌, ◌≤◌, pos, List, [], ◌∷◌, true, false, ◌==◌, none, any, any-cons,
  if◌then◌else◌, Bool-cases, inl, inr, arith,
}
use mathlib.Core.Path.{subst}
use lxc.Mainloop.{
  Handler, AsyncDescr, System, Wait, ready, interrupted, failed, with_id, find, add, close_fd,
  delete_fd, del, Client, looping, fault, continue, disarm, run_events, lxc_mainloop,
}
use lxc.Mainloop.Handlers.{IsRegistered}
use lxc.Mainloop.Registered.{IsFresh, Keeps, lxc_mainloop-IsRegistered}
use lxc.Mainloop.Alive.{AreDistinct, AreAlive, IsDocumented, OnlyAdds, IsFine, lxc_mainloop-IsFine}
use lxc.Mainloop.Freed.{run_events-fault}

-- An address above those in use.
unfoldable above : List Handler → ℕ
above [] = 1
above (h ∷ hs) = h.id + above hs

-- The first two descriptors are ready.
abbrev first_two : List Handler → Wait
first_two [] = interrupted
first_two (h ∷ []) = ready ((h.id, 1) ∷ [])
first_two (h ∷ k ∷ hs) =
    if h.id == k.id then ready ((h.id, 1) ∷ []) else ready ((h.id, 1) ∷ (k.id, 1) ∷ [])

abbrev sys : System
sys = record {
  refuses = λ fd. false;
  errno = λ fd. 17;
  zalloc = λ d. above d.handlers;
  epoll_wait = λ n d. first_two d.epoll;
}

above_pos : (hs : List Handler) → 1 ≤ above hs
unfolding above
above_pos [] = omega arith
above_pos (h ∷ hs) = let le = above_pos hs in omega arith

with_id-below : (n : ℕ) (h : Handler) (a : ℕ) → 1 ≤ a → h.id + a ≤ n → with_id n h ≡ false
with_id-below n h a le le' = ground arith

find-above : (n : ℕ) (hs : List Handler) → above hs ≤ n → find (with_id n) hs ≡ none
unfolding find above
find-above n [] le = refl
find-above n (h ∷ hs) le =
    let other : with_id n h ≡ false = with_id-below n h (above hs) (above_pos hs) le in
    rw other (find-above n hs (omega arith))

is_fresh : IsFresh sys
is_fresh d = find-above (above d.handlers) d.handlers (omega arith)

abbrev IsGood : Wait → List Handler → Type 0
IsGood (ready es) hs = AreDistinct es × AreAlive es hs
IsGood interrupted hs = Unit
IsGood (failed n) hs = Unit

any-head : (h : Handler) (hs : List Handler) → any (with_id h.id) (h ∷ hs) ≡ true
any-head h hs = rw (any-cons (with_id h.id) h hs, eq_self h.id) refl

any-tail :
    (h k : Handler) (hs : List Handler)
    → (h.id == k.id) ≡ false
    → any (with_id k.id) (h ∷ k ∷ hs) ≡ true
any-tail h k hs e = rw (any-cons (with_id k.id) h (k ∷ hs), e) (any-head k hs)

first_two-IsGood : (hs : List Handler) → IsGood (first_two hs) hs
first_two-IsGood [] = tt
first_two-IsGood (h ∷ []) = ((tt, tt), (any-head h [], tt))
first_two-IsGood (h ∷ k ∷ hs) = elim (Bool-cases (h.id == k.id)) [
  | inl e ↦ rw e ((tt, tt), (any-head h (k ∷ hs), tt))
  | inr e ↦ rw e (((e, tt), (tt, tt)), (any-head h (k ∷ hs), (any-tail h k hs e, tt)))
]

is_documented : IsDocumented sys
is_documented n d es e = subst (λ w. IsGood w d.epoll) e (first_two-IsGood d.epoll)

-- Every callback adds a handler and disarms its own.
abbrev client : Client ℕ
client = record {
  callback = λ s h events. (suc s, add (pos (10 + s)) true ∷ [], disarm);
  cleanup = λ s h. (s, close_fd h.fd ∷ []);
}

only_adds : OnlyAdds client
only_adds = record { callbacks = λ s h events. (tt, tt); cleanups = λ s h. (tt, tt) }

abbrev first_handler : Handler
first_handler = record { id = 1; fd = 4 }

abbrev second_handler : Handler
second_handler = record { id = 2; fd = 5 }

abbrev descr : AsyncDescr
descr = record {
  handlers = first_handler ∷ second_handler ∷ [];
  epoll = first_handler ∷ second_handler ∷ [];
}

descr-IsRegistered : IsRegistered descr
unfolding find
descr-IsRegistered = record { distinct = ((refl, tt), (tt, tt)); allocated = (refl, (refl, tt)) }

-- The address of the second handler that is added is above those that are left.
one_round :
    lxc_mainloop sys client 1 (looping 0 descr)
    ≡ looping 2 (record {
      handlers = record { id = 4; fd = 10 } ∷ record { id = 7; fd = 11 } ∷ [];
      epoll = record { id = 4; fd = 10 } ∷ record { id = 7; fd = 11 } ∷ [];
    })
unfolding lxc_mainloop above
one_round = refl

lxc_mainloop-IsRegistered_example : Keeps (lxc_mainloop sys client 3 (looping 0 descr))
lxc_mainloop-IsRegistered_example =
    lxc_mainloop-IsRegistered sys client is_fresh 3 (looping 0 descr) descr-IsRegistered

lxc_mainloop-IsFine_example : IsFine (lxc_mainloop sys client 3 (looping 0 descr))
lxc_mainloop-IsFine_example =
    lxc_mainloop-IsFine sys client only_adds is_documented is_fresh 3 (looping 0 descr)
      descr-IsRegistered tt

-- The cleanup of the first handler deletes the second one, whose event is next.
abbrev cleaning : Client ℕ
cleaning = record {
  callback = λ s h events. (suc s, [], disarm);
  cleanup = λ s h. (s, delete_fd 5 ∷ []);
}

deleted_by_cleanup : lxc_mainloop sys cleaning 1 (looping 0 descr) ≡ fault
unfolding lxc_mainloop
deleted_by_cleanup = refl

-- Every callback deletes the second handler.
abbrev deleting : Client ℕ
deleting = record {
  callback = λ s h events. (suc s, del 5 ∷ [], continue);
  cleanup = λ s h. (s, []);
}

run_events-fault_example : run_events sys deleting ((1, 1) ∷ (2, 1) ∷ []) (looping 0 descr) ≡ fault
unfolding find
run_events-fault_example =
    run_events-fault sys deleting 0 1 first_handler second_handler 1 1 [] descr refl refl refl refl
