-- ===== src/Mainloop.antt =====
-- The event loop over epoll: src/lxc/mainloop.c, built without liburing.
pub mod Handlers
pub mod Registered
pub mod Kept
pub mod Alive
pub mod Freed
mod Tests
use lxc.Base.{
  ℕ, zero, suc, ◌+◌, ◌-◌, ℤ, pos, negsuc, is_neg, pos_part, List, [], ◌∷◌, ◌++◌, Bool, true, false,
  not, ◌&&◌, ◌||◌, ◌==◌, Option, none, some, any, if◌then◌else◌, Result, ok, err, einval, ebadf,
  enoent,
}

-- A struct mainloop_handler at the address `id`. The client's functions and data belong to the address.
pub record Handler : Type 0 where
  pub id : ℕ
  pub fd : ℕ

-- The handlers of the loop, and what the kernel has in the epoll instance: a descriptor with the handler
-- that it was added for. Only the handlers of the loop are allocated.
pub record AsyncDescr : Type 0 where
  pub handlers : List Handler
  pub epoll : List Handler

-- The events of epoll_wait: the handler's address and the events.
pub data Wait : Type 0 where
  ready : List (ℕ × ℕ) → Wait
  interrupted : Wait
  failed : ℕ → Wait

-- The system: whether epoll_ctl refuses to add a descriptor that is not in the instance, the errno that
-- EPOLL_CTL_ADD fails with, the address that zalloc returns, and the answer to the n-th epoll_wait.
pub record System : Type 0 where
  pub refuses : ℕ → Bool
  pub errno : ℕ → ℕ
  pub zalloc : AsyncDescr → ℕ
  pub epoll_wait : ℕ → AsyncDescr → Wait

abbrev pub with_id : ℕ → Handler → Bool
with_id id h = h.id == id

abbrev pub with_fd : ℕ → Handler → Bool
with_fd fd h = h.fd == fd

unfoldable pub find : (Handler → Bool) → List Handler → Option Handler
find p [] = none
find p (h ∷ hs) = let rest = find p hs in if p h then some h else rest

unfoldable pub without : (Handler → Bool) → List Handler → List Handler
without p [] = []
without p (h ∷ hs) = let rest = without p hs in if p h then rest else h ∷ rest

-- EPOLL_CTL_DEL, which fails for a descriptor that is not in the instance.
unfoldable pub epoll_del : ℕ → AsyncDescr → Option AsyncDescr
epoll_del fd d =
    if any (with_fd fd) d.epoll
    then some (record d { epoll = without (with_fd fd) d.epoll })
    else none

-- list_del and free
abbrev pub delete_handler : ℕ → AsyncDescr → AsyncDescr
delete_handler id d = record d { handlers = without (with_id id) d.handlers }

-- What takes something out of the loop: lxc_mainloop_del_handler, and close(2) of a descriptor.
pub data Removal : Type 0 where
  delete_fd close_fd : ℕ → Removal

-- What a client does with the loop: `given` stands for a callback, a cleanup, events and a name.
pub data Action : Type 0 where
  add : ℤ → Bool → Action
  take_out : Removal → Action

abbrev pub del : ℕ → Action
del fd = take_out (delete_fd fd)

module _ (sys : System) where
  -- EPOLL_CTL_ADD, which fails for a descriptor that is in the instance.
  unfoldable pub add_new : ℕ → AsyncDescr → Result (Unit {0}) × AsyncDescr
  add_new fd d = if any (with_fd fd) d.epoll || sys.refuses fd then (err (sys.errno fd), d) else (
    ok tt,
    record d {
      handlers = d.handlers ++ record { id = sys.zalloc d; fd = fd } ∷ [];
      epoll = d.epoll ++ record { id = sys.zalloc d; fd = fd } ∷ [];
    },
  )

  unfoldable pub lxc_mainloop_add_handler_events :
      ℤ → Bool → AsyncDescr → Result (Unit {0}) × AsyncDescr
  unfolding add_new
  lxc_mainloop_add_handler_events (negsuc n) given d = (err ebadf, d)
  lxc_mainloop_add_handler_events (pos fd) false d = (err einval, d)
  lxc_mainloop_add_handler_events (pos fd) true d = add_new fd d

abbrev pub deleted : ℕ → AsyncDescr → Option AsyncDescr → Result (Unit {0}) × AsyncDescr
deleted id d none = (err enoent, d)
deleted id d (some d') = (ok tt, delete_handler id d')

abbrev pub del_found : ℕ → AsyncDescr → Option Handler → Result (Unit {0}) × AsyncDescr
del_found fd d none = (err einval, d)
del_found fd d (some h) = deleted h.id d (epoll_del fd d)

unfoldable pub lxc_mainloop_del_handler : ℕ → AsyncDescr → Result (Unit {0}) × AsyncDescr
unfolding epoll_del find
lxc_mainloop_del_handler fd d = del_found fd d (find (with_fd fd) d.handlers)

-- The kernel takes a descriptor that is closed out of the epoll instance; its handler stays in the
-- list.
unfoldable pub close_in_epoll : ℕ → AsyncDescr → AsyncDescr
unfolding without
close_in_epoll fd d = record d { epoll = without (with_fd fd) d.epoll }

abbrev pub remove : Removal → AsyncDescr → AsyncDescr
remove (delete_fd fd) d = (lxc_mainloop_del_handler fd d).1
remove (close_fd fd) d = close_in_epoll fd d

unfoldable pub remove_all : List Removal → AsyncDescr → AsyncDescr
unfolding lxc_mainloop_del_handler close_in_epoll
remove_all [] d = d
remove_all (x ∷ removals) d = remove_all removals (remove x d)

-- The result of a callback; any other number is as LXC_MAINLOOP_CONTINUE.
pub data Verdict : Type 0 where
  continue disarm close error : Verdict

-- The client's state, and its callbacks: the new state, what they do with the loop, and the result.
-- A cleanup adds no handlers, but it may delete some and close descriptors, as lxc_cmd_cleanup_handler
-- does in lxc_terminal_free.
pub record Client (S : Type 0) : Type 0 where
  pub callback : S → Handler → ℕ → S × List Action × Verdict
  pub cleanup : S → Handler → S × List Removal

-- A read through a handler that was freed, and freeing it again, is a fault.
pub data Looping (S : Type 0) : Type 0 where
  looping : S → AsyncDescr → Looping S
  returned : ℤ → S → AsyncDescr → Looping S
  fault : Looping S

module _ (sys : System) {S : Type 0} (client : Client S) where
  abbrev pub act : Action → AsyncDescr → AsyncDescr
  act (add fd given) d = (lxc_mainloop_add_handler_events sys fd given d).1
  act (take_out x) d = remove x d

  unfoldable pub act_all : List Action → AsyncDescr → AsyncDescr
  unfolding lxc_mainloop_add_handler_events lxc_mainloop_del_handler close_in_epoll
  act_all [] d = d
  act_all (a ∷ actions) d = act_all actions (act a d)

  -- The end of delete_handler, behind the cleanup.
  abbrev pub freed : ℕ → S → AsyncDescr → Looping S
  freed id s d = if any (with_id id) d.handlers then looping s (delete_handler id d) else fault

  abbrev pub cleaned : Handler → S × List Removal → AsyncDescr → Looping S
  cleaned h (s, removals) d = freed h.id s (remove_all removals d)

  abbrev pub disarmed : Handler → S → AsyncDescr → Option AsyncDescr → Looping S
  disarmed h s d none = looping s d
  disarmed h s d (some d') = cleaned h (client.cleanup s h) d'

  -- disarm_handler, and delete_handler where that succeeds.
  unfoldable pub cleanup_handler : Handler → S → AsyncDescr → Looping S
  unfolding epoll_del without remove_all
  cleanup_handler h s d = disarmed h s d (epoll_del h.fd d)

  -- The handler is read again behind its callback.
  abbrev pub disarm_found : S → AsyncDescr → Option Handler → Looping S
  disarm_found s d none = fault
  disarm_found s d (some h) = cleanup_handler h s d

  abbrev pub on_verdict : ℕ → S → AsyncDescr → Verdict → Looping S
  on_verdict id s d continue = looping s d
  on_verdict id s d disarm = disarm_found s d (find (with_id id) d.handlers)
  on_verdict id s d close = returned (pos 0) s d
  on_verdict id s d error = returned (negsuc 0) s d

  abbrev pub called : ℕ → AsyncDescr → S × List Action × Verdict → Looping S
  called id d (s, actions, verdict) = on_verdict id s (act_all actions d) verdict

  abbrev pub on_event : ℕ × ℕ → S → AsyncDescr → Option Handler → Looping S
  on_event (id, events) s d none = fault
  on_event (id, events) s d (some h) = called id d (client.callback s h events)

  unfoldable pub run_events : List (ℕ × ℕ) → Looping S → Looping S
  unfolding act_all find cleanup_handler
  run_events es (returned n s d) = returned n s d
  run_events es fault = fault
  run_events [] (looping s d) = looping s d
  run_events (e ∷ es) (looping s d) = run_events es (on_event e s d (find (with_id e.0) d.handlers))

  abbrev pub is_done : List (ℕ × ℕ) → List Handler → Bool
  is_done [] handlers = true
  is_done (e ∷ es) [] = true
  is_done (e ∷ es) (h ∷ handlers) = false

  -- Behind the events: nothing was ready, or no handler is left.
  abbrev pub behind_events : List (ℕ × ℕ) → Looping S → Looping S
  behind_events es (looping s d) =
      if is_done es d.handlers then returned (pos 0) s d else looping s d
  behind_events es (returned n s d) = returned n s d
  behind_events es fault = fault

  abbrev pub waited : S → AsyncDescr → Wait → Looping S
  waited s d interrupted = looping s d
  waited s d (failed e) = returned (negsuc (e - 1)) s d
  waited s d (ready es) = behind_events es (run_events es (looping s d))

  -- The first rounds of lxc_mainloop; `looping` is a loop that goes on.
  unfoldable pub lxc_mainloop : ℕ → Looping S → Looping S
  unfolding run_events
  lxc_mainloop n (returned r s d) = returned r s d
  lxc_mainloop n fault = fault
  lxc_mainloop zero (looping s d) = looping s d
  lxc_mainloop (suc n) (looping s d) = lxc_mainloop n (waited s d (sys.epoll_wait n d))
