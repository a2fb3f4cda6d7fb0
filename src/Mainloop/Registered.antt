-- ===== src/Mainloop/Registered.antt =====
-- What the epoll instance of an event loop points to.
use lxc.Base.{
  ℕ, zero, suc, ◌≡◌, sym, refl, ◌⊎◌, ◌||◌, All, pos, negsuc, List, [], ◌∷◌, ◌++◌, Bool, true, false,
  ==_iff, Option, none, some, any, if◌then◌else◌, Bool-cases, Option-cases, inl, inr,
}
use mathlib.Core.Path.{subst}
use lxc.Mainloop.{
  Handler, AsyncDescr, System, with_id, with_fd, find, without, epoll_del, delete_handler, Action,
  add, take_out, Removal, delete_fd, close_fd, remove, remove_all, close_in_epoll, freed, cleaned,
  add_new, lxc_mainloop_add_handler_events, lxc_mainloop_del_handler, cleanup_handler, Client, act,
  act_all, Verdict, continue, disarm, close, error, Looping, looping, returned, fault, disarm_found,
  on_verdict, on_event, run_events, is_done, behind_events, waited, Wait, ready, interrupted,
  failed, lxc_mainloop,
}
use lxc.Mainloop.Handlers.{
  IsRegistered, IsIn, IsApart, find-holds, find-IsIn, All-without, without-IsDistinct,
  without-IsApart, freed-allocated, concat-IsDistinct, All-concat, All-map, concat-IsIn,
  concat-last,
}

-- zalloc returns an address that is not in use.
abbrev pub IsFresh : System → Type 0
IsFresh sys = (d : AsyncDescr) → find (with_id (sys.zalloc d)) d.handlers ≡ none

added-IsRegistered :
    (sys : System) (fd : ℕ) (d : AsyncDescr)
    → IsFresh sys
    → IsRegistered d
    → IsRegistered (add_new sys fd d).1
unfolding add_new
added-IsRegistered sys fd d fresh r =
    let k : Handler = record { id = sys.zalloc d; fd = fd } in
    let hs = d.handlers in
    elim (Bool-cases (any (with_fd fd) d.epoll || sys.refuses fd)) [
      | inl e ↦ rw e r
      | inr e ↦ rw e (record {
        distinct = concat-IsDistinct hs k r.distinct (fresh d);
        allocated =
            All-concat (IsIn (hs ++ k ∷ [])) d.epoll k
              (All-map (IsIn hs) (IsIn (hs ++ k ∷ [])) d.epoll (λ e i. concat-IsIn hs k e i)
                r.allocated)
              (concat-last hs k (fresh d));
      })
    ]

-- A handler without a descriptor in the instance is freed.
freed-IsRegistered :
    (id : ℕ) (d : AsyncDescr)
    → All (IsApart id) d.epoll
    → IsRegistered d
    → IsRegistered (delete_handler id d)
freed-IsRegistered id d n r = record {
  distinct = without-IsDistinct (with_id id) d.handlers r.distinct;
  allocated = freed-allocated id d.handlers d.epoll n r.allocated;
}

-- A descriptor is taken out of the instance.
without-IsRegistered :
    (p : Handler → Bool) (d : AsyncDescr)
    → IsRegistered d
    → IsRegistered (record d { epoll = without p d.epoll })
without-IsRegistered p d r = record {
  distinct = r.distinct;
  allocated = All-without (IsIn d.handlers) p d.epoll r.allocated;
}

deleted-IsRegistered :
    (fd : ℕ) (d : AsyncDescr) → IsRegistered d → IsRegistered (lxc_mainloop_del_handler fd d).1
unfolding lxc_mainloop_del_handler epoll_del
deleted-IsRegistered fd d r = elim (Option-cases (find (with_fd fd) d.handlers)) [
  | inl e ↦ rw e r
  | inr (h, e) ↦
      let own = find-IsIn (with_fd fd) d.handlers h r.distinct e in
      let same_fd = (==_iff h.fd fd).0 (find-holds (with_fd fd) d.handlers h e) in
      elim (Bool-cases (any (with_fd fd) d.epoll)) [
        | inl k ↦
            rw (e, k)
              (freed-IsRegistered h.id (record d { epoll = without (with_fd fd) d.epoll })
                (subst (λ f. All (IsApart h.id) (without (with_fd f) d.epoll)) same_fd
                  (without-IsApart d.handlers d.epoll h own r.allocated))
                (without-IsRegistered (with_fd fd) d r))
        | inr k ↦ rw (e, k) r
      ]
]

remove-IsRegistered : (x : Removal) (d : AsyncDescr) → IsRegistered d → IsRegistered (remove x d)
unfolding close_in_epoll
remove-IsRegistered (delete_fd fd) d r = deleted-IsRegistered fd d r
remove-IsRegistered (close_fd fd) d r = without-IsRegistered (with_fd fd) d r

remove_all-IsRegistered :
    (removals : List Removal) (d : AsyncDescr)
    → IsRegistered d
    → IsRegistered (remove_all removals d)
unfolding remove_all
remove_all-IsRegistered [] d r = r
remove_all-IsRegistered (x ∷ removals) d r =
    remove_all-IsRegistered removals (remove x d) (remove-IsRegistered x d r)

-- Removals bring no handler into the instance.
deleted-epoll :
    (fd : ℕ) (d : AsyncDescr)
    → ((lxc_mainloop_del_handler fd d).1.epoll ≡ d.epoll)
      ⊎ ((lxc_mainloop_del_handler fd d).1.epoll ≡ without (with_fd fd) d.epoll)
unfolding lxc_mainloop_del_handler epoll_del
deleted-epoll fd d = elim (Option-cases (find (with_fd fd) d.handlers)) [
  | inl e ↦ rw e (inl refl)
  | inr (h, e) ↦ elim (Bool-cases (any (with_fd fd) d.epoll)) [
    | inl k ↦ rw (e, k) (inr refl)
    | inr k ↦ rw (e, k) (inl refl)
  ]
]

remove-All :
    (P : Handler → Type 0) (x : Removal) (d : AsyncDescr) → All P d.epoll → All P (remove x d).epoll
unfolding close_in_epoll
remove-All P (close_fd fd) d a = All-without P (with_fd fd) d.epoll a
remove-All P (delete_fd fd) d a = elim (deleted-epoll fd d) [
  | inl e ↦ subst (All P) (sym e) a
  | inr e ↦ subst (All P) (sym e) (All-without P (with_fd fd) d.epoll a)
]

remove_all-All :
    (P : Handler → Type 0) (removals : List Removal) (d : AsyncDescr)
    → All P d.epoll
    → All P (remove_all removals d).epoll
unfolding remove_all
remove_all-All P [] d a = a
remove_all-All P (x ∷ removals) d a = remove_all-All P removals (remove x d) (remove-All P x d a)

module _ (sys : System) {S : Type 0} (client : Client S) (fresh : IsFresh sys) where
  act-IsRegistered :
      (a : Action) (d : AsyncDescr) → IsRegistered d → IsRegistered (act sys client a d)
  unfolding lxc_mainloop_add_handler_events
  act-IsRegistered (add (negsuc n) given) d r = r
  act-IsRegistered (add (pos fd) false) d r = r
  act-IsRegistered (add (pos fd) true) d r = added-IsRegistered sys fd d fresh r
  act-IsRegistered (take_out x) d r = remove-IsRegistered x d r

  pub act_all-IsRegistered :
      (actions : List Action) (d : AsyncDescr)
      → IsRegistered d
      → IsRegistered (act_all sys client actions d)
  unfolding act_all
  act_all-IsRegistered [] d r = r
  act_all-IsRegistered (a ∷ actions) d r =
      act_all-IsRegistered actions (act sys client a d) (act-IsRegistered a d r)

-- The loop is registered, unless there was a fault.
abbrev pub Keeps : {S : Type 0} → Looping S → Type 0
Keeps (looping s d) = IsRegistered d
Keeps (returned n s d) = IsRegistered d
Keeps fault = Unit

module _ (sys : System) {S : Type 0} (client : Client S) (fresh : IsFresh sys) where
  freed-Keeps :
      (id : ℕ) (s : S) (d : AsyncDescr)
      → All (IsApart id) d.epoll
      → IsRegistered d
      → Keeps (freed sys client id s d)
  freed-Keeps id s d n r = elim (Bool-cases (any (with_id id) d.handlers)) [
    | inl e ↦ rw e (freed-IsRegistered id d n r)
    | inr e ↦ rw e tt
  ]

  cleaned-Keeps :
      (h : Handler) (c : S × List Removal) (d : AsyncDescr)
      → All (IsApart h.id) d.epoll
      → IsRegistered d
      → Keeps (cleaned sys client h c d)
  cleaned-Keeps h (s, removals) d n r =
      freed-Keeps h.id s (remove_all removals d) (remove_all-All (IsApart h.id) removals d n)
        (remove_all-IsRegistered removals d r)

  cleanup_handler-Keeps :
      (h : Handler) (s : S) (d : AsyncDescr)
      → IsIn d.handlers h
      → IsRegistered d
      → Keeps (cleanup_handler sys client h s d)
  unfolding cleanup_handler epoll_del
  cleanup_handler-Keeps h s d i r = elim (Bool-cases (any (with_fd h.fd) d.epoll)) [
    | inl k ↦ rw k (
        cleaned-Keeps h (client.cleanup s h) (record d { epoll = without (with_fd h.fd) d.epoll })
          (without-IsApart d.handlers d.epoll h i r.allocated)
          (without-IsRegistered (with_fd h.fd) d r))
    | inr k ↦ rw k r
  ]

  done_Keeps :
      (b : Bool) (s : S) (d : AsyncDescr)
      → IsRegistered d
      → Keeps (if b then returned (pos 0) s d else looping s d)
  done_Keeps true s d r = r
  done_Keeps false s d r = r

  disarm_found-Keeps :
      (id : ℕ) (s : S) (d : AsyncDescr)
      → IsRegistered d
      → Keeps (disarm_found sys client s d (find (with_id id) d.handlers))
  disarm_found-Keeps id s d r = elim (Option-cases (find (with_id id) d.handlers)) [
    | inl e ↦ rw e tt
    | inr (h, e) ↦
        rw e (cleanup_handler-Keeps h s d (find-IsIn (with_id id) d.handlers h r.distinct e) r)
  ]

  on_verdict-Keeps :
      (id : ℕ) (s : S) (d : AsyncDescr) (v : Verdict)
      → IsRegistered d
      → Keeps (on_verdict sys client id s d v)
  on_verdict-Keeps id s d continue r = r
  on_verdict-Keeps id s d disarm r = disarm_found-Keeps id s d r
  on_verdict-Keeps id s d close r = r
  on_verdict-Keeps id s d error r = r

  on_event-Keeps :
      (e : ℕ × ℕ) (s : S) (d : AsyncDescr) (h : Option Handler)
      → IsRegistered d
      → Keeps (on_event sys client e s d h)
  on_event-Keeps (id, events) s d none r = tt
  on_event-Keeps (id, events) s d (some h) r =
      let c = client.callback s h events in
      on_verdict-Keeps id c.0 (act_all sys client c.1 d) c.2
        (act_all-IsRegistered sys client fresh c.1 d r)

  run_events-Keeps :
      (es : List (ℕ × ℕ)) (l : Looping S) → Keeps l → Keeps (run_events sys client es l)
  unfolding run_events
  run_events-Keeps es (returned n s d) r = r
  run_events-Keeps es fault r = tt
  run_events-Keeps [] (looping s d) r = r
  run_events-Keeps (e ∷ es) (looping s d) r =
      run_events-Keeps es (on_event sys client e s d (find (with_id e.0) d.handlers))
        (on_event-Keeps e s d (find (with_id e.0) d.handlers) r)

  behind_events-Keeps :
      (es : List (ℕ × ℕ)) (l : Looping S) → Keeps l → Keeps (behind_events sys client es l)
  behind_events-Keeps es (returned n s d) r = r
  behind_events-Keeps es fault r = tt
  behind_events-Keeps es (looping s d) r = done_Keeps (is_done sys client es d.handlers) s d r

  pub waited-Keeps :
      (s : S) (d : AsyncDescr) (w : Wait) → IsRegistered d → Keeps (waited sys client s d w)
  waited-Keeps s d interrupted r = r
  waited-Keeps s d (failed n) r = r
  waited-Keeps s d (ready es) r =
      behind_events-Keeps es (run_events sys client es (looping s d))
        (run_events-Keeps es (looping s d) r)

  -- Where zalloc returns addresses that are not in use: from a loop whose handlers have addresses of
  -- their own, and whose epoll instance points only to handlers of the loop, every number of rounds of
  -- lxc_mainloop comes to such a loop again, so that no descriptor is left with a handler that was
  -- freed; or it reads or frees a handler that was freed. This is so whatever the callbacks add, delete
  -- and close, whatever the cleanups delete and close, and whatever epoll_wait and epoll_ctl answer.
  pub lxc_mainloop-IsRegistered :
      (n : ℕ) (l : Looping S) → Keeps l → Keeps (lxc_mainloop sys client n l)
  unfolding lxc_mainloop
  lxc_mainloop-IsRegistered n (returned m s d) r = r
  lxc_mainloop-IsRegistered n fault r = tt
  lxc_mainloop-IsRegistered zero (looping s d) r = r
  lxc_mainloop-IsRegistered (suc n) (looping s d) r =
      lxc_mainloop-IsRegistered n (waited sys client s d (sys.epoll_wait n d))
        (waited-Keeps s d (sys.epoll_wait n d) r)
