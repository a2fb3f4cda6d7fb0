-- ===== src/Mainloop/Alive.antt =====
-- When the event loop reads through a handler that was freed.
use lxc.Base.{
  ℕ, zero, suc, ◌≡◌, refl, sym, pos, List, [], ◌∷◌, Bool, true, false, ◌==◌, ==_iff, any, any-cons,
  some, if◌then◌else◌, All, Bool-cases, inl, inr,
}
use mathlib.Core.Path.{subst}
use lxc.Mainloop.{
  Handler, AsyncDescr, System, Wait, ready, interrupted, failed, with_id, with_fd, epoll_del,
  Action, Removal, find, without, delete_handler, remove_all, cleaned, cleanup_handler, Verdict,
  continue, disarm, close, error, Client, Looping, looping, returned, fault, act_all, on_verdict,
  on_event, run_events, is_done, behind_events, waited, lxc_mainloop,
}
use mathlib.Core.Bool.{false≢true}
use lxc.Mainloop.Handlers.{IsRegistered, IsIn, find-holds}
use lxc.Mainloop.Kept.{
  IsAdd, IsClose, any-find, any-without, act_all_alive, remove_all_alive, find-any,
}
use lxc.Mainloop.Registered.{IsFresh, Keeps, waited-Keeps}

-- Every event is for a handler of the loop.
abbrev pub AreAlive : List (ℕ × ℕ) → List Handler → Type 0
AreAlive es hs = All (λ e. any (with_id e.0) hs ≡ true) es

-- No two events are for one handler.
abbrev pub AreDistinct : List (ℕ × ℕ) → Type 0
AreDistinct [] = Unit
AreDistinct (e ∷ es) = All (λ e'. (e.0 == e'.0) ≡ false) es × AreDistinct es

-- epoll_wait returns at most one event for each descriptor of the instance, with what it was added for.
abbrev pub IsDocumented : System → Type 0
IsDocumented sys =
    (n : ℕ) (d : AsyncDescr) (es : List (ℕ × ℕ))
    → sys.epoll_wait n d ≡ ready es
    → AreDistinct es × AreAlive es d.epoll

-- The callbacks and the cleanups delete no handler; they may close descriptors.
pub record OnlyAdds {S : Type 0} (client : Client S) : Type 0 where
  pub callbacks : (s : S) (h : Handler) (events : ℕ) → All IsAdd (client.callback s h events).1
  pub cleanups : (s : S) (h : Handler) → All IsClose (client.cleanup s h).1

abbrev pub IsFine : {S : Type 0} → Looping S → Type 0
IsFine (looping s d) = Unit
IsFine (returned n s d) = Unit
IsFine fault = ⊥

-- What the epoll instance points to is a handler of the loop.
IsIn-any :
    (i : ℕ) (es hs : List Handler)
    → All (IsIn hs) es
    → any (with_id i) es ≡ true
    → any (with_id i) hs ≡ true
IsIn-any i [] hs a e = absurd (false≢true e)
IsIn-any i (x ∷ es) hs (a, as') e = elim (Bool-cases (with_id i x)) [
  | inl t ↦
      find-any (with_id i) hs x (subst (λ k. find (with_id k) hs ≡ some x) ((==_iff x.id i).0 t) a)
  | inr t ↦ IsIn-any i es hs as' (rw (any-cons (with_id i) x es, t) at e)
]

allocated_alive :
    (es : List (ℕ × ℕ)) (d : AsyncDescr)
    → IsRegistered d
    → AreAlive es d.epoll
    → AreAlive es d.handlers
allocated_alive [] d r a = tt
allocated_alive (e ∷ es) d r (a, as') =
    (IsIn-any e.0 d.epoll d.handlers r.allocated a, allocated_alive es d r as')

module _ (sys : System) {S : Type 0} (client : Client S) where
  module _ (only : OnlyAdds client) where
    -- The goal behind one event.
    GoesOn : List (ℕ × ℕ) → Type 0
    GoesOn es =
        (s : S) (d : AsyncDescr)
        → AreAlive es d.handlers
        → IsFine (run_events sys client es (looping s d))

    -- Behind a cleanup, for the events of other handlers.
    All-cleaned :
        (id : ℕ) (es : List (ℕ × ℕ)) (removals : List Removal) (d : AsyncDescr)
        → All IsClose removals
        → All (λ e'. (id == e'.0) ≡ false) es
        → AreAlive es d.handlers
        → AreAlive es (delete_handler id (remove_all removals d)).handlers
    All-cleaned id [] removals d k n a = tt
    All-cleaned id (e ∷ es) removals d k (n, ns) (a, as') = (
      any-without id e.0 (remove_all removals d).handlers n (remove_all_alive e.0 removals d k a),
      All-cleaned id es removals d k ns as',
    )

    cleaned-IsFine :
        (es : List (ℕ × ℕ)) (h : Handler) (c : S × List Removal) (d : AsyncDescr)
        → GoesOn es
        → All IsClose c.1
        → All (λ e'. (h.id == e'.0) ≡ false) es
        → any (with_id h.id) d.handlers ≡ true
        → AreAlive es d.handlers
        → IsFine (run_events sys client es (cleaned sys client h c d))
    unfolding GoesOn
    cleaned-IsFine es h (s, removals) d go k n a as' = rw (remove_all_alive h.id removals d k a) (
        go s (delete_handler h.id (remove_all removals d)) (All-cleaned h.id es removals d k n as'))

    cleanup_handler-IsFine :
        (es : List (ℕ × ℕ)) (s : S) (h : Handler) (d : AsyncDescr)
        → GoesOn es
        → All (λ e'. (h.id == e'.0) ≡ false) es
        → any (with_id h.id) d.handlers ≡ true
        → AreAlive es d.handlers
        → IsFine (run_events sys client es (cleanup_handler sys client h s d))
    unfolding cleanup_handler epoll_del GoesOn
    cleanup_handler-IsFine es s h d go n a as' = elim (Bool-cases (any (with_fd h.fd) d.epoll)) [
      | inl k ↦ rw k (
          cleaned-IsFine es h (client.cleanup s h)
            (record d { epoll = without (with_fd h.fd) d.epoll }) go (only.cleanups s h) n a as')
      | inr k ↦ rw k (go s d as')
    ]

    All-act :
        (es : List (ℕ × ℕ)) (actions : List Action) (d : AsyncDescr)
        → All IsAdd actions
        → AreAlive es d.handlers
        → AreAlive es (act_all sys client actions d).handlers
    All-act [] actions d k a = tt
    All-act (e ∷ es) actions d k (a, as') =
        (act_all_alive sys client e.0 actions d k a, All-act es actions d k as')

    on_verdict-IsFine :
        (id : ℕ) (es : List (ℕ × ℕ)) (s : S) (d : AsyncDescr) (v : Verdict)
        → GoesOn es
        → All (λ e'. (id == e'.0) ≡ false) es
        → any (with_id id) d.handlers ≡ true
        → AreAlive es d.handlers
        → IsFine (run_events sys client es (on_verdict sys client id s d v))
    unfolding run_events GoesOn
    on_verdict-IsFine id es s d continue go n a as' = go s d as'
    on_verdict-IsFine id es s d close go n a as' = tt
    on_verdict-IsFine id es s d error go n a as' = tt
    on_verdict-IsFine id es s d disarm go n a as' =
        let found = any-find (with_id id) d.handlers a in
        let same_id =
          (==_iff found.0.id id).0 (find-holds (with_id id) d.handlers found.0 found.1) in
        rw found.1 (
          cleanup_handler-IsFine es s found.0 d go
            (subst (λ i. All (λ e'. (i == e'.0) ≡ false) es) (sym same_id) n)
            (subst (λ i. any (with_id i) d.handlers ≡ true) (sym same_id) a) as')

    run_events-IsFine : (es : List (ℕ × ℕ)) → AreDistinct es → GoesOn es
    unfolding run_events GoesOn
    run_events-IsFine [] n s d a = tt
    run_events-IsFine (e ∷ es) (n, ns) s d (a, as') =
        let found = any-find (with_id e.0) d.handlers a in
        let c = client.callback s found.0 e.1 in
        let adds = only.callbacks s found.0 e.1 in
        subst (λ o. IsFine (run_events sys client es (on_event sys client e s d o))) (sym found.1)
          (on_verdict-IsFine e.0 es c.0 (act_all sys client c.1 d) c.2 (run_events-IsFine es ns) n
            (act_all_alive sys client e.0 c.1 d adds a) (All-act es c.1 d adds as'))

    done_IsFine :
        (b : Bool) (s : S) (d : AsyncDescr)
        → IsFine (if b then returned (pos 0) s d else looping s d)
    done_IsFine true s d = tt
    done_IsFine false s d = tt

    behind_events-IsFine :
        (es : List (ℕ × ℕ)) (l : Looping S) → IsFine l → IsFine (behind_events sys client es l)
    behind_events-IsFine es (returned n s d) f = tt
    behind_events-IsFine es (looping s d) f = done_IsFine (is_done sys client es d.handlers) s d
    behind_events-IsFine es fault f = absurd f

    module _ (documented : IsDocumented sys) (fresh : IsFresh sys) where
      answered-IsFine :
          (n : ℕ) (s : S) (d : AsyncDescr) (w : Wait)
          → IsRegistered d
          → sys.epoll_wait n d ≡ w
          → IsFine (waited sys client s d w)
      unfolding GoesOn
      answered-IsFine n s d interrupted r e = tt
      answered-IsFine n s d (failed k) r e = tt
      answered-IsFine n s d (ready es) r e =
          let good = documented n d es e in
          behind_events-IsFine es (run_events sys client es (looping s d))
            (run_events-IsFine es good.0 s d (allocated_alive es d r good.1))

      -- Where zalloc returns addresses that are not in use, epoll_wait returns only what is in the
      -- instance, each handler once, and neither callbacks nor cleanups delete a handler by
      -- lxc_mainloop_del_handler: lxc_mainloop never reads through a handler that was freed, and frees
      -- none twice, from any loop whose epoll instance points only to its handlers, whatever the
      -- callbacks add, whatever callbacks and cleanups close, and whatever the callbacks return.
      pub lxc_mainloop-IsFine :
          (n : ℕ) (l : Looping S) → Keeps l → IsFine l → IsFine (lxc_mainloop sys client n l)
      unfolding lxc_mainloop
      lxc_mainloop-IsFine n (returned m s d) r f = tt
      lxc_mainloop-IsFine n fault r f = absurd f
      lxc_mainloop-IsFine zero (looping s d) r f = tt
      lxc_mainloop-IsFine (suc n) (looping s d) r f =
          lxc_mainloop-IsFine n (waited sys client s d (sys.epoll_wait n d))
            (waited-Keeps sys client fresh s d (sys.epoll_wait n d) r)
            (answered-IsFine n s d (sys.epoll_wait n d) r refl)
