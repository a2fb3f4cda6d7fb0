-- ===== src/Mainloop/Freed.antt =====
-- A handler that is freed while its event waits.
use lxc.Base.{ℕ, ◌≡◌, refl, ap, ◌∙◌, List, [], ◌∷◌, true, none, some, any, Bool-cases, inl, inr}
use lxc.Mainloop.{
  Handler, AsyncDescr, System, with_id, with_fd, find, without, epoll_del, delete_handler, del,
  lxc_mainloop_del_handler, continue, Client, looping, fault, act_all, on_event, run_events,
}

find-without : (i : ℕ) (hs : List Handler) → find (with_id i) (without (with_id i) hs) ≡ none
unfolding find without
find-without i [] = refl
find-without i (h ∷ hs) = elim (Bool-cases (with_id i h)) [
  | inl t ↦ rw t (find-without i hs)
  | inr t ↦ rw (t, t) (find-without i hs)
]

del_accepted :
    (k : Handler) (d : AsyncDescr)
    → find (with_fd k.fd) d.handlers ≡ some k
    → any (with_fd k.fd) d.epoll ≡ true
    → (lxc_mainloop_del_handler k.fd d).1
      ≡ delete_handler k.id (record d { epoll = without (with_fd k.fd) d.epoll })
unfolding lxc_mainloop_del_handler epoll_del
del_accepted k d ek registered = rw (ek, registered) refl

-- Where the callback of a handler of the loop deletes the descriptor of a second one, which the epoll
-- instance has, and goes on, and the event of the second one is next: the loop reads through the second
-- handler, which was freed.
pub run_events-fault :
    (sys : System) {S : Type 0} (client : Client S) (s t : S) (h k : Handler) (a b : ℕ)
    (es : List (ℕ × ℕ)) (d : AsyncDescr)
    → find (with_id h.id) d.handlers ≡ some h
    → find (with_fd k.fd) d.handlers ≡ some k
    → any (with_fd k.fd) d.epoll ≡ true
    → client.callback s h a ≡ (t, del k.fd ∷ [], continue)
    → run_events sys client ((h.id, a) ∷ (k.id, b) ∷ es) (looping s d) ≡ fault
unfolding run_events act_all
run_events-fault sys client s t h k a b es d eh ek registered calls =
    let d' = delete_handler k.id (record d { epoll = without (with_fd k.fd) d.epoll }) in
    let first : on_event sys client (h.id, a) s d (find (with_id h.id) d.handlers) ≡ looping t d' =
      rw (eh, calls) (ap (looping t) (del_accepted k d ek registered)) in
    ap (run_events sys client ((k.id, b) ∷ es)) first
    ∙ ap (λ o. run_events sys client es (on_event sys client (k.id, b) t d' o))
        (find-without k.id d.handlers)
