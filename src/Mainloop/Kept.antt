-- ===== src/Mainloop/Kept.antt =====
-- Handlers that stay in the loop.
use lxc.Base.{
  none-ne-some, ℕ, ◌≡◌, refl, ap, ◌∙◌, pos, negsuc, List, [], ◌∷◌, Bool, true, false, ◌||◌, ◌==◌,
  ==_iff, some, any, any-cons, any-append, All, Bool-cases, inl, inr,
}
use mathlib.Core.Bool.{false≢true}
use lxc.Mainloop.{
  Handler, AsyncDescr, System, with_id, with_fd, find, without, Action, add, take_out, Removal,
  delete_fd, close_fd, remove, remove_all, close_in_epoll, add_new, lxc_mainloop_add_handler_events,
  Client, act, act_all,
}

-- What takes no handler out of the loop.
abbrev pub IsClose : Removal → Type 0
IsClose (delete_fd fd) = ⊥
IsClose (close_fd fd) = Unit

abbrev pub IsAdd : Action → Type 0
IsAdd (add fd given) = Unit
IsAdd (take_out x) = IsClose x

pub any-find :
    (p : Handler → Bool) (hs : List Handler)
    → any p hs ≡ true
    → (h : Handler) × (find p hs ≡ some h)
unfolding find
any-find p [] e = absurd (false≢true e)
any-find p (h ∷ hs) e = elim (Bool-cases (p h)) [
  | inl t ↦ (h, rw t refl)
  | inr t ↦ let rest = any-find p hs (rw (any-cons p h hs, t) at e) in (rest.0, rw t rest.1)
]

pub find-any :
    (p : Handler → Bool) (hs : List Handler) (h : Handler) → find p hs ≡ some h → any p hs ≡ true
unfolding find
find-any p [] h e = absurd (none-ne-some h e)
find-any p (k ∷ hs) h e = elim (Bool-cases (p k)) [
  | inl t ↦ rw (any-cons p k hs, t) refl
  | inr t ↦ rw (any-cons p k hs, t) (find-any p hs h (rw t at e))
]

pub any-without :
    (i j : ℕ) (hs : List Handler)
    → (i == j) ≡ false
    → any (with_id j) hs ≡ true
    → any (with_id j) (without (with_id i) hs) ≡ true
unfolding without
any-without i j [] n e = e
any-without i j (h ∷ hs) n e =
    let both = any-cons (with_id j) h hs in
    elim (Bool-cases (with_id i h)) [
      | inl t ↦
          let other : with_id j h ≡ false = ap (λ x. x == j) ((==_iff h.id i).0 t) ∙ n in
          rw t (any-without i j hs n (rw (both, other) at e))
      | inr t ↦ elim (Bool-cases (with_id j h)) [
        | inl k ↦ rw (t, any-cons (with_id j) h (without (with_id i) hs), k) refl
        | inr k ↦
            rw (t, any-cons (with_id j) h (without (with_id i) hs), k)
              (any-without i j hs n (rw (both, k) at e))
      ]
    ]

close_alive :
    (i : ℕ) (x : Removal) (d : AsyncDescr)
    → IsClose x
    → any (with_id i) d.handlers ≡ true
    → any (with_id i) (remove x d).handlers ≡ true
unfolding close_in_epoll
close_alive i (delete_fd fd) d k e = absurd k
close_alive i (close_fd fd) d k e = e

pub remove_all_alive :
    (i : ℕ) (removals : List Removal) (d : AsyncDescr)
    → All IsClose removals
    → any (with_id i) d.handlers ≡ true
    → any (with_id i) (remove_all removals d).handlers ≡ true
unfolding remove_all
remove_all_alive i [] d k e = e
remove_all_alive i (x ∷ removals) d (k, ks) e =
    remove_all_alive i removals (remove x d) ks (close_alive i x d k e)

module _ (sys : System) {S : Type 0} (client : Client S) where
  add_alive :
      (i fd : ℕ) (d : AsyncDescr)
      → any (with_id i) d.handlers ≡ true
      → any (with_id i) (add_new sys fd d).1.handlers ≡ true
  unfolding add_new
  add_alive i fd d e =
      let new_handler : Handler = record { id = sys.zalloc d; fd = fd } in
      elim (Bool-cases (any (with_fd fd) d.epoll || sys.refuses fd)) [
        | inl t ↦ rw t e
        | inr t ↦ rw t (
            any-append (with_id i) d.handlers (new_handler ∷ [])
            ∙ ap (λ b. b || any (with_id i) (new_handler ∷ [])) e)
      ]

  act_alive :
      (i : ℕ) (a : Action) (d : AsyncDescr)
      → IsAdd a
      → any (with_id i) d.handlers ≡ true
      → any (with_id i) (act sys client a d).handlers ≡ true
  unfolding lxc_mainloop_add_handler_events
  act_alive i (add (negsuc n) given) d k e = e
  act_alive i (add (pos fd) false) d k e = e
  act_alive i (add (pos fd) true) d k e = add_alive i fd d e
  act_alive i (take_out x) d k e = close_alive i x d k e

  pub act_all_alive :
      (i : ℕ) (actions : List Action) (d : AsyncDescr)
      → All IsAdd actions
      → any (with_id i) d.handlers ≡ true
      → any (with_id i) (act_all sys client actions d).handlers ≡ true
  unfolding act_all
  act_all_alive i [] d k e = e
  act_all_alive i (a ∷ actions) d (k, ks) e =
      act_all_alive i actions (act sys client a d) ks (act_alive i a d k e)
