-- ===== src/Mainloop/Handlers.antt =====
-- Lists of handlers with addresses of their own, and the handlers that an epoll instance points to.
use lxc.Base.{
  ℕ, some-injective, none-ne-some, eq_self, eq_swap, ==_iff, ◌≡◌, ◌⊎◌, refl, sym, ap, ◌∙◌, List, [],
  ◌∷◌, ◌++◌, Bool, true, false, ◌==◌, none, some, All, Bool-cases, inl, inr,
}
use mathlib.Core.Path.{subst}
use mathlib.Core.Bool.{false≢true}
use lxc.Mainloop.{Handler, AsyncDescr, with_id, with_fd, find, without}

abbrev pub IsDistinct : List Handler → Type 0
IsDistinct [] = Unit
IsDistinct (h ∷ hs) = All (λ k. with_id h.id k ≡ false) hs × IsDistinct hs

-- The handler is at its address in the list.
abbrev pub IsIn : List Handler → Handler → Type 0
IsIn hs e = find (with_id e.id) hs ≡ some e

-- The handlers of the loop have addresses of their own, and all that the epoll instance points to is
-- a handler of the loop, for the descriptor that it was added for.
pub record IsRegistered (d : AsyncDescr) : Type 0 where
  pub distinct : IsDistinct d.handlers
  pub allocated : All (IsIn d.handlers) d.epoll

find-cases :
    (p : Handler → Bool) (k : Handler) (hs : List Handler) (h : Handler)
    → find p (k ∷ hs) ≡ some h
    → ((k ≡ h) × (p k ≡ true)) ⊎ ((p k ≡ false) × (find p hs ≡ some h))
unfolding find
find-cases p k hs h e = elim (Bool-cases (p k)) [
  | inl t ↦ inl (some-injective k h (rw t at e), t)
  | inr t ↦ inr (t, rw t at e)
]

pub find-holds :
    (p : Handler → Bool) (hs : List Handler) (h : Handler) → find p hs ≡ some h → p h ≡ true
unfolding find
find-holds p [] h e = absurd (none-ne-some h e)
find-holds p (k ∷ hs) h e = elim (find-cases p k hs h e) [
  | inl (s, t) ↦ ap p (sym s) ∙ t
  | inr (t, e') ↦ find-holds p hs h e'
]

find-All :
    (P : Handler → Type 0) (p : Handler → Bool) (hs : List Handler) (h : Handler)
    → All P hs
    → find p hs ≡ some h
    → P h
unfolding find
find-All P p [] h a e = absurd (none-ne-some h e)
find-All P p (k ∷ hs) h (a, as') e = elim (find-cases p k hs h e) [
  | inl (s, t) ↦ subst P s a
  | inr (t, e') ↦ find-All P p hs h as' e'
]

-- A handler that is found is the one at its address.
pub find-IsIn :
    (p : Handler → Bool) (hs : List Handler) (h : Handler)
    → IsDistinct hs
    → find p hs ≡ some h
    → IsIn hs h
unfolding find
find-IsIn p [] h d e = absurd (none-ne-some h e)
find-IsIn p (k ∷ hs) h (a, d) e = elim (find-cases p k hs h e) [
  | inl (s, t) ↦
      let own : with_id h.id k ≡ true = ap (λ x. k.id == x.id) (sym s) ∙ eq_self k.id in
      rw own (ap some s)
  | inr (t, e') ↦
      let other : with_id h.id k ≡ false =
        eq_swap h.id k.id (find-All (λ x. with_id k.id x ≡ false) p hs h a e') in
      rw other (find-IsIn p hs h d e')
]

pub All-without :
    (P : Handler → Type 0) (p : Handler → Bool) (hs : List Handler)
    → All P hs
    → All P (without p hs)
unfolding without
All-without P p [] a = tt
All-without P p (k ∷ hs) (a, as') = elim (Bool-cases (p k)) [
  | inl t ↦ rw t (All-without P p hs as')
  | inr t ↦ rw t (a, All-without P p hs as')
]

pub without-IsDistinct :
    (p : Handler → Bool) (hs : List Handler) → IsDistinct hs → IsDistinct (without p hs)
unfolding without
without-IsDistinct p [] d = tt
without-IsDistinct p (k ∷ hs) (a, d) = elim (Bool-cases (p k)) [
  | inl t ↦ rw t (without-IsDistinct p hs d)
  | inr t ↦ rw t (All-without (λ x. with_id k.id x ≡ false) p hs a, without-IsDistinct p hs d)
]

-- Another address.
abbrev pub IsApart : ℕ → Handler → Type 0
IsApart i e = with_id i e ≡ false

same_address :
    (hs : List Handler) (h e : Handler) → IsIn hs h → IsIn hs e → with_id h.id e ≡ true → h ≡ e
same_address hs h e ih ie t =
    some-injective h e (sym ih ∙ ap (λ i. find (with_id i) hs) (sym ((==_iff e.id h.id).0 t)) ∙ ie)

other_fd-IsApart :
    (hs : List Handler) (h e : Handler)
    → IsIn hs h
    → IsIn hs e
    → with_fd h.fd e ≡ false
    → IsApart h.id e
other_fd-IsApart hs h e i a t = elim (Bool-cases (with_id h.id e)) [
  | inr other ↦ other
  | inl own ↦ absurd (
      false≢true (
        sym t
        ∙ ap (λ (x : Handler). x.fd == h.fd) (sym (same_address hs h e i a own))
        ∙ eq_self h.fd))
]

-- What the instance has behind the removal of the descriptor of a handler is at other addresses.
pub without-IsApart :
    (hs es : List Handler) (h : Handler)
    → IsIn hs h
    → All (IsIn hs) es
    → All (IsApart h.id) (without (with_fd h.fd) es)
unfolding without
without-IsApart hs [] h i a = tt
without-IsApart hs (e ∷ es) h i (a, as') = elim (Bool-cases (with_fd h.fd e)) [
  | inl t ↦ rw t (without-IsApart hs es h i as')
  | inr t ↦ rw t (other_fd-IsApart hs h e i a t, without-IsApart hs es h i as')
]

find-without_other :
    (i : ℕ) (hs : List Handler) (e : Handler)
    → IsApart i e
    → IsIn hs e
    → IsIn (without (with_id i) hs) e
unfolding find without
find-without_other i [] e n h = h
find-without_other i (k ∷ hs) e n h = elim (find-cases (with_id e.id) k hs e h) [
  | inl (s, t) ↦ rw (ap (with_id i) s ∙ n, t) (ap some s)
  | inr (t, h') ↦ elim (Bool-cases (with_id i k)) [
    | inl own ↦ rw own (find-without_other i hs e n h')
    | inr other ↦ rw (other, t) (find-without_other i hs e n h')
  ]
]

pub freed-allocated :
    (i : ℕ) (hs es : List Handler)
    → All (IsApart i) es
    → All (IsIn hs) es
    → All (IsIn (without (with_id i) hs)) es
freed-allocated i hs [] n a = tt
freed-allocated i hs (e ∷ es) (n, ns) (a, as') =
    (find-without_other i hs e n a, freed-allocated i hs es ns as')

pub All-concat :
    (P : Handler → Type 0) (hs : List Handler) (k : Handler) → All P hs → P k → All P (hs ++ k ∷ [])
All-concat P [] k a b = (b, tt)
All-concat P (h ∷ hs) k (a, as') b = (a, All-concat P hs k as' b)

find-concat :
    (p : Handler → Bool) (h k : Handler) (hs : List Handler)
    → find p (h ∷ hs) ≡ none
    → (p h ≡ false) × (find p hs ≡ none)
unfolding find
find-concat p h k hs e = elim (Bool-cases (p h)) [
  | inl t ↦ absurd (none-ne-some h (sym (rw t at e)))
  | inr t ↦ (t, rw t at e)
]

pub concat-IsDistinct :
    (hs : List Handler) (k : Handler)
    → IsDistinct hs
    → find (with_id k.id) hs ≡ none
    → IsDistinct (hs ++ k ∷ [])
concat-IsDistinct [] k d i = (tt, tt)
concat-IsDistinct (h ∷ hs) k (a, d) i =
    let id = find-concat (with_id k.id) h k hs i in
    (
      All-concat (λ x. with_id h.id x ≡ false) hs k a (eq_swap h.id k.id id.0),
      concat-IsDistinct hs k d id.1,
    )

-- The new handler and the others in the longer list.
pub concat-IsIn : (hs : List Handler) (k e : Handler) → IsIn hs e → IsIn (hs ++ k ∷ []) e
unfolding find
concat-IsIn [] k e i = absurd (none-ne-some e i)
concat-IsIn (h ∷ hs) k e i = elim (find-cases (with_id e.id) h hs e i) [
  | inl (s, t) ↦ rw t (ap some s)
  | inr (t, i') ↦ rw t (concat-IsIn hs k e i')
]

pub concat-last :
    (hs : List Handler) (k : Handler) → find (with_id k.id) hs ≡ none → IsIn (hs ++ k ∷ []) k
unfolding find
concat-last [] k n = rw (eq_self k.id) refl
concat-last (h ∷ hs) k n =
    let both = find-concat (with_id k.id) h k hs n in rw both.0 (concat-last hs k both.1)

pub All-map :
    (P Q : Handler → Type 0) (hs : List Handler) → ((h : Handler) → P h → Q h) → All P hs → All Q hs
All-map P Q [] f a = tt
All-map P Q (h ∷ hs) f (a, as') = (f h a, All-map P Q hs f as')
