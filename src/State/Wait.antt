-- ===== src/State/Wait.antt =====
-- How long lxc_wait waits.
use lxc.Base.{
  ℕ, zero, suc, ◌≡◌, refl, ◌∙◌, ◌⊎◌, inl, inr, ℤ, pos, negsuc, List, some, true, false,
  if◌then◌else◌, arith,
}
use lxc.State.{Answer, got_state, refused, failed, less, is_zero, is_waited, wait_loop, wait_for}

-- The first answer that is not a refusal, among as many as are asked for; -1 where there is none or
-- where it is an error.
abbrev pub first_answer : ℕ → (ℕ → Answer) → ℕ → ℤ
first_answer zero answer attempt = negsuc 0
first_answer (suc n) answer attempt = elim (answer attempt) [
  | got_state state ↦ pos state
  | failed ↦ negsuc 0
  | refused ↦ first_answer n answer (suc attempt)
]

Answer-cases : (a : Answer) → ((state : ℕ) × (a ≡ got_state state)) ⊎ ((a ≡ refused) ⊎ (a ≡ failed))
Answer-cases (got_state state) = inl (state, refl)
Answer-cases refused = inr (inl refl)
Answer-cases failed = inr (inr refl)

zero-timeout : is_zero (less (pos (suc zero))) ≡ true
unfolding is_zero less
zero-timeout = ground arith

more-timeout : (t : ℕ) → is_zero (less (pos (suc (suc t)))) ≡ false
unfolding is_zero less
more-timeout t = ground arith

wait_loop-refused :
    (t n attempt : ℕ) (answer : ℕ → Answer)
    → answer attempt ≡ refused
    → wait_loop (suc n) answer attempt (pos (suc t)) ≡ (
        if is_zero (less (pos (suc t)))
        then some (negsuc 0)
        else wait_loop n answer (suc attempt) (pos t))
unfolding less wait_loop is_zero
wait_loop-refused t n attempt answer e = rw (e, wait_loop) refl

answered-first :
    (t attempt : ℕ) (answer : ℕ → Answer)
    → ((state : ℕ) × (answer attempt ≡ got_state state)) ⊎ (answer attempt ≡ failed)
    → wait_loop (suc t) answer attempt (pos (suc t)) ≡ some (first_answer (suc t) answer attempt)
unfolding wait_loop
answered-first t attempt answer (inl (state, e)) = rw (e, wait_loop, first_answer) refl
answered-first t attempt answer (inr e) = rw (e, wait_loop, first_answer) refl

wait_loop-first :
    (t attempt : ℕ) (answer : ℕ → Answer)
    → wait_loop (suc t) answer attempt (pos (suc t)) ≡ some (first_answer (suc t) answer attempt)
wait_loop-first zero attempt answer = elim (Answer-cases (answer attempt)) [
  | inl got ↦ answered-first zero attempt answer (inl got)
  | inr (inr e) ↦ answered-first zero attempt answer (inr e)
  | inr (inl e) ↦
      rw (wait_loop-refused zero zero attempt answer e, zero-timeout, e, first_answer) refl
]
wait_loop-first (suc t) attempt answer = elim (Answer-cases (answer attempt)) [
  | inl got ↦ answered-first (suc t) attempt answer (inl got)
  | inr (inr e) ↦ answered-first (suc t) attempt answer (inr e)
  | inr (inl e) ↦
      wait_loop-refused (suc t) (suc t) attempt answer e
      ∙ rw (more-timeout t, e, first_answer) (wait_loop-first t (suc attempt) answer)
]

-- With a timeout of 1 or more, the loop of lxc_wait ends within as many attempts, and it succeeds if
-- and only if the first answer among them that is not a refusal is a state that is waited for.
pub wait_for-first :
    (t : ℕ) (answer : ℕ → Answer) (s : List ℕ)
    → wait_for (suc t) answer (pos (suc t)) s ≡ some (is_waited (first_answer (suc t) answer 0) s)
unfolding wait_for
wait_for-first t answer s = rw (wait_loop-first t 0 answer, wait_for) refl
