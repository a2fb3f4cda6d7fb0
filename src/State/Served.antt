-- ===== src/State/Served.antt =====
-- Each client that waits for a state is told of it once.
use lxc.Base.{
  ℕ, suc, ◌≡◌, refl, ap, sym, ◌∙◌, List, [], ◌∷◌, ◌++◌, any, ◌+◌, Bytes, Bool, true, false, not,
  ◌==◌, if◌then◌else◌, Bool-cases, inl, inr, arith, leb, length, Result, ok, err,
}
use lxc.State.{
  StateClient, Handler, not_registered, serve_loop, list_empty, lxc_serve_state_clients, name_size,
}

-- The clients with a descriptor.
abbrev pub of_fd : ℕ → List StateClient → List StateClient
of_fd fd [] = []
of_fd fd (c ∷ r) = if c.clientfd == fd then c ∷ of_fd fd r else of_fd fd r

-- How often a descriptor is in a list.
abbrev pub times : ℕ → List ℕ → ℕ
times fd [] = 0
times fd (x ∷ r) = if x == fd then suc (times fd r) else times fd r

-- The clients that stay, and those that are told.
abbrev pub stay : ℕ → List StateClient → List StateClient
stay state [] = []
stay state (c ∷ r) = if not_registered state c then c ∷ stay state r else stay state r

abbrev pub told : ℕ → List StateClient → ℕ
told state [] = 0
told state (c ∷ r) = if not_registered state c then told state r else suc (told state r)

of_fd-served :
    (fd state : ℕ) (clients : List StateClient)
    → of_fd fd (serve_loop state clients).1 ≡ stay state (of_fd fd clients)
unfolding serve_loop
of_fd-served fd state [] = refl
of_fd-served fd state (c ∷ r) = ground (
  arith,
  of_fd-served fd state r,
  Bool-cases (c.clientfd == fd),
  Bool-cases (not_registered state c),
)

times-served :
    (fd state : ℕ) (clients : List StateClient)
    → times fd (serve_loop state clients).0 ≡ told state (of_fd fd clients)
unfolding serve_loop
times-served fd state [] = refl
times-served fd state (c ∷ r) = ground (
  arith,
  times-served fd state r,
  Bool-cases (c.clientfd == fd),
  Bool-cases (not_registered state c),
)

serve_loop-empty :
    (state : ℕ) (clients : List StateClient)
    → list_empty clients ≡ true
    → (serve_loop state clients ≡ ([], [])) × (clients ≡ [])
unfolding list_empty serve_loop
serve_loop-empty state [] h = (refl, refl)
serve_loop-empty state (c ∷ clients) h = cc

serve-clients :
    (name : Bytes) (h : Handler) (state : ℕ)
    → leb name_size (length name) ≡ false
    → (lxc_serve_state_clients name h state).0 ≡ ok (serve_loop state h.state_clients).0
unfolding lxc_serve_state_clients
serve-clients name h state e = elim (Bool-cases (list_empty h.state_clients)) [
  | inl none' ↦ rw (none', (serve_loop-empty state h.state_clients none').0) refl
  | inr some' ↦ rw (some', e) refl
]

serve-stay :
    (name : Bytes) (h : Handler) (state : ℕ)
    → leb name_size (length name) ≡ false
    → (lxc_serve_state_clients name h state).1.state_clients ≡ (serve_loop state h.state_clients).1
unfolding lxc_serve_state_clients
serve-stay name h state e = elim (Bool-cases (list_empty h.state_clients)) [
  | inl none' ↦
      let (quiet, empty) = serve_loop-empty state h.state_clients none' in
      rw none' (empty ∙ sym (ap (λ (r : List ℕ × List StateClient). r.1) quiet))
  | inr some' ↦ rw (some', e) refl
]

-- The messages of a call that succeeds.
abbrev pub sent : Result (List ℕ) → List ℕ
sent (ok fds) = fds
sent (err e) = []

-- A container goes through states: all messages, and the handler at the end.
abbrev pub go_through : Bytes → Handler → List ℕ → List ℕ × Handler
go_through name h [] = ([], h)
go_through name h (state ∷ states) =
    let served = lxc_serve_state_clients name h state in
    let more = go_through name served.1 states in (sent served.0 ++ more.0, more.1)

times-append : (fd : ℕ) (xs ys : List ℕ) → times fd (xs ++ ys) ≡ times fd xs + times fd ys
times-append fd [] ys = omega arith
times-append fd (x ∷ xs) ys = ground (arith, times-append fd xs ys)

-- One of the states is registered for the client.
abbrev pub is_reached : StateClient → List ℕ → Bool
is_reached c states = any (λ (state : ℕ). not (not_registered state c)) states

told-waiting :
    (state : ℕ) (c : StateClient) → not_registered state c ≡ true → told state (c ∷ []) ≡ 0
told-waiting state c h = ground arith

told-now : (state : ℕ) (c : StateClient) → not_registered state c ≡ false → told state (c ∷ []) ≡ 1
told-now state c h = ground arith

reached-waiting :
    (state : ℕ) (c : StateClient) (states : List ℕ)
    → not_registered state c ≡ true
    → is_reached c (state ∷ states) ≡ is_reached c states
reached-waiting state c states h = ground arith

reached-now :
    (state : ℕ) (c : StateClient) (states : List ℕ)
    → not_registered state c ≡ false
    → is_reached c (state ∷ states) ≡ true
reached-now state c states h = ground arith

no-client :
    (name : Bytes) (fd : ℕ) (h : Handler) (states : List ℕ)
    → leb name_size (length name) ≡ false
    → of_fd fd h.state_clients ≡ []
    → (times fd (go_through name h states).0 ≡ 0)
      × (of_fd fd (go_through name h states).1.state_clients ≡ [])
no-client name fd h [] e n = (refl, n)
no-client name fd h (state ∷ states) e n =
    let h' = (lxc_serve_state_clients name h state).1 in
    let gone =
      ap (of_fd fd) (serve-stay name h state e)
      ∙ of_fd-served fd state h.state_clients
      ∙ ap (stay state) n in
    let (quiet, still) = no-client name fd h' states e gone in
    (
      rw
          (
            serve-clients name h state e,
            times-append fd (serve_loop state h.state_clients).0 (go_through name h' states).0,
            times-served fd state h.state_clients,
            n,
            quiet,
          )
          (omega arith),
      still,
    )

-- A client whose descriptor no other client of the list has gets one message while the container
-- goes through some states, and is off the list then, if one of these states is registered for it;
-- otherwise it gets none and stays on the list. The name of the container is below 256 bytes.
pub go_through-once :
    (name : Bytes) (fd : ℕ) (c : StateClient) (h : Handler) (states : List ℕ)
    → leb name_size (length name) ≡ false
    → of_fd fd h.state_clients ≡ c ∷ []
    → (times fd (go_through name h states).0 ≡ (if is_reached c states then 1 else 0))
      × (of_fd fd (go_through name h states).1.state_clients
          ≡ (if is_reached c states then [] else c ∷ []))
go_through-once name fd c h [] e n = (refl, n)
go_through-once name fd c h (state ∷ states) e n =
    let h' = (lxc_serve_state_clients name h state).1 in
    let left =
      ap (of_fd fd) (serve-stay name h state e)
      ∙ of_fd-served fd state h.state_clients
      ∙ ap (stay state) n in
    let total =
      ap (λ r. times fd (sent r ++ (go_through name h' states).0)) (serve-clients name h state e)
      ∙ times-append fd (serve_loop state h.state_clients).0 (go_through name h' states).0
      ∙ ap (λ k. k + times fd (go_through name h' states).0)
          (times-served fd state h.state_clients ∙ ap (told state) n) in
    elim (Bool-cases (not_registered state c)) [
      | inl wait ↦
          let (t, o) = go_through-once name fd c h' states e (left ∙ rw wait refl) in
          (
            total
                ∙ rw (told-waiting state c wait, reached-waiting state c states wait, t)
                    (omega arith),
            rw (reached-waiting state c states wait) o,
          )
      | inr now ↦
          let (t, o) = no-client name fd h' states e (left ∙ rw now refl) in
          (
            total ∙ rw (told-now state c now, reached-now state c states now, t) (omega arith),
            rw (reached-now state c states now) o,
          )
    ]
