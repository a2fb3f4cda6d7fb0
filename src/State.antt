-- ===== src/State.antt =====
-- The states of a container and those who wait for them: src/lxc/state.c, lxc_add_state_client of
-- src/lxc/commands_utils.c and lxc_serve_state_clients of src/lxc/start.c.
pub mod Names
pub mod Served
pub mod Wait
pub mod Tests
use lxc.Base.{
  ℕ, zero, suc, ◌+◌, ◌-◌, ℤ, pos, negsuc, is_neg, pos_part, Bytes, codes, List, [], ◌∷◌, ◌++◌,
  Option, none, some, Bool, true, false, not, ◌&&◌, ◌||◌, ◌==◌, ltb, leb, if◌then◌else◌, length,
  get_or, set, Result, ok, err, e2big,
}
use lxc.Text.Compare.{strequal}
use lxc.Text.Split.{tokens}

-- lxc_state_t; -1 is no state.
abbrev pub running : ℕ
running = 2

abbrev pub thawed : ℕ
thawed = 7

abbrev pub max_state : ℕ
max_state = 8

unfoldable pub strstate : List Bytes
strstate =
    codes "STOPPED"
    ∷ codes "STARTING"
    ∷ codes "RUNNING"
    ∷ codes "STOPPING"
    ∷ codes "ABORTING"
    ∷ codes "FREEZING"
    ∷ codes "FROZEN"
    ∷ codes "THAWED"
    ∷ []

unfoldable pub lxc_state2str : ℤ → Bytes
lxc_state2str state =
    if is_neg state || ltb (max_state - 1) (pos_part state)
    then codes "INVALID STATE"
    else get_or strstate (pos_part state) []

unfoldable pub find_state : ℕ → List Bytes → Bytes → ℤ
find_state i [] state = negsuc 0
find_state i (name ∷ names) state =
    if strequal name state then pos i else find_state (suc i) names state

unfoldable pub lxc_str2state : Bytes → ℤ
lxc_str2state state = find_state 0 strstate state

-- The loop over the parts; `none` is the value -1.
unfoldable pub fill_states : List Bytes → List ℕ → Option (List ℕ)
fill_states [] states = some states
fill_states (token ∷ rest) states =
    let more = fill_states rest (set states (pos_part (lxc_str2state token)) 1) in
    if is_neg (lxc_str2state token) then none else more

unfoldable pub fillwaitedstates : Bytes → List ℕ → Option (List ℕ)
fillwaitedstates strstates states = fill_states (tokens (λ c. c == b'|') strstates) states

-- What lxc_cmd_sock_get_state answers: a state, ECONNREFUSED, or another error.
pub data Answer : Type 0 where
  got_state : ℕ → Answer
  refused : Answer
  failed : Answer

-- `if (timeout > 0) timeout--`
unfoldable pub less : ℤ → ℤ
less (pos zero) = pos zero
less (pos (suc t)) = pos t
less (negsuc t) = negsuc t

unfoldable pub is_zero : ℤ → Bool
is_zero (pos n) = n == 0
is_zero (negsuc n) = false

-- The loop of lxc_wait: the state, or -1; `none` where the attempts are not enough.
unfoldable pub wait_loop : ℕ → (ℕ → Answer) → ℕ → ℤ → Option ℤ
wait_loop zero answer attempt timeout = none
wait_loop (suc attempts) answer attempt timeout = elim (answer attempt) [
  | got_state state ↦ some (pos state)
  | failed ↦ some (negsuc 0)
  | refused ↦
      if is_zero (less timeout)
      then some (negsuc 0)
      else wait_loop attempts answer (suc attempt) (less timeout)
]

-- What lxc_wait returns for the loop's state: `true` is 0.
unfoldable pub is_waited : ℤ → List ℕ → Bool
is_waited state s =
    if (is_neg state || ltb (max_state - 1) (pos_part state)) || get_or s (pos_part state) 0 == 0
    then false
    else true

unfoldable pub no_states : List ℕ
no_states = 0 ∷ 0 ∷ 0 ∷ 0 ∷ 0 ∷ 0 ∷ 0 ∷ 0 ∷ []

unfoldable pub wait_for : ℕ → (ℕ → Answer) → ℤ → List ℕ → Option Bool
wait_for attempts answer timeout s = elim (wait_loop attempts answer 0 timeout) [
  | none ↦ none
  | some state ↦ some (is_waited state s)
]

unfoldable pub lxc_wait : ℕ → (ℕ → Answer) → Bytes → ℤ → Option Bool
lxc_wait attempts answer states timeout = elim (fillwaitedstates states no_states) [
  | none ↦ some false
  | some s ↦ wait_for attempts answer timeout s
]

pub record StateClient : Type 0 where
  pub clientfd : ℕ
  pub states : List ℕ

pub record Handler : Type 0 where
  pub state : ℕ
  pub state_clients : List StateClient

unfoldable pub lxc_add_state_client : ℕ → Handler → List ℕ → ℕ × Handler
lxc_add_state_client fd handler states =
    if not (get_or states handler.state 0 == 1)
    then (
      max_state,
      record handler {
        state_clients = handler.state_clients ++ record { clientfd = fd; states = states } ∷ [];
      },
    )
    else (handler.state, handler)

unfoldable pub not_registered : ℕ → StateClient → Bool
not_registered state client = get_or client.states state 0 == 0

-- The loop over the clients: the descriptors that a message is sent to, each closed behind it whether
-- or not the message arrives, and the clients that stay.
unfoldable pub serve_loop : ℕ → List StateClient → List ℕ × List StateClient
serve_loop state [] = ([], [])
serve_loop state (client ∷ rest) =
    let more = serve_loop state rest in
    if not_registered state client
    then (more.0, client ∷ more.1)
    else (client.clientfd ∷ more.0, more.1)

unfoldable pub list_empty : List StateClient → Bool
list_empty [] = true
list_empty (c ∷ clients) = false

-- sizeof(msg.name)
abbrev pub name_size : ℕ
name_size = 256

unfoldable pub lxc_serve_state_clients : Bytes → Handler → ℕ → Result (List ℕ) × Handler
lxc_serve_state_clients name handler state =
    let h = record handler { state = if state == thawed then running else state } in
    let served = serve_loop state handler.state_clients in
    if list_empty handler.state_clients
    then (ok [], h)
    else if leb name_size (length name)
    then (err e2big, h)
    else (ok (served.0), record h { state_clients = served.1 })
