-- ===== src/State/Tests.antt =====
-- The states at concrete handlers.
use lxc.Base.{ℕ, suc, ◌≡◌, refl, pos, codes, List, [], ◌∷◌, some, true, false, if◌then◌else◌, leb}
use lxc.State.{
  Answer, got_state, refused, StateClient, Handler, lxc_str2state, strstate, find_state, is_waited,
  wait_for,
}
use lxc.State.Wait.{first_answer, wait_for-first}
use lxc.State.Served.{of_fd, times, is_reached, go_through, go_through-once}
use lxc.Text.Compare.{strequal}

frozen : lxc_str2state (codes "FROZEN") ≡ pos 6
unfolding lxc_str2state find_state strstate strequal
frozen = refl

-- Two refusals, and then RUNNING.
abbrev slow : ℕ → Answer
slow n = elim (leb n 1) [ true ↦ refused | false ↦ got_state 2 ]

abbrev wanted : List ℕ
wanted = 0 ∷ 0 ∷ 1 ∷ 0 ∷ 0 ∷ 0 ∷ 0 ∷ 0 ∷ []

wait_for-first_example :
    wait_for (suc 4) slow (pos (suc 4)) wanted
    ≡ some (is_waited (first_answer (suc 4) slow 0) wanted)
wait_for-first_example = wait_for-first 4 slow wanted

abbrev waiting : StateClient
waiting = record { clientfd = 9; states = wanted }

abbrev other : StateClient
other = record { clientfd = 4; states = 1 ∷ 0 ∷ 0 ∷ 0 ∷ 0 ∷ 0 ∷ 0 ∷ 0 ∷ [] }

abbrev handler : Handler
handler = record { state = 0; state_clients = other ∷ waiting ∷ [] }

go_through-once_example :
    (times 9 (go_through (codes "c1") handler (1 ∷ 2 ∷ 2 ∷ [])).0
      ≡ (if is_reached waiting (1 ∷ 2 ∷ 2 ∷ []) then 1 else 0))
    × (of_fd 9 (go_through (codes "c1") handler (1 ∷ 2 ∷ 2 ∷ [])).1.state_clients
        ≡ (if is_reached waiting (1 ∷ 2 ∷ 2 ∷ []) then [] else waiting ∷ []))
go_through-once_example = go_through-once (codes "c1") 9 waiting handler (1 ∷ 2 ∷ 2 ∷ []) refl refl
