-- ===== src/Sync/Tests.antt =====
-- Runs of the start at concrete orders of steps.
use lxc.Base.{
  ◌≡◌, refl, List, [], ◌∷◌, ◌++◌, Bool, true, false, some, none, pos, Option-cases, inl, inr, ◌⊎◌,
  any, ◌≤◌, ◌+◌, ◌||◌, not,
}
use lxc.Sync.{
  System, running, parent_step, child_step, started, ◌⟶*◌, here, further, parent_goes, child_goes,
  is_open, startup, warn_father,
}
use lxc.Sync.Agreed.{waits_expected, reads_expected, is_running}
use lxc.Sync.Ordered.{set_up_in_order, has_wait, expects_child, configures, mounts}
use lxc.Sync.Progress.{start_progress, steps, work, in_task}

-- One step of the parent, or of the child; where it must wait, nothing happens.
turn : Bool → System → System
turn true s = elim (parent_step s) [ none ↦ s | some t ↦ t ]
turn false s = elim (child_step s) [ none ↦ s | some t ↦ t ]

play : List Bool → System → System
play [] s = s
play (b ∷ r) s = play r (turn b s)

turn-reached : (b : Bool) (s : System) → started ⟶* s → started ⟶* turn b s
unfolding turn
turn-reached true s p = elim (Option-cases (parent_step s)) [
  | inl e ↦ rw (e, turn) p
  | inr (t, e) ↦ rw (e, turn) (further p (parent_goes e))
]
turn-reached false s p = elim (Option-cases (child_step s)) [
  | inl e ↦ rw (e, turn) p
  | inr (t, e) ↦ rw (e, turn) (further p (child_goes e))
]

play-reached : (l : List Bool) (s : System) → started ⟶* s → started ⟶* play l s
unfolding play
play-reached [] s p = p
play-reached (b ∷ l) s p = play-reached l (turn b s) (turn-reached b s p)

after : List Bool → System
unfolding play turn parent_step child_step started warn_father
after l = play l started

after-reached : (l : List Bool) → started ⟶* after l
unfolding after
after-reached l = play-reached l started here

-- The parent sets limits and wakes the child, which is about to read the number.
abbrev woken : List Bool
woken = true ∷ true ∷ false ∷ []

-- Both to their ends, the child first where both can go.
abbrev whole_run : List Bool
whole_run =
    woken
    ++ false ∷ false ∷ false ∷ false ∷ true ∷ true ∷ true ∷ true ∷ false ∷ false ∷ false ∷ false
      ∷ false ∷ true ∷ true ∷ true ∷ true ∷ true ∷ []

-- On to the end of both: init runs, and the parent reads the end of the file.
abbrev to_the_end : List Bool
to_the_end = whole_run ++ false ∷ false ∷ true ∷ true ∷ false ∷ false ∷ true ∷ true ∷ []

after-to_the_end : ((after to_the_end).parent.todo ≡ []) × ((after to_the_end).child.todo ≡ [])
unfolding after
after-to_the_end = (refl, refl)

after-woken-running : (after woken).parent.status ≡ running
unfolding after
after-woken-running = refl

after-woken_inbox : (after woken).child.inbox ≡ pos startup ∷ []
unfolding after
after-woken_inbox = refl

after-woken_child : (after woken).child.status ≡ running
unfolding after
after-woken_child = refl

after_end_running : (after to_the_end).parent.status ≡ running
unfolding after
after_end_running = refl

after_end_done : (after to_the_end).parent.todo ≡ []
unfolding after
after_end_done = refl

waits_expected_example :
    (reads_expected true (after woken).parent.todo (after woken).parent.inbox ≡ true)
    × ((not (is_running (after woken).child.status)
          || reads_expected false (after woken).child.todo (after woken).child.inbox)
        ≡ true)
waits_expected_example = waits_expected (after-reached woken) after-woken-running

set_up_in_order_example :
    ((has_wait (after woken).child.todo || not (any configures (after woken).parent.todo)) ≡ true)
    × ((expects_child (after woken).parent.todo || not (any mounts (after woken).child.todo))
        ≡ true)
set_up_in_order_example =
    set_up_in_order (after-reached woken) after-woken-running after-woken_child

start_progress_example :
    (steps (after-reached woken) + work (after woken) ≤ 29)
    × (((is_open (after woken).parent || is_open (after woken).child) ≡ false)
        ⊎ (((in_task (after woken).parent || in_task (after woken).child) ≡ true)
            ⊎ ((t : System) × ((parent_step (after woken) ≡ some t)
                  ⊎ (child_step (after woken) ≡ some t)))))
start_progress_example = start_progress (after-reached woken)
