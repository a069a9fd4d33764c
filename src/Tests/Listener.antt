-- ===== src/Tests/Listener.antt =====
-- The listener of the queue at a concrete run: pkg/dispatcher/internal/queue_listener.go.
use tunnel_client.Base.{◌≡◌, refl, true, false, none, List, [], ◌∷◌}
use tunnel_client.Dispatcher.Listener.{
  Event, offered, queue_closed, starts, takes, leaves, task_begins, inline_begins, task_ends,
  pool_released, run, new_listener,
}
use tunnel_client.Dispatcher.Listener.Moved.{occurrences}
use tunnel_client.Dispatcher.Listener.Conserved.{offers, run-IsDrained}

-- The pool takes the first command and refuses the second.
abbrev two_commands : List Event
two_commands =
    starts
    ∷ offered 7
    ∷ takes 1 true
    ∷ offered 8
    ∷ takes 2 false
    ∷ inline_begins 3
    ∷ task_begins 0 4
    ∷ task_ends 1 5 true none false (record { failed = false; timed_out = false })
    ∷ queue_closed
    ∷ leaves
    ∷ task_ends 0 6 true none false (record { failed = false; timed_out = false })
    ∷ pool_released
    ∷ []

run-IsDrained_example :
    occurrences 8 (run two_commands (new_listener none)).processed ≡ offers false 8 two_commands
unfolding run
run-IsDrained_example = run-IsDrained none two_commands 8 refl refl refl refl
