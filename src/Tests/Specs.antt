-- ===== src/Tests/Specs.antt =====
-- The queue against its registry, applied.
use myqueue.Prelude.{ℕ, ◌≡◌, refl, none, List, [], ◌∷◌, arith}
use myqueue.Prelude.Int.{pos}
use myqueue.Prelude.Map.{find}
use myqueue.Queue.{new_queue}
use myqueue.Queue.Lifecycle.{Call, submits, starts, completes, deletes, run}
use myqueue.Queue.Spec.{Registry, replies, registry_replies, registry_run}
use myqueue.Queue.Spec.Refinement.{Refines, run-Refines}
use myqueue.Tests.Worlds.{small_request}

-- One task runs and is completed, one is refused a start, and both are deleted.
abbrev two_lives : List (ℕ × Call)
two_lives =
    (5, submits small_request)
    ∷ (6, submits small_request)
    ∷ (7, starts 1 (pos 40) (pos 0 ∷ []) [])
    ∷ (8, completes 2 (pos 0))
    ∷ (9, completes 1 (pos 3))
    ∷ (10, deletes 1)
    ∷ (11, deletes 2)
    ∷ []

abbrev no_entries : Registry
no_entries = record { entry = λ j. none; next = 1 }

new_queue-Refines : Refines (new_queue []) no_entries
unfolding new_queue find
new_queue-Refines = record { entries = λ j. refl; counter = refl }

run-Refines_example :
    (replies (new_queue []) two_lives ≡ registry_replies no_entries two_lives)
    × Refines (run (new_queue []) two_lives) (registry_run no_entries two_lives)
unfolding new_queue
run-Refines_example =
    run-Refines (new_queue []) no_entries two_lives (omega arith) new_queue-Refines
