-- ===== src/Tests/Schedulers.antt =====
-- The theorems on single calls of the scheduler, applied.
use myqueue.Queue.{get_pending_tasks}
use myqueue.Scheduler.{try_schedule_next, terminate_task}
use myqueue.Server.Histories.{run-Balanced, Fresh-Balanced}
use myqueue.Tests.Worlds.{
  small_env, small_system, small_IsShuffle, sort_tasks-IsSort, all_directories,
}
use myqueue.Prelude.{◌≡◌, ◌⊎◌, false, List, [], ◌∷◌}
use myqueue.Task.{Task}
use myqueue.Scheduler.Outcome.{Attempt, try_schedule_next-Attempt}
use myqueue.Scheduler.Ends.{Termination, terminate_task-Termination}
use myqueue.Tests.Runs.{two_tasks, after_two, two_started, small_Fresh}

try_schedule_next-Attempt_example :
    ((get_pending_tasks small_env.sort after_two.queue ≡ [])
      × (try_schedule_next small_env after_two ≡ (false, after_two)))
    ⊎ ((t : Task) × ((ts : List Task) × ((get_pending_tasks small_env.sort after_two.queue ≡ t ∷ ts)
            × Attempt small_env after_two t (try_schedule_next small_env after_two))))
try_schedule_next-Attempt_example =
    try_schedule_next-Attempt small_env after_two sort_tasks-IsSort
      (run-Balanced small_env all_directories small_IsShuffle sort_tasks-IsSort small_system
        two_tasks two_started.1.1.1.1.1.1 (Fresh-Balanced small_system small_Fresh)).valid

terminate_task-Termination_example :
    Termination small_env after_two 1 (terminate_task small_env after_two 1)
terminate_task-Termination_example = terminate_task-Termination small_env after_two 1
