-- ===== src/Tests/Servers.antt =====
-- The theorems on whole histories, applied.
use myqueue.Prelude.{◌≡◌, ◌≢◌, ap, arith, false, ◌&&◌}
use myqueue.Prelude.Int.{pos}
use myqueue.Prelude.Set.{contains}
use myqueue.Monitor.Resource.Outcome.{has_cpu, has_gpu}
use myqueue.Scheduler.Ending.{Balanced}
use myqueue.Server.{handle_submit, delete_one}
use myqueue.Server.Outcome.{Submission, handle_submit-Submission, Deletion, delete_one-Deletion}
use myqueue.Server.Histories.{run, run-Balanced, run-exclusive, run_idle, Fresh-Balanced}
use myqueue.Tests.Worlds.{
  small_request, small_env, small_system, small_IsShuffle, sort_tasks-IsSort, all_directories,
}
use myqueue.Tests.Runs.{
  two_tasks, after_two, first_task, second_task, two_started, small_Fresh, end_of_two, end_room,
  end_idle,
}

two_ids : first_task.id ≢ second_task.id
two_ids e = absurd (omega (arith, e, two_started.1.1.1.1.0, two_started.1.1.1.1.1.0))

run-Balanced_example : Balanced after_two
run-Balanced_example =
    run-Balanced small_env all_directories small_IsShuffle sort_tasks-IsSort small_system two_tasks
      two_started.1.1.1.1.1.1 (Fresh-Balanced small_system small_Fresh)

run-exclusive_example :
    ((contains (pos 0) first_task.allocated_cpus && contains (pos 0) second_task.allocated_cpus)
      ≡ false)
    × ((contains (pos 0) first_task.allocated_gpus && contains (pos 0) second_task.allocated_gpus)
        ≡ false)
run-exclusive_example =
    run-exclusive small_env all_directories small_system two_tasks first_task second_task (pos 0)
      small_IsShuffle sort_tasks-IsSort small_Fresh two_started.1.1.1.1.1.1 two_started.0
      two_started.1.0 two_ids (ap (λ h. h.0) two_started.1.1.0) (ap (λ h. h.0) two_started.1.1.1.0)

run_idle_example :
    (has_cpu (run small_env all_directories small_system end_of_two).monitor (pos 0) ≡ false)
    × (has_gpu (run small_env all_directories small_system end_of_two).monitor (pos 0) ≡ false)
run_idle_example =
    run_idle small_env all_directories small_system end_of_two (pos 0) small_IsShuffle
      sort_tasks-IsSort small_Fresh end_room end_idle

handle_submit-Submission_example :
    Submission small_env all_directories after_two small_request
      (handle_submit small_env all_directories after_two small_request)
handle_submit-Submission_example =
    handle_submit-Submission small_env all_directories after_two small_request

delete_one-Deletion_example : Deletion small_env after_two 2 (delete_one small_env after_two 2)
delete_one-Deletion_example = delete_one-Deletion small_env after_two 2
