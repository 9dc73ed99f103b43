-- ===== src/Tests/Late.antt =====
-- A termination that comes late, and a restart, at fixed inputs.
use myqueue.Prelude.Text.{text_eq}
use myqueue.Prelude.Parse.{stoi, word, split_on}
use myqueue.Monitor.ProcStat.{read_proc_stat, find_core}
use myqueue.Executor.{check_status, execute, status_of, ended_status}
use myqueue.Monitor.Cpu.{
  get_cpu_utilization, allocate_cpus, check_loop, check_cpu_available, new_cpu_monitor,
  get_affinity_group, get_available_cpus, release_cpus,
}
use myqueue.Prelude.Set.{insert_all, erase_all, contains}
use myqueue.Monitor.Gpu.{allocate_gpus, new_gpu_monitor, get_available_gpus, release_gpus}
use myqueue.Server.{handle_submit, recover_tasks, recover_task, start}
use myqueue.Queue.{
  set_task_running, new_queue, submit, get_pending_tasks, get_running_tasks, set_task_completed,
  SubmitRequest, new_task,
}
use myqueue.Prelude.Map.{put, find}
use myqueue.Monitor.Resource.{
  pick_cpus, enough_cpus, any_in_group2, any_in_group1, determine_affinity_group, try_auto_cpus,
  try_cpus, allocate_with_gpus, pick_gpus, try_auto_gpus, try_gpus, allocate, try_specific_cpus,
  all_available, any_in, release,
}
use myqueue.Scheduler.{
  check_task, notify_state_change, start_succeeded, start_task, schedule_task, try_schedule_next,
  check_tasks, check_running_tasks, handle_task_completion, Env, System, end_task,
}
use myqueue.Tests.Worlds.{
  sort_tasks, small_env, small_os, small_system, small_monitor, small_request, all_directories,
}
use myqueue.Queue.Persist.{load}
use myqueue.Prelude.{◌≡◌, ◌≢◌, refl, true, false, Option, none, some, [], ◌∷◌, arith}
use myqueue.Prelude.Int.{ℤ, pos}
use myqueue.Task.{Task, running}
use myqueue.Monitor.Resource.Outcome.{has_cpu}
use myqueue.Scheduler.Ending.{Balanced}
use myqueue.Scheduler.Late.{end_task_late}
use myqueue.Server.Restart.{start_unbooked}
use myqueue.Server.Histories.{submits, schedules, checks, run}
use myqueue.Tests.Values.{Value}
use myqueue.Tests.Runs.{after_two, first_task}

-- Every process is found ended, with exit code 0.
abbrev ended_env : Env Value
ended_env = record small_env { os = record small_os { waitpid = λ now pid. (pid, 0) } }

abbrev on_cpu_0 : SubmitRequest
on_cpu_0 = record small_request { ncpu = pos 0; ngpu = pos 0; specific_cpus = pos 0 ∷ [] }

abbrev task_or_new : Option Task → Task
task_or_new none = new_task 0 small_request 0
task_or_new (some t) = t

-- The first task runs on CPU 0, and is read by terminateTask.
abbrev reading : System
reading =
    run ended_env all_directories small_system
      (submits on_cpu_0 ∷ submits on_cpu_0 ∷ schedules ∷ [])

abbrev copy : Task
copy = task_or_new (find 1 reading.queue.tasks)

-- During its waits the first task is completed, and the second starts on CPU 0.
abbrev late : System
late = run ended_env all_directories reading (checks ∷ schedules ∷ [])

abbrev other : Task
other = task_or_new (find 2 late.queue.tasks)

late_run :
    (find other.id late.queue.tasks ≡ some other)
    × ((other.status ≡ running)
        × ((contains (pos 0) other.allocated_cpus ≡ true)
            × ((contains (pos 0) copy.allocated_cpus ≡ true) × (other.id ≡ 2))))
unfolding run check_running_tasks check_tasks get_running_tasks try_schedule_next get_pending_tasks
    sort_tasks handle_submit submit put new_queue new_task schedule_task allocate try_gpus
    try_auto_gpus pick_gpus get_available_gpus new_gpu_monitor contains allocate_with_gpus try_cpus
    try_auto_cpus get_available_cpus determine_affinity_group any_in_group1 get_affinity_group
    any_in_group2 new_cpu_monitor enough_cpus pick_cpus check_cpu_available check_loop allocate_cpus
    insert_all start_task execute get_cpu_utilization find_core read_proc_stat split_on text_eq word
    stoi start_succeeded set_task_running find notify_state_change allocate_gpus check_task
    check_status try_specific_cpus all_available any_in handle_task_completion set_task_completed
    release release_cpus release_gpus erase_all status_of ended_status
late_run = (refl, (refl, (refl, (refl, refl))))

one_not_other : 1 ≢ other.id
one_not_other e = absurd (omega (arith, e, late_run.1.1.1.1))

end_task_late_example : ¬ Balanced (end_task ended_env late 1 copy)
end_task_late_example =
    end_task_late ended_env late 1 copy other (pos 0) late_run.0 late_run.1.0 late_run.1.1.0
      late_run.1.1.1.0 one_not_other

-- Two tasks run, and the monitor is new.
abbrev restarted : System
restarted = record after_two { monitor = small_monitor }

restart_run :
    (has_cpu restarted.monitor (pos 0) ≡ false)
    × ((find first_task.id (start small_env restarted).queue.tasks ≡ some first_task)
        × ((first_task.status ≡ running) × (contains (pos 0) first_task.allocated_cpus ≡ true)))
unfolding run check_running_tasks check_tasks get_running_tasks try_schedule_next get_pending_tasks
    sort_tasks handle_submit submit put new_queue new_task schedule_task allocate try_gpus
    try_auto_gpus pick_gpus get_available_gpus new_gpu_monitor contains allocate_with_gpus try_cpus
    try_auto_cpus get_available_cpus determine_affinity_group any_in_group1 get_affinity_group
    any_in_group2 new_cpu_monitor enough_cpus pick_cpus check_cpu_available check_loop allocate_cpus
    insert_all start_task execute get_cpu_utilization find_core read_proc_stat split_on text_eq word
    stoi start_succeeded set_task_running find notify_state_change allocate_gpus check_task
    check_status start recover_tasks recover_task load
restart_run = (refl, (refl, (refl, refl)))

start_unbooked_example :
    ((start small_env restarted).monitor ≡ restarted.monitor)
    × ((u : Task) (c : ℤ)
        → has_cpu restarted.monitor c ≡ false
        → find u.id (start small_env restarted).queue.tasks ≡ some u
        → u.status ≡ running
        → contains c u.allocated_cpus ≡ true
        → ¬ Balanced (start small_env restarted))
start_unbooked_example = start_unbooked small_env restarted

-- Its second part holds of a task that runs on.
restarted_unbooked : ¬ Balanced (start small_env restarted)
restarted_unbooked =
    (start_unbooked small_env restarted).1 first_task (pos 0) restart_run.0 restart_run.1.0
      restart_run.1.1.0 restart_run.1.1.1
