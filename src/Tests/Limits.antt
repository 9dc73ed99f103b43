-- ===== src/Tests/Limits.antt =====
-- The theorems on a server with a configuration, applied: one that may not use CPU 0 starts a task,
-- and its queue is read again.
use myqueue.Prelude.Text.{text, text_eq}
use myqueue.Prelude.Parse.{find_first_not_of, find_last_not_of, stoull, stoi, word, split_on}
use myqueue.Monitor.ProcStat.{read_proc_stat, find_core}
use myqueue.Executor.{execute}
use myqueue.Monitor.Cpu.{
  get_cpu_utilization, allocate_cpus, check_loop, check_cpu_available, new_cpu_monitor,
  get_affinity_group, get_available_cpus,
}
use myqueue.Prelude.Set.{insert_all, contains}
use myqueue.Monitor.Gpu.{allocate_gpus, new_gpu_monitor, get_available_gpus}
use myqueue.Server.{handle_submit}
use myqueue.Queue.{set_task_running, new_task, new_queue, submit, get_pending_tasks}
use myqueue.Prelude.{ℕ, arith, none, some, ◌≡◌, refl, List, [], ◌∷◌}
use myqueue.Prelude.Int.{ℤ, pos}
use myqueue.Prelude.Map.{find, put}
use myqueue.Task.{Task, running}
use myqueue.Config.{Config, default_config}
use myqueue.Queue.Persist.{Files, load}
use myqueue.Monitor.Resource.{
  pick_cpus, enough_cpus, any_in_group2, any_in_group1, determine_affinity_group, try_auto_cpus,
  try_cpus, allocate_with_gpus, pick_gpus, try_auto_gpus, try_gpus, allocate, set_excluded_cpus,
}
use myqueue.Scheduler.{
  notify_state_change, start_succeeded, start_task, schedule_task, try_schedule_next, System,
}
use myqueue.Scheduler.Grants.{Served}
use myqueue.Server.Histories.{Event, RoomOnTheWay, submits, schedules, run}
use myqueue.Server.Setup.{
  new_server, exclude, new_monitor, configured_cpu_monitor, configured_gpu_monitor,
}
use myqueue.Server.Shares.Histories.{config_limits, run-Served}
use myqueue.Server.Durable.Histories.{Recalled, run-Recalled}
use myqueue.Tests.Values.{values_json, values_laws, plain_calendar, plain_IsCalendar}
use myqueue.Tests.Worlds.{
  sort_tasks, small_env, small_request, all_directories, small_IsShuffle, sort_tasks-IsSort,
}

abbrev limited_config : Config
limited_config = record default_config {
  data_dir = text "/q";
  total_cpus = pos 4;
  total_gpus = pos 2;
  cpu_check_duration_ms = pos 500;
  excluded_cpus = pos 0 ∷ [];
}

abbrev no_files : Files
no_files path = none

abbrev one_task : List Event
one_task = submits small_request ∷ schedules ∷ []

abbrev after_one : System
after_one = run small_env all_directories (new_server limited_config no_files) one_task

abbrev its_share : List ℤ × List ℤ
its_share = (pos 1 ∷ pos 2 ∷ [], pos 0 ∷ [])

abbrev running_task : Task
running_task = record (new_task 1 small_request 0) {
  status = running;
  pid = pos 104;
  allocated_cpus = its_share.0;
  allocated_gpus = its_share.1;
  start_time = some 5;
}

one_started : find 1 after_one.queue.tasks ≡ some running_task
unfolding run try_schedule_next get_pending_tasks sort_tasks handle_submit submit put new_queue
    new_task schedule_task allocate try_gpus try_auto_gpus pick_gpus get_available_gpus
    new_gpu_monitor contains allocate_with_gpus try_cpus try_auto_cpus get_available_cpus
    determine_affinity_group any_in_group1 get_affinity_group any_in_group2 new_cpu_monitor
    enough_cpus pick_cpus check_cpu_available check_loop allocate_cpus insert_all start_task execute
    get_cpu_utilization find_core read_proc_stat split_on text_eq word stoi start_succeeded
    set_task_running find notify_state_change allocate_gpus new_server exclude new_monitor
    configured_cpu_monitor configured_gpu_monitor set_excluded_cpus find_first_not_of
    find_last_not_of stoull
one_started = refl

one_room : RoomOnTheWay small_env all_directories (new_server limited_config no_files) one_task
unfolding new_server new_queue
one_room = (omega arith, (tt, tt))

run-Served_example : Served (config_limits limited_config) running_task
run-Served_example =
    run-Served small_env all_directories limited_config no_files one_task 1 running_task
      small_IsShuffle sort_tasks-IsSort one_room one_started refl

run-Recalled_example :
    let q = load values_json plain_calendar (new_queue limited_config.data_dir) after_one.files in
    (q.next_id ≡ after_one.queue.next_id)
    × ((id : ℕ) → Recalled (find id q.tasks) (find id after_one.queue.tasks))
run-Recalled_example =
    run-Recalled small_env all_directories limited_config no_files one_task values_laws
      plain_IsCalendar small_IsShuffle sort_tasks-IsSort refl refl refl one_room
