-- ===== src/Tests/Runs.antt =====
-- Histories of the server at fixed inputs: two tasks are started on four CPUs and two GPUs, and both
-- are deleted.
use myqueue.Prelude.Text.{text_eq}
use myqueue.Prelude.Parse.{stoi, word, split_on}
use myqueue.Monitor.ProcStat.{read_proc_stat, find_core}
use myqueue.Executor.{terminate, check_status, execute}
use myqueue.Monitor.Cpu.{
  get_cpu_utilization, allocate_cpus, check_loop, check_cpu_available, new_cpu_monitor,
  get_affinity_group, get_available_cpus,
}
use myqueue.Prelude.Set.{insert_all, contains}
use myqueue.Monitor.Gpu.{allocate_gpus, new_gpu_monitor, get_available_gpus}
use myqueue.Server.{
  terminate_twice, delete_listed, delete_all_listed, handle_delete_all, handle_submit,
}
use myqueue.Queue.{
  delete_task, get_all_tasks, set_task_running, new_task, new_queue, submit, get_pending_tasks,
  get_running_tasks,
}
use myqueue.Prelude.{arith, Option, none, some, ◌≡◌, refl, List, [], ◌∷◌}
use myqueue.Prelude.Int.{ℤ, pos}
use myqueue.Prelude.Map.{erase, find, put}
use myqueue.Task.{is_terminal, Task, TaskStatus, running}
use myqueue.Monitor.Resource.{
  pick_cpus, enough_cpus, any_in_group2, any_in_group1, determine_affinity_group, try_auto_cpus,
  try_cpus, allocate_with_gpus, pick_gpus, try_auto_gpus, try_gpus, allocate,
}
use myqueue.Scheduler.{
  end_task, terminate_running, terminate_task, check_task, notify_state_change, start_succeeded,
  start_task, schedule_task, try_schedule_next, check_tasks, check_running_tasks, System,
}
use myqueue.Server.Histories.{
  Event, Fresh, RoomOnTheWay, submits, schedules, checks, deletes_all, run,
}
use myqueue.Tests.Worlds.{sort_tasks, small_env, small_system, small_request, all_directories}

abbrev pub two_tasks : List Event
two_tasks = submits small_request ∷ submits small_request ∷ schedules ∷ schedules ∷ checks ∷ []

abbrev pub after_two : System
after_two = run small_env all_directories small_system two_tasks

-- The task under an id, or the one that a new queue would make.
abbrev task_or_new : Option Task → Task
task_or_new none = new_task 0 small_request 0
task_or_new (some t) = t

abbrev pub first_task : Task
first_task = task_or_new (find 1 after_two.queue.tasks)

abbrev pub second_task : Task
second_task = task_or_new (find 2 after_two.queue.tasks)

abbrev held : Task → TaskStatus × (List ℤ × List ℤ)
held t = (t.status, (t.allocated_cpus, t.allocated_gpus))

pub two_started :
    (find first_task.id after_two.queue.tasks ≡ some first_task)
    × ((find second_task.id after_two.queue.tasks ≡ some second_task)
        × ((held first_task ≡ (running, (pos 0 ∷ pos 1 ∷ [], pos 0 ∷ [])))
            × ((held second_task ≡ (running, (pos 2 ∷ pos 3 ∷ [], pos 1 ∷ [])))
                × ((first_task.id ≡ 1)
                    × ((second_task.id ≡ 2)
                        × RoomOnTheWay small_env all_directories small_system two_tasks)))))
unfolding run check_running_tasks check_tasks get_running_tasks try_schedule_next get_pending_tasks
    sort_tasks handle_submit submit put new_queue new_task schedule_task allocate try_gpus
    try_auto_gpus pick_gpus get_available_gpus new_gpu_monitor contains allocate_with_gpus try_cpus
    try_auto_cpus get_available_cpus determine_affinity_group any_in_group1 get_affinity_group
    any_in_group2 new_cpu_monitor enough_cpus pick_cpus check_cpu_available check_loop allocate_cpus
    insert_all start_task execute get_cpu_utilization find_core read_proc_stat split_on text_eq word
    stoi start_succeeded set_task_running find notify_state_change allocate_gpus check_task
    check_status
two_started = (
  refl,
  (refl, (refl, (refl, (refl, (refl, (omega arith, (omega arith, (tt, (tt, (tt, tt)))))))))),
)

pub small_Fresh : Fresh small_system
unfolding new_queue new_gpu_monitor new_cpu_monitor
small_Fresh = record { queue = refl; cpus = refl; gpus = refl }

abbrev pub end_of_two : List Event
end_of_two = submits small_request ∷ schedules ∷ deletes_all ∷ []

pub end_room : RoomOnTheWay small_env all_directories small_system end_of_two
unfolding run check_running_tasks check_tasks get_running_tasks try_schedule_next get_pending_tasks
    sort_tasks handle_submit submit put new_queue new_task schedule_task allocate try_gpus
    try_auto_gpus pick_gpus get_available_gpus new_gpu_monitor contains allocate_with_gpus try_cpus
    try_auto_cpus get_available_cpus determine_affinity_group any_in_group1 get_affinity_group
    any_in_group2 new_cpu_monitor enough_cpus pick_cpus check_cpu_available check_loop allocate_cpus
    insert_all start_task execute get_cpu_utilization find_core read_proc_stat split_on text_eq word
    stoi start_succeeded set_task_running find notify_state_change allocate_gpus check_task
    check_status
end_room = (omega arith, (tt, (tt, tt)))

pub end_idle : get_running_tasks (run small_env all_directories small_system end_of_two).queue ≡ []
unfolding run check_running_tasks check_tasks get_running_tasks try_schedule_next get_pending_tasks
    sort_tasks handle_submit submit put new_queue new_task schedule_task allocate try_gpus
    try_auto_gpus pick_gpus get_available_gpus new_gpu_monitor contains allocate_with_gpus try_cpus
    try_auto_cpus get_available_cpus determine_affinity_group any_in_group1 get_affinity_group
    any_in_group2 new_cpu_monitor enough_cpus pick_cpus check_cpu_available check_loop allocate_cpus
    insert_all start_task execute get_cpu_utilization find_core read_proc_stat split_on text_eq word
    stoi start_succeeded set_task_running find notify_state_change allocate_gpus check_task
    check_status handle_delete_all delete_all_listed get_all_tasks delete_listed terminate_twice
    terminate_task terminate_running terminate end_task delete_task erase is_terminal
end_idle = refl
