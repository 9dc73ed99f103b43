-- ===== src/Tests/Served.antt =====
-- The theorem that a pending task is served, applied.
use myqueue.Prelude.Text.{text_eq}
use myqueue.Prelude.Parse.{stoi, word, split_on}
use myqueue.Monitor.ProcStat.{read_proc_stat, find_core}
use myqueue.Executor.{check_status, execute, status_of, ended_status}
use myqueue.Monitor.Cpu.{
  get_cpu_utilization, allocate_cpus, check_loop, check_cpu_available, new_cpu_monitor,
  get_affinity_group, get_available_cpus,
}
use myqueue.Prelude.Set.{insert_all, contains}
use myqueue.Monitor.Gpu.{allocate_gpus, new_gpu_monitor, get_available_gpus}
use myqueue.Server.{handle_submit}
use myqueue.Queue.{new_task, new_queue, submit, get_pending_tasks}
use myqueue.Prelude.{◌≡◌, refl, some, false, [], ◌∷◌, arith}
use myqueue.Prelude.Int.{pos, lez}
use myqueue.Prelude.Map.{find, put}
use myqueue.Task.{Task, completed}
use myqueue.Monitor.Resource.{
  Allocation, pick_cpus, enough_cpus, any_in_group2, any_in_group1, determine_affinity_group,
  try_auto_cpus, try_cpus, allocate_with_gpus, pick_gpus, try_auto_gpus, try_gpus, allocate,
}
use myqueue.Scheduler.{System, Env}
use myqueue.Scheduler.Ending.{Balanced}
use myqueue.Scheduler.Outcome.{allocation, pid_of}
use myqueue.Scheduler.Progress.{status_at, EndedSince}
use myqueue.Server.Histories.{submits, schedules, passes, checks, run, run-Balanced, Fresh-Balanced}
use myqueue.Server.Progress.{run_served}
use myqueue.Tests.Values.{Value}
use myqueue.Tests.Worlds.{
  sort_tasks, small_env, small_os, small_system, small_request, small_IsShuffle, sort_tasks-IsSort,
  all_directories,
}
use myqueue.Tests.Runs.{small_Fresh}

-- Each process is found to have ended at once, with code 0.
abbrev quick_env : Env Value
quick_env = record small_env { os = record small_os { waitpid = λ now pid. (pid, 0) } }

abbrev one_pending : System
one_pending = run quick_env all_directories small_system (submits small_request ∷ [])

abbrev pending_task : Task
pending_task = new_task 1 small_request 1

abbrev its_share : Allocation
its_share = record { cpus = pos 0 ∷ pos 1 ∷ []; gpus = pos 0 ∷ [] }

its_turn : get_pending_tasks sort_tasks one_pending.queue ≡ pending_task ∷ []
unfolding run get_pending_tasks sort_tasks handle_submit submit put new_queue new_task
its_turn = refl

its_allocation : (allocation quick_env one_pending pending_task).0 ≡ some its_share
unfolding run handle_submit submit put new_queue new_task allocate try_gpus try_auto_gpus pick_gpus
    get_available_gpus new_gpu_monitor contains allocate_with_gpus try_cpus try_auto_cpus
    get_available_cpus determine_affinity_group any_in_group1 get_affinity_group any_in_group2
    new_cpu_monitor enough_cpus pick_cpus check_cpu_available check_loop allocate_cpus insert_all
    execute get_cpu_utilization find_core read_proc_stat split_on text_eq word stoi find
    allocate_gpus
its_allocation = refl

its_pid : lez (pid_of quick_env one_pending pending_task) (pos 0) ≡ false
unfolding run handle_submit submit put new_queue new_task allocate try_gpus try_auto_gpus pick_gpus
    get_available_gpus new_gpu_monitor contains allocate_with_gpus try_cpus try_auto_cpus
    get_available_cpus determine_affinity_group any_in_group1 get_affinity_group any_in_group2
    new_cpu_monitor enough_cpus pick_cpus check_cpu_available check_loop allocate_cpus insert_all
    execute get_cpu_utilization find_core read_proc_stat split_on text_eq word stoi find
    allocate_gpus
its_pid = refl

its_end : EndedSince quick_env 0 (pid_of quick_env one_pending pending_task)
unfolding run handle_submit submit put new_queue new_task allocate try_gpus try_auto_gpus pick_gpus
    get_available_gpus new_gpu_monitor contains allocate_with_gpus try_cpus try_auto_cpus
    get_available_cpus determine_affinity_group any_in_group1 get_affinity_group any_in_group2
    new_cpu_monitor enough_cpus pick_cpus check_cpu_available check_loop allocate_cpus insert_all
    execute get_cpu_utilization find_core read_proc_stat split_on text_eq word stoi find
    allocate_gpus check_status status_of ended_status
its_end now late = refl

its_books : Balanced one_pending
unfolding new_queue
its_books =
    run-Balanced quick_env all_directories small_IsShuffle sort_tasks-IsSort small_system
      (submits small_request ∷ []) (omega arith, tt) (Fresh-Balanced small_system small_Fresh)

run_served_example :
    status_at 1 (run quick_env all_directories one_pending (schedules ∷ passes 5 ∷ checks ∷ []))
    ≡ some completed
unfolding new_task
run_served_example =
    run_served quick_env all_directories one_pending pending_task [] its_share 0 5 small_IsShuffle
      sort_tasks-IsSort its_books its_turn its_allocation its_pid its_end (omega arith)
