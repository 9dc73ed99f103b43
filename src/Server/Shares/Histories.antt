-- ===== src/Server/Shares/Histories.antt =====
-- What the running tasks hold in the histories of a server that server.cpp makes of a configuration.
use myqueue.Prelude.{ℕ, ◌≡◌, refl, ap, not, some, List, [], ◌∷◌, arith, is_empty, if◌then◌else◌}
use myqueue.Prelude.Int.{ℤ}
use myqueue.Prelude.Map.{find}
use myqueue.Prelude.Members.{All-map}
use myqueue.Prelude.Set.{contains, contains-insert_all, insert_all}
use myqueue.Prelude.Text.{Bytes}
use myqueue.Config.{Config}
use myqueue.Task.{Task, running}
use myqueue.Queue.Pending.{IsSort}
use myqueue.Queue.Persist.{Files}
use myqueue.Monitor.Resource.{Monitor, set_excluded_cpus, set_excluded_gpus}
use myqueue.Monitor.Cpu.{new_cpu_monitor}
use myqueue.Monitor.Gpu.{new_gpu_monitor}
use myqueue.Queue.{new_queue}
use myqueue.Monitor.Resource.Cpus.{IsShuffle}
use myqueue.Scheduler.{Env, System}
use myqueue.Scheduler.Grants.{Limits, limits, Served, Share, later-Keeps, check_running_tasks-Keeps}
use myqueue.Scheduler.Ending.{Balanced}
use myqueue.Scheduler.Shares.{Permitted, Keeps-Permitted, try_schedule_next-Permitted}
use myqueue.Server.{PathKind}
use myqueue.Server.Histories.{
  Event, submits, deletes, deletes_all, schedules, checks, passes, step, run, RoomOnTheWay,
  step-Balanced, Fresh, Fresh-Balanced,
}
use myqueue.Server.Setup.{
  exclude, new_monitor, new_server, configured_cpu_monitor, configured_gpu_monitor,
}
use myqueue.Server.Shares.{handle_submit-Keeps, handle_delete-Keeps, handle_delete_all-Keeps}

module _ {Value : Type 0} (env : Env Value) (stat : Bytes → PathKind) (l : Limits)
    (sh : IsShuffle env.world) (so : IsSort env.sort) where
  step-Permitted :
      (s : System) (e : Event) → Balanced s → Permitted l s → Permitted l (step env stat s e)
  step-Permitted s (submits req) b = Keeps-Permitted l s _ (handle_submit-Keeps env stat s req)
  step-Permitted s (deletes ids) b = Keeps-Permitted l s _ (handle_delete-Keeps env s ids)
  step-Permitted s deletes_all b = Keeps-Permitted l s _ (handle_delete_all-Keeps env s)
  step-Permitted s schedules b = try_schedule_next-Permitted env l s sh so b.valid
  step-Permitted s checks b = Keeps-Permitted l s _ (check_running_tasks-Keeps env s)
  step-Permitted s (passes n) b = Keeps-Permitted l s _ (later-Keeps env s _)

  run-Permitted :
      (s : System) (es : List Event)
      → RoomOnTheWay env stat s es
      → Balanced s
      → Permitted l s
      → Permitted l (run env stat s es)
  unfolding run
  run-Permitted s [] h b p = p
  run-Permitted s (e ∷ es) h b p =
      run-Permitted (step env stat s e) es h.1 (step-Balanced env stat sh so s e h.0 b)
        (step-Permitted s e b p)

-- The limits as the configuration says them.
abbrev pub config_limits : Config → Limits
config_limits config = record {
  excluded_cpus = config.excluded_cpus;
  excluded_gpus = config.excluded_gpus;
  total_cpus = config.total_cpus;
}

-- The monitor of a new server: an empty list excludes what no list excludes.
abbrev excluding : Config → Monitor
excluding config = record (new_monitor config) {
  excluded_cpus = insert_all config.excluded_cpus [];
  excluded_gpus = insert_all config.excluded_gpus [];
}

exclude_lem : (config : Config) → exclude config (new_monitor config) ≡ excluding config
unfolding exclude new_monitor set_excluded_cpus set_excluded_gpus insert_all
exclude_lem config = for_lists config.excluded_cpus config.excluded_gpus
  where
    for_lists :
        (cpus gpus : List ℤ)
        → let m =
            if not (is_empty cpus)
            then set_excluded_cpus (new_monitor config) cpus
            else new_monitor config in
          (if not (is_empty gpus) then set_excluded_gpus m gpus else m)
          ≡ record (new_monitor config) {
            excluded_cpus = insert_all cpus [];
            excluded_gpus = insert_all gpus [];
          }
    for_lists [] [] = refl
    for_lists [] (g ∷ gpus) = refl
    for_lists (c ∷ cpus) [] = refl
    for_lists (c ∷ cpus) (g ∷ gpus) = refl

-- The limits as the constructor sets them.
abbrev set_limits : Config → Limits
set_limits config = record {
  excluded_cpus = insert_all config.excluded_cpus [];
  excluded_gpus = insert_all config.excluded_gpus [];
  total_cpus = config.total_cpus;
}

module _ (config : Config) (files : Files) where
  pub new_server-Fresh : Fresh (new_server config files)
  unfolding new_server new_monitor new_queue configured_cpu_monitor configured_gpu_monitor
      new_cpu_monitor new_gpu_monitor
  new_server-Fresh = record {
    queue = refl;
    cpus = ap (λ (m : Monitor). m.cpu_monitor.allocated_cpus) (exclude_lem config);
    gpus = ap (λ (m : Monitor). m.gpu_monitor.allocated_gpus) (exclude_lem config);
  }

  new_server-Permitted : Permitted (set_limits config) (new_server config files)
  unfolding new_server new_queue find new_monitor configured_cpu_monitor new_cpu_monitor
  new_server-Permitted = record {
    granted = λ j t f r. absurd (ground arith);
    within = ap limits (exclude_lem config);
  }

-- What is outside the set is outside the list that it was made of.
listed-Share :
    (excluded : List ℤ) (count : ℤ) (specific got : List ℤ)
    → Share (insert_all excluded []) count specific got
    → Share excluded count specific got
unfolding contains
listed-Share excluded count specific got (o, f) =
    (All-map (λ id h. ground (arith, contains-insert_all id excluded [])) got o, f)

module _ {Value : Type 0} (env : Env Value) (stat : Bytes → PathKind) (config : Config)
    (files : Files) (es : List Event) where
  -- A running task holds the CPUs and the GPUs that it asked for, by their ids or by their number, and
  -- none that the configuration excludes; CPUs that it did not name are CPUs of the machine and below
  -- 64, below 32 if its GPUs are all below 4, and from 32 on if they are all from 4 on. This holds after
  -- any requests and rounds of the scheduler's threads in any order on a new server with this
  -- configuration. The conditions are that std::shuffle permutes, that std::sort sorts, and that ids are
  -- left at each submission.
  pub run-Served :
      (id : ℕ) (t : Task)
      → IsShuffle env.world
      → IsSort env.sort
      → RoomOnTheWay env stat (new_server config files) es
      → find id (run env stat (new_server config files) es).queue.tasks ≡ some t
      → t.status ≡ running
      → Served (config_limits config) t
  run-Served id t sh so room f r =
      let s = new_server config files in
      let p =
        run-Permitted env stat (set_limits config) sh so s es room
          (Fresh-Balanced s (new_server-Fresh config files)) (new_server-Permitted config files) in
      let served = p.granted id t f r in
      record {
        cpus =
            listed-Share config.excluded_cpus t.ncpu t.specific_cpus t.allocated_cpus served.cpus;
        gpus =
            listed-Share config.excluded_gpus t.ngpu t.specific_gpus t.allocated_gpus served.gpus;
        near = served.near;
      }
