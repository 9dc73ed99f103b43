-- ===== src/Queue/Requests.antt =====
-- The task that stands for a request of task_queue.h, field by field.
use myqueue.Prelude.{ℕ, ◌≡◌, refl, none, []}
use myqueue.Prelude.Int.{pos}
use myqueue.Task.{Task, pending}
use myqueue.Queue.{SubmitRequest, new_task}

-- A pending task with the id and the submission time, which asks for what the request asks for, holds
-- nothing and has not begun.
pub record PendingFor (task_id : ℕ) (req : SubmitRequest) (now : ℕ) (t : Task) : Type 0 where
  pub id : t.id ≡ task_id
  pub status : t.status ≡ pending
  pub script_path : t.script_path ≡ req.script_path
  pub workdir : t.workdir ≡ req.workdir
  pub ncpu : t.ncpu ≡ req.ncpu
  pub ngpu : t.ngpu ≡ req.ngpu
  pub specific_cpus : t.specific_cpus ≡ req.specific_cpus
  pub specific_gpus : t.specific_gpus ≡ req.specific_gpus
  pub log_file : t.log_file ≡ req.log_file
  pub allocated_cpus : t.allocated_cpus ≡ []
  pub allocated_gpus : t.allocated_gpus ≡ []
  pub pid : t.pid ≡ pos 0
  pub exit_code : t.exit_code ≡ pos 0
  pub submit_time : t.submit_time ≡ now
  pub start_time : t.start_time ≡ none
  pub end_time : t.end_time ≡ none

pub new_task-PendingFor :
    (id : ℕ) (req : SubmitRequest) (now : ℕ) → PendingFor id req now (new_task id req now)
unfolding new_task
new_task-PendingFor id req now = record {
  id = refl;
  status = refl;
  script_path = refl;
  workdir = refl;
  ncpu = refl;
  ngpu = refl;
  specific_cpus = refl;
  specific_gpus = refl;
  log_file = refl;
  allocated_cpus = refl;
  allocated_gpus = refl;
  pid = refl;
  exit_code = refl;
  submit_time = refl;
  start_time = refl;
  end_time = refl;
}
