-- ===== src/Queue/Spec.antt =====
-- What task_queue.cpp promises, without its map: a registry is a function from ids to tasks and a
-- counter without a limit, and each call but `submit` is one rule on the entry of one id.
pub mod Refinement
use myqueue.Prelude.{
  ℕ, suc, ◌+◌, ◌<◌, ◌≡◌, ◌∙◌, Bool, true, false, ◌||◌, Option, none, some, List, [], ◌∷◌, arith,
  ◌==◌, if◌then◌else◌, ◌%◌, ◌^◌,
}
use myqueue.Prelude.Int.{ℤ}
use myqueue.Task.{Task, pending, running, failed, status_eq}
use myqueue.Queue.Lifecycle.{Call, submits, starts, completes, fails, deletes, step}
use myqueue.Queue.{
  TaskQueue, new_task, submit, set_task_running, started, finished, ended, set_task_completed,
  set_task_failed, delete_task,
}

-- What a caller gets back.
pub data Reply : Type 0 where
  assigned : ℕ → Reply
  answered : Bool → Reply

pub reply : TaskQueue → ℕ × Call → Reply
reply q (now, submits req) = assigned (submit q req now).0
reply q (now, starts id pid cpus gpus) = answered (set_task_running q id pid cpus gpus now).0
reply q (now, completes id code) = answered (set_task_completed q id code now).0
reply q (now, fails id) = answered (set_task_failed q id now).0
reply q (now, deletes id) = answered (delete_task q id now).0

pub replies : TaskQueue → List (ℕ × Call) → List Reply
replies q [] = []
replies q (c ∷ cs) = reply q c ∷ replies (step q c) cs

pub record Registry : Type 0 where
  pub entry : ℕ → Option Task
  pub next : ℕ

abbrev pub update : (ℕ → Option Task) → ℕ → Option Task → ℕ → Option Task
update f i o j = if i == j then o else f j

-- What a call may make of a task: nothing, an erasure, or a new value.
pub data Edit : Type 0 where
  refuse remove : Edit
  write : Task → Edit

module _ (now : ℕ) where
  pub start_rule : ℤ → List ℤ → List ℤ → Task → Edit
  start_rule pid cpus gpus t =
      if status_eq t.status pending then write (started t pid cpus gpus now) else refuse

  pub complete_rule : ℤ → Task → Edit
  complete_rule code t = if status_eq t.status running then write (finished t code now) else refuse

  pub fail_rule : Task → Edit
  fail_rule t =
      if status_eq t.status pending || status_eq t.status running
      then write (ended failed t now)
      else refuse

pub perform : Registry → ℕ → Edit → Bool × Registry
perform r id refuse = (false, r)
perform r id remove = (true, record r { entry = update r.entry id none })
perform r id (write t) = (true, record r { entry = update r.entry id (some t) })

pub edit_entry : Registry → ℕ → (Task → Edit) → Bool × Registry
edit_entry r id rule = elim (r.entry id) [ none ↦ (false, r) | some t ↦ perform r id (rule t) ]

pub registry_call : Registry → ℕ × Call → Reply × Registry
registry_call r (now, submits req) = (
  assigned r.next,
  record { entry = update r.entry r.next (some (new_task r.next req now)); next = suc r.next },
)
registry_call r (now, starts id pid cpus gpus) =
    let (b, r') = edit_entry r id (start_rule now pid cpus gpus) in (answered b, r')
registry_call r (now, completes id code) =
    let (b, r') = edit_entry r id (complete_rule now code) in (answered b, r')
registry_call r (now, fails id) = let (b, r') = edit_entry r id (fail_rule now) in (answered b, r')
registry_call r (now, deletes id) = let (b, r') = edit_entry r id (λ _. remove) in (answered b, r')

pub registry_replies : Registry → List (ℕ × Call) → List Reply
registry_replies r [] = []
registry_replies r (c ∷ cs) = let (a, r') = registry_call r c in a ∷ registry_replies r' cs

pub registry_run : Registry → List (ℕ × Call) → Registry
registry_run r [] = r
registry_run r (c ∷ cs) = registry_run (registry_call r c).1 cs
