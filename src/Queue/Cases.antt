-- ===== src/Queue/Cases.antt =====
-- The ways in which each operation of task_queue.cpp on one task can end.
use myqueue.Prelude.{
  ℕ, ◌≡◌, ◌⊎◌, inl, inr, true, false, not, ◌&&◌, none, some, List, arith, Option-cases, Bool-cases,
}
use myqueue.Prelude.Int.{ℤ}
use myqueue.Prelude.Map.{find, erase, erase-put}
use myqueue.Task.{Task, pending, running, failed, cancelled, is_terminal, status_eq}
use myqueue.Queue.{
  TaskQueue, overwrite, started, finished, ended, set_task_running, set_task_completed,
  set_task_failed, delete_task,
}

module _ (q : TaskQueue) (id : ℕ) where
  pub set_task_running_cases :
      (pid : ℤ) (cpus gpus : List ℤ) (now : ℕ)
      → let r = set_task_running q id pid cpus gpus now in
        (r ≡ (false, q))
        ⊎ ((t : Task) × (find id q.tasks ≡ some t)
            × (t.status ≡ pending)
            × (r ≡ (true, overwrite q id (started t pid cpus gpus now))))
  unfolding set_task_running
  set_task_running_cases pid cpus gpus now = elim (Option-cases (find id q.tasks)) [
    | inl e ↦ inl (rw (e, set_task_running))
    | inr (t, e) ↦ elim (Bool-cases (status_eq t.status pending)) [
      | inl p ↦ inr (t, e, ground arith, rw (e, set_task_running) (rw p))
      | inr p ↦ inl (rw (e, set_task_running) (rw p))
    ]
  ]

  pub set_task_completed_cases :
      (code : ℤ) (now : ℕ)
      → let r = set_task_completed q id code now in
        (r ≡ (false, q))
        ⊎ ((t : Task) × (find id q.tasks ≡ some t)
            × (t.status ≡ running)
            × (r ≡ (true, overwrite q id (finished t code now))))
  unfolding set_task_completed
  set_task_completed_cases code now = elim (Option-cases (find id q.tasks)) [
    | inl e ↦ inl (rw (e, set_task_completed))
    | inr (t, e) ↦ elim (Bool-cases (status_eq t.status running)) [
      | inl p ↦ inr (t, e, ground arith, rw (e, set_task_completed) (rw p))
      | inr p ↦ inl (rw (e, set_task_completed) (rw p))
    ]
  ]

  pub set_task_failed_cases :
      (now : ℕ)
      → let r = set_task_failed q id now in
        (r ≡ (false, q))
        ⊎ ((t : Task) × (find id q.tasks ≡ some t)
            × ((t.status ≡ pending) ⊎ (t.status ≡ running))
            × (r ≡ (true, overwrite q id (ended failed t now))))
  unfolding set_task_failed
  set_task_failed_cases now = elim (Option-cases (find id q.tasks)) [
    | inl e ↦ inl (rw (e, set_task_failed))
    | inr (t, e) ↦
        elim (Bool-cases (not (status_eq t.status pending) && not (status_eq t.status running))) [
          | inl p ↦ inl (rw (e, set_task_failed) (rw p))
          | inr p ↦ inr (t, e, ground arith, rw (e, set_task_failed) (rw p))
        ]
  ]

  -- A task is never left in the map as CANCELLED: the mark is erased with the entry.
  pub delete_task_cases :
      (now : ℕ)
      → let r = delete_task q id now in
        ((find id q.tasks ≡ none) × (r ≡ (false, q)))
        ⊎ ((t : Task) × (find id q.tasks ≡ some t)
            × (r ≡ (true, record q { tasks = erase id q.tasks })))
  unfolding delete_task
  delete_task_cases now = elim (Option-cases (find id q.tasks)) [
    | inl e ↦ inl (e, rw (e, delete_task))
    | inr (t, e) ↦ elim (Bool-cases (not (is_terminal t))) [
      | inl p ↦
          inr (t, e, rw (e, delete_task) (rw (p, erase-put id (ended cancelled t now) q.tasks)))
      | inr p ↦ inr (t, e, rw (e, delete_task) (rw p))
    ]
  ]
