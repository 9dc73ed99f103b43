-- ===== src/Server/Queries/Listing.antt =====
-- Which tasks handleQueryQueue lists.
use mathlib.Core.Logic.{∥∥₁_map}
use mathlib.Core.List.{mem-map}
use myqueue.Prelude.{◌≡◌, ◌↔◌, subst, true, some, List, Mem, map, keep, arith}
use myqueue.Prelude.Map.{find, values}
use myqueue.Task.{Task, running, status_eq}
use myqueue.Queue.{TaskQueue, get_running_tasks, get_all_tasks}
use myqueue.Queue.Invariant.{IsValid}
use myqueue.Queue.Pending.{IsSort, mem-keep, find_of_mem, mem_of_find, mem-get_pending_tasks}
use myqueue.Protocol.Responses.Tasks.{TaskInfo}
use myqueue.Scheduler.{Env, System}
use myqueue.Server.Queries.{handle_query_queue, is_over}
use myqueue.Server.Queries.Entries.{
  RunningEntry, PendingEntry, OverEntry, running_info-RunningEntry, RunningEntry-unique,
  pending_info-PendingEntry, PendingEntry-unique, OverAs-is_over, completed_info-OverEntry,
  OverEntry-unique,
}

-- An entry for some task in the queue.
abbrev pub Shows : TaskQueue → (Task → TaskInfo → Type 0) → TaskInfo → Type 0
Shows q E info = ∥ ((t : Task) × (find t.id q.tasks ≡ some t) × E t info) ∥₁

mem-map_iff :
    (q : TaskQueue) (P : Task → Type 0) (E : Task → TaskInfo → Type 0) (f : Task → TaskInfo)
    (ts : List Task) (info : TaskInfo)
    → ((t : Task) → Mem t ts ↔ ((find t.id q.tasks ≡ some t) × P t))
    → ((t : Task) → P t → E t (f t))
    → ((t : Task) → E t info → P t × (f t ≡ info))
    → Mem info (map f ts) ↔ Shows q E info
mem-map_iff q P E f ts info h to from = (
  λ m.
      ∥∥₁_map (mem-map.0 m)
        (λ w. let (found, p) = (h w.0).0 w.1 in (w.0, found, subst (E w.0) w.2 (to w.0 p))),
  λ w. mem-map.1 (∥∥₁_map w (λ v. let (p, e) = from v.0 v.2 in (v.0, (h v.0).1 (v.1, p), e))),
)

running_iff :
    (q : TaskQueue) (t : Task)
    → IsValid q
    → Mem t (get_running_tasks q) ↔ ((find t.id q.tasks ≡ some t) × (t.status ≡ running))
unfolding get_running_tasks
running_iff q t v = (
  λ m.
      let (i, e) = (mem-keep (λ t. status_eq t.status running) (values q.tasks)).0 m in
      (find_of_mem q.next_id 0 t q.tasks v.ascending v.keyed i, ground arith),
  λ h. (mem-keep _ _).1 (mem_of_find t.id t q.tasks h.0, ground arith),
)

over_iff :
    (q : TaskQueue) (t : Task)
    → IsValid q
    → Mem t (keep is_over (get_all_tasks q)) ↔ ((find t.id q.tasks ≡ some t) × (is_over t ≡ true))
unfolding get_all_tasks
over_iff q t v = (
  λ m.
      let (i, e) = (mem-keep is_over (values q.tasks)).0 m in
      (find_of_mem q.next_id 0 t q.tasks v.ascending v.keyed i, e),
  λ h. (mem-keep _ _).1 (mem_of_find t.id t q.tasks h.0, h.1),
)

-- If std::sort sorts and the queue is well formed, the full listing has an entry under its running tasks
-- exactly if it is one for a task in the queue that runs, with what the task holds and the whole seconds
-- since its start; under its pending tasks, exactly if it is one for a pending task, with what the task
-- asks for by name; and under its completed ones, exactly if it is one for a task that is completed,
-- failed or cancelled, which it says, with what the task held, its exit code and the whole seconds from
-- its start to its end.
pub handle_query_queue_lem :
    {Value : Type 0} (env : Env Value) (s : System) (info : TaskInfo)
    → IsSort env.sort
    → IsValid s.queue
    → let resp = handle_query_queue env s true in
      (Mem info resp.running ↔ Shows s.queue (RunningEntry (env.clock s.now)) info)
      × ((Mem info resp.pending ↔ Shows s.queue PendingEntry info)
          × (Mem info resp.completed ↔ Shows s.queue OverEntry info))
unfolding handle_query_queue
handle_query_queue_lem env s info so v =
    let now = env.clock s.now in
    (
      mem-map_iff s.queue _ (RunningEntry now) _ _ info (λ t. running_iff s.queue t v)
          (λ t r. running_info-RunningEntry now t r)
          (λ t e. (e.runs, RunningEntry-unique now t info e)),
      (
        mem-map_iff s.queue _ PendingEntry _ _ info
            (λ t. mem-get_pending_tasks env.sort s.queue t so v)
            (λ t p. pending_info-PendingEntry t p) (λ t e. (e.waits, PendingEntry-unique t info e)),
        mem-map_iff s.queue _ OverEntry _ _ info (λ t. over_iff s.queue t v)
            (λ t o. completed_info-OverEntry t o)
            (λ t e. ((OverAs-is_over t info.status e.status).0, OverEntry-unique t info e)),
      ),
    )
