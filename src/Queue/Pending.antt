-- ===== src/Queue/Pending.antt =====
-- The lists that task_queue.cpp makes of its map, and the order of the pending one.
use mathlib.Core.Logic.Or
use mathlib.Core.Bool.{false≢true}
use mathlib.Core.Logic.{∥∥₁_prop}
use mathlib.Core.List.{mem-cons, mem-cons_self, mem-cons_of_mem, not-mem-nil}
use mathlib.Core.List.Perm
use native.Mathlib.Bridge.{le_prop}
use myqueue.Prelude.{
  ℕ, suc, ◌≤◌, ◌≡◌, sym, ap, ◌↔◌, Bool, true, Option, some, List, [], ◌∷◌, Mem, Perm, All, keep,
  arith, Bool-cases, inl, inr, ◌==◌, ◌∙◌, subst,
}
use myqueue.Prelude.Map.{find, Asc, values, find_below}
use myqueue.Task.{Task, pending}
use myqueue.Queue.{TaskQueue, get_pending_tasks}
use myqueue.Queue.Invariant.{IsValid, Keyed}

-- `Ordered` by submission, as the comparator of std::sort sees it.
abbrev pub Ordered : List Task → Type 0
Ordered [] = Unit {0}
Ordered (t ∷ ts) = All (λ u. t.submit_time ≤ u.submit_time) ts × Ordered ts

-- What std::sort promises; the order of equal elements is open.
pub record IsSort (sort : List Task → List Task) : Type 0 where
  pub perm : (ts : List Task) → Perm (sort ts) ts
  pub ordered : (ts : List Task) → Ordered (sort ts)

mem_bool_prop : {t : Task} {ts : List Task} {b : Bool} → IsProp (Mem t ts × (b ≡ true))
mem_bool_prop = hlevel ∥∥₁_prop

pub mem-keep :
    {t : Task} (p : Task → Bool) (ts : List Task) → Mem t (keep p ts) ↔ (Mem t ts × (p t ≡ true))
mem-keep {t} p [] = (λ m. absurd (not-mem-nil m), λ m. absurd (not-mem-nil m.0))
mem-keep {t} p (u ∷ ts) =
    let (into, back) = mem-keep {t = t} p ts in
    elim (Bool-cases (p u)) [
      | inl e ↦ rw e (
        λ h.
            Or.elim mem_bool_prop (mem-cons.0 h) (λ q. (mem-cons.1 (Or.inl q), ap p q ∙ e))
              (λ r. (mem-cons_of_mem u (into r).0, (into r).1)),
        λ h.
            Or.elim ∥∥₁_prop (mem-cons.0 h.0) (λ q. mem-cons.1 (Or.inl q))
              (λ r. mem-cons_of_mem u (back (r, h.1))),
      )
      | inr e ↦ rw e (
        λ h. (mem-cons_of_mem u (into h).0, (into h).1),
        λ h.
            Or.elim ∥∥₁_prop (mem-cons.0 h.0)
              (λ q. absurd (false≢true (sym e ∙ sym (ap p q) ∙ h.1))) (λ r. back (r, h.1)),
      )
    ]

Task-set : IsSet Task
Task-set = hlevel

found_set : IsSet (Option Task)
found_set = hlevel

pub find_of_mem :
    (n lo : ℕ) (t : Task) (m : List (ℕ × Task))
    → Asc lo m
    → Keyed n m
    → Mem t (values m)
    → find t.id m ≡ some t
unfolding find
find_of_mem n lo t [] a k h = absurd (not-mem-nil h)
find_of_mem n lo t ((i, u) ∷ m) a k h =
    Or.elim (found_set _ _) (mem-cons.0 h) (λ e. ground arith)
      (λ h'. ground (arith, find_of_mem n (suc i) t m a.1 k.2 h', find_below i (suc i) m a.1))

pub mem_of_find : (k : ℕ) (t : Task) (m : List (ℕ × Task)) → find k m ≡ some t → Mem t (values m)
unfolding find
mem_of_find k t [] e = cc
mem_of_find k t ((i, u) ∷ m) e = elim (Bool-cases (i == k)) [
  | inl hit ↦ mem-cons.1 (Or.inl (ground arith))
  | inr miss ↦ mem-cons_of_mem u (mem_of_find k t m (ground arith))
]

-- If std::sort sorts and the queue is well formed, a task is listed as pending exactly when it stands
-- in the map under its id and is pending.
pub mem-get_pending_tasks :
    (sort : List Task → List Task) (q : TaskQueue) (t : Task)
    → IsSort sort
    → IsValid q
    → Mem t (get_pending_tasks sort q) ↔ ((find t.id q.tasks ≡ some t) × (t.status ≡ pending))
unfolding get_pending_tasks
mem-get_pending_tasks sort q t s v = (
  λ h.
      let (m, p) = (mem-keep _ _).0 ((Perm.mem_iff (s.perm _)).0 h) in
      (find_of_mem q.next_id 0 t q.tasks v.ascending v.keyed m, ground arith),
  λ h.
      (Perm.mem_iff (s.perm _)).1 ((mem-keep _ _).1 (mem_of_find t.id t q.tasks h.0, ground arith)),
)

All-mem :
    (n : ℕ) (u : Task) (ts : List Task)
    → All (λ w. n ≤ w.submit_time) ts
    → Mem u ts
    → n ≤ u.submit_time
All-mem n u [] a h = absurd (not-mem-nil h)
All-mem n u (w ∷ ts) a h =
    Or.elim le_prop (mem-cons.0 h) (λ e. rw e a.0) (λ r. All-mem n u ts a.1 r)

-- First in, first out: if std::sort sorts and the queue is well formed, the head of the pending list
-- is in the map and pending, and was submitted no later than any pending task.
pub get_pending_tasks_head :
    (sort : List Task → List Task) (q : TaskQueue) (t : Task) (ts : List Task)
    → IsSort sort
    → IsValid q
    → get_pending_tasks sort q ≡ t ∷ ts
    → (find t.id q.tasks ≡ some t)
      × (t.status ≡ pending)
      × ((u : Task)
          → find u.id q.tasks ≡ some u
          → u.status ≡ pending
          → t.submit_time ≤ u.submit_time)
unfolding get_pending_tasks
get_pending_tasks_head sort q t ts s v e =
    let (f, p) = (mem-get_pending_tasks sort q t s v).0 (rw e mem-cons_self) in
    (
      f,
      p,
      λ u g r.
          let m = (mem-get_pending_tasks sort q u s v).1 (g, r) in
          Or.elim le_prop (mem-cons.0 (subst (Mem u) e m)) (λ i. rw i (omega arith))
            (λ n. All-mem t.submit_time u ts ordered.0 n),
    )
  where
    ordered : Ordered (t ∷ ts)
    ordered = subst Ordered e (s.ordered _)
