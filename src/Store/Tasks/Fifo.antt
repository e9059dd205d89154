-- ===== src/Store/Tasks/Fifo.antt =====
-- A poll takes the tasks that have waited longest.
use cqupt_block_storage.Base.{
  ℕ, ◌≤◌, ◌≡◌, subst, List, [], ◌∷◌, map, true, false, ◌⊎◌, inl, inr, some, arith, Bool-cases,
  bytes_key, find, values, values-Mem, Memᴰ, All, All-imp, list_less_asym, list_less_trans, take,
  length, min, sort_by, sort_by-Mem, sort_by-Sorted, take-Sorted, IsOrder,
}
use cqupt_block_storage.Common.Status.{Result-cases, ok}
use cqupt_block_storage.Store.Types.{TaskState, TaskRecord, task_state_eq}
use cqupt_block_storage.Store.Tasks.{
  TaskManager, assigned, waiting_tasks, sort_tasks, assign_each, next_waiting,
  assign_next_waiting_tasks, less_by_fifo,
}

pub less_by_fifo-IsOrder : IsOrder less_by_fifo
unfolding less_by_fifo
less_by_fifo-IsOrder = record {
  asym = λ a b h. ground (arith, h, list_less_asym a.task_id b.task_id);
  negative_trans = λ a b c h g. ground (arith, h, g, list_less_trans a.task_id b.task_id c.task_id);
}

pub waiting_tasks-Mem :
    (w : TaskRecord) (ts : List TaskRecord)
    → task_state_eq w.state TaskState.waiting ≡ true
    → Memᴰ w ts
    → Memᴰ w (waiting_tasks ts)
unfolding waiting_tasks
waiting_tasks-Mem w [] h m = elim m [ ]
waiting_tasks-Mem w (t ∷ ts) h (Memᴰ.head e) =
    let waits : task_state_eq t.state TaskState.waiting ≡ true =
      subst (λ x. task_state_eq x.state TaskState.waiting ≡ true) e h in
    rw waits (Memᴰ.head e)
waiting_tasks-Mem w (t ∷ ts) h (Memᴰ.tail m) =
    elim (Bool-cases (task_state_eq t.state TaskState.waiting)) [
      | inl e ↦ rw e (Memᴰ.tail (waiting_tasks-Mem w ts h m))
      | inr e ↦ rw e (waiting_tasks-Mem w ts h m)
    ]

-- `less_by_fifo` looks at the place in the queue first.
pub sequence_le : (w t : TaskRecord) → less_by_fifo w t ≡ false → t.sequence ≤ w.sequence
unfolding less_by_fifo
sequence_le w t h = ground (arith, h)

pub next_waiting-first :
    (k : ℕ) (m : TaskManager) (id : List ℕ) (w : TaskRecord)
    → find id m.tasks ≡ some w
    → task_state_eq w.state TaskState.waiting ≡ true
    → Memᴰ w (next_waiting k m) ⊎ All (λ t. t.sequence ≤ w.sequence) (next_waiting k m)
unfolding next_waiting sort_tasks
next_waiting-first k m id w found waits =
    let waiting = waiting_tasks (values m.tasks) in
    let n = min (length (sort_by less_by_fifo waiting)) k in
    let there =
      sort_by-Mem less_by_fifo w waiting
        (waiting_tasks-Mem w (values m.tasks) waits (values-Mem id w m.tasks found)) in
    elim (take-Sorted less_by_fifo n (sort_by less_by_fifo waiting) w
      (sort_by-Sorted less_by_fifo less_by_fifo-IsOrder waiting) there) [
        | inl here ↦ inl here
        | inr first ↦ inr (
            All-imp (λ t. less_by_fifo w t ≡ false) (λ t. t.sequence ≤ w.sequence)
              (take n (sort_by less_by_fifo waiting)) (sequence_le w) first)
      ]

pub assign_each-map :
    (store : ℕ) (ts us : List TaskRecord)
    → assign_each store ts ≡ ok us
    → us ≡ map (assigned store) ts
unfolding assign_each
assign_each-map store [] us e = ground (arith, e)
assign_each-map store (t ∷ ts) us e = elim (Result-cases (assign_each store ts)) [
  | inl (vs, f) ↦ ground (arith, e, f, assign_each-map store ts vs f)
  | inr (code, f) ↦ absurd (ground (arith, e, f))
]

pub assign_next_waiting_tasks-each :
    (store k : ℕ) (m : TaskManager) (us : List TaskRecord)
    → (assign_next_waiting_tasks store k m).0 ≡ ok us
    → assign_each store (next_waiting k m) ≡ ok us
unfolding assign_next_waiting_tasks
assign_next_waiting_tasks-each store k m us e = ground (arith, e)
