-- ===== src/Store/Tasks/Waiting.antt =====
-- The waiting tasks that a poll takes, and what it makes of them.
use cqupt_block_storage.Base.{
  ℕ, ◌≡◌, sym, subst, List, [], ◌∷◌, true, some, inl, inr, Bool-cases, bytes_key, find, All,
  All-take, All-values, values, length, min, ◌==◌, sort_by, sort_by-All,
}
use cqupt_block_storage.Common.Status
use cqupt_block_storage.Common.Status.{Result, ok, err, ⊤}
use cqupt_block_storage.Store.Types.{TaskState, TaskRecord, task_state_eq}
use cqupt_block_storage.Store.Tasks.{
  TaskManager, assigned, put_tasks, waiting_tasks, sort_tasks, assign_each, next_waiting,
  less_by_fifo, u64_max,
}
use cqupt_block_storage.Store.Tasks.Lifecycle.{
  assigned-Evolves, IsKeyed, IsUpdateOf, Keeps, Keeps-refl, put_tasks-Keeps,
}

-- The tasks that a poll looks at, and what it makes of them.
module _ (P : TaskRecord → Type 0) where
  pub waiting_tasks-All :
      (ts : List TaskRecord)
      → All P ts
      → All (λ t. P t × (task_state_eq t.state TaskState.waiting ≡ true)) (waiting_tasks ts)
  unfolding waiting_tasks
  waiting_tasks-All [] h = h
  waiting_tasks-All (t ∷ ts) (p, h) = elim (Bool-cases (task_state_eq t.state TaskState.waiting)) [
    | inl e ↦ rw e ((p, e), waiting_tasks-All ts h)
    | inr e ↦ rw e (waiting_tasks-All ts h)
  ]

-- A task that waits under its id.
abbrev pub IsWaiting : TaskManager → TaskRecord → Type 0
IsWaiting m t = (find t.task_id m.tasks ≡ some t) × (task_state_eq t.state TaskState.waiting ≡ true)

pub next_waiting-IsWaiting :
    (k : ℕ) (m : TaskManager) → IsKeyed m → All (IsWaiting m) (next_waiting k m)
unfolding next_waiting sort_tasks
next_waiting-IsWaiting k m v =
    let there : All (λ t. find t.task_id m.tasks ≡ some t) (values m.tasks) =
      All-values (λ t. find t.task_id m.tasks ≡ some t) m.tasks v.distinct
        λ id t found. subst (λ i. find i m.tasks ≡ some t) (sym (v.named id t found)) found in
    All-take (IsWaiting m) (min (length (sort_by less_by_fifo (waiting_tasks (values m.tasks)))) k)
      _
      (sort_by-All less_by_fifo (IsWaiting m) _
        (waiting_tasks-All (λ t. find t.task_id m.tasks ≡ some t) _ there))

-- A property of what a call writes when it succeeds.
abbrev OnOk {ℓ κ} : {A : Type ℓ} → (A → Type κ) → Result A → Type κ
OnOk P (ok a) = P a
OnOk P (err e) = Unit

OnOk-map :
    (P Q : List TaskRecord → Type 0) (f : List TaskRecord → List TaskRecord)
    (r : Result (List TaskRecord))
    → ((us : List TaskRecord) → P us → Q (f us))
    → OnOk P r
    → OnOk Q (Status.◌>>=◌ r λ us. ok (f us))
OnOk-map P Q f (ok us) step h = step us h
OnOk-map P Q f (err e) step h = tt

assign_each-IsUpdateOf :
    (store : ℕ) (m : TaskManager) (ts : List TaskRecord)
    → All (IsWaiting m) ts
    → OnOk (All (IsUpdateOf m)) (assign_each store ts)
unfolding assign_each
assign_each-IsUpdateOf store m [] h = tt
assign_each-IsUpdateOf store m (t ∷ ts) ((found, w), h) =
    elim (Bool-cases (t.generation == u64_max)) [
      | inl e ↦ rw e tt
      | inr e ↦ rw e (
          OnOk-map (All (IsUpdateOf m)) (All (IsUpdateOf m)) (λ us. assigned store t ∷ us)
            (assign_each store ts) (λ us rest. ((t, found, assigned-Evolves store t w), rest))
            (assign_each-IsUpdateOf store m ts h))
    ]

-- What a poll writes.
pub assign_next-Keeps :
    (store k : ℕ) (m : TaskManager) (us : List TaskRecord)
    → assign_each store (next_waiting k m) ≡ ok us
    → Keeps m (put_tasks us m)
unfolding Keeps
assign_next-Keeps store k m us e v =
    put_tasks-Keeps us m m
      (subst (OnOk (All (IsUpdateOf m))) e
        (assign_each-IsUpdateOf store m (next_waiting k m) (next_waiting-IsWaiting k m v)))
      (Keeps-refl m) v
