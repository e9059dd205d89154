-- ===== src/Store/Tasks/History.antt =====
-- The calls of a `TaskManager` as steps, and what they keep.
use cqupt_block_storage.Base.{
  ℕ, ◌≡◌, List, [], ◌∷◌, true, Option, some, inl, inr, arith, Bool-cases, bytes_key, find,
}
use cqupt_block_storage.Common.Status.{Result, ok}
use cqupt_block_storage.Common.Action.{check, ◌>>=◌}
use cqupt_block_storage.Store.Types.{TaskRecord, TaskCreateRequest, TaskResultReport}
use cqupt_block_storage.Store.Tasks.{
  TaskManager, is_terminal, create_task, assign_found, store_update, assign_task, put_task,
  lookup_task, assign_next_waiting_tasks, complete_found, complete_task, empty_tasks,
}
use cqupt_block_storage.Store.Tasks.Lifecycle.{
  Evolves, assigned-Evolves, completed-Evolves, add_task-Keeps, put_task-Keeps, IsKeyed, Keeps,
  Keeps-refl, Keeps-trans,
}
use cqupt_block_storage.Store.Tasks.Waiting.{assign_next-Keeps}

-- The end of `assign_task` and of `complete_task`.
update-Keeps :
    (id : List ℕ) (r : TaskRecord → Result (Option TaskRecord)) (m : TaskManager)
    → ((t u : TaskRecord) → r t ≡ ok (some u) → Evolves t u)
    → Keeps m
        ((do
          current ← check (lookup_task id)
          updated ← check λ m. r current
          store_update id current updated)
          m).1
unfolding lookup_task store_update
update-Keeps id r m h =
    let step : (t u : TaskRecord)
        → find id m.tasks ≡ some t
        → r t ≡ ok (some u)
        → Keeps m (put_task id u m) =
      λ t u found e. put_task-Keeps id t u m found (h t u e) in
    grind (arith, step, Keeps-refl m)

create_task-Keeps : (q : TaskCreateRequest) (m : TaskManager) → Keeps m (create_task q m).1
unfolding create_task
create_task-Keeps q m = ground (arith, add_task-Keeps q m, Keeps-refl m)

assign_found-Evolves :
    (store : ℕ) (e : Option ℕ) (t u : TaskRecord)
    → assign_found store e t ≡ ok (some u)
    → Evolves t u
unfolding assign_found
assign_found-Evolves store e t u h = ground (arith, h, assigned-Evolves store t)

assign_task-Keeps :
    (id : List ℕ) (store : ℕ) (e : Option ℕ) (m : TaskManager)
    → Keeps m (assign_task id store e m).1
unfolding assign_task
assign_task-Keeps id store e m =
    grind
      (arith, update-Keeps id (assign_found store e) m (assign_found-Evolves store e), Keeps-refl m)

complete_found-Evolves :
    (r : TaskResultReport) (t u : TaskRecord)
    → is_terminal r.final_state ≡ true
    → complete_found r t ≡ ok (some u)
    → Evolves t u
unfolding complete_found
complete_found-Evolves r t u f h = ground (arith, h, completed-Evolves r t f)

complete_task-Keeps : (r : TaskResultReport) (m : TaskManager) → Keeps m (complete_task r m).1
unfolding complete_task
complete_task-Keeps r m = elim (Bool-cases (is_terminal r.final_state)) [
  | inl f ↦ grind (
    arith,
    update-Keeps r.task_id (complete_found r) m λ t u. complete_found-Evolves r t u f,
    Keeps-refl m,
  )
  | inr f ↦ grind (arith, f, Keeps-refl m)
]

assign_next_waiting_tasks-Keeps :
    (store k : ℕ) (m : TaskManager) → Keeps m (assign_next_waiting_tasks store k m).1
unfolding assign_next_waiting_tasks
assign_next_waiting_tasks-Keeps store k m = grind (arith, assign_next-Keeps store k m, Keeps-refl m)

-- A call that changes the tasks of a running server; `restore_persistent`, which replaces them all,
-- is not one.
pub data Call : Type 0 where
  create : TaskCreateRequest → Call
  assign : List ℕ → ℕ → Option ℕ → Call
  poll : ℕ → ℕ → Call
  complete : TaskResultReport → Call

unfoldable pub after : Call → TaskManager → TaskManager
after (create q) m = (create_task q m).1
after (assign id store e) m = (assign_task id store e m).1
after (poll store k) m = (assign_next_waiting_tasks store k m).1
after (complete r) m = (complete_task r m).1

unfoldable pub history : List Call → TaskManager → TaskManager
unfolding after
history [] m = m
history (c ∷ cs) m = history cs (after c m)

after-Keeps : (c : Call) (m : TaskManager) → Keeps m (after c m)
unfolding after
after-Keeps (create q) m = create_task-Keeps q m
after-Keeps (assign id store e) m = assign_task-Keeps id store e m
after-Keeps (poll store k) m = assign_next_waiting_tasks-Keeps store k m
after-Keeps (complete r) m = complete_task-Keeps r m

history-Keeps : (cs : List Call) (m : TaskManager) → Keeps m (history cs m)
unfolding history
history-Keeps [] m = Keeps-refl m
history-Keeps (c ∷ cs) m =
    Keeps-trans m (after c m) (history cs (after c m)) (after-Keeps c m)
      (history-Keeps cs (after c m))

empty_tasks-IsKeyed : IsKeyed empty_tasks
unfolding find
empty_tasks-IsKeyed = record { distinct = tt; named = λ id t h. absurd (ground (arith, h)) }

-- From an empty task manager, after any calls that create, assign, poll or complete tasks, a task
-- that is there is, after any further such calls, still there under its id, with the same id,
-- type, payload and place in the queue; its generation has not fallen, and the task is unchanged
-- if the generation is the same or if its state was final; if it was no longer waiting, it is not
-- waiting again, and belongs to the same store.
pub history-Evolves :
    (earlier later : List Call) (id : List ℕ) (t : TaskRecord)
    → find id (history earlier empty_tasks).tasks ≡ some t
    → (u : TaskRecord) × (find id (history later (history earlier empty_tasks)).tasks ≡ some u)
      × Evolves t u
unfolding Keeps
history-Evolves earlier later id t found =
    (history-Keeps later (history earlier empty_tasks)
        (history-Keeps earlier empty_tasks empty_tasks-IsKeyed).0).1
      id t found

pub history-IsKeyed : (cs : List Call) → IsKeyed (history cs empty_tasks)
unfolding Keeps
history-IsKeyed cs = (history-Keeps cs empty_tasks empty_tasks-IsKeyed).0
