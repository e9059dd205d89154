-- ===== src/Store/Tasks/Repeats.antt =====
-- A call that is sent again, because its answer was lost, changes nothing more.
use cqupt_block_storage.Base.{
  ℕ, ◌≡◌, List, true, Option, none, some, inl, inr, arith, Option-cases, bytes_key, find,
  find-insert, list_eq_iff,
}
use cqupt_block_storage.Common.Status.{Result-cases, ok}
use cqupt_block_storage.Store.Types.{TaskRecord, TaskCreateRequest, TaskResultReport}
use cqupt_block_storage.Store.Tasks.{
  TaskManager, is_terminal, same_create_request, same_result, add_task, new_task, create_task,
  put_task, lookup_task, store_update, complete_found, complete_task,
}

-- the record that a report leaves is the one that the same report finds
complete_found-again :
    (r : TaskResultReport) (t u : TaskRecord)
    → r.expected_generation ≡ none
    → is_terminal r.final_state ≡ true
    → complete_found r t ≡ ok (some u)
    → complete_found r u ≡ ok none
unfolding complete_found same_result
complete_found-again r t u g f h =
    ground (arith, g, f, h, list_eq_iff r.result_payload r.result_payload)

find-put_task :
    (id : List ℕ) (t : TaskRecord) (m : TaskManager) → find id (put_task id t m).tasks ≡ some t
unfolding put_task
find-put_task id t m = ground (arith, find-insert id id t m.tasks, list_eq_iff id id)

complete_task-update :
    (r : TaskResultReport) (t0 t : TaskRecord) (u : Option TaskRecord) (m n : TaskManager)
    → find r.task_id m.tasks ≡ some t0
    → complete_found r t0 ≡ ok u
    → complete_task r m ≡ (ok t, n)
    → (is_terminal r.final_state ≡ true) × (store_update r.task_id t0 u m ≡ (ok t, n))
unfolding complete_task lookup_task
complete_task-update r t0 t u m n found e h = (ground (arith, h), ground (arith, h, found, e))

complete_task-found :
    (r : TaskResultReport) (t : TaskRecord) (m n : TaskManager)
    → complete_task r m ≡ (ok t, n)
    → (t0 : TaskRecord) × (u : Option TaskRecord) × (find r.task_id m.tasks ≡ some t0)
      × (complete_found r t0 ≡ ok u)
unfolding complete_task lookup_task
complete_task-found r t m n h = elim (Option-cases (find r.task_id m.tasks)) [
  | inl f ↦ absurd (ground (arith, h, f))
  | inr (t0, f) ↦ elim (Result-cases (complete_found r t0)) [
    | inl (u, e) ↦ (t0, u, f, e)
    | inr (code, e) ↦ absurd (ground (arith, h, f, e))
  ]
]

update-again :
    (r : TaskResultReport) (t0 t : TaskRecord) (u : Option TaskRecord) (m n : TaskManager)
    → r.expected_generation ≡ none
    → is_terminal r.final_state ≡ true
    → find r.task_id m.tasks ≡ some t0
    → complete_found r t0 ≡ ok u
    → store_update r.task_id t0 u m ≡ (ok t, n)
    → (find r.task_id n.tasks ≡ some t) × (complete_found r t ≡ ok none)
unfolding store_update
update-again r t0 t none m n g f found e h = ground (arith, found, e, h)
update-again r t0 t (some u) m n g f found e h =
    let put = find-put_task r.task_id u m in
    let again = complete_found-again r t0 u g f e in ground (arith, h, put, again)

lookup-again :
    (r : TaskResultReport) (t : TaskRecord) (m n : TaskManager)
    → r.expected_generation ≡ none
    → complete_task r m ≡ (ok t, n)
    → (find r.task_id n.tasks ≡ some t) × (complete_found r t ≡ ok none)
lookup-again r t m n g h =
    let (t0, u, found, e) = complete_task-found r t m n h in
    let (f, s) = complete_task-update r t0 t u m n found e h in
    update-again r t0 t u m n g f found e s

-- A report without an expected generation that `CompleteTask` has accepted, sent once more, is
-- answered with the same task and changes nothing.
pub complete_task-again :
    (r : TaskResultReport) (t : TaskRecord) (m n : TaskManager)
    → r.expected_generation ≡ none
    → complete_task r m ≡ (ok t, n)
    → complete_task r n ≡ (ok t, n)
unfolding complete_task lookup_task store_update
complete_task-again r t m n g h =
    let (found, same) = lookup-again r t m n g h in ground (arith, h, found, same)

-- A request that `CreateTask` has accepted, sent once more, is answered with the same task and
-- changes nothing.
pub create_task-again :
    (q : TaskCreateRequest) (t : TaskRecord) (m n : TaskManager)
    → create_task q m ≡ (ok t, n)
    → create_task q n ≡ (ok t, n)
unfolding create_task add_task same_create_request
create_task-again q t m n h = elim (Option-cases (find q.task_id m.tasks)) [
  | inl f ↦
      let made = find-insert q.task_id q.task_id (new_task q m.next_sequence) m.tasks in
      ground (
        arith,
        h,
        f,
        made,
        list_eq_iff q.task_id q.task_id,
        list_eq_iff q.target_payload q.target_payload,
      )
  | inr (t0, f) ↦ ground (arith, h, f)
]
