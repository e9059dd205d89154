-- ===== src/Store/Tasks.antt =====
-- `class TaskManager` (store/task_manager.cpp): the life of a task.
pub mod Restore
pub mod Lifecycle
pub mod Waiting
pub mod History
pub mod Fifo
pub mod Poll
pub mod Progress
pub mod Repeats
use cqupt_block_storage.Base.{
  ℕ, zero, suc, ◌+◌, ◌-◌, ◌*◌, List, [], ◌∷◌, Bool, true, false, not, ◌&&◌, ◌||◌, Option, none,
  some, ltb, leb, ◌==◌, if◌then◌else◌, is_empty, length, take, min, bytes_key, find, insert, values,
  list_eq, list_less, u64_mod, sort_by,
}
use cqupt_block_storage.Common.Status
use cqupt_block_storage.Common.Status.{
  Result, ok, err, ⊤, reject_if, invalid_argument, busy, not_found,
}
use cqupt_block_storage.Common.Action.{Action, pure, check, modify, refuse_if, ◌>>=◌, ◌>>◌}
use cqupt_block_storage.Store.Types.{
  TaskType, TaskState, TaskRecord, TaskCreateRequest, TaskResultReport, task_type_eq, task_state_eq,
  task_type_value, task_state_value,
}
use cqupt_block_storage.Store.Registry.{is_mismatch, validate_store_id}

-- `tasks_` and `next_sequence_`
pub record TaskManager : Type 0 where
  pub tasks : List (List ℕ × TaskRecord)
  pub next_sequence : ℕ

abbrev pub empty_tasks : TaskManager
empty_tasks = record { tasks = []; next_sequence = 1 }

abbrev pub max_task_id_bytes : ℕ
max_task_id_bytes = 4 * 1024

abbrev pub max_task_payload_bytes : ℕ
max_task_payload_bytes = 4 * 1024 * 1024

-- `std::numeric_limits<std::uint64_t>::max()`
abbrev pub u64_max : ℕ
u64_max = u64_mod - 1

abbrev pub validate_task_id : List ℕ → Result ⊤
validate_task_id id =
    if is_empty id
    then err invalid_argument
    else if ltb max_task_id_bytes (length id)
    then err invalid_argument
    else ok tt

abbrev pub validate_task_type : TaskType → Result ⊤
validate_task_type t = reject_if (ltb 3 (task_type_value t)) invalid_argument

abbrev pub validate_task_state : TaskState → Result ⊤
validate_task_state s = reject_if (ltb 3 (task_state_value s)) invalid_argument

abbrev pub is_terminal : TaskState → Bool
is_terminal s = task_state_eq s TaskState.success || task_state_eq s TaskState.failed

unfoldable pub same_create_request : TaskRecord → TaskCreateRequest → Bool
unfolding list_eq
same_create_request t q = task_type_eq t.type q.type && list_eq t.target_payload q.target_payload

unfoldable pub same_result : TaskRecord → TaskResultReport → Bool
unfolding list_eq
same_result t r =
    t.assigned_store == r.store_id
    && (task_state_eq t.state r.final_state && list_eq t.result_payload r.result_payload)

-- `LessByFifo`
unfoldable pub less_by_fifo : TaskRecord → TaskRecord → Bool
unfolding list_less
less_by_fifo a b =
    if not (a.sequence == b.sequence)
    then ltb a.sequence b.sequence
    else list_less a.task_id b.task_id

-- `std::sort` by `LessByFifo`
unfoldable pub sort_tasks : List TaskRecord → List TaskRecord
unfolding sort_by less_by_fifo
sort_tasks ts = sort_by less_by_fifo ts

-- `it->second = …` and `tasks_[id] = …`
unfoldable pub put_task : List ℕ → TaskRecord → TaskManager → TaskManager
put_task id t m = record m { tasks = insert id t m.tasks }

unfoldable pub lookup_task : List ℕ → TaskManager → Result TaskRecord
unfolding find
lookup_task id m = elim (find id m.tasks) [ none ↦ err not_found | some t ↦ ok t ]

abbrev pub new_task : TaskCreateRequest → ℕ → TaskRecord
new_task q n = record {
  task_id = q.task_id;
  type = q.type;
  state = TaskState.waiting;
  target_payload = q.target_payload;
  assigned_store = 0;
  result_payload = [];
  generation = 1;
  sequence = n;
}

-- the branch of `CreateTask` for an id that is new
unfoldable pub add_task : TaskCreateRequest → Action TaskManager TaskRecord
add_task q m = if m.next_sequence == u64_max then (err busy, m) else (
  ok (new_task q m.next_sequence),
  record {
    tasks = insert q.task_id (new_task q m.next_sequence) m.tasks;
    next_sequence = suc m.next_sequence;
  },
)

unfoldable pub create_task : TaskCreateRequest → Action TaskManager TaskRecord
create_task q = do
  check λ m. validate_task_id q.task_id
  check λ m. validate_task_type q.type
  refuse_if (λ m. ltb max_task_payload_bytes (length q.target_payload)) invalid_argument
  λ m. elim (find q.task_id m.tasks) [
    | none ↦ add_task q m
    | some t ↦ if same_create_request t q then (ok t, m) else (err busy, m)
  ]

unfoldable pub get_task : List ℕ → TaskManager → Result TaskRecord
get_task id m = Status.◌>>◌ (validate_task_id id) (lookup_task id m)

-- `ListTasks`, `ExportPersistent`
unfoldable pub list_tasks : TaskManager → List TaskRecord
unfolding sort_tasks
list_tasks m = sort_tasks (values m.tasks)

-- a task as it is handed to a store
abbrev pub assigned : ℕ → TaskRecord → TaskRecord
assigned store t = record t {
  state = TaskState.running;
  assigned_store = store;
  generation = suc t.generation;
}

-- `AssignTask` on the record that is found; `none` where there is nothing to write
unfoldable pub assign_found : ℕ → Option ℕ → TaskRecord → Result (Option TaskRecord)
assign_found store expected t =
    if is_mismatch expected t.generation
    then err busy
    else if task_state_eq t.state TaskState.running && t.assigned_store == store
    then ok none
    else if not (task_state_eq t.state TaskState.waiting)
    then err busy
    else if t.generation == u64_max
    then err busy
    else ok (some (assigned store t))

-- the end of both calls: the write, and the record that is returned
unfoldable pub store_update :
    List ℕ → TaskRecord → Option TaskRecord → Action TaskManager TaskRecord
store_update id t none m = (ok t, m)
store_update id t (some u) m = (ok u, put_task id u m)

unfoldable pub assign_task : List ℕ → ℕ → Option ℕ → Action TaskManager TaskRecord
assign_task id store expected = do
  check λ m. validate_task_id id
  check λ m. validate_store_id store
  current ← check (lookup_task id)
  updated ← check λ m. assign_found store expected current
  store_update id current updated

-- the loop that collects the waiting tasks
unfoldable pub waiting_tasks : List TaskRecord → List TaskRecord
waiting_tasks [] = []
waiting_tasks (t ∷ ts) =
    let rest = waiting_tasks ts in
    if task_state_eq t.state TaskState.waiting then t ∷ rest else rest

-- the loop that makes the records to be stored
unfoldable pub assign_each : ℕ → List TaskRecord → Result (List TaskRecord)
assign_each store [] = ok []
assign_each store (t ∷ ts) =
    let rest = assign_each store ts in
    if t.generation == u64_max then err busy else Status.◌>>=◌ rest λ us. ok (assigned store t ∷ us)

-- the loop that stores them
unfoldable pub put_tasks : List TaskRecord → TaskManager → TaskManager
put_tasks [] m = m
put_tasks (t ∷ ts) m = put_tasks ts (put_task t.task_id t m)

-- the waiting tasks that a poll takes
unfoldable pub next_waiting : ℕ → TaskManager → List TaskRecord
unfolding waiting_tasks sort_tasks
next_waiting n m =
    let waiting = sort_tasks (waiting_tasks (values m.tasks)) in
    take (min (length waiting) n) waiting

unfoldable pub assign_next_waiting_tasks : ℕ → ℕ → Action TaskManager (List TaskRecord)
assign_next_waiting_tasks store max_tasks = do
  check λ m. validate_store_id store
  refuse_if (λ m. max_tasks == 0) invalid_argument
  result ← check λ m. assign_each store (next_waiting max_tasks m)
  modify (put_tasks result)
  pure result

-- a task with its result
abbrev pub completed : TaskResultReport → TaskRecord → TaskRecord
completed r t = record t {
  state = r.final_state;
  result_payload = r.result_payload;
  generation = suc t.generation;
}

-- `CompleteTask` on the record that is found; `none` where there is nothing to write
unfoldable pub complete_found : TaskResultReport → TaskRecord → Result (Option TaskRecord)
unfolding same_result
complete_found r t =
    if is_mismatch r.expected_generation t.generation
    then err busy
    else if is_terminal t.state
    then (if same_result t r then ok none else err busy)
    else if not (task_state_eq t.state TaskState.running)
    then err busy
    else if not (t.assigned_store == r.store_id)
    then err busy
    else if t.generation == u64_max
    then err busy
    else ok (some (completed r t))

unfoldable pub complete_task : TaskResultReport → Action TaskManager TaskRecord
complete_task r = do
  check λ m. validate_store_id r.store_id
  check λ m. validate_task_id r.task_id
  refuse_if (λ m. not (is_terminal r.final_state)) invalid_argument
  refuse_if (λ m. ltb max_task_payload_bytes (length r.result_payload)) invalid_argument
  current ← check (lookup_task r.task_id)
  updated ← check λ m. complete_found r current
  store_update r.task_id current updated
