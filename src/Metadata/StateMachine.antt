-- ===== src/Metadata/StateMachine.antt =====
-- `MetadataStateMachine` (metadata/metadata_state_machine.h and .cpp): what a committed command does
-- to the records, the stores and the tasks.
pub mod Apply
pub mod History
pub mod Effect
use cqupt_block_storage.Base.{
  ℕ, suc, List, [], ◌∷◌, Bool, true, false, not, ◌&&◌, ◌||◌, Option, none, some, ltb, ◌==◌,
  if◌then◌else◌, length, is_empty, bytes_key, find, insert, list_eq, inc_u64,
}
use cqupt_block_storage.Base.Int.{ℤ, pos}
use cqupt_block_storage.Common.Status
use cqupt_block_storage.Common.Status.{
  Result, ok, err, ⊤, invalid_argument, busy, not_found, corruption,
}
use cqupt_block_storage.Common.Action.{Action, pure, check, modify, refuse_if, ◌>>=◌, ◌>>◌}
use cqupt_block_storage.Store.Types.{
  StoreInfo, StoreState, TaskRecord, TaskResultReport, task_state_eq,
}
use cqupt_block_storage.Store.Registry.{
  StoreRegistry, empty_registry, is_mismatch, register_store, update_store, remove_store, get_store,
  list_stores, update_heartbeat,
}
use cqupt_block_storage.Store.Tasks.{
  TaskManager, empty_tasks, create_task, get_task, list_tasks, assign_next_waiting_tasks,
  complete_task,
}
use cqupt_block_storage.Metadata.Command.{MetadataCommand, MetadataCommandType}
use cqupt_block_storage.Metadata.Command.Decoding.{decode_command}
use cqupt_block_storage.Metadata.Business.{
  StoreBusinessCommand, StoreBusinessCommandKind, StoreBusinessResult, encode_result,
}
use cqupt_block_storage.Metadata.Business.Decoding.{decode_business}

pub record MetadataStateRecord : Type 0 where
  pub target_id : List ℕ
  pub payload : List ℕ
  pub generation : ℕ
  pub last_command_id : List ℕ
  pub last_update_index : ℕ
  pub last_update_term : ℕ

pub record MetadataStateMachine : Type 0 where
  pub records : List (List ℕ × MetadataStateRecord)
  pub last_applied_index : ℕ
  pub last_applied_term : ℕ
  pub stores : StoreRegistry
  pub tasks : TaskManager

abbrev pub empty_machine : MetadataStateMachine
empty_machine = record {
  records = [];
  last_applied_index = 0;
  last_applied_term = 0;
  stores = empty_registry;
  tasks = empty_tasks;
}

-- A call of `stores_` or of `tasks_`.
abbrev pub on_stores : {A : Type 0} → Action StoreRegistry A → Action MetadataStateMachine A
on_stores f m = let (r, s) = f m.stores in (r, record m { stores = s })

abbrev pub on_tasks : {A : Type 0} → Action TaskManager A → Action MetadataStateMachine A
on_tasks f m = let (r, t) = f m.tasks in (r, record m { tasks = t })

-- its generation, with the record that was there before
abbrev pub generation_after : Option MetadataStateRecord → ℕ
generation_after none = 1
generation_after (some r) = inc_u64 r.generation

-- its target: the record's own, where there was one before
abbrev pub target_after : MetadataCommand → Option MetadataStateRecord → List ℕ
target_after c none = c.target_id
target_after c (some r) = r.target_id

-- the record of the target after a command
abbrev pub record_after :
    ℕ → ℕ → MetadataCommand → List ℕ → Option MetadataStateRecord → MetadataStateRecord
record_after index term c payload before = record {
  target_id = target_after c before;
  payload = payload;
  generation = generation_after before;
  last_command_id = c.command_id;
  last_update_index = index;
  last_update_term = term;
}

-- the write that both kinds of command end with
unfoldable pub put_record :
    ℕ → ℕ → MetadataCommand → List ℕ → MetadataStateMachine → MetadataStateMachine
put_record index term c payload m =
    let candidate = record_after index term c payload (find c.target_id m.records) in
    record m { records = insert candidate.target_id candidate m.records }

-- the check of `expected_generation` against the record of the target
unfoldable pub check_generation : Option ℕ → Option MetadataStateRecord → Result ⊤
check_generation none r = ok tt
check_generation (some g) none = err not_found
check_generation (some g) (some r) = if not (r.generation == g) then err busy else ok tt

unfoldable pub apply_opaque_command : ℕ → ℕ → MetadataCommand → Action MetadataStateMachine ⊤
apply_opaque_command index term c = do
  check λ m. check_generation c.expected_generation (find c.target_id m.records)
  modify (put_record index term c c.payload)

-- A result that holds a store, and one that holds tasks. The id of the store of the second is not
-- initialised in the source; `unset` is the number that stands there.
abbrev pub store_result : StoreInfo → StoreBusinessResult
store_result s = record { store = s; tasks = []; duplicate_result = false }

abbrev pub tasks_result : ℕ → List TaskRecord → Bool → StoreBusinessResult
tasks_result unset ts duplicate = record {
  store = record {
    id = unset;
    address = record { host = []; port = 0 };
    capacity_bytes = 0;
    used_bytes = 0;
    state = StoreState.running;
    generation = 0;
    last_heartbeat_ms = pos 0;
  };
  tasks = ts;
  duplicate_result = duplicate;
}

-- `duplicate_result`: the task was there, and the report left it as it was
unfoldable pub is_duplicate : Result TaskRecord → TaskRecord → Bool
is_duplicate (err e) after = false
is_duplicate (ok before) after =
    task_state_eq before.state after.state
    && (list_eq before.result_payload after.result_payload && before.generation == after.generation)

-- the cases of the `switch` that take more than one call
unfoldable pub run_remove : StoreBusinessCommand → Action MetadataStateMachine StoreBusinessResult
run_remove c = do
  s ← check λ m. get_store c.store_id m.stores
  refuse_if (λ m. is_mismatch c.store_update.expected_generation s.generation) busy
  on_stores (remove_store c.store_id)
  pure (store_result s)

unfoldable pub run_report : ℕ → TaskResultReport → Action MetadataStateMachine StoreBusinessResult
run_report unset r m =
    let before = get_task r.task_id m.tasks in
    (on_tasks (complete_task r)
        >>= (λ after. pure (tasks_result unset (after ∷ []) (is_duplicate before after))))
      m

unfoldable pub run_business :
    ℕ → StoreBusinessCommand → Action MetadataStateMachine StoreBusinessResult
run_business unset c = elim c.kind [
  | StoreBusinessCommandKind.register_store ↦ do
    s ← on_stores (register_store c.store)
    pure (store_result s)
  | StoreBusinessCommandKind.update_store_state ↦ do
    s ← on_stores (update_store c.store_update)
    pure (store_result s)
  | StoreBusinessCommandKind.remove_store ↦ run_remove c
  | StoreBusinessCommandKind.create_task ↦ do
    t ← on_tasks (create_task c.task_create)
    pure (tasks_result unset (t ∷ []) false)
  | StoreBusinessCommandKind.poll_tasks ↦ do
    ts ← on_tasks (assign_next_waiting_tasks c.store_id c.max_tasks)
    pure (tasks_result unset ts false)
  | StoreBusinessCommandKind.report_task_result ↦ run_report unset c.task_result
  | StoreBusinessCommandKind.other n ↦ pure (tasks_result unset [] false)
]

unfoldable pub apply_store_command : ℕ → ℕ → ℕ → MetadataCommand → Action MetadataStateMachine ⊤
apply_store_command unset index term c = do
  store_command ← check λ m. decode_business c.payload
  result ← run_business unset store_command
  payload ← check λ m. encode_result result
  modify (put_record index term c payload)

-- the branch on the command's type
unfoldable pub apply_command : ℕ → ℕ → ℕ → MetadataCommand → Action MetadataStateMachine ⊤
apply_command unset index term c = elim c.type [
  | MetadataCommandType.store_operation ↦ apply_store_command unset index term c
  | MetadataCommandType.opaque_operation ↦ apply_opaque_command index term c
  | MetadataCommandType.other n ↦ apply_opaque_command index term c
]

-- the end of `Apply`
abbrev pub advance : ℕ → ℕ → MetadataStateMachine → MetadataStateMachine
advance index term m = record m { last_applied_index = index; last_applied_term = term }

unfoldable pub apply : ℕ → ℕ → ℕ → List ℕ → Action MetadataStateMachine ⊤
apply unset index term command_payload = do
  refuse_if (λ m. index == 0) invalid_argument
  refuse_if (λ m. term == 0) invalid_argument
  command ← check λ m. decode_command command_payload
  refuse_if (λ m. index == m.last_applied_index) busy
  refuse_if (λ m. ltb index (inc_u64 m.last_applied_index)) busy
  refuse_if (λ m. ltb (inc_u64 m.last_applied_index) index) busy
  apply_command unset index term command
  modify (advance index term)

unfoldable pub get_record : List ℕ → MetadataStateMachine → Result MetadataStateRecord
get_record target_id m =
    if is_empty target_id
    then err invalid_argument
    else elim (find target_id m.records) [ none ↦ err not_found | some r ↦ ok r ]

unfoldable pub get_last_applied : MetadataStateMachine → ℕ × ℕ
get_last_applied m = (m.last_applied_index, m.last_applied_term)

-- the calls that are passed on
unfoldable pub get_store_of : ℕ → MetadataStateMachine → Result StoreInfo
get_store_of id m = get_store id m.stores

abbrev pub list_stores_of : MetadataStateMachine → List StoreInfo
list_stores_of m = list_stores m.stores

unfoldable pub update_store_heartbeat : ℕ → ℤ → Action MetadataStateMachine StoreInfo
update_store_heartbeat id ms = on_stores (update_heartbeat id ms)

unfoldable pub get_task_of : List ℕ → MetadataStateMachine → Result TaskRecord
get_task_of id m = get_task id m.tasks

unfoldable pub list_tasks_of : MetadataStateMachine → List TaskRecord
list_tasks_of m = list_tasks m.tasks
