-- ===== src/Metadata/Business/Decoding.antt =====
-- `DecodeStoreBusinessCommand` and `DecodeStoreBusinessResult` (metadata/metadata_command.cpp).
use cqupt_block_storage.Base.{
  ℕ, zero, suc, List, [], ◌∷◌, Bool, not, Option, none, some, ltb, ◌==◌, if◌then◌else◌, is_empty,
}
use cqupt_block_storage.Base.Int.{pos}
use cqupt_block_storage.Common.Status
use cqupt_block_storage.Common.Status.{Result, ok, err, ⊤, StatusCode, corruption, invalid_argument}
use cqupt_block_storage.Common.Action.{pure, refuse_if, ◌>>=◌, ◌>>◌}
use cqupt_block_storage.Store.Types.{
  StoreInfo, StoreUpdate, StoreState, TaskCreateRequest, TaskResultReport, TaskRecord, TaskState,
  TaskType,
}
use cqupt_block_storage.Metadata.Codec.{
  Reader, read_u8, read_u16, read_u32, read_u64, read_field, max_id_bytes, max_target_bytes,
  max_payload_bytes,
}
use cqupt_block_storage.Metadata.Business.{
  StoreBusinessCommand, StoreBusinessCommandKind, StoreBusinessResult,
  store_business_command_version, store_business_result_version, max_store_business_items,
  validate_business,
}

-- `DecodeStoreState`, `DecodeTaskType`, `DecodeTaskState`, and the cast to a kind
abbrev pub store_state : ℕ → StoreState
store_state n =
    if n == 0
    then StoreState.running
    else if n == 1
    then StoreState.stopped
    else if n == 2
    then StoreState.failed
    else StoreState.other n

abbrev pub task_type : ℕ → TaskType
task_type n =
    if n == 0
    then TaskType.create
    else if n == 1
    then TaskType.delete
    else if n == 2
    then TaskType.copy
    else if n == 3
    then TaskType.custom
    else TaskType.other n

abbrev pub task_state : ℕ → TaskState
task_state n =
    if n == 0
    then TaskState.waiting
    else if n == 1
    then TaskState.running
    else if n == 2
    then TaskState.success
    else if n == 3
    then TaskState.failed
    else TaskState.other n

abbrev pub command_kind : ℕ → StoreBusinessCommandKind
command_kind n =
    if n == 1
    then StoreBusinessCommandKind.register_store
    else if n == 2
    then StoreBusinessCommandKind.update_store_state
    else if n == 3
    then StoreBusinessCommandKind.remove_store
    else if n == 4
    then StoreBusinessCommandKind.create_task
    else if n == 5
    then StoreBusinessCommandKind.poll_tasks
    else if n == 6
    then StoreBusinessCommandKind.report_task_result
    else StoreBusinessCommandKind.other n

-- `ReadStoreInfo`
unfoldable pub read_store : Reader StoreInfo
unfolding read_u8 read_u16 read_u64 read_field
read_store = do
  id ← read_u64
  capacity_bytes ← read_u64
  used_bytes ← read_u64
  state ← read_u8
  generation ← read_u64
  port ← read_u16
  host ← read_field max_target_bytes
  pure (record {
    id = id;
    address = record { host = host; port = port };
    capacity_bytes = capacity_bytes;
    used_bytes = used_bytes;
    state = store_state state;
    generation = generation;
    last_heartbeat_ms = pos 0;
  })

-- `ReadTaskRecord`
unfoldable pub read_task_record : Reader TaskRecord
unfolding read_u8 read_u64 read_field
read_task_record = do
  type ← read_u8
  state ← read_u8
  assigned_store ← read_u64
  generation ← read_u64
  sequence ← read_u64
  task_id ← read_field max_id_bytes
  target_payload ← read_field max_payload_bytes
  result_payload ← read_field max_payload_bytes
  pure (record {
    task_id = task_id;
    type = task_type type;
    state = task_state state;
    target_payload = target_payload;
    assigned_store = assigned_store;
    result_payload = result_payload;
    generation = generation;
    sequence = sequence;
  })

-- `if (n != 0) field = n;`
abbrev pub unless_zero : ℕ → Option ℕ
unless_zero n = if n == 0 then none else some n

-- `if (state != 0xFF) …`
abbrev pub state_of_byte : ℕ → Option StoreState
state_of_byte n = if n == 255 then none else some (store_state n)

unfoldable pub read_update : Reader StoreUpdate
unfolding read_u8 read_u64
read_update = do
  id ← read_u64
  expected_generation ← read_u64
  capacity ← read_u64
  used ← read_u64
  state ← read_u8
  pure (record {
    id = id;
    expected_generation = unless_zero expected_generation;
    capacity_bytes = unless_zero capacity;
    used_bytes = unless_zero used;
    state = state_of_byte state;
  })

unfoldable pub read_create : Reader TaskCreateRequest
unfolding read_u8 read_field
read_create = do
  type ← read_u8
  task_id ← read_field max_id_bytes
  target_payload ← read_field max_payload_bytes
  pure (record { task_id = task_id; type = task_type type; target_payload = target_payload })

unfoldable pub read_report : Reader TaskResultReport
unfolding read_u8 read_u64 read_field
read_report = do
  store_id ← read_u64
  final_state ← read_u8
  task_generation ← read_u64
  task_id ← read_field max_id_bytes
  result_payload ← read_field max_payload_bytes
  pure (record {
    store_id = store_id;
    task_id = task_id;
    final_state = task_state final_state;
    result_payload = result_payload;
    expected_generation = unless_zero task_generation;
  })

unfoldable pub read_business : Reader StoreBusinessCommand
unfolding read_u8 read_u32 read_u64 read_store read_update read_create read_report
read_business = do
  version ← read_u8
  refuse_if (λ rest. not (version == store_business_command_version)) corruption
  kind ← read_u8
  store_id ← read_u64
  max_tasks ← read_u32
  store ← read_store
  store_update ← read_update
  task_create ← read_create
  task_result ← read_report
  refuse_if (λ rest. not (is_empty rest)) corruption
  pure (record {
    kind = command_kind kind;
    store = store;
    store_update = store_update;
    task_create = task_create;
    task_result = task_result;
    store_id = store_id;
    max_tasks = max_tasks;
  })

-- the status of the last check: an invalid argument counts as corruption
abbrev pub as_corruption : StatusCode → StatusCode
as_corruption invalid_argument = corruption
as_corruption e = e

unfoldable pub decode_business : List ℕ → Result StoreBusinessCommand
unfolding read_business validate_business
decode_business bytes = Status.◌>>=◌ (read_business bytes).0 λ decoded.
    elim (validate_business decoded) [ ok a ↦ ok decoded | err e ↦ err (as_corruption e) ]

-- the loop over the tasks, on the rounds left
unfoldable pub read_task_records : ℕ → Reader (List TaskRecord)
read_task_records zero = pure []
read_task_records (suc n) = do t ← read_task_record; ts ← read_task_records n; pure (t ∷ ts)

-- the three parts of `DecodeStoreBusinessResult` that check what they read
unfoldable pub read_version : ℕ → Reader ⊤
unfolding read_u8
read_version expected = do
  version ← read_u8
  refuse_if (λ rest. not (version == expected)) corruption

unfoldable pub read_flag : Reader Bool
unfolding read_u8
read_flag = do
  duplicate ← read_u8
  refuse_if (λ rest. ltb 1 duplicate) corruption
  pure (duplicate == 1)

unfoldable pub read_counted_tasks : Reader (List TaskRecord)
read_counted_tasks = do
  task_count ← read_u32
  refuse_if (λ rest. ltb max_store_business_items task_count) corruption
  read_task_records task_count

unfoldable pub read_result : Reader StoreBusinessResult
unfolding read_version read_flag read_store read_counted_tasks
read_result = do
  read_version store_business_result_version
  duplicate ← read_flag
  store ← read_store
  tasks ← read_counted_tasks
  refuse_if (λ rest. not (is_empty rest)) corruption
  pure (record { store = store; tasks = tasks; duplicate_result = duplicate })

unfoldable pub decode_result : List ℕ → Result StoreBusinessResult
unfolding read_result
decode_result bytes = (read_result bytes).0
