-- ===== src/Metadata/Business.antt =====
-- `StoreBusinessCommand` and `StoreBusinessResult` (metadata/metadata_command.h and .cpp): the types,
-- what a command must satisfy, and the bytes that are put.
pub mod Decoding
pub mod Fields
pub mod CommandFields
pub mod RoundTrip
pub mod CommandRoundTrip
use cqupt_block_storage.Base.{
  ℕ, ◌+◌, ◌*◌, List, [], ◌∷◌, ◌++◌, Bool, true, false, not, ◌||◌, Option, none, some, ltb, ◌==◌,
  if◌then◌else◌, length, is_empty,
}
use cqupt_block_storage.Common.Status.{Result, ok, err, reject_if, ⊤, ◌>>=◌, ◌>>◌, invalid_argument}
use cqupt_block_storage.Store.Types.{
  StoreInfo, StoreUpdate, StoreState, TaskCreateRequest, TaskResultReport, TaskRecord, TaskState,
  TaskType, store_state_value, task_type_value, task_state_value, task_state_eq,
}
use cqupt_block_storage.Store.Registry.{is_some}
use cqupt_block_storage.Metadata.Codec.{
  put_u8, put_u16, put_u32, put_u64, put_field, validate_length, max_id_bytes, max_target_bytes,
  max_payload_bytes,
}

-- `other` is a value that no enumerator names.
pub data StoreBusinessCommandKind : Type 0 where
  register_store update_store_state remove_store : StoreBusinessCommandKind
  create_task poll_tasks report_task_result : StoreBusinessCommandKind
  other : ℕ → StoreBusinessCommandKind

abbrev pub kind_value : StoreBusinessCommandKind → ℕ
kind_value StoreBusinessCommandKind.register_store = 1
kind_value StoreBusinessCommandKind.update_store_state = 2
kind_value StoreBusinessCommandKind.remove_store = 3
kind_value StoreBusinessCommandKind.create_task = 4
kind_value StoreBusinessCommandKind.poll_tasks = 5
kind_value StoreBusinessCommandKind.report_task_result = 6
kind_value (StoreBusinessCommandKind.other n) = n

pub record StoreBusinessCommand : Type 0 where
  pub kind : StoreBusinessCommandKind
  pub store : StoreInfo
  pub store_update : StoreUpdate
  pub task_create : TaskCreateRequest
  pub task_result : TaskResultReport
  pub store_id : ℕ
  pub max_tasks : ℕ

pub record StoreBusinessResult : Type 0 where
  pub store : StoreInfo
  pub tasks : List TaskRecord
  pub duplicate_result : Bool

abbrev pub store_business_command_version : ℕ
store_business_command_version = 1

abbrev pub store_business_result_version : ℕ
store_business_result_version = 1

abbrev pub max_store_business_items : ℕ
max_store_business_items = 4096

-- the cases of the `switch` in `ValidateStoreBusinessCommand`
unfoldable pub validate_register : StoreInfo → Result ⊤
unfolding validate_length
validate_register s = do
  reject_if
      (s.id == 0
        || (is_empty s.address.host
            || (s.address.port == 0
                || (s.capacity_bytes == 0 || ltb s.capacity_bytes s.used_bytes))))
      invalid_argument
  validate_length (length s.address.host) max_target_bytes

unfoldable pub validate_create : TaskCreateRequest → Result ⊤
unfolding validate_length
validate_create q = do
  reject_if (is_empty q.task_id) invalid_argument
  reject_if (ltb max_payload_bytes (length q.target_payload)) invalid_argument
  validate_length (length q.task_id) max_id_bytes

unfoldable pub validate_report : TaskResultReport → Result ⊤
unfolding validate_length
validate_report r = do
  reject_if
      (r.store_id == 0
        || (is_empty r.task_id
            || not (
                task_state_eq r.final_state TaskState.success
                || task_state_eq r.final_state TaskState.failed)))
      invalid_argument
  reject_if (ltb max_payload_bytes (length r.result_payload)) invalid_argument
  validate_length (length r.task_id) max_id_bytes

unfoldable pub validate_business : StoreBusinessCommand → Result ⊤
unfolding validate_register validate_create validate_report
validate_business c = elim c.kind [
  | register_store ↦ validate_register c.store
  | update_store_state ↦
      reject_if
        (c.store_update.id == 0
          || (not (is_some c.store_update.expected_generation)
              || not (is_some c.store_update.state)))
        invalid_argument
  | remove_store ↦
      reject_if (c.store_id == 0 || not (is_some c.store_update.expected_generation))
        invalid_argument
  | create_task ↦ validate_create c.task_create
  | poll_tasks ↦ reject_if (c.store_id == 0 || c.max_tasks == 0) invalid_argument
  | report_task_result ↦ validate_report c.task_result
  | other n ↦ err invalid_argument
]

-- `AppendStoreInfo`
unfoldable pub put_store_numbers : StoreInfo → List ℕ
unfolding put_u8 put_u16 put_u64
put_store_numbers s =
    put_u64 s.id
    ++ (put_u64 s.capacity_bytes
        ++ (put_u64 s.used_bytes
            ++ (put_u8 (store_state_value s.state)
                ++ (put_u64 s.generation ++ put_u16 s.address.port))))

-- `AppendStoreInfoWithHost`
unfoldable pub put_store : StoreInfo → Result (List ℕ)
unfolding put_store_numbers put_field
put_store s = do host ← put_field max_target_bytes s.address.host; ok (put_store_numbers s ++ host)

-- `AppendTaskRecord`
unfoldable pub put_task_record : TaskRecord → Result (List ℕ)
unfolding put_u8 put_u64 put_field
put_task_record t = do
  task_id ← put_field max_target_bytes t.task_id
  target_payload ← put_field max_payload_bytes t.target_payload
  result_payload ← put_field max_payload_bytes t.result_payload
  ok (
      put_u8 (task_type_value t.type)
      ++ (put_u8 (task_state_value t.state)
          ++ (put_u64 t.assigned_store
              ++ (put_u64 t.generation
                  ++ (put_u64 t.sequence ++ (task_id ++ (target_payload ++ result_payload)))))))

-- `value_or(0)`
abbrev pub value_or_zero : Option ℕ → ℕ
value_or_zero none = 0
value_or_zero (some n) = n

-- the state of an update, or 0xFF
abbrev pub state_byte : Option StoreState → ℕ
state_byte none = 255
state_byte (some s) = store_state_value s

unfoldable pub put_update : StoreUpdate → List ℕ
unfolding put_u8 put_u64
put_update u =
    put_u64 u.id
    ++ (put_u64 (value_or_zero u.expected_generation)
        ++ (put_u64 (value_or_zero u.capacity_bytes)
            ++ (put_u64 (value_or_zero u.used_bytes) ++ put_u8 (state_byte u.state))))

unfoldable pub put_create : TaskCreateRequest → Result (List ℕ)
unfolding put_u8 put_field
put_create q = do
  task_id ← put_field max_target_bytes q.task_id
  target_payload ← put_field max_payload_bytes q.target_payload
  ok (put_u8 (task_type_value q.type) ++ (task_id ++ target_payload))

unfoldable pub put_report : TaskResultReport → Result (List ℕ)
unfolding put_u8 put_u64 put_field
put_report r = do
  task_id ← put_field max_target_bytes r.task_id
  result_payload ← put_field max_payload_bytes r.result_payload
  ok (
      put_u64 r.store_id
      ++ (put_u8 (task_state_value r.final_state)
          ++ (put_u64 (value_or_zero r.expected_generation) ++ (task_id ++ result_payload))))

-- `EncodeStoreBusinessCommand`
unfoldable pub encode_business : StoreBusinessCommand → Result (List ℕ)
unfolding validate_business put_u8 put_u32 put_u64 put_store put_update put_create put_report
encode_business c = do
  validate_business c
  store ← put_store c.store
  task_create ← put_create c.task_create
  task_result ← put_report c.task_result
  ok (
      put_u8 store_business_command_version
      ++ (put_u8 (kind_value c.kind)
          ++ (put_u64 c.store_id
              ++ (put_u32 c.max_tasks
                  ++ (store ++ (put_update c.store_update ++ (task_create ++ task_result)))))))

-- the loop over the tasks of a result
unfoldable pub put_task_records : List TaskRecord → Result (List ℕ)
unfolding put_task_record
put_task_records [] = ok []
put_task_records (t ∷ ts) =
    put_task_record t >>= λ bytes. put_task_records ts >>= λ rest. ok (bytes ++ rest)

abbrev pub flag_byte : Bool → ℕ
flag_byte true = 1
flag_byte false = 0

-- `EncodeStoreBusinessResult`
unfoldable pub encode_result : StoreBusinessResult → Result (List ℕ)
unfolding put_u8 put_u32 put_store put_task_records
encode_result r = do
  reject_if (ltb max_store_business_items (length r.tasks)) invalid_argument
  store ← put_store r.store
  tasks ← put_task_records r.tasks
  ok (
      put_u8 store_business_result_version
      ++ (put_u8 (flag_byte r.duplicate_result) ++ (store ++ (put_u32 (length r.tasks) ++ tasks))))
