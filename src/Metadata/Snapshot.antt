-- ===== src/Metadata/Snapshot.antt =====
-- `CreateSnapshot` of `MetadataStateMachine` (metadata/metadata_state_machine.cpp).
pub mod Restore
pub mod Refusal
use cqupt_block_storage.Base.{
  ℕ, List, [], ◌∷◌, ◌++◌, not, ◌&&◌, ◌||◌, ltb, ◌==◌, if◌then◌else◌, length, is_empty, values,
}
use cqupt_block_storage.Common.Status.{Result, ok, err, ⊤, reject_if, ◌>>=◌, ◌>>◌, busy, corruption}
use cqupt_block_storage.Store.Types.{
  PersistentStoreInfo, TaskRecord, store_state_value, task_type_value, task_state_value,
}
use cqupt_block_storage.Store.Registry.{export_persistent}
use cqupt_block_storage.Store.Tasks.{list_tasks}
use cqupt_block_storage.Metadata.Codec.{
  put_u8, put_u16, put_u32, put_u64, max_id_bytes, max_target_bytes, max_payload_bytes,
}
use cqupt_block_storage.Metadata.StateMachine.{MetadataStateMachine, MetadataStateRecord}

abbrev pub snapshot_format_version : ℕ
snapshot_format_version = 2

abbrev pub legacy_snapshot_format_version : ℕ
legacy_snapshot_format_version = 1

abbrev pub max_snapshot_records : ℕ
max_snapshot_records = 4096

abbrev pub max_snapshot_stores : ℕ
max_snapshot_stores = 4096

abbrev pub max_snapshot_tasks : ℕ
max_snapshot_tasks = 4096

abbrev pub validate_snapshot_length : ℕ → ℕ → Result ⊤
validate_snapshot_length size max_size = reject_if (ltb max_size size) corruption

unfoldable pub validate_snapshot_record : MetadataStateRecord → ℕ → ℕ → Result ⊤
validate_snapshot_record r last_applied_index last_applied_term = do
  reject_if (is_empty r.target_id) corruption
  reject_if (r.generation == 0) corruption
  reject_if (is_empty r.last_command_id) corruption
  reject_if (r.last_update_index == 0 || r.last_update_term == 0) corruption
  reject_if (ltb last_applied_index r.last_update_index) corruption
  reject_if (ltb last_applied_term r.last_update_term) corruption
  validate_snapshot_length (length r.target_id) max_target_bytes
  validate_snapshot_length (length r.last_command_id) max_id_bytes
  validate_snapshot_length (length r.payload) max_payload_bytes

-- `AppendSnapshotString` and `AppendSnapshotPayload` at their limits
unfoldable pub put_snapshot_field : ℕ → List ℕ → Result (List ℕ)
put_snapshot_field max_length value = do
  validate_snapshot_length (length value) max_length
  ok (put_u32 (length value) ++ value)

unfoldable pub put_persistent_store : PersistentStoreInfo → Result (List ℕ)
put_persistent_store s = do
  host ← put_snapshot_field max_target_bytes s.address.host
  ok (
      put_u64 s.id
      ++ (put_u64 s.capacity_bytes
          ++ (put_u64 s.used_bytes
              ++ (put_u8 (store_state_value s.state)
                  ++ (put_u64 s.generation ++ (put_u16 s.address.port ++ host))))))

unfoldable pub put_snapshot_task : TaskRecord → Result (List ℕ)
put_snapshot_task t = do
  task_id ← put_snapshot_field max_target_bytes t.task_id
  target_payload ← put_snapshot_field max_payload_bytes t.target_payload
  result_payload ← put_snapshot_field max_payload_bytes t.result_payload
  ok (
      put_u8 (task_type_value t.type)
      ++ (put_u8 (task_state_value t.state)
          ++ (put_u64 t.assigned_store
              ++ (put_u64 t.generation
                  ++ (put_u64 t.sequence ++ (task_id ++ (target_payload ++ result_payload)))))))

unfoldable pub put_snapshot_record : ℕ → ℕ → MetadataStateRecord → Result (List ℕ)
put_snapshot_record index term r = do
  validate_snapshot_record r index term
  ok (
      put_u32 (length r.target_id)
      ++ (put_u32 (length r.payload)
          ++ (put_u32 (length r.last_command_id)
              ++ (put_u64 r.generation
                  ++ (put_u64 r.last_update_index
                      ++ (put_u64 r.last_update_term
                          ++ (r.target_id ++ (r.payload ++ r.last_command_id))))))))

-- a loop that puts one element after the other, up to the first that fails
unfoldable pub put_each : {A : Type 0} → (A → Result (List ℕ)) → List A → Result (List ℕ)
put_each put [] = ok []
put_each put (a ∷ as') =
    let rest = put_each put as' in put a >>= λ bytes. rest >>= λ others. ok (bytes ++ others)

unfoldable pub create_snapshot : ℕ → ℕ → MetadataStateMachine → Result (List ℕ)
create_snapshot last_applied_index last_applied_term m =
    let stores = export_persistent m.stores in
    let tasks = list_tasks m.tasks in
    do
      reject_if
          (not (
            last_applied_index == m.last_applied_index && last_applied_term == m.last_applied_term))
          busy
      records ←
          put_each (put_snapshot_record m.last_applied_index m.last_applied_term) (values m.records)
      reject_if (ltb max_snapshot_stores (length stores) || ltb max_snapshot_tasks (length tasks))
          busy
      store_bytes ← put_each put_persistent_store stores
      task_bytes ← put_each put_snapshot_task tasks
      ok (
          put_u8 snapshot_format_version
          ++ (put_u32 (length (values m.records))
              ++ (put_u64 m.last_applied_index
                  ++ (put_u64 m.last_applied_term
                      ++ (records
                          ++ (put_u32 (length stores)
                              ++ (store_bytes ++ (put_u32 (length tasks) ++ task_bytes))))))))
