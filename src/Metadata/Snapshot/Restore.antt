-- ===== src/Metadata/Snapshot/Restore.antt =====
-- `RestoreSnapshot` of `MetadataStateMachine` (metadata/metadata_state_machine.cpp).
use cqupt_block_storage.Base.{
  ℕ, zero, suc, List, [], ◌∷◌, Bool, true, false, not, ◌&&◌, ltb, ◌==◌, if◌then◌else◌, is_empty,
  bytes_key, find, insert,
}
use cqupt_block_storage.Common.Status.{Result, ok, err, ⊤, corruption}
use cqupt_block_storage.Common.Action.{Action, pure, check, modify, refuse_if, ◌>>=◌, ◌>>◌}
use cqupt_block_storage.Store.Types.{PersistentStoreInfo, TaskRecord}
use cqupt_block_storage.Store.Registry.{empty_registry, is_some}
use cqupt_block_storage.Store.Registry
use cqupt_block_storage.Store.Tasks.{empty_tasks}
use cqupt_block_storage.Store.Tasks.Restore
use cqupt_block_storage.Metadata.Codec.{
  Reader, read_u8, read_u16, read_u32, read_u64, read_bytes, read_field, max_id_bytes,
  max_target_bytes, max_payload_bytes,
}
use cqupt_block_storage.Metadata.Business.Decoding.{store_state, read_task_record}
use cqupt_block_storage.Metadata.StateMachine.{
  MetadataStateMachine, MetadataStateRecord, on_stores, on_tasks,
}
use cqupt_block_storage.Metadata.Snapshot.{
  snapshot_format_version, legacy_snapshot_format_version, max_snapshot_records,
  max_snapshot_stores, max_snapshot_tasks, validate_snapshot_record,
}

abbrev pub validate_progress : ℕ → ℕ → Result ⊤
validate_progress index term =
    if index == 0
    then (if not (term == 0) then err corruption else ok tt)
    else if term == 0
    then err corruption
    else ok tt

unfoldable pub read_persistent_store : Reader PersistentStoreInfo
read_persistent_store = do
  id ← read_u64
  capacity_bytes ← read_u64
  used_bytes ← read_u64
  state ← read_u8
  generation ← read_u64
  port ← read_u16
  host ← read_field max_target_bytes
  pure (record {
    id = id;
    address = record { host = host; port = port };
    capacity_bytes = capacity_bytes;
    used_bytes = used_bytes;
    state = store_state state;
    generation = generation;
  })

-- one round of the loop over the records, up to its checks
unfoldable pub read_record : Reader MetadataStateRecord
read_record = do
  target_length ← read_u32
  payload_length ← read_u32
  command_id_length ← read_u32
  generation ← read_u64
  last_update_index ← read_u64
  last_update_term ← read_u64
  target_id ← read_bytes target_length max_target_bytes
  payload ← read_bytes payload_length max_payload_bytes
  last_command_id ← read_bytes command_id_length max_id_bytes
  pure (record {
    target_id = target_id;
    payload = payload;
    generation = generation;
    last_command_id = last_command_id;
    last_update_index = last_update_index;
    last_update_term = last_update_term;
  })

abbrev pub RecordMap : Type 0
RecordMap = List (List ℕ × MetadataStateRecord)

-- the loop, on the rounds left and the records so far
unfoldable pub read_records : ℕ → ℕ → ℕ → RecordMap → Reader RecordMap
read_records zero index term restored = pure restored
read_records (suc n) index term restored = do
  r ← read_record
  check λ rest. validate_snapshot_record r index term
  refuse_if (λ rest. is_some (find r.target_id restored)) corruption
  read_records n index term (insert r.target_id r restored)

-- the loops over the stores and the tasks, on the rounds left
unfoldable pub read_each : {A : Type 0} → Reader A → ℕ → Reader (List A)
read_each one zero = pure []
read_each one (suc n) = do a ← one; as' ← read_each one n; pure (a ∷ as')

unfoldable pub read_counted : {A : Type 0} → Reader A → ℕ → Reader (List A)
read_counted one max_count = do
  count ← read_u32
  refuse_if (λ rest. ltb max_count count) corruption
  read_each one count

-- stores and tasks are there from the second version of the format on
unfoldable pub read_if : {A : Type 0} → Bool → Reader (List A) → Reader (List A)
read_if true reader = reader
read_if false reader = pure []

-- What a snapshot holds.
pub record SnapshotState : Type 0 where
  pub last_applied_index : ℕ
  pub last_applied_term : ℕ
  pub records : RecordMap
  pub stores : List PersistentStoreInfo
  pub tasks : List TaskRecord

unfoldable pub read_snapshot : Reader SnapshotState
read_snapshot = do
  version ← read_u8
  refuse_if
      (λ rest.
        not (version == snapshot_format_version) && not (version == legacy_snapshot_format_version))
      corruption
  record_count ← read_u32
  refuse_if (λ rest. ltb max_snapshot_records record_count) corruption
  index ← read_u64
  term ← read_u64
  check λ rest. validate_progress index term
  records ← read_records record_count index term []
  stores ←
      read_if (version == snapshot_format_version)
        (read_counted read_persistent_store max_snapshot_stores)
  tasks ←
      read_if (version == snapshot_format_version)
        (read_counted read_task_record max_snapshot_tasks)
  refuse_if (λ rest. not (is_empty rest)) corruption
  pure (record {
    last_applied_index = index;
    last_applied_term = term;
    records = records;
    stores = stores;
    tasks = tasks;
  })

abbrev pub adopt_snapshot : SnapshotState → MetadataStateMachine → MetadataStateMachine
adopt_snapshot s m = record m {
  records = s.records;
  last_applied_index = s.last_applied_index;
  last_applied_term = s.last_applied_term;
}

-- the stores and the tasks are restored twice, the first time into objects that are thrown away
unfoldable pub restore_snapshot : List ℕ → Action MetadataStateMachine ⊤
restore_snapshot snapshot_payload = do
  s ← check λ m. (read_snapshot snapshot_payload).0
  check λ m. (Registry.restore_persistent s.stores empty_registry).0
  check λ m. (Restore.restore_persistent s.tasks empty_tasks).0
  on_stores (Registry.restore_persistent s.stores)
  on_tasks (Restore.restore_persistent s.tasks)
  modify (adopt_snapshot s)
