-- ===== src/Metadata/Snapshot/Refusal.antt =====
-- A snapshot that is refused changes nothing.
use cqupt_block_storage.Base.{ℕ, ◌≡◌, List, arith, inl, inr}
use cqupt_block_storage.Common.Status.{Result-cases, StatusCode, err}
use cqupt_block_storage.Store.Types.{PersistentStoreInfo, TaskRecord}
use cqupt_block_storage.Store.Registry.{StoreRegistry, empty_registry}
use cqupt_block_storage.Store.Registry
use cqupt_block_storage.Store.Tasks.{TaskManager, empty_tasks}
use cqupt_block_storage.Store.Tasks.Restore
use cqupt_block_storage.Metadata.StateMachine.{MetadataStateMachine}
use cqupt_block_storage.Metadata.Snapshot.Restore.{read_snapshot, restore_snapshot}

-- Whether the stores are restored does not depend on the ones that are there.
stores-status :
    (ps : List PersistentStoreInfo) (r : StoreRegistry)
    → (Registry.restore_persistent ps r).0 ≡ (Registry.restore_persistent ps empty_registry).0
unfolding Registry.restore_persistent
stores-status ps r = ground arith

tasks-status :
    (ts : List TaskRecord) (m : TaskManager)
    → (Restore.restore_persistent ts m).0 ≡ (Restore.restore_persistent ts empty_tasks).0
unfolding Restore.restore_persistent
tasks-status ts m = ground arith

-- A `RestoreSnapshot` that fails, whatever its status, leaves the whole machine as it was:
-- records, progress, stores and tasks.
pub restore_snapshot-refused :
    (payload : List ℕ) (e : StatusCode) (m : MetadataStateMachine)
    → (restore_snapshot payload m).0 ≡ err e
    → (restore_snapshot payload m).1 ≡ m
unfolding restore_snapshot
restore_snapshot-refused payload e m h = elim (Result-cases (read_snapshot payload).0) [
  | inl (s, f) ↦ ground (arith, h, f, stores-status s.stores m.stores, tasks-status s.tasks m.tasks)
  | inr (code, f) ↦ ground (arith, f)
]
