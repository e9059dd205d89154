-- ===== src/Store/Tasks/Restore.antt =====
-- `ValidateTaskRecord` and `RestorePersistent` (store/task_manager.cpp).
use cqupt_block_storage.Base.{
  suc, List, [], ◌∷◌, not, ◌&&◌, ◌||◌, ltb, leb, ◌==◌, if◌then◌else◌, is_empty, length, bytes_key,
  find, insert,
}
use cqupt_block_storage.Common.Status
use cqupt_block_storage.Common.Status.{Result, ok, err, ⊤, invalid_argument, busy}
use cqupt_block_storage.Common.Action.{Action, pure, check, ◌>>◌}
use cqupt_block_storage.Store.Types.{TaskState, TaskRecord, task_state_eq}
use cqupt_block_storage.Store.Registry.{is_some}
use cqupt_block_storage.Store.Tasks.{
  TaskManager, empty_tasks, max_task_payload_bytes, u64_max, validate_task_id, validate_task_type,
  validate_task_state, is_terminal,
}

-- the tests of `ValidateTaskRecord` behind those of the id, the type and the state
unfoldable pub validate_task_fields : TaskRecord → Result ⊤
validate_task_fields t =
    if ltb max_task_payload_bytes (length t.target_payload)
      || ltb max_task_payload_bytes (length t.result_payload)
    then err invalid_argument
    else if t.generation == 0
    then err invalid_argument
    else if t.sequence == 0
    then err invalid_argument
    else if task_state_eq t.state TaskState.waiting && not (t.assigned_store == 0)
    then err invalid_argument
    else if task_state_eq t.state TaskState.running
        && (t.assigned_store == 0 || not (is_empty t.result_payload))
    then err invalid_argument
    else if is_terminal t.state && t.assigned_store == 0
    then err invalid_argument
    else ok tt

unfoldable pub validate_task_record : TaskRecord → Result ⊤
unfolding validate_task_fields
validate_task_record t = Status.◌>>◌ (validate_task_id t.task_id) (
    Status.◌>>◌ (validate_task_type t.type)
      (Status.◌>>◌ (validate_task_state t.state) (validate_task_fields t)))

-- one round of the loop: `candidate.emplace`, and `next_sequence`
unfoldable pub restore_task : TaskRecord → Action TaskManager ⊤
unfolding validate_task_record find insert
restore_task t = do
  check λ m. validate_task_record t
  λ m.
      if is_some (find t.task_id m.tasks)
      then (err busy, m)
      else if leb m.next_sequence t.sequence && t.sequence == u64_max
      then (err busy, record m { tasks = insert t.task_id t m.tasks })
      else (
        ok tt,
        record {
          tasks = insert t.task_id t m.tasks;
          next_sequence =
              if leb m.next_sequence t.sequence then suc t.sequence else m.next_sequence;
        },
      )

unfoldable pub restore_tasks_from : List TaskRecord → Action TaskManager ⊤
unfolding restore_task
restore_tasks_from [] = pure tt
restore_tasks_from (t ∷ ts) = do restore_task t; restore_tasks_from ts

-- the members are replaced only where the loop has ended well
unfoldable pub restore_persistent : List TaskRecord → Action TaskManager ⊤
unfolding restore_tasks_from
restore_persistent ts m =
    let (status, candidate) = restore_tasks_from ts empty_tasks in
    elim status [ ok _ ↦ (ok tt, candidate) | err e ↦ (err e, m) ]
