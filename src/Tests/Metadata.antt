-- ===== src/Tests/Metadata.antt =====
-- The theorems on the metadata at concrete inputs: a command that sets a record, a second one that
-- expects the record's first generation, and a result that names a store and a task.
use cqupt_block_storage.Base.{
  ℕ, ◌≡◌, ◌≢◌, refl, List, [], ◌∷◌, false, none, some, arith, find, inc_u64,
}
use cqupt_block_storage.Base.Int.{pos}
use cqupt_block_storage.Common.Status.{StatusCode, ok, err, corruption}
use cqupt_block_storage.Store.Types.{StoreInfo, StoreState, TaskRecord, TaskType, TaskState}
use cqupt_block_storage.Metadata.Codec.{read_u8, read_u32}
use cqupt_block_storage.Metadata.Command.{MetadataCommand, MetadataCommandType, encode_command}
use cqupt_block_storage.Metadata.Command.Decoding.{decode_command}
use cqupt_block_storage.Metadata.Command.RoundTrip.{decode_command-encode_command}
use cqupt_block_storage.Metadata.Business.{StoreBusinessResult, encode_result}
use cqupt_block_storage.Metadata.Business.Decoding.{decode_result}
use cqupt_block_storage.Metadata.Business.Fields.{IsStore, IsTask, without_heartbeat}
use cqupt_block_storage.Metadata.Business.RoundTrip.{decode_result-encode_result}
use cqupt_block_storage.Metadata.Business.{
  StoreBusinessCommand, StoreBusinessCommandKind, encode_business,
}
use cqupt_block_storage.Metadata.Business.Decoding.{decode_business}
use cqupt_block_storage.Metadata.Business.CommandRoundTrip.{decode_business-encode_business}
use cqupt_block_storage.Metadata.StateMachine.{
  empty_machine, apply, apply_command, apply_opaque_command, check_generation,
}
use cqupt_block_storage.Metadata.StateMachine.Apply.{SameRecords, apply-refused, apply-stale}
use cqupt_block_storage.Metadata.StateMachine.Effect.{Writes, apply-Writes}
use cqupt_block_storage.Metadata.StateMachine.History.{
  empty_machine-IsSound, Entry, IsSound, history, applied, history-IsSound, history-applied,
}
use cqupt_block_storage.Metadata.Snapshot.Restore.{restore_snapshot, read_snapshot}
use cqupt_block_storage.Metadata.Snapshot.Refusal.{restore_snapshot-refused}

abbrev command : MetadataCommand
command = record {
  type = MetadataCommandType.opaque_operation;
  command_id = 99 ∷ [];
  target_id = 116 ∷ [];
  expected_generation = none;
  payload = 7 ∷ [];
}

abbrev command_bytes : List ℕ
command_bytes = 1 ∷ 1 ∷ 0 ∷ 0 ∷ 0 ∷ 0 ∷ 0 ∷ 1 ∷ 0 ∷ 0 ∷ 0 ∷ 1 ∷ 0 ∷ 0 ∷ 0 ∷ 1 ∷ 99 ∷ 116 ∷ 7 ∷ []

abbrev next_command : MetadataCommand
next_command = record command { expected_generation = some 1; payload = 8 ∷ [] }

abbrev next_bytes : List ℕ
next_bytes =
    1 ∷ 1 ∷ 0 ∷ 1 ∷ 0 ∷ 0 ∷ 0 ∷ 1 ∷ 0 ∷ 0 ∷ 0 ∷ 1 ∷ 0 ∷ 0 ∷ 0 ∷ 1 ∷ 0 ∷ 0 ∷ 0 ∷ 0 ∷ 0 ∷ 0 ∷ 0 ∷ 1
    ∷ 99 ∷ 116 ∷ 8 ∷ []

encoded : encode_command next_command ≡ ok next_bytes
unfolding encode_command
encoded = refl

decode_command-encode_command_example : decode_command next_bytes ≡ ok next_command
decode_command-encode_command_example =
    decode_command-encode_command next_command next_bytes (omega arith) encoded

abbrev store : StoreInfo
store = record {
  id = 3;
  address = record { host = 104 ∷ []; port = 80 };
  capacity_bytes = 100;
  used_bytes = 10;
  state = StoreState.running;
  generation = 1;
  last_heartbeat_ms = pos 5;
}

abbrev task : TaskRecord
task = record {
  task_id = 120 ∷ [];
  type = TaskType.create;
  state = TaskState.running;
  target_payload = 5 ∷ [];
  assigned_store = 3;
  result_payload = [];
  generation = 2;
  sequence = 1;
}

abbrev result : StoreBusinessResult
result = record { store = store; tasks = task ∷ []; duplicate_result = false }

abbrev result_bytes : List ℕ
result_bytes =
    1 ∷ 0 ∷ 0 ∷ 0 ∷ 0 ∷ 0 ∷ 0 ∷ 0 ∷ 0 ∷ 3 ∷ 0 ∷ 0 ∷ 0 ∷ 0 ∷ 0 ∷ 0 ∷ 0 ∷ 100 ∷ 0 ∷ 0 ∷ 0 ∷ 0 ∷ 0 ∷ 0
    ∷ 0 ∷ 10 ∷ 0 ∷ 0 ∷ 0 ∷ 0 ∷ 0 ∷ 0 ∷ 0 ∷ 0 ∷ 1 ∷ 0 ∷ 80 ∷ 0 ∷ 0 ∷ 0 ∷ 1 ∷ 104 ∷ 0 ∷ 0 ∷ 0 ∷ 1 ∷ 0
    ∷ 1 ∷ 0 ∷ 0 ∷ 0 ∷ 0 ∷ 0 ∷ 0 ∷ 0 ∷ 3 ∷ 0 ∷ 0 ∷ 0 ∷ 0 ∷ 0 ∷ 0 ∷ 0 ∷ 2 ∷ 0 ∷ 0 ∷ 0 ∷ 0 ∷ 0 ∷ 0 ∷ 0
    ∷ 1 ∷ 0 ∷ 0 ∷ 0 ∷ 1 ∷ 120 ∷ 0 ∷ 0 ∷ 0 ∷ 1 ∷ 5 ∷ 0 ∷ 0 ∷ 0 ∷ 0 ∷ []

result_encoded : encode_result result ≡ ok result_bytes
unfolding encode_result
result_encoded = refl

store-IsStore : IsStore store
store-IsStore = record {
  id_word = omega arith;
  capacity_word = omega arith;
  used_word = omega arith;
  generation_word = omega arith;
  port_word = omega arith;
  state_byte = omega arith;
  state_named = refl;
}

task-IsTask : IsTask task
task-IsTask = record {
  type_byte = omega arith;
  type_named = refl;
  state_byte = omega arith;
  state_named = refl;
  store_word = omega arith;
  generation_word = omega arith;
  sequence_word = omega arith;
}

decode_result-encode_result_example :
    decode_result result_bytes ≡ ok (record result { store = without_heartbeat store })
decode_result-encode_result_example =
    decode_result-encode_result result result_bytes store-IsStore (task-IsTask, tt) result_encoded

-- The first entry is applied, the second is refused for its generation, the third for its index.
abbrev entries : List Entry
entries =
    record { index = 1; term = 1; payload = command_bytes; unset = 0 }
    ∷ record { index = 1; term = 1; payload = next_bytes; unset = 0 }
    ∷ record { index = 2; term = 1; payload = next_bytes; unset = 0 }
    ∷ []

history-IsSound_example : IsSound (history entries empty_machine)
history-IsSound_example = history-IsSound entries

history-applied_example :
    (history entries empty_machine).last_applied_index ≡ applied entries empty_machine
history-applied_example = history-applied entries

abbrev first : ℕ
first = 1

command_applied : (apply 0 1 1 command_bytes empty_machine).0 ≡ ok tt
unfolding apply decode_command apply_command apply_opaque_command check_generation find
command_applied = refl

apply-Writes_example :
    (1 ≡ inc_u64 0)
    × (first ≢ 0)
    × (first ≢ 0)
    × ((apply 0 1 1 command_bytes empty_machine).1.last_applied_index ≡ 1)
    × ((apply 0 1 1 command_bytes empty_machine).1.last_applied_term ≡ 1)
    × (c : MetadataCommand) × (decode_command command_bytes ≡ ok c)
    × Writes 0 1 1 c empty_machine (apply 0 1 1 command_bytes empty_machine).1 (116 ∷ [])
apply-Writes_example =
    apply-Writes 0 1 1 command_bytes (116 ∷ []) empty_machine empty_machine-IsSound command_applied

truncated : (apply 0 1 1 (1 ∷ []) empty_machine).0 ≡ err corruption
unfolding apply decode_command
truncated = refl

apply-refused_example : SameRecords empty_machine (apply 0 1 1 (1 ∷ []) empty_machine).1
apply-refused_example = apply-refused 0 1 1 (1 ∷ []) corruption empty_machine truncated

apply-stale_example :
    (e : StatusCode) × (apply 0 5 1 command_bytes empty_machine ≡ (err e, empty_machine))
apply-stale_example = apply-stale 0 5 1 command_bytes empty_machine (omega arith) (omega arith)

snapshot_truncated : (restore_snapshot (2 ∷ 0 ∷ []) empty_machine).0 ≡ err corruption
unfolding restore_snapshot read_snapshot read_u8 read_u32
snapshot_truncated = refl

restore_snapshot-refused_example : (restore_snapshot (2 ∷ 0 ∷ []) empty_machine).1 ≡ empty_machine
restore_snapshot-refused_example =
    restore_snapshot-refused (2 ∷ 0 ∷ []) corruption empty_machine snapshot_truncated

-- A command that creates a task, with the other fields as they are when nothing was set.
abbrev no_store : StoreInfo
no_store = record store {
  id = 0;
  address = record { host = []; port = 0 };
  capacity_bytes = 0;
  used_bytes = 0;
  generation = 0;
}

abbrev create_command : StoreBusinessCommand
create_command = record {
  kind = StoreBusinessCommandKind.create_task;
  store = no_store;
  store_update = record {
    id = 0;
    expected_generation = none;
    capacity_bytes = none;
    used_bytes = none;
    state = none;
  };
  task_create = record { task_id = 120 ∷ []; type = TaskType.copy; target_payload = 5 ∷ [] };
  task_result = record {
    store_id = 0;
    task_id = [];
    final_state = TaskState.success;
    result_payload = [];
    expected_generation = none;
  };
  store_id = 0;
  max_tasks = 0;
}

abbrev create_bytes : List ℕ
create_bytes =
    1 ∷ 4 ∷ 0 ∷ 0 ∷ 0 ∷ 0 ∷ 0 ∷ 0 ∷ 0 ∷ 0 ∷ 0 ∷ 0 ∷ 0 ∷ 0 ∷ 0 ∷ 0 ∷ 0 ∷ 0 ∷ 0 ∷ 0 ∷ 0 ∷ 0 ∷ 0 ∷ 0
    ∷ 0 ∷ 0 ∷ 0 ∷ 0 ∷ 0 ∷ 0 ∷ 0 ∷ 0 ∷ 0 ∷ 0 ∷ 0 ∷ 0 ∷ 0 ∷ 0 ∷ 0 ∷ 0 ∷ 0 ∷ 0 ∷ 0 ∷ 0 ∷ 0 ∷ 0 ∷ 0 ∷ 0
    ∷ 0 ∷ 0 ∷ 0 ∷ 0 ∷ 0 ∷ 0 ∷ 0 ∷ 0 ∷ 0 ∷ 0 ∷ 0 ∷ 0 ∷ 0 ∷ 0 ∷ 0 ∷ 0 ∷ 0 ∷ 0 ∷ 0 ∷ 0 ∷ 0 ∷ 0 ∷ 0 ∷ 0
    ∷ 0 ∷ 0 ∷ 0 ∷ 0 ∷ 0 ∷ 0 ∷ 0 ∷ 0 ∷ 0 ∷ 0 ∷ 0 ∷ 0 ∷ 0 ∷ 255 ∷ 2 ∷ 0 ∷ 0 ∷ 0 ∷ 1 ∷ 120 ∷ 0 ∷ 0 ∷ 0
    ∷ 1 ∷ 5 ∷ 0 ∷ 0 ∷ 0 ∷ 0 ∷ 0 ∷ 0 ∷ 0 ∷ 0 ∷ 2 ∷ 0 ∷ 0 ∷ 0 ∷ 0 ∷ 0 ∷ 0 ∷ 0 ∷ 0 ∷ 0 ∷ 0 ∷ 0 ∷ 0 ∷ 0
    ∷ 0 ∷ 0 ∷ 0 ∷ []

create_encoded : encode_business create_command ≡ ok create_bytes
unfolding encode_business
create_encoded = refl

no_store-IsStore : IsStore no_store
no_store-IsStore = record {
  id_word = omega arith;
  capacity_word = omega arith;
  used_word = omega arith;
  generation_word = omega arith;
  port_word = omega arith;
  state_byte = omega arith;
  state_named = refl;
}

decode_business-encode_business_example :
    decode_business create_bytes ≡ ok (record create_command { store = without_heartbeat no_store })
decode_business-encode_business_example =
    decode_business-encode_business create_command create_bytes (omega arith) (omega arith)
      no_store-IsStore
      (record {
        id_word = omega arith;
        generation_word = tt;
        capacity_word = tt;
        used_word = tt;
        state_fits = omega arith;
        state_named = refl;
      })
      (record { type_byte = omega arith; type_named = refl })
      (record {
        store_word = omega arith;
        generation_word = tt;
        state_byte = omega arith;
        state_named = refl;
      })
      create_encoded
