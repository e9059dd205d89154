-- ===== src/Store/Types.antt =====
-- `store/store_types.h` and `store/task_types.h`. Strings and payloads are lists of bytes.
use cqupt_block_storage.Base.{ℕ, List, Option, Bool, ◌==◌}
use cqupt_block_storage.Base.Int.{ℤ}

-- `other` is a value that no enumerator names, which a cast of a byte can make.
pub data StoreState : Type 0 where
  running stopped failed : StoreState
  other : ℕ → StoreState

pub record StoreAddress : Type 0 where
  pub host : List ℕ
  pub port : ℕ

pub record StoreInfo : Type 0 where
  pub id : ℕ
  pub address : StoreAddress
  pub capacity_bytes : ℕ
  pub used_bytes : ℕ
  pub state : StoreState
  pub generation : ℕ
  pub last_heartbeat_ms : ℤ

pub record PersistentStoreInfo : Type 0 where
  pub id : ℕ
  pub address : StoreAddress
  pub capacity_bytes : ℕ
  pub used_bytes : ℕ
  pub state : StoreState
  pub generation : ℕ

pub record StoreUpdate : Type 0 where
  pub id : ℕ
  pub expected_generation : Option ℕ
  pub capacity_bytes : Option ℕ
  pub used_bytes : Option ℕ
  pub state : Option StoreState

pub data TaskType : Type 0 where
  create delete copy custom : TaskType
  other : ℕ → TaskType

pub data TaskState : Type 0 where
  waiting running success failed : TaskState
  other : ℕ → TaskState

pub record TaskRecord : Type 0 where
  pub task_id : List ℕ
  pub type : TaskType
  pub state : TaskState
  pub target_payload : List ℕ
  pub assigned_store : ℕ
  pub result_payload : List ℕ
  pub generation : ℕ
  pub sequence : ℕ

pub record TaskCreateRequest : Type 0 where
  pub task_id : List ℕ
  pub type : TaskType
  pub target_payload : List ℕ

pub record TaskResultReport : Type 0 where
  pub store_id : ℕ
  pub task_id : List ℕ
  pub final_state : TaskState
  pub result_payload : List ℕ
  pub expected_generation : Option ℕ

-- The value of an enumerator, by which the enumerations are compared and stored.
abbrev pub store_state_value : StoreState → ℕ
store_state_value StoreState.running = 0
store_state_value StoreState.stopped = 1
store_state_value StoreState.failed = 2
store_state_value (StoreState.other n) = n

abbrev pub task_type_value : TaskType → ℕ
task_type_value TaskType.create = 0
task_type_value TaskType.delete = 1
task_type_value TaskType.copy = 2
task_type_value TaskType.custom = 3
task_type_value (TaskType.other n) = n

abbrev pub task_state_value : TaskState → ℕ
task_state_value TaskState.waiting = 0
task_state_value TaskState.running = 1
task_state_value TaskState.success = 2
task_state_value TaskState.failed = 3
task_state_value (TaskState.other n) = n

-- `==` on the enumerations
abbrev pub store_state_eq : StoreState → StoreState → Bool
store_state_eq a b = store_state_value a == store_state_value b

abbrev pub task_type_eq : TaskType → TaskType → Bool
task_type_eq a b = task_type_value a == task_type_value b

abbrev pub task_state_eq : TaskState → TaskState → Bool
task_state_eq a b = task_state_value a == task_state_value b
