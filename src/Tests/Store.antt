-- ===== src/Tests/Store.antt =====
-- The theorems on stores, tasks and the queue at concrete inputs: two tasks, two stores, a queue of
-- two places.
use cqupt_block_storage.Base.{
  ℕ, ◌≡◌, ◌≢◌, refl, List, [], ◌∷◌, none, some, bytes_key, list_eq, list_less, find, insert, length,
  All, Pairwise,
}
use cqupt_block_storage.Base.Int.{pos}
use cqupt_block_storage.Common.BoundedQueue.{Call, calls, new_queue, IsFifo, new_queue-IsFifo}
use cqupt_block_storage.Common.Status.{ok}
use cqupt_block_storage.Store.Types.{
  StoreInfo, StoreState, StoreAddress, TaskRecord, TaskType, TaskState, TaskCreateRequest,
  TaskResultReport,
}
use cqupt_block_storage.Store.Address.Injective.{address_key_inj}
use cqupt_block_storage.Store.Registry.{
  StoreRegistry, empty_registry, validate_address, get_store_by_address,
}
use cqupt_block_storage.Store.Registry.Index
use cqupt_block_storage.Store.Registry.Index.{
  IsIndexed, empty_registry-IsIndexed, history-IsIndexed,
}
use cqupt_block_storage.Store.Registry.Lookup.{Locates, get_store_by_address-Locates}
use cqupt_block_storage.Store.Placement.{PlacementRequest, select_stores}
use cqupt_block_storage.Store.Placement.Selection.{IsPlace, select_stores-IsPlace}
use cqupt_block_storage.Store.Tasks.{
  TaskManager, empty_tasks, new_task, create_task, add_task, assigned, next_waiting,
  assign_next_waiting_tasks, assign_each, complete_task, completed, complete_found, lookup_task,
  store_update, put_task,
}
use cqupt_block_storage.Store.Tasks.History
use cqupt_block_storage.Store.Tasks.Lifecycle.{Evolves}
use cqupt_block_storage.Store.Tasks.History.{history-Evolves, history-IsKeyed}
use cqupt_block_storage.Store.Tasks.Poll.{Takes, assign_next_waiting_tasks-Takes}
use cqupt_block_storage.Store.Tasks.Repeats.{complete_task-again, create_task-again}

abbrev request : ℕ → TaskCreateRequest
request n = record { task_id = n ∷ []; type = TaskType.copy; target_payload = 7 ∷ [] }

abbrev polled : List TaskRecord
polled = assigned 9 (new_task (request 2) 1) ∷ []

-- The same two tasks, created one after the other.
abbrev both : TaskManager
both =
    History.history (History.Call.create (request 2) ∷ History.Call.create (request 1) ∷ [])
      empty_tasks

poll_answer : (assign_next_waiting_tasks 9 1 both).0 ≡ ok polled
unfolding History.history History.after create_task add_task find insert list_eq list_less
    assign_next_waiting_tasks next_waiting assign_each
poll_answer = refl

first_found : find (1 ∷ []) both.tasks ≡ some (new_task (request 1) 2)
unfolding find History.history History.after create_task add_task insert list_eq list_less
first_found = refl

assign_next_waiting_tasks-Takes_example : Takes 9 1 both polled (new_task (request 1) 2)
assign_next_waiting_tasks-Takes_example =
    assign_next_waiting_tasks-Takes 9 1 both polled (1 ∷ []) (new_task (request 1) 2)
      (history-IsKeyed (History.Call.create (request 2) ∷ History.Call.create (request 1) ∷ []))
      poll_answer first_found refl

abbrev earlier : List History.Call
earlier = History.Call.create (request 1) ∷ []

abbrev later : List History.Call
later = History.Call.poll 9 4 ∷ []

created : find (1 ∷ []) (History.history earlier empty_tasks).tasks ≡ some (new_task (request 1) 1)
unfolding find History.history History.after create_task add_task insert list_eq
created = refl

history-Evolves_example :
    (u : TaskRecord) × (find
        (1 ∷ [])
        (History.history later (History.history earlier empty_tasks)).tasks
      ≡ some u)
    × Evolves (new_task (request 1) 1) u
history-Evolves_example = history-Evolves earlier later (1 ∷ []) (new_task (request 1) 1) created

abbrev running : TaskManager
running = record { tasks = (1 ∷ [], assigned 9 (new_task (request 1) 1)) ∷ []; next_sequence = 2 }

abbrev report : TaskResultReport
report = record {
  store_id = 9;
  task_id = 1 ∷ [];
  final_state = TaskState.success;
  result_payload = 8 ∷ [];
  expected_generation = none;
}

abbrev done : TaskRecord
done = completed report (assigned 9 (new_task (request 1) 1))

abbrev finished : TaskManager
finished = record { tasks = (1 ∷ [], done) ∷ []; next_sequence = 2 }

reported : complete_task report running ≡ (ok done, finished)
unfolding complete_task lookup_task complete_found store_update put_task find insert list_eq
reported = refl

complete_task-again_example : complete_task report finished ≡ (ok done, finished)
complete_task-again_example = complete_task-again report done running finished refl reported

abbrev one_task : TaskManager
one_task = record { tasks = (1 ∷ [], new_task (request 1) 1) ∷ []; next_sequence = 2 }

first_created : create_task (request 1) empty_tasks ≡ (ok (new_task (request 1) 1), one_task)
unfolding create_task add_task find insert list_eq
first_created = refl

create_task-again_example :
    create_task (request 1) one_task ≡ (ok (new_task (request 1) 1), one_task)
create_task-again_example =
    create_task-again (request 1) (new_task (request 1) 1) empty_tasks one_task first_created

abbrev address : ℕ → StoreAddress
address n = record { host = 104 ∷ []; port = n }

abbrev store : ℕ → ℕ → StoreInfo
store n used = record {
  id = n;
  address = address n;
  capacity_bytes = 100;
  used_bytes = used;
  state = StoreState.running;
  generation = 1;
  last_heartbeat_ms = pos 5;
}

abbrev registrations : List Index.Call
registrations =
    Index.Call.register (store 1 10) ∷ Index.Call.register (store 2 90) ∷ Index.Call.remove 1 ∷ []

history-IsIndexed_example : IsIndexed (Index.history registrations empty_registry)
history-IsIndexed_example = history-IsIndexed registrations empty_registry empty_registry-IsIndexed

abbrev registered : StoreRegistry
registered = Index.history registrations empty_registry

address_valid : validate_address (address 2) ≡ ok tt
unfolding validate_address
address_valid = refl

get_store_by_address-Locates_example :
    Locates registered (address 2) (get_store_by_address (address 2) registered)
get_store_by_address-Locates_example =
    get_store_by_address-Locates registered (address 2)
      (history-IsIndexed registrations empty_registry empty_registry-IsIndexed) address_valid

address_key_inj_example : address 2 ≡ record { host = 104 ∷ []; port = 2 }
address_key_inj_example = address_key_inj (address 2) (record { host = 104 ∷ []; port = 2 }) refl

abbrev placement : PlacementRequest
placement = record { replica_count = 1; required_capacity_bytes = 50 }

abbrev chosen : List ℕ
chosen = 2 ∷ []

placed : select_stores placement (store 1 90 ∷ store 2 10 ∷ []) ≡ ok chosen
unfolding select_stores list_eq
placed = refl

select_stores-IsPlace_example :
    (length chosen ≡ 1)
    × All (IsPlace (store 1 90 ∷ store 2 10 ∷ []) 50) chosen
    × Pairwise (λ a b. a ≢ b) chosen
select_stores-IsPlace_example =
    select_stores-IsPlace placement (store 1 90 ∷ store 2 10 ∷ []) chosen placed

abbrev queue_calls : List (Call ℕ)
queue_calls =
    Call.push_call 1
    ∷ Call.push_call 2
    ∷ Call.push_call 3
    ∷ Call.pop_call
    ∷ Call.close_call
    ∷ Call.pop_call
    ∷ []

new_queue-IsFifo_example :
    IsFifo ℕ 2
      (calls ℕ queue_calls (record { at_end = new_queue ℕ 2; accepted = []; handed_out = [] }))
new_queue-IsFifo_example = new_queue-IsFifo ℕ 2 queue_calls
