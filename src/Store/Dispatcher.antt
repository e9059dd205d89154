-- ===== src/Store/Dispatcher.antt =====
-- `SimpleTaskDispatcher` (store/simple_task_dispatcher.cpp), over a task manager that is there.
use cqupt_block_storage.Base.{ℕ, List, min, ◌==◌}
use cqupt_block_storage.Common.Status.{invalid_argument}
use cqupt_block_storage.Common.Action.{Action, refuse_if, ◌>>◌}
use cqupt_block_storage.Store.Types.{TaskRecord, TaskResultReport}
use cqupt_block_storage.Store.Tasks.{TaskManager, assign_next_waiting_tasks, complete_task}

pub record PollTasksRequest : Type 0 where
  pub store_id : ℕ
  pub max_tasks : ℕ

-- `max_poll_tasks` is the dispatcher's own field
unfoldable pub poll_tasks : ℕ → PollTasksRequest → Action TaskManager (List TaskRecord)
unfolding assign_next_waiting_tasks
poll_tasks max_poll_tasks q = do
  refuse_if (λ m. q.store_id == 0) invalid_argument
  refuse_if (λ m. q.max_tasks == 0) invalid_argument
  refuse_if (λ m. max_poll_tasks == 0) invalid_argument
  assign_next_waiting_tasks q.store_id (min q.max_tasks max_poll_tasks)

unfoldable pub report_task_result : TaskResultReport → Action TaskManager TaskRecord
unfolding complete_task
report_task_result r = complete_task r
