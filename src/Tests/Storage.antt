-- ===== src/Tests/Storage.antt =====
-- The storage in memory at concrete inputs: three entries are appended, two are committed, the third is
-- replaced, and the first is covered by a snapshot.
use cqupt_block_storage.Base.{ℕ, List, [], ◌∷◌, false}
use cqupt_block_storage.Raft.Types.{LogEntry, LogEntryType}
use cqupt_block_storage.Raft.MemoryStorage.History.{Call}

abbrev entry : ℕ → ℕ → LogEntry
entry i t = record { index = i; term = t; type = LogEntryType.command; payload = i ∷ [] }

abbrev earlier : List Call
earlier =
    Call.open_call
    ∷ Call.append_call (entry 1 1 ∷ entry 2 1 ∷ entry 3 1 ∷ [])
    ∷ Call.save_hard_state_call (record {
      current_term = 2;
      voted_for = 1;
      commit_index = 2;
      membership_configuration_id = 1;
    })
    ∷ []

abbrev later : List Call
later =
    Call.truncate_call 3
    ∷ Call.append_call (entry 2 1 ∷ entry 3 2 ∷ [])
    ∷ Call.save_snapshot_call (record {
      metadata = record {
        last_included_index = 1;
        last_included_term = 1;
        membership = record {
          voters = [];
          learners = [];
          has_active_transition = false;
          configuration_id = 0;
          next_voters = [];
          next_learners = [];
        };
      };
      payload = [];
    })
    ∷ []
