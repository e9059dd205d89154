-- ===== src/Raft/MemoryStorage/Writes.antt =====
-- What no write of a storage undoes.
use cqupt_block_storage.Base.{
  ℕ, suc, ◌+◌, ◌-◌, ◌≤◌, ◌<◌, ◌≡◌, List, [], ◌∷◌, ◌++◌, subst, take, All, u64_mod, length, some,
  arith,
}
use cqupt_block_storage.Common.Status.{ok}
use cqupt_block_storage.Raft.Types.{LogEntry, HardState}
use cqupt_block_storage.Raft.MemoryStorage.{
  MemoryRaftStorage, SnapshotData, snapshot_index, save_hard_state, append_entries, truncate_suffix,
  save_snapshot, entries_above, last_log_index, first_log_index, validate_entry_batch,
  entries_to_append,
}
use cqupt_block_storage.Raft.MemoryStorage.Contiguous.{
  Contiguous, lookup, lookup-append, lookup-take, lookup-entries_above, take-Contiguous,
  entries_above-Contiguous, last_index_of-Contiguous, append-Contiguous, batch-Contiguous,
  entries_to_append-Contiguous,
}

-- The term, the commit index and the snapshot boundary do not fall, and the boundary is committed.
unfoldable pub Grows : MemoryRaftStorage → MemoryRaftStorage → Type 0
Grows s t =
    (s.hard_state.current_term ≤ t.hard_state.current_term)
    × (s.hard_state.commit_index ≤ t.hard_state.commit_index)
    × (snapshot_index s ≤ snapshot_index t)
    × (snapshot_index s ≤ s.hard_state.commit_index → snapshot_index t ≤ t.hard_state.commit_index)

pub save_hard_state-Grows :
    (h : HardState) (s : MemoryRaftStorage) → Grows s (save_hard_state h s).1
unfolding save_hard_state Grows
save_hard_state-Grows h s = ground arith

pub append_entries-Grows :
    (es : List LogEntry) (s : MemoryRaftStorage) → Grows s (append_entries es s).1
unfolding append_entries Grows
append_entries-Grows es s = ground arith

pub truncate_suffix-Grows : (i : ℕ) (s : MemoryRaftStorage) → Grows s (truncate_suffix i s).1
unfolding truncate_suffix Grows
truncate_suffix-Grows i s = ground arith

pub save_snapshot-Grows : (d : SnapshotData) (s : MemoryRaftStorage) → Grows s (save_snapshot d s).1
unfolding save_snapshot Grows
save_snapshot-Grows d s = ground arith

-- The entries follow the snapshot, and the boundary is a word that is committed.
pub record IsStored (s : MemoryRaftStorage) : Type 0 where
  pub contiguous : Contiguous (suc (snapshot_index s)) s.entries

-- Committed entries that the snapshot of the second state does not cover are in it as they were.
unfoldable pub Holds : MemoryRaftStorage → MemoryRaftStorage → Type 0
Holds s t =
    IsStored s
    → IsStored t
      × ((i : ℕ) (e : LogEntry)
          → lookup i s.entries ≡ some e
          → i ≤ s.hard_state.commit_index
          → snapshot_index t < i
          → lookup i t.entries ≡ some e)

pub Holds-refl : (s : MemoryRaftStorage) → Holds s s
unfolding Holds
Holds-refl s v = (v, λ i e h b c. h)

save_hard_state-Holds :
    (h : HardState) (s : MemoryRaftStorage) → Holds s (record s { hard_state = h })
unfolding Holds
save_hard_state-Holds h s v = (record { contiguous = v.contiguous }, λ i e f b c. f)

append-Holds :
    (es added : List LogEntry) (s : MemoryRaftStorage)
    → All (λ e. e.index < u64_mod) es
    → validate_entry_batch es s ≡ ok tt
    → entries_to_append s es ≡ ok added
    → Holds s (record s { entries = s.entries ++ added })
unfolding Holds validate_entry_batch entries_to_append
append-Holds [] added s w h k v =
    let same : [] ≡ added = ground (arith, k) in
    (
      record {
        contiguous =
            append-Contiguous (snapshot_index s) s.entries added v.contiguous
              (subst (Contiguous (suc (snapshot_index s + length s.entries))) same tt);
      },
      λ i e f b c. lookup-append i e s.entries added f,
    )
append-Holds (x ∷ xs) added s w h k v =
    let (above, batch) = batch-Contiguous (snapshot_index s) x xs w (ground (arith, h)) in
    let ending = last_index_of-Contiguous (snapshot_index s) s.entries v.contiguous in
    let start : x.index ≤ suc (last_log_index s) = ground (arith, h, above) in
    let after = entries_to_append-Contiguous s x.index (x ∷ xs) added batch start k in
    (
      record {
        contiguous =
            append-Contiguous (snapshot_index s) s.entries added v.contiguous
              (subst (λ m. Contiguous (suc m) added) ending after);
      },
      λ i e f b c. lookup-append i e s.entries added f,
    )

truncate-Holds :
    (first : ℕ) (s : MemoryRaftStorage)
    → snapshot_index s < first
    → s.hard_state.commit_index < first
    → first ≤ last_log_index s
    → Holds s (record s { entries = take (first - first_log_index s) s.entries })
unfolding Holds
truncate-Holds first s above safe inside v = (
  record {
    contiguous =
        take-Contiguous (first - first_log_index s) (suc (snapshot_index s)) s.entries v.contiguous;
  },
  λ i e f b c.
      lookup-take i e (suc (snapshot_index s)) (first - first_log_index s) s.entries v.contiguous
        (omega (arith, b, safe, above)) f,
)

snapshot-Holds :
    (d : SnapshotData) (s : MemoryRaftStorage)
    → snapshot_index s ≤ d.metadata.last_included_index
    → Holds s (record s {
      snapshot = some d;
      entries = entries_above d.metadata.last_included_index s.entries;
    })
unfolding Holds
snapshot-Holds d s b v = (
  record {
    contiguous =
        entries_above-Contiguous d.metadata.last_included_index (suc (snapshot_index s)) s.entries
          (omega (arith, b)) v.contiguous;
  },
  λ i e f c k. lookup-entries_above i e d.metadata.last_included_index s.entries k f,
)

pub save_hard_state-Keeps :
    (h : HardState) (s : MemoryRaftStorage) → Holds s (save_hard_state h s).1
unfolding save_hard_state
save_hard_state-Keeps h s = ground (arith, save_hard_state-Holds h s, Holds-refl s)

pub append_entries-Keeps :
    (es : List LogEntry) (s : MemoryRaftStorage)
    → All (λ e. e.index < u64_mod) es
    → Holds s (append_entries es s).1
unfolding append_entries
append_entries-Keeps es s w =
    let step : (added : List LogEntry)
        → validate_entry_batch es s ≡ ok tt
        → entries_to_append s es ≡ ok added
        → Holds s (record s { entries = s.entries ++ added }) =
      λ added. append-Holds es added s w in
    grind (arith, step, Holds-refl s)

pub truncate_suffix-Keeps : (i : ℕ) (s : MemoryRaftStorage) → Holds s (truncate_suffix i s).1
unfolding truncate_suffix
truncate_suffix-Keeps i s = ground (arith, truncate-Holds i s, Holds-refl s)

pub save_snapshot-Keeps : (d : SnapshotData) (s : MemoryRaftStorage) → Holds s (save_snapshot d s).1
unfolding save_snapshot
save_snapshot-Keeps d s = ground (arith, snapshot-Holds d s, Holds-refl s)
