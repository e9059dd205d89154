-- ===== src/Raft/Core/Progress.antt =====
-- What the leader knows of each peer: `peer_progress_` and the methods that keep it.
use cqupt_block_storage.Base.{
  ℕ, List, [], ◌∷◌, ◌++◌, Bool, true, false, not, ◌&&◌, Option, none, some, ltb, ◌==◌,
  if◌then◌else◌, inc_u64, is_empty,
}
use cqupt_block_storage.Common.Status.{Result, ok, err, not_found}
use cqupt_block_storage.Raft.Log.{last_index, first_index}
use cqupt_block_storage.Raft.Types.{PeerProgress, invalid_log_index}
use cqupt_block_storage.Raft.Core.State.{RaftCore, ProgressMap, contains_node}

-- `peer_progress_.find(id)`
unfoldable pub find : ℕ → ProgressMap → Option PeerProgress
find id [] = none
find id ((k, p) ∷ m) = if k == id then some p else find id m

-- `it->second = …` under an id; nothing happens where the id is missing
unfoldable pub update : ℕ → (PeerProgress → PeerProgress) → ProgressMap → ProgressMap
update id f [] = []
update id f ((k, p) ∷ m) = if k == id then (k, f p) ∷ m else (k, p) ∷ update id f m

-- `FindPeerProgress`
unfoldable pub find_peer_progress : ℕ → RaftCore → Result PeerProgress
unfolding find
find_peer_progress id c = elim (find id c.peer_progress) [ none ↦ err not_found | some p ↦ ok p ]

-- a write through the pointer that `FindPeerProgress` returns
abbrev pub update_peer : ℕ → (PeerProgress → PeerProgress) → RaftCore → RaftCore
update_peer id f c = record c { peer_progress = update id f c.peer_progress }

-- `SyncLocalPeerProgress`: a node that is no member has no entry, which is no error
unfoldable pub sync_local_peer_progress : RaftCore → RaftCore
unfolding update last_index
sync_local_peer_progress c =
    update_peer c.node_id
      (λ p. record p {
        is_active = true;
        match_index = last_index c.log;
        next_index = inc_u64 (last_index c.log);
      })
      c

-- the entry that a voter or a learner starts with; `ResetPeerProgress` and the membership updates
-- differ on whether a learner may be the local node
abbrev fresh : Bool → Bool → RaftCore → ℕ → PeerProgress
fresh is_learner is_local c id = record {
  node_id = id;
  is_learner = is_learner;
  is_active = is_local;
  match_index = if is_local then last_index c.log else invalid_log_index;
  next_index = inc_u64 (last_index c.log);
}

-- `emplace`, which keeps an entry that is there
unfoldable pub emplace : ℕ → PeerProgress → ProgressMap → ProgressMap
unfolding find
emplace id p m = elim (find id m) [ none ↦ m ++ (id, p) ∷ [] | some old ↦ m ]

add_fresh : Bool → RaftCore → List ℕ → ProgressMap → ProgressMap
unfolding emplace
add_fresh is_learner c [] m = m
add_fresh is_learner c (id ∷ ids) m =
    add_fresh is_learner c ids (emplace id (fresh is_learner (id == c.node_id) c id) m)

unfoldable pub reset_peer_progress : RaftCore → RaftCore
unfolding add_fresh sync_local_peer_progress
reset_peer_progress c =
    sync_local_peer_progress (record c {
      peer_progress = add_fresh true c c.learner_ids (add_fresh false c c.voter_ids []);
    })

-- the loops of `UpdatePeerProgressForMembership` and `ApplyCommittedMembershipEntry`: an entry that
-- is there only has its mark set
merge_voters : RaftCore → List ℕ → ProgressMap → ProgressMap
unfolding find update
merge_voters c [] m = m
merge_voters c (id ∷ ids) m = merge_voters c ids (elim (find id m) [
  | none ↦ m ++ (id, fresh false (id == c.node_id) c id) ∷ []
  | some p ↦ update id (λ q. record q { is_learner = false }) m
])

merge_learners : RaftCore → List ℕ → ProgressMap → ProgressMap
unfolding find update
merge_learners c [] m = m
merge_learners c (id ∷ ids) m = merge_learners c ids (elim (find id m) [
  | none ↦ m ++ (id, fresh true false c id) ∷ []
  | some p ↦ update id (λ q. record q { is_learner = true }) m
])

-- the loop that erases the entries of nodes that are no members
retain_members : List ℕ → List ℕ → ProgressMap → ProgressMap
unfolding contains_node
retain_members voters learners [] = []
retain_members voters learners ((id, p) ∷ m) =
    if not (contains_node voters id) && not (contains_node learners id)
    then retain_members voters learners m
    else (id, p) ∷ retain_members voters learners m

-- the new map for given members
unfoldable pub progress_for : RaftCore → List ℕ → List ℕ → ProgressMap
unfolding merge_voters merge_learners retain_members
progress_for c voters learners =
    retain_members voters learners
      (merge_learners c learners (merge_voters c voters c.peer_progress))

unfoldable pub update_peer_progress_for_membership : RaftCore → RaftCore
unfolding reset_peer_progress progress_for sync_local_peer_progress
update_peer_progress_for_membership c =
    if is_empty c.peer_progress
    then reset_peer_progress c
    else sync_local_peer_progress
        (record c { peer_progress = progress_for c c.voter_ids c.learner_ids })

unfoldable pub clamp_peer_next_index : RaftCore → ℕ → ℕ
unfolding last_index first_index
clamp_peer_next_index c index =
    let minimum =
      (if ltb invalid_log_index c.log.snapshot_index
        then c.log.snapshot_index
        else first_index c.log) in
    let maximum = inc_u64 (last_index c.log) in
    if ltb index minimum then minimum else if ltb maximum index then maximum else index
