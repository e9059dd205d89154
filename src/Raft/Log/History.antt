-- ===== src/Raft/Log/History.antt =====
-- Any sequence of calls on a `RaftLog`: the invariant, and what a committed entry may rely on.
use cqupt_block_storage.Base.{
  ℕ, ◌-◌, ◌≤◌, ◌<◌, ◌≡◌, refl, sym, subst, ◌∙◌, List, [], ◌∷◌, arith, get_elem?-append_left,
  get_elem?-drop, get_elem?-take, u64_mod,
}
use cqupt_block_storage.Common.Status.{Result, ok, err, ⊤}
use cqupt_block_storage.Common.Action.{Action}
use cqupt_block_storage.Raft.Types.{LogEntry}
use cqupt_block_storage.Raft.Log
use cqupt_block_storage.Raft.Log.{RaftLog}
use cqupt_block_storage.Raft.Log.Invariant.{last, IsValid}
use cqupt_block_storage.Raft.Log.Updates.{
  Appends, Truncates, Advances, append-Appends, truncate_suffix-Truncates,
  advance_stable_to-Advances, advance_commit_to-Advances, advance_applied_to-Advances,
}
use cqupt_block_storage.Raft.Log.Compaction.{Compacts, update_snapshot_boundary-Compacts}
use cqupt_block_storage.Raft.Log.Reads.{entry_at}

-- The methods that change a log, with their arguments.
pub data Call : Type 0 where
  append : List LogEntry → Call
  truncate_suffix advance_stable_to advance_commit_to advance_applied_to : ℕ → Call
  update_snapshot_boundary : ℕ → ℕ → Call

abbrev pub call : Call → Action RaftLog ⊤
call (append es) = Log.append es
call (truncate_suffix i) = Log.truncate_suffix i
call (advance_stable_to i) = Log.advance_stable_to i
call (advance_commit_to i) = Log.advance_commit_to i
call (advance_applied_to i) = Log.advance_applied_to i
call (update_snapshot_boundary i t) = Log.update_snapshot_boundary i t

-- An index argument is a 64-bit word.
abbrev pub IsWord : Call → Type 0
IsWord (truncate_suffix i) = i < u64_mod
IsWord _ = ⊤

abbrev pub AreWords : List Call → Type 0
AreWords [] = ⊤
AreWords (c ∷ cs) = IsWord c × AreWords cs

pub run : List Call → RaftLog → RaftLog
run [] l = l
run (c ∷ cs) l = run cs (call c l).1

-- What a call keeps: the invariant, the order of the marks, and every committed entry that is not
-- compacted away.
pub record Keeps (l l' : RaftLog) : Type 0 where
  pub valid : IsValid l'
  pub commit_grows : l.commit_index ≤ l'.commit_index
  pub applied_grows : l.applied_index ≤ l'.applied_index
  pub snapshot_grows : l.snapshot_index ≤ l'.snapshot_index
  pub committed_kept :
      (i : ℕ) → l'.snapshot_index < i → i ≤ l.commit_index → entry_at l' i ≡ entry_at l i

pub Keeps-refl : (l : RaftLog) → IsValid l → Keeps l l
Keeps-refl l v = record {
  valid = v;
  commit_grows = omega arith;
  applied_grows = omega arith;
  snapshot_grows = omega arith;
  committed_kept = λ i p q. refl;
}

pub Keeps-trans : (l m n : RaftLog) → Keeps l m → Keeps m n → Keeps l n
Keeps-trans l m n a b = record {
  valid = b.valid;
  commit_grows = omega (arith, a.commit_grows, b.commit_grows);
  applied_grows = omega (arith, a.applied_grows, b.applied_grows);
  snapshot_grows = omega (arith, a.snapshot_grows, b.snapshot_grows);
  committed_kept = λ i p q.
      b.committed_kept i p (omega (arith, a.commit_grows))
      ∙ a.committed_kept i (omega (arith, b.snapshot_grows)) q;
}

Keeps-same : (l l' : RaftLog) → IsValid l → l' ≡ l → Keeps l l'
Keeps-same l l' v e = subst (Keeps l) (sym e) (Keeps-refl l v)

Appends-Keeps :
    (l : RaftLog) (es : List LogEntry) (o : Result ⊤ × RaftLog)
    → IsValid l
    → Appends l es o
    → Keeps l o.1
unfolding entry_at
Appends-Keeps l es (ok _, l') v (_, e, v') = record {
  valid = v';
  commit_grows = ground arith;
  applied_grows = ground arith;
  snapshot_grows = ground arith;
  committed_kept =
      λ i p q. ground (arith, get_elem?-append_left l.entries es (i - l.snapshot_index - 1));
}
Appends-Keeps l es (err _, l') v (e, _) = Keeps-same l l' v e

Truncates-Keeps :
    (l : RaftLog) (n : ℕ) (o : Result ⊤ × RaftLog) → IsValid l → Truncates l n o → Keeps l o.1
unfolding entry_at
Truncates-Keeps l n (ok _, l') v (above, _, e, v') = record {
  valid = v';
  commit_grows = ground arith;
  applied_grows = ground arith;
  snapshot_grows = ground arith;
  committed_kept = λ i p q.
      ground
        (arith, get_elem?-take (n - l.snapshot_index - 1) l.entries (i - l.snapshot_index - 1));
}
Truncates-Keeps l n (err _, l') v (e, _) = Keeps-same l l' v e

-- A call that sets a mark leaves the entries alone.
marked-Keeps :
    (l l' : RaftLog)
    → IsValid l'
    → l'.entries ≡ l.entries
    → l'.snapshot_index ≡ l.snapshot_index
    → l.commit_index ≤ l'.commit_index
    → l.applied_index ≤ l'.applied_index
    → Keeps l l'
unfolding entry_at
marked-Keeps l l' v' same boundary c a = record {
  valid = v';
  commit_grows = c;
  applied_grows = a;
  snapshot_grows = omega arith;
  committed_kept = λ i p q. rw (same, boundary);
}

Compacts-Keeps :
    (l : RaftLog) (n t : ℕ) (o : Result ⊤ × RaftLog) → IsValid l → Compacts l n t o → Keeps l o.1
unfolding entry_at
Compacts-Keeps l n t (ok _, l') v ((above, _, _), e, v') = record {
  valid = v';
  commit_grows = ground arith;
  applied_grows = ground arith;
  snapshot_grows = ground arith;
  committed_kept = λ i p q. ground (
    arith,
    get_elem?-drop (n - l.snapshot_index) l.entries (i - n - 1) (i - l.snapshot_index - 1),
  );
}
Compacts-Keeps l n t (err _, l') v (e, _) = Keeps-same l l' v e

stable-Keeps :
    (l : RaftLog) (i : ℕ) (o : Result ⊤ × RaftLog)
    → IsValid l
    → Advances (λ k. k.stable_index) last (λ k j. record k { stable_index = j }) l i o
    → Keeps l o.1
stable-Keeps l i (ok _, l') v (_, _, e, v') =
    marked-Keeps l l' v' (ground arith) (ground arith) (ground arith) (ground arith)
stable-Keeps l i (err _, l') v (e, _) = Keeps-same l l' v e

commit-Keeps :
    (l : RaftLog) (i : ℕ) (o : Result ⊤ × RaftLog)
    → IsValid l
    → Advances (λ k. k.commit_index) last (λ k j. record k { commit_index = j }) l i o
    → Keeps l o.1
commit-Keeps l i (ok _, l') v (forward, _, e, v') =
    marked-Keeps l l' v' (ground arith) (ground arith) (ground arith) (ground arith)
commit-Keeps l i (err _, l') v (e, _) = Keeps-same l l' v e

applied-Keeps :
    (l : RaftLog) (i : ℕ) (o : Result ⊤ × RaftLog)
    → IsValid l
    → Advances
        (λ k. k.applied_index)
        (λ k. k.commit_index)
        (λ k j. record k { applied_index = j })
        l
        i
        o
    → Keeps l o.1
applied-Keeps l i (ok _, l') v (forward, _, e, v') =
    marked-Keeps l l' v' (ground arith) (ground arith) (ground arith) (ground arith)
applied-Keeps l i (err _, l') v (e, _) = Keeps-same l l' v e

pub call-Keeps : (c : Call) (l : RaftLog) → IsValid l → IsWord c → Keeps l (call c l).1
call-Keeps (append es) l v w = Appends-Keeps l es _ v (append-Appends l es v)
call-Keeps (truncate_suffix i) l v w = Truncates-Keeps l i _ v (truncate_suffix-Truncates l i v w)
call-Keeps (advance_stable_to i) l v w = stable-Keeps l i _ v (advance_stable_to-Advances l i v)
call-Keeps (advance_commit_to i) l v w = commit-Keeps l i _ v (advance_commit_to-Advances l i v)
call-Keeps (advance_applied_to i) l v w = applied-Keeps l i _ v (advance_applied_to-Advances l i v)
call-Keeps (update_snapshot_boundary i t) l v w =
    Compacts-Keeps l i t _ v (update_snapshot_boundary-Compacts l i t v)

-- From a log that satisfies the invariant, after any sequence of calls of the mutating methods of
-- `RaftLog`, whatever each returns, in which the index that `TruncateSuffix` is given is a 64-bit
-- word: the log satisfies the invariant, the commit, applied and snapshot indices have not fallen,
-- and under each index above the new boundary and at or below the old commit index stands the
-- entry that stood there.
pub run-Keeps : (cs : List Call) (l : RaftLog) → IsValid l → AreWords cs → Keeps l (run cs l)
unfolding run
run-Keeps [] l v w = Keeps-refl l v
run-Keeps (c ∷ cs) l v w =
    let step = call-Keeps c l v w.0 in
    Keeps-trans l (call c l).1 (run cs (call c l).1) step (run-Keeps cs (call c l).1 step.valid w.1)
