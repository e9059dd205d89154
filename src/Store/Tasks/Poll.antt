-- ===== src/Store/Tasks/Poll.antt =====
-- What a poll returns: which of the waiting tasks, how many and in which order.
use cqupt_block_storage.Base.{
  ℕ, suc, ◌≤◌, ◌≡◌, ◌≢◌, refl, sym, subst, ap, ◌∙◌, List, [], ◌∷◌, map, true, ◌⊎◌, inl, inr, some,
  arith, Bool-cases, bytes_key, find, Distinct, list_eq_iff, values, Memᴰ, All, All-imp, All-values,
  Pairwise, Pairwise-take, length, length-take, min, sort_by, sort_by-Pairwise, length-sort_by,
  Sorted-Pairwise, sort_by-Sorted, if◌then◌else◌,
}
use cqupt_block_storage.Common.Status.{ok}
use cqupt_block_storage.Store.Types.{TaskState, TaskRecord, task_state_eq}
use cqupt_block_storage.Store.Tasks.{
  TaskManager, assigned, waiting_tasks, sort_tasks, next_waiting, assign_next_waiting_tasks,
  less_by_fifo, put_tasks,
}
use cqupt_block_storage.Store.Tasks.Lifecycle.{IsKeyed}
use cqupt_block_storage.Store.Tasks.Waiting.{IsWaiting, waiting_tasks-All, next_waiting-IsWaiting}
use cqupt_block_storage.Store.Tasks.Fifo.{
  less_by_fifo-IsOrder, sequence_le, next_waiting-first, assign_each-map,
  assign_next_waiting_tasks-each,
}
use cqupt_block_storage.Store.Tasks.Progress.{put_tasks-find, only-assigned, map-Mem}

-- How many tasks wait.
abbrev pub count_waiting : List TaskRecord → ℕ
count_waiting [] = 0
count_waiting (t ∷ ts) =
    let rest = count_waiting ts in
    if task_state_eq t.state TaskState.waiting then suc rest else rest

length-waiting_tasks : (ts : List TaskRecord) → length (waiting_tasks ts) ≡ count_waiting ts
unfolding waiting_tasks
length-waiting_tasks [] = refl
length-waiting_tasks (t ∷ ts) = ground (arith, length-waiting_tasks ts)

length-next_waiting :
    (k : ℕ) (m : TaskManager) → length (next_waiting k m) ≡ min (count_waiting (values m.tasks)) k
unfolding next_waiting sort_tasks
length-next_waiting k m =
    let waiting = waiting_tasks (values m.tasks) in
    let sorted = sort_by less_by_fifo waiting in
    omega (
      arith,
      length-take (min (length sorted) k) sorted,
      length-sort_by less_by_fifo waiting,
      length-waiting_tasks (values m.tasks),
    )

-- Two tasks with different ids, and two tasks in the order of their places in the queue.
abbrev pub IsApart : TaskRecord → TaskRecord → Type 0
IsApart t u = t.task_id ≢ u.task_id

abbrev pub IsBehind : TaskRecord → TaskRecord → Type 0
IsBehind t u = t.sequence ≤ u.sequence

waiting_tasks-Pairwise :
    (ts : List TaskRecord) → Pairwise IsApart ts → Pairwise IsApart (waiting_tasks ts)
unfolding waiting_tasks
waiting_tasks-Pairwise [] p = tt
waiting_tasks-Pairwise (t ∷ ts) (h, p) =
    elim (Bool-cases (task_state_eq t.state TaskState.waiting)) [
      | inl e ↦ rw e (
        All-imp (λ u. IsApart t u × (task_state_eq u.state TaskState.waiting ≡ true)) (IsApart t)
            (waiting_tasks ts) (λ u a. a.0) (waiting_tasks-All (IsApart t) ts h),
        waiting_tasks-Pairwise ts p,
      )
      | inr e ↦ rw e (waiting_tasks-Pairwise ts p)
    ]

values-IsApart :
    (m : List (List ℕ × TaskRecord))
    → Distinct m
    → ((id : List ℕ) (t : TaskRecord) → find id m ≡ some t → t.task_id ≡ id)
    → Pairwise IsApart (values m)
unfolding find
values-IsApart [] d named = tt
values-IsApart ((k, t) ∷ m) (new, d) named =
    let own : t.task_id ≡ k = named k t (rw ((list_eq_iff k k).1 refl) refl) in
    let further : (id : List ℕ) (u : TaskRecord) → find id m ≡ some u → u.task_id ≡ id =
      λ id u found. named id u (ground (arith, found, new, list_eq_iff k id)) in
    (
      All-values (IsApart t) m d λ id u found e.
          let same : find k m ≡ some u =
            subst (λ i. find i m ≡ some u) (sym (further id u found) ∙ sym e ∙ own) found in
          ground (arith, same, new),
      values-IsApart m d further,
    )

next_waiting-IsApart : (k : ℕ) (m : TaskManager) → IsKeyed m → Pairwise IsApart (next_waiting k m)
unfolding next_waiting sort_tasks
next_waiting-IsApart k m v = Pairwise-take IsApart _ _ (
    sort_by-Pairwise less_by_fifo IsApart (λ a b h e. h (sym e)) _
      (waiting_tasks-Pairwise _ (values-IsApart m.tasks v.distinct v.named)))

next_waiting-IsBehind : (k : ℕ) (m : TaskManager) → Pairwise IsBehind (next_waiting k m)
unfolding next_waiting sort_tasks
next_waiting-IsBehind k m =
    let waiting = waiting_tasks (values m.tasks) in
    Pairwise-take IsBehind _ _ (
      Sorted-Pairwise less_by_fifo IsBehind (λ a b h. sequence_le b a h) _
        (sort_by-Sorted less_by_fifo less_by_fifo-IsOrder waiting))

-- What a poll writes, for each of the tasks that it takes.
assigned-stored :
    (store : ℕ) (m : TaskManager) (ts xs : List TaskRecord)
    → ((w : TaskRecord) → Memᴰ w xs → Memᴰ w ts)
    → All (IsWaiting m) ts
    → All (IsWaiting m) xs
    → All
        (λ w.
          find w.task_id (put_tasks (map (assigned store) ts) m).tasks ≡ some (assigned store w))
        xs
assigned-stored store m ts [] among all h = tt
assigned-stored store m ts (w ∷ xs) among all ((found, _), h) = (
  put_tasks-find (assigned store w) (map (assigned store) ts) m
      (only-assigned store m w ts found all) (inl (map-Mem store w ts (among w (Memᴰ.head refl)))),
  assigned-stored store m ts xs (λ u there. among u (Memᴰ.tail there)) all h,
)

assign_next_waiting_tasks-writes :
    (store k : ℕ) (m : TaskManager) (us : List TaskRecord)
    → (assign_next_waiting_tasks store k m).0 ≡ ok us
    → (assign_next_waiting_tasks store k m).1 ≡ put_tasks us m
unfolding assign_next_waiting_tasks
assign_next_waiting_tasks-writes store k m us e = ground (arith, e)

-- What a poll for at most `k` tasks that returns `us` has taken, where `w` waits.
pub record Takes (store k : ℕ) (m : TaskManager) (us : List TaskRecord) (w : TaskRecord)
    : Type 0 where
  pub taken : List TaskRecord
  pub given : us ≡ map (assigned store) taken
  pub waited : All (IsWaiting m) taken
  pub apart : Pairwise IsApart taken
  pub in_order : Pairwise IsBehind taken
  pub as_many : length taken ≡ min (count_waiting (values m.tasks)) k
  pub first : Memᴰ w taken ⊎ All (λ t. t.sequence ≤ w.sequence) taken
  pub written :
      All
        (λ t.
          find t.task_id (assign_next_waiting_tasks store k m).1.tasks ≡ some (assigned store t))
        taken

-- Where tasks stand under their ids and some task waits, a poll that succeeds has taken tasks that
-- all waited, no two with the same id, in the order of their places in the queue, as many as were
-- asked for or as many as waited, whichever is less; the task that waits is among them, or none of
-- them has a later place than it. It returns them, each given to the polling store, and so they
-- stand under their ids afterwards.
pub assign_next_waiting_tasks-Takes :
    (store k : ℕ) (m : TaskManager) (us : List TaskRecord) (id : List ℕ) (w : TaskRecord)
    → IsKeyed m
    → (assign_next_waiting_tasks store k m).0 ≡ ok us
    → find id m.tasks ≡ some w
    → task_state_eq w.state TaskState.waiting ≡ true
    → Takes store k m us w
assign_next_waiting_tasks-Takes store k m us id w v e found waits =
    let ts = next_waiting k m in
    let given = assign_each-map store ts us (assign_next_waiting_tasks-each store k m us e) in
    let waited = next_waiting-IsWaiting k m v in
    let after : (assign_next_waiting_tasks store k m).1 ≡ put_tasks (map (assigned store) ts) m =
      assign_next_waiting_tasks-writes store k m us e ∙ ap (λ x. put_tasks x m) given in
    record {
      taken = ts;
      given = given;
      waited = waited;
      apart = next_waiting-IsApart k m v;
      in_order = next_waiting-IsBehind k m;
      as_many = length-next_waiting k m;
      first = next_waiting-first k m id w found waits;
      written =
          subst (λ n. All (λ t. find t.task_id n.tasks ≡ some (assigned store t)) ts) (sym after)
            (assigned-stored store m ts ts (λ u there. there) waited waited);
    }
