-- ===== src/Store/Tasks/Progress.antt =====
-- A poll that asks for enough tasks hands every waiting task out.
use cqupt_block_storage.Base.{
  ℕ, ◌≡◌, subst, ap, List, [], ◌∷◌, map, ◌⊎◌, inl, inr, some, arith, bytes_key, find, find-insert,
  list_eq_iff, Memᴰ, All,
}
use cqupt_block_storage.Store.Types.{TaskRecord}
use cqupt_block_storage.Store.Tasks.{TaskManager, assigned, put_task, put_tasks}
use cqupt_block_storage.Store.Tasks.Waiting.{IsWaiting}

-- Writing tasks, of which only `x` has its id.
pub put_tasks-find :
    (x : TaskRecord) (us : List TaskRecord) (m : TaskManager)
    → All (λ u. u.task_id ≡ x.task_id → u ≡ x) us
    → Memᴰ x us ⊎ (find x.task_id m.tasks ≡ some x)
    → find x.task_id (put_tasks us m).tasks ≡ some x
unfolding put_tasks put_task
put_tasks-find x [] m h (inl e) = elim e [ ]
put_tasks-find x [] m h (inr e) = e
put_tasks-find x (u ∷ us) m (only, h) (inl (Memᴰ.tail e)) =
    put_tasks-find x us (put_task u.task_id u m) h (inl e)
put_tasks-find x (u ∷ us) m (only, h) (inl (Memᴰ.head e)) =
    put_tasks-find x us (put_task u.task_id u m) h (
      inr (
        ground
          (arith, e, find-insert x.task_id u.task_id u m.tasks, list_eq_iff u.task_id x.task_id)))
put_tasks-find x (u ∷ us) m (only, h) (inr e) = put_tasks-find x us (put_task u.task_id u m) h (
    inr (
      ground (
        arith,
        e,
        only,
        find-insert x.task_id u.task_id u m.tasks,
        list_eq_iff u.task_id x.task_id,
      )))

pub map-Mem :
    (store : ℕ) (w : TaskRecord) (ts : List TaskRecord)
    → Memᴰ w ts
    → Memᴰ (assigned store w) (map (assigned store) ts)
map-Mem store w [] m = elim m [ ]
map-Mem store w (t ∷ ts) (Memᴰ.head e) = Memᴰ.head (ap (assigned store) e)
map-Mem store w (t ∷ ts) (Memᴰ.tail m) = Memᴰ.tail (map-Mem store w ts m)

-- Of the tasks that are handed out, only one has its id.
pub only-assigned :
    (store : ℕ) (m : TaskManager) (w : TaskRecord) (ts : List TaskRecord)
    → find w.task_id m.tasks ≡ some w
    → All (IsWaiting m) ts
    → All
        (λ u. u.task_id ≡ (assigned store w).task_id → u ≡ assigned store w)
        (map (assigned store) ts)
only-assigned store m w [] found h = tt
only-assigned store m w (t ∷ ts) found ((f, _), h) = (
  λ e.
      let same : t ≡ w = ground (arith, subst (λ i. find i m.tasks ≡ some t) e f, found) in
      ap (assigned store) same,
  only-assigned store m w ts found h,
)
