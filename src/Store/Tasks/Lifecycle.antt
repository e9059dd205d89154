-- ===== src/Store/Tasks/Lifecycle.antt =====
-- The life of a task over any sequence of calls of a `TaskManager`.
use cqupt_block_storage.Base.{
  ℕ, ◌≤◌, ◌≡◌, refl, sym, subst, ◌∙◌, List, [], ◌∷◌, true, false, none, some, inl, inr, arith,
  Bool-cases, list_eq, list_eq_iff, bytes_key, find, find-insert, insert-Distinct, Distinct, All,
  ◌==◌,
}
use cqupt_block_storage.Store.Types.{
  TaskState, TaskRecord, TaskCreateRequest, TaskResultReport, task_state_eq,
}
use cqupt_block_storage.Store.Tasks.{
  TaskManager, is_terminal, add_task, assigned, put_task, put_tasks, completed, new_task, u64_max,
}

-- What may become of a task: its id, type, payload and place in the queue stay, its generation
-- counts the changes, a task in a final state does not change, and one that is no longer waiting
-- stays with the store that it was given to.
pub record Evolves (t u : TaskRecord) : Type 0 where
  pub id_same : u.task_id ≡ t.task_id
  pub type_same : u.type ≡ t.type
  pub payload_same : u.target_payload ≡ t.target_payload
  pub sequence_same : u.sequence ≡ t.sequence
  pub generation_grows : t.generation ≤ u.generation
  pub generation_counts : u.generation ≡ t.generation → u ≡ t
  pub final_stays : is_terminal t.state ≡ true → u ≡ t
  pub store_stays :
      task_state_eq t.state TaskState.waiting ≡ false
      → (task_state_eq u.state TaskState.waiting ≡ false) × (u.assigned_store ≡ t.assigned_store)

pub Evolves-refl : (t : TaskRecord) → Evolves t t
Evolves-refl t = record {
  id_same = refl;
  type_same = refl;
  payload_same = refl;
  sequence_same = refl;
  generation_grows = omega arith;
  generation_counts = λ _. refl;
  final_stays = λ _. refl;
  store_stays = λ h. (h, refl);
}

pub Evolves-trans : (t u w : TaskRecord) → Evolves t u → Evolves u w → Evolves t w
Evolves-trans t u w a b = record {
  id_same = b.id_same ∙ a.id_same;
  type_same = b.type_same ∙ a.type_same;
  payload_same = b.payload_same ∙ a.payload_same;
  sequence_same = b.sequence_same ∙ a.sequence_same;
  generation_grows = omega (arith, a.generation_grows, b.generation_grows);
  generation_counts = λ e.
      let first : u.generation ≡ t.generation =
        omega (arith, a.generation_grows, b.generation_grows) in
      b.generation_counts (e ∙ sym first) ∙ a.generation_counts first;
  final_stays = λ h.
      let same = a.final_stays h in
      b.final_stays (subst (λ x. is_terminal x.state ≡ true) (sym same) h) ∙ same;
  store_stays = λ h.
      let first = a.store_stays h in
      let second = b.store_stays first.0 in (second.0, second.1 ∙ first.1);
}

pub assigned-Evolves :
    (store : ℕ) (t : TaskRecord)
    → task_state_eq t.state TaskState.waiting ≡ true
    → Evolves t (assigned store t)
assigned-Evolves store t h = record {
  id_same = refl;
  type_same = refl;
  payload_same = refl;
  sequence_same = refl;
  generation_grows = omega arith;
  generation_counts = λ e. absurd (omega (arith, e));
  final_stays = λ e. ground (arith, e, h);
  store_stays = λ e. ground (arith, e, h);
}

pub completed-Evolves :
    (r : TaskResultReport) (t : TaskRecord)
    → is_terminal r.final_state ≡ true
    → task_state_eq t.state TaskState.running ≡ true
    → Evolves t (completed r t)
completed-Evolves r t f h = record {
  id_same = refl;
  type_same = refl;
  payload_same = refl;
  sequence_same = refl;
  generation_grows = omega arith;
  generation_counts = λ e. absurd (omega (arith, e));
  final_stays = λ e. ground (arith, e, h);
  store_stays = λ e. (ground (arith, f), refl);
}

-- Every task is kept under its id, and an id stands once.
pub record IsKeyed (m : TaskManager) : Type 0 where
  pub distinct : Distinct m.tasks
  pub named : (id : List ℕ) (t : TaskRecord) → find id m.tasks ≡ some t → t.task_id ≡ id

-- Each task of the first state is in the second, and has evolved.
unfoldable pub Keeps : TaskManager → TaskManager → Type 0
Keeps m n =
    IsKeyed m
    → IsKeyed n
      × ((id : List ℕ) (t : TaskRecord)
          → find id m.tasks ≡ some t
          → (u : TaskRecord) × (find id n.tasks ≡ some u) × Evolves t u)

pub Keeps-refl : (m : TaskManager) → Keeps m m
unfolding Keeps
Keeps-refl m v = (v, λ id t h. (t, h, Evolves-refl t))

pub Keeps-trans : (m n o : TaskManager) → Keeps m n → Keeps n o → Keeps m o
unfolding Keeps
Keeps-trans m n o a b v = (
  (b (a v).0).0,
  λ id t h.
      let (u, found, one) = (a v).1 id t h in
      let (w, at_w, two) = (b (a v).0).1 id u found in (w, at_w, Evolves-trans t u w one two),
)

-- A write over a task that evolves into what is written.
pub put_task-Keeps :
    (id : List ℕ) (t u : TaskRecord) (m : TaskManager)
    → find id m.tasks ≡ some t
    → Evolves t u
    → Keeps m (put_task id u m)
unfolding put_task Keeps
put_task-Keeps id t u m found ev v = (
  record {
    distinct = insert-Distinct id u m.tasks v.distinct;
    named = λ j w h. ground (
      arith,
      h,
      find-insert j id u m.tasks,
      list_eq_iff id j,
      v.named j w,
      v.named id t found,
      ev.id_same,
    );
  },
  λ j w h. elim (Bool-cases (list_eq id j)) [
    | inl e ↦
        let same : t ≡ w = ground (arith, e, found, h, list_eq_iff id j) in
        (u, ground (arith, e, find-insert j id u m.tasks), subst (λ x. Evolves x u) same ev)
    | inr e ↦ (w, ground (arith, e, h, find-insert j id u m.tasks), Evolves-refl w)
  ],
)

-- A new task under a new id.
pub add_task-Keeps :
    (q : TaskCreateRequest) (m : TaskManager)
    → find q.task_id m.tasks ≡ none
    → Keeps m (add_task q m).1
unfolding add_task Keeps
add_task-Keeps q m new v =
    let t : TaskRecord = new_task q m.next_sequence in
    elim (Bool-cases (m.next_sequence == u64_max)) [
      | inl e ↦ rw e (v, λ j w h. (w, h, Evolves-refl w))
      | inr e ↦ rw e (
        record {
          distinct = insert-Distinct q.task_id t m.tasks v.distinct;
          named = λ j w h.
              ground
                (arith, h, find-insert j q.task_id t m.tasks, list_eq_iff q.task_id j, v.named j w);
        },
        λ j w h. (
          w,
          ground (arith, h, new, find-insert j q.task_id t m.tasks, list_eq_iff q.task_id j),
          Evolves-refl w,
        ),
      )
    ]

-- The record to be written comes from the one that stands under its id.
abbrev pub IsUpdateOf : TaskManager → TaskRecord → Type 0
IsUpdateOf m u = (t : TaskRecord) × (find u.task_id m.tasks ≡ some t) × Evolves t u

-- One such record is written on top of writes that keep the tasks.
put_update-Keeps :
    (u t : TaskRecord) (m n : TaskManager)
    → find u.task_id m.tasks ≡ some t
    → Evolves t u
    → Keeps m n
    → Keeps m (put_task u.task_id u n)
unfolding put_task Keeps
put_update-Keeps u t m n found ev k v = (
  record {
    distinct = insert-Distinct u.task_id u n.tasks (k v).0.distinct;
    named = λ j w h.
        ground
          (arith, h, find-insert j u.task_id u n.tasks, list_eq_iff u.task_id j, (k v).0.named j w);
  },
  λ j w h. elim (Bool-cases (list_eq u.task_id j)) [
    | inl e ↦
        let same : t ≡ w = ground (arith, e, found, h, list_eq_iff u.task_id j) in
        (u, ground (arith, e, find-insert j u.task_id u n.tasks), subst (λ x. Evolves x u) same ev)
    | inr e ↦
        let (y, at_y, one) = (k v).1 j w h in
        (y, ground (arith, e, at_y, find-insert j u.task_id u n.tasks), one)
  ],
)

-- Writing such records one after the other.
pub put_tasks-Keeps :
    (us : List TaskRecord) (m n : TaskManager)
    → All (IsUpdateOf m) us
    → Keeps m n
    → Keeps m (put_tasks us n)
unfolding put_tasks
put_tasks-Keeps [] m n h k = k
put_tasks-Keeps (u ∷ us) m n ((t, found, ev), h) k =
    put_tasks-Keeps us m (put_task u.task_id u n) h (put_update-Keeps u t m n found ev k)
