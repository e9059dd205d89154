-- ===== src/Metadata/StateMachine/Effect.antt =====
-- What a successful `Apply` writes, field by field, and what it leaves alone.
use cqupt_block_storage.Base.{
  ℕ, suc, ◌≡◌, ◌≢◌, refl, ◌∙◌, sym, ap, subst, List, Option, none, some, inl, inr, if◌then◌else◌,
  bytes_key, list_eq, list_eq_iff, find, find-insert, insert, inc_u64, arith, Option-cases,
}
use cqupt_block_storage.Common.Status.{Result-cases, ok, ⊤}
use cqupt_block_storage.Metadata.Command.{MetadataCommand, MetadataCommandType}
use cqupt_block_storage.Metadata.Command.Decoding.{decode_command}
use cqupt_block_storage.Metadata.Business.{StoreBusinessCommand, StoreBusinessResult, encode_result}
use cqupt_block_storage.Metadata.Business.Decoding.{decode_business}
use cqupt_block_storage.Metadata.StateMachine.{
  MetadataStateMachine, MetadataStateRecord, generation_after, record_after, put_record,
  check_generation, apply_opaque_command, run_business, apply_store_command, apply_command, advance,
  apply,
}
use cqupt_block_storage.Metadata.StateMachine.Apply.{
  SameRecords, run_business-SameRecords, apply-Puts,
}
use cqupt_block_storage.Metadata.StateMachine.History.{IsSound, target_after-own}

-- The generation of the record that is written, with the one that was there before.
abbrev pub IsGeneration : Option MetadataStateRecord → ℕ → Type 0
IsGeneration none g = g ≡ 1
IsGeneration (some old) g = g ≡ suc old.generation

-- A generation that a command expects is the one of the record that is there.
abbrev pub Allows : Option ℕ → Option MetadataStateRecord → Type 0
Allows none before = ⊤
Allows (some g) before = (old : MetadataStateRecord) × (before ≡ some old) × (old.generation ≡ g)

-- Where the bytes of the record come from: the result of the store command that the payload
-- decodes to, or the payload itself; and what becomes of the stores and the tasks.
abbrev pub Produces :
    ℕ
    → MetadataCommand
    → MetadataCommandType
    → MetadataStateMachine
    → MetadataStateMachine
    → List ℕ
    → Type 0
Produces unset c MetadataCommandType.store_operation m n bytes =
    (b : StoreBusinessCommand) × (decode_business c.payload ≡ ok b)
    × (r : StoreBusinessResult) × ((run_business unset b m).0 ≡ ok r)
    × (encode_result r ≡ ok bytes)
    × (n.stores ≡ (run_business unset b m).1.stores)
    × (n.tasks ≡ (run_business unset b m).1.tasks)
Produces unset c t m n bytes =
    (bytes ≡ c.payload)
    × Allows c.expected_generation (find c.target_id m.records)
    × (n.stores ≡ m.stores)
    × (n.tasks ≡ m.tasks)

-- The record of the command's target afterwards, and what is found under any id.
pub record Writes (unset index term : ℕ) (c : MetadataCommand) (m n : MetadataStateMachine)
    (id : List ℕ) : Type 0 where
  pub written : MetadataStateRecord
  pub there : find c.target_id n.records ≡ some written
  pub elsewhere :
      find id n.records ≡ (if list_eq c.target_id id then some written else find id m.records)
  pub target_set : written.target_id ≡ c.target_id
  pub command_set : written.last_command_id ≡ c.command_id
  pub index_set : written.last_update_index ≡ index
  pub term_set : written.last_update_term ≡ term
  pub generation_set : IsGeneration (find c.target_id m.records) written.generation
  pub payload_set : Produces unset c c.type m n written.payload

apply_opaque_command-lem :
    (index term : ℕ) (c : MetadataCommand) (m : MetadataStateMachine)
    → (apply_opaque_command index term c m).0 ≡ ok tt
    → (check_generation c.expected_generation (find c.target_id m.records) ≡ ok tt)
      × ((apply_opaque_command index term c m).1 ≡ put_record index term c c.payload m)
unfolding apply_opaque_command
apply_opaque_command-lem index term c m h = (ground (arith, h), ground (arith, h))

check_generation-Allows :
    (expected : Option ℕ) (before : Option MetadataStateRecord)
    → check_generation expected before ≡ ok tt
    → Allows expected before
unfolding check_generation
check_generation-Allows none before h = tt
check_generation-Allows (some g) none h = absurd (ground (arith, h))
check_generation-Allows (some g) (some old) h = (old, refl, ground (arith, h))

-- What a command's write starts from: the state `k`, with the bytes of the new record.
abbrev Prepares : ℕ → ℕ → ℕ → MetadataCommand → MetadataCommandType → MetadataStateMachine → Type 0
Prepares unset index term c t m =
    (k : MetadataStateMachine) × (bytes : List ℕ) × (k.records ≡ m.records)
    × ((apply_command unset index term c m).1 ≡ put_record index term c bytes k)
    × Produces unset c t m k bytes

apply_store_command-lem :
    (unset index term : ℕ) (c : MetadataCommand) (m : MetadataStateMachine)
    → (apply_store_command unset index term c m).0 ≡ ok tt
    → (b : StoreBusinessCommand) × (decode_business c.payload ≡ ok b)
      × (r : StoreBusinessResult) × ((run_business unset b m).0 ≡ ok r)
      × (bytes : List ℕ) × (encode_result r ≡ ok bytes)
      × ((apply_store_command unset index term c m).1
          ≡ put_record index term c bytes (run_business unset b m).1)
unfolding apply_store_command
apply_store_command-lem unset index term c m h = elim (Result-cases (decode_business c.payload)) [
  | inl (b, d) ↦ elim (Result-cases (run_business unset b m).0) [
    | inl (r, ran) ↦ elim (Result-cases (encode_result r)) [
      | inl (bytes, e) ↦ (b, d, r, ran, bytes, e, ground (arith, d, ran, e))
      | inr (code, e) ↦ absurd (ground (arith, h, d, ran, e))
    ]
    | inr (code, ran) ↦ absurd (ground (arith, h, d, ran))
  ]
  | inr (code, d) ↦ absurd (ground (arith, h, d))
]

apply_command-Prepares :
    (unset index term : ℕ) (c : MetadataCommand) (t : MetadataCommandType)
    (m : MetadataStateMachine)
    → c.type ≡ t
    → (apply_command unset index term c m).0 ≡ ok tt
    → Prepares unset index term c t m
unfolding apply_command SameRecords
apply_command-Prepares unset index term c MetadataCommandType.store_operation m e h =
    let ran : (apply_store_command unset index term c m).0 ≡ ok tt = ground (arith, h, e) in
    let (b, d, r, done, bytes, f, w) = apply_store_command-lem unset index term c m ran in
    let k = (run_business unset b m).1 in
    let same = run_business-SameRecords unset b m in
    (k, bytes, same.0, ground (arith, e, w), (b, d, r, done, f, refl, refl))
apply_command-Prepares unset index term c MetadataCommandType.opaque_operation m e h =
    let ran : (apply_opaque_command index term c m).0 ≡ ok tt = ground (arith, h, e) in
    let (g, w) = apply_opaque_command-lem index term c m ran in
    (m, c.payload, refl, ground (arith, e, w), (refl, check_generation-Allows _ _ g, refl, refl))
apply_command-Prepares unset index term c (MetadataCommandType.other n) m e h =
    let ran : (apply_opaque_command index term c m).0 ≡ ok tt = ground (arith, h, e) in
    let (g, w) = apply_opaque_command-lem index term c m ran in
    (m, c.payload, refl, ground (arith, e, w), (refl, check_generation-Allows _ _ g, refl, refl))

-- The generation that is written does not wrap.
generation_after-IsGeneration :
    (index : ℕ) (c : MetadataCommand) (m : MetadataStateMachine)
    → IsSound m
    → index ≡ inc_u64 m.last_applied_index
    → index ≢ 0
    → IsGeneration (find c.target_id m.records) (generation_after (find c.target_id m.records))
generation_after-IsGeneration index c m v e z = elim (Option-cases (find c.target_id m.records)) [
  | inl f ↦ rw f refl
  | inr (r, f) ↦
      let (_, lo, hi, up, _) = v.records_fit c.target_id r f in
      let bound = v.last_word in rw f (omega (arith, e, z, lo, hi, up, bound))
]

-- Writing a record leaves the stores and the tasks alone.
Produces-frame :
    (unset : ℕ) (c : MetadataCommand) (t : MetadataCommandType) (m k n : MetadataStateMachine)
    (bytes : List ℕ)
    → n.stores ≡ k.stores
    → n.tasks ≡ k.tasks
    → Produces unset c t m k bytes
    → Produces unset c t m n bytes
Produces-frame unset c MetadataCommandType.store_operation m k n bytes s t
      (b, d, r, ran, e, stores, tasks) =
    (b, d, r, ran, e, s ∙ stores, t ∙ tasks)
Produces-frame unset c MetadataCommandType.opaque_operation m k n bytes s t (e, a, stores, tasks) =
    (e, a, s ∙ stores, t ∙ tasks)
Produces-frame unset c (MetadataCommandType.other i) m k n bytes s t (e, a, stores, tasks) =
    (e, a, s ∙ stores, t ∙ tasks)

put-Writes :
    (unset index term : ℕ) (c : MetadataCommand) (m k n : MetadataStateMachine) (bytes id : List ℕ)
    → IsSound m
    → index ≡ inc_u64 m.last_applied_index
    → index ≢ 0
    → k.records ≡ m.records
    → n ≡ advance index term (put_record index term c bytes k)
    → Produces unset c c.type m k bytes
    → Writes unset index term c m n id
unfolding put_record
put-Writes unset index term c m k n bytes id v e z same after made =
    let new = record_after index term c bytes (find c.target_id m.records) in
    let own : new.target_id ≡ c.target_id = target_after-own c m v in
    let into : n.records ≡ insert c.target_id new m.records = ground (arith, after, same, own) in
    record {
      written = new;
      there =
          rw (into, find-insert c.target_id c.target_id new m.records)
            (rw ((list_eq_iff c.target_id c.target_id).1 refl) refl);
      elsewhere = rw into (find-insert id c.target_id new m.records);
      target_set = own;
      command_set = refl;
      index_set = refl;
      term_set = refl;
      generation_set = generation_after-IsGeneration index c m v e z;
      payload_set =
          subst (λ x. Produces unset c c.type m x bytes) (sym after)
            (Produces-frame unset c c.type m k
              (advance index term (put_record index term c bytes k)) bytes refl refl made);
    }

-- The command that a successful `Apply` runs.
apply-command :
    (unset index term : ℕ) (payload : List ℕ) (c : MetadataCommand) (m : MetadataStateMachine)
    → (apply unset index term payload m).0 ≡ ok tt
    → decode_command payload ≡ ok c
    → ((apply_command unset index term c m).0 ≡ ok tt)
      × ((apply unset index term payload m).1
          ≡ advance index term (apply_command unset index term c m).1)
unfolding apply
apply-command unset index term payload c m h d = (ground (arith, h, d), ground (arith, h, d))

-- On a machine that satisfies the invariant of the records, an `Apply` that succeeds was given an
-- index that is one above the last applied index and, like the term, not zero, and a payload that
-- decodes to a command; it sets the progress to that index and term. Afterwards the target of the
-- command has a record with the id of the target and of the command, the index and the term, and
-- the generation 1 if there was none before and else one more than before, and under any other id
-- is found what was found before. For a store command the payload of the record is the encoded
-- result of running the store command that the payload decodes to, and the stores and tasks are as
-- that run left them; for any other command it is the payload of the command, the generation that
-- the command expects, if any, was the one of the record, and the stores and tasks are as they
-- were.
pub apply-Writes :
    (unset index term : ℕ) (payload id : List ℕ) (m : MetadataStateMachine)
    → IsSound m
    → (apply unset index term payload m).0 ≡ ok tt
    → (index ≡ inc_u64 m.last_applied_index)
      × (index ≢ 0)
      × (term ≢ 0)
      × ((apply unset index term payload m).1.last_applied_index ≡ index)
      × ((apply unset index term payload m).1.last_applied_term ≡ term)
      × (c : MetadataCommand) × (decode_command payload ≡ ok c)
      × Writes unset index term c m (apply unset index term payload m).1 id
apply-Writes unset index term payload id m v h =
    let (e, z, y, last, at_term, c, d, _) = apply-Puts unset index term payload m h in
    let (ran, after) = apply-command unset index term payload c m h d in
    let (k, bytes, same, w, made) = apply_command-Prepares unset index term c c.type m refl ran in
    (
      e,
      z,
      y,
      last,
      at_term,
      c,
      d,
      put-Writes unset index term c m k (apply unset index term payload m).1 bytes id v e z same
          (after ∙ ap (advance index term) w) made,
    )
