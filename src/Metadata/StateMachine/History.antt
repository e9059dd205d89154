-- ===== src/Metadata/StateMachine/History.antt =====
-- What holds of the records after any sequence of applied entries.
use cqupt_block_storage.Base.{
  ℕ, suc, ◌+◌, ◌≤◌, ◌<◌, ◌≡◌, ◌≢◌, refl, subst, ◌∙◌, List, [], ◌∷◌, some, inl, inr, if◌then◌else◌,
  bytes_key, find, find-insert, inc_u64, arith, Bool-cases, Option-cases, list_eq, list_eq_iff,
  u64_mod,
}
use cqupt_block_storage.Common.Status.{Result-cases, is_ok}
use cqupt_block_storage.Metadata.Command.{MetadataCommand}
use cqupt_block_storage.Metadata.StateMachine.{
  MetadataStateMachine, MetadataStateRecord, put_record, record_after, apply, generation_after,
  target_after, empty_machine,
}
use cqupt_block_storage.Metadata.StateMachine.Apply.{SameRecords, Puts, apply-refused, apply-Puts}

-- A record stands under its target, and its generation, which counts its changes, is never larger than
-- the index of the last of them, which has been applied.
abbrev pub IsRecord : ℕ → List ℕ → MetadataStateRecord → Type 0
IsRecord last target r =
    (r.target_id ≡ target)
    × (1 ≤ r.generation)
    × (r.generation ≤ r.last_update_index)
    × (r.last_update_index ≤ last)
    × (1 ≤ r.last_update_term)

pub record IsSound (m : MetadataStateMachine) : Type 0 where
  pub last_word : m.last_applied_index < u64_mod
  pub records_fit :
      (target : List ℕ) (r : MetadataStateRecord)
      → find target m.records ≡ some r
      → IsRecord m.last_applied_index target r

SameRecords-IsSound : (m n : MetadataStateMachine) → SameRecords m n → IsSound m → IsSound n
unfolding SameRecords
SameRecords-IsSound m n (a, b, c) v = record {
  last_word = omega (arith, b, v.last_word);
  records_fit = λ target r h.
      let old = v.records_fit target r (ground (arith, h, a)) in ground (arith, old, b);
}

generation_after-IsRecord :
    (index term : ℕ) (c : MetadataCommand) (m : MetadataStateMachine)
    → IsSound m
    → index ≡ inc_u64 m.last_applied_index
    → index ≢ 0
    → (1 ≤ generation_after (find c.target_id m.records))
      × (generation_after (find c.target_id m.records) ≤ index)
generation_after-IsRecord index term c m v e z = elim (Option-cases (find c.target_id m.records)) [
  | inl f ↦ rw f (omega (arith, e, z), omega (arith, e, z))
  | inr (r, f) ↦
      let (a, lo, hi, up, t) = v.records_fit c.target_id r f in
      let bound = v.last_word in
      rw f (omega (arith, e, z, lo, hi, up, bound), omega (arith, e, z, lo, hi, up, bound))
]

-- Where records stand under their own targets, a command's record has the command's target.
pub target_after-own :
    (c : MetadataCommand) (m : MetadataStateMachine)
    → IsSound m
    → target_after c (find c.target_id m.records) ≡ c.target_id
target_after-own c m v = elim (Option-cases (find c.target_id m.records)) [
  | inl f ↦ rw f refl
  | inr (r, f) ↦ rw f (v.records_fit c.target_id r f).0
]

Puts-IsSound :
    (index term : ℕ) (c : MetadataCommand) (m n : MetadataStateMachine)
    → Puts index term c m n
    → index ≡ inc_u64 m.last_applied_index
    → index ≢ 0
    → term ≢ 0
    → n.last_applied_index ≡ index
    → IsSound m
    → IsSound n
unfolding Puts put_record
Puts-IsSound index term c m n (payload, w) e z y last v =
    let fresh = generation_after-IsRecord index term c m v e z in
    let bound = v.last_word in
    let grows : (m.last_applied_index < index) × (index < u64_mod) = omega (arith, e, z, bound) in
    record {
      last_word = omega (arith, last, grows);
      records_fit = λ target r h.
          let written = record_after index term c payload (find c.target_id m.records) in
          let own : written.target_id ≡ c.target_id = target_after-own c m v in
          let found : (if list_eq c.target_id target then some written else find target m.records)
              ≡ some r =
            ground (arith, h, w, own, find-insert target written.target_id written m.records) in
          elim (Bool-cases (list_eq c.target_id target)) [
            | inl t ↦
                let same : written ≡ r = ground (arith, t, found) in
                subst (IsRecord n.last_applied_index target) same (
                  own ∙ (list_eq_iff c.target_id target).0 t,
                  fresh.0,
                  fresh.1,
                  omega (arith, last),
                  omega (arith, y),
                )
            | inr t ↦
                let (a, lo, hi, up, old) = v.records_fit target r (ground (arith, t, found)) in
                (a, lo, hi, omega (arith, up, grows, last), old)
          ];
    }

apply-IsSound :
    (unset index term : ℕ) (payload : List ℕ) (m : MetadataStateMachine)
    → IsSound m
    → IsSound (apply unset index term payload m).1
apply-IsSound unset index term payload m v =
    elim (Result-cases (apply unset index term payload m).0) [
      | inl (done, h) ↦
          let (e, z, y, last, at_term, c, d, w) = apply-Puts unset index term payload m h in
          Puts-IsSound index term c m (apply unset index term payload m).1 w e z y last v
      | inr (code, h) ↦
          SameRecords-IsSound m (apply unset index term payload m).1
            (apply-refused unset index term payload code m h) v
    ]

-- An entry that is handed to the machine, and what stands in the result's uninitialised number.
pub record Entry : Type 0 where
  pub index : ℕ
  pub term : ℕ
  pub payload : List ℕ
  pub unset : ℕ

-- The machine after the entries, the refused ones among them.
unfoldable pub history : List Entry → MetadataStateMachine → MetadataStateMachine
unfolding apply
history [] m = m
history (e ∷ es) m = history es (apply e.unset e.index e.term e.payload m).1

-- How many of the entries were applied.
unfoldable pub applied : List Entry → MetadataStateMachine → ℕ
unfolding apply
applied [] m = 0
applied (e ∷ es) m =
    let rest = applied es (apply e.unset e.index e.term e.payload m).1 in
    if is_ok (apply e.unset e.index e.term e.payload m).0 then suc rest else rest

IsSound-history : (es : List Entry) (m : MetadataStateMachine) → IsSound m → IsSound (history es m)
unfolding history
IsSound-history [] m v = v
IsSound-history (e ∷ es) m v =
    IsSound-history es (apply e.unset e.index e.term e.payload m).1
      (apply-IsSound e.unset e.index e.term e.payload m v)

pub empty_machine-IsSound : IsSound empty_machine
unfolding find
empty_machine-IsSound = record {
  last_word = omega arith;
  records_fit = λ target r h. absurd (ground (arith, h));
}

-- From the empty machine, after any sequence of `Apply` calls, the refused ones among them, the
-- last applied index is a 64-bit word, and each record stands under its own target, has a
-- generation of at least one that is not above the index of its last update, so that counting
-- generations never wraps, an update index that is not above the last applied index, and an update
-- term that is not zero.
pub history-IsSound : (es : List Entry) → IsSound (history es empty_machine)
history-IsSound es = IsSound-history es empty_machine empty_machine-IsSound

apply-counts :
    (unset index term : ℕ) (payload : List ℕ) (m : MetadataStateMachine)
    → IsSound m
    → (apply unset index term payload m).1.last_applied_index ≡ (
        if is_ok (apply unset index term payload m).0
        then suc m.last_applied_index
        else m.last_applied_index)
unfolding SameRecords
apply-counts unset index term payload m v =
    elim (Result-cases (apply unset index term payload m).0) [
      | inl (done, h) ↦
          let (e, z, y, last, at_term, c, d, w) = apply-Puts unset index term payload m h in
          rw (h, last) (omega (arith, e, z, v.last_word))
      | inr (code, h) ↦ rw (h, (apply-refused unset index term payload code m h).1) refl
    ]

history-counts :
    (es : List Entry) (m : MetadataStateMachine)
    → IsSound m
    → (history es m).last_applied_index ≡ m.last_applied_index + applied es m
unfolding history applied
history-counts [] m v = omega arith
history-counts (e ∷ es) m v =
    let next = (apply e.unset e.index e.term e.payload m).1 in
    let one = apply-counts e.unset e.index e.term e.payload m v in
    let rest = history-counts es next (apply-IsSound e.unset e.index e.term e.payload m v) in
    ground (arith, one, rest)

-- From the empty machine, after any sequence of `Apply` calls, the last applied index is the
-- number of the calls that succeeded.
pub history-applied :
    (es : List Entry) → (history es empty_machine).last_applied_index ≡ applied es empty_machine
history-applied es = omega (arith, history-counts es empty_machine empty_machine-IsSound)
