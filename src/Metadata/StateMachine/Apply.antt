-- ===== src/Metadata/StateMachine/Apply.antt =====
-- What `Apply` does to the progress and to the records, whether it succeeds or not.
use cqupt_block_storage.Base.{
  ℕ, ◌<◌, ◌≡◌, ◌≢◌, refl, List, inl, inr, ◌==◌, bytes_key, inc_u64, arith, Bool-cases, u64_mod,
}
use cqupt_block_storage.Common.Status.{Result-cases, StatusCode, ok, err, invalid_argument, busy}
use cqupt_block_storage.Metadata.Command.Decoding.{decode_command}
use cqupt_block_storage.Metadata.Command.{MetadataCommand}
use cqupt_block_storage.Metadata.Business.{StoreBusinessCommand}
use cqupt_block_storage.Metadata.StateMachine.{
  MetadataStateMachine, put_record, apply_opaque_command, run_remove, run_report, run_business,
  apply_store_command, apply_command, advance, apply,
}

-- Two states with the same records and the same progress.
unfoldable pub SameRecords : MetadataStateMachine → MetadataStateMachine → Type 0
SameRecords m n =
    (n.records ≡ m.records)
    × (n.last_applied_index ≡ m.last_applied_index)
    × (n.last_applied_term ≡ m.last_applied_term)

run_remove-SameRecords :
    (c : StoreBusinessCommand) (m : MetadataStateMachine) → SameRecords m (run_remove c m).1
unfolding run_remove SameRecords
run_remove-SameRecords c m = ground arith

pub run_business-SameRecords :
    (unset : ℕ) (c : StoreBusinessCommand) (m : MetadataStateMachine)
    → SameRecords m (run_business unset c m).1
unfolding run_business SameRecords run_report
run_business-SameRecords unset c m = ground (arith, run_remove-SameRecords c m)

SameRecords-refl : (m : MetadataStateMachine) → SameRecords m m
unfolding SameRecords
SameRecords-refl m = (refl, refl, refl)

apply_opaque_command-refused :
    (index term : ℕ) (c : MetadataCommand) (e : StatusCode) (m : MetadataStateMachine)
    → (apply_opaque_command index term c m).0 ≡ err e
    → SameRecords m (apply_opaque_command index term c m).1
unfolding apply_opaque_command
apply_opaque_command-refused index term c e m h = grind (arith, h, SameRecords-refl m)

apply_store_command-refused :
    (unset index term : ℕ) (c : MetadataCommand) (e : StatusCode) (m : MetadataStateMachine)
    → (apply_store_command unset index term c m).0 ≡ err e
    → SameRecords m (apply_store_command unset index term c m).1
unfolding apply_store_command
apply_store_command-refused unset index term c e m h =
    let step : (b : StoreBusinessCommand) → SameRecords m (run_business unset b m).1 =
      λ b. run_business-SameRecords unset b m in
    grind (arith, h, SameRecords-refl m, step)

apply_command-refused :
    (unset index term : ℕ) (c : MetadataCommand) (e : StatusCode) (m : MetadataStateMachine)
    → (apply_command unset index term c m).0 ≡ err e
    → SameRecords m (apply_command unset index term c m).1
unfolding apply_command
apply_command-refused unset index term c e m h = ground (
  arith,
  h,
  apply_opaque_command-refused index term c e m,
  apply_store_command-refused unset index term c e m,
)

-- An `Apply` that fails, whatever its status, leaves the records and the progress as they were.
-- (What a store command has done to the stores and the tasks before its result fails to be encoded
-- stays done.)
pub apply-refused :
    (unset index term : ℕ) (payload : List ℕ) (e : StatusCode) (m : MetadataStateMachine)
    → (apply unset index term payload m).0 ≡ err e
    → SameRecords m (apply unset index term payload m).1
unfolding apply
apply-refused unset index term payload e m h =
    let step : (c : MetadataCommand)
        → (apply_command unset index term c m).0 ≡ err e
        → SameRecords m (apply_command unset index term c m).1 =
      λ c. apply_command-refused unset index term c e m in
    grind (arith, h, SameRecords-refl m, step)

-- The records of the second state are those of the first with one more write, of the command `c`.
unfoldable pub Puts : ℕ → ℕ → MetadataCommand → MetadataStateMachine → MetadataStateMachine → Type 0
Puts index term c m n =
    (payload : List ℕ) × (n.records ≡ (put_record index term c payload m).records)

put-Puts :
    (index term : ℕ) (c : MetadataCommand) (payload : List ℕ) (m k : MetadataStateMachine)
    → SameRecords m k
    → Puts index term c m (put_record index term c payload k)
unfolding put_record SameRecords Puts
put-Puts index term c payload m k s = (payload, ground (arith, s.0))

apply_opaque_command-Puts :
    (index term : ℕ) (c : MetadataCommand) (m : MetadataStateMachine)
    → (apply_opaque_command index term c m).0 ≡ ok tt
    → Puts index term c m (apply_opaque_command index term c m).1
unfolding apply_opaque_command
apply_opaque_command-Puts index term c m h =
    grind (arith, h, put-Puts index term c c.payload m m (SameRecords-refl m))

apply_store_command-Puts :
    (unset index term : ℕ) (c : MetadataCommand) (m : MetadataStateMachine)
    → (apply_store_command unset index term c m).0 ≡ ok tt
    → Puts index term c m (apply_store_command unset index term c m).1
unfolding apply_store_command
apply_store_command-Puts unset index term c m h =
    let step : (b : StoreBusinessCommand) (payload : List ℕ)
        → Puts index term c m (put_record index term c payload (run_business unset b m).1) =
      λ b payload.
        put-Puts index term c payload m (run_business unset b m).1
          (run_business-SameRecords unset b m) in
    grind (arith, h, step)

apply_command-Puts :
    (unset index term : ℕ) (c : MetadataCommand) (m : MetadataStateMachine)
    → (apply_command unset index term c m).0 ≡ ok tt
    → Puts index term c m (apply_command unset index term c m).1
unfolding apply_command
apply_command-Puts unset index term c m h = ground (
  arith,
  h,
  apply_opaque_command-Puts index term c m,
  apply_store_command-Puts unset index term c m,
)

advance-Puts :
    (index term : ℕ) (c : MetadataCommand) (m n : MetadataStateMachine)
    → Puts index term c m n
    → Puts index term c m (advance index term n)
unfolding Puts
advance-Puts index term c m n w = w

-- A successful `Apply`, with the write stated by `put_record`.
pub apply-Puts :
    (unset index term : ℕ) (payload : List ℕ) (m : MetadataStateMachine)
    → (apply unset index term payload m).0 ≡ ok tt
    → (index ≡ inc_u64 m.last_applied_index)
      × (index ≢ 0)
      × (term ≢ 0)
      × ((apply unset index term payload m).1.last_applied_index ≡ index)
      × ((apply unset index term payload m).1.last_applied_term ≡ term)
      × (c : MetadataCommand) × (decode_command payload ≡ ok c)
      × Puts index term c m (apply unset index term payload m).1
unfolding apply
apply-Puts unset index term payload m h = elim (Result-cases (decode_command payload)) [
  | inl (c, d) ↦
      let written = apply_command-Puts unset index term c m in
      let advanced = advance-Puts index term c m (apply_command unset index term c m).1 in
      (
        ground (arith, h, d),
        ground (arith, h),
        ground (arith, h),
        ground (arith, h, d),
        ground (arith, h, d),
        c,
        d,
        ground (arith, h, d, written, advanced),
      )
  | inr (e, d) ↦ absurd (ground (arith, h, d))
]

-- Where the last applied index is a 64-bit word, an `Apply` at any index but the one after it (as
-- 64-bit words), so also at the one that was applied last, fails and changes nothing at all.
pub apply-stale :
    (unset index term : ℕ) (payload : List ℕ) (m : MetadataStateMachine)
    → m.last_applied_index < u64_mod
    → index ≢ inc_u64 m.last_applied_index
    → (e : StatusCode) × (apply unset index term payload m ≡ (err e, m))
unfolding apply
apply-stale unset index term payload m w h = elim (Result-cases (decode_command payload)) [
  | inl (c, d) ↦ elim (Bool-cases (index == 0)) [
    | inl z ↦ (invalid_argument, ground (arith, z))
    | inr z ↦ elim (Bool-cases (term == 0)) [
      | inl y ↦ (invalid_argument, ground (arith, z, y))
      | inr y ↦ (busy, ground (arith, h, z, y, d))
    ]
  ]
  | inr (e, d) ↦ elim (Bool-cases (index == 0)) [
    | inl z ↦ (invalid_argument, ground (arith, z))
    | inr z ↦ elim (Bool-cases (term == 0)) [
      | inl y ↦ (invalid_argument, ground (arith, z, y))
      | inr y ↦ (e, ground (arith, z, y, d))
    ]
  ]
]
