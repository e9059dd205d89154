-- ===== src/Metadata/Business/CommandFields.antt =====
-- The parts of a store command are read back from what was put.
use cqupt_block_storage.Base.{
  ℕ, ◌^◌, ◌<◌, ◌≡◌, ◌≢◌, refl, List, ◌++◌, Option, none, some, inl, inr, arith, append_assoc,
}
use cqupt_block_storage.Common.Status.{Result-cases, ok}
use cqupt_block_storage.Store.Types.{
  StoreUpdate, TaskCreateRequest, TaskResultReport, task_type_value, task_state_value,
}
use cqupt_block_storage.Metadata.Codec.{
  put_u8, put_u64, read_field, put_field, max_id_bytes, max_target_bytes, max_payload_bytes,
}
use cqupt_block_storage.Metadata.Codec.RoundTrip.{
  read_u8-put_u8, read_u64-put_u64, read_field-put_field,
}
use cqupt_block_storage.Metadata.Business.{
  put_update, put_create, put_report, value_or_zero, state_byte,
}
use cqupt_block_storage.Metadata.Business.Decoding.{
  task_type, task_state, unless_zero, state_of_byte, read_update, read_create, read_report,
}
use cqupt_block_storage.Metadata.Business.Fields.{put_field-fits}

-- An optional number that is encoded as itself: a word, and not zero, which stands for none.
abbrev pub IsOptionalWord : Option ℕ → Type 0
IsOptionalWord none = Unit
IsOptionalWord (some n) = (n ≢ 0) × (n < 2 ^ 64)

optional_word :
    (o : Option ℕ)
    → IsOptionalWord o
    → (value_or_zero o < 2 ^ 64) × (unless_zero (value_or_zero o) ≡ o)
optional_word none h = (omega arith, refl)
optional_word (some n) (z, b) = (b, ground (arith, z))

-- The numbers of an update are words, none of the optional ones is zero, and its state is one that a byte
-- names, other than the byte for no state.
pub record IsUpdate (u : StoreUpdate) : Type 0 where
  pub id_word : u.id < 2 ^ 64
  pub generation_word : IsOptionalWord u.expected_generation
  pub capacity_word : IsOptionalWord u.capacity_bytes
  pub used_word : IsOptionalWord u.used_bytes
  pub state_fits : state_byte u.state < 2 ^ 8
  pub state_named : state_of_byte (state_byte u.state) ≡ u.state

read_update-fields :
    (u : StoreUpdate) (g c k : ℕ) (rest : List ℕ)
    → u.id < 2 ^ 64
    → g < 2 ^ 64
    → c < 2 ^ 64
    → k < 2 ^ 64
    → state_byte u.state < 2 ^ 8
    → unless_zero g ≡ u.expected_generation
    → unless_zero c ≡ u.capacity_bytes
    → unless_zero k ≡ u.used_bytes
    → state_of_byte (state_byte u.state) ≡ u.state
    → read_update (
        put_u64 u.id
        ++ (put_u64 g ++ (put_u64 c ++ (put_u64 k ++ (put_u8 (state_byte u.state) ++ rest)))))
      ≡ (ok u, rest)
unfolding read_update
read_update-fields u g c k rest hi hg hc hk hs eg ec ek es =
    let r1 = put_u8 (state_byte u.state) ++ rest in
    let r2 = put_u64 k ++ r1 in
    let r3 = put_u64 c ++ r2 in
    let r4 = put_u64 g ++ r3 in
    ground (
      arith,
      read_u64-put_u64 u.id r4 hi,
      read_u64-put_u64 g r3 hg,
      read_u64-put_u64 c r2 hc,
      read_u64-put_u64 k r1 hk,
      read_u8-put_u8 (state_byte u.state) rest hs,
      eg,
      ec,
      ek,
      es,
    )

pub read_update-put_update :
    (u : StoreUpdate) (rest : List ℕ)
    → IsUpdate u
    → read_update (put_update u ++ rest) ≡ (ok u, rest)
unfolding put_update
read_update-put_update u rest v =
    let (hg, eg) = optional_word u.expected_generation v.generation_word in
    let (hc, ec) = optional_word u.capacity_bytes v.capacity_word in
    let (hk, ek) = optional_word u.used_bytes v.used_word in
    let split : put_update u ++ rest
        ≡ put_u64 u.id
          ++ (put_u64 (value_or_zero u.expected_generation)
              ++ (put_u64 (value_or_zero u.capacity_bytes)
                  ++ (put_u64 (value_or_zero u.used_bytes)
                      ++ (put_u8 (state_byte u.state) ++ rest)))) =
      simp append_assoc in
    rw split (
      read_update-fields u (value_or_zero u.expected_generation) (value_or_zero u.capacity_bytes)
        (value_or_zero u.used_bytes) rest v.id_word hg hc hk v.state_fits eg ec ek v.state_named)

-- The type of a request is one that a byte names.
pub record IsRequest (q : TaskCreateRequest) : Type 0 where
  pub type_byte : task_type_value q.type < 2 ^ 8
  pub type_named : task_type (task_type_value q.type) ≡ q.type

read_create-fields :
    (q : TaskCreateRequest) (a b rest : List ℕ)
    → IsRequest q
    → read_field max_id_bytes (a ++ (b ++ rest)) ≡ (ok q.task_id, b ++ rest)
    → read_field max_payload_bytes (b ++ rest) ≡ (ok q.target_payload, rest)
    → read_create (put_u8 (task_type_value q.type) ++ (a ++ (b ++ rest))) ≡ (ok q, rest)
unfolding read_create
read_create-fields q a b rest v fa fb = ground (
  arith,
  read_u8-put_u8 (task_type_value q.type) (a ++ (b ++ rest)) v.type_byte,
  fa,
  fb,
  v.type_named,
)

put_create-parts :
    (q : TaskCreateRequest) (bytes : List ℕ)
    → put_create q ≡ ok bytes
    → (a b : List ℕ) × (put_field max_target_bytes q.task_id ≡ ok a)
      × (put_field max_payload_bytes q.target_payload ≡ ok b)
      × (bytes ≡ put_u8 (task_type_value q.type) ++ (a ++ b))
unfolding put_create
put_create-parts q bytes e = elim (Result-cases (put_field max_target_bytes q.task_id)) [
  | inl (a, fa) ↦ elim (Result-cases (put_field max_payload_bytes q.target_payload)) [
    | inl (b, fb) ↦ (a, b, fa, fb, ground (arith, fa, fb, e))
    | inr (code, fb) ↦ absurd (ground (arith, fa, fb, e))
  ]
  | inr (code, fa) ↦ absurd (ground (arith, fa, e))
]

pub read_create-put_create :
    (q : TaskCreateRequest) (bytes rest : List ℕ)
    → IsRequest q
    → put_create q ≡ ok bytes
    → read_create (bytes ++ rest) ≡ (ok q, rest)
read_create-put_create q bytes rest v e =
    let (a, b, fa, fb, whole) = put_create-parts q bytes e in
    let split : bytes ++ rest ≡ put_u8 (task_type_value q.type) ++ (a ++ (b ++ rest)) =
      rw whole (simp append_assoc) in
    rw split (
      read_create-fields q a b rest v
        (read_field-put_field max_target_bytes max_id_bytes q.task_id a fa
          (put_field-fits max_target_bytes q.task_id a fa) (b ++ rest))
        (read_field-put_field max_payload_bytes max_payload_bytes q.target_payload b fb
          (put_field-fits max_payload_bytes q.target_payload b fb) rest))

-- The numbers of a report are words, its expected generation is not zero, and its state is one that a
-- byte names.
pub record IsReport (r : TaskResultReport) : Type 0 where
  pub store_word : r.store_id < 2 ^ 64
  pub generation_word : IsOptionalWord r.expected_generation
  pub state_byte : task_state_value r.final_state < 2 ^ 8
  pub state_named : task_state (task_state_value r.final_state) ≡ r.final_state

read_report-fields :
    (r : TaskResultReport) (g : ℕ) (a b rest : List ℕ)
    → r.store_id < 2 ^ 64
    → g < 2 ^ 64
    → task_state_value r.final_state < 2 ^ 8
    → unless_zero g ≡ r.expected_generation
    → task_state (task_state_value r.final_state) ≡ r.final_state
    → read_field max_id_bytes (a ++ (b ++ rest)) ≡ (ok r.task_id, b ++ rest)
    → read_field max_payload_bytes (b ++ rest) ≡ (ok r.result_payload, rest)
    → read_report (
        put_u64 r.store_id
        ++ (put_u8 (task_state_value r.final_state) ++ (put_u64 g ++ (a ++ (b ++ rest)))))
      ≡ (ok r, rest)
unfolding read_report
read_report-fields r g a b rest hs hg ht eg es fa fb =
    let r1 = a ++ (b ++ rest) in
    let r2 = put_u64 g ++ r1 in
    let r3 = put_u8 (task_state_value r.final_state) ++ r2 in
    ground (
      arith,
      read_u64-put_u64 r.store_id r3 hs,
      read_u8-put_u8 (task_state_value r.final_state) r2 ht,
      read_u64-put_u64 g r1 hg,
      fa,
      fb,
      eg,
      es,
    )

put_report-parts :
    (r : TaskResultReport) (bytes : List ℕ)
    → put_report r ≡ ok bytes
    → (a b : List ℕ) × (put_field max_target_bytes r.task_id ≡ ok a)
      × (put_field max_payload_bytes r.result_payload ≡ ok b)
      × (bytes
          ≡ put_u64 r.store_id
            ++ (put_u8 (task_state_value r.final_state)
                ++ (put_u64 (value_or_zero r.expected_generation) ++ (a ++ b))))
unfolding put_report
put_report-parts r bytes e = elim (Result-cases (put_field max_target_bytes r.task_id)) [
  | inl (a, fa) ↦ elim (Result-cases (put_field max_payload_bytes r.result_payload)) [
    | inl (b, fb) ↦ (a, b, fa, fb, ground (arith, fa, fb, e))
    | inr (code, fb) ↦ absurd (ground (arith, fa, fb, e))
  ]
  | inr (code, fa) ↦ absurd (ground (arith, fa, e))
]

pub read_report-put_report :
    (r : TaskResultReport) (bytes rest : List ℕ)
    → IsReport r
    → put_report r ≡ ok bytes
    → read_report (bytes ++ rest) ≡ (ok r, rest)
read_report-put_report r bytes rest v e =
    let (a, b, fa, fb, whole) = put_report-parts r bytes e in
    let (hg, eg) = optional_word r.expected_generation v.generation_word in
    let split : bytes ++ rest
        ≡ put_u64 r.store_id
          ++ (put_u8 (task_state_value r.final_state)
              ++ (put_u64 (value_or_zero r.expected_generation) ++ (a ++ (b ++ rest)))) =
      rw whole (simp append_assoc) in
    rw split (
      read_report-fields r (value_or_zero r.expected_generation) a b rest v.store_word hg
        v.state_byte eg v.state_named
        (read_field-put_field max_target_bytes max_id_bytes r.task_id a fa
          (put_field-fits max_target_bytes r.task_id a fa) (b ++ rest))
        (read_field-put_field max_payload_bytes max_payload_bytes r.result_payload b fb
          (put_field-fits max_payload_bytes r.result_payload b fb) rest))
