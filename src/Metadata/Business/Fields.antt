-- ===== src/Metadata/Business/Fields.antt =====
-- The stores and the tasks of a result are read back from what was put.
use cqupt_block_storage.Base.{
  ℕ, ◌^◌, ◌≤◌, ◌<◌, ◌≡◌, List, [], ◌∷◌, ◌++◌, inl, inr, length, arith, append_assoc, All,
}
use cqupt_block_storage.Base.Int.{pos}
use cqupt_block_storage.Common.Status.{Result-cases, ok}
use cqupt_block_storage.Store.Types.{
  StoreInfo, TaskRecord, store_state_value, task_type_value, task_state_value,
}
use cqupt_block_storage.Metadata.Codec.{
  put_u8, put_u16, put_u64, read_field, put_field, max_id_bytes, max_target_bytes,
  max_payload_bytes, validate_length,
}
use cqupt_block_storage.Metadata.Codec.RoundTrip.{
  read_u8-put_u8, read_u16-put_u16, read_u64-put_u64, read_field-put_field,
}
use cqupt_block_storage.Metadata.Business.{
  put_store, put_store_numbers, put_task_record, put_task_records,
}
use cqupt_block_storage.Metadata.Business.Decoding.{
  store_state, task_type, task_state, read_store, read_task_record, read_task_records,
}

-- The numbers of a store are words of their width, and its state is one that a byte can name.
pub record IsStore (s : StoreInfo) : Type 0 where
  pub id_word : s.id < 2 ^ 64
  pub capacity_word : s.capacity_bytes < 2 ^ 64
  pub used_word : s.used_bytes < 2 ^ 64
  pub generation_word : s.generation < 2 ^ 64
  pub port_word : s.address.port < 2 ^ 16
  pub state_byte : store_state_value s.state < 2 ^ 8
  pub state_named : store_state (store_state_value s.state) ≡ s.state

-- A heartbeat is not encoded.
abbrev pub without_heartbeat : StoreInfo → StoreInfo
without_heartbeat s = record s { last_heartbeat_ms = pos 0 }

pub put_field-fits : (m : ℕ) (xs bytes : List ℕ) → put_field m xs ≡ ok bytes → length xs ≤ m
unfolding put_field validate_length
put_field-fits m xs bytes e = ground (arith, e)

-- The fields of a store, behind which `rest` stands.
read_store-fields :
    (s : StoreInfo) (host rest : List ℕ)
    → IsStore s
    → read_field max_target_bytes (host ++ rest) ≡ (ok s.address.host, rest)
    → read_store (
        put_u64 s.id
        ++ (put_u64 s.capacity_bytes
            ++ (put_u64 s.used_bytes
                ++ (put_u8 (store_state_value s.state)
                    ++ (put_u64 s.generation ++ (put_u16 s.address.port ++ (host ++ rest)))))))
      ≡ (ok (without_heartbeat s), rest)
unfolding read_store
read_store-fields s host rest v f =
    let r1 = host ++ rest in
    let r2 = put_u16 s.address.port ++ r1 in
    let r3 = put_u64 s.generation ++ r2 in
    let r4 = put_u8 (store_state_value s.state) ++ r3 in
    let r5 = put_u64 s.used_bytes ++ r4 in
    let r6 = put_u64 s.capacity_bytes ++ r5 in
    ground (
      arith,
      read_u64-put_u64 s.id r6 v.id_word,
      read_u64-put_u64 s.capacity_bytes r5 v.capacity_word,
      read_u64-put_u64 s.used_bytes r4 v.used_word,
      read_u8-put_u8 (store_state_value s.state) r3 v.state_byte,
      read_u64-put_u64 s.generation r2 v.generation_word,
      read_u16-put_u16 s.address.port r1 v.port_word,
      f,
      v.state_named,
    )

put_store-fields :
    (s : StoreInfo) (host bytes rest : List ℕ)
    → put_field max_target_bytes s.address.host ≡ ok host
    → put_store s ≡ ok bytes
    → bytes ++ rest
      ≡ put_u64 s.id
        ++ (put_u64 s.capacity_bytes
            ++ (put_u64 s.used_bytes
                ++ (put_u8 (store_state_value s.state)
                    ++ (put_u64 s.generation ++ (put_u16 s.address.port ++ (host ++ rest))))))
unfolding put_store put_store_numbers
put_store-fields s host bytes rest f e =
    let whole : bytes ≡ put_store_numbers s ++ host = ground (arith, f, e) in
    rw whole (simp append_assoc)

put_store-host :
    (s : StoreInfo) (bytes : List ℕ)
    → put_store s ≡ ok bytes
    → (host : List ℕ) × (put_field max_target_bytes s.address.host ≡ ok host)
unfolding put_store
put_store-host s bytes e = elim (Result-cases (put_field max_target_bytes s.address.host)) [
  | inl (host, f) ↦ (host, f)
  | inr (code, f) ↦ absurd (ground (arith, f, e))
]

pub read_store-put_store :
    (s : StoreInfo) (bytes rest : List ℕ)
    → IsStore s
    → put_store s ≡ ok bytes
    → read_store (bytes ++ rest) ≡ (ok (without_heartbeat s), rest)
read_store-put_store s bytes rest v e =
    let (host, f) = put_store-host s bytes e in
    let fits = put_field-fits max_target_bytes s.address.host host f in
    rw (put_store-fields s host bytes rest f e) (
      read_store-fields s host rest v
        (read_field-put_field max_target_bytes max_target_bytes s.address.host host f fits rest))

-- The numbers of a task are words of their width, and its enumerations are ones that a byte can name.
pub record IsTask (t : TaskRecord) : Type 0 where
  pub type_byte : task_type_value t.type < 2 ^ 8
  pub type_named : task_type (task_type_value t.type) ≡ t.type
  pub state_byte : task_state_value t.state < 2 ^ 8
  pub state_named : task_state (task_state_value t.state) ≡ t.state
  pub store_word : t.assigned_store < 2 ^ 64
  pub generation_word : t.generation < 2 ^ 64
  pub sequence_word : t.sequence < 2 ^ 64

read_task-fields :
    (t : TaskRecord) (a b c rest : List ℕ)
    → IsTask t
    → read_field max_id_bytes (a ++ (b ++ (c ++ rest))) ≡ (ok t.task_id, b ++ (c ++ rest))
    → read_field max_payload_bytes (b ++ (c ++ rest)) ≡ (ok t.target_payload, c ++ rest)
    → read_field max_payload_bytes (c ++ rest) ≡ (ok t.result_payload, rest)
    → read_task_record (
        put_u8 (task_type_value t.type)
        ++ (put_u8 (task_state_value t.state)
            ++ (put_u64 t.assigned_store
                ++ (put_u64 t.generation ++ (put_u64 t.sequence ++ (a ++ (b ++ (c ++ rest))))))))
      ≡ (ok t, rest)
unfolding read_task_record
read_task-fields t a b c rest v fa fb fc =
    let r1 = a ++ (b ++ (c ++ rest)) in
    let r2 = put_u64 t.sequence ++ r1 in
    let r3 = put_u64 t.generation ++ r2 in
    let r4 = put_u64 t.assigned_store ++ r3 in
    let r5 = put_u8 (task_state_value t.state) ++ r4 in
    ground (
      arith,
      read_u8-put_u8 (task_type_value t.type) r5 v.type_byte,
      read_u8-put_u8 (task_state_value t.state) r4 v.state_byte,
      read_u64-put_u64 t.assigned_store r3 v.store_word,
      read_u64-put_u64 t.generation r2 v.generation_word,
      read_u64-put_u64 t.sequence r1 v.sequence_word,
      fa,
      fb,
      fc,
      v.type_named,
      v.state_named,
    )

-- The three counted fields of a task are there when its bytes are.
put_task_record-parts :
    (t : TaskRecord) (bytes : List ℕ)
    → put_task_record t ≡ ok bytes
    → (a b c : List ℕ) × (put_field max_target_bytes t.task_id ≡ ok a)
      × (put_field max_payload_bytes t.target_payload ≡ ok b)
      × (put_field max_payload_bytes t.result_payload ≡ ok c)
unfolding put_task_record
put_task_record-parts t bytes e = elim (Result-cases (put_field max_target_bytes t.task_id)) [
  | inl (a, fa) ↦ elim (Result-cases (put_field max_payload_bytes t.target_payload)) [
    | inl (b, fb) ↦ elim (Result-cases (put_field max_payload_bytes t.result_payload)) [
      | inl (c, fc) ↦ (a, b, c, fa, fb, fc)
      | inr (code, fc) ↦ absurd (ground (arith, fa, fb, fc, e))
    ]
    | inr (code, fb) ↦ absurd (ground (arith, fa, fb, e))
  ]
  | inr (code, fa) ↦ absurd (ground (arith, fa, e))
]

put_task_record-whole :
    (t : TaskRecord) (bytes a b c rest : List ℕ)
    → put_task_record t ≡ ok bytes
    → put_field max_target_bytes t.task_id ≡ ok a
    → put_field max_payload_bytes t.target_payload ≡ ok b
    → put_field max_payload_bytes t.result_payload ≡ ok c
    → bytes ++ rest
      ≡ put_u8 (task_type_value t.type)
        ++ (put_u8 (task_state_value t.state)
            ++ (put_u64 t.assigned_store
                ++ (put_u64 t.generation ++ (put_u64 t.sequence ++ (a ++ (b ++ (c ++ rest)))))))
unfolding put_task_record
put_task_record-whole t bytes a b c rest e fa fb fc =
    let whole : bytes
        ≡ put_u8 (task_type_value t.type)
          ++ (put_u8 (task_state_value t.state)
              ++ (put_u64 t.assigned_store
                  ++ (put_u64 t.generation ++ (put_u64 t.sequence ++ (a ++ (b ++ c)))))) =
      ground (arith, e, fa, fb, fc) in
    rw whole (simp append_assoc)

pub read_task_record-put :
    (t : TaskRecord) (bytes rest : List ℕ)
    → IsTask t
    → put_task_record t ≡ ok bytes
    → read_task_record (bytes ++ rest) ≡ (ok t, rest)
read_task_record-put t bytes rest v e =
    let (a, b, c, fa, fb, fc) = put_task_record-parts t bytes e in
    rw (put_task_record-whole t bytes a b c rest e fa fb fc) (
      read_task-fields t a b c rest v
        (read_field-put_field max_target_bytes max_id_bytes t.task_id a fa
          (put_field-fits max_target_bytes t.task_id a fa) (b ++ (c ++ rest)))
        (read_field-put_field max_payload_bytes max_payload_bytes t.target_payload b fb
          (put_field-fits max_payload_bytes t.target_payload b fb) (c ++ rest))
        (read_field-put_field max_payload_bytes max_payload_bytes t.result_payload c fc
          (put_field-fits max_payload_bytes t.result_payload c fc) rest))

put_task_records-parts :
    (t : TaskRecord) (ts : List TaskRecord) (bytes : List ℕ)
    → put_task_records (t ∷ ts) ≡ ok bytes
    → (a b : List ℕ) × (put_task_record t ≡ ok a) × (put_task_records ts ≡ ok b) × (bytes ≡ a ++ b)
unfolding put_task_records
put_task_records-parts t ts bytes e = elim (Result-cases (put_task_record t)) [
  | inl (a, fa) ↦ elim (Result-cases (put_task_records ts)) [
    | inl (b, fb) ↦ (a, b, fa, fb, ground (arith, fa, fb, e))
    | inr (code, fb) ↦ absurd (ground (arith, fa, fb, e))
  ]
  | inr (code, fa) ↦ absurd (ground (arith, fa, e))
]

put_task_records-nil : (bytes : List ℕ) → put_task_records [] ≡ ok bytes → bytes ≡ []
unfolding put_task_records
put_task_records-nil bytes e = ground (arith, e)

pub read_task_records-put :
    (ts : List TaskRecord) (bytes rest : List ℕ)
    → All IsTask ts
    → put_task_records ts ≡ ok bytes
    → read_task_records (length ts) (bytes ++ rest) ≡ (ok ts, rest)
unfolding read_task_records
read_task_records-put [] bytes rest h e = ground (arith, put_task_records-nil bytes e)
read_task_records-put (t ∷ ts) bytes rest (v, h) e =
    let (a, b, fa, fb, whole) = put_task_records-parts t ts bytes e in
    let split : bytes ++ rest ≡ a ++ (b ++ rest) = ground (arith, whole, append_assoc a b rest) in
    ground (
      arith,
      split,
      read_task_record-put t a (b ++ rest) v fa,
      read_task_records-put ts b rest h fb,
    )
