-- ===== src/Metadata/Business/RoundTrip.antt =====
-- The result of a store command is decoded from its bytes.
use cqupt_block_storage.Base.{
  ℕ, ◌^◌, ◌≤◌, ◌<◌, ◌≡◌, List, [], ◌++◌, Bool, true, false, inl, inr, length, arith, append-nil, ap,
  All,
}
use cqupt_block_storage.Common.Status.{Result-cases, ok}
use cqupt_block_storage.Store.Types.{TaskRecord}
use cqupt_block_storage.Metadata.Codec.{put_u8, put_u32}
use cqupt_block_storage.Metadata.Codec.RoundTrip.{read_u8-put_u8, read_u32-put_u32}
use cqupt_block_storage.Metadata.Business.{
  StoreBusinessResult, put_store, put_task_records, encode_result, flag_byte,
  store_business_result_version, max_store_business_items,
}
use cqupt_block_storage.Metadata.Business.Decoding.{
  read_store, read_version, read_flag, read_counted_tasks, read_result, decode_result,
}
use cqupt_block_storage.Metadata.Business.Fields.{
  IsStore, IsTask, without_heartbeat, read_store-put_store, read_task_records-put,
}

-- The two parts of a result that may fail to be put.
encode_result-parts :
    (r : StoreBusinessResult) (bytes : List ℕ)
    → encode_result r ≡ ok bytes
    → (length r.tasks ≤ max_store_business_items)
      × (a b : List ℕ) × (put_store r.store ≡ ok a)
      × (put_task_records r.tasks ≡ ok b)
      × (bytes
          ≡ put_u8 store_business_result_version
            ++ (put_u8 (flag_byte r.duplicate_result)
                ++ (a ++ (put_u32 (length r.tasks) ++ (b ++ [])))))
unfolding encode_result
encode_result-parts r bytes e = elim (Result-cases (put_store r.store)) [
  | inl (a, fa) ↦ elim (Result-cases (put_task_records r.tasks)) [
    | inl (b, fb) ↦
        (ground (arith, fa, fb, e), a, b, fa, fb, ground (arith, fa, fb, e, append-nil b))
    | inr (code, fb) ↦ absurd (ground (arith, fa, fb, e))
  ]
  | inr (code, fa) ↦ absurd (ground (arith, fa, e))
]

read_version-put :
    (v : ℕ) (rest : List ℕ) → v < 2 ^ 8 → read_version v (put_u8 v ++ rest) ≡ (ok tt, rest)
unfolding read_version
read_version-put v rest h = ground (arith, read_u8-put_u8 v rest h)

read_flag-put : (b : Bool) (rest : List ℕ) → read_flag (put_u8 (flag_byte b) ++ rest) ≡ (ok b, rest)
unfolding read_flag
read_flag-put true rest = ground (arith, read_u8-put_u8 1 rest (omega arith))
read_flag-put false rest = ground (arith, read_u8-put_u8 0 rest (omega arith))

read_counted_tasks-put :
    (ts : List TaskRecord) (bytes rest : List ℕ)
    → length ts ≤ max_store_business_items
    → All IsTask ts
    → put_task_records ts ≡ ok bytes
    → read_counted_tasks (put_u32 (length ts) ++ (bytes ++ rest)) ≡ (ok ts, rest)
unfolding read_counted_tasks
read_counted_tasks-put ts bytes rest fits h e =
    let count = read_u32-put_u32 (length ts) (bytes ++ rest) (omega (arith, fits)) in
    ground (arith, fits, count, read_task_records-put ts bytes rest h e)

read_result-fields :
    (r : StoreBusinessResult) (s0 s1 s2 s3 : List ℕ)
    → read_version store_business_result_version s0 ≡ (ok tt, s1)
    → read_flag s1 ≡ (ok r.duplicate_result, s2)
    → read_store s2 ≡ (ok (without_heartbeat r.store), s3)
    → read_counted_tasks s3 ≡ (ok r.tasks, [])
    → read_result s0 ≡ (ok (record r { store = without_heartbeat r.store }), [])
unfolding read_result
read_result-fields r s0 s1 s2 s3 f0 f1 f2 f3 = ground (arith, f0, f1, f2, f3)

-- The bytes of the result of a store command that is encoded without an error decode to that
-- result with the heartbeat of its store set to zero, where the numbers of the store and of the
-- tasks are words of their widths and their states and types are ones that a byte names.
pub decode_result-encode_result :
    (r : StoreBusinessResult) (bytes : List ℕ)
    → IsStore r.store
    → All IsTask r.tasks
    → encode_result r ≡ ok bytes
    → decode_result bytes ≡ ok (record r { store = without_heartbeat r.store })
unfolding decode_result
decode_result-encode_result r bytes v h e =
    let (fits, a, b, fa, fb, whole) = encode_result-parts r bytes e in
    let r1 = put_u32 (length r.tasks) ++ (b ++ []) in
    let r2 = a ++ r1 in
    let r3 = put_u8 (flag_byte r.duplicate_result) ++ r2 in
    rw whole (
      ap (λ x. x.0)
        (read_result-fields r (put_u8 store_business_result_version ++ r3) r3 r2 r1
          (read_version-put store_business_result_version r3 (omega arith))
          (read_flag-put r.duplicate_result r2) (read_store-put_store r.store a r1 v fa)
          (read_counted_tasks-put r.tasks b [] fits h fb)))
