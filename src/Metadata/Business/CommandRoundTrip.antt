-- ===== src/Metadata/Business/CommandRoundTrip.antt =====
-- A store command is decoded from its bytes.
use cqupt_block_storage.Base.{ℕ, ◌^◌, ◌<◌, ◌≡◌, List, [], ◌++◌, inl, inr, arith, append-nil}
use cqupt_block_storage.Common.Status.{Result-cases, ok}
use cqupt_block_storage.Metadata.Codec.{put_u8, put_u32, put_u64, read_u8, read_u32, read_u64}
use cqupt_block_storage.Metadata.Codec.RoundTrip.{
  read_u8-put_u8, read_u32-put_u32, read_u64-put_u64,
}
use cqupt_block_storage.Metadata.Business.{
  StoreBusinessCommand, kind_value, put_store, put_update, put_create, put_report, encode_business,
  validate_business, validate_register, store_business_command_version,
}
use cqupt_block_storage.Metadata.Business.Decoding.{
  command_kind, read_store, read_update, read_create, read_report, read_business, decode_business,
}
use cqupt_block_storage.Metadata.Business.Fields.{IsStore, without_heartbeat, read_store-put_store}
use cqupt_block_storage.Metadata.Business.CommandFields.{
  IsUpdate, IsRequest, IsReport, read_update-put_update, read_create-put_create,
  read_report-put_report,
}

-- A valid command is of a kind that a byte names.
kind_named :
    (c : StoreBusinessCommand)
    → validate_business c ≡ ok tt
    → (kind_value c.kind < 2 ^ 8) × (command_kind (kind_value c.kind) ≡ c.kind)
unfolding validate_business
kind_named c e = ground (arith, e)

-- What is validated does not depend on the heartbeat.
validate_business-without_heartbeat :
    (c : StoreBusinessCommand)
    → validate_business c ≡ ok tt
    → validate_business (record c { store = without_heartbeat c.store }) ≡ ok tt
unfolding validate_business validate_register
validate_business-without_heartbeat c e = e

-- The three parts of a command that may fail to be put.
encode_business-parts :
    (c : StoreBusinessCommand) (bytes : List ℕ)
    → encode_business c ≡ ok bytes
    → (validate_business c ≡ ok tt)
      × (s t r : List ℕ) × (put_store c.store ≡ ok s)
      × (put_create c.task_create ≡ ok t)
      × (put_report c.task_result ≡ ok r)
      × (bytes
          ≡ put_u8 store_business_command_version
            ++ (put_u8 (kind_value c.kind)
                ++ (put_u64 c.store_id
                    ++ (put_u32 c.max_tasks
                        ++ (s ++ (put_update c.store_update ++ (t ++ (r ++ []))))))))
unfolding encode_business
encode_business-parts c bytes e = elim (Result-cases (put_store c.store)) [
  | inl (s, fs) ↦ elim (Result-cases (put_create c.task_create)) [
    | inl (t, ft) ↦ elim (Result-cases (put_report c.task_result)) [
      | inl (r, fr) ↦
          (ground (arith, e), s, t, r, fs, ft, fr, ground (arith, fs, ft, fr, e, append-nil r))
      | inr (code, fr) ↦ absurd (ground (arith, fs, ft, fr, e))
    ]
    | inr (code, ft) ↦ absurd (ground (arith, fs, ft, e))
  ]
  | inr (code, fs) ↦ absurd (ground (arith, fs, e))
]

read_business-fields :
    (c : StoreBusinessCommand) (k : ℕ) (s0 s1 s2 s3 s4 s5 s6 s7 : List ℕ)
    → read_u8 s0 ≡ (ok store_business_command_version, s1)
    → read_u8 s1 ≡ (ok k, s2)
    → read_u64 s2 ≡ (ok c.store_id, s3)
    → read_u32 s3 ≡ (ok c.max_tasks, s4)
    → read_store s4 ≡ (ok (without_heartbeat c.store), s5)
    → read_update s5 ≡ (ok c.store_update, s6)
    → read_create s6 ≡ (ok c.task_create, s7)
    → read_report s7 ≡ (ok c.task_result, [])
    → command_kind k ≡ c.kind
    → read_business s0 ≡ (ok (record c { store = without_heartbeat c.store }), [])
unfolding read_business
read_business-fields c k s0 s1 s2 s3 s4 s5 s6 s7 f0 f1 f2 f3 f4 f5 f6 f7 e =
    ground (arith, f0, f1, f2, f3, f4, f5, f6, f7, e)

decode_business-read :
    (bytes : List ℕ) (d : StoreBusinessCommand)
    → read_business bytes ≡ (ok d, [])
    → validate_business d ≡ ok tt
    → decode_business bytes ≡ ok d
unfolding decode_business
decode_business-read bytes d read valid = ground (arith, read, valid)

-- The bytes of a store command that is encoded without an error decode to that command with the
-- heartbeat of its store set to zero, where its numbers are words of their widths, its states and
-- types are ones that a byte names (the state of an update not 0xFF), and no optional number is
-- given as zero.
pub decode_business-encode_business :
    (c : StoreBusinessCommand) (bytes : List ℕ)
    → c.store_id < 2 ^ 64
    → c.max_tasks < 2 ^ 32
    → IsStore c.store
    → IsUpdate c.store_update
    → IsRequest c.task_create
    → IsReport c.task_result
    → encode_business c ≡ ok bytes
    → decode_business bytes ≡ ok (record c { store = without_heartbeat c.store })
decode_business-encode_business c bytes hi hm vs vu vc vr e =
    let (valid, s, t, r, fs, ft, fr, whole) = encode_business-parts c bytes e in
    let (kf, kn) = kind_named c valid in
    let r7 = r ++ [] in
    let r6 = t ++ r7 in
    let r5 = put_update c.store_update ++ r6 in
    let r4 = s ++ r5 in
    let r3 = put_u32 c.max_tasks ++ r4 in
    let r2 = put_u64 c.store_id ++ r3 in
    let r1 = put_u8 (kind_value c.kind) ++ r2 in
    let read : read_business bytes ≡ (ok (record c { store = without_heartbeat c.store }), []) =
      rw whole (
        read_business-fields c (kind_value c.kind) (put_u8 store_business_command_version ++ r1) r1
          r2 r3 r4 r5 r6 r7 (read_u8-put_u8 store_business_command_version r1 (omega arith))
          (read_u8-put_u8 (kind_value c.kind) r2 kf) (read_u64-put_u64 c.store_id r3 hi)
          (read_u32-put_u32 c.max_tasks r4 hm) (read_store-put_store c.store s r5 vs fs)
          (read_update-put_update c.store_update r6 vu)
          (read_create-put_create c.task_create t r7 vc ft)
          (read_report-put_report c.task_result r [] vr fr) kn) in
    decode_business-read bytes (record c { store = without_heartbeat c.store }) read
      (validate_business-without_heartbeat c valid)
