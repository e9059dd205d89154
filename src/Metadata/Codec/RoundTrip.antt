-- ===== src/Metadata/Codec/RoundTrip.antt =====
-- Each field is read back from what was put.
use cqupt_block_storage.Base.{
  ℕ, ◌^◌, ◌≤◌, ◌<◌, ◌≡◌, List, [], ◌++◌, length, arith, take-append, drop-append, drop-length,
  take-length, length-append, append_assoc,
}
use cqupt_block_storage.Common.Status.{ok}
use cqupt_block_storage.Metadata.Codec.{
  put_u8, put_u16, put_u32, put_u64, read_u8, read_u16, read_u32, read_u64, read_bytes, read_field,
  put_field, validate_length,
}

pub read_u8-put_u8 : (v : ℕ) (rest : List ℕ) → v < 2 ^ 8 → read_u8 (put_u8 v ++ rest) ≡ (ok v, rest)
unfolding read_u8 put_u8
read_u8-put_u8 v rest h = ground (arith, h)

pub read_u16-put_u16 :
    (v : ℕ) (rest : List ℕ) → v < 2 ^ 16 → read_u16 (put_u16 v ++ rest) ≡ (ok v, rest)
unfolding read_u16 put_u16
read_u16-put_u16 v rest h = ground (arith, h)

pub read_u32-put_u32 :
    (v : ℕ) (rest : List ℕ) → v < 2 ^ 32 → read_u32 (put_u32 v ++ rest) ≡ (ok v, rest)
unfolding read_u32 put_u32
read_u32-put_u32 v rest h = ground (arith, h)

pub read_u64-put_u64 :
    (v : ℕ) (rest : List ℕ) → v < 2 ^ 64 → read_u64 (put_u64 v ++ rest) ≡ (ok v, rest)
unfolding read_u64 put_u64
read_u64-put_u64 v rest h = ground (arith, h)

-- A string whose length is known.
pub read_bytes-append :
    (max_length : ℕ) (xs rest : List ℕ)
    → length xs ≤ max_length
    → read_bytes (length xs) max_length (xs ++ rest) ≡ (ok xs, rest)
unfolding read_bytes
read_bytes-append max_length xs rest h =
    ground (arith, h, take-append xs rest, drop-append xs rest, length-append xs rest)

pub read_bytes-all :
    (max_length : ℕ) (xs : List ℕ)
    → length xs ≤ max_length
    → read_bytes (length xs) max_length xs ≡ (ok xs, [])
unfolding read_bytes
read_bytes-all max_length xs h = ground (arith, h, take-length (length xs) xs, drop-length xs)

-- A counted field.
module _ (m n : ℕ) (xs bytes : List ℕ) (e : put_field m xs ≡ ok bytes) (h : length xs ≤ n) where
  field_bytes : (bytes ≡ put_u32 (length xs) ++ xs) × (length xs < 2 ^ 32)
  unfolding put_field validate_length
  field_bytes = ground (arith, e)

  pub read_field-put_field : (rest : List ℕ) → read_field n (bytes ++ rest) ≡ (ok xs, rest)
  unfolding read_field
  read_field-put_field rest =
      let put : bytes ++ rest ≡ put_u32 (length xs) ++ (xs ++ rest) =
        rw (field_bytes.0) (append_assoc (put_u32 (length xs)) xs rest) in
      ground (
        arith,
        put,
        read_u32-put_u32 (length xs) (xs ++ rest) field_bytes.1,
        read_bytes-append n xs rest h,
      )

  -- and the last one
  pub read_field-last : read_field n bytes ≡ (ok xs, [])
  unfolding read_field
  read_field-last =
      ground
        (arith, field_bytes.0, read_u32-put_u32 (length xs) xs field_bytes.1, read_bytes-all n xs h)
