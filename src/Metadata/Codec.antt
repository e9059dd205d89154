-- ===== src/Metadata/Codec.antt =====
-- The byte fields that metadata commands, their results and snapshots are made of: big-endian numbers
-- and counted strings. The `Decoder` of the source is a payload and an offset; here it is the payload
-- from that offset on.
pub mod RoundTrip
use cqupt_block_storage.Base.{
  ℕ, zero, suc, ◌+◌, ◌-◌, ◌*◌, ◌/◌, ◌%◌, ◌^◌, List, [], ◌∷◌, ◌++◌, Bool, ltb, if◌then◌else◌, length,
  take, drop,
}
use cqupt_block_storage.Common.Status.{
  Result, ok, err, reject_if, ⊤, ◌>>◌, corruption, invalid_argument,
}
use cqupt_block_storage.Common.Action
use cqupt_block_storage.Common.Action.{Action, ◌>>=◌}

abbrev pub Reader : Type 0 → Type 0
Reader A = Action (List ℕ) A

-- The lowest `w` bytes of a number, highest first.
abbrev pub put_number : ℕ → ℕ → List ℕ
put_number zero v = []
put_number (suc w) v = (v / 2 ^ (8 * w) % 256) ∷ put_number w v

-- `AppendU8`, `AppendU16`, `AppendU32`, `AppendU64`
unfoldable pub put_u8 : ℕ → List ℕ
put_u8 v = put_number 1 v

unfoldable pub put_u16 : ℕ → List ℕ
put_u16 v = put_number 2 v

unfoldable pub put_u32 : ℕ → List ℕ
put_u32 v = put_number 4 v

unfoldable pub put_u64 : ℕ → List ℕ
put_u64 v = put_number 8 v

-- `result = (result << 8) | byte` over the bytes
abbrev pub number_from : ℕ → List ℕ → ℕ
number_from result [] = result
number_from result (b ∷ bs) = number_from (256 * result + b) bs

abbrev pub read_number : ℕ → Reader ℕ
read_number w rest =
    if ltb (length rest) w
    then (err corruption, rest)
    else (ok (number_from 0 (take w rest)), drop w rest)

-- `ReadU8`, `ReadU16`, `ReadU32`, `ReadU64`
unfoldable pub read_u8 : Reader ℕ
read_u8 rest = read_number 1 rest

unfoldable pub read_u16 : Reader ℕ
read_u16 rest = read_number 2 rest

unfoldable pub read_u32 : Reader ℕ
read_u32 rest = read_number 4 rest

unfoldable pub read_u64 : Reader ℕ
read_u64 rest = read_number 8 rest

-- `ReadString` and `ReadPayload`
unfoldable pub read_bytes : ℕ → ℕ → Reader (List ℕ)
read_bytes n max_length rest =
    if ltb max_length n
    then (err corruption, rest)
    else if ltb (length rest) n
    then (err corruption, rest)
    else (ok (take n rest), drop n rest)

-- A field that may be up to `max_size` long, and may be up to 2 ^ 32 - 1 long to be encoded.
unfoldable pub validate_length : ℕ → ℕ → Result ⊤
validate_length size max_size =
    reject_if (ltb max_size size) invalid_argument
    >> reject_if (ltb (2 ^ 32 - 1) size) invalid_argument

abbrev pub max_id_bytes : ℕ
max_id_bytes = 4 * 1024

abbrev pub max_target_bytes : ℕ
max_target_bytes = 4 * 1024

abbrev pub max_payload_bytes : ℕ
max_payload_bytes = 4 * 1024 * 1024

-- `AppendStringField` and `AppendPayloadField` at their limits: the count, and the bytes
unfoldable pub put_field : ℕ → List ℕ → Result (List ℕ)
unfolding put_u32 validate_length
put_field max_length value =
    validate_length (length value) max_length >> ok (put_u32 (length value) ++ value)

-- `ReadStringField` and `ReadPayloadField`
unfoldable pub read_field : ℕ → Reader (List ℕ)
unfolding read_u32 read_bytes
read_field max_length = read_u32 >>= λ n. read_bytes n max_length
