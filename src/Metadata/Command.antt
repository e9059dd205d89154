-- ===== src/Metadata/Command.antt =====
-- `MetadataCommand` and its bytes (metadata/metadata_command.h and .cpp).
pub mod Decoding
pub mod RoundTrip
use cqupt_block_storage.Base.{
  ℕ, ◌+◌, ◌*◌, ◌/◌, ◌%◌, List, [], ◌∷◌, ◌++◌, Bool, true, false, not, Option, none, some, ltb, ◌==◌,
  if◌then◌else◌, length, is_empty,
}
use cqupt_block_storage.Common.Status.{
  Result, ok, err, reject_if, ⊤, ◌>>=◌, ◌>>◌, corruption, invalid_argument,
}
use cqupt_block_storage.Metadata.Codec.{
  Reader, put_u8, put_u16, put_u32, put_u64, read_u8, read_u16, read_u32, read_u64, read_bytes,
  validate_length, max_id_bytes, max_target_bytes, max_payload_bytes,
}

-- `other` is a value that no enumerator names.
pub data MetadataCommandType : Type 0 where
  opaque_operation store_operation : MetadataCommandType
  other : ℕ → MetadataCommandType

pub record MetadataCommand : Type 0 where
  pub type : MetadataCommandType
  pub command_id : List ℕ
  pub target_id : List ℕ
  pub expected_generation : Option ℕ
  pub payload : List ℕ

abbrev pub command_format_version : ℕ
command_format_version = 1

abbrev pub command_type_value : MetadataCommandType → ℕ
command_type_value MetadataCommandType.opaque_operation = 1
command_type_value MetadataCommandType.store_operation = 2
command_type_value (MetadataCommandType.other n) = n

-- the cast of a byte
abbrev pub command_type : ℕ → MetadataCommandType
command_type n =
    if n == 1
    then MetadataCommandType.opaque_operation
    else if n == 2
    then MetadataCommandType.store_operation
    else MetadataCommandType.other n

abbrev pub is_known_type : MetadataCommandType → Bool
is_known_type MetadataCommandType.opaque_operation = true
is_known_type MetadataCommandType.store_operation = true
is_known_type (MetadataCommandType.other n) = false

abbrev pub is_zero : Option ℕ → Bool
is_zero none = false
is_zero (some g) = g == 0

unfoldable pub validate_command : MetadataCommand → Result ⊤
unfolding validate_length
validate_command c = do
  reject_if (not (is_known_type c.type)) invalid_argument
  reject_if (is_empty c.command_id) invalid_argument
  reject_if (is_empty c.target_id) invalid_argument
  validate_length (length c.command_id) max_id_bytes
  validate_length (length c.target_id) max_target_bytes
  validate_length (length c.payload) max_payload_bytes
  reject_if (is_zero c.expected_generation) invalid_argument

-- `kFlagHasExpectedGeneration`
abbrev pub generation_flags : Option ℕ → ℕ
generation_flags none = 0
generation_flags (some g) = 1

unfoldable pub put_generation : Option ℕ → List ℕ
unfolding put_u64
put_generation none = []
put_generation (some g) = put_u64 g

unfoldable pub encode_command : MetadataCommand → Result (List ℕ)
unfolding validate_command put_u8 put_u16 put_u32 put_generation
encode_command c = do
  validate_command c
  ok (
      put_u8 command_format_version
      ++ (put_u8 (command_type_value c.type)
          ++ (put_u16 (generation_flags c.expected_generation)
              ++ (put_u32 (length c.command_id)
                  ++ (put_u32 (length c.target_id)
                      ++ (put_u32 (length c.payload)
                          ++ (put_generation c.expected_generation
                              ++ (c.command_id ++ (c.target_id ++ c.payload)))))))))
