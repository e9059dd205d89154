-- ===== src/Metadata/Command/Decoding.antt =====
-- `DecodeMetadataCommand` (metadata/metadata_command.cpp).
use cqupt_block_storage.Base.{
  ℕ, ◌/◌, ◌%◌, List, not, Option, none, some, ◌==◌, if◌then◌else◌, is_empty,
}
use cqupt_block_storage.Common.Status
use cqupt_block_storage.Common.Status.{Result, ok, corruption}
use cqupt_block_storage.Common.Action.{pure, refuse_if, ◌>>=◌, ◌>>◌}
use cqupt_block_storage.Metadata.Codec.{
  Reader, read_u8, read_u16, read_u32, read_u64, read_bytes, max_id_bytes, max_target_bytes,
  max_payload_bytes,
}
use cqupt_block_storage.Metadata.Command.{
  MetadataCommand, command_type, is_known_type, command_format_version, validate_command,
}

-- `flags & kFlagHasExpectedGeneration`
unfoldable pub read_generation : ℕ → Reader (Option ℕ)
unfolding read_u64
read_generation flags = if flags % 2 == 1 then read_u64 >>= (λ g. pure (some g)) else pure none

-- the part of `DecodeMetadataCommand` that reads
unfoldable pub read_command : Reader MetadataCommand
unfolding read_u8 read_u16 read_u32 read_bytes read_generation
read_command = do
  version ← read_u8
  refuse_if (λ rest. not (version == command_format_version)) corruption
  type_value ← read_u8
  flags ← read_u16
  refuse_if (λ rest. not (flags / 2 == 0)) corruption
  command_id_length ← read_u32
  target_id_length ← read_u32
  payload_length ← read_u32
  refuse_if (λ rest. not (is_known_type (command_type type_value))) corruption
  expected_generation ← read_generation flags
  command_id ← read_bytes command_id_length max_id_bytes
  target_id ← read_bytes target_id_length max_target_bytes
  payload ← read_bytes payload_length max_payload_bytes
  refuse_if (λ rest. not (is_empty rest)) corruption
  pure (record {
    type = command_type type_value;
    command_id = command_id;
    target_id = target_id;
    expected_generation = expected_generation;
    payload = payload;
  })

unfoldable pub decode_command : List ℕ → Result MetadataCommand
unfolding read_command validate_command
decode_command bytes =
    Status.◌>>=◌ (read_command bytes).0
      λ decoded. Status.◌>>◌ (validate_command decoded) (ok decoded)
