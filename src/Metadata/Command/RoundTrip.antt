-- ===== src/Metadata/Command/RoundTrip.antt =====
-- A command is decoded from its bytes.
use cqupt_block_storage.Base.{
  ℕ, ◌^◌, ◌≤◌, ◌<◌, ◌≡◌, refl, List, [], ◌++◌, true, Option, none, some, length, arith,
}
use cqupt_block_storage.Common.Status.{ok}
use cqupt_block_storage.Metadata.Codec.{
  put_u8, put_u16, put_u32, validate_length, max_id_bytes, max_target_bytes, max_payload_bytes,
}
use cqupt_block_storage.Metadata.Codec.RoundTrip.{
  read_u8-put_u8, read_u16-put_u16, read_u32-put_u32, read_u64-put_u64, read_bytes-append,
  read_bytes-all,
}
use cqupt_block_storage.Metadata.Command.{
  MetadataCommand, command_type_value, is_known_type, command_format_version, validate_command,
  encode_command, put_generation, generation_flags,
}
use cqupt_block_storage.Metadata.Command.Decoding.{read_generation, read_command, decode_command}

-- What a valid command satisfies.
record IsValid (c : MetadataCommand) : Type 0 where
  known : is_known_type c.type ≡ true
  id_fits : length c.command_id ≤ max_id_bytes
  target_fits : length c.target_id ≤ max_target_bytes
  payload_fits : length c.payload ≤ max_payload_bytes

validate_command-IsValid : (c : MetadataCommand) → validate_command c ≡ ok tt → IsValid c
unfolding validate_command validate_length
validate_command-IsValid c h = record {
  known = ground (arith, h);
  id_fits = ground (arith, h);
  target_fits = ground (arith, h);
  payload_fits = ground (arith, h);
}

-- An expected generation is a 64-bit number.
abbrev pub IsU64 : Option ℕ → Type 0
IsU64 none = Unit
IsU64 (some g) = g < 2 ^ 64

read_generation-put_generation :
    (g : Option ℕ) (rest : List ℕ)
    → IsU64 g
    → read_generation (generation_flags g) (put_generation g ++ rest) ≡ (ok g, rest)
unfolding read_generation put_generation
read_generation-put_generation none rest h = refl
read_generation-put_generation (some g) rest h = ground (arith, read_u64-put_u64 g rest h)

read_command-put :
    (c : MetadataCommand)
    → IsValid c
    → IsU64 c.expected_generation
    → read_command (
        put_u8 command_format_version
        ++ (put_u8 (command_type_value c.type)
            ++ (put_u16 (generation_flags c.expected_generation)
                ++ (put_u32 (length c.command_id)
                    ++ (put_u32 (length c.target_id)
                        ++ (put_u32 (length c.payload)
                            ++ (put_generation c.expected_generation
                                ++ (c.command_id ++ (c.target_id ++ c.payload)))))))))
      ≡ (ok c, [])
unfolding read_command
read_command-put c v g =
    let r1 = c.target_id ++ c.payload in
    let r2 = c.command_id ++ r1 in
    let r3 = put_generation c.expected_generation ++ r2 in
    let r4 = put_u32 (length c.payload) ++ r3 in
    let r5 = put_u32 (length c.target_id) ++ r4 in
    let r6 = put_u32 (length c.command_id) ++ r5 in
    let r7 = put_u16 (generation_flags c.expected_generation) ++ r6 in
    let r8 = put_u8 (command_type_value c.type) ++ r7 in
    ground (
      arith,
      read_u8-put_u8 command_format_version r8 (omega arith),
      read_u8-put_u8 (command_type_value c.type) r7 (ground (arith, v.known)),
      read_u16-put_u16 (generation_flags c.expected_generation) r6 (ground arith),
      read_u32-put_u32 (length c.command_id) r5 (omega (arith, v.id_fits)),
      read_u32-put_u32 (length c.target_id) r4 (omega (arith, v.target_fits)),
      read_u32-put_u32 (length c.payload) r3 (omega (arith, v.payload_fits)),
      read_generation-put_generation c.expected_generation r2 g,
      read_bytes-append max_id_bytes c.command_id r1 v.id_fits,
      read_bytes-append max_target_bytes c.target_id c.payload v.target_fits,
      read_bytes-all max_payload_bytes c.payload v.payload_fits,
      v.known,
    )

-- The bytes of a metadata command that is encoded without an error decode to that command, where
-- its expected generation, if there is one, is a 64-bit word.
pub decode_command-encode_command :
    (c : MetadataCommand) (bytes : List ℕ)
    → IsU64 c.expected_generation
    → encode_command c ≡ ok bytes
    → decode_command bytes ≡ ok c
unfolding encode_command decode_command
decode_command-encode_command c bytes g e =
    let valid : validate_command c ≡ ok tt = ground (arith, e) in
    ground (arith, valid, e, read_command-put c (validate_command-IsValid c valid) g)
