-- ===== src/Raft/Membership/Codec.antt =====
-- The payload of a membership entry: little-endian numbers, members behind their count.
use cqupt_block_storage.Base.{
  ℕ, zero, suc, ◌+◌, ◌-◌, ◌*◌, ◌/◌, ◌%◌, ◌^◌, List, [], ◌∷◌, ◌++◌, not, ◌&&◌, ltb, leb, ◌==◌,
  if◌then◌else◌, length, is_empty, take, drop,
}
use cqupt_block_storage.Common.Status.{
  Result, ok, err, ◌>>=◌, ◌>>◌, reject_if, StatusCode, invalid_argument, corruption,
}
use cqupt_block_storage.Raft.Types.{RaftMember}
use cqupt_block_storage.Raft.Membership.{MembershipLogEntry, normalize_log_entry}

abbrev pub membership_log_format_version : ℕ
membership_log_format_version = 2

abbrev pub active_transition_flag : ℕ
active_transition_flag = 1

-- The lowest `w` bytes of a number, lowest first: `PutU16`, `PutU32` and `PutU64` at w = 2, 4, 8.
unfoldable pub put_bytes : ℕ → ℕ → List ℕ
put_bytes zero value = []
put_bytes (suc w) value = (value % 256) ∷ put_bytes w (value / 256)

-- A reader takes what is left of the payload and returns a value and the new rest. Where the source
-- keeps an offset into the payload, the rest is the payload from that offset on.
abbrev pub Reader : Type 0 → Type 0
Reader A = List ℕ → Result (A × List ℕ)

-- `ReadU8`, `ReadU16`, `ReadU32` and `ReadU64` at w = 1, 2, 4, 8
unfoldable pub read_bytes : ℕ → Reader ℕ
read_bytes zero rest = ok (0, rest)
read_bytes (suc w) [] = err corruption
read_bytes (suc w) (b ∷ rest) =
    read_bytes w rest >>= λ r. let (value, rest') = r in ok (b + 256 * value, rest')

-- `UINT32_MAX`
abbrev pub uint32_max : ℕ
uint32_max = 2 ^ 32 - 1

unfoldable pub encode_member : RaftMember → Result (List ℕ)
unfolding put_bytes
encode_member m = do
  reject_if (ltb uint32_max (length m.address.host)) invalid_argument
  ok (
      put_bytes 8 m.node_id
      ++ (put_bytes 4 (length m.address.host) ++ (m.address.host ++ put_bytes 2 m.address.port)))

unfoldable pub decode_member : Reader RaftMember
unfolding read_bytes
decode_member payload = do
  (node_id, rest) ← read_bytes 8 payload
  (host_size, rest2) ← read_bytes 4 rest
  reject_if (ltb (length rest2) host_size) corruption
  (port, rest3) ← read_bytes 2 (drop host_size rest2)
  ok (
    record { node_id = node_id; address = record { host = take host_size rest2; port = port } },
    rest3,
  )

-- the loop of `EncodeMembers`
encode_each : List RaftMember → Result (List ℕ)
unfolding encode_member
encode_each [] = ok []
encode_each (m ∷ ms) = encode_member m >>= λ bytes. encode_each ms >>= λ rest. ok (bytes ++ rest)

unfoldable pub encode_members : List RaftMember → Result (List ℕ)
unfolding encode_each put_bytes
encode_members ms = do
  reject_if (ltb uint32_max (length ms)) invalid_argument
  bytes ← encode_each ms
  ok (put_bytes 4 (length ms) ++ bytes)

-- the loop of `DecodeMembers`, on the rounds left
decode_each : ℕ → Reader (List RaftMember)
unfolding decode_member
decode_each zero rest = ok ([], rest)
decode_each (suc n) rest = decode_member rest >>= λ r.
    let (m, rest2) = r in decode_each n rest2 >>= λ r2. let (ms, rest3) = r2 in ok (m ∷ ms, rest3)

unfoldable pub decode_members : Reader (List RaftMember)
unfolding decode_each read_bytes
decode_members payload = do (count, rest) ← read_bytes 4 payload; decode_each count rest

unfoldable pub encode_membership_log_entry : MembershipLogEntry → Result (List ℕ)
unfolding normalize_log_entry encode_members put_bytes
encode_membership_log_entry entry = do
  n ← normalize_log_entry entry
  voters ← encode_members n.voters
  learners ← encode_members n.learners
  next_voters ← encode_members n.next_voters
  next_learners ← encode_members n.next_learners
  ok (
      membership_log_format_version
      ∷ (if n.has_active_transition then active_transition_flag else 0)
      ∷ (put_bytes 8 n.configuration_id
          ++ (voters ++ (learners ++ (next_voters ++ next_learners)))))

-- `next_voters` and `next_learners`, which version 1 does not have
decode_next : ℕ → Reader (List RaftMember × List RaftMember)
unfolding decode_members
decode_next version rest =
    if leb 2 version
    then (do
      (next_voters, rest2) ← decode_members rest
      (next_learners, rest3) ← decode_members rest2
      ok ((next_voters, next_learners), rest3))
    else ok (([], []), rest)

as_corruption : StatusCode → StatusCode
as_corruption invalid_argument = corruption
as_corruption c = c

unfoldable pub decode_membership_log_entry : List ℕ → Result MembershipLogEntry
unfolding read_bytes decode_members decode_next normalize_log_entry as_corruption
decode_membership_log_entry payload = do
  (version, rest) ← read_bytes 1 payload
  reject_if (not (version == 1) && not (version == membership_log_format_version)) corruption
  (flags, rest2) ← read_bytes 1 rest
  -- the flags but the lowest, `flags & ~kActiveTransitionFlag`, are not all 0
  reject_if (leb 2 flags) corruption
  (configuration_id, rest3) ← read_bytes 8 rest2
  (voters, rest4) ← decode_members rest3
  (learners, rest5) ← decode_members rest4
  (next, rest6) ← decode_next version rest5
  reject_if (not (is_empty rest6)) corruption
  elim (normalize_log_entry (record {
    configuration_id = configuration_id;
    voters = voters;
    learners = learners;
    has_active_transition = flags % 2 == active_transition_flag;
    next_voters = next.0;
    next_learners = next.1;
  })) [ ok entry ↦ ok entry | err c ↦ err (as_corruption c) ]
