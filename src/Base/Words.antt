-- ===== src/Base/Words.antt =====
-- `uint64_t` arithmetic. A word is a number below `u64_mod`; the operations write the wrap out.
use Prim.Native.Nat.{ℕ, ◌+◌, ◌-◌, ◌%◌, ◌^◌}

abbrev pub u64_mod : ℕ
u64_mod = 2 ^ 64

-- n + 1
abbrev pub inc_u64 : ℕ → ℕ
inc_u64 n = (n + 1) % u64_mod

-- a + b
abbrev pub add_u64 : ℕ → ℕ → ℕ
add_u64 a b = (a + b) % u64_mod

-- a - b; `-` on ℕ is truncated, so the modulus is added first
abbrev pub sub_u64 : ℕ → ℕ → ℕ
sub_u64 a b = (a + u64_mod - b) % u64_mod
