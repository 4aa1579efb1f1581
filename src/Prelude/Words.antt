-- ===== src/Prelude/Words.antt =====
-- Unsigned 64-bit words as plain numbers below `u64_mod`, with the wrap-around of Go's `+`.
use Prim.Native.Nat.{ℕ, ◌+◌, ◌%◌}

abbrev pub u64_mod : ℕ
u64_mod = 0x1_0000_0000_0000_0000

-- `^uint64(0)`
abbrev pub max_u64 : ℕ
max_u64 = 0xffff_ffff_ffff_ffff

-- `a + b` on `uint64`
abbrev pub add64 : ℕ → ℕ → ℕ
add64 a b = (a + b) % u64_mod
