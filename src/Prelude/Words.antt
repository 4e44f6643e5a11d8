-- ===== src/Prelude/Words.antt =====
-- Machine words.
use Prim.Native.Nat.{ℕ, ◌%◌, ◌^◌}

-- Unsigned arithmetic wraps.
abbrev pub u8 : ℕ → ℕ
u8 n = n % 2 ^ 8

abbrev pub u16 : ℕ → ℕ
u16 n = n % 2 ^ 16

abbrev pub u32 : ℕ → ℕ
u32 n = n % 2 ^ 32
