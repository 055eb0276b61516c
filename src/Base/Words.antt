-- ===== src/Base/Words.antt =====
-- Casts to the fixed widths, and the shifts and complements of unsigned C words.
use Prim.Native.Nat.{ℕ, ◌+◌, ◌-◌, ◌*◌, ◌/◌, ◌%◌, ◌^◌}

abbrev pub u8 : ℕ → ℕ
u8 n = n % 2 ^ 8

abbrev pub u16 : ℕ → ℕ
u16 n = n % 2 ^ 16

abbrev pub u32 : ℕ → ℕ
u32 n = n % 2 ^ 32

abbrev pub u64 : ℕ → ℕ
u64 n = n % 2 ^ 64

-- unsigned 32-bit `a - b`, for operands that fit the word
abbrev pub sub32 : ℕ → ℕ → ℕ
sub32 a b = (a + 2 ^ 32 - b) % 2 ^ 32

-- `~a` at 32 bits
abbrev pub not32 : ℕ → ℕ
not32 a = 2 ^ 32 - 1 - a

-- `a >> k`
abbrev pub shr : ℕ → ℕ → ℕ
shr a k = a / 2 ^ k

-- `a << k` at 32 bits
abbrev pub shl32 : ℕ → ℕ → ℕ
shl32 a k = a * 2 ^ k % 2 ^ 32
