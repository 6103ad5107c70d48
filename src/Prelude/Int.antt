-- ===== src/Prelude/Int.antt =====
-- Signed integers over the native numbers, under the library's names, and Go's fixed-width signed
-- types: an `int64` is kept as the integer that its bit pattern stands for.
use tgbotd.Prelude.Tests.{ltb, if◌then◌else◌, ◌==◌}
use Prim.Native.Nat.{ℕ, ◌+◌, ◌-◌, ◌%◌, ◌^◌, ◌<◌}
use mathlib.Core.Path.{◌≡◌}
use native.Mathlib.Omega.{arith}

-- `negsuc n` is -(n + 1).
pub data ℤ : Type 0 where
  pos : ℕ → ℤ
  negsuc : ℕ → ℤ

-- -n.
abbrev pub neg : ℕ → ℤ
neg n = if n == 0 then pos 0 else negsuc (n - 1)

-- The values of `int64` and `int32`.
abbrev pub IsInt64 : ℤ → Type 0
IsInt64 (pos n) = n < 2 ^ 63
IsInt64 (negsuc n) = n < 2 ^ 63

abbrev pub IsInt32 : ℤ → Type 0
IsInt32 (pos n) = n < 2 ^ 31
IsInt32 (negsuc n) = n < 2 ^ 31

-- The integer of a bit pattern.
abbrev pub signed64 : ℕ → ℤ
signed64 m = if ltb m (2 ^ 63) then pos m else negsuc (2 ^ 64 - 1 - m)

abbrev pub signed32 : ℕ → ℤ
signed32 m = if ltb m (2 ^ 31) then pos m else negsuc (2 ^ 32 - 1 - m)

-- The bit pattern of an integer, as `uint64(n)` and `uint32(n)` take it.
abbrev pub bits64 : ℤ → ℕ
bits64 (pos n) = n % 2 ^ 64
bits64 (negsuc n) = 2 ^ 64 - 1 - n % 2 ^ 64

abbrev pub bits32 : ℤ → ℕ
bits32 (pos n) = n % 2 ^ 32
bits32 (negsuc n) = 2 ^ 32 - 1 - n % 2 ^ 32

-- The conversion `int32(n)`.
abbrev pub to_int32 : ℤ → ℤ
to_int32 n = signed32 (bits32 n)

-- `-n` and `m - n` on `int64`, which wrap around.
abbrev pub neg64 : ℤ → ℤ
neg64 n = signed64 ((2 ^ 64 - bits64 n) % 2 ^ 64)

abbrev pub sub64 : ℤ → ℤ → ℤ
sub64 m n = signed64 ((bits64 m + (2 ^ 64 - bits64 n)) % 2 ^ 64)

pub signed64-bits64 : (n : ℤ) → IsInt64 n → signed64 (bits64 n) ≡ n
signed64-bits64 (pos n) h = ground arith
signed64-bits64 (negsuc n) h = ground arith

pub signed32-bits32 : (n : ℤ) → IsInt32 n → signed32 (bits32 n) ≡ n
signed32-bits32 (pos n) h = ground arith
signed32-bits32 (negsuc n) h = ground arith

pub IsInt32-IsInt64 : (n : ℤ) → IsInt32 n → IsInt64 n
IsInt32-IsInt64 (pos n) h = omega arith
IsInt32-IsInt64 (negsuc n) h = omega arith

pub bits64-lt : (n : ℤ) → bits64 n < 2 ^ 64
bits64-lt (pos n) = omega arith
bits64-lt (negsuc n) = omega arith

pub bits32-lt : (n : ℤ) → bits32 n < 2 ^ 32
bits32-lt (pos n) = omega arith
bits32-lt (negsuc n) = omega arith
