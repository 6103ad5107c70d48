-- ===== src/Prelude/Binary.antt =====
-- Little-endian numbers: what the source uses of the package encoding/binary.
use tgbotd.Prelude.Lists.{length, All}
use tgbotd.Prelude.Bytes.{Bytes, IsByte}
use Prim.Native.Nat.{ℕ, zero, suc, ◌+◌, ◌*◌, ◌/◌, ◌%◌, ◌^◌, ◌<◌}
use mathlib.Core.Path.{◌≡◌, refl, ap}
use mathlib.Core.List.{[], ◌∷◌, ◌++◌}
use mathlib.Core.Option.{Option, none, some}
use native.Mathlib.Omega.{arith}

-- The `k` low bytes of `n`, the lowest first.
unfoldable pub put_le : ℕ → ℕ → Bytes
put_le zero n = []
put_le (suc k) n = n % 256 ∷ put_le k (n / 256)

-- `k` bytes as a number, and what follows them; too few bytes are an error.
abbrev pub read_more : ℕ → Option (ℕ × Bytes) → Option (ℕ × Bytes)
read_more c none = none
read_more c (some (n, rest)) = some (c + 256 * n, rest)

unfoldable pub read_le : ℕ → Bytes → Option (ℕ × Bytes)
read_le zero s = some (0, s)
read_le (suc k) [] = none
read_le (suc k) (c ∷ s) = read_more c (read_le k s)

pub put_le-IsByte : (k n : ℕ) → All IsByte (put_le k n)
unfolding put_le
put_le-IsByte zero n = tt
put_le-IsByte (suc k) n = (omega arith, put_le-IsByte k (n / 256))

pub length-put_le : (k n : ℕ) → length (put_le k n) ≡ k
unfolding put_le
length-put_le zero n = refl
length-put_le (suc k) n = ap suc (length-put_le k (n / 256))

-- The number that `k` bytes hold of `n`.
abbrev pub low : ℕ → ℕ → ℕ
low zero n = 0
low (suc k) n = n % 256 + 256 * low k (n / 256)

pub read_le-put_le :
    (k n : ℕ) (rest : Bytes) → read_le k (put_le k n ++ rest) ≡ some (low k n, rest)
unfolding read_le put_le
read_le-put_le zero n rest = refl
read_le-put_le (suc k) n rest = rw (read_le-put_le k (n / 256) rest)

pub low4 : (n : ℕ) → n < 2 ^ 32 → low 4 n ≡ n
low4 n h = omega arith

pub low8 : (n : ℕ) → n < 2 ^ 64 → low 8 n ≡ n
low8 n h = omega arith
