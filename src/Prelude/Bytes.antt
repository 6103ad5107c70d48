-- ===== src/Prelude/Bytes.antt =====
-- Go strings and byte slices: lists of bytes. What the source uses of the packages strings and bytes.
use tgbotd.Prelude.Tests.{if◌then◌else◌, ◌==◌}
use tgbotd.Prelude.Lists.{All}
use Prim.Native.Nat.{ℕ, suc, ◌<◌}
use Prim.Native.Char.{code}
use Prim.Native.String.{String}
use mathlib.Core.Path.{◌≡◌, refl}
use mathlib.Core.Logic.{◌≢◌}
use mathlib.Core.List.{List, [], ◌∷◌, ◌++◌}
use mathlib.Core.Option
use mathlib.Core.Option.{Option, none, some}
use mathlib.Core.Bool.{Bool, true, false, ◌&&◌}
use native.Mathlib.Omega.{arith}

abbrev pub Bytes : Type 0
Bytes = List ℕ

-- The bytes of a literal in ASCII.
abbrev pub codes : String → Bytes
codes String.[] = []
codes (String.◌∷◌ c s) = code c ∷ codes s

abbrev pub IsByte : ℕ → Type 0
IsByte c = c < 256

-- Go's `==` on strings.
unfoldable pub bytes_eq : Bytes → Bytes → Bool
bytes_eq [] [] = true
bytes_eq [] (c ∷ t) = false
bytes_eq (c ∷ s) [] = false
bytes_eq (c ∷ s) (d ∷ t) = c == d && bytes_eq s t

pub bytes_eq→eq : (s t : Bytes) → bytes_eq s t ≡ true → s ≡ t
unfolding bytes_eq
bytes_eq→eq [] [] h = refl
bytes_eq→eq [] (c ∷ t) h = cc
bytes_eq→eq (c ∷ s) [] h = cc
bytes_eq→eq (c ∷ s) (d ∷ t) h = ground (arith, bytes_eq→eq s t)

pub bytes_eq_refl : (s : Bytes) → bytes_eq s s ≡ true
unfolding bytes_eq
bytes_eq_refl [] = refl
bytes_eq_refl (c ∷ s) = ground (arith, bytes_eq_refl s)

-- strings.HasPrefix(s, p)
unfoldable pub has_prefix : Bytes → Bytes → Bool
has_prefix s [] = true
has_prefix [] (d ∷ p) = false
has_prefix (c ∷ s) (d ∷ p) = c == d && has_prefix s p

-- strings.IndexByte; `none` is -1.
unfoldable pub index_byte : Bytes → ℕ → Option ℕ
index_byte [] b = none
index_byte (c ∷ s) b = if c == b then some 0 else Option.map suc (index_byte s b)

-- strings.Split by a one-byte separator: the current part, and the parts behind it.
unfoldable pub split_cur : ℕ → Bytes → Bytes × List Bytes
split_cur b [] = ([], [])
split_cur b (c ∷ s) =
    let (cur, rest) = split_cur b s in if c == b then ([], cur ∷ rest) else (c ∷ cur, rest)

unfoldable pub split : Bytes → ℕ → List Bytes
unfolding split_cur
split s b = let (cur, rest) = split_cur b s in cur ∷ rest

abbrev pub Lacks : ℕ → Bytes → Type 0
Lacks b = All (λ c. c ≢ b)

split_cur-append :
    (b : ℕ) (p rest : Bytes)
    → Lacks b p
    → split_cur b (p ++ b ∷ rest) ≡ (p, (split_cur b rest).0 ∷ (split_cur b rest).1)
unfolding split_cur
split_cur-append b [] rest h = ground arith
split_cur-append b (c ∷ p) rest h = ground (arith, split_cur-append b p rest h.1)

split_cur-Lacks : (b : ℕ) (p : Bytes) → Lacks b p → split_cur b p ≡ (p, [])
unfolding split_cur
split_cur-Lacks b [] h = refl
split_cur-Lacks b (c ∷ p) h = ground (arith, split_cur-Lacks b p h.1)

-- A part without the separator, the separator and a rest split into the part and the rest's parts.
pub split-append : (b : ℕ) (p rest : Bytes) → Lacks b p → split (p ++ b ∷ rest) b ≡ p ∷ split rest b
unfolding split
split-append b p rest h = ground (arith, split_cur-append b p rest h)

pub split-Lacks : (b : ℕ) (p : Bytes) → Lacks b p → split p b ≡ p ∷ []
unfolding split
split-Lacks b p h = ground (arith, split_cur-Lacks b p h)
