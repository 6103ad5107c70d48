-- ===== src/Server/Integers.antt =====
-- `jsonParseInt`, `atoi64` and `toInt32Safe` of internal/server.
pub mod Laws
use tgbotd.Prelude.{
  ℕ, ◌+◌, ◌-◌, ◌*◌, ◌%◌, ◌^◌, [], ◌∷◌, Option, none, some, Bool, true, false, ◌||◌, ltb, ◌==◌,
  if◌then◌else◌,
}
use tgbotd.Prelude.Bytes.{Bytes}
use tgbotd.Prelude.Int.{ℤ, pos, negsuc, signed64, bits64}
use mathlib.Core.Option

-- `for ; i < len(s); i++ { … n = n*10 + int64(c-'0') }` over the bit pattern of `n`.
unfoldable pub scan : Bytes → ℕ → Option ℕ
scan [] n = some n
scan (c ∷ s) n = if ltb c b'0' || ltb b'9' c then none else scan s ((n * 10 + (c - b'0')) % 2 ^ 64)

-- The sign is applied by `n = -n`, which wraps around too.
abbrev pub with_sign : Bool → ℕ → ℤ
with_sign neg n = signed64 (if neg then (2 ^ 64 - n) % 2 ^ 64 else n)

-- What follows the sign: no digit at all is an error.
unfoldable pub parse_magnitude : Bool → Bytes → Option ℤ
unfolding scan
parse_magnitude neg [] = none
parse_magnitude neg (c ∷ s) = Option.map (with_sign neg) (scan (c ∷ s) 0)

unfoldable pub json_parse_int : Bytes → Option ℤ
unfolding parse_magnitude
json_parse_int [] = none
json_parse_int (c ∷ s) =
    if c == b'-' || c == b'+' then parse_magnitude (c == b'-') s else parse_magnitude false (c ∷ s)

unfoldable pub to_int32_safe : ℤ → ℤ
to_int32_safe (pos n) = if ltb (2 ^ 31 - 1) n then pos (2 ^ 31 - 1) else pos n
to_int32_safe (negsuc n) = if ltb (2 ^ 31 - 1) n then negsuc (2 ^ 31 - 1) else negsuc n
