-- ===== src/Server/Tests.antt =====
-- Integers and inline message ids on small inputs.
use tgbotd.Prelude.{ℕ, ◌≡◌, refl, ◌^◌, ◌%◌, some, arith}
use mathlib.Core.List.{cons-ne-nil}
use tgbotd.Prelude.Bytes.{codes}
use tgbotd.Prelude.Int.{pos, signed64}
use tgbotd.Prelude.Decimal.{value}
use tgbotd.Server.Integers.{json_parse_int, parse_magnitude, scan}
use tgbotd.Server.Integers.Laws.{json_parse_int-digits}

abbrev plus : ℕ
plus = b'+'

plus_seven : json_parse_int (codes "+7") ≡ some (pos 7)
unfolding json_parse_int parse_magnitude scan
plus_seven = refl

-- 2^64 + 5 is accepted, and read as 5.
overflowing : json_parse_int (codes "18446744073709551621") ≡ some (pos 5)
unfolding json_parse_int parse_magnitude scan
overflowing = refl

json_parse_int-digits_example :
    json_parse_int (codes "18446744073709551621")
    ≡ some (signed64 (value 0 (codes "18446744073709551621") % 2 ^ 64))
json_parse_int-digits_example =
    json_parse_int-digits (codes "18446744073709551621") (omega arith)
      (cons-ne-nil b'1' (codes "8446744073709551621"))
