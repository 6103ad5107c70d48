-- ===== src/Prelude/Base64.antt =====
-- What the source uses of the package encoding/base64: `RawURLEncoding` and the decoder of `StdEncoding`.
-- Decoders skip line ends and do not look at the unused bits of the last digit.
use tgbotd.Prelude.Tests.{ltb, leb, if◌then◌else◌, ◌==◌}
use tgbotd.Prelude.Lists.{All}
use tgbotd.Prelude.Bytes.{Bytes, IsByte}
use Prim.Native.Nat.{ℕ, ◌+◌, ◌-◌, ◌*◌, ◌/◌, ◌%◌, ◌<◌}
use mathlib.Core.Path.{◌≡◌, refl}
use mathlib.Core.List.{[], ◌∷◌}
use mathlib.Core.Option.{Option, none, some}
use mathlib.Core.Bool.{false, ◌&&◌, ◌||◌}
use native.Mathlib.Omega.{arith}

-- The digits of the URL alphabet.
unfoldable pub to_char : ℕ → ℕ
to_char v =
    if ltb v 26
    then b'A' + v
    else if ltb v 52
    then b'a' + (v - 26)
    else if ltb v 62
    then b'0' + (v - 52)
    else if v == 62
    then b'-'
    else b'_'

-- The value of a digit; `c62` and `c63` are the last two of the alphabet.
unfoldable pub from_char : ℕ → ℕ → ℕ → Option ℕ
from_char c62 c63 c =
    if leb b'A' c && leb c b'Z'
    then some (c - b'A')
    else if leb b'a' c && leb c b'z'
    then some (c - b'a' + 26)
    else if leb b'0' c && leb c b'9'
    then some (c - b'0' + 52)
    else if c == c62
    then some 62
    else if c == c63
    then some 63
    else none

-- RawURLEncoding.EncodeToString
unfoldable pub encode : Bytes → Bytes
unfolding to_char
encode [] = []
encode (x ∷ []) = to_char (x / 4) ∷ to_char (x % 4 * 16) ∷ []
encode (x ∷ y ∷ []) = to_char (x / 4) ∷ to_char (x % 4 * 16 + y / 16) ∷ to_char (y % 16 * 4) ∷ []
encode (x ∷ y ∷ z ∷ s) =
    to_char (x / 4)
    ∷ to_char (x % 4 * 16 + y / 16)
    ∷ to_char (y % 16 * 4 + z / 64)
    ∷ to_char (z % 64)
    ∷ encode s

unfoldable pub without_line_ends : Bytes → Bytes
without_line_ends [] = []
without_line_ends (c ∷ s) =
    let rest = without_line_ends s in if c == 10 || c == 13 then rest else c ∷ rest

abbrev pub read2 : Option ℕ → Option ℕ → Option Bytes
read2 (some a) (some b) = some ((a * 4 + b / 16) ∷ [])
read2 _ _ = none

abbrev pub read3 : Option ℕ → Option ℕ → Option ℕ → Option Bytes
read3 (some a) (some b) (some c) = some ((a * 4 + b / 16) ∷ (b % 16 * 16 + c / 4) ∷ [])
read3 _ _ _ = none

abbrev pub read4 : Option ℕ → Option ℕ → Option ℕ → Option ℕ → Option Bytes → Option Bytes
read4 (some a) (some b) (some c) (some d) (some rest) =
    some ((a * 4 + b / 16) ∷ (b % 16 * 16 + c / 4) ∷ (c % 4 * 64 + d) ∷ rest)
read4 _ _ _ _ _ = none

module _ (digit : ℕ → Option ℕ) where
  -- Without padding.
  unfoldable pub decode_raw : Bytes → Option Bytes
  decode_raw [] = some []
  decode_raw (a ∷ []) = none
  decode_raw (a ∷ b ∷ []) = read2 (digit a) (digit b)
  decode_raw (a ∷ b ∷ c ∷ []) = read3 (digit a) (digit b) (digit c)
  decode_raw (a ∷ b ∷ c ∷ d ∷ s) = read4 (digit a) (digit b) (digit c) (digit d) (decode_raw s)

  -- With padding by '='.
  unfoldable pub decode_padded : Bytes → Option Bytes
  decode_padded [] = some []
  decode_padded (a ∷ []) = none
  decode_padded (a ∷ b ∷ []) = none
  decode_padded (a ∷ b ∷ c ∷ []) = none
  decode_padded (a ∷ b ∷ c ∷ d ∷ []) =
      if c == b'=' && d == b'='
      then read2 (digit a) (digit b)
      else if d == b'='
      then read3 (digit a) (digit b) (digit c)
      else read4 (digit a) (digit b) (digit c) (digit d) (some [])
  decode_padded (a ∷ b ∷ c ∷ d ∷ e ∷ s) =
      read4 (digit a) (digit b) (digit c) (digit d) (decode_padded (e ∷ s))

-- RawURLEncoding.DecodeString and StdEncoding.DecodeString
unfoldable pub decode_raw_url : Bytes → Option Bytes
unfolding decode_raw without_line_ends from_char
decode_raw_url s = decode_raw (from_char b'-' b'_') (without_line_ends s)

unfoldable pub decode_std : Bytes → Option Bytes
unfolding decode_padded without_line_ends from_char
decode_std s = decode_padded (from_char b'+' b'/') (without_line_ends s)

from_char-to_char : (v : ℕ) → v < 64 → from_char b'-' b'_' (to_char v) ≡ some v
unfolding from_char to_char
from_char-to_char v h = ground arith

to_char-visible : (v : ℕ) → (to_char v == 10 || to_char v == 13) ≡ false
unfolding to_char
to_char-visible v = ground arith

encode-visible : (s : Bytes) → without_line_ends (encode s) ≡ encode s
unfolding encode without_line_ends
encode-visible [] = refl
encode-visible (x ∷ []) = rw (to_char-visible (x / 4), to_char-visible (x % 4 * 16))
encode-visible (x ∷ y ∷ []) =
    rw
      (to_char-visible (x / 4), to_char-visible (x % 4 * 16 + y / 16), to_char-visible (y % 16 * 4))
encode-visible (x ∷ y ∷ z ∷ s) = rw (
  to_char-visible (x / 4),
  to_char-visible (x % 4 * 16 + y / 16),
  to_char-visible (y % 16 * 4 + z / 64),
  to_char-visible (z % 64),
  encode-visible s,
)

decode_raw-encode :
    (s : Bytes) → All IsByte s → decode_raw (from_char b'-' b'_') (encode s) ≡ some s
unfolding encode decode_raw
decode_raw-encode [] h = refl
decode_raw-encode (x ∷ []) h =
    let e : x / 4 * 4 + x % 4 * 16 / 16 ≡ x = omega arith in
    rw (from_char-to_char (x / 4) (omega arith), from_char-to_char (x % 4 * 16) (omega arith), e)
decode_raw-encode (x ∷ y ∷ []) h =
    let e : x / 4 * 4 + (x % 4 * 16 + y / 16) / 16 ≡ x = omega arith in
    let e' : (x % 4 * 16 + y / 16) % 16 * 16 + y % 16 * 4 / 4 ≡ y = omega arith in
    rw (
      from_char-to_char (x / 4) (omega arith),
      from_char-to_char (x % 4 * 16 + y / 16) (omega arith),
      from_char-to_char (y % 16 * 4) (omega arith),
      e,
      e',
    )
decode_raw-encode (x ∷ y ∷ z ∷ s) h =
    let e : x / 4 * 4 + (x % 4 * 16 + y / 16) / 16 ≡ x = omega arith in
    let e' : (x % 4 * 16 + y / 16) % 16 * 16 + (y % 16 * 4 + z / 64) / 4 ≡ y = omega arith in
    let e'' : (y % 16 * 4 + z / 64) % 4 * 64 + z % 64 ≡ z = omega arith in
    rw (
      from_char-to_char (x / 4) (omega arith),
      from_char-to_char (x % 4 * 16 + y / 16) (omega arith),
      from_char-to_char (y % 16 * 4 + z / 64) (omega arith),
      from_char-to_char (z % 64) (omega arith),
      decode_raw-encode s (h.1.1.1),
      e,
      e',
      e'',
    )

-- Any bytes are read back from their base64 text.
pub decode_raw_url-encode : (s : Bytes) → All IsByte s → decode_raw_url (encode s) ≡ some s
unfolding decode_raw_url
decode_raw_url-encode s h = rw (encode-visible s) (decode_raw-encode s h)
