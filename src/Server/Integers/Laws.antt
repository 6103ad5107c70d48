-- ===== src/Server/Integers/Laws.antt =====
-- What `jsonParseInt` accepts and returns, and that it reads back every printed `int64`.
use tgbotd.Prelude.{
  ℕ, suc, ◌+◌, ◌-◌, ◌*◌, ◌%◌, ◌^◌, ◌≡◌, ◌≢◌, refl, ◌∙◌, [], ◌∷◌, some, Bool, true, false, ◌==◌,
  ◌||◌, Bool-cases, Option-cases, min, arith, All, ap, ◌⊎◌, inl, inr,
}
use tgbotd.Prelude.Bytes.{Bytes}
use tgbotd.Prelude.Int.{ℤ, pos, negsuc, signed64, IsInt64, IsInt32}
use tgbotd.Prelude.Decimal.{
  IsDigit, value, digits, format_int, value-digits, digits-IsDigit, digits_cons,
}
use tgbotd.Server.Integers.{scan, with_sign, parse_magnitude, json_parse_int, to_int32_safe}
use mathlib.Core.List.{cons-ne-nil}

scan_by : (s : Bytes) {m n : ℕ} → m ≡ n → scan s m ≡ scan s n
scan_by s e = ap (scan s) e

scan_complete :
    (s : Bytes) (n : ℕ) → All IsDigit s → scan s (n % 2 ^ 64) ≡ some (value n s % 2 ^ 64)
unfolding scan value
scan_complete [] n h = refl
scan_complete (c ∷ s) n h =
    let wraps : ((n % 2 ^ 64) * 10 + (c - b'0')) % 2 ^ 64 ≡ (n * 10 + (c - b'0')) % 2 ^ 64 =
      omega arith in
    ground (arith, scan_by s wraps, scan_complete s (n * 10 + (c - b'0')) h.1)

scan_sound : (s : Bytes) (n r : ℕ) → scan s n ≡ some r → All IsDigit s
unfolding scan
scan_sound [] n r h = tt
scan_sound (c ∷ s) n r h = ground (arith, scan_sound s ((n * 10 + (c - b'0')) % 2 ^ 64) r)

parse_magnitude-digits :
    (b : Bool) (s : Bytes)
    → All IsDigit s
    → s ≢ []
    → parse_magnitude b s ≡ some (with_sign b (value 0 s % 2 ^ 64))
unfolding parse_magnitude
parse_magnitude-digits b [] h ne = absurd (ne refl)
parse_magnitude-digits b (c ∷ s) h ne = rw (scan_complete (c ∷ s) 0 h)

unsigned_first :
    (c : ℕ) (s : Bytes) → IsDigit c → json_parse_int (c ∷ s) ≡ parse_magnitude false (c ∷ s)
unfolding json_parse_int
unsigned_first c s h = ground arith

-- A text of digits alone, at least one, is accepted whatever its length, and its number is
-- taken modulo 2^64 and read as an `int64`.
pub json_parse_int-digits :
    (s : Bytes) → All IsDigit s → s ≢ [] → json_parse_int s ≡ some (signed64 (value 0 s % 2 ^ 64))
json_parse_int-digits [] h ne = absurd (ne refl)
json_parse_int-digits (c ∷ s) h ne =
    unsigned_first c s h.0 ∙ parse_magnitude-digits false (c ∷ s) h ne

minus_first : (s : Bytes) → json_parse_int (b'-' ∷ s) ≡ parse_magnitude true s
unfolding json_parse_int
minus_first s = ground arith

digits-ne-nil : (n : ℕ) → digits n ≢ []
digits-ne-nil n e = let (c, s, e') = digits_cons n in cc

-- Every `int64` is read back from its decimal print.
pub json_parse_int-format_int : (n : ℤ) → IsInt64 n → json_parse_int (format_int n) ≡ some n
unfolding format_int
json_parse_int-format_int (pos n) h =
    json_parse_int-digits (digits n) (digits-IsDigit n) (digits-ne-nil n)
    ∙ rw (value-digits n) (ground arith)
json_parse_int-format_int (negsuc n) h =
    minus_first (digits (suc n))
    ∙ parse_magnitude-digits true (digits (suc n)) (digits-IsDigit (suc n)) (digits-ne-nil (suc n))
    ∙ rw (value-digits (suc n)) (ground arith)

-- The shape of the texts that `jsonParseInt` accepts: an optional sign, and digits behind it.
abbrev pub IsDecimal : Bytes → Type 0
IsDecimal s = (s ≢ []) × All IsDigit s

parse_magnitude_sound : (b : Bool) (s : Bytes) (r : ℤ) → parse_magnitude b s ≡ some r → IsDecimal s
unfolding parse_magnitude
parse_magnitude_sound b [] r h = absurd (cc)
parse_magnitude_sound b (c ∷ s) r h = elim (Option-cases (scan (c ∷ s) 0)) [
  | inl refused ↦ absurd (ground arith)
  | inr (n, e) ↦ (cons-ne-nil c s, scan_sound (c ∷ s) 0 n e)
]

-- An accepted text is one or more digits, with a sign before them or without.
pub json_parse_int_sound :
    (c : ℕ) (s : Bytes) (r : ℤ)
    → json_parse_int (c ∷ s) ≡ some r
    → IsDecimal (c ∷ s) ⊎ (((c ≡ b'-') ⊎ (c ≡ b'+')) × IsDecimal s)
unfolding json_parse_int
json_parse_int_sound c s r h = elim (Bool-cases (c == b'-' || c == b'+')) [
  | inl sign ↦ inr (ground arith, parse_magnitude_sound (c == b'-') s r (ground arith))
  | inr unsigned ↦ inl (parse_magnitude_sound false (c ∷ s) r (ground arith))
]

-- The `int32` that is nearest to a number.
abbrev pub nearest_int32 : ℤ → ℤ
nearest_int32 (pos n) = pos (min n (2 ^ 31 - 1))
nearest_int32 (negsuc n) = negsuc (min n (2 ^ 31 - 1))

-- `toInt32Safe` returns the `int32` that is nearest to its argument, so an `int32` comes back unchanged.
pub to_int32_safe_lem : (n : ℤ) → (to_int32_safe n ≡ nearest_int32 n) × IsInt32 (to_int32_safe n)
unfolding to_int32_safe
to_int32_safe_lem (pos n) = (ground arith, ground arith)
to_int32_safe_lem (negsuc n) = (ground arith, ground arith)
