-- ===== src/Prelude/Decimal.antt =====
-- Decimal numbers: what the source uses of the package strconv.
use tgbotd.Prelude.Tests.{ltb, leb, if◌then◌else◌, ◌==◌}
use tgbotd.Prelude.Lists.{All, All-append}
use tgbotd.Prelude.Bytes.{Bytes}
use tgbotd.Prelude.Int.{ℤ, pos, negsuc, neg, IsInt64}
use Prim.Native.Nat.{ℕ, zero, suc, ◌+◌, ◌-◌, ◌*◌, ◌/◌, ◌%◌, ◌^◌, ◌≤◌, ◌<◌}
use mathlib.Core.Path.{◌≡◌, refl, sym, ap, subst, ◌∙◌}
use mathlib.Core.Logic.{◌≢◌}
use mathlib.Core.List.{[], ◌∷◌, ◌++◌, concat-ne-nil}
use mathlib.Core.Option.{Option, none, some}
use mathlib.Core.Bool.{Bool, true, false, ◌&&◌}
use native.Mathlib.Omega.{arith}

abbrev pub is_digit : ℕ → Bool
is_digit c = leb b'0' c && leb c b'9'

abbrev pub IsDigit : ℕ → Type 0
IsDigit c = (b'0' ≤ c) × (c ≤ b'9')

unfoldable pub all_digits : Bytes → Bool
all_digits [] = true
all_digits (c ∷ s) = is_digit c && all_digits s

-- The number that digits spell behind `n`.
unfoldable pub value : ℕ → Bytes → ℕ
value n [] = n
value n (c ∷ s) = value (n * 10 + (c - b'0')) s

-- The digits of `n`; the fuel `n + 1` is enough.
unfoldable pub digits_fuel : ℕ → ℕ → Bytes
digits_fuel zero n = []
digits_fuel (suc f) n = elim (ltb n 10) [
  | true ↦ (b'0' + n) ∷ []
  | false ↦ digits_fuel f (n / 10) ++ (b'0' + n % 10) ∷ []
]

unfoldable pub digits : ℕ → Bytes
unfolding digits_fuel
digits n = digits_fuel (suc n) n

-- strconv.FormatInt(n, 10)
unfoldable pub format_int : ℤ → Bytes
unfolding digits
format_int (pos n) = digits n
format_int (negsuc n) = b'-' ∷ digits (suc n)

abbrev pub in_int64 : ℤ → Option ℤ
in_int64 (pos n) = if ltb n (2 ^ 63) then some (pos n) else none
in_int64 (negsuc n) = if ltb n (2 ^ 63) then some (negsuc n) else none

-- strconv.ParseInt(s, 10, 64): an optional sign, digits, and a range error.
unfoldable pub parse_digits : Bytes → Option ℕ
unfolding all_digits value
parse_digits [] = none
parse_digits (c ∷ s) = if all_digits (c ∷ s) then some (value 0 (c ∷ s)) else none

unfoldable pub parse_signed : Bytes → Option ℤ
unfolding parse_digits
parse_signed [] = none
parse_signed (c ∷ s) =
    if c == b'-'
    then elim (parse_digits s) [ none ↦ none | some n ↦ some (neg n) ]
    else if c == b'+'
    then elim (parse_digits s) [ none ↦ none | some n ↦ some (pos n) ]
    else elim (parse_digits (c ∷ s)) [ none ↦ none | some n ↦ some (pos n) ]

unfoldable pub parse_int : Bytes → Option ℤ
unfolding parse_signed
parse_int s = elim (parse_signed s) [ none ↦ none | some z ↦ in_int64 z ]

pub value-append : (n : ℕ) (s t : Bytes) → value n (s ++ t) ≡ value (value n s) t
unfolding value
value-append n [] t = refl
value-append n (c ∷ s) t = value-append (n * 10 + (c - b'0')) s t

value-digits_fuel : (f n : ℕ) → n < f → value 0 (digits_fuel f n) ≡ n
unfolding digits_fuel value
value-digits_fuel zero n h = elim h [ ]
value-digits_fuel (suc f) n h = ground (
  arith,
  value-digits_fuel f (n / 10),
  value-append 0 (digits_fuel f (n / 10)) ((b'0' + n % 10) ∷ []),
)

-- The digits of a number spell it.
pub value-digits : (n : ℕ) → value 0 (digits n) ≡ n
unfolding digits
value-digits n = value-digits_fuel (suc n) n (omega arith)

digits_fuel-IsDigit : (f n : ℕ) → All IsDigit (digits_fuel f n)
unfolding digits_fuel
digits_fuel-IsDigit zero n = tt
digits_fuel-IsDigit (suc f) n = ground (
  arith,
  All-append IsDigit (digits_fuel f (n / 10)) ((b'0' + n % 10) ∷ [])
      (digits_fuel-IsDigit f (n / 10)),
)

pub digits-IsDigit : (n : ℕ) → All IsDigit (digits n)
unfolding digits
digits-IsDigit n = digits_fuel-IsDigit (suc n) n

-- A number has a first digit.
pub digits_cons : (n : ℕ) → (c : ℕ) × (s : Bytes) × (digits n ≡ c ∷ s)
unfolding digits
digits_cons n =
    cons_of (digits_fuel (suc n) n)
      (ground (arith, concat-ne-nil (b'0' + n % 10) (digits_fuel n (n / 10))))
  where
    cons_of : (t : Bytes) → t ≢ [] → (c : ℕ) × (s : Bytes) × (t ≡ c ∷ s)
    cons_of [] h = absurd (h refl)
    cons_of (c ∷ s) h = (c, s, refl)

all_digits-IsDigit : (s : Bytes) → All IsDigit s → all_digits s ≡ true
unfolding all_digits
all_digits-IsDigit [] h = refl
all_digits-IsDigit (c ∷ s) h = ground (arith, all_digits-IsDigit s h.1)

parse_digits-All :
    (c : ℕ) (s : Bytes) → All IsDigit (c ∷ s) → parse_digits (c ∷ s) ≡ some (value 0 (c ∷ s))
unfolding parse_digits
parse_digits-All c s h = rw (all_digits-IsDigit (c ∷ s) h)

parse_signed_digits :
    (c : ℕ) (s : Bytes) (n : ℕ)
    → IsDigit c
    → parse_digits (c ∷ s) ≡ some n
    → parse_signed (c ∷ s) ≡ some (pos n)
unfolding parse_signed
parse_signed_digits c s n d h =
    let minus : (c == b'-') ≡ false = ground arith in
    let plus : (c == b'+') ≡ false = ground arith in
    rw (minus, plus, parse_signed) (rw (h, parse_signed))

parse_signed_minus :
    (s : Bytes) (n : ℕ) → parse_digits s ≡ some n → parse_signed (b'-' ∷ s) ≡ some (neg n)
unfolding parse_signed
parse_signed_minus s n h = rw (h, parse_signed)

parse_digits-digits : (n : ℕ) → parse_digits (digits n) ≡ some n
parse_digits-digits n =
    let (c, s, e) = digits_cons n in
    let spelled : parse_digits (c ∷ s) ≡ some (value 0 (c ∷ s)) =
      parse_digits-All c s (subst (All IsDigit) e (digits-IsDigit n)) in
    rw e (spelled ∙ ap some (rw (sym e) (value-digits n)))

-- ParseInt reads what FormatInt prints.
pub parse_int-format_int : (n : ℤ) → IsInt64 n → parse_int (format_int n) ≡ some n
unfolding parse_int format_int
parse_int-format_int (pos n) h =
    let (c, s, e) = digits_cons n in
    let first : IsDigit c = (subst (All IsDigit) e (digits-IsDigit n)).0 in
    let read : parse_signed (digits n) ≡ some (pos n) =
      rw e (parse_signed_digits c s n first (rw e at (parse_digits-digits n))) in
    rw (read, parse_int) (ground arith)
parse_int-format_int (negsuc n) h =
    rw (parse_signed_minus (digits (suc n)) (suc n) (parse_digits-digits (suc n)), parse_int)
      (ground arith)
