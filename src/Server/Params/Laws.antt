-- ===== src/Server/Params/Laws.antt =====
-- What the readers of parameters find of a value of a query or a form.
use tgbotd.Prelude.{
  ℕ, ◌≡◌, refl, ◌∙◌, [], ◌∷◌, Option, none, some, Bool, true, false, arith, All, Bool-cases, inl,
  inr, ◌⊎◌,
}
use tgbotd.Prelude.Bytes.{Bytes, codes, bytes_eq, bytes_eq→eq, bytes_eq_refl}
use tgbotd.Prelude.Maps.{lookup, insert, lookup-insert}
use tgbotd.Prelude.Int.{ℤ, IsInt64}
use tgbotd.Prelude.Decimal.{parse_int, format_int, is_digit, IsDigit, parse_int-format_int}
use tgbotd.Server.Params.{
  number, Params, skip_digits, no_sign, is_nil, after_digits, looks_like_float, json_scalar,
  param_int64,
}

-- `true` and `false` are not read as numbers.
word_not_int :
    (s : Bytes) (n : ℤ)
    → parse_int s ≡ some n
    → (bytes_eq s (codes "true") ≡ false) × (bytes_eq s (codes "false") ≡ false)
word_not_int s n h = (not_true, not_false)
  where
    true_int : parse_int (codes "true") ≡ none
    true_int = unfold parse_int in refl

    false_int : parse_int (codes "false") ≡ none
    false_int = unfold parse_int in refl

    not_true : bytes_eq s (codes "true") ≡ false
    not_true = elim (Bool-cases (bytes_eq s (codes "true"))) [
      | inl e ↦ absurd (ground (arith, true_int, (rw (bytes_eq→eq s (codes "true") e) at h)))
      | inr ne ↦ ne
    ]

    not_false : bytes_eq s (codes "false") ≡ false
    not_false = elim (Bool-cases (bytes_eq s (codes "false"))) [
      | inl e ↦ absurd (ground (arith, false_int, (rw (bytes_eq→eq s (codes "false") e) at h)))
      | inr ne ↦ ne
    ]

module _ (float_text : Bytes → Option Bytes) (trim : Bytes → Bytes) (is_json : Bytes → Bool)
    (whole : Bytes → Option ℤ) where
  json_scalar_int :
      (s : Bytes) (n : ℤ)
      → parse_int s ≡ some n
      → json_scalar float_text trim is_json s ≡ number (format_int n)
  unfolding json_scalar
  json_scalar_int s n h = let word = word_not_int s n h in rw (word.0, word.1, h)

  -- A value of a query or form that `ParseInt` reads as an `int64` is read by `paramInt64` as
  -- the same number, exactly, whatever floating-point numbers would make of it.
  pub param_int64-json_scalar :
      (name s : Bytes) (n : ℤ) (ps : Params)
      → IsInt64 n
      → parse_int s ≡ some n
      → param_int64 whole (insert name (json_scalar float_text trim is_json s) ps) name ≡ some n
  unfolding param_int64
  param_int64-json_scalar name s n ps range h =
      let found : lookup name (insert name (json_scalar float_text trim is_json s) ps)
          ≡ some (number (format_int n)) =
        lookup-insert name name (json_scalar float_text trim is_json s) ps
        ∙ rw (bytes_eq_refl name, json_scalar_int s n h) in
      rw (found, param_int64) (rw (parse_int-format_int n range))

-- A digit or a dot.
abbrev pub IsFloatByte : ℕ → Type 0
IsFloatByte c = IsDigit c ⊎ (c ≡ b'.')

skip_digits_sound : (s : Bytes) → All IsFloatByte (skip_digits s).1 → All IsFloatByte s
unfolding skip_digits
skip_digits_sound [] h = tt
skip_digits_sound (c ∷ s) h = elim (Bool-cases (is_digit c)) [
  | inl d ↦ (inl (ground arith), skip_digits_sound s (rw (d, skip_digits) at h))
  | inr other ↦ rw (other, skip_digits) at h
]

is_nil-All : (s : Bytes) → is_nil s ≡ true → All IsFloatByte s
is_nil-All [] h = tt
is_nil-All (c ∷ s) h = absurd (cc)

after_digits_sound : (saw : Bool) (s : Bytes) → after_digits saw s ≡ true → All IsFloatByte s
unfolding after_digits
after_digits_sound saw [] h = tt
after_digits_sound saw (c ∷ s) h =
    (inr (ground arith), skip_digits_sound s (is_nil-All (skip_digits s).1 (ground arith)))

-- A text that looks like a float has only digits and dots behind its sign, so that names such as "1e10" or
-- "NaN" stay texts.
pub looks_like_float_sound : (s : Bytes) → looks_like_float s ≡ true → All IsFloatByte (no_sign s)
unfolding looks_like_float
looks_like_float_sound s h =
    skip_digits_sound (no_sign s)
      (after_digits_sound (skip_digits (no_sign s)).0 (skip_digits (no_sign s)).1 h)
