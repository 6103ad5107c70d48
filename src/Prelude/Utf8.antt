-- ===== src/Prelude/Utf8.antt =====
-- UTF-8 as unicode/utf8 and encoding/json of Go's library have it: json.Marshal writes a text with each byte that begins
-- no valid encoding of a character replaced by the character U+FFFD.
use tgbotd.Prelude.Tests.{if◌then◌else◌, ◌==◌, ltb, Option-cases}
use mathlib.Core.Option.{Option, none, some}
use mathlib.Core.Logic.{inl, inr}
use Prim.Native.Nat.{ℕ, zero, suc}
use mathlib.Core.Path.{◌≡◌, refl, ap}
use mathlib.Core.List.{[], ◌∷◌}
use mathlib.Core.Bool.{Bool, true, false, not, ◌&&◌}
use tgbotd.Prelude.Bytes.{Bytes}

abbrev within : ℕ → ℕ → ℕ → Bool
within low high c = not (ltb c low) && not (ltb high c)

abbrev tail1 : ℕ → ℕ → Bytes → Bool
tail1 low high (c ∷ s) = within low high c
tail1 low high [] = false

abbrev tail2 : ℕ → ℕ → Bytes → Bool
tail2 low high (c ∷ s) = within low high c && tail1 128 191 s
tail2 low high [] = false

abbrev tail3 : ℕ → ℕ → Bytes → Bool
tail3 low high (c ∷ s) = within low high c && tail2 128 191 s
tail3 low high [] = false

-- The lowest and the highest second byte behind a first one.
abbrev lowest : ℕ → ℕ
lowest c = if c == 224 then 160 else if c == 240 then 144 else 128

abbrev highest : ℕ → ℕ
highest c = if c == 237 then 159 else if c == 244 then 143 else 191

abbrev follow : Bool → ℕ → Option ℕ
follow true n = some n
follow false n = none

-- How many bytes follow the first one in the character that the text begins with; `none` where it begins
-- with no character.
unfoldable pub rune_tail : ℕ → Bytes → Option ℕ
rune_tail c s =
    if ltb c 128
    then some 0
    else if within 194 223 c
    then follow (tail1 128 191 s) 1
    else if within 224 239 c
    then follow (tail2 (lowest c) (highest c) s) 2
    else if within 240 244 c
    then follow (tail3 (lowest c) (highest c) s) 3
    else none

-- The text as json.Marshal writes it; the first `skip` bytes belong to a character that was read.
unfoldable pub marshaled_from : (skip : ℕ) → Bytes → Bytes
unfolding rune_tail
marshaled_from skip [] = []
marshaled_from (suc k) (c ∷ s) = c ∷ marshaled_from k s
marshaled_from zero (c ∷ s) = elim (rune_tail c s) [
  | none ↦ 239 ∷ 191 ∷ 189 ∷ marshaled_from 0 s
  | some n ↦ c ∷ marshaled_from n s
]

unfoldable pub marshaled : Bytes → Bytes
unfolding marshaled_from
marshaled s = marshaled_from 0 s

-- utf8.ValidString
unfoldable pub valid_from : (skip : ℕ) → Bytes → Bool
unfolding rune_tail
valid_from skip [] = true
valid_from (suc k) (c ∷ s) = valid_from k s
valid_from zero (c ∷ s) = elim (rune_tail c s) [ none ↦ false | some n ↦ valid_from n s ]

unfoldable pub valid_string : Bytes → Bool
unfolding valid_from
valid_string s = valid_from 0 s

false≢true : false ≡ true → ⊥
false≢true h = cc

marshaled_from-valid : (skip : ℕ) (s : Bytes) → valid_from skip s ≡ true → marshaled_from skip s ≡ s
unfolding marshaled_from valid_from
marshaled_from-valid skip [] h = refl
marshaled_from-valid (suc k) (c ∷ s) h = ap (λ t. c ∷ t) (marshaled_from-valid k s h)
marshaled_from-valid zero (c ∷ s) h = elim (Option-cases (rune_tail c s)) [
  | inl bad ↦ absurd (false≢true (rw (bad, valid_from) at h))
  | inr (n, good) ↦
      rw (good, marshaled_from)
        (ap (λ t. c ∷ t) (marshaled_from-valid n s (rw (good, valid_from) at h)))
]

-- A valid text is written as it is.
pub marshaled-valid : (s : Bytes) → valid_string s ≡ true → marshaled s ≡ s
unfolding marshaled valid_string
marshaled-valid s h = marshaled_from-valid 0 s h
