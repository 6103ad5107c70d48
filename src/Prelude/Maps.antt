-- ===== src/Prelude/Maps.antt =====
-- Go maps keyed by strings: lists of their entries, a nil map being the empty list.
use tgbotd.Prelude.Tests.{if◌then◌else◌, Bool-cases}
use tgbotd.Prelude.Bytes.{Bytes, bytes_eq, bytes_eq→eq, bytes_eq_refl}
use mathlib.Core.Path.{◌≡◌, refl}
use mathlib.Core.Logic.{inl, inr}
use mathlib.Core.List.{List, [], ◌∷◌}
use mathlib.Core.Option.{Option, none, some}
use mathlib.Core.Bool.{true}
use native.Mathlib.Omega.{arith}

module _ {ℓ} {V : Type ℓ} where
  unfoldable pub lookup : Bytes → List (Bytes × V) → Option V
  lookup key [] = none
  lookup key ((k, v) ∷ m) = if bytes_eq k key then some v else lookup key m

  unfoldable pub insert : Bytes → V → List (Bytes × V) → List (Bytes × V)
  insert key v [] = (key, v) ∷ []
  insert key v ((k, w) ∷ m) = if bytes_eq k key then (k, v) ∷ m else (k, w) ∷ insert key v m

  unfoldable pub delete : Bytes → List (Bytes × V) → List (Bytes × V)
  delete key [] = []
  delete key ((k, w) ∷ m) = if bytes_eq k key then delete key m else (k, w) ∷ delete key m

pub bytes_eq_common :
    (k key key' : Bytes) → bytes_eq k key' ≡ true → bytes_eq key key' ≡ true → bytes_eq k key ≡ true
bytes_eq_common k key key' e e' =
    rw (bytes_eq→eq k key' e, bytes_eq→eq key key' e') (bytes_eq_refl key')

module _ {ℓ} {V : Type ℓ} where
  pub lookup-insert :
      (key key' : Bytes) (v : V) (m : List (Bytes × V))
      → lookup key' (insert key v m) ≡ (if bytes_eq key key' then some v else lookup key' m)
  unfolding lookup insert
  lookup-insert key key' v [] = refl
  lookup-insert key key' v ((k, w) ∷ m) = elim (Bool-cases (bytes_eq k key)) [
    | inl e ↦ rw (e, bytes_eq→eq k key e) (ground arith)
    | inr ne ↦ rw ne (ground (arith, lookup-insert key key' v m, bytes_eq_common k key key'))
  ]

  pub lookup-delete :
      (key key' : Bytes) (m : List (Bytes × V))
      → lookup key' (delete key m) ≡ (if bytes_eq key key' then none else lookup key' m)
  unfolding lookup delete
  lookup-delete key key' [] = ground arith
  lookup-delete key key' ((k, w) ∷ m) = elim (Bool-cases (bytes_eq k key)) [
    | inl e ↦ rw (e, bytes_eq→eq k key e) (ground (arith, lookup-delete key key' m))
    | inr ne ↦ rw ne (ground (arith, lookup-delete key key' m, bytes_eq_common k key key'))
  ]
