-- ===== src/Json.antt =====
-- JSON values, as encoding/json reads and writes them: `any`, `map[string]any` and json.RawMessage. An
-- object is the list of its members, whose order means nothing. A float64 is its bit pattern.
pub mod Reading
use tgbotd.Prelude.{
  ℕ, zero, suc, ◌+◌, ◌-◌, ◌*◌, ◌/◌, ◌%◌, ◌^◌, List, [], ◌∷◌, Option, none, some, Bool, true, false,
  not, ◌&&◌, ◌==◌, ltb, if◌then◌else◌,
}
use tgbotd.Prelude.Bytes.{Bytes, codes, bytes_eq}
use tgbotd.Prelude.Int.{ℤ, pos, negsuc}

abbrev pub Float64 : Type 0
Float64 = ℕ

mutual
  pub data Json : Type 0 where
    null : Json
    bool : Bool → Json
    num : ℤ → Json
    float : Float64 → Json
    str : Bytes → Json
    arr : Items → Json
    obj : Fields → Json

  pub data Items : Type 0 where
    done : Items
    item : Json → Items → Items

  pub data Fields : Type 0 where
    end : Fields
    field : Bytes → Json → Fields → Fields

-- A slice of values that print as JSON.
unfoldable pub items_of {ℓ} : {A : Type ℓ} → (A → Json) → List A → Items
items_of f [] = done
items_of f (x ∷ xs) = item (f x) (items_of f xs)

-- `m[key] = v`
unfoldable pub put : Bytes → Json → Fields → Fields
put key v end = field key v end
put key v (field k w fs) = if bytes_eq k key then field k v fs else field k w (put key v fs)

-- `map[string]any{...}`, its keys all different.
abbrev pub fields_of : List (Bytes × Json) → Fields
fields_of [] = end
fields_of ((k, v) ∷ rest) = field k v (fields_of rest)

abbrev pub object : List (Bytes × Json) → Json
object ms = obj (fields_of ms)

abbrev pub put_some : Bytes → Option Json → Fields → Fields
put_some key none fs = fs
put_some key (some v) fs = put key v fs

unfoldable pub member : Bytes → Fields → Option Json
member key end = none
member key (field k v fs) = if bytes_eq k key then some v else member key fs

-- The members of a struct with the tag `omitempty`.
abbrev pub text_member : Bytes → Bytes → Fields → Fields
text_member key [] fs = fs
text_member key (c ∷ s) fs = field key (str (c ∷ s)) fs

abbrev pub flag_member : Bytes → Bool → Fields → Fields
flag_member key true fs = field key (bool true) fs
flag_member key false fs = fs

-- Not an infinity and not a NaN.
abbrev pub is_finite_float : Float64 → Bool
is_finite_float b = not ((b / 2 ^ 52) % 2 ^ 11 == 2047)

unfoldable mutual
  pub is_finite : Json → Bool
  is_finite null = true
  is_finite (bool b) = true
  is_finite (num n) = true
  is_finite (float b) = is_finite_float b
  is_finite (str s) = true
  is_finite (arr xs) = is_finite_items xs
  is_finite (obj fs) = is_finite_fields fs

  pub is_finite_items : Items → Bool
  is_finite_items done = true
  is_finite_items (item x xs) = is_finite x && is_finite_items xs

  pub is_finite_fields : Fields → Bool
  is_finite_fields end = true
  is_finite_fields (field k v fs) = is_finite v && is_finite_fields fs

-- json.Marshal fails on a float that is not finite; `none` is the nil message.
unfoldable pub json_marshal : Json → Option Json
unfolding is_finite
json_marshal j = if is_finite j then some j else none

-- The number of binary digits behind the first one; one unit of fuel for each digit is enough.
abbrev pub log2_fuel : ℕ → ℕ → ℕ
log2_fuel zero n = 0
log2_fuel (suc f) n = elim (ltb n 2) [ true ↦ 0 | false ↦ suc (log2_fuel f (n / 2)) ]

-- `float64(n)` of a natural number of at most 32 binary digits, which is exact.
abbrev pub float_of_nat : ℕ → Float64
float_of_nat zero = 0
float_of_nat (suc n) =
    let e = log2_fuel 32 (suc n) in (1023 + e) * 2 ^ 52 + (suc n * 2 ^ (52 - e) - 2 ^ 52)

-- `float64(n)` of an `int32`.
unfoldable pub float_of_int32 : ℤ → Float64
float_of_int32 (pos n) = float_of_nat n
float_of_int32 (negsuc n) = 2 ^ 63 + float_of_nat (suc n)
