-- ===== src/Json/Reading.antt =====
-- What json.Unmarshal makes of a JSON value for a struct: its members are found by their names up to case, the last one
-- of a name counting, and one that is missing or null leaves the zero value. `none` is an error. Names are
-- compared as ASCII.
use tgbotd.Prelude.{
  ℕ, ◌+◌, List, [], ◌∷◌, Option, none, some, Bool, false, ◌&&◌, leb, if◌then◌else◌,
}
use tgbotd.Prelude.Bytes.{Bytes, bytes_eq}
use tgbotd.Json.{Json, null, bool, str, arr, obj, Items, done, item, Fields, end, field}

abbrev pub lower_byte : ℕ → ℕ
lower_byte c = if leb b'A' c && leb c b'Z' then c + 32 else c

abbrev pub lower : Bytes → Bytes
lower [] = []
lower (c ∷ s) = lower_byte c ∷ lower s

abbrev pub or_else {ℓ} : {A : Type ℓ} → Option A → Option A → Option A
or_else (some a) b = some a
or_else none b = b

-- `name` is in lower case.
unfoldable pub find : Bytes → Fields → Option Json
find name end = none
find name (field k v fs) = or_else (find name fs) (if bytes_eq (lower k) name then some v else none)

abbrev pub struct_fields : Json → Option Fields
struct_fields null = some end
struct_fields (obj fs) = some fs
struct_fields _ = none

abbrev pub text_value : Option Json → Option Bytes
text_value none = some []
text_value (some null) = some []
text_value (some (str s)) = some s
text_value _ = none

abbrev pub flag_value : Option Json → Option Bool
flag_value none = some false
flag_value (some null) = some false
flag_value (some (bool b)) = some b
flag_value _ = none

-- A `*string`.
abbrev pub text_pointer : Option Json → Option (Option Bytes)
text_pointer none = some none
text_pointer (some null) = some none
text_pointer (some (str s)) = some (some s)
text_pointer _ = none

-- A pointer to a struct, of which `read` reads the fields.
abbrev pub struct_pointer {ℓ} : {A : Type ℓ} → (Fields → Option A) → Option Json → Option (Option A)
struct_pointer read none = some none
struct_pointer read (some null) = some none
struct_pointer read (some (obj fs)) = elim (read fs) [ none ↦ none | some a ↦ some (some a) ]
struct_pointer read _ = none

unfoldable pub list_of : Items → List Json
list_of done = []
list_of (item x xs) = x ∷ list_of xs

abbrev pub row_value : Json → Option (List Json)
row_value null = some []
row_value (arr xs) = some (list_of xs)
row_value _ = none

abbrev pub cons_row : Option (List Json) → Option (List (List Json)) → Option (List (List Json))
cons_row (some row) (some rows) = some (row ∷ rows)
cons_row _ _ = none

unfoldable pub rows_of : Items → Option (List (List Json))
rows_of done = some []
rows_of (item x xs) = cons_row (row_value x) (rows_of xs)

-- A `[][]json.RawMessage`.
abbrev pub rows_value : Option Json → Option (List (List Json))
rows_value none = some []
rows_value (some null) = some []
rows_value (some (arr xs)) = rows_of xs
rows_value _ = none
