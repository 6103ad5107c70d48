-- ===== src/Server/Params.antt =====
-- The parameters of a request: `parseParams`, `jsonScalar` and `looksLikeFloat` of internal/server/server.go, and the
-- readers of internal/server/handlers.go. A raw JSON value is given by what the readers ask of it. Floating-point
-- numbers, the checks of encoding/json and the parsers of forms are parameters.
pub mod Laws
pub mod Tests
use tgbotd.Prelude.{
  ℕ, List, [], ◌∷◌, ◌++◌, Option, none, some, Bool, true, false, ◌&&◌, ◌||◌, ◌==◌, leb,
  if◌then◌else◌,
}
use tgbotd.Prelude.Bytes.{Bytes, codes, bytes_eq, has_prefix}
use tgbotd.Prelude.Maps.{lookup, insert}
use tgbotd.Prelude.Int.{ℤ, pos, negsuc}
use tgbotd.Prelude.Decimal.{parse_int, format_int, is_digit}
use tgbotd.Botapi.{Result, ok, err, api, err_bad_request, ◌>>=◌}
use tgbotd.Server.Integers.{json_parse_int}

-- A number is its literal; `composite` is an object or an array, or a value that is not read here.
pub data Json : Type 0 where
  null : Json
  boolean : Bool → Json
  number : Bytes → Json
  text : Bytes → Json
  composite : Bytes → Json

abbrev pub Params : Type 0
Params = List (Bytes × Json)

-- `for i < len(s) && s[i] >= '0' && s[i] <= '9' { i++ }`: whether there was a digit, and what follows.
unfoldable pub skip_digits : Bytes → Bool × Bytes
skip_digits [] = (false, [])
skip_digits (c ∷ s) = if is_digit c then (true, (skip_digits s).1) else (false, c ∷ s)

abbrev pub no_sign : Bytes → Bytes
no_sign [] = []
no_sign (c ∷ s) = if c == b'+' || c == b'-' then s else c ∷ s

abbrev pub is_nil : Bytes → Bool
is_nil [] = true
is_nil (c ∷ s) = false

-- What follows the digits before the dot.
unfoldable pub after_digits : Bool → Bytes → Bool
unfolding skip_digits
after_digits saw [] = saw
after_digits saw (c ∷ s) =
    if c == b'.' then (saw || (skip_digits s).0) && is_nil (skip_digits s).1 else false

unfoldable pub looks_like_float : Bytes → Bool
unfolding after_digits skip_digits
looks_like_float s = let (saw, rest) = skip_digits (no_sign s) in after_digits saw rest

abbrev pub starts_composite : Bytes → Bool
starts_composite [] = false
starts_composite (c ∷ s) = c == b'{' || c == b'['

-- `float_text` is ParseFloat and then FormatFloat, `trim` is TrimSpace, and `is_json` is Unmarshal
-- without an error.
module _ (float_text : Bytes → Option Bytes) (trim : Bytes → Bytes) (is_json : Bytes → Bool) where
  abbrev pub text_or_composite : Bytes → Json
  text_or_composite s =
      if starts_composite (trim s) && is_json (trim s) then composite (trim s) else text s

  abbrev pub float_or_text : Option Bytes → Bytes → Json
  float_or_text none s = text_or_composite s
  float_or_text (some t) s = number t

  abbrev pub number_or_text : Option ℤ → Bytes → Json
  number_or_text (some n) s = number (format_int n)
  number_or_text none s =
      if looks_like_float s then float_or_text (float_text s) s else text_or_composite s

  unfoldable pub json_scalar : Bytes → Json
  json_scalar s =
      if bytes_eq s (codes "true")
      then boolean true
      else if bytes_eq s (codes "false")
      then boolean false
      else number_or_text (parse_int s) s

  -- The first values of the keys; a key without a value is left out. `lower` is strings.ToLower. The
  -- order of the list stands for the order in which Go walks the map.
  unfoldable pub add_values : (Bytes → Bytes) → List (Bytes × List Bytes) → Params → Params
  unfolding insert
  add_values lower [] out = out
  add_values lower ((k, []) ∷ rest) out = add_values lower rest out
  add_values lower ((k, v ∷ vs) ∷ rest) out =
      add_values lower rest (insert (lower k) (json_scalar v) out)

unfoldable pub add_members : (Bytes → Bytes) → List (Bytes × Json) → Params → Params
unfolding insert
add_members lower [] out = out
add_members lower ((k, v) ∷ rest) out = add_members lower rest (insert (lower k) v out)

-- The first file of each key.
unfoldable pub add_files {ℓ} :
    {F : Type ℓ} → (Bytes → Bytes) → List (Bytes × List F) → List (Bytes × F) → List (Bytes × F)
unfolding insert
add_files lower [] out = out
add_files lower ((k, []) ∷ rest) out = add_files lower rest out
add_files lower ((k, f ∷ fs) ∷ rest) out = add_files lower rest (insert (lower k) f out)

-- What the parsers of net/http, mime and encoding/json make of a request; `F` is a file's header.
pub record HttpParams (F : Type 0) : Type 0 where
  pub query : List (Bytes × List Bytes)
  pub is_get : Bool
  pub content_type : Bytes
  pub media_type : Bytes
  pub body : Result Bytes
  pub json_object : Bytes → Result (List (Bytes × Json))
  pub form : Result (List (Bytes × List Bytes))
  pub multipart : Result (List (Bytes × List Bytes) × List (Bytes × List F))

module _ (float_text : Bytes → Option Bytes) (trim : Bytes → Bytes) (is_json : Bytes → Bool)
    (lower : Bytes → Bytes) {F : Type 0} where
  abbrev pub json_params : HttpParams F → Params → Bytes → Result (Params × List (Bytes × F))
  json_params r out [] = ok (out, [])
  json_params r out (c ∷ s) = do
    members ← r.json_object (c ∷ s)
    ok (add_members lower members out, [])

  unfoldable pub body_params : HttpParams F → Params → Result (Params × List (Bytes × F))
  body_params r out =
      if r.is_get || bytes_eq r.content_type []
      then ok (out, [])
      else if has_prefix r.content_type (codes "application/json")
      then (r.body >>= json_params r out)
      else if has_prefix r.content_type (codes "application/x-www-form-urlencoded")
      then (r.form >>= λ values. ok (add_values float_text trim is_json lower values out, []))
      else if has_prefix r.media_type (codes "multipart/")
      then (r.multipart >>= λ parts.
          ok (add_values float_text trim is_json lower parts.0 out, add_files lower parts.1 []))
      else ok (out, [])

  unfoldable pub parse_params : HttpParams F → Result (Params × List (Bytes × F))
  unfolding body_params
  parse_params r = body_params r (add_values float_text trim is_json lower r.query [])

abbrev pub field_required : Bytes → Bytes
field_required name = codes "field \"" ++ (name ++ codes "\" is required")

-- `json.Unmarshal` leaves the variable as it was where the value is null, and reports no error.
-- `number_text` is `trimFloat` of the number that a literal spells.
module _ (number_text : Bytes → Bytes) where
  abbrev pub as_string : Json → Option Bytes
  as_string null = some []
  as_string (text s) = some s
  as_string (number n) = some (number_text n)
  as_string (boolean b) = none
  as_string (composite c) = none

  unfoldable pub param_string : Params → Bytes → Option Bytes
  param_string ps name = elim (lookup name ps) [ none ↦ none | some j ↦ as_string j ]

  unfoldable pub require_string : Params → Bytes → Result Bytes
  require_string ps name = elim (param_string ps name) [
    | none ↦ err (api (err_bad_request (field_required name)))
    | some [] ↦ err (api (err_bad_request (field_required name)))
    | some (c ∷ s) ↦ ok (c ∷ s)
  ]

-- `whole` is `int64(f)` of the float that a literal spells, if it can be read.
module _ (whole : Bytes → Option ℤ) where
  abbrev pub int_or_float : Option ℤ → Bytes → Option ℤ
  int_or_float (some n) lit = some n
  int_or_float none lit = whole lit

  abbrev pub as_int64 : Json → Option ℤ
  as_int64 null = some (pos 0)
  as_int64 (number n) = int_or_float (parse_int n) n
  as_int64 (text s) = json_parse_int s
  as_int64 (boolean b) = none
  as_int64 (composite c) = none

  unfoldable pub param_int64 : Params → Bytes → Option ℤ
  param_int64 ps name = elim (lookup name ps) [ none ↦ none | some j ↦ as_int64 j ]

  unfoldable pub require_int64 : Params → Bytes → Result ℤ
  require_int64 ps name = elim (param_int64 ps name) [
    | none ↦ err (api (err_bad_request (field_required name)))
    | some n ↦ ok n
  ]

abbrev pub as_bool : Json → Option Bool
as_bool null = some false
as_bool (boolean b) = some b
as_bool (text s) =
    if bytes_eq s (codes "true")
    then some true
    else if bytes_eq s (codes "false")
    then some false
    else none
as_bool (number n) = none
as_bool (composite c) = none

unfoldable pub param_bool : Params → Bytes → Option Bool
param_bool ps name = elim (lookup name ps) [ none ↦ none | some j ↦ as_bool j ]

unfoldable pub param_raw : Params → Bytes → Option Json
unfolding lookup
param_raw ps name = lookup name ps
