-- ===== src/Server/Params/Tests.antt =====
-- Values of a query.
use tgbotd.Prelude.{ℕ, ◌≡◌, refl, [], ◌∷◌, Option, none, some, Bool, true, false, All}
use tgbotd.Prelude.Bytes.{Bytes, codes, bytes_eq, has_prefix}
use tgbotd.Prelude.Maps.{insert}
use tgbotd.Prelude.Int.{ℤ, pos}
use tgbotd.Prelude.Decimal.{parse_int, parse_signed, parse_digits, all_digits, value}
use tgbotd.Botapi.{ok}
use tgbotd.Server.Params.{
  text, HttpParams, looks_like_float, after_digits, skip_digits, no_sign, json_scalar, add_values,
  add_members, body_params, parse_params,
}
use tgbotd.Server.Params.Laws.{IsFloatByte, looks_like_float_sound}

abbrev no_float : Bytes → Option Bytes
no_float s = none

abbrev no_whole : Bytes → Option ℤ
no_whole s = none

abbrev same : Bytes → Bytes
same s = s

abbrev never_json : Bytes → Bool
never_json s = false

read_42 : parse_int (codes "042") ≡ some (pos 42)
unfolding parse_int parse_signed parse_digits all_digits value
read_42 = refl

half_float : looks_like_float (codes "-.5") ≡ true
unfolding looks_like_float after_digits skip_digits
half_float = refl

exponent : looks_like_float (codes "1e10") ≡ false
unfolding looks_like_float after_digits skip_digits
exponent = refl

looks_like_float_sound_example : All IsFloatByte (no_sign (codes "-.5"))
looks_like_float_sound_example = looks_like_float_sound (codes "-.5") half_float

-- A member of a JSON body goes before the query's value of its key.
abbrev json_post : HttpParams ℕ
json_post = record {
  query = (codes "a", codes "x" ∷ []) ∷ [];
  is_get = false;
  content_type = codes "application/json";
  media_type = codes "application/json";
  body = ok (codes "{}");
  json_object = λ s. ok ((codes "a", text (codes "y")) ∷ []);
  form = ok [];
  multipart = ok ([], []);
}

body_first :
    parse_params no_float same never_json same json_post
    ≡ ok ((codes "a", text (codes "y")) ∷ [], [])
unfolding parse_params body_params add_values add_members insert json_scalar bytes_eq has_prefix
    parse_int parse_signed parse_digits all_digits looks_like_float after_digits skip_digits
body_first = refl
