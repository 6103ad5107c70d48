-- ===== src/Botapi.antt =====
-- internal/botapi/envelope.go: the response envelope and the errors of the Bot API. Texts are bytes;
-- the result of a method stands for its JSON encoding, `R`.
pub mod Media
pub mod Types
use tgbotd.Prelude.{
  ℕ, ◌≡◌, ◌⊎◌, inl, inr, refl, ap, [], ◌++◌, Option, none, some, Bool, true, false,
}
use tgbotd.Prelude.Bytes.{Bytes, codes}
use tgbotd.Prelude.Int.{ℤ, pos}
use tgbotd.Prelude.Decimal.{digits, format_int}

-- A field that is 0 is left out of the JSON.
pub record ResponseParameters : Type 0 where
  pub migrate_to_chat_id : ℤ
  pub retry_after : ℤ

pub record ApiError : Type 0 where
  pub code : ℕ
  pub description : Bytes
  pub parameters : Option ResponseParameters

pub record Response (R : Type 0) : Type 0 where
  pub ok : Bool
  pub result : Option R
  pub error_code : ℕ
  pub description : Bytes
  pub parameters : Option ResponseParameters

-- A Go `error`: an `*APIError`, or another with its text.
pub data Error : Type 0 where
  api : ApiError → Error
  other : Bytes → Error

pub data Result {ℓ} (A : Type ℓ) : Type ℓ where
  ok : A → Result A
  err : Error → Result A

infixl 5 ◌>>=◌
abbrev pub ◌>>=◌ {ℓ κ} : {A : Type ℓ} {B : Type κ} → Result A → (A → Result B) → Result B
ok a >>= f = f a
err e >>= f = err e

pub Result-cases {ℓ} :
    {A : Type ℓ} (r : Result A) → ((a : A) × (r ≡ ok a)) ⊎ ((e : Error) × (r ≡ err e))
Result-cases (ok a) = inl (a, refl)
Result-cases (err e) = inr (e, refl)

abbrev value_or {ℓ} : {A : Type ℓ} → A → Result A → A
value_or d (ok a) = a
value_or d (err e) = d

pub ok-injective : {A : Type 0} {a b : A} → ok a ≡ ok b → a ≡ b
ok-injective {A = A} {a = a} e = ap (value_or a) e

pub err≢ok : {A : Type 0} (e : Error) (a : A) → err e ≡ ok a → ⊥
err≢ok e a h = cc

-- An `Errorf` whose text is made by the caller.
abbrev pub errorf : ℕ → Bytes → ApiError
errorf c text = record { code = c; description = text; parameters = none }

abbrev pub err_unauthorized : ApiError
err_unauthorized = errorf 401 (codes "Unauthorized")

abbrev pub err_not_found : ApiError
err_not_found = errorf 404 (codes "Not Found")

-- `quoted` is the name as `%q` prints it.
abbrev pub err_method_not_found : Bytes → ApiError
err_method_not_found quoted =
    errorf 404 (codes "Not Found: method " ++ (quoted ++ codes " not implemented"))

abbrev pub err_bad_request : Bytes → ApiError
err_bad_request desc = errorf 400 (codes "Bad Request: " ++ desc)

abbrev pub err_internal : Bytes → ApiError
err_internal desc = errorf 500 (codes "Internal Server Error: " ++ desc)

abbrev pub flood_wait : ℤ → ApiError
flood_wait seconds = record {
  code = 429;
  description = codes "Too Many Requests: retry after " ++ format_int seconds;
  parameters = some (record { migrate_to_chat_id = pos 0; retry_after = seconds });
}

abbrev pub migrate : ℤ → ApiError
migrate new_chat_id = record {
  code = 400;
  description = codes "Bad Request: group chat was upgraded to a supergroup chat";
  parameters = some (record { migrate_to_chat_id = new_chat_id; retry_after = pos 0 });
}

-- `(*APIError).Error` of an error that is not nil.
unfoldable pub error_text : ApiError → Bytes
error_text e = codes "[" ++ (digits e.code ++ (codes "] " ++ e.description))

module _ {R : Type 0} where
  -- `OK(result)`, where the encoding of the result may fail.
  unfoldable pub ok_response : Result R → Result (Response R)
  ok_response (err e) = err e
  ok_response (ok r) =
      ok
        (record { ok = true; result = some r; error_code = 0; description = []; parameters = none })

  -- `FromError`; `json_true` is the encoding of the result `true`.
  unfoldable pub from_error : R → Option Error → Response R
  from_error json_true none = record {
    ok = true;
    result = some json_true;
    error_code = 0;
    description = [];
    parameters = none;
  }
  from_error json_true (some (api e)) = record {
    ok = false;
    result = none;
    error_code = e.code;
    description = e.description;
    parameters = e.parameters;
  }
  from_error json_true (some (other text)) = record {
    ok = false;
    result = none;
    error_code = 500;
    description = codes "Internal Server Error: " ++ text;
    parameters = none;
  }
