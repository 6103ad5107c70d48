-- ===== src/Botmgr/Translation.antt =====
-- `BuildTranslateContext` and `deliverOne` of internal/botmgr/webhook.go. The library's client, `json.Marshal` of the
-- update and the HTTP client are parameters: what they answer, `none` being an error.
pub mod Laws
pub mod Tests
use tgbotd.Prelude.{
  ℕ, List, [], ◌∷◌, Option, none, some, Bool, true, false, ◌&&◌, leb, ltb, if◌then◌else◌,
}
use tgbotd.Prelude.Bytes.{Bytes, codes}
use tgbotd.Prelude.Int.{ℤ, pos}
use tgbotd.Tlate.Telegram.{UserObj, ChatObj}
use tgbotd.Tlate.Context.{TranslateContext, set_entry}

-- The client: `Me`, `GetUser`, `GetChannel` and `GetChat`.
pub record Client : Type 0 where
  pub me : Option UserObj
  pub get_user : ℤ → Option UserObj
  pub get_channel : ℤ → Option ChatObj
  pub get_chat : ℤ → Option ChatObj

abbrev pub channel_or_chat : Client → ℤ → Option ChatObj → Option ChatObj
channel_or_chat c id (some ch) = some ch
channel_or_chat c id none = c.get_chat id

abbrev pub self_id_of : Option UserObj → ℤ
self_id_of none = pos 0
self_id_of (some u) = u.id

abbrev pub self_entry : Option UserObj → ℤ → Option UserObj
self_entry none = λ id. none
self_entry (some u) = set_entry u.id u (λ id. none)

unfoldable pub build_translate_context : Client → TranslateContext
build_translate_context c = record {
  self_id = self_id_of c.me;
  users = self_entry c.me;
  chats = λ id. none;
  user_lookup = some c.get_user;
  chat_lookup = some (λ id. channel_or_chat c id (c.get_channel id));
}

pub record HttpRequest : Type 0 where
  pub url : Bytes
  pub body : Bytes
  pub headers : List (Bytes × Bytes)

abbrev pub secret_header : Bytes → List (Bytes × Bytes)
secret_header [] = []
secret_header (c ∷ s) = (codes "X-Telegram-Bot-Api-Secret-Token", c ∷ s) ∷ []

abbrev pub post_request : Bytes → Bytes → Bytes → HttpRequest
post_request url secret body = record {
  url = url;
  body = body;
  headers = (codes "Content-Type", codes "application/json") ∷ secret_header secret;
}

abbrev pub is_success : Option ℕ → Bool
is_success none = false
is_success (some status) = leb 200 status && ltb status 300

-- `valid_url` is whether `http.NewRequest` takes the URL, and `send` is the status of the answer.
module _ {U : Type 0} (marshal : U → Option Bytes) (valid_url : Bytes → Bool)
    (send : HttpRequest → Option ℕ) where
  abbrev pub post_body : Bytes → Bytes → Option Bytes → Bool
  post_body url secret none = false
  post_body url secret (some body) =
      if valid_url url then is_success (send (post_request url secret body)) else false

  unfoldable pub deliver_one : (url secret : Bytes) → U → Bool
  deliver_one url secret u = post_body url secret (marshal u)
