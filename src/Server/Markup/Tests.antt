-- ===== src/Server/Markup/Tests.antt =====
-- Markups on small inputs.
use tgbotd.Prelude.{false, ◌≡◌, refl, [], ◌∷◌, Option, none, some, true}
use tgbotd.Prelude.Bytes.{Bytes, codes, bytes_eq}
use tgbotd.Prelude.Utf8.{rune_tail, marshaled_from, marshaled, valid_from, valid_string}
use tgbotd.Json.{obj, bool, str, arr, done, item, object, Fields, fields_of}
use tgbotd.Json.Reading.{find, list_of}
use tgbotd.Tlate.Telegram.{
  KeyboardButton, button_callback, button_game, input_button_url_auth, ReplyMarkup,
  reply_inline_markup,
}
use tgbotd.Tlate.Markup.{reply_markup_to_bot_api}
use tgbotd.Server.Markup.{
  read_login, read_inline_fields, choose_inline, parse_inline_button, parse_reply_markup,
}
use tgbotd.Server.Markup.RoundTrip.{parse_reply_markup-reply_markup_to_bot_api}
use mathlib.Core.List.{cons-ne-nil}

abbrev no_text : KeyboardButton → Option Bytes
no_text b = none

abbrev menu : ReplyMarkup
menu =
    reply_inline_markup
      ((button_callback (codes "yes") (codes "y") ∷ button_game (codes "play") ∷ []) ∷ [])

parse_reply_markup-reply_markup_to_bot_api_example :
    parse_reply_markup (reply_markup_to_bot_api no_text menu) ≡ some menu
unfolding valid_string valid_from rune_tail
parse_reply_markup-reply_markup_to_bot_api_example =
    parse_reply_markup-reply_markup_to_bot_api no_text menu
      (cons-ne-nil _ _, ((cons-ne-nil _ _, ((refl, refl, cons-ne-nil _ _), (refl, tt))), tt))

-- A button that names no kind is left out, and its row with it.
plain_dropped :
    parse_reply_markup (
      object (
        (
          codes "inline_keyboard",
          arr (item (arr (item (object ((codes "text", str (codes "a")) ∷ [])) done)) done),
        )
        ∷ []))
    ≡ some (reply_inline_markup [])
unfolding parse_reply_markup find bytes_eq list_of
plain_dropped = refl

abbrev login : Fields
login = fields_of (
    (codes "url", str (codes "https://x.y"))
    ∷ (codes "forward_text", str (codes "look"))
    ∷ (codes "request_write_access", bool true)
    ∷ [])

-- Neither the text nor the access that the client asks for is in the button.
login_dropped :
    parse_inline_button
      (obj (fields_of ((codes "text", str (codes "log in")) ∷ (codes "login_url", obj login) ∷ [])))
    ≡ some (input_button_url_auth (codes "log in") (codes "https://x.y") [] false)
unfolding parse_inline_button read_inline_fields read_login choose_inline find bytes_eq
login_dropped = refl

-- The byte 255 begins no character, and é has two bytes.
byte_replaced : marshaled (255 ∷ 195 ∷ 169 ∷ []) ≡ 239 ∷ 191 ∷ 189 ∷ 195 ∷ 169 ∷ []
unfolding marshaled marshaled_from rune_tail
byte_replaced = refl
