-- ===== src/Tlate/Markup.antt =====
-- `ReplyMarkupToBotAPI` of internal/tlate/tlate.go and what it prints its buttons with. json.Marshal fails on floats that
-- are not finite alone, and none is printed here; it replaces what is no UTF-8 in a text.
use tgbotd.Prelude.{List, [], Option, none, some, Bool, true, false}
use tgbotd.Prelude.Bytes.{Bytes, codes}
use tgbotd.Prelude.Utf8.{marshaled}
use tgbotd.Json.{Json, bool, num, str, arr, obj, Fields, end, field, items_of}
use tgbotd.Tlate.Telegram.{
  KeyboardButton, button_obj, button_url, button_callback, button_simple_web_view, button_web_view,
  button_switch_inline, button_buy, button_game, button_copy, button_url_auth, button_request_phone,
  button_request_geo_location, button_request_poll, nil_button, ReplyMarkup, reply_inline_markup,
  reply_keyboard_markup, reply_keyboard_hide, reply_keyboard_force_reply,
}

-- A text as json.Marshal writes it.
abbrev pub written : Bytes → Json
written s = str (marshaled s)

abbrev pub text_field : Bytes → Fields → Json
text_field text rest = obj (field (codes "text") (written text) rest)

-- `map[string]string{key: s}`
abbrev pub single : Bytes → Bytes → Json
single key s = obj (field key (written s) end)

abbrev pub inline_query_key : Bool → Bytes
inline_query_key true = codes "switch_inline_query_current_chat"
inline_query_key false = codes "switch_inline_query"

-- `get_text` is the button's method GetText, if its type has one.
module _ (get_text : KeyboardButton → Option Bytes) where
  abbrev pub text_or_empty : Option Bytes → Bytes
  text_or_empty none = []
  text_or_empty (some s) = s

  unfoldable pub button_text : KeyboardButton → Bytes
  button_text nil_button = []
  button_text b = text_or_empty (get_text b)

  unfoldable pub inline_button_to_bot_api : KeyboardButton → Json
  inline_button_to_bot_api (button_url text url) =
      text_field text (field (codes "url") (written url) end)
  inline_button_to_bot_api (button_callback text d) =
      text_field text (field (codes "callback_data") (written d) end)
  inline_button_to_bot_api (button_simple_web_view text url) =
      text_field text (field (codes "web_app") (single (codes "url") url) end)
  inline_button_to_bot_api (button_web_view text url) =
      text_field text (field (codes "web_app") (single (codes "url") url) end)
  inline_button_to_bot_api (button_switch_inline text query same_peer) =
      text_field text (field (inline_query_key same_peer) (written query) end)
  inline_button_to_bot_api (button_buy text) = text_field text (field (codes "pay") (bool true) end)
  inline_button_to_bot_api (button_game text) =
      text_field text (field (codes "callback_game") (obj end) end)
  inline_button_to_bot_api (button_copy text copy_text) =
      text_field text (field (codes "copy_text") (single (codes "text") copy_text) end)
  inline_button_to_bot_api (button_url_auth text url fwd_text button_id) = text_field text (
      field (codes "login_url")
        (obj (
          field (codes "url") (written url) (
            field (codes "forward_text") (written fwd_text)
              (field (codes "bot_username") (num button_id) end))))
        end)
  inline_button_to_bot_api nil_button = obj end
  inline_button_to_bot_api b = text_field (button_text b) end

  unfoldable pub reply_button_to_bot_api : KeyboardButton → Json
  reply_button_to_bot_api (button_obj text) = text_field text end
  reply_button_to_bot_api (button_request_phone text) =
      text_field text (field (codes "request_contact") (bool true) end)
  reply_button_to_bot_api (button_request_geo_location text) =
      text_field text (field (codes "request_location") (bool true) end)
  reply_button_to_bot_api (button_request_poll text) =
      text_field text (field (codes "request_poll") (obj end) end)
  reply_button_to_bot_api (button_simple_web_view text url) =
      text_field text (field (codes "web_app") (single (codes "url") url) end)
  reply_button_to_bot_api b = text_field (button_text b) end

  abbrev pub rows_json : (KeyboardButton → Json) → List (List KeyboardButton) → Json
  rows_json f rows = arr (items_of (λ row. arr (items_of f row)) rows)

  unfoldable pub reply_markup_to_bot_api : ReplyMarkup → Json
  unfolding items_of
  reply_markup_to_bot_api (reply_inline_markup rows) =
      obj (field (codes "inline_keyboard") (rows_json inline_button_to_bot_api rows) end)
  reply_markup_to_bot_api (reply_keyboard_markup rows resize single_use selective placeholder) =
      obj (
        field (codes "keyboard") (rows_json reply_button_to_bot_api rows) (
          field (codes "resize_keyboard") (bool resize) (
            field (codes "one_time_keyboard") (bool single_use) (
              field (codes "selective") (bool selective)
                (field (codes "input_field_placeholder") (written placeholder) end)))))
  reply_markup_to_bot_api (reply_keyboard_hide selective) =
      obj (
        field (codes "remove_keyboard") (bool true)
          (field (codes "selective") (bool selective) end))
  reply_markup_to_bot_api (reply_keyboard_force_reply selective placeholder) = obj (
      field (codes "force_reply") (bool true) (
        field (codes "selective") (bool selective)
          (field (codes "input_field_placeholder") (written placeholder) end)))
