-- ===== src/Server/Markup.antt =====
-- `parseReplyMarkup`, `parseInlineButton` and `parseReplyButton` of internal/server/methods_core.go. A nil markup or button is
-- `none`.
pub mod Login
pub mod RoundTrip
pub mod Tests
use tgbotd.Prelude.{List, [], ◌∷◌, Option, none, some, Bool, true, false, if◌then◌else◌}
use tgbotd.Prelude.Bytes.{Bytes, codes}
use tgbotd.Json.{Json, Fields}
use tgbotd.Json.Reading.{
  lower_byte, lower, or_else, find, struct_fields, text_value, flag_value, text_pointer,
  struct_pointer, list_of, row_value, cons_row, rows_of, rows_value,
}
use tgbotd.Tlate.Telegram.{
  UserObj, Peer, peer_user, peer_chat, peer_channel, ChatObj, chat_obj, channel, other_chat, Entity,
  entity_mention, entity_hashtag, entity_cashtag, entity_bot_command, entity_url, entity_email,
  entity_bold, entity_italic, entity_code, entity_pre, entity_text_url, entity_mention_name,
  entity_phone, entity_underline, entity_strike, entity_spoiler, entity_blockquote,
  entity_bank_card, entity_custom_emoji, other_entity, KeyboardButton, button_obj, button_url,
  button_callback, button_simple_web_view, button_web_view, button_switch_inline, button_buy,
  button_game, button_copy, button_url_auth, input_button_url_auth, button_request_phone,
  button_request_geo_location, button_request_poll, other_button, nil_button, ReplyMarkup,
  reply_inline_markup, reply_keyboard_markup, reply_keyboard_hide, reply_keyboard_force_reply,
  SizeObj, photo_size_obj, photo_cached_size, photo_stripped_size, photo_size_progressive,
  other_size, PhotoObj, DocumentAttribute, attribute_audio, attribute_video, attribute_sticker,
  attribute_animated, attribute_filename, attribute_image_size, other_attribute, DocumentObj,
  GeoPoint, PollObj, PollResults, MessageMedia, media_photo, media_document, media_contact,
  media_geo, media_geo_live, media_venue, media_dice, media_poll, other_media, MessageObj,
}

infixl 5 ◌>>=◌
abbrev pub ◌>>=◌ {ℓ κ} : {A : Type ℓ} {B : Type κ} → Option A → (A → Option B) → Option B
none >>= f = none
some a >>= f = f a

pub record LoginUrl : Type 0 where
  pub url : Bytes
  pub forward_text : Bytes
  pub request_write_access : Bool

-- The struct's fields have no tags, so each is found under its own name alone. The one of the bot's
-- name is read and not used.
unfoldable pub read_login : Fields → Option LoginUrl
unfolding find
read_login fs = do
  url ← text_value (find (codes "url") fs)
  forward ← text_value (find (codes "forwardtext") fs)
  bot_name ← text_value (find (codes "botusername") fs)
  write ← flag_value (find (codes "requestwriteaccess") fs)
  some (record { url = url; forward_text = forward; request_write_access = write })

-- The fields of `parseInlineButton`'s struct.
pub record InlineFields : Type 0 where
  pub text : Bytes
  pub url : Bytes
  pub callback_data : Bytes
  pub web_app : Option Bytes
  pub login_url : Option LoginUrl
  pub switch_inline_query : Option Bytes
  pub switch_inline_query_current_chat : Option Bytes
  pub copy_text : Option Bytes
  pub pay : Bool
  pub callback_game : Option Json

abbrev pub read_url : Fields → Option Bytes
read_url fs = text_value (find (codes "url") fs)

abbrev pub read_text : Fields → Option Bytes
read_text fs = text_value (find (codes "text") fs)

abbrev pub read_type : Fields → Option Bytes
read_type fs = text_value (find (codes "type") fs)

unfoldable pub read_inline_fields : Fields → Option InlineFields
unfolding find read_login
read_inline_fields fs = do
  text ← text_value (find (codes "text") fs)
  url ← text_value (find (codes "url") fs)
  payload ← text_value (find (codes "callback_data") fs)
  web_app ← struct_pointer read_url (find (codes "web_app") fs)
  login ← struct_pointer read_login (find (codes "login_url") fs)
  query ← text_pointer (find (codes "switch_inline_query") fs)
  current ← text_pointer (find (codes "switch_inline_query_current_chat") fs)
  copied ← struct_pointer read_text (find (codes "copy_text") fs)
  pay ← flag_value (find (codes "pay") fs)
  some (record {
    text = text;
    url = url;
    callback_data = payload;
    web_app = web_app;
    login_url = login;
    switch_inline_query = query;
    switch_inline_query_current_chat = current;
    copy_text = copied;
    pay = pay;
    callback_game = find (codes "callback_game") fs;
  })

-- The cases of the switch, from the last one up.
abbrev pub game_button : Bytes → Option Json → Option KeyboardButton
game_button text none = none
game_button text (some j) = some (button_game text)

abbrev pub pay_button : Bool → Bytes → Option KeyboardButton → Option KeyboardButton
pay_button true text rest = some (button_buy text)
pay_button false text rest = rest

abbrev pub if_there {ℓ} :
    {A : Type ℓ} → Option A → (A → KeyboardButton) → Option KeyboardButton → Option KeyboardButton
if_there none f rest = rest
if_there (some a) f rest = some (f a)

abbrev pub if_text :
    Bytes → (Bytes → KeyboardButton) → Option KeyboardButton → Option KeyboardButton
if_text [] f rest = rest
if_text (c ∷ s) f rest = some (f (c ∷ s))

unfoldable pub choose_inline : InlineFields → Option KeyboardButton
choose_inline b = if_text b.url (button_url b.text) (
    if_text b.callback_data (button_callback b.text) (
      if_there b.web_app (button_simple_web_view b.text) (
        if_there b.login_url
          (λ l. input_button_url_auth b.text l.url l.forward_text l.request_write_access)
          (if_there b.switch_inline_query (λ q. button_switch_inline b.text q false)
            (if_there b.switch_inline_query_current_chat (λ q. button_switch_inline b.text q true)
              (if_there b.copy_text (button_copy b.text)
                (pay_button b.pay b.text (game_button b.text b.callback_game))))))))

unfoldable pub parse_inline_button : Json → Option KeyboardButton
unfolding read_inline_fields choose_inline
parse_inline_button raw = struct_fields raw >>= read_inline_fields >>= choose_inline

pub record ReplyFields : Type 0 where
  pub text : Bytes
  pub request_contact : Bool
  pub request_location : Bool
  pub request_poll : Option Bytes
  pub web_app : Option Bytes

unfoldable pub read_reply_fields : Fields → Option ReplyFields
unfolding find
read_reply_fields fs = do
  text ← text_value (find (codes "text") fs)
  contact ← flag_value (find (codes "request_contact") fs)
  location ← flag_value (find (codes "request_location") fs)
  poll ← struct_pointer read_type (find (codes "request_poll") fs)
  web_app ← struct_pointer read_url (find (codes "web_app") fs)
  some (record {
    text = text;
    request_contact = contact;
    request_location = location;
    request_poll = poll;
    web_app = web_app;
  })

abbrev pub choose_web_app : ReplyFields → Option Bytes → KeyboardButton
choose_web_app b none = button_obj b.text
choose_web_app b (some url) = button_simple_web_view b.text url

abbrev pub choose_poll : ReplyFields → Option Bytes → KeyboardButton
choose_poll b none = choose_web_app b b.web_app
choose_poll b (some kind) = button_request_poll b.text

unfoldable pub choose_reply : ReplyFields → Option KeyboardButton
choose_reply b =
    if b.request_contact
    then some (button_request_phone b.text)
    else if b.request_location
    then some (button_request_geo_location b.text)
    else some (choose_poll b b.request_poll)

unfoldable pub parse_reply_button : Json → Option KeyboardButton
unfolding read_reply_fields choose_reply
parse_reply_button raw = struct_fields raw >>= read_reply_fields >>= choose_reply

abbrev pub cons_some {ℓ} : {A : Type ℓ} → Option A → List A → List A
cons_some none xs = xs
cons_some (some x) xs = x ∷ xs

-- `if len(buttons) > 0 { rows = append(rows, ...) }`
abbrev pub cons_nonempty {ℓ} : {A : Type ℓ} → List A → List (List A) → List (List A)
cons_nonempty [] rows = rows
cons_nonempty (x ∷ xs) rows = (x ∷ xs) ∷ rows

module _ (parse : Json → Option KeyboardButton) where
  unfoldable pub parse_row : List Json → List KeyboardButton
  parse_row [] = []
  parse_row (raw ∷ rest) = cons_some (parse raw) (parse_row rest)

  unfoldable pub parse_rows : List (List Json) → List (List KeyboardButton)
  unfolding parse_row
  parse_rows [] = []
  parse_rows (row ∷ rest) = cons_nonempty (parse_row row) (parse_rows rest)

-- The struct `probe` of `parseReplyMarkup`.
pub record Probe : Type 0 where
  pub inline_keyboard : List (List Json)
  pub keyboard : List (List Json)
  pub remove_keyboard : Bool
  pub force_reply : Bool
  pub selective : Bool
  pub resize : Bool
  pub one_time : Bool
  pub placeholder : Bytes

unfoldable pub read_probe : Fields → Option Probe
unfolding find rows_of
read_probe fs = do
  inline ← rows_value (find (codes "inline_keyboard") fs)
  keyboard ← rows_value (find (codes "keyboard") fs)
  remove ← flag_value (find (codes "remove_keyboard") fs)
  force ← flag_value (find (codes "force_reply") fs)
  selective ← flag_value (find (codes "selective") fs)
  resize ← flag_value (find (codes "resize_keyboard") fs)
  one_time ← flag_value (find (codes "one_time_keyboard") fs)
  placeholder ← text_value (find (codes "input_field_placeholder") fs)
  some (record {
    inline_keyboard = inline;
    keyboard = keyboard;
    remove_keyboard = remove;
    force_reply = force;
    selective = selective;
    resize = resize;
    one_time = one_time;
    placeholder = placeholder;
  })

abbrev pub choose_bare : Probe → Option ReplyMarkup
choose_bare p =
    if p.remove_keyboard
    then some (reply_keyboard_hide p.selective)
    else if p.force_reply
    then some (reply_keyboard_force_reply p.selective p.placeholder)
    else none

abbrev pub choose_keyboard : Probe → List (List Json) → Option ReplyMarkup
choose_keyboard p [] = choose_bare p
choose_keyboard p (row ∷ rows) = some (
    reply_keyboard_markup (parse_rows parse_reply_button (row ∷ rows)) p.resize p.one_time
      p.selective p.placeholder)

abbrev pub choose_markup : Probe → List (List Json) → Option ReplyMarkup
choose_markup p [] = choose_keyboard p p.keyboard
choose_markup p (row ∷ rows) =
    some (reply_inline_markup (parse_rows parse_inline_button (row ∷ rows)))

unfoldable pub parse_reply_markup : Json → Option ReplyMarkup
unfolding read_probe parse_rows parse_inline_button parse_reply_button
parse_reply_markup raw = struct_fields raw >>= read_probe >>= λ p. choose_markup p p.inline_keyboard
