-- ===== src/Tlate/Telegram.antt =====
-- The MTProto library's objects, as far as internal/tlate reads them: the cases of its type switches,
-- and in each the fields that it reads. A pointer or an interface that may be nil is an option.
pub mod Incoming
use tgbotd.Prelude.{List, Option, Bool}
use tgbotd.Prelude.Bytes.{Bytes}
use tgbotd.Prelude.Int.{ℤ}
use tgbotd.Json.{Float64}

pub record UserObj : Type 0 where
  pub id : ℤ
  pub bot : Bool
  pub first_name : Bytes
  pub last_name : Bytes
  pub username : Bytes
  pub lang_code : Bytes
  pub premium : Bool
  pub attach_menu_enabled : Bool
  pub bot_nochats : Bool
  pub bot_chat_history : Bool
  pub bot_inline_placeholder : Bytes
  pub bot_has_main_app : Bool
  pub bot_business : Bool

pub data Peer : Type 0 where
  peer_user : (user_id : ℤ) → Peer
  peer_chat : (chat_id : ℤ) → Peer
  peer_channel : (channel_id : ℤ) → Peer

-- `telegram.Chat`; `other_chat` is a chat of another type, such as a forbidden one.
pub data ChatObj : Type 0 where
  chat_obj : (title : Bytes) → ChatObj
  channel : (title username : Bytes) (forum broadcast : Bool) → ChatObj
  other_chat : ChatObj

pub data Entity : Type 0 where
  entity_mention : (offset length : ℤ) → Entity
  entity_hashtag : (offset length : ℤ) → Entity
  entity_cashtag : (offset length : ℤ) → Entity
  entity_bot_command : (offset length : ℤ) → Entity
  entity_url : (offset length : ℤ) → Entity
  entity_email : (offset length : ℤ) → Entity
  entity_bold : (offset length : ℤ) → Entity
  entity_italic : (offset length : ℤ) → Entity
  entity_code : (offset length : ℤ) → Entity
  entity_pre : (offset length : ℤ) (language : Bytes) → Entity
  entity_text_url : (offset length : ℤ) (url : Bytes) → Entity
  entity_mention_name : (offset length user_id : ℤ) → Entity
  entity_phone : (offset length : ℤ) → Entity
  entity_underline : (offset length : ℤ) → Entity
  entity_strike : (offset length : ℤ) → Entity
  entity_spoiler : (offset length : ℤ) → Entity
  entity_blockquote : (offset length : ℤ) (collapsed : Bool) → Entity
  entity_bank_card : (offset length : ℤ) → Entity
  entity_custom_emoji : (offset length document_id : ℤ) → Entity
  other_entity : Entity

pub data KeyboardButton : Type 0 where
  button_obj : (text : Bytes) → KeyboardButton
  button_url : (text url : Bytes) → KeyboardButton
  button_callback : (text callback_data : Bytes) → KeyboardButton
  button_simple_web_view : (text url : Bytes) → KeyboardButton
  button_web_view : (text url : Bytes) → KeyboardButton
  button_switch_inline : (text query : Bytes) (same_peer : Bool) → KeyboardButton
  button_buy : (text : Bytes) → KeyboardButton
  button_game : (text : Bytes) → KeyboardButton
  button_copy : (text copy_text : Bytes) → KeyboardButton
  button_url_auth : (text url fwd_text : Bytes) (button_id : ℤ) → KeyboardButton
  input_button_url_auth : (text url fwd_text : Bytes) (request_write_access : Bool) → KeyboardButton
  button_request_phone : (text : Bytes) → KeyboardButton
  button_request_geo_location : (text : Bytes) → KeyboardButton
  button_request_poll : (text : Bytes) → KeyboardButton
  other_button : KeyboardButton
  nil_button : KeyboardButton

-- A `KeyboardButtonRow` is the list of its buttons.
pub data ReplyMarkup : Type 0 where
  reply_inline_markup : (rows : List (List KeyboardButton)) → ReplyMarkup
  reply_keyboard_markup :
      (rows : List (List KeyboardButton)) (resize single_use selective : Bool) (placeholder : Bytes)
      → ReplyMarkup
  reply_keyboard_hide : (selective : Bool) → ReplyMarkup
  reply_keyboard_force_reply : (selective : Bool) (placeholder : Bytes) → ReplyMarkup

pub data SizeObj : Type 0 where
  photo_size_obj : (type : Bytes) (w h size : ℤ) → SizeObj
  photo_cached_size : (type : Bytes) (w h : ℤ) (bytes : Bytes) → SizeObj
  photo_stripped_size : SizeObj
  photo_size_progressive : (type : Bytes) (w h : ℤ) (sizes : List ℤ) → SizeObj
  other_size : SizeObj

pub record PhotoObj : Type 0 where
  pub dc_id : ℤ
  pub id : ℤ
  pub access_hash : ℤ
  pub file_reference : Bytes
  pub sizes : List SizeObj

-- The duration of a video is a float64, of which `int` keeps the whole part: it stands here as that.
pub data DocumentAttribute : Type 0 where
  attribute_audio : (voice : Bool) (duration : ℤ) (title performer : Bytes) → DocumentAttribute
  attribute_video : (round_message : Bool) (duration w h : ℤ) → DocumentAttribute
  attribute_sticker : DocumentAttribute
  attribute_animated : DocumentAttribute
  attribute_filename : (file_name : Bytes) → DocumentAttribute
  attribute_image_size : (w h : ℤ) → DocumentAttribute
  other_attribute : DocumentAttribute

pub record DocumentObj : Type 0 where
  pub dc_id : ℤ
  pub id : ℤ
  pub access_hash : ℤ
  pub file_reference : Bytes
  pub mime_type : Bytes
  pub size : ℤ
  pub thumbs : List SizeObj
  pub attributes : List DocumentAttribute

pub record GeoPoint : Type 0 where
  pub lat : Float64
  pub long : Float64
  pub accuracy_radius : ℤ

-- An answer of another type, or one without a text, is `none`.
pub record PollObj : Type 0 where
  pub id : ℤ
  pub question : Bytes
  pub closed : Bool
  pub public_voters : Bool
  pub multiple_choice : Bool
  pub quiz : Bool
  pub close_period : ℤ
  pub close_date : ℤ
  pub answers : List (Option Bytes)

-- The voters of each result.
pub record PollResults : Type 0 where
  pub total_voters : ℤ
  pub results : List ℤ

-- A photo, document or geo point that is not there, or of another type, is `none`.
pub data MessageMedia : Type 0 where
  media_photo : (photo : Option PhotoObj) → MessageMedia
  media_document : (document : Option DocumentObj) → MessageMedia
  media_contact : (phone_number first_name last_name vcard : Bytes) (user_id : ℤ) → MessageMedia
  media_geo : (geo : Option GeoPoint) → MessageMedia
  media_geo_live :
      (geo : Option GeoPoint) (period heading proximity_notification_radius : ℤ) → MessageMedia
  media_venue : (geo : Option GeoPoint) (title address venue_id venue_type : Bytes) → MessageMedia
  media_dice : (emoticon : Bytes) (value : ℤ) → MessageMedia
  media_poll : (poll : Option PollObj) (results : Option PollResults) → MessageMedia
  other_media : MessageMedia

pub record MessageObj : Type 0 where
  pub id : ℤ
  pub out : Bool
  pub from_id : Option Peer
  pub peer_id : Option Peer
  pub date : ℤ
  pub edit_date : ℤ
  pub message : Bytes
  pub entities : List Entity
  pub media : Option MessageMedia
  pub reply_markup : Option ReplyMarkup
