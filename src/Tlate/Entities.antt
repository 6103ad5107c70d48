-- ===== src/Tlate/Entities.antt =====
-- `EntitiesToBotAPI` of internal/tlate/tlate.go. Offsets and lengths are `int32`, of which `int` keeps the value.
pub mod Laws
use tgbotd.Prelude.{List, [], ◌∷◌, Option, none, some, true, false, if◌then◌else◌}
use tgbotd.Prelude.Bytes.{Bytes, codes}
use tgbotd.Prelude.Int.{ℤ, pos}
use tgbotd.Prelude.Decimal.{format_int}
use tgbotd.Botapi.Types.{MessageEntity, user_of_id}
use tgbotd.Tlate.Telegram.{
  UserObj, Peer, peer_user, peer_chat, peer_channel, ChatObj, chat_obj, channel, other_chat, Entity,
  entity_mention, entity_hashtag, entity_cashtag, entity_bot_command, entity_url, entity_email,
  entity_bold, entity_italic, entity_code, entity_pre, entity_text_url, entity_mention_name,
  entity_phone, entity_underline, entity_strike, entity_spoiler, entity_blockquote,
  entity_bank_card, entity_custom_emoji, other_entity, KeyboardButton, button_obj, button_url,
  button_callback, button_simple_web_view, button_web_view, button_switch_inline, button_buy,
  button_game, button_copy, button_url_auth, input_button_url_auth, button_request_phone,
  button_request_geo_location, button_request_poll, other_button, nil_button, ReplyMarkup,
  reply_inline_markup, reply_keyboard_markup, reply_keyboard_hide, reply_keyboard_force_reply,
  SizeObj, photo_size_obj, photo_cached_size, photo_stripped_size, photo_size_progressive,
  other_size, PhotoObj, DocumentAttribute, attribute_audio, attribute_video, attribute_sticker,
  attribute_animated, attribute_filename, attribute_image_size, other_attribute, DocumentObj,
  GeoPoint, PollObj, PollResults, MessageMedia, media_photo, media_document, media_contact,
  media_geo, media_geo_live, media_venue, media_dice, media_poll, other_media, MessageObj,
}

-- `me.Type, me.Offset, me.Length = ...`
abbrev pub plain_entity : Bytes → ℤ → ℤ → MessageEntity
plain_entity kind o l = record {
  type = kind;
  offset = o;
  length = l;
  url = [];
  user = none;
  language = [];
  custom_emoji_id = [];
  unix_time = pos 0;
  date_time_format = [];
}

-- `none` where the loop continues without an entity.
unfoldable pub entity_to_bot_api : Entity → Option MessageEntity
entity_to_bot_api (entity_mention o l) = some (plain_entity (codes "mention") o l)
entity_to_bot_api (entity_hashtag o l) = some (plain_entity (codes "hashtag") o l)
entity_to_bot_api (entity_cashtag o l) = some (plain_entity (codes "cashtag") o l)
entity_to_bot_api (entity_bot_command o l) = some (plain_entity (codes "bot_command") o l)
entity_to_bot_api (entity_url o l) = some (plain_entity (codes "url") o l)
entity_to_bot_api (entity_email o l) = some (plain_entity (codes "email") o l)
entity_to_bot_api (entity_bold o l) = some (plain_entity (codes "bold") o l)
entity_to_bot_api (entity_italic o l) = some (plain_entity (codes "italic") o l)
entity_to_bot_api (entity_code o l) = some (plain_entity (codes "code") o l)
entity_to_bot_api (entity_pre o l language) =
    some (record (plain_entity (codes "pre") o l) { language = language })
entity_to_bot_api (entity_text_url o l url) =
    some (record (plain_entity (codes "text_link") o l) { url = url })
entity_to_bot_api (entity_mention_name o l id) =
    some (record (plain_entity (codes "text_mention") o l) { user = some (user_of_id id) })
entity_to_bot_api (entity_phone o l) = some (plain_entity (codes "phone_number") o l)
entity_to_bot_api (entity_underline o l) = some (plain_entity (codes "underline") o l)
entity_to_bot_api (entity_strike o l) = some (plain_entity (codes "strikethrough") o l)
entity_to_bot_api (entity_spoiler o l) = some (plain_entity (codes "spoiler") o l)
entity_to_bot_api (entity_blockquote o l collapsed) =
    some
      (plain_entity (if collapsed then codes "expandable_blockquote" else codes "blockquote") o l)
entity_to_bot_api (entity_bank_card o l) = some (plain_entity (codes "bank_card") o l)
entity_to_bot_api (entity_custom_emoji o l id) =
    some (record (plain_entity (codes "custom_emoji") o l) { custom_emoji_id = format_int id })
entity_to_bot_api other_entity = none

abbrev pub and_then {ℓ} : {A : Type ℓ} → Option A → List A → List A
and_then none xs = xs
and_then (some x) xs = x ∷ xs

unfoldable pub entities_to_bot_api : List Entity → List MessageEntity
entities_to_bot_api [] = []
entities_to_bot_api (e ∷ es) = and_then (entity_to_bot_api e) (entities_to_bot_api es)
