-- ===== src/Tlate/Messages.antt =====
-- `MessageObjToBotAPICtx` of internal/tlate/tlate.go.
pub mod Chats
pub mod Files
pub mod Laws
use tgbotd.Prelude.{ℕ, List, Option, none, some, Bool, true, false, if◌then◌else◌}
use tgbotd.Prelude.Int.{ℤ, pos}
use tgbotd.Botapi.Types.{User, Message, Chat, user_of_id, message_of}
use tgbotd.Tlate.Telegram.{
  UserObj, Peer, peer_user, peer_chat, peer_channel, ChatObj, chat_obj, channel, other_chat, Entity,
  entity_mention, entity_hashtag, entity_cashtag, entity_bot_command, entity_url, entity_email,
  entity_bold, entity_italic, entity_code, entity_pre, entity_text_url, entity_mention_name,
  entity_phone, entity_underline, entity_strike, entity_spoiler, entity_blockquote,
  entity_bank_card, entity_custom_emoji, other_entity, KeyboardButton, button_obj, button_url,
  button_callback, button_simple_web_view, button_web_view, button_switch_inline, button_buy,
  button_game, button_copy, button_url_auth, input_button_url_auth, button_request_phone,
  button_request_geo_location, button_request_poll, other_button, nil_button, ReplyMarkup,
  reply_inline_markup, reply_keyboard_markup, reply_keyboard_hide, reply_keyboard_force_reply,
  SizeObj, photo_size_obj, photo_cached_size, photo_stripped_size, photo_size_progressive,
  other_size, PhotoObj, DocumentAttribute, attribute_audio, attribute_video, attribute_sticker,
  attribute_animated, attribute_filename, attribute_image_size, other_attribute, DocumentObj,
  GeoPoint, PollObj, PollResults, MessageMedia, media_photo, media_document, media_contact,
  media_geo, media_geo_live, media_venue, media_dice, media_poll, other_media, MessageObj,
}
use tgbotd.Tlate.Context.{TranslateContext, Action, pure, ◌>>=◌, int_eq, user}
use tgbotd.Tlate.Chats.{
  channel_base, bot_api_chat_id, user_from_obj, self_user, peer_to_bot_api_chat_id, peer_to_user_id,
  private_chat, group_chat, channel_type, channel_chat, chat_from_peer_ctx, is_broadcast,
  is_broadcast_channel, user_or, user_by_id,
}
use tgbotd.Tlate.Entities.{entities_to_bot_api}
use tgbotd.Tlate.Media.{fill_media}
use tgbotd.Tlate.Markup.{reply_markup_to_bot_api}

-- `botapi.User{ID: id, IsBot: true}`
abbrev pub bot_of_id : ℤ → User
bot_of_id id = record (user_of_id id) { is_bot = true }

abbrev pub self_if_known : Bool → ℤ → Action (Option User)
self_if_known true id = pure none
self_if_known false id = user id >>= λ u. pure (some (user_or (bot_of_id id) u))

-- The sender of an outgoing message is the bot.
abbrev pub self_sender : Action (Option User)
self_sender t = self_if_known (int_eq t.self_id (pos 0)) t.self_id t

-- The sender, from `Out`, `FromID` and `PeerID`.
unfoldable pub sender : Bool → Option Peer → Option Peer → Action (Option User)
sender true from peer = self_sender
sender false (some (peer_user id)) peer = user_by_id id >>= λ u. pure (some u)
sender false (some (peer_chat id)) peer = pure none
sender false (some (peer_channel id)) peer = pure none
sender false none (some (peer_user id)) = user_by_id id >>= λ u. pure (some u)
sender false none (some (peer_chat id)) = pure none
sender false none (some (peer_channel id)) = pure none
sender false none none = pure none

abbrev pub with_media : Option MessageMedia → Message → Message
with_media none bm = bm
with_media (some media) bm = fill_media bm media

module _ (get_text : KeyboardButton → Option (List ℕ)) where
  abbrev pub with_markup : Option ReplyMarkup → Message → Message
  with_markup none bm = bm
  with_markup (some rm) bm = record bm { reply_markup = some (reply_markup_to_bot_api get_text rm) }

  -- The message, once its chat and its sender are known.
  unfoldable pub built_message : MessageObj → Chat → Option User → Message
  built_message m c from = with_markup m.reply_markup (
      with_media m.media (record (message_of m.id m.date c m.message) {
        from = from;
        edit_date = m.edit_date;
        entities = entities_to_bot_api m.entities;
      }))

  unfoldable pub message_obj_to_bot_api_ctx : MessageObj → Action Message
  unfolding built_message
  message_obj_to_bot_api_ctx m = do
    c ← chat_from_peer_ctx m.peer_id
    from ← sender m.out m.from_id m.peer_id
    pure (built_message m c from)
