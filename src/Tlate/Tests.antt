-- ===== src/Tlate/Tests.antt =====
-- internal/tlate on a small context.
use tgbotd.Prelude.{
  ◌≡◌, refl, List, [], ◌∷◌, Option, none, some, Bool, true, false, arith, if◌then◌else◌,
}
use tgbotd.Prelude.Bytes.{Bytes, codes, bytes_eq}
use tgbotd.Prelude.Int.{pos, negsuc}
use tgbotd.Fileid.{encode, Info, decode, decoded, ft_video_note}
use tgbotd.Botapi.Types.{chat_of, Message}
use tgbotd.Tlate.Telegram.{
  UserObj, Peer, peer_user, peer_channel, channel, Entity, entity_bold, entity_text_url,
  entity_custom_emoji, other_entity, KeyboardButton, photo_size_obj, photo_stripped_size,
  photo_size_progressive, PhotoObj, attribute_video, attribute_filename, DocumentObj,
  media_document, MessageObj,
}
use tgbotd.Tlate.Telegram.Incoming.{
  TgUpdate, update_new_message, update_new_channel_message, update_edit_channel_message,
  update_message_poll_vote,
}
use tgbotd.Tlate.Context.{int_eq, TranslateContext}
use tgbotd.Tlate.Context.Laws.{known_user, known_chat, Agrees}
use tgbotd.Tlate.Chats.{chat_from_peer_ctx}
use tgbotd.Tlate.Chats.Ids.{peer_of_id}
use tgbotd.Tlate.Entities.{entities_to_bot_api}
use tgbotd.Tlate.Entities.Laws.{known, read_entities, read_entities-entities_to_bot_api}
use tgbotd.Tlate.Messages.{built_message, message_obj_to_bot_api_ctx}
use tgbotd.Tlate.Messages.Laws.{reference_message, message_obj_to_bot_api_ctx-reference_message}
use tgbotd.Tlate.Messages.Chats.{chat_from_peer_ctx-peer_of_id}
use tgbotd.Tlate.Messages.Files.{IsFile, file_named, built_message-decode}
use tgbotd.Tlate.Media.Files.{document_files}
use tgbotd.Tlate.Updates.{is_empty, as_message, as_post, filled, update_to_bot_api}
use tgbotd.Tlate.Updates.Fields.{field_count, update_to_bot_api-field_count}
use tgbotd.Tlate.Updates.Order.{holds_new, after_updates, update_to_bot_api-after_updates}
use tgbotd.Tlate.Updates.Posts.{is_channel_chat, plain_message, update_to_bot_api-as_post}
use tgbotd.Tlate.Updates.Dropped.{update_to_bot_api-is_dropped}
use tgbotd.Tlate.Updates.{is_none}
use tgbotd.Tlate.Updates.Votes.{update_to_bot_api_votes}

abbrev no_text : KeyboardButton → Option Bytes
no_text b = none

abbrev alice : UserObj
alice = record {
  id = pos 7;
  bot = false;
  first_name = codes "Alice";
  last_name = [];
  username = [];
  lang_code = [];
  premium = false;
  attach_menu_enabled = false;
  bot_nochats = false;
  bot_chat_history = false;
  bot_inline_placeholder = [];
  bot_has_main_app = false;
  bot_business = false;
}

-- The client knows Alice and a broadcast channel.
abbrev context : TranslateContext
context = record {
  self_id = pos 1;
  users = λ id. none;
  chats = λ id. none;
  user_lookup = some (λ id. if int_eq id (pos 7) then some alice else none);
  chat_lookup = some (λ id. some (channel (codes "news") [] false true));
}

abbrev message_to : Peer → Bool → MessageObj
message_to p own = record {
  id = pos 3;
  out = own;
  from_id = some (peer_user (pos 7));
  peer_id = some p;
  date = pos 1000;
  edit_date = pos 0;
  message = codes "hi";
  entities = entity_bold (pos 0) (pos 2) ∷ [];
  media = none;
  reply_markup = none;
}

abbrev hello : MessageObj
hello = message_to (peer_user (pos 7)) false

abbrev news : MessageObj
news = message_to (peer_channel (pos 5)) false

abbrev hello_translated : Message
hello_translated = (message_obj_to_bot_api_ctx no_text hello context).0

hello_returned :
    (update_to_bot_api no_text (some (update_new_message (some hello))) context).0
    ≡ some (as_message hello_translated)
unfolding update_to_bot_api filled is_empty
hello_returned = refl

update_to_bot_api-field_count_example : field_count (as_message hello_translated) ≡ 1
update_to_bot_api-field_count_example =
    update_to_bot_api-field_count no_text (some (update_new_message (some hello))) context
      (as_message hello_translated) hello_returned

abbrev vote : TgUpdate
vote = update_message_poll_vote (pos 9) (some (peer_user (pos 7))) (codes "b" ∷ [])

update_to_bot_api-after_updates_example :
    (update_to_bot_api no_text
      (some (update_new_message (some hello)))
      (after_updates no_text (some vote ∷ []) context)).0
    ≡ (update_to_bot_api no_text (some (update_new_message (some hello))) context).0
update_to_bot_api-after_updates_example =
    update_to_bot_api-after_updates no_text (some vote ∷ []) (update_new_message (some hello))
      context (holds_new (some hello))

message_obj_to_bot_api_ctx-reference_message_example :
    ((message_obj_to_bot_api_ctx no_text news context).0
      ≡ reference_message (known_user context) (known_chat context) no_text (pos 1) news)
    × Agrees (message_obj_to_bot_api_ctx no_text news context).1 context
message_obj_to_bot_api_ctx-reference_message_example =
    message_obj_to_bot_api_ctx-reference_message no_text news context

abbrev own_message : MessageObj
own_message = message_to (peer_channel (pos 5)) true

update_to_bot_api-is_dropped_example :
    is_none
      (update_to_bot_api no_text (some (update_edit_channel_message (some own_message))) context).0
    ≡ true
update_to_bot_api-is_dropped_example =
    update_to_bot_api-is_dropped no_text (update_edit_channel_message (some own_message)) context

update_to_bot_api-as_post_example :
    (update_to_bot_api no_text (some (update_new_channel_message (some news))) context).0
    ≡ some (
        (if is_channel_chat (plain_message no_text news context).chat then as_post else as_message)
          (plain_message no_text news context))
update_to_bot_api-as_post_example = update_to_bot_api-as_post no_text news context refl

news_posted : is_channel_chat (plain_message no_text news context).chat ≡ true
unfolding reference_message built_message bytes_eq
news_posted = refl

chat_from_peer_ctx-peer_of_id_example :
    peer_of_id (chat_from_peer_ctx (some (peer_channel (pos 5))) context).0.id
    ≡ peer_channel (pos 5)
chat_from_peer_ctx-peer_of_id_example =
    chat_from_peer_ctx-peer_of_id (peer_channel (pos 5)) context (omega arith, omega arith)

abbrev round_video : DocumentObj
round_video = record {
  dc_id = pos 2;
  id = pos 77;
  access_hash = negsuc 12;
  file_reference = 1 ∷ 0 ∷ 200 ∷ [];
  mime_type = codes "video/mp4";
  size = pos 5000;
  thumbs = photo_stripped_size ∷ photo_size_obj (codes "m") (pos 32) (pos 32) (pos 900) ∷ [];
  attributes =
      attribute_video true (pos 9) (pos 240) (pos 240) ∷ attribute_filename (codes "a.mp4") ∷ [];
}

round_video-IsFile : IsFile (pos 2) (pos 77) (negsuc 12) (1 ∷ 0 ∷ 200 ∷ [])
round_video-IsFile = record {
  dc_range = omega arith;
  id_range = omega arith;
  hash_range = omega arith;
  ref_bytes = (omega arith, (omega arith, (omega arith, tt)));
  ref_some = omega arith;
  ref_short = omega arith;
}

abbrev video_message : MessageObj
video_message = record hello { media = some (media_document (some round_video)) }

built_message-decode_example :
    (i : Info) × (document_files (built_message no_text video_message (chat_of (pos 7) []) none)
      ≡ (ft_video_note, encode i) ∷ [])
    × (decode (encode i)
        ≡ decoded (file_named (pos 2) ft_video_note (pos 77) (negsuc 12) (1 ∷ 0 ∷ 200 ∷ [])))
built_message-decode_example =
    built_message-decode no_text video_message round_video (chat_of (pos 7) []) none refl
      round_video-IsFile

abbrev photo : PhotoObj
photo = record {
  dc_id = pos 2;
  id = pos 77;
  access_hash = negsuc 12;
  file_reference = 1 ∷ 0 ∷ 200 ∷ [];
  sizes =
      photo_stripped_size
      ∷ photo_size_progressive (codes "y") (pos 800) (pos 600) (pos 10 ∷ pos 900 ∷ [])
      ∷ [];
}

abbrev marks : List Entity
marks =
    entity_text_url (pos 0) (pos 3) (codes "t.me")
    ∷ other_entity
    ∷ entity_custom_emoji (pos 3) (pos 2) (negsuc 41)
    ∷ []

read_entities-entities_to_bot_api_example : read_entities (entities_to_bot_api marks) ≡ known marks
read_entities-entities_to_bot_api_example =
    read_entities-entities_to_bot_api marks (tt, (tt, (omega arith, tt)))

update_to_bot_api_votes_example :
    update_to_bot_api no_text
      (some (update_message_poll_vote (pos 9) (some (peer_user (pos 7))) (codes "a" ∷ [])))
      context
    ≡ update_to_bot_api no_text
        (some (update_message_poll_vote (pos 9) (some (peer_user (pos 7))) (codes "b" ∷ [])))
        context
update_to_bot_api_votes_example =
    update_to_bot_api_votes no_text (pos 9) (some (peer_user (pos 7))) context (codes "a" ∷ [])
      (codes "b" ∷ []) refl
