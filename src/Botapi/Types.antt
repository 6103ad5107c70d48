-- ===== src/Botapi/Types.antt =====
-- internal/botapi/types.go: users, chats, messages and updates, and the JSON of users and chats, whose
-- members with a zero value are left out where the tag says `omitempty`.
use tgbotd.Prelude.{List, [], Option, none, some, Bool, false}
use tgbotd.Prelude.Bytes.{Bytes, codes}
use tgbotd.Prelude.Int.{ℤ, pos}
use tgbotd.Json.{Json, null, bool, num, str, obj, end, field, text_member, flag_member}
use tgbotd.Botapi.Media.{
  PhotoSize, Document, Audio, Video, Voice, Animation, VideoNote, Sticker, Contact, Location, Venue,
  Dice, Poll,
}

pub record User : Type 0 where
  pub id : ℤ
  pub is_bot : Bool
  pub first_name : Bytes
  pub last_name : Bytes
  pub username : Bytes
  pub language_code : Bytes
  pub is_premium : Bool
  pub added_to_attachment_menu : Bool
  pub can_join_groups : Bool
  pub can_read_all_group_messages : Bool
  pub supports_inline_queries : Bool
  pub supports_guest_queries : Bool
  pub can_connect_to_business : Bool
  pub has_main_web_app : Bool
  pub can_manage_bots : Bool
  pub supports_join_request_queries : Bool

-- `botapi.User{ID: id}`
abbrev pub user_of_id : ℤ → User
user_of_id n = record {
  id = n;
  is_bot = false;
  first_name = [];
  last_name = [];
  username = [];
  language_code = [];
  is_premium = false;
  added_to_attachment_menu = false;
  can_join_groups = false;
  can_read_all_group_messages = false;
  supports_inline_queries = false;
  supports_guest_queries = false;
  can_connect_to_business = false;
  has_main_web_app = false;
  can_manage_bots = false;
  supports_join_request_queries = false;
}

unfoldable pub user_json : User → Json
user_json u = obj (
    field (codes "id") (num u.id) (
      field (codes "is_bot") (bool u.is_bot) (
        field (codes "first_name") (str u.first_name) (
          text_member (codes "last_name") u.last_name (
            text_member (codes "username") u.username (
              text_member (codes "language_code") u.language_code (
                flag_member (codes "is_premium") u.is_premium (
                  flag_member (codes "added_to_attachment_menu") u.added_to_attachment_menu (
                    flag_member (codes "can_join_groups") u.can_join_groups (
                      flag_member (codes "can_read_all_group_messages")
                        u.can_read_all_group_messages
                        (flag_member (codes "supports_inline_queries") u.supports_inline_queries (
                          flag_member (codes "supports_guest_queries") u.supports_guest_queries (
                            flag_member (codes "can_connect_to_business") u.can_connect_to_business
                              (flag_member (codes "has_main_web_app") u.has_main_web_app (
                                flag_member (codes "can_manage_bots") u.can_manage_bots (
                                  flag_member (codes "supports_join_request_queries")
                                    u.supports_join_request_queries end))))))))))))))))

-- A `*User`: nil prints as null.
abbrev pub user_pointer_json : Option User → Json
user_pointer_json none = null
user_pointer_json (some u) = user_json u

pub record Chat : Type 0 where
  pub id : ℤ
  pub type : Bytes
  pub title : Bytes
  pub username : Bytes
  pub first_name : Bytes
  pub last_name : Bytes
  pub is_forum : Bool
  pub is_direct_messages : Bool

-- `botapi.Chat{ID: id, Type: kind}`
abbrev pub chat_of : ℤ → Bytes → Chat
chat_of n kind = record {
  id = n;
  type = kind;
  title = [];
  username = [];
  first_name = [];
  last_name = [];
  is_forum = false;
  is_direct_messages = false;
}

unfoldable pub chat_json : Chat → Json
chat_json c = obj (
    field (codes "id") (num c.id) (
      field (codes "type") (str c.type) (
        text_member (codes "title") c.title (
          text_member (codes "username") c.username (
            text_member (codes "first_name") c.first_name (
              text_member (codes "last_name") c.last_name (
                flag_member (codes "is_forum") c.is_forum
                  (flag_member (codes "is_direct_messages") c.is_direct_messages end))))))))

pub record MessageEntity : Type 0 where
  pub type : Bytes
  pub offset : ℤ
  pub length : ℤ
  pub url : Bytes
  pub user : Option User
  pub language : Bytes
  pub custom_emoji_id : Bytes
  pub unix_time : ℤ
  pub date_time_format : Bytes

-- `Message`, without its pointers to other messages, which the code never sets.
pub record Message : Type 0 where
  pub message_id : ℤ
  pub message_thread_id : ℤ
  pub from : Option User
  pub sender_chat : Option Chat
  pub date : ℤ
  pub chat : Chat
  pub forward_origin : Option Json
  pub edit_date : ℤ
  pub media_group_id : Bytes
  pub author_signature : Bytes
  pub text : Bytes
  pub entities : List MessageEntity
  pub caption : Bytes
  pub caption_entities : List MessageEntity
  pub reply_markup : Option Json
  pub photo : List PhotoSize
  pub document : Option Document
  pub audio : Option Audio
  pub video : Option Video
  pub voice : Option Voice
  pub sticker : Option Sticker
  pub animation : Option Animation
  pub video_note : Option VideoNote
  pub contact : Option Contact
  pub location : Option Location
  pub venue : Option Venue
  pub dice : Option Dice
  pub poll : Option Poll
  pub new_chat_members : List User
  pub left_chat_member : Option User
  pub new_chat_title : Bytes
  pub new_chat_photo : List PhotoSize
  pub group_chat_created : Bool
  pub supergroup_chat_created : Bool
  pub channel_chat_created : Bool
  pub migrate_to_chat_id : ℤ
  pub migrate_from_chat_id : ℤ

-- `botapi.Message{MessageID: n, Date: d, Chat: c, Text: s}`
abbrev pub message_of : ℤ → ℤ → Chat → Bytes → Message
message_of n d c s = record {
  message_id = n;
  message_thread_id = pos 0;
  from = none;
  sender_chat = none;
  date = d;
  chat = c;
  forward_origin = none;
  edit_date = pos 0;
  media_group_id = [];
  author_signature = [];
  text = s;
  entities = [];
  caption = [];
  caption_entities = [];
  reply_markup = none;
  photo = [];
  document = none;
  audio = none;
  video = none;
  voice = none;
  sticker = none;
  animation = none;
  video_note = none;
  contact = none;
  location = none;
  venue = none;
  dice = none;
  poll = none;
  new_chat_members = [];
  left_chat_member = none;
  new_chat_title = [];
  new_chat_photo = [];
  group_chat_created = false;
  supergroup_chat_created = false;
  channel_chat_created = false;
  migrate_to_chat_id = pos 0;
  migrate_from_chat_id = pos 0;
}

pub record InlineQuery : Type 0 where
  pub id : Bytes
  pub from : User
  pub query : Bytes
  pub offset : Bytes
  pub chat_type : Bytes
  pub location : Option Location

pub record CallbackQuery : Type 0 where
  pub id : Bytes
  pub from : User
  pub message : Option Message
  pub inline_message_id : Bytes
  pub chat_instance : Bytes
  pub callback_data : Bytes
  pub game_short_name : Bytes

-- A raw message that is nil or empty is `none`.
pub record Update : Type 0 where
  pub update_id : ℤ
  pub message : Option Message
  pub edited_message : Option Message
  pub channel_post : Option Message
  pub edited_channel_post : Option Message
  pub business_connection : Option Json
  pub business_message : Option Message
  pub edited_business_message : Option Message
  pub deleted_business_messages : Option Json
  pub guest_message : Option Message
  pub message_reaction : Option Json
  pub message_reaction_count : Option Json
  pub inline_query : Option InlineQuery
  pub chosen_inline_result : Option Json
  pub callback_query : Option CallbackQuery
  pub shipping_query : Option Json
  pub pre_checkout_query : Option Json
  pub purchased_paid_media : Option Json
  pub poll : Option Poll
  pub poll_answer : Option Json
  pub my_chat_member : Option Json
  pub chat_member : Option Json
  pub chat_join_request : Option Json
  pub chat_boost : Option Json
  pub removed_chat_boost : Option Json
  pub managed_bot : Option Json
  pub subscription : Option Json

-- `botapi.Update{}`
abbrev pub empty_update : Update
empty_update = record {
  update_id = pos 0;
  message = none;
  edited_message = none;
  channel_post = none;
  edited_channel_post = none;
  business_connection = none;
  business_message = none;
  edited_business_message = none;
  deleted_business_messages = none;
  guest_message = none;
  message_reaction = none;
  message_reaction_count = none;
  inline_query = none;
  chosen_inline_result = none;
  callback_query = none;
  shipping_query = none;
  pre_checkout_query = none;
  purchased_paid_media = none;
  poll = none;
  poll_answer = none;
  my_chat_member = none;
  chat_member = none;
  chat_join_request = none;
  chat_boost = none;
  removed_chat_boost = none;
  managed_bot = none;
  subscription = none;
}
