-- ===== src/Server/Chats.antt =====
-- `resolveChatID` of internal/server/methods_core.go and the handlers of internal/server/methods_chat.go. A call of the library's client
-- returns a value or the error that `MapRPCError` makes of its own.
pub mod Laws
pub mod Members
pub mod Tests
use tgbotd.Prelude.{
  ℕ, List, [], ◌∷◌, Option, none, some, Bool, true, false, not, ◌&&◌, ◌||◌, if◌then◌else◌,
}
use tgbotd.Prelude.Bytes.{Bytes, codes, bytes_eq, has_prefix}
use tgbotd.Prelude.Int.{ℤ, pos, neg64, to_int32}
use tgbotd.Prelude.Decimal.{parse_int}
use tgbotd.Json.Reading.{find, struct_fields}
use tgbotd.Json as JsonTree
use tgbotd.Botapi.{Result, ok, err, api, err_bad_request, errorf, ◌>>=◌}
use tgbotd.Botapi.Types.{Chat, chat_of}
use tgbotd.Server.Integers.{json_parse_int}
use tgbotd.Server.Params.{
  Json, null, boolean, number, text, composite, Params, skip_digits, no_sign, is_nil, after_digits,
  looks_like_float, starts_composite, text_or_composite, float_or_text, number_or_text, json_scalar,
  add_values, add_members, add_files, HttpParams, json_params, body_params, parse_params,
  field_required, as_string, param_string, require_string, int_or_float, as_int64, param_int64,
  require_int64, as_bool, param_bool, param_raw,
}
use tgbotd.Tlate.Telegram.{UserObj}
use tgbotd.Tlate.Telegram.Incoming.{AdminRights}
use tgbotd.Tlate.Chats.{channel_type, bot_api_chat_id}
use Members.*

-- What stands for a chat in a call: a text, or a number.
pub data ChatRef : Type 0 where
  handle : Bytes → ChatRef
  numbered : ℤ → ChatRef

abbrev pub handle_or_number : Bytes → Option ℤ → ChatRef
handle_or_number s none = handle s
handle_or_number s (some n) = numbered n

abbrev pub text_chat : Bytes → ChatRef
text_chat s =
    if has_prefix s (codes "@") || has_prefix s (codes "https://t.me/")
    then handle s
    else handle_or_number s (json_parse_int s)

abbrev pub bad_chat_id : Result ChatRef
bad_chat_id = err (api (err_bad_request (codes "bad chat_id")))

abbrev pub literal_chat : Option ℤ → Result ChatRef
literal_chat none = bad_chat_id
literal_chat (some n) = ok (numbered n)

-- Null is read as 0; an empty text is no chat.
abbrev pub raw_chat : Json → Result ChatRef
raw_chat null = ok (numbered (pos 0))
raw_chat (boolean b) = bad_chat_id
raw_chat (number n) = literal_chat (parse_int n)
raw_chat (text []) = bad_chat_id
raw_chat (text (c ∷ s)) = ok (text_chat (c ∷ s))
raw_chat (composite c) = bad_chat_id

abbrev pub raw_or_required : Bytes → Option Json → Result ChatRef
raw_or_required name none = err (api (err_bad_request (field_required name)))
raw_or_required name (some raw) = raw_chat raw

unfoldable pub resolve_chat_id : Params → Bytes → Result ChatRef
resolve_chat_id ps name = raw_or_required name (param_raw ps name)

-- The calls that change a chat.
pub data Call : Type 0 where
  edit_banned : ChatRef → (user_id : ℤ) → BannedOptions → Call
  edit_admin : ChatRef → (user_id : ℤ) → AdminOptions → Call
  leave_channel : ChatRef → Call
  edit_title : ChatRef → Bytes → Call
  pin_message : ChatRef → (message_id : ℤ) (silent : Bool) → Call
  unpin_message : ChatRef → (message_id : ℤ) → Call

-- A parameter that is true if it is there and reads as true.
unfoldable pub flag : Params → Bytes → Bool
flag ps name = is_true (param_bool ps name)

-- `whole`, `number_text` are those of Server/Params; `tree` is the JSON tree that a composite value spells.
module _ (whole : Bytes → Option ℤ) (number_text : Bytes → Bytes)
    (tree : Bytes → JsonTree.Json) where
  abbrev pub till_date : Params → ℤ
  till_date ps = to_int32 (or_zero (param_int64 whole ps (codes "until_date")))

  unfoldable pub ban_chat_member : Params → Result Call
  ban_chat_member ps = do
    peer ← resolve_chat_id ps (codes "chat_id")
    uid ← require_int64 whole ps (codes "user_id")
    ok (
        edit_banned peer uid (record no_options {
          ban = true;
          till_date = till_date ps;
          revoke = flag ps (codes "revoke_messages");
        }))

  unfoldable pub unban_chat_member : Params → Result Call
  unban_chat_member ps = do
    peer ← resolve_chat_id ps (codes "chat_id")
    uid ← require_int64 whole ps (codes "user_id")
    ok (edit_banned peer uid (record no_options { unban = true }))

  -- The members of the parameter `permissions`, if it is an object or null.
  abbrev pub permission_fields : Option Json → Option JsonTree.Fields
  permission_fields none = none
  permission_fields (some null) = some JsonTree.end
  permission_fields (some (composite c)) = struct_fields (tree c)
  permission_fields (some _) = none

  unfoldable pub restrict_chat_member : Params → Result Call
  restrict_chat_member ps = do
    peer ← resolve_chat_id ps (codes "chat_id")
    uid ← require_int64 whole ps (codes "user_id")
    ok (
        edit_banned peer uid (record no_options {
          mute = true;
          rights = denied_rights (permission_fields (param_raw ps (codes "permissions")));
          till_date = till_date ps;
        }))

  unfoldable pub promote_chat_member : Params → Result Call
  promote_chat_member ps = do
    peer ← resolve_chat_id ps (codes "chat_id")
    uid ← require_int64 whole ps (codes "user_id")
    ok (edit_admin peer uid (admin_options (asked_rights (flag ps))))

  unfoldable pub leave_chat : Params → Result Call
  leave_chat ps = do peer ← resolve_chat_id ps (codes "chat_id"); ok (leave_channel peer)

  unfoldable pub set_chat_title : Params → Result Call
  set_chat_title ps = do
    peer ← resolve_chat_id ps (codes "chat_id")
    title ← require_string number_text ps (codes "title")
    ok (edit_title peer title)

  unfoldable pub pin_chat_message : Params → Result Call
  pin_chat_message ps = do
    peer ← resolve_chat_id ps (codes "chat_id")
    id ← require_int64 whole ps (codes "message_id")
    ok (pin_message peer (to_int32 id) (flag ps (codes "disable_notification")))

  unfoldable pub unpin_chat_message : Params → Result Call
  unpin_chat_message ps = do
    peer ← resolve_chat_id ps (codes "chat_id")
    id ← require_int64 whole ps (codes "message_id")
    ok (unpin_message peer (to_int32 id))

-- A handler that changes a chat makes its call, once its parameters are read, and answers true,
-- whatever the call returns beside an error.
unfoldable pub perform : (Call → Result Bool) → Result Call → Result Bool
perform client plan = plan >>= λ c. client c >>= λ u. ok true

pub data InputPeer : Type 0 where
  input_user : (user_id : ℤ) → InputPeer
  input_chat : (chat_id : ℤ) → InputPeer
  input_channel : (channel_id : ℤ) → InputPeer
  other_input : InputPeer

-- `telegram.Channel`, as far as getChat reads it.
pub record ChannelInfo : Type 0 where
  pub id : ℤ
  pub title : Bytes
  pub username : Bytes
  pub forum : Bool
  pub broadcast : Bool

-- The calls that ask for something. An invite of another type is `none`.
pub record ChatClient : Type 0 where
  pub me : Option UserObj
  pub resolve_peer : ChatRef → Result InputPeer
  pub get_user : ℤ → Result UserObj
  pub get_channel : ℤ → Result ChannelInfo
  pub get_chat_member : ChatRef → ℤ → Result (Option Member)
  pub get_chat_members_count : ChatRef → Result ℤ
  pub get_chat_admins : ChatRef → Result (List (Option Member))
  pub export_invite : ChatRef → Result (Option Bytes)

abbrev pub user_chat : UserObj → Chat
user_chat u = record (chat_of u.id (codes "private")) {
  first_name = u.first_name;
  last_name = u.last_name;
  username = u.username;
}

abbrev pub channel_info_chat : ChannelInfo → Chat
channel_info_chat ch = record (chat_of (bot_api_chat_id ch.id true) (channel_type ch.broadcast)) {
  title = ch.title;
  username = ch.username;
  is_forum = ch.forum;
}

module _ (c : ChatClient) where
  abbrev pub chat_of_peer : InputPeer → Result Chat
  chat_of_peer (input_user id) = c.get_user id >>= λ u. ok (user_chat u)
  chat_of_peer (input_chat id) = ok (chat_of (neg64 id) (codes "group"))
  chat_of_peer (input_channel id) = c.get_channel id >>= λ ch. ok (channel_info_chat ch)
  chat_of_peer other_input = err (api (err_bad_request (codes "could not resolve chat")))

  unfoldable pub get_chat : Params → Result Chat
  unfolding bot_api_chat_id
  get_chat ps = resolve_chat_id ps (codes "chat_id") >>= c.resolve_peer >>= chat_of_peer

  abbrev pub count_of : ChatRef → Result InputPeer → Result ℤ
  count_of peer (ok (input_user id)) = ok (pos 2)
  count_of peer _ = c.get_chat_members_count peer

  unfoldable pub get_chat_member_count : Params → Result ℤ
  get_chat_member_count ps = do
    peer ← resolve_chat_id ps (codes "chat_id")
    count_of peer (c.resolve_peer peer)

  -- In a private chat there are the user and the bot.
  abbrev pub private_member : ℤ → (user_id : ℤ) → UserObj → Result JsonTree.Json
  private_member uid user_id u =
      if is_self c.me uid
      then ok (status_and_user (codes "administrator") u)
      else if same_id uid user_id
      then ok (status_and_user (codes "member") u)
      else err (api (errorf 400 (codes "user is not a member of the private chat")))

  abbrev pub asked_member : ChatRef → ℤ → Result JsonTree.Json
  asked_member peer uid = c.get_chat_member peer uid >>= λ p. ok (part_to_bot_api p)

  abbrev pub member_or_asked : ChatRef → ℤ → (user_id : ℤ) → Result UserObj → Result JsonTree.Json
  member_or_asked peer uid user_id (ok u) = private_member uid user_id u
  member_or_asked peer uid user_id (err e) = asked_member peer uid

  abbrev pub member_of : ChatRef → ℤ → Result InputPeer → Result JsonTree.Json
  member_of peer uid (ok (input_user id)) = member_or_asked peer uid id (c.get_user uid)
  member_of peer uid _ = asked_member peer uid

  unfoldable pub get_chat_member : (Bytes → Option ℤ) → Params → Result JsonTree.Json
  get_chat_member whole ps = do
    peer ← resolve_chat_id ps (codes "chat_id")
    uid ← require_int64 whole ps (codes "user_id")
    member_of peer uid (c.resolve_peer peer)

  unfoldable pub get_chat_administrators : Params → Result JsonTree.Json
  get_chat_administrators ps = do
    peer ← resolve_chat_id ps (codes "chat_id")
    admins ← c.get_chat_admins peer
    ok (JsonTree.arr (JsonTree.items_of part_to_bot_api admins))

  abbrev pub link_or_empty : Option Bytes → Bytes
  link_or_empty none = []
  link_or_empty (some link) = link

  unfoldable pub export_chat_invite_link : Params → Result Bytes
  export_chat_invite_link ps = do
    peer ← resolve_chat_id ps (codes "chat_id")
    link ← c.export_invite peer
    ok (link_or_empty link)
