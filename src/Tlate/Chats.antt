-- ===== src/Tlate/Chats.antt =====
-- Users, peers and chats: internal/tlate/tlate.go up to MessageObjToBotAPI, peerToUserID of
-- internal/tlate/updates_helpers.go and isBroadcastChannel of internal/tlate/updates.go.
pub mod Ids
use tgbotd.Prelude.{[], ◌∷◌, Option, none, some, Bool, true, false, not, if◌then◌else◌}
use tgbotd.Prelude.Bytes.{Bytes, codes, bytes_eq}
use tgbotd.Prelude.Int.{ℤ, pos, negsuc, neg64, sub64}
use tgbotd.Botapi.Types.{User, Chat, user_of_id, chat_of}
use tgbotd.Tlate.Telegram.{
  UserObj, Peer, peer_user, peer_chat, peer_channel, ChatObj, chat_obj, channel, other_chat,
}
use tgbotd.Tlate.Context.{Action, pure, ◌>>=◌, user, chat}

-- -10^12
abbrev pub channel_base : ℤ
channel_base = negsuc 999999999999

unfoldable pub bot_api_chat_id : ℤ → Bool → ℤ
bot_api_chat_id id true = sub64 channel_base id
bot_api_chat_id id false = id

unfoldable pub user_from_obj : UserObj → User
user_from_obj u = record {
  id = u.id;
  is_bot = u.bot;
  first_name = u.first_name;
  last_name = u.last_name;
  username = u.username;
  language_code = u.lang_code;
  is_premium = u.premium;
  added_to_attachment_menu = u.attach_menu_enabled;
  can_join_groups = false;
  can_read_all_group_messages = false;
  supports_inline_queries = false;
  supports_guest_queries = false;
  can_connect_to_business = false;
  has_main_web_app = false;
  can_manage_bots = false;
  supports_join_request_queries = false;
}

unfoldable pub self_user : Option UserObj → Option User
unfolding user_from_obj
self_user none = none
self_user (some u) = some (record (user_from_obj u) {
  can_join_groups = not u.bot_nochats;
  can_read_all_group_messages = u.bot_chat_history;
  supports_inline_queries = not (bytes_eq u.bot_inline_placeholder []);
  has_main_web_app = u.bot_has_main_app;
  can_connect_to_business = u.bot_business;
})

unfoldable pub peer_to_bot_api_chat_id : Option Peer → ℤ
peer_to_bot_api_chat_id (some (peer_user id)) = id
peer_to_bot_api_chat_id (some (peer_chat id)) = neg64 id
peer_to_bot_api_chat_id (some (peer_channel id)) = sub64 channel_base id
peer_to_bot_api_chat_id none = pos 0

unfoldable pub peer_to_user_id : Option Peer → ℤ
peer_to_user_id (some (peer_user id)) = id
peer_to_user_id (some (peer_chat id)) = neg64 id
peer_to_user_id (some (peer_channel id)) = sub64 channel_base id
peer_to_user_id none = pos 0

abbrev pub private_chat : ℤ → Option UserObj → Chat
private_chat id none = chat_of id (codes "private")
private_chat id (some u) = record (chat_of id (codes "private")) {
  first_name = u.first_name;
  last_name = u.last_name;
  username = u.username;
}

abbrev pub group_chat : ℤ → Option ChatObj → Chat
group_chat id (some (chat_obj title)) = record (chat_of id (codes "group")) { title = title }
group_chat id _ = chat_of id (codes "group")

abbrev pub channel_type : Bool → Bytes
channel_type broadcast = if broadcast then codes "channel" else codes "supergroup"

abbrev pub channel_chat : ℤ → Option ChatObj → Chat
channel_chat id (some (channel title username forum broadcast)) =
    record (chat_of id (channel_type broadcast)) {
      title = title;
      username = username;
      is_forum = forum;
    }
channel_chat id _ = chat_of id (codes "supergroup")

unfoldable pub chat_from_peer_ctx : Option Peer → Action Chat
chat_from_peer_ctx (some (peer_user id)) = user id >>= λ u. pure (private_chat id u)
chat_from_peer_ctx (some (peer_chat id)) = chat id >>= λ c. pure (group_chat (neg64 id) c)
chat_from_peer_ctx (some (peer_channel id)) =
    chat id >>= λ c. pure (channel_chat (sub64 channel_base id) c)
chat_from_peer_ctx none = pure (chat_of (pos 0) [])

abbrev pub is_broadcast : Option ChatObj → Bool
is_broadcast (some (channel title username forum broadcast)) = broadcast
is_broadcast _ = false

unfoldable pub is_broadcast_channel : Option Peer → Action Bool
is_broadcast_channel (some (peer_channel id)) = chat id >>= λ c. pure (is_broadcast c)
is_broadcast_channel _ = pure false

-- `if u := ctx.User(id); u != nil { UserFromObj(u) } else { user }`
abbrev pub user_or : User → Option UserObj → User
user_or default none = default
user_or default (some u) = user_from_obj u

abbrev pub user_by_id : ℤ → Action User
user_by_id id = user id >>= λ u. pure (user_or (user_of_id id) u)
