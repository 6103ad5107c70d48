-- ===== src/Server/Chats/Tests.antt =====
-- Chats and their members on small requests.
use tgbotd.Prelude.{◌≡◌, refl, sym, ap, [], ◌∷◌, Option, none, true, false, All}
use tgbotd.Prelude.Bytes.{Bytes, codes, bytes_eq, has_prefix}
use tgbotd.Prelude.Int.{ℤ, pos}
use tgbotd.Prelude.Maps.{lookup}
use tgbotd.Json as JsonTree
use tgbotd.Botapi.{Result, ok, err, api, err_bad_request}
use tgbotd.Botapi.Types.{Chat}
use tgbotd.Server.Params.{Params, text, boolean, require_int64, param_int64, param_bool, param_raw}
use tgbotd.Server.Integers.{json_parse_int}
use tgbotd.Tlate.Chats.{peer_to_bot_api_chat_id}
use tgbotd.Server.Chats.{
  handle, resolve_chat_id, Call, edit_admin, flag, promote_chat_member, input_channel, ChannelInfo,
  ChatClient, channel_info_chat, get_chat,
}
use tgbotd.Server.Chats.Members.{asked_rights, admin_options, member_fields}
use tgbotd.Server.Chats.Laws.{
  right_names, promoted, Reports, promote_chat_member-Reports, peer_of, IsHonest,
  get_chat-peer_to_bot_api_chat_id,
}

abbrev no_float : Bytes → Option ℤ
no_float s = none

abbrev same_text : Bytes → Bytes
same_text s = s

abbrev no_tree : Bytes → JsonTree.Json
no_tree s = JsonTree.null

abbrev request : Params
request =
    (codes "chat_id", text (codes "@news"))
    ∷ (codes "user_id", text (codes "7"))
    ∷ (codes "can_pin_messages", boolean true)
    ∷ []

abbrev promotion : Call
promotion =
    edit_admin (handle (codes "@news")) (pos 7) (admin_options (asked_rights (flag request)))

promotion_planned : promote_chat_member no_float same_text no_tree request ≡ ok promotion
unfolding promote_chat_member resolve_chat_id require_int64 param_int64 param_raw lookup has_prefix
    bytes_eq json_parse_int
promotion_planned = refl

promote_chat_member-Reports_example :
    All (Reports request (member_fields (promoted none promotion))) right_names
promote_chat_member-Reports_example =
    promote_chat_member-Reports no_float same_text no_tree request none promotion promotion_planned

pins : flag request (codes "can_pin_messages") ≡ true
unfolding flag param_bool lookup bytes_eq
pins = refl

abbrev refused {ℓ} : {A : Type ℓ} → Result A
refused = err (api (err_bad_request []))

abbrev news_info : ℤ → ChannelInfo
news_info id = record {
  id = id;
  title = codes "News";
  username = codes "news";
  forum = false;
  broadcast = true;
}

-- A client that finds the channel 5 under every name.
abbrev client : ChatClient
client = record {
  me = none;
  resolve_peer = λ ref. ok (input_channel (pos 5));
  get_user = λ id. refused;
  get_channel = λ id. ok (news_info id);
  get_chat_member = λ ref id. refused;
  get_chat_members_count = λ ref. refused;
  get_chat_admins = λ ref. refused;
  export_invite = λ ref. refused;
}

abbrev id_of_result : ℤ → Result ChannelInfo → ℤ
id_of_result d (ok ch) = ch.id
id_of_result d (err e) = d

client-IsHonest : IsHonest client
client-IsHonest = record {
  user_asked = λ id u e. absurd (cc e);
  channel_asked = λ id ch e. ap (id_of_result id) (sym e);
}

abbrev news : Chat
news = channel_info_chat (news_info (pos 5))

news_resolved : resolve_chat_id request (codes "chat_id") ≡ ok (handle (codes "@news"))
unfolding resolve_chat_id param_raw lookup has_prefix bytes_eq
news_resolved = refl

news_got : get_chat client request ≡ ok news
unfolding get_chat resolve_chat_id param_raw lookup has_prefix bytes_eq
news_got = refl

get_chat-peer_to_bot_api_chat_id_example :
    news.id ≡ peer_to_bot_api_chat_id (peer_of (input_channel (pos 5)))
get_chat-peer_to_bot_api_chat_id_example =
    get_chat-peer_to_bot_api_chat_id client request (handle (codes "@news")) (input_channel (pos 5))
      news client-IsHonest news_resolved refl news_got
