-- ===== src/Tlate/Updates/Envelopes.antt =====
-- What the cases of `UpdateToBotAPI` (internal/tlate/updates.go) build: queries, and the maps that are marshalled.
use tgbotd.Prelude.{List, [], ◌∷◌, Option, none, some, not}
use tgbotd.Prelude.Bytes.{Bytes, codes}
use tgbotd.Prelude.Int.{ℤ}
use tgbotd.Prelude.Decimal.{format_int}
use mathlib.Core.Option
use tgbotd.Json.{
  Json, bool, num, float, str, arr, Fields, items_of, put, fields_of, object, put_some,
}
use tgbotd.Botapi.Media.{Location}
use tgbotd.Botapi.Types.{
  user_of_id, user_json, user_pointer_json, Chat, chat_json, InlineQuery, CallbackQuery,
}
use tgbotd.Server.InlineId.{InlineMessageId, inline_msg_id}
use tgbotd.Tlate.Telegram.{Peer, peer_user, peer_chat, peer_channel, GeoPoint}
use tgbotd.Tlate.Telegram.Incoming.{
  Invite, Reaction, ReactionCount, Boost, Connection, PeerType, type_same_bot_pm, type_pm,
  type_chat, type_megagroup, type_broadcast, other_type,
}
use tgbotd.Tlate.Context.{TranslateContext, Action, pure, ◌>>=◌}
use tgbotd.Tlate.Chats.{user_from_obj, user_by_id, chat_from_peer_ctx, peer_to_user_id}
use tgbotd.Tlate.Media.{location_of}
use tgbotd.Tlate.Members.{mapped_user}
use tgbotd.Tlate.Reactions.{
  options_to_indexes, reactions_to_bot_api, reaction_counts_to_bot_api, boost_id, boost_add_date,
  boost_expire_date,
}

-- `inlineMsgID`, of nil the empty text.
abbrev pub msg_id_text : Option InlineMessageId → Bytes
msg_id_text none = []
msg_id_text (some id) = inline_msg_id id

unfoldable pub callback_query :
    TranslateContext
    → (query_id user_id chat_instance : ℤ) (payload game_short_name : Bytes) → CallbackQuery
callback_query t query_id user_id chat_instance payload game = record {
  id = format_int query_id;
  from = mapped_user t user_id;
  message = none;
  inline_message_id = [];
  chat_instance = format_int chat_instance;
  callback_data = payload;
  game_short_name = game;
}

unfoldable pub inline_callback_query :
    TranslateContext
    → (query_id user_id chat_instance : ℤ) (payload : Bytes) (msg_id : Option InlineMessageId)
    → CallbackQuery
inline_callback_query t query_id user_id chat_instance payload msg_id = record {
  id = format_int query_id;
  from = mapped_user t user_id;
  message = none;
  inline_message_id = msg_id_text msg_id;
  chat_instance = format_int chat_instance;
  callback_data = payload;
  game_short_name = [];
}

abbrev pub chat_type : PeerType → Bytes
chat_type type_same_bot_pm = codes "private"
chat_type type_pm = codes "private"
chat_type type_chat = codes "group"
chat_type type_megagroup = codes "supergroup"
chat_type type_broadcast = codes "channel"
chat_type other_type = []

abbrev pub point_location : Option GeoPoint → Option Location
point_location none = none
point_location (some pt) = some (location_of pt)

unfoldable pub inline_query :
    TranslateContext
    → (query_id user_id : ℤ) (query offset : Bytes) (geo : Option GeoPoint) (peer_type : PeerType)
    → InlineQuery
inline_query t query_id user_id query offset geo kind = record {
  id = format_int query_id;
  from = mapped_user t user_id;
  query = query;
  offset = offset;
  chat_type = chat_type kind;
  location = point_location geo;
}

abbrev pub msg_id_json : Option InlineMessageId → Option Json
msg_id_json none = none
msg_id_json (some id) = some (str (inline_msg_id id))

abbrev pub point_json : Option GeoPoint → Option Json
point_json none = none
point_json (some pt) =
    some (object ((codes "latitude", float pt.lat) ∷ (codes "longitude", float pt.long) ∷ []))

unfoldable pub chosen_result :
    TranslateContext
    → (id query : Bytes) (user_id : ℤ) (msg_id : Option InlineMessageId) (geo : Option GeoPoint)
    → Fields
unfolding put
chosen_result t id query user_id msg_id geo = put_some (codes "location") (point_json geo) (
    put_some (codes "inline_message_id") (msg_id_json msg_id) (
      fields_of (
        (codes "result_id", str id)
        ∷ (codes "query", str query)
        ∷ (codes "from", user_json (mapped_user t user_id))
        ∷ [])))

unfoldable pub poll_answer :
    (poll_id : ℤ) (peer : Option Peer) (options : List Bytes) → Action Fields
poll_answer poll_id peer options = do
  u ← user_by_id (peer_to_user_id peer)
  pure (
      fields_of (
        (codes "poll_id", str (format_int poll_id))
        ∷ (codes "option_ids", arr (items_of num (options_to_indexes options)))
        ∷ (codes "user", user_json u)
        ∷ []))

abbrev pub creator_json : TranslateContext → ℤ → Json
creator_json t id = user_pointer_json (Option.map user_from_obj (t.users id))

abbrev pub invite_json : TranslateContext → Option Invite → Option Json
invite_json t none = none
invite_json t (some inv) = some (
    object (
      (codes "invite_link", str inv.link)
      ∷ (codes "creator", creator_json t inv.admin_id)
      ∷ (codes "is_primary", bool inv.permanent)
      ∷ (codes "is_revoked", bool inv.revoked)
      ∷ []))

-- The maps are read once the chat has been looked up.
abbrev pub requested :
    (peer : Option Peer) (date user_id : ℤ) (about : Bytes) (invite : Option Invite) (c : Chat)
    → Action Fields
requested peer date user_id about invite c t = (
  put_some (codes "invite_link") (invite_json t invite) (
      fields_of (
        (codes "chat", chat_json c)
        ∷ (codes "user_chat_id", num (peer_to_user_id peer))
        ∷ (codes "date", num date)
        ∷ (codes "bio", str about)
        ∷ (codes "from", user_json (mapped_user t user_id))
        ∷ [])),
  t,
)

unfoldable pub join_request :
    (peer : Option Peer) (date user_id : ℤ) (about : Bytes) (invite : Option Invite) → Action Fields
unfolding put
join_request peer date user_id about invite =
    chat_from_peer_ctx peer >>= requested peer date user_id about invite

-- The member of the envelope that names who reacted.
abbrev pub actor_member : Option Peer → Fields → Action Fields
actor_member none fs = pure fs
actor_member (some (peer_user id)) fs =
    user_by_id id >>= λ u. pure (put (codes "user") (user_json u) fs)
actor_member (some (peer_chat id)) fs = chat_from_peer_ctx (some (peer_chat id)) >>= λ c.
    pure (put (codes "actor_chat") (chat_json c) fs)
actor_member (some (peer_channel id)) fs = chat_from_peer_ctx (some (peer_channel id)) >>= λ c.
    pure (put (codes "actor_chat") (chat_json c) fs)

unfoldable pub message_reaction :
    (peer : Option Peer) (msg_id date : ℤ) (actor : Option Peer) (old new : List Reaction)
    → Action Fields
unfolding put
message_reaction peer msg_id date actor old new = do
  c ← chat_from_peer_ctx peer
  actor_member actor (
      fields_of (
        (codes "chat", chat_json c)
        ∷ (codes "message_id", num msg_id)
        ∷ (codes "date", num date)
        ∷ (codes "old_reaction", arr (reactions_to_bot_api old))
        ∷ (codes "new_reaction", arr (reactions_to_bot_api new))
        ∷ []))

unfoldable pub message_reaction_count :
    (peer : Option Peer) (msg_id date : ℤ) (reactions : List (Option ReactionCount)) → Action Fields
message_reaction_count peer msg_id date reactions = do
  c ← chat_from_peer_ctx peer
  pure (
      fields_of (
        (codes "chat", chat_json c)
        ∷ (codes "message_id", num msg_id)
        ∷ (codes "date", num date)
        ∷ (codes "reactions", arr (reaction_counts_to_bot_api reactions))
        ∷ []))

unfoldable pub chat_boost : Option Peer → Option Boost → Action Fields
chat_boost peer boost = do
  c ← chat_from_peer_ctx peer
  pure (
      fields_of (
        (codes "chat", chat_json c)
        ∷ (
          codes "boost",
          object (
              (codes "add_date", num (boost_add_date boost))
              ∷ (codes "expiration_date", num (boost_expire_date boost))
              ∷ (codes "boost_id", str (boost_id boost))
              ∷ []),
        )
        ∷ []))

unfoldable pub business_connection : Connection → Fields
business_connection c = fields_of (
    (codes "id", str c.connection_id)
    ∷ (codes "user", user_json (user_of_id c.user_id))
    ∷ (codes "user_chat_id", num c.user_id)
    ∷ (codes "date", num c.date)
    ∷ (codes "is_enabled", bool (not c.disabled))
    ∷ [])

unfoldable pub deleted_messages :
    (connection_id : Bytes) (peer : Option Peer) (messages : List ℤ) → Action Fields
deleted_messages id peer messages = do
  c ← chat_from_peer_ctx peer
  pure (
      fields_of (
        (codes "business_connection_id", str id)
        ∷ (codes "chat", chat_json c)
        ∷ (codes "message_ids", arr (items_of num messages))
        ∷ []))

unfoldable pub purchased_media : (user_id : ℤ) (payload : Bytes) → Fields
purchased_media user_id payload = fields_of (
    (codes "from", user_json (user_of_id user_id)) ∷ (codes "paid_media_payload", str payload) ∷ [])
