-- ===== src/Tlate/Messages/Laws.antt =====
-- `MessageObjToBotAPICtx` of internal/tlate/tlate.go and a translation that keeps no answers.
use tgbotd.Prelude.{◌≡◌, [], Option, none, some, Bool, true, false}
use tgbotd.Prelude.Bytes.{Bytes}
use tgbotd.Prelude.Int.{ℤ, pos, neg64, sub64}
use tgbotd.Botapi.Types.{User, Message, Chat, user_of_id, chat_of}
use tgbotd.Tlate.Telegram.{
  UserObj, ChatObj, Peer, peer_user, peer_chat, peer_channel, KeyboardButton, MessageObj,
}
use tgbotd.Tlate.Context.{TranslateContext, pure, ◌>>=◌, int_eq}
use tgbotd.Tlate.Context.Laws.{
  known_user, known_chat, Agrees, IsTransparent, pure-IsTransparent, bind-IsTransparent,
  user-IsTransparent, chat-IsTransparent, then_pure-IsTransparent,
}
use tgbotd.Tlate.Chats.{
  channel_base, private_chat, group_chat, channel_chat, chat_from_peer_ctx, user_or, user_by_id,
}
use tgbotd.Tlate.Messages.{
  bot_of_id, self_if_known, sender, built_message, message_obj_to_bot_api_ctx,
}

module _ (users : ℤ → Option UserObj) (chats : ℤ → Option ChatObj) where
  abbrev pub reference_chat : Option Peer → Chat
  reference_chat (some (peer_user id)) = private_chat id (users id)
  reference_chat (some (peer_chat id)) = group_chat (neg64 id) (chats id)
  reference_chat (some (peer_channel id)) = channel_chat (sub64 channel_base id) (chats id)
  reference_chat none = chat_of (pos 0) []

  abbrev pub reference_user : ℤ → User
  reference_user id = user_or (user_of_id id) (users id)

  abbrev pub reference_self : Bool → ℤ → Option User
  reference_self true id = none
  reference_self false id = some (user_or (bot_of_id id) (users id))

  abbrev pub reference_sender : ℤ → Bool → Option Peer → Option Peer → Option User
  reference_sender self true from peer = reference_self (int_eq self (pos 0)) self
  reference_sender self false (some (peer_user id)) peer = some (reference_user id)
  reference_sender self false (some (peer_chat id)) peer = none
  reference_sender self false (some (peer_channel id)) peer = none
  reference_sender self false none (some (peer_user id)) = some (reference_user id)
  reference_sender self false none (some (peer_chat id)) = none
  reference_sender self false none (some (peer_channel id)) = none
  reference_sender self false none none = none

  -- The message in the chat that the peer names, from the sender that the fields name.
  unfoldable pub reference_message : (KeyboardButton → Option Bytes) → ℤ → MessageObj → Message
  reference_message get_text self m =
      built_message get_text m (reference_chat m.peer_id)
        (reference_sender self m.out m.from_id m.peer_id)

pub chat_from_peer_ctx-IsTransparent :
    (p : Option Peer) → IsTransparent (chat_from_peer_ctx p) (λ us cs self. reference_chat us cs p)
unfolding chat_from_peer_ctx
chat_from_peer_ctx-IsTransparent (some (peer_user id)) =
    then_pure-IsTransparent _ (private_chat id) _ (user-IsTransparent id)
chat_from_peer_ctx-IsTransparent (some (peer_chat id)) =
    then_pure-IsTransparent _ (group_chat (neg64 id)) _ (chat-IsTransparent id)
chat_from_peer_ctx-IsTransparent (some (peer_channel id)) =
    then_pure-IsTransparent _ (channel_chat (sub64 channel_base id)) _ (chat-IsTransparent id)
chat_from_peer_ctx-IsTransparent none = pure-IsTransparent _

pub user_by_id-IsTransparent :
    (id : ℤ) → IsTransparent (user_by_id id) (λ us cs self. reference_user us cs id)
user_by_id-IsTransparent id =
    then_pure-IsTransparent _ (user_or (user_of_id id)) _ (user-IsTransparent id)

some_user-IsTransparent :
    (id : ℤ)
    → IsTransparent
        (user_by_id id >>= λ u. pure (some u))
        (λ us cs self. some (reference_user us cs id))
some_user-IsTransparent id = then_pure-IsTransparent _ some _ (user_by_id-IsTransparent id)

self_if_known-IsTransparent :
    (b : Bool) (id : ℤ)
    → IsTransparent (self_if_known b id) (λ us cs self. reference_self us cs b id)
self_if_known-IsTransparent true id = pure-IsTransparent none
self_if_known-IsTransparent false id =
    then_pure-IsTransparent _ (λ u. some (user_or (bot_of_id id) u)) _ (user-IsTransparent id)

sender-IsTransparent :
    (out : Bool) (from peer : Option Peer)
    → IsTransparent (sender out from peer) (λ us cs self. reference_sender us cs self out from peer)
unfolding sender
sender-IsTransparent true from peer = record {
  returns = λ t. (self_if_known-IsTransparent (int_eq t.self_id (pos 0)) t.self_id).returns t;
  keeps = λ t. (self_if_known-IsTransparent (int_eq t.self_id (pos 0)) t.self_id).keeps t;
}
sender-IsTransparent false (some (peer_user id)) peer = some_user-IsTransparent id
sender-IsTransparent false (some (peer_chat id)) peer = pure-IsTransparent none
sender-IsTransparent false (some (peer_channel id)) peer = pure-IsTransparent none
sender-IsTransparent false none (some (peer_user id)) = some_user-IsTransparent id
sender-IsTransparent false none (some (peer_chat id)) = pure-IsTransparent none
sender-IsTransparent false none (some (peer_channel id)) = pure-IsTransparent none
sender-IsTransparent false none none = pure-IsTransparent none

pub message_obj_to_bot_api_ctx-IsTransparent :
    (get_text : KeyboardButton → Option Bytes) (m : MessageObj)
    → IsTransparent
        (message_obj_to_bot_api_ctx get_text m)
        (λ us cs self. reference_message us cs get_text self m)
unfolding message_obj_to_bot_api_ctx reference_message
message_obj_to_bot_api_ctx-IsTransparent get_text m =
    bind-IsTransparent _ _ _
      (λ c us cs self.
        built_message get_text m c (reference_sender us cs self m.out m.from_id m.peer_id))
      (chat_from_peer_ctx-IsTransparent m.peer_id)
      (λ c.
        then_pure-IsTransparent _ (built_message get_text m c) _
          (sender-IsTransparent m.out m.from_id m.peer_id))

-- Whatever answers the context keeps, the translation of a message is the one made with plain
-- lookups, and the context that it leaves answers every question as before.
pub message_obj_to_bot_api_ctx-reference_message :
    (get_text : KeyboardButton → Option Bytes) (m : MessageObj) (t : TranslateContext)
    → ((message_obj_to_bot_api_ctx get_text m t).0
        ≡ reference_message (known_user t) (known_chat t) get_text t.self_id m)
      × Agrees (message_obj_to_bot_api_ctx get_text m t).1 t
message_obj_to_bot_api_ctx-reference_message get_text m t =
    let h = message_obj_to_bot_api_ctx-IsTransparent get_text m in (h.returns t, h.keeps t)
