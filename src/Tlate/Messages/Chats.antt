-- ===== src/Tlate/Messages/Chats.antt =====
-- The chat of a translated message names its peer (internal/tlate/tlate.go).
use tgbotd.Prelude.{◌≡◌, refl, ◌∙◌, ap, Option, none, some}
use tgbotd.Prelude.Int.{ℤ, neg64, sub64}
use tgbotd.Botapi.Types.{Chat}
use tgbotd.Tlate.Telegram.{
  UserObj, Peer, peer_user, peer_chat, peer_channel, ChatObj, chat_obj, channel, other_chat,
}
use tgbotd.Tlate.Context.{TranslateContext}
use tgbotd.Tlate.Context.Laws.{known_user, known_chat}
use tgbotd.Tlate.Chats.{
  channel_base, peer_to_bot_api_chat_id, private_chat, group_chat, channel_chat, chat_from_peer_ctx,
}
use tgbotd.Tlate.Chats.Ids.{IsPeer, peer_of_id, peer_of_id-peer_to_bot_api_chat_id}
use tgbotd.Tlate.Messages.Laws.{reference_chat, chat_from_peer_ctx-IsTransparent}

private_chat-id : (id : ℤ) (u : Option UserObj) → (private_chat id u).id ≡ id
private_chat-id id none = refl
private_chat-id id (some u) = refl

group_chat-id : (id : ℤ) (c : Option ChatObj) → (group_chat id c).id ≡ id
group_chat-id id none = refl
group_chat-id id (some (chat_obj title)) = refl
group_chat-id id (some (channel title username forum broadcast)) = refl
group_chat-id id (some other_chat) = refl

channel_chat-id : (id : ℤ) (c : Option ChatObj) → (channel_chat id c).id ≡ id
channel_chat-id id none = refl
channel_chat-id id (some (chat_obj title)) = refl
channel_chat-id id (some (channel title username forum broadcast)) = refl
channel_chat-id id (some other_chat) = refl

reference_chat-id :
    (us : ℤ → Option UserObj) (cs : ℤ → Option ChatObj) (p : Peer)
    → (reference_chat us cs (some p)).id ≡ peer_to_bot_api_chat_id (some p)
unfolding peer_to_bot_api_chat_id
reference_chat-id us cs (peer_user id) = private_chat-id id (us id)
reference_chat-id us cs (peer_chat id) = group_chat-id (neg64 id) (cs id)
reference_chat-id us cs (peer_channel id) = channel_chat-id (sub64 channel_base id) (cs id)

-- The id of a translated chat determines its peer: a user's id is kept, a group's is negative, and a
-- channel's lies below -10^12, if the peer's own id is positive and below 2^62, and below 10^12 for a
-- group.
pub chat_from_peer_ctx-peer_of_id :
    (p : Peer) (t : TranslateContext)
    → IsPeer p
    → peer_of_id (chat_from_peer_ctx (some p) t).0.id ≡ p
chat_from_peer_ctx-peer_of_id p t h =
    ap (λ c. peer_of_id (Chat.id c)) ((chat_from_peer_ctx-IsTransparent (some p)).returns t)
    ∙ ap peer_of_id (reference_chat-id (known_user t) (known_chat t) p)
    ∙ peer_of_id-peer_to_bot_api_chat_id p h
