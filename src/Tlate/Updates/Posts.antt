-- ===== src/Tlate/Updates/Posts.antt =====
-- `UpdateNewChannelMessage` in internal/tlate/updates.go: where the message stands, and what its chat is.
use tgbotd.Prelude.{sym, ◌≡◌, refl, ◌∙◌, ap, Option, none, some, Bool, true, false, if◌then◌else◌}
use tgbotd.Prelude.Bytes.{Bytes, codes, bytes_eq}
use tgbotd.Prelude.Int.{ℤ}
use tgbotd.Botapi.Types.{Update, Message, Chat, User}
use tgbotd.Tlate.Telegram.{
  UserObj, Peer, peer_user, peer_chat, peer_channel, ChatObj, chat_obj, channel, other_chat,
  KeyboardButton, ReplyMarkup, MessageMedia, MessageObj,
}
use tgbotd.Tlate.Telegram.Incoming.{update_new_channel_message}
use tgbotd.Tlate.Context.{TranslateContext, ◌>>=◌}
use tgbotd.Tlate.Context.Laws.{
  known_user, known_chat, IsTransparent, bind-IsTransparent, then_pure-IsTransparent,
}
use tgbotd.Tlate.Chats.{private_chat, group_chat, channel_chat, is_broadcast, is_broadcast_channel}
use tgbotd.Tlate.Messages.{with_media, with_markup, built_message, message_obj_to_bot_api_ctx}
use tgbotd.Tlate.Messages.Laws.{
  reference_chat, reference_message, message_obj_to_bot_api_ctx-IsTransparent,
}
use tgbotd.Tlate.Media.Laws.{fill_media-chat}
use tgbotd.Tlate.Updates.{
  is_empty, as_message, as_post, translated, unless_out, filled, unless_empty, update_to_bot_api,
}
use tgbotd.Tlate.Updates.Order.{reference_broadcast, is_broadcast_channel-IsTransparent}

with_media-chat :
    (media : Option MessageMedia) (bm : Message) → (with_media media bm).chat ≡ bm.chat
with_media-chat none bm = refl
with_media-chat (some media) bm = fill_media-chat bm media

with_markup-chat :
    (get_text : KeyboardButton → Option Bytes) (rm : Option ReplyMarkup) (bm : Message)
    → (with_markup get_text rm bm).chat ≡ bm.chat
with_markup-chat get_text none bm = refl
with_markup-chat get_text (some rm) bm = refl

built_message-chat :
    (get_text : KeyboardButton → Option Bytes) (m : MessageObj) (c : Chat) (from : Option User)
    → (built_message get_text m c from).chat ≡ c
unfolding built_message
built_message-chat get_text m c from =
    with_markup-chat get_text m.reply_markup _ ∙ with_media-chat m.media _

abbrev pub is_channel_chat : Chat → Bool
is_channel_chat c = bytes_eq c.type (codes "channel")

channel_chat-type :
    (id : ℤ) (c : Option ChatObj) → is_channel_chat (channel_chat id c) ≡ is_broadcast c
unfolding bytes_eq
channel_chat-type id none = refl
channel_chat-type id (some (chat_obj title)) = refl
channel_chat-type id (some (channel title username forum true)) = refl
channel_chat-type id (some (channel title username forum false)) = refl
channel_chat-type id (some other_chat) = refl

group_chat-type : (id : ℤ) (c : Option ChatObj) → is_channel_chat (group_chat id c) ≡ false
unfolding bytes_eq
group_chat-type id none = refl
group_chat-type id (some (chat_obj title)) = refl
group_chat-type id (some (channel title username forum broadcast)) = refl
group_chat-type id (some other_chat) = refl

private_chat-type : (id : ℤ) (u : Option UserObj) → is_channel_chat (private_chat id u) ≡ false
unfolding bytes_eq
private_chat-type id none = refl
private_chat-type id (some u) = refl

reference_chat-type :
    (us : ℤ → Option UserObj) (cs : ℤ → Option ChatObj) (p : Option Peer)
    → is_channel_chat (reference_chat us cs p) ≡ reference_broadcast cs p
unfolding bytes_eq
reference_chat-type us cs (some (peer_user id)) = private_chat-type id (us id)
reference_chat-type us cs (some (peer_chat id)) = group_chat-type _ (cs id)
reference_chat-type us cs (some (peer_channel id)) = channel_chat-type _ (cs id)
reference_chat-type us cs none = refl

module _ (get_text : KeyboardButton → Option Bytes) where
  abbrev pub plain_message : MessageObj → TranslateContext → Message
  plain_message m t = reference_message (known_user t) (known_chat t) get_text t.self_id m

  plain_message-type :
      (m : MessageObj) (t : TranslateContext)
      → is_channel_chat (plain_message m t).chat ≡ reference_broadcast (known_chat t) m.peer_id
  unfolding reference_message
  plain_message-type m t =
      ap is_channel_chat (built_message-chat get_text m _ _)
      ∙ reference_chat-type (known_user t) (known_chat t) m.peer_id

  posted-IsTransparent :
      (f : Bool → Message → Update) (m : MessageObj)
      → IsTransparent
          (is_broadcast_channel m.peer_id >>= λ b. translated get_text (f b) m)
          (λ us cs self.
            some (f (reference_broadcast cs m.peer_id) (reference_message us cs get_text self m)))
  posted-IsTransparent f m =
      bind-IsTransparent _ _ _
        (λ b us cs self. some (f b (reference_message us cs get_text self m)))
        (is_broadcast_channel-IsTransparent m.peer_id)
        (λ b.
          then_pure-IsTransparent (message_obj_to_bot_api_ctx get_text m) (λ bm. some (f b bm)) _
            (message_obj_to_bot_api_ctx-IsTransparent get_text m))

  post_or_message-unless_empty :
      (b : Bool) (bm : Message)
      → unless_empty get_text (some ((if b then as_post else as_message) bm))
        ≡ some ((if b then as_post else as_message) bm)
  unfolding is_empty
  post_or_message-unless_empty true bm = refl
  post_or_message-unless_empty false bm = refl

  -- A new message of a channel or supergroup, not the bot's own, is delivered as the message that
  -- plain lookups make of it: as a channel post exactly if the type of its chat is "channel", and as a
  -- message otherwise.
  pub update_to_bot_api-as_post :
      (m : MessageObj) (t : TranslateContext)
      → m.out ≡ false
      → (update_to_bot_api get_text (some (update_new_channel_message (some m))) t).0
        ≡ some (
            (if is_channel_chat (plain_message m t).chat then as_post else as_message)
              (plain_message m t))
  unfolding update_to_bot_api filled
  update_to_bot_api-as_post m t h =
      let f = λ (b : Bool). if b then as_post else as_message in
      let bm = plain_message m t in
      let b = reference_broadcast (known_chat t) m.peer_id in
      ap
        (λ o.
          unless_empty get_text
            (unless_out get_text o
              (is_broadcast_channel m.peer_id >>= λ x. translated get_text (f x) m) t).0)
        h
      ∙ ap (unless_empty get_text) ((posted-IsTransparent f m).returns t)
      ∙ post_or_message-unless_empty b bm
      ∙ ap (λ x. some (f x bm)) (sym (plain_message-type m t))
