-- ===== src/Tlate/Updates/Order.antt =====
-- Updates that are translated one after the other in one context, as getUpdates and the webhook do.
use tgbotd.Prelude.{
  ap, fun_ext, ◌≡◌, refl, sym, ◌∙◌, List, [], ◌∷◌, Option, none, some, Bool, true, false,
  if◌then◌else◌,
}
use tgbotd.Prelude.Bytes.{Bytes}
use tgbotd.Prelude.Int.{ℤ}
use tgbotd.Json.{Fields}
use tgbotd.Botapi.Types.{Update, Message}
use tgbotd.Tlate.Telegram.{
  KeyboardButton, Peer, peer_user, peer_chat, peer_channel, MessageObj, ChatObj, UserObj,
}
use tgbotd.Tlate.Telegram.Incoming.{
  TgUpdate, update_new_message, update_new_channel_message, update_edit_message,
  update_edit_channel_message, update_bot_callback_query, update_inline_bot_callback_query,
  update_bot_inline_query, update_bot_inline_send, update_message_poll, update_message_poll_vote,
  update_channel_participant, update_chat_participant, update_bot_chat_invite_requester,
  update_bot_message_reaction, update_bot_message_reactions, update_bot_chat_boost,
  update_bot_business_connect, update_bot_new_business_message, update_bot_edit_business_message,
  update_bot_delete_business_message, update_bot_purchased_paid_media, other_update,
}
use tgbotd.Tlate.Context.{TranslateContext, Action, ◌>>=◌}
use tgbotd.Tlate.Context.Laws.{
  Agrees, Agrees-refl, Agrees-trans, IsTransparent, pure-IsTransparent, chat-IsTransparent,
  then_pure-IsTransparent,
}
use tgbotd.Tlate.Chats.{
  is_broadcast, is_broadcast_channel, chat_from_peer_ctx, user_by_id, peer_to_user_id,
}
use tgbotd.Tlate.Messages.Laws.{
  chat_from_peer_ctx-IsTransparent, user_by_id-IsTransparent,
  message_obj_to_bot_api_ctx-IsTransparent,
}
use tgbotd.Tlate.Updates.{
  as_message, as_edited, as_post, as_edited_post, as_business, as_edited_business, is_channel_peer,
  translated, unless_out, business, filled, unless_empty, update_to_bot_api,
}
use tgbotd.Tlate.Updates.Envelopes.{
  poll_answer, join_request, actor_member, message_reaction, message_reaction_count, chat_boost,
  deleted_messages,
}

abbrev pub Keeps {ℓ} : {A : Type ℓ} → Action A → Type 0
Keeps m = (t : TranslateContext) → Agrees (m t).1 t

bind-Keeps :
    {A B : Type 0} (m : Action A) (f : A → Action B)
    → Keeps m
    → ((a : A) → Keeps (f a))
    → Keeps (m >>= f)
bind-Keeps m f h k t = Agrees-trans _ _ _ (k (m t).0 (m t).1) (h t)

chat_from_peer_ctx-Keeps : (p : Option Peer) → Keeps (chat_from_peer_ctx p)
chat_from_peer_ctx-Keeps p = (chat_from_peer_ctx-IsTransparent p).keeps

user_by_id-Keeps : (id : ℤ) → Keeps (user_by_id id)
user_by_id-Keeps id = (user_by_id-IsTransparent id).keeps

actor_member-Keeps : (p : Option Peer) (fs : Fields) → Keeps (actor_member p fs)
actor_member-Keeps none fs t = Agrees-refl t
actor_member-Keeps (some (peer_user id)) fs t = user_by_id-Keeps id t
actor_member-Keeps (some (peer_chat id)) fs t = chat_from_peer_ctx-Keeps (some (peer_chat id)) t
actor_member-Keeps (some (peer_channel id)) fs t =
    chat_from_peer_ctx-Keeps (some (peer_channel id)) t

abbrev pub reference_broadcast : (ℤ → Option ChatObj) → Option Peer → Bool
reference_broadcast chats (some (peer_channel id)) = is_broadcast (chats id)
reference_broadcast chats (some (peer_user id)) = false
reference_broadcast chats (some (peer_chat id)) = false
reference_broadcast chats none = false

pub is_broadcast_channel-IsTransparent :
    (p : Option Peer)
    → IsTransparent (is_broadcast_channel p) (λ us cs self. reference_broadcast cs p)
unfolding is_broadcast_channel
is_broadcast_channel-IsTransparent (some (peer_user id)) = pure-IsTransparent false
is_broadcast_channel-IsTransparent (some (peer_chat id)) = pure-IsTransparent false
is_broadcast_channel-IsTransparent (some (peer_channel id)) =
    then_pure-IsTransparent _ is_broadcast _ (chat-IsTransparent id)
is_broadcast_channel-IsTransparent none = pure-IsTransparent false

module _ (get_text : KeyboardButton → Option Bytes) where
  translated-Keeps : (f : Message → Update) (m : MessageObj) → Keeps (translated get_text f m)
  translated-Keeps f m t = (message_obj_to_bot_api_ctx-IsTransparent get_text m).keeps t

  unless_out-Keeps :
      (b : Bool) (a : Action (Option Update)) → Keeps a → Keeps (unless_out get_text b a)
  unless_out-Keeps true a h t = Agrees-refl t
  unless_out-Keeps false a h t = h t

  posted-Keeps :
      (f : Bool → Message → Update) (m : MessageObj)
      → Keeps (is_broadcast_channel m.peer_id >>= λ b. translated get_text (f b) m)
  posted-Keeps f m =
      bind-Keeps (is_broadcast_channel m.peer_id) (λ b. translated get_text (f b) m)
        (is_broadcast_channel-IsTransparent m.peer_id).keeps (λ b. translated-Keeps (f b) m)

  business-Keeps : (f : Message → Update) (m : Option MessageObj) → Keeps (business get_text f m)
  business-Keeps f none t = Agrees-refl t
  business-Keeps f (some m) t = translated-Keeps f m t

  filled-Keeps : (u : TgUpdate) → Keeps (filled get_text u)
  unfolding filled poll_answer join_request message_reaction message_reaction_count chat_boost
      deleted_messages
  filled-Keeps (update_new_message none) t = Agrees-refl t
  filled-Keeps (update_new_message (some m)) t =
      unless_out-Keeps m.out _
        (translated-Keeps (if is_channel_peer m.peer_id then as_post else as_message) m) t
  filled-Keeps (update_new_channel_message none) t = Agrees-refl t
  filled-Keeps (update_new_channel_message (some m)) t =
      unless_out-Keeps m.out _ (posted-Keeps (λ b. if b then as_post else as_message) m) t
  filled-Keeps (update_edit_message none) t = Agrees-refl t
  filled-Keeps (update_edit_message (some m)) t =
      unless_out-Keeps m.out _ (translated-Keeps as_edited m) t
  filled-Keeps (update_edit_channel_message none) t = Agrees-refl t
  filled-Keeps (update_edit_channel_message (some m)) t =
      unless_out-Keeps m.out _ (posted-Keeps (λ b. if b then as_edited_post else as_edited) m) t
  filled-Keeps (update_bot_callback_query query_id user_id inst payload game) t = Agrees-refl t
  filled-Keeps (update_inline_bot_callback_query query_id user_id inst payload id) t = Agrees-refl t
  filled-Keeps (update_bot_inline_query query_id user_id query offset geo kind) t = Agrees-refl t
  filled-Keeps (update_bot_inline_send id query user_id msg_id geo) t = Agrees-refl t
  filled-Keeps (update_message_poll none results) t = Agrees-refl t
  filled-Keeps (update_message_poll (some p) results) t = Agrees-refl t
  filled-Keeps (update_message_poll_vote poll_id peer options) t =
      user_by_id-Keeps (peer_to_user_id peer) t
  filled-Keeps (update_channel_participant date id actor user prev next invite) t = Agrees-refl t
  filled-Keeps (update_chat_participant date id actor user prev next invite) t = Agrees-refl t
  filled-Keeps (update_bot_chat_invite_requester peer date user about invite) t =
      chat_from_peer_ctx-Keeps peer t
  filled-Keeps (update_bot_message_reaction peer msg_id date actor old new) t =
      Agrees-trans _ _ _ (actor_member-Keeps actor _ (chat_from_peer_ctx peer t).1)
        (chat_from_peer_ctx-Keeps peer t)
  filled-Keeps (update_bot_message_reactions peer msg_id date reactions) t =
      chat_from_peer_ctx-Keeps peer t
  filled-Keeps (update_bot_chat_boost peer boost) t = chat_from_peer_ctx-Keeps peer t
  filled-Keeps (update_bot_business_connect none) t = Agrees-refl t
  filled-Keeps (update_bot_business_connect (some c)) t = Agrees-refl t
  filled-Keeps (update_bot_new_business_message m) t = business-Keeps as_business m t
  filled-Keeps (update_bot_edit_business_message m) t = business-Keeps as_edited_business m t
  filled-Keeps (update_bot_delete_business_message id peer messages) t =
      chat_from_peer_ctx-Keeps peer t
  filled-Keeps (update_bot_purchased_paid_media user payload) t = Agrees-refl t
  filled-Keeps other_update t = Agrees-refl t

  pub update_to_bot_api-Keeps : (u : Option TgUpdate) → Keeps (update_to_bot_api get_text u)
  unfolding update_to_bot_api
  update_to_bot_api-Keeps none t = Agrees-refl t
  update_to_bot_api-Keeps (some u) t = filled-Keeps u t

-- The results alike in contexts that answer alike.
abbrev pub IsSame {ℓ} : {A : Type ℓ} → Action A → Type ℓ
IsSame m = (s t : TranslateContext) → Agrees s t → (m s).0 ≡ (m t).0

Agrees-sym : (s t : TranslateContext) → Agrees s t → Agrees t s
Agrees-sym s t h = record {
  same_self = sym h.same_self;
  same_users = λ id. sym (h.same_users id);
  same_chats = λ id. sym (h.same_chats id);
}

Agrees-after :
    {A : Type 0} (m : Action A) (s t : TranslateContext)
    → Keeps m
    → Agrees s t
    → Agrees (m s).1 (m t).1
Agrees-after m s t k h = Agrees-trans _ _ _ (k s) (Agrees-trans _ _ _ h (Agrees-sym _ _ (k t)))

bind-IsSame :
    {A B : Type 0} (m : Action A) (f : A → Action B)
    → Keeps m
    → IsSame m
    → ((a : A) → IsSame (f a))
    → IsSame (m >>= f)
bind-IsSame m f k h j s t e =
    ap (λ a. (f a (m s).1).0) (h s t e) ∙ j (m t).0 (m s).1 (m t).1 (Agrees-after m s t k e)

IsTransparent-IsSame :
    {A : Type 0} (m : Action A) (ref : (ℤ → Option UserObj) → (ℤ → Option ChatObj) → ℤ → A)
    → IsTransparent m ref
    → IsSame m
IsTransparent-IsSame m ref h s t e =
    h.returns s ∙ rw (fun_ext e.same_users, fun_ext e.same_chats, e.same_self) (sym (h.returns t))

-- The updates that carry a message.
pub data HoldsMessage : TgUpdate → Type 0 where
  holds_new : (m : Option MessageObj) → HoldsMessage (update_new_message m)
  holds_new_channel : (m : Option MessageObj) → HoldsMessage (update_new_channel_message m)
  holds_edit : (m : Option MessageObj) → HoldsMessage (update_edit_message m)
  holds_edit_channel : (m : Option MessageObj) → HoldsMessage (update_edit_channel_message m)
  holds_new_business : (m : Option MessageObj) → HoldsMessage (update_bot_new_business_message m)
  holds_edit_business : (m : Option MessageObj) → HoldsMessage (update_bot_edit_business_message m)

module _ (get_text : KeyboardButton → Option Bytes) where
  translated-IsSame : (f : Message → Update) (m : MessageObj) → IsSame (translated get_text f m)
  translated-IsSame f m s t e =
      ap (λ bm. some (f bm))
        (IsTransparent-IsSame _ _ (message_obj_to_bot_api_ctx-IsTransparent get_text m) s t e)

  unless_out-IsSame :
      (b : Bool) (a : Action (Option Update)) → IsSame a → IsSame (unless_out get_text b a)
  unless_out-IsSame true a h s t e = refl
  unless_out-IsSame false a h s t e = h s t e

  posted-IsSame :
      (f : Bool → Message → Update) (m : MessageObj)
      → IsSame (is_broadcast_channel m.peer_id >>= λ b. translated get_text (f b) m)
  posted-IsSame f m =
      let h = is_broadcast_channel-IsTransparent m.peer_id in
      bind-IsSame (is_broadcast_channel m.peer_id) (λ b. translated get_text (f b) m) h.keeps
        (IsTransparent-IsSame _ _ h) (λ b. translated-IsSame (f b) m)

  business-IsSame : (f : Message → Update) (m : Option MessageObj) → IsSame (business get_text f m)
  business-IsSame f none s t e = refl
  business-IsSame f (some m) s t e = translated-IsSame f m s t e

  filled-IsSame : {u : TgUpdate} → HoldsMessage u → IsSame (filled get_text u)
  unfolding filled
  filled-IsSame (holds_new none) s t e = refl
  filled-IsSame (holds_new (some m)) s t e =
      unless_out-IsSame m.out _
        (translated-IsSame (if is_channel_peer m.peer_id then as_post else as_message) m) s t e
  filled-IsSame (holds_new_channel none) s t e = refl
  filled-IsSame (holds_new_channel (some m)) s t e =
      unless_out-IsSame m.out _ (posted-IsSame (λ b. if b then as_post else as_message) m) s t e
  filled-IsSame (holds_edit none) s t e = refl
  filled-IsSame (holds_edit (some m)) s t e =
      unless_out-IsSame m.out _ (translated-IsSame as_edited m) s t e
  filled-IsSame (holds_edit_channel none) s t e = refl
  filled-IsSame (holds_edit_channel (some m)) s t e =
      unless_out-IsSame m.out _ (posted-IsSame (λ b. if b then as_edited_post else as_edited) m) s t
        e
  filled-IsSame (holds_new_business m) s t e = business-IsSame as_business m s t e
  filled-IsSame (holds_edit_business m) s t e = business-IsSame as_edited_business m s t e

  -- The context after the updates `us` were translated in it.
  abbrev pub after_updates : List (Option TgUpdate) → TranslateContext → TranslateContext
  after_updates [] t = t
  after_updates (u ∷ us) t = after_updates us (update_to_bot_api get_text u t).1

  after_updates-Agrees :
      (us : List (Option TgUpdate)) (t : TranslateContext) → Agrees (after_updates us t) t
  after_updates-Agrees [] t = Agrees-refl t
  after_updates-Agrees (u ∷ us) t =
      Agrees-trans _ _ _ (after_updates-Agrees us _) (update_to_bot_api-Keeps get_text u t)

  -- What an update with a message is translated to does not depend on the updates that were
  -- translated before it in the same context.
  pub update_to_bot_api-after_updates :
      (us : List (Option TgUpdate)) (u : TgUpdate) (t : TranslateContext)
      → HoldsMessage u
      → (update_to_bot_api get_text (some u) (after_updates us t)).0
        ≡ (update_to_bot_api get_text (some u) t).0
  unfolding update_to_bot_api
  update_to_bot_api-after_updates us u t h =
      ap (unless_empty get_text) (filled-IsSame h _ t (after_updates-Agrees us t))
