-- ===== src/Tlate/Updates/Fields.antt =====
-- Which fields of an update `UpdateToBotAPI` (internal/tlate/updates.go) sets.
use tgbotd.Prelude.{
  subst, ◌≢◌, ℕ, ◌+◌, ◌≤◌, ◌≡◌, refl, Option, none, some, Bool, true, false, if◌then◌else◌, arith,
  Bool-cases, inl, inr,
}
use tgbotd.Prelude.Bytes.{Bytes}
use mathlib.Core.Option.{some-injective}
use tgbotd.Json.{obj, json_marshal, Json}
use tgbotd.Botapi.Types.{Update, Message, empty_update}
use tgbotd.Tlate.Telegram.{KeyboardButton}
use tgbotd.Tlate.Telegram.Incoming.{
  TgUpdate, update_new_message, update_new_channel_message, update_edit_message,
  update_edit_channel_message, update_bot_callback_query, update_inline_bot_callback_query,
  update_bot_inline_query, update_bot_inline_send, update_message_poll, update_message_poll_vote,
  update_channel_participant, update_chat_participant, update_bot_chat_invite_requester,
  update_bot_message_reaction, update_bot_message_reactions, update_bot_chat_boost,
  update_bot_business_connect, update_bot_new_business_message, update_bot_edit_business_message,
  update_bot_delete_business_message, update_bot_purchased_paid_media, other_update,
}
use tgbotd.Tlate.Context.{TranslateContext, Action}
use tgbotd.Tlate.Chats.{is_broadcast_channel}
use tgbotd.Tlate.Updates.{
  is_none, is_empty, as_message, as_edited, as_post, as_edited_post, is_channel_peer, unless_out,
  filled, unless_empty, update_to_bot_api,
}
use tgbotd.Tlate.Updates.Envelopes.{chosen_result}

abbrev pub count {ℓ} : {A : Type ℓ} → Option A → ℕ
count none = 0
count (some a) = 1

-- How many of the optional fields of the Bot API's update are there, also of those that `isEmpty` does
-- not look at.
abbrev pub field_count : Update → ℕ
field_count u =
    count u.message
    + count u.edited_message
    + count u.channel_post
    + count u.edited_channel_post
    + count u.business_connection
    + count u.business_message
    + count u.edited_business_message
    + count u.deleted_business_messages
    + count u.guest_message
    + count u.message_reaction
    + count u.message_reaction_count
    + count u.inline_query
    + count u.chosen_inline_result
    + count u.callback_query
    + count u.shipping_query
    + count u.pre_checkout_query
    + count u.purchased_paid_media
    + count u.poll
    + count u.poll_answer
    + count u.my_chat_member
    + count u.chat_member
    + count u.chat_join_request
    + count u.chat_boost
    + count u.removed_chat_boost
    + count u.managed_bot
    + count u.subscription

count_zero : {A : Type 0} (o : Option A) → count o ≡ 0 → is_none o ≡ true
count_zero none h = refl
count_zero (some a) h = absurd (omega arith)

no_fields-is_empty : (u : Update) → field_count u ≡ 0 → is_empty u ≡ true
unfolding is_empty
no_fields-is_empty u h = rw (
  count_zero u.message (omega arith),
  count_zero u.edited_message (omega arith),
  count_zero u.channel_post (omega arith),
  count_zero u.edited_channel_post (omega arith),
  count_zero u.callback_query (omega arith),
  count_zero u.inline_query (omega arith),
  count_zero u.poll (omega arith),
  count_zero u.business_message (omega arith),
  count_zero u.edited_business_message (omega arith),
  count_zero u.guest_message (omega arith),
  count_zero u.chosen_inline_result (omega arith),
  count_zero u.poll_answer (omega arith),
  count_zero u.chat_member (omega arith),
  count_zero u.chat_join_request (omega arith),
  count_zero u.message_reaction (omega arith),
  count_zero u.message_reaction_count (omega arith),
  count_zero u.chat_boost (omega arith),
  count_zero u.business_connection (omega arith),
  count_zero u.deleted_business_messages (omega arith),
  count_zero u.purchased_paid_media (omega arith),
)

abbrev AtMostOne : Option Update → Type 0
AtMostOne none = Unit
AtMostOne (some u) = field_count u ≤ 1

chosen-AtMostOne :
    (j : Option Json) → field_count (record empty_update { chosen_inline_result = j }) ≤ 1
chosen-AtMostOne none = omega arith
chosen-AtMostOne (some j) = omega arith

-- The fields for a message, by a Boolean.
choice-AtMostOne :
    (b : Bool) (f g : Message → Update) (m : Message)
    → field_count (f m) ≤ 1
    → field_count (g m) ≤ 1
    → field_count ((if b then f else g) m) ≤ 1
choice-AtMostOne true f g m hf hg = hf
choice-AtMostOne false f g m hf hg = hg

one_of : (n : ℕ) → n ≤ 1 → n ≢ 0 → n ≡ 1
one_of n h k = omega arith

not_both : (b : Bool) → b ≡ true → b ≡ false → ⊥
not_both b h k = cc

module _ (get_text : KeyboardButton → Option Bytes) where
  unless_out-AtMostOne :
      (b : Bool) (a : Action (Option Update)) (t : TranslateContext)
      → AtMostOne (a t).0
      → AtMostOne (unless_out get_text b a t).0
  unless_out-AtMostOne true a t h = tt
  unless_out-AtMostOne false a t h = h

  filled-AtMostOne : (u : TgUpdate) (t : TranslateContext) → AtMostOne (filled get_text u t).0
  unfolding filled
  filled-AtMostOne (update_new_message none) t = omega arith
  filled-AtMostOne (update_new_message (some m)) t = unless_out-AtMostOne m.out _ t (
      choice-AtMostOne (is_channel_peer m.peer_id) as_post as_message _ (omega arith) (omega arith))
  filled-AtMostOne (update_new_channel_message none) t = omega arith
  filled-AtMostOne (update_new_channel_message (some m)) t = unless_out-AtMostOne m.out _ t (
      choice-AtMostOne (is_broadcast_channel m.peer_id t).0 as_post as_message _ (omega arith)
        (omega arith))
  filled-AtMostOne (update_edit_message none) t = omega arith
  filled-AtMostOne (update_edit_message (some m)) t = unless_out-AtMostOne m.out _ t (omega arith)
  filled-AtMostOne (update_edit_channel_message none) t = omega arith
  filled-AtMostOne (update_edit_channel_message (some m)) t = unless_out-AtMostOne m.out _ t (
      choice-AtMostOne (is_broadcast_channel m.peer_id t).0 as_edited_post as_edited _ (omega arith)
        (omega arith))
  filled-AtMostOne (update_bot_callback_query query_id user_id inst payload game) t = omega arith
  filled-AtMostOne (update_inline_bot_callback_query query_id user_id inst payload id) t =
      omega arith
  filled-AtMostOne (update_bot_inline_query query_id user_id query offset geo kind) t = omega arith
  filled-AtMostOne (update_bot_inline_send id query user_id msg_id geo) t =
      chosen-AtMostOne (json_marshal (obj (chosen_result t id query user_id msg_id geo)))
  filled-AtMostOne (update_message_poll none results) t = omega arith
  filled-AtMostOne (update_message_poll (some p) results) t = omega arith
  filled-AtMostOne (update_message_poll_vote poll_id peer options) t = omega arith
  filled-AtMostOne (update_channel_participant date id actor user prev next invite) t = omega arith
  filled-AtMostOne (update_chat_participant date id actor user prev next invite) t = omega arith
  filled-AtMostOne (update_bot_chat_invite_requester peer date user about invite) t = omega arith
  filled-AtMostOne (update_bot_message_reaction peer msg_id date actor old new) t = omega arith
  filled-AtMostOne (update_bot_message_reactions peer msg_id date reactions) t = omega arith
  filled-AtMostOne (update_bot_chat_boost peer boost) t = omega arith
  filled-AtMostOne (update_bot_business_connect none) t = omega arith
  filled-AtMostOne (update_bot_business_connect (some c)) t = omega arith
  filled-AtMostOne (update_bot_new_business_message none) t = omega arith
  filled-AtMostOne (update_bot_new_business_message (some m)) t = omega arith
  filled-AtMostOne (update_bot_edit_business_message none) t = omega arith
  filled-AtMostOne (update_bot_edit_business_message (some m)) t = omega arith
  filled-AtMostOne (update_bot_delete_business_message id peer messages) t = omega arith
  filled-AtMostOne (update_bot_purchased_paid_media user payload) t = omega arith
  filled-AtMostOne other_update t = tt

  unless_empty-field_count :
      (o : Option Update) (out : Update)
      → AtMostOne o
      → unless_empty get_text o ≡ some out
      → field_count out ≡ 1
  unless_empty-field_count none out h e = absurd (cc)
  unless_empty-field_count (some u) out h e = elim (Bool-cases (is_empty u)) [
    | inl empty ↦ absurd (ground arith)
    | inr filled ↦
        let same : u ≡ out = some-injective _ _ (rw filled at e) in
        let positive : field_count u ≢ 0 =
          λ z. not_both (is_empty u) (no_fields-is_empty u z) filled in
        subst (λ x. field_count x ≡ 1) same (one_of (field_count u) h positive)
  ]

  -- An update that is handed to a client carries exactly one of the Bot API's fields.
  pub update_to_bot_api-field_count :
      (u : Option TgUpdate) (t : TranslateContext) (out : Update)
      → (update_to_bot_api get_text u t).0 ≡ some out
      → field_count out ≡ 1
  unfolding update_to_bot_api
  update_to_bot_api-field_count none t out e = absurd (cc)
  update_to_bot_api-field_count (some u) t out e =
      unless_empty-field_count (filled get_text u t).0 out (filled-AtMostOne u t) e
