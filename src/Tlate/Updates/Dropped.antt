-- ===== src/Tlate/Updates/Dropped.antt =====
-- Which updates `UpdateToBotAPI` (internal/tlate/updates.go) answers nil for.
use tgbotd.Prelude.{
  ◌≡◌, refl, arith, ap, ◌∙◌, [], ◌∷◌, Option, none, some, Bool, true, false, not, ◌&&◌,
  if◌then◌else◌,
}
use tgbotd.Prelude.Bytes.{Bytes, bytes_eq}
use tgbotd.Prelude.Int.{ℤ}
use tgbotd.Json.{
  Json, obj, Fields, put, text_member, flag_member, is_finite_float, is_finite, is_finite_fields,
  json_marshal,
}
use tgbotd.Botapi.Types.{User, user_json, Message, Update, empty_update}
use tgbotd.Tlate.Telegram.{KeyboardButton, GeoPoint, MessageObj}
use tgbotd.Tlate.Telegram.Incoming.{
  TgUpdate, update_new_message, update_new_channel_message, update_edit_message,
  update_edit_channel_message, update_bot_callback_query, update_inline_bot_callback_query,
  update_bot_inline_query, update_bot_inline_send, update_message_poll, update_message_poll_vote,
  update_channel_participant, update_chat_participant, update_bot_chat_invite_requester,
  update_bot_message_reaction, update_bot_message_reactions, update_bot_chat_boost,
  update_bot_business_connect, update_bot_new_business_message, update_bot_edit_business_message,
  update_bot_delete_business_message, update_bot_purchased_paid_media, other_update,
}
use tgbotd.Tlate.Context.{TranslateContext, Action}
use tgbotd.Tlate.Chats.{is_broadcast_channel}
use tgbotd.Server.InlineId.{InlineMessageId}
use tgbotd.Tlate.Members.{mapped_user}
use tgbotd.Tlate.Messages.{message_obj_to_bot_api_ctx}
use tgbotd.Tlate.Updates.Envelopes.{chosen_result}
use tgbotd.Tlate.Updates.{
  is_none, is_empty, as_message, as_edited, as_post, as_edited_post, is_channel_peer, unless_out,
  filled, unless_empty, update_to_bot_api,
}

-- No message, or one of the bot's own.
abbrev pub own_or_none : Option MessageObj → Bool
own_or_none none = true
own_or_none (some m) = m.out

abbrev pub is_finite_point : Option GeoPoint → Bool
is_finite_point none = true
is_finite_point (some pt) = is_finite_float pt.lat && is_finite_float pt.long

-- Messages that are not there or are the bot's own, business messages, polls and business connections that are
-- not there, a chosen result with a place that JSON cannot say, and every other type of update.
abbrev pub is_dropped : TgUpdate → Bool
is_dropped (update_new_message m) = own_or_none m
is_dropped (update_new_channel_message m) = own_or_none m
is_dropped (update_edit_message m) = own_or_none m
is_dropped (update_edit_channel_message m) = own_or_none m
is_dropped (update_bot_inline_send id query user_id msg_id geo) = not (is_finite_point geo)
is_dropped (update_message_poll poll results) = is_none poll
is_dropped (update_bot_business_connect c) = is_none c
is_dropped (update_bot_new_business_message m) = is_none m
is_dropped (update_bot_edit_business_message m) = is_none m
is_dropped other_update = true
is_dropped _ = false

text_member-is_finite :
    (key s : Bytes) (fs : Fields) → is_finite_fields (text_member key s fs) ≡ is_finite_fields fs
unfolding is_finite_fields is_finite
text_member-is_finite key [] fs = refl
text_member-is_finite key (c ∷ s) fs = refl

flag_member-is_finite :
    (key : Bytes) (b : Bool) (fs : Fields)
    → is_finite_fields (flag_member key b fs) ≡ is_finite_fields fs
unfolding is_finite_fields is_finite
flag_member-is_finite key true fs = refl
flag_member-is_finite key false fs = refl

user_json-is_finite : (u : User) → is_finite (user_json u) ≡ true
unfolding user_json is_finite is_finite_fields
user_json-is_finite u = simp (text_member-is_finite, flag_member-is_finite)

choice-is_none :
    (get_text : KeyboardButton → Option Bytes) (b : Bool) (f g : Message → Update) (m : Message)
    → is_none (unless_empty get_text (some (f m))) ≡ false
    → is_none (unless_empty get_text (some (g m))) ≡ false
    → is_none (unless_empty get_text (some ((if b then f else g) m))) ≡ false
choice-is_none get_text true f g m hf hg = hf
choice-is_none get_text false f g m hf hg = hg

chosen_result-is_finite :
    (t : TranslateContext) (id query : Bytes) (user_id : ℤ) (msg_id : Option InlineMessageId)
    (geo : Option GeoPoint)
    → is_finite_fields (chosen_result t id query user_id msg_id geo) ≡ is_finite_point geo
unfolding chosen_result put bytes_eq is_finite is_finite_fields
chosen_result-is_finite t id query user_id none none =
    rw (user_json-is_finite (mapped_user t user_id)) refl
chosen_result-is_finite t id query user_id (some i) none =
    rw (user_json-is_finite (mapped_user t user_id)) refl
chosen_result-is_finite t id query user_id none (some pt) =
    rw (user_json-is_finite (mapped_user t user_id)) (ground arith)
chosen_result-is_finite t id query user_id (some i) (some pt) =
    rw (user_json-is_finite (mapped_user t user_id)) (ground arith)

chosen_lem :
    (b : Bool) (get_text : KeyboardButton → Option Bytes) (j : Json)
    → is_none (
        unless_empty get_text
          (some (record empty_update { chosen_inline_result = if b then some j else none })))
      ≡ not b
unfolding is_empty
chosen_lem true get_text j = refl
chosen_lem false get_text j = refl

module _ (get_text : KeyboardButton → Option Bytes) where
  unless_out-is_none :
      (b : Bool) (a : Action (Option Update)) (t : TranslateContext)
      → is_none (unless_empty get_text (a t).0) ≡ false
      → is_none (unless_empty get_text (unless_out get_text b a t).0) ≡ b
  unless_out-is_none true a t h = refl
  unless_out-is_none false a t h = h

  -- UpdateToBotAPI answers nil for the updates of `is_dropped`, and for no other, whatever the context holds:
  -- among them the new and edited messages of the bot's own, but not its business messages.
  pub update_to_bot_api-is_dropped :
      (u : TgUpdate) (t : TranslateContext)
      → is_none (update_to_bot_api get_text (some u) t).0 ≡ is_dropped u
  unfolding update_to_bot_api filled is_empty json_marshal is_finite is_finite_fields
  update_to_bot_api-is_dropped (update_new_message none) t = refl
  update_to_bot_api-is_dropped (update_new_message (some m)) t = unless_out-is_none m.out _ t (
      choice-is_none get_text (is_channel_peer m.peer_id) as_post as_message
        (message_obj_to_bot_api_ctx get_text m t).0 refl refl)
  update_to_bot_api-is_dropped (update_new_channel_message none) t = refl
  update_to_bot_api-is_dropped (update_new_channel_message (some m)) t =
      unless_out-is_none m.out _ t (
        choice-is_none get_text (is_broadcast_channel m.peer_id t).0 as_post as_message
          (message_obj_to_bot_api_ctx get_text m (is_broadcast_channel m.peer_id t).1).0 refl refl)
  update_to_bot_api-is_dropped (update_edit_message none) t = refl
  update_to_bot_api-is_dropped (update_edit_message (some m)) t = unless_out-is_none m.out _ t refl
  update_to_bot_api-is_dropped (update_edit_channel_message none) t = refl
  update_to_bot_api-is_dropped (update_edit_channel_message (some m)) t =
      unless_out-is_none m.out _ t (
        choice-is_none get_text (is_broadcast_channel m.peer_id t).0 as_edited_post as_edited
          (message_obj_to_bot_api_ctx get_text m (is_broadcast_channel m.peer_id t).1).0 refl refl)
  update_to_bot_api-is_dropped (update_bot_inline_send id query user_id msg_id geo) t =
      chosen_lem (is_finite (obj (chosen_result t id query user_id msg_id geo))) get_text
        (obj (chosen_result t id query user_id msg_id geo))
      ∙ ap not (chosen_result-is_finite t id query user_id msg_id geo)
  update_to_bot_api-is_dropped (update_bot_callback_query query_id user_id inst payload game) t =
      refl
  update_to_bot_api-is_dropped (update_inline_bot_callback_query query_id user_id inst payload id)
        t =
      refl
  update_to_bot_api-is_dropped (update_bot_inline_query query_id user_id query offset geo kind) t =
      refl
  update_to_bot_api-is_dropped (update_message_poll (some p) results) t = refl
  update_to_bot_api-is_dropped (update_message_poll_vote poll_id peer options) t = refl
  update_to_bot_api-is_dropped (update_channel_participant date id actor user prev next invite) t =
      refl
  update_to_bot_api-is_dropped (update_chat_participant date id actor user prev next invite) t =
      refl
  update_to_bot_api-is_dropped (update_bot_chat_invite_requester peer date user about invite) t =
      refl
  update_to_bot_api-is_dropped (update_bot_message_reaction peer msg_id date actor old new) t = refl
  update_to_bot_api-is_dropped (update_bot_message_reactions peer msg_id date reactions) t = refl
  update_to_bot_api-is_dropped (update_bot_chat_boost peer boost) t = refl
  update_to_bot_api-is_dropped (update_bot_business_connect none) t = refl
  update_to_bot_api-is_dropped (update_bot_business_connect (some c)) t = refl
  update_to_bot_api-is_dropped (update_bot_new_business_message none) t = refl
  update_to_bot_api-is_dropped (update_bot_new_business_message (some m)) t = refl
  update_to_bot_api-is_dropped (update_bot_edit_business_message none) t = refl
  update_to_bot_api-is_dropped (update_bot_edit_business_message (some m)) t = refl
  update_to_bot_api-is_dropped (update_bot_delete_business_message id peer messages) t = refl
  update_to_bot_api-is_dropped (update_bot_purchased_paid_media user payload) t = refl
  update_to_bot_api-is_dropped other_update t = refl
  update_to_bot_api-is_dropped (update_message_poll none results) t = refl
