-- ===== src/Tlate/Updates.antt =====
-- `UpdateToBotAPI` of internal/tlate/updates.go. json.Marshal fails on floats that are not finite alone, which only
-- the location of a chosen inline result can hold.
pub mod Dropped
pub mod Envelopes
pub mod Fields
pub mod Order
pub mod Posts
pub mod Safety
pub mod Votes
use tgbotd.Prelude.{ℕ, List, [], ◌∷◌, Option, none, some, Bool, true, false, ◌&&◌, if◌then◌else◌}
use tgbotd.Prelude.Bytes.{Bytes, codes}
use tgbotd.Prelude.Int.{ℤ}
use tgbotd.Json.{Json, obj, json_marshal}
use tgbotd.Botapi.Types.{Message, Update, empty_update}
use tgbotd.Tlate.Telegram.{KeyboardButton, Peer, peer_user, peer_chat, peer_channel, MessageObj}
use tgbotd.Tlate.Telegram.Incoming.{
  AdminRights, BannedRights, Participant, channel_participant_obj, channel_participant_self,
  chat_participant_obj, channel_participant_admin, channel_participant_creator,
  channel_participant_banned, channel_participant_left, chat_participant_admin,
  chat_participant_creator, other_participant, Invite, Reaction, reaction_emoji,
  reaction_custom_emoji, reaction_paid, other_reaction, ReactionCount, Boost, Connection, PeerType,
  TgUpdate, update_new_message, update_new_channel_message, update_edit_message,
  update_edit_channel_message, update_bot_callback_query, update_inline_bot_callback_query,
  update_bot_inline_query, update_bot_inline_send, update_message_poll, update_message_poll_vote,
  update_channel_participant, update_chat_participant, update_bot_chat_invite_requester,
  update_bot_message_reaction, update_bot_message_reactions, update_bot_chat_boost,
  update_bot_business_connect, update_bot_new_business_message, update_bot_edit_business_message,
  update_bot_delete_business_message, update_bot_purchased_paid_media, other_update,
}
use tgbotd.Tlate.Context.{TranslateContext, Action, pure, ◌>>=◌}
use tgbotd.Tlate.Chats.{is_broadcast_channel}
use tgbotd.Tlate.Messages.{message_obj_to_bot_api_ctx}
use tgbotd.Tlate.Media.{poll_to_bot_api}
use tgbotd.Tlate.Members.{build_chat_member_updated}
use Envelopes.*

abbrev pub is_none {ℓ} : {A : Type ℓ} → Option A → Bool
is_none none = true
is_none (some a) = false

unfoldable pub is_empty : Update → Bool
is_empty u =
    is_none u.message
    && is_none u.edited_message
    && is_none u.channel_post
    && is_none u.edited_channel_post
    && is_none u.callback_query
    && is_none u.inline_query
    && is_none u.poll
    && is_none u.business_message
    && is_none u.edited_business_message
    && is_none u.guest_message
    && is_none u.chosen_inline_result
    && is_none u.poll_answer
    && is_none u.chat_member
    && is_none u.chat_join_request
    && is_none u.message_reaction
    && is_none u.message_reaction_count
    && is_none u.chat_boost
    && is_none u.business_connection
    && is_none u.deleted_business_messages
    && is_none u.purchased_paid_media

-- The fields that a message can stand in.
abbrev pub as_message : Message → Update
as_message m = record empty_update { message = some m }

abbrev pub as_edited : Message → Update
as_edited m = record empty_update { edited_message = some m }

abbrev pub as_post : Message → Update
as_post m = record empty_update { channel_post = some m }

abbrev pub as_edited_post : Message → Update
as_edited_post m = record empty_update { edited_channel_post = some m }

abbrev pub as_business : Message → Update
as_business m = record empty_update { business_message = some m }

abbrev pub as_edited_business : Message → Update
as_edited_business m = record empty_update { edited_business_message = some m }

abbrev pub is_channel_peer : Option Peer → Bool
is_channel_peer (some (peer_channel id)) = true
is_channel_peer _ = false

-- A case that reads the context and leaves it as it is.
abbrev pub asking : (TranslateContext → Update) → Action (Option Update)
asking f t = (some (f t), t)

-- An update without a message of the right type keeps its fields nil.
abbrev pub nothing_set : Action (Option Update)
nothing_set = pure (some empty_update)

module _ (get_text : KeyboardButton → Option Bytes) where
  abbrev pub translated : (Message → Update) → MessageObj → Action (Option Update)
  translated f m = message_obj_to_bot_api_ctx get_text m >>= λ bm. pure (some (f bm))

  abbrev pub unless_out : Bool → Action (Option Update) → Action (Option Update)
  unless_out true a = pure none
  unless_out false a = a

  abbrev pub new_message : Option MessageObj → Action (Option Update)
  new_message none = nothing_set
  new_message (some m) =
      unless_out m.out (translated (if is_channel_peer m.peer_id then as_post else as_message) m)

  abbrev pub new_channel_message : Option MessageObj → Action (Option Update)
  new_channel_message none = nothing_set
  new_channel_message (some m) =
      unless_out m.out
        (is_broadcast_channel m.peer_id >>= λ b. translated (if b then as_post else as_message) m)

  abbrev pub edit_message : Option MessageObj → Action (Option Update)
  edit_message none = nothing_set
  edit_message (some m) = unless_out m.out (translated as_edited m)

  abbrev pub edit_channel_message : Option MessageObj → Action (Option Update)
  edit_channel_message none = nothing_set
  edit_channel_message (some m) = unless_out m.out (
      is_broadcast_channel m.peer_id >>= λ b.
      translated (if b then as_edited_post else as_edited) m)

  abbrev pub business : (Message → Update) → Option MessageObj → Action (Option Update)
  business f none = nothing_set
  business f (some m) = translated f m

  -- The switch: `none` where it returns nil at once.
  unfoldable pub filled : TgUpdate → Action (Option Update)
  filled (update_new_message m) = new_message m
  filled (update_new_channel_message m) = new_channel_message m
  filled (update_edit_message m) = edit_message m
  filled (update_edit_channel_message m) = edit_channel_message m
  filled (update_bot_callback_query query_id user_id instance payload game) = asking (λ t.
      record empty_update {
        callback_query = some (callback_query t query_id user_id instance payload game);
      })
  filled (update_inline_bot_callback_query query_id user_id instance payload msg_id) = asking (λ t.
      record empty_update {
        callback_query = some (inline_callback_query t query_id user_id instance payload msg_id);
      })
  filled (update_bot_inline_query query_id user_id query offset geo kind) = asking (λ t.
      record empty_update {
        inline_query = some (inline_query t query_id user_id query offset geo kind);
      })
  filled (update_bot_inline_send id query user_id msg_id geo) = asking (λ t. record empty_update {
    chosen_inline_result = json_marshal (obj (chosen_result t id query user_id msg_id geo));
  })
  filled (update_message_poll none results) = nothing_set
  filled (update_message_poll (some p) results) =
      pure (some (record empty_update { poll = some (poll_to_bot_api p results) }))
  filled (update_message_poll_vote poll_id peer options) = poll_answer poll_id peer options >>= λ e.
      pure (some (record empty_update { poll_answer = some (obj e) }))
  filled (update_channel_participant date id actor_id user_id prev next invite) = asking (λ t.
      record empty_update {
        chat_member =
            some (obj (build_chat_member_updated date actor_id user_id prev next invite t id true));
      })
  filled (update_chat_participant date id actor_id user_id prev next invite) = asking (λ t.
      record empty_update {
        chat_member =
            some
              (obj (build_chat_member_updated date actor_id user_id prev next invite t id false));
      })
  filled (update_bot_chat_invite_requester peer date user_id about invite) =
      join_request peer date user_id about invite >>= λ e.
      pure (some (record empty_update { chat_join_request = some (obj e) }))
  filled (update_bot_message_reaction peer msg_id date actor old new) =
      message_reaction peer msg_id date actor old new >>= λ e.
      pure (some (record empty_update { message_reaction = some (obj e) }))
  filled (update_bot_message_reactions peer msg_id date reactions) =
      message_reaction_count peer msg_id date reactions >>= λ e.
      pure (some (record empty_update { message_reaction_count = some (obj e) }))
  filled (update_bot_chat_boost peer boost) =
      chat_boost peer boost >>= λ e. pure (some (record empty_update { chat_boost = some (obj e) }))
  filled (update_bot_business_connect none) = nothing_set
  filled (update_bot_business_connect (some c)) =
      pure (some (record empty_update { business_connection = some (obj (business_connection c)) }))
  filled (update_bot_new_business_message m) = business as_business m
  filled (update_bot_edit_business_message m) = business as_edited_business m
  filled (update_bot_delete_business_message id peer messages) =
      deleted_messages id peer messages >>= λ e.
      pure (some (record empty_update { deleted_business_messages = some (obj e) }))
  filled (update_bot_purchased_paid_media user_id payload) = pure (
      some (record empty_update {
        purchased_paid_media = some (obj (purchased_media user_id payload));
      }))
  filled other_update = pure none

  -- `if isEmpty(out) { return nil }`
  abbrev pub unless_empty : Option Update → Option Update
  unless_empty none = none
  unless_empty (some out) = if is_empty out then none else some out

  unfoldable pub update_to_bot_api : Option TgUpdate → Action (Option Update)
  unfolding filled is_empty
  update_to_bot_api none = pure none
  update_to_bot_api (some u) = filled u >>= λ out. pure (unless_empty out)
