-- ===== src/Tlate/Telegram/Incoming.antt =====
-- The library's updates, as far as internal/tlate/updates.go reads them. What the code only takes as one type
-- of several, a message, a geo point or an invite, is `none` where it is of another.
use tgbotd.Prelude.{List, Option, Bool}
use tgbotd.Prelude.Bytes.{Bytes}
use tgbotd.Prelude.Int.{ℤ}
use tgbotd.Server.InlineId.{InlineMessageId}
use tgbotd.Tlate.Telegram.{Peer, MessageObj, GeoPoint, PollObj, PollResults}

pub record AdminRights : Type 0 where
  pub change_info : Bool
  pub post_messages : Bool
  pub edit_messages : Bool
  pub delete_messages : Bool
  pub ban_users : Bool
  pub invite_users : Bool
  pub pin_messages : Bool
  pub add_admins : Bool
  pub anonymous : Bool
  pub manage_call : Bool
  pub manage_topics : Bool

pub record BannedRights : Type 0 where
  pub send_messages : Bool
  pub until_date : ℤ

-- A participant of a channel or of a group.
pub data Participant : Type 0 where
  channel_participant_obj : Participant
  channel_participant_self : Participant
  chat_participant_obj : Participant
  channel_participant_admin :
      (can_edit : Bool) (rights : Option AdminRights) (rank : Bytes) → Participant
  channel_participant_creator : (rights : Option AdminRights) (rank : Bytes) → Participant
  channel_participant_banned : (left : Bool) (rights : Option BannedRights) → Participant
  channel_participant_left : Participant
  chat_participant_admin : Participant
  chat_participant_creator : Participant
  other_participant : Participant

-- `ChatInviteExported`
pub record Invite : Type 0 where
  pub link : Bytes
  pub admin_id : ℤ
  pub permanent : Bool
  pub revoked : Bool

pub data Reaction : Type 0 where
  reaction_emoji : (emoticon : Bytes) → Reaction
  reaction_custom_emoji : (document_id : ℤ) → Reaction
  reaction_paid : Reaction
  other_reaction : Reaction

pub record ReactionCount : Type 0 where
  pub reaction : Reaction
  pub count : ℤ

pub record Boost : Type 0 where
  pub id : Bytes
  pub date : ℤ
  pub expires : ℤ

pub record Connection : Type 0 where
  pub connection_id : Bytes
  pub user_id : ℤ
  pub date : ℤ
  pub disabled : Bool

pub data PeerType : Type 0 where
  type_same_bot_pm : PeerType
  type_pm : PeerType
  type_chat : PeerType
  type_megagroup : PeerType
  type_broadcast : PeerType
  other_type : PeerType

pub data TgUpdate : Type 0 where
  update_new_message : Option MessageObj → TgUpdate
  update_new_channel_message : Option MessageObj → TgUpdate
  update_edit_message : Option MessageObj → TgUpdate
  update_edit_channel_message : Option MessageObj → TgUpdate
  update_bot_callback_query :
      (query_id user_id chat_instance : ℤ) (callback_data game_short_name : Bytes) → TgUpdate
  update_inline_bot_callback_query :
      (query_id user_id chat_instance : ℤ) (callback_data : Bytes) (msg_id : Option InlineMessageId)
      → TgUpdate
  update_bot_inline_query :
      (query_id user_id : ℤ) (query offset : Bytes) (geo : Option GeoPoint) (peer_type : PeerType)
      → TgUpdate
  update_bot_inline_send :
      (id query : Bytes) (user_id : ℤ) (msg_id : Option InlineMessageId) (geo : Option GeoPoint)
      → TgUpdate
  update_message_poll : (poll : Option PollObj) (results : Option PollResults) → TgUpdate
  update_message_poll_vote : (poll_id : ℤ) (peer : Option Peer) (options : List Bytes) → TgUpdate
  update_channel_participant :
      (date channel_id actor_id user_id : ℤ) (prev next : Option Participant)
      (invite : Option Invite)
      → TgUpdate
  update_chat_participant :
      (date chat_id actor_id user_id : ℤ) (prev next : Option Participant) (invite : Option Invite)
      → TgUpdate
  update_bot_chat_invite_requester :
      (peer : Option Peer) (date user_id : ℤ) (about : Bytes) (invite : Option Invite) → TgUpdate
  update_bot_message_reaction :
      (peer : Option Peer) (msg_id date : ℤ) (actor : Option Peer) (old new : List Reaction)
      → TgUpdate
  update_bot_message_reactions :
      (peer : Option Peer) (msg_id date : ℤ) (reactions : List (Option ReactionCount)) → TgUpdate
  update_bot_chat_boost : (peer : Option Peer) (boost : Option Boost) → TgUpdate
  update_bot_business_connect : Option Connection → TgUpdate
  update_bot_new_business_message : Option MessageObj → TgUpdate
  update_bot_edit_business_message : Option MessageObj → TgUpdate
  update_bot_delete_business_message :
      (connection_id : Bytes) (peer : Option Peer) (messages : List ℤ) → TgUpdate
  update_bot_purchased_paid_media : (user_id : ℤ) (payload : Bytes) → TgUpdate
  other_update : TgUpdate
