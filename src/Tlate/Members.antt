-- ===== src/Tlate/Members.antt =====
-- The members of chats: buildChatMemberUpdated, participantToChatMember and applyAdminRightsToMap of
-- internal/tlate/updates_helpers.go. No float is printed, so json.Marshal does not fail.
pub mod Laws
use tgbotd.Prelude.{List, [], ◌∷◌, Option, none, some, Bool, true, false, not, if◌then◌else◌}
use tgbotd.Prelude.Bytes.{Bytes, codes}
use tgbotd.Prelude.Int.{ℤ, neg64, sub64}
use tgbotd.Json.{
  Float64, Json, null, bool, num, float, str, arr, obj, Items, done, item, Fields, end, field,
  items_of, put, fields_of, object, put_some, member, text_member, flag_member, is_finite_float,
  is_finite, is_finite_items, is_finite_fields, json_marshal, log2_fuel, float_of_nat,
  float_of_int32,
}
use tgbotd.Botapi.Types.{User, Chat, user_of_id, user_json, chat_of, chat_json}
use tgbotd.Tlate.Telegram.{ChatObj, chat_obj, channel, other_chat}
use tgbotd.Tlate.Telegram.Incoming.{
  AdminRights, BannedRights, Participant, channel_participant_obj, channel_participant_self,
  chat_participant_obj, channel_participant_admin, channel_participant_creator,
  channel_participant_banned, channel_participant_left, chat_participant_admin,
  chat_participant_creator, other_participant, Invite, Reaction, reaction_emoji,
  reaction_custom_emoji, reaction_paid, other_reaction, ReactionCount, Boost, Connection, PeerType,
  TgUpdate, update_new_message, update_new_channel_message, update_edit_message,
  update_edit_channel_message, update_bot_callback_query, update_inline_bot_callback_query,
  update_bot_inline_query, update_bot_inline_send, update_message_poll, update_message_poll_vote,
  update_channel_participant, update_chat_participant, update_bot_chat_invite_requester,
  update_bot_message_reaction, update_bot_message_reactions, update_bot_chat_boost,
  update_bot_business_connect, update_bot_new_business_message, update_bot_edit_business_message,
  update_bot_delete_business_message, update_bot_purchased_paid_media, other_update,
}
use tgbotd.Tlate.Context.{TranslateContext}
use tgbotd.Tlate.Chats.{user_or, channel_base, channel_type}

-- A user by the map alone: `if u, ok := ctx.Users[id]; ok { UserFromObj(u) } else { User{ID: id} }`.
abbrev pub mapped_user : TranslateContext → ℤ → User
mapped_user t id = user_or (user_of_id id) (t.users id)

unfoldable pub apply_admin_rights_to_map : AdminRights → Fields → Fields
unfolding put
apply_admin_rights_to_map r m =
    let m = put (codes "is_anonymous") (bool r.anonymous) m in
    let m = put (codes "can_manage_chat") (bool r.change_info) m in
    let m = put (codes "can_delete_messages") (bool r.delete_messages) m in
    let m = put (codes "can_manage_video_chats") (bool r.manage_call) m in
    let m = put (codes "can_restrict_members") (bool r.ban_users) m in
    let m = put (codes "can_promote_members") (bool r.add_admins) m in
    let m = put (codes "can_change_info") (bool r.change_info) m in
    let m = put (codes "can_invite_users") (bool r.invite_users) m in
    let m = put (codes "can_post_messages") (bool r.post_messages) m in
    let m = put (codes "can_edit_messages") (bool r.edit_messages) m in
    let m = put (codes "can_pin_messages") (bool r.pin_messages) m in
    put (codes "can_manage_topics") (bool r.manage_topics) m

abbrev pub set_status : Bytes → Fields → Fields
set_status s m = put (codes "status") (str s) m

abbrev pub set_title : Bytes → Fields → Fields
set_title [] m = m
set_title (c ∷ rank) m = put (codes "custom_title") (str (c ∷ rank)) m

abbrev pub set_rights : Bool → Option AdminRights → Fields → Fields
set_rights can_edit none m = m
set_rights can_edit (some r) m =
    apply_admin_rights_to_map r (put (codes "can_be_edited") (bool can_edit) m)

abbrev pub set_anonymous : Option AdminRights → Fields → Fields
set_anonymous none m = m
set_anonymous (some r) m = put (codes "is_anonymous") (bool r.anonymous) m

abbrev pub set_bans : Option BannedRights → Fields → Fields
set_bans none m = m
set_bans (some r) m =
    put (codes "can_send_messages") (bool (not r.send_messages))
      (put (codes "until_date") (num r.until_date) m)

abbrev pub banned_status : Bool → Bytes
banned_status left = if left then codes "left" else codes "restricted"

-- The type switch; a nil participant leaves the map as it is.
unfoldable pub with_participant : Option Participant → Fields → Fields
unfolding put apply_admin_rights_to_map
with_participant none m = m
with_participant (some channel_participant_obj) m = set_status (codes "member") m
with_participant (some channel_participant_self) m = set_status (codes "member") m
with_participant (some chat_participant_obj) m = set_status (codes "member") m
with_participant (some (channel_participant_admin can_edit rights rank)) m =
    set_title rank (set_rights can_edit rights (set_status (codes "administrator") m))
with_participant (some (channel_participant_creator rights rank)) m =
    set_anonymous rights (set_title rank (set_status (codes "creator") m))
with_participant (some (channel_participant_banned left rights)) m =
    set_bans rights (set_status (banned_status left) m)
with_participant (some channel_participant_left) m = set_status (codes "left") m
with_participant (some chat_participant_admin) m = set_status (codes "administrator") m
with_participant (some chat_participant_creator) m = set_status (codes "creator") m
with_participant (some other_participant) m = m

unfoldable pub participant_to_chat_member : Option Participant → ℤ → TranslateContext → Fields
unfolding with_participant
participant_to_chat_member p user_id t = with_participant p (
    fields_of (
      (codes "status", str (codes "member"))
      ∷ (codes "user", user_json (mapped_user t user_id))
      ∷ []))

-- The type of a channel that is not known stays empty.
abbrev pub updated_channel : ℤ → Option ChatObj → Chat
updated_channel id (some (channel title username forum broadcast)) =
    record (chat_of id (channel_type broadcast)) {
      title = title;
      username = username;
      is_forum = forum;
    }
updated_channel id _ = chat_of id []

abbrev pub updated_group : ℤ → Option ChatObj → Chat
updated_group id (some (chat_obj title)) = record (chat_of id (codes "group")) { title = title }
updated_group id _ = chat_of id (codes "group")

abbrev pub updated_chat : TranslateContext → ℤ → Bool → Chat
updated_chat t raw true = updated_channel (sub64 channel_base raw) (t.chats raw)
updated_chat t raw false = updated_group (neg64 raw) (t.chats raw)

abbrev pub set_invite : Option Invite → Fields → Fields
set_invite none fs = fs
set_invite (some inv) fs =
    put (codes "invite_link")
      (object (
        (codes "invite_link", str inv.link)
        ∷ (codes "is_primary", bool inv.permanent)
        ∷ (codes "is_revoked", bool inv.revoked)
        ∷ []))
      fs

unfoldable pub build_chat_member_updated :
    (date actor_id user_id : ℤ) (prev next : Option Participant) (invite : Option Invite)
    (t : TranslateContext) (raw_chat_id : ℤ) (is_channel : Bool)
    → Fields
unfolding put participant_to_chat_member
build_chat_member_updated date actor_id user_id prev next invite t raw_chat_id is_channel =
    set_invite invite (
      fields_of (
        (codes "chat", chat_json (updated_chat t raw_chat_id is_channel))
        ∷ (codes "date", num date)
        ∷ (codes "from", user_json (mapped_user t actor_id))
        ∷ (codes "old_chat_member", obj (participant_to_chat_member prev user_id t))
        ∷ (codes "new_chat_member", obj (participant_to_chat_member next user_id t))
        ∷ []))
