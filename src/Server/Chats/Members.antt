-- ===== src/Server/Chats/Members.antt =====
-- The members and rights of internal/server/methods_chat.go: what is read of parameters, and `partToBotAPI`.
use tgbotd.Prelude.{[], ◌∷◌, Option, none, some, Bool, false, not, ◌||◌, if◌then◌else◌}
use tgbotd.Prelude.Bytes.{Bytes, codes, bytes_eq}
use tgbotd.Prelude.Int.{ℤ, pos}
use tgbotd.Json.{Json, null, bool, str, obj, Fields, put, fields_of, object}
use tgbotd.Json.Reading.{find}
use tgbotd.Botapi.Types.{user_json, user_pointer_json}
use tgbotd.Tlate.Telegram.{UserObj}
use tgbotd.Tlate.Telegram.Incoming.{AdminRights}
use tgbotd.Tlate.Context.{int_eq}
use tgbotd.Tlate.Chats.{user_from_obj}
use mathlib.Core.Option

abbrev pub is_true : Option Bool → Bool
is_true none = false
is_true (some b) = b

abbrev pub or_zero : Option ℤ → ℤ
or_zero none = pos 0
or_zero (some n) = n

-- `telegram.ChatBannedRights`, as far as it is set: what is forbidden.
pub record DeniedRights : Type 0 where
  pub send_messages : Bool
  pub send_media : Bool
  pub send_polls : Bool
  pub send_stickers : Bool
  pub send_gifs : Bool
  pub send_inline : Bool
  pub embed_links : Bool
  pub change_info : Bool
  pub invite_users : Bool
  pub pin_messages : Bool

abbrev pub nothing_denied : DeniedRights
nothing_denied = record {
  send_messages = false;
  send_media = false;
  send_polls = false;
  send_stickers = false;
  send_gifs = false;
  send_inline = false;
  embed_links = false;
  change_info = false;
  invite_users = false;
  pin_messages = false;
}

pub record BannedOptions : Type 0 where
  pub ban : Bool
  pub unban : Bool
  pub mute : Bool
  pub rights : DeniedRights
  pub till_date : ℤ
  pub revoke : Bool

abbrev pub no_options : BannedOptions
no_options = record {
  ban = false;
  unban = false;
  mute = false;
  rights = nothing_denied;
  till_date = pos 0;
  revoke = false;
}

-- A `*bool`; the outer `none` is an error.
abbrev pub flag_pointer : Option Json → Option (Option Bool)
flag_pointer none = some none
flag_pointer (some null) = some none
flag_pointer (some (bool b)) = some (some b)
flag_pointer _ = none

-- `neg`: denied if it is there and false.
abbrev pub neg : Option Bool → Bool
neg none = false
neg (some b) = not b

infixl 5 ◌>>=◌
abbrev ◌>>=◌ {ℓ κ} : {A : Type ℓ} {B : Type κ} → Option A → (A → Option B) → Option B
none >>= f = none
some a >>= f = f a

unfoldable pub read_permissions : Fields → Option DeniedRights
unfolding find
read_permissions fs = do
  messages ← flag_pointer (find (codes "can_send_messages") fs)
  media ← flag_pointer (find (codes "can_send_media_messages") fs)
  polls ← flag_pointer (find (codes "can_send_polls") fs)
  others ← flag_pointer (find (codes "can_send_other_messages") fs)
  previews ← flag_pointer (find (codes "can_add_web_page_previews") fs)
  info ← flag_pointer (find (codes "can_change_info") fs)
  invite ← flag_pointer (find (codes "can_invite_users") fs)
  pin ← flag_pointer (find (codes "can_pin_messages") fs)
  some (record {
    send_messages = neg messages;
    send_media = neg media;
    send_polls = neg polls;
    send_stickers = neg others;
    send_gifs = neg others;
    send_inline = neg others;
    embed_links = neg previews;
    change_info = neg info;
    invite_users = neg invite;
    pin_messages = neg pin;
  })

abbrev pub rights_or_none : Option DeniedRights → DeniedRights
rights_or_none none = nothing_denied
rights_or_none (some r) = r

abbrev pub denied_rights : Option Fields → DeniedRights
denied_rights none = nothing_denied
denied_rights (some fs) = rights_or_none (read_permissions fs)

-- `get` is the flag of a parameter.
abbrev pub asked_rights : (Bytes → Bool) → AdminRights
asked_rights get = record {
  change_info = get (codes "can_change_info");
  post_messages = get (codes "can_post_messages");
  edit_messages = get (codes "can_edit_messages");
  delete_messages = get (codes "can_delete_messages");
  ban_users = get (codes "can_restrict_members");
  invite_users = get (codes "can_invite_users");
  pin_messages = get (codes "can_pin_messages");
  add_admins = get (codes "can_promote_members");
  anonymous = get (codes "is_anonymous");
  manage_call = get (codes "can_manage_video_chats");
  manage_topics = get (codes "can_manage_topics");
}

abbrev pub any_right : AdminRights → Bool
any_right r =
    r.change_info || r.post_messages || r.edit_messages || r.delete_messages || r.ban_users
    || r.invite_users || r.pin_messages || r.add_admins || r.anonymous || r.manage_call
    || r.manage_topics

pub record AdminOptions : Type 0 where
  pub is_admin : Bool
  pub rights : AdminRights
  pub rank : Bytes

abbrev pub admin_options : AdminRights → AdminOptions
admin_options r = record { is_admin = any_right r; rights = r; rank = [] }

-- `telegram.Participant`
pub record Member : Type 0 where
  pub status : Bytes
  pub user : Option UserObj
  pub rank : Bytes
  pub rights : Option AdminRights

unfoldable pub set_all_rights : AdminRights → Fields → Fields
unfolding put
set_all_rights r m =
    let m = put (codes "can_manage_chat") (bool r.change_info) m in
    let m = put (codes "can_delete_messages") (bool r.delete_messages) m in
    let m = put (codes "can_manage_video_chats") (bool r.manage_call) m in
    let m = put (codes "can_restrict_members") (bool r.ban_users) m in
    let m = put (codes "can_promote_members") (bool r.add_admins) m in
    let m = put (codes "can_change_info") (bool r.change_info) m in
    let m = put (codes "can_invite_users") (bool r.invite_users) m in
    let m = put (codes "can_post_messages") (bool r.post_messages) m in
    let m = put (codes "can_edit_messages") (bool r.edit_messages) m in
    let m = put (codes "can_pin_messages") (bool r.pin_messages) m in
    let m = put (codes "can_manage_topics") (bool r.manage_topics) m in
    put (codes "is_anonymous") (bool r.anonymous) m

abbrev pub set_rank : Bytes → Fields → Fields
set_rank [] m = m
set_rank (c ∷ s) m = put (codes "custom_title") (str (c ∷ s)) m

abbrev pub set_member_rights : Bytes → Option AdminRights → Fields → Fields
set_member_rights status none m = m
set_member_rights status (some r) m =
    if bytes_eq status (codes "administrator") || bytes_eq status (codes "creator")
    then set_all_rights r m
    else m

unfoldable pub member_fields : Member → Fields
unfolding put set_all_rights
member_fields p = set_member_rights p.status p.rights (
    set_rank p.rank (
      fields_of (
        (codes "status", str p.status)
        ∷ (codes "user", user_pointer_json (Option.map user_from_obj p.user))
        ∷ [])))

-- A nil map prints as null.
unfoldable pub part_to_bot_api : Option Member → Json
unfolding member_fields
part_to_bot_api none = null
part_to_bot_api (some p) = obj (member_fields p)

abbrev pub same_id : ℤ → ℤ → Bool
same_id = int_eq

abbrev pub is_self : Option UserObj → ℤ → Bool
is_self none uid = false
is_self (some u) uid = int_eq uid u.id

abbrev pub status_and_user : Bytes → UserObj → Json
status_and_user status u =
    object ((codes "status", str status) ∷ (codes "user", user_json (user_from_obj u)) ∷ [])
