-- ===== src/Server/Chats/Laws.antt =====
-- What the handlers of internal/server/methods_chat.go have to do with each other and with the translation of updates.
use tgbotd.Prelude.{
  ◌≡◌, refl, sym, ap, subst, ◌∙◌, List, [], ◌∷◌, Option, none, some, inl, inr, All,
}
use tgbotd.Prelude.Bytes.{Bytes, codes, bytes_eq}
use tgbotd.Prelude.Int.{ℤ, sub64}
use tgbotd.Json.{member, put, bool}
use tgbotd.Json as JsonTree
use tgbotd.Botapi.{Result, ok, err, Error, Result-cases}
use tgbotd.Botapi.Types.{Chat}
use tgbotd.Server.Params.{Params, require_int64}
use tgbotd.Tlate.Telegram.{UserObj, Peer, peer_user, peer_chat, peer_channel}
use tgbotd.Tlate.Chats.{peer_to_bot_api_chat_id, channel_base, bot_api_chat_id}
use tgbotd.Server.Chats.{
  ChatRef, resolve_chat_id, Call, edit_admin, flag, promote_chat_member, InputPeer, input_user,
  input_chat, input_channel, other_input, ChannelInfo, ChatClient, chat_of_peer, get_chat,
}
use tgbotd.Server.Chats.Members.{asked_rights, admin_options, Member, set_all_rights, member_fields}

-- The parameters of promoteChatMember that are rights.
abbrev pub right_names : List Bytes
right_names =
    codes "can_change_info"
    ∷ codes "can_post_messages"
    ∷ codes "can_edit_messages"
    ∷ codes "can_delete_messages"
    ∷ codes "can_restrict_members"
    ∷ codes "can_invite_users"
    ∷ codes "can_pin_messages"
    ∷ codes "can_promote_members"
    ∷ codes "is_anonymous"
    ∷ codes "can_manage_video_chats"
    ∷ codes "can_manage_topics"
    ∷ []

-- The administrator that a call makes of a user, as Telegram then answers.
abbrev pub promoted : Option UserObj → Call → Member
promoted u (edit_admin peer uid opts) = record {
  status = codes "administrator";
  user = u;
  rank = opts.rank;
  rights = some opts.rights;
}
promoted u _ = record { status = codes "member"; user = u; rank = []; rights = none }

abbrev pub Reports : Params → JsonTree.Fields → Bytes → Type 0
Reports ps fs name = member name fs ≡ some (bool (flag ps name))

abbrev value_or {ℓ} : {A : Type ℓ} → A → Result A → A
value_or d (ok a) = a
value_or d (err e) = d

ok-injective : {A : Type 0} {a b : A} → ok a ≡ ok b → a ≡ b
ok-injective {A = A} {a = a} e = ap (value_or a) e

err≢ok : {A : Type 0} (e : Error) (a : A) → err e ≡ ok a → ⊥
err≢ok e a h = cc

promoted-Reports :
    (ps : Params) (u : Option UserObj) (peer : ChatRef) (uid : ℤ)
    → All
        (Reports ps (
          member_fields
            (promoted u (edit_admin peer uid (admin_options (asked_rights (flag ps)))))))
        right_names
unfolding member_fields put member bytes_eq set_all_rights
promoted-Reports ps u peer uid =
    (refl, (refl, (refl, (refl, (refl, (refl, (refl, (refl, (refl, (refl, (refl, tt)))))))))))

-- An administrator with the rights that promoteChatMember asked Telegram for is reported by
-- getChatMember with each of the eleven rights as its parameter gave it, a missing one being false.
pub promote_chat_member-Reports :
    (whole : Bytes → Option ℤ) (number_text : Bytes → Bytes) (tree : Bytes → JsonTree.Json)
    (ps : Params) (u : Option UserObj) (c : Call)
    → promote_chat_member whole number_text tree ps ≡ ok c
    → All (Reports ps (member_fields (promoted u c))) right_names
unfolding promote_chat_member
promote_chat_member-Reports whole number_text tree ps u c e =
    elim (Result-cases (resolve_chat_id ps (codes "chat_id"))) [
      | inr (x, refused) ↦ absurd (err≢ok _ _ (rw refused at e))
      | inl (peer, found) ↦ elim (Result-cases (require_int64 whole ps (codes "user_id"))) [
        | inr (x, refused) ↦ absurd (err≢ok _ _ (rw (found, refused) at e))
        | inl (uid, given) ↦
            subst (λ d. All (Reports ps (member_fields (promoted u d))) right_names)
              (ok-injective (rw (found, given) at e)) (promoted-Reports ps u peer uid)
      ]
    ]

-- The peer that an input peer is.
abbrev pub peer_of : InputPeer → Option Peer
peer_of (input_user id) = some (peer_user id)
peer_of (input_chat id) = some (peer_chat id)
peer_of (input_channel id) = some (peer_channel id)
peer_of other_input = none

-- A client that answers with the user or channel that it was asked for.
pub record IsHonest (c : ChatClient) : Type 0 where
  pub user_asked : (id : ℤ) (u : UserObj) → c.get_user id ≡ ok u → u.id ≡ id
  pub channel_asked : (id : ℤ) (ch : ChannelInfo) → c.get_channel id ≡ ok ch → ch.id ≡ id

chat_of_peer-id :
    (c : ChatClient) (p : InputPeer) (chat : Chat)
    → IsHonest c
    → chat_of_peer c p ≡ ok chat
    → chat.id ≡ peer_to_bot_api_chat_id (peer_of p)
unfolding peer_to_bot_api_chat_id bot_api_chat_id
chat_of_peer-id c (input_user id) chat h e = elim (Result-cases (c.get_user id)) [
  | inr (x, refused) ↦ absurd (err≢ok _ _ (rw refused at e))
  | inl (u, found) ↦
      sym (ap (λ ch. Chat.id ch) (ok-injective (rw found at e))) ∙ h.user_asked id u found
]
chat_of_peer-id c (input_chat id) chat h e = sym (ap (λ ch. Chat.id ch) (ok-injective e))
chat_of_peer-id c (input_channel id) chat h e = elim (Result-cases (c.get_channel id)) [
  | inr (x, refused) ↦ absurd (err≢ok _ _ (rw refused at e))
  | inl (info, found) ↦
      sym (ap (λ ch. Chat.id ch) (ok-injective (rw found at e)))
      ∙ ap (sub64 channel_base) (h.channel_asked id info found)
]
chat_of_peer-id c other_input chat h e = absurd (err≢ok _ _ e)

-- The chat that getChat answers has the id under which updates name the peer that the parameter was
-- resolved to, if the client answers with the user or channel that it was asked for.
pub get_chat-peer_to_bot_api_chat_id :
    (c : ChatClient) (ps : Params) (ref : ChatRef) (p : InputPeer) (chat : Chat)
    → IsHonest c
    → resolve_chat_id ps (codes "chat_id") ≡ ok ref
    → c.resolve_peer ref ≡ ok p
    → get_chat c ps ≡ ok chat
    → chat.id ≡ peer_to_bot_api_chat_id (peer_of p)
unfolding get_chat
get_chat-peer_to_bot_api_chat_id c ps ref p chat h given resolved e =
    chat_of_peer-id c p chat h (rw (given, resolved) at e)
