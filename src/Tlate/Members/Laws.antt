-- ===== src/Tlate/Members/Laws.antt =====
-- Joins and leaves in `buildChatMemberUpdated` (internal/tlate/updates_helpers.go).
use tgbotd.Prelude.{◌≡◌, refl, Option, none, some, Bool}
use tgbotd.Prelude.Bytes.{bytes_eq}
use tgbotd.Prelude.Int.{ℤ}
use tgbotd.Json.{put}
use tgbotd.Tlate.Telegram.Incoming.{Participant, channel_participant_obj, Invite}
use tgbotd.Tlate.Context.{TranslateContext}
use tgbotd.Tlate.Members.{with_participant, participant_to_chat_member, build_chat_member_updated}

-- A user who is not in the chat any more, for whom Telegram sends no participant, is announced
-- just like one who is there as an ordinary member; the same holds of one who was not there before.
pub build_chat_member_updated_absent :
    (date actor_id user_id raw : ℤ) (p : Option Participant) (invite : Option Invite)
    (t : TranslateContext) (b : Bool)
    → (build_chat_member_updated date actor_id user_id p none invite t raw b
        ≡ build_chat_member_updated date actor_id user_id p
            (some channel_participant_obj)
            invite
            t
            raw
            b)
      × (build_chat_member_updated date actor_id user_id none p invite t raw b
          ≡ build_chat_member_updated date actor_id user_id
              (some channel_participant_obj)
              p
              invite
              t
              raw
              b)
unfolding build_chat_member_updated participant_to_chat_member with_participant put bytes_eq
build_chat_member_updated_absent date actor_id user_id raw p invite t b = (refl, refl)
