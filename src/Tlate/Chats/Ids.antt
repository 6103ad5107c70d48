-- ===== src/Tlate/Chats/Ids.antt =====
-- The chat ids of internal/tlate/tlate.go: users, groups and channels share one `int64`.
use tgbotd.Prelude.{ltb, if◌then◌else◌, ℕ, suc, ◌-◌, ◌+◌, ◌<◌, ◌^◌, ◌≡◌, refl, some, arith}
use tgbotd.Prelude.Int.{ℤ, pos, negsuc, neg64, sub64}
use tgbotd.Tlate.Telegram.{Peer, peer_user, peer_chat, peer_channel}
use tgbotd.Tlate.Chats.{channel_base, peer_to_bot_api_chat_id}

-- The ids that MTProto gives out: positive, with room for the mark of a channel, and those of groups
-- below 10^12.
abbrev pub IsPeer : Peer → Type 0
IsPeer (peer_user (pos n)) = (0 < n) × (n < 2 ^ 62)
IsPeer (peer_chat (pos n)) = (0 < n) × (n < 1000000000000)
IsPeer (peer_channel (pos n)) = (0 < n) × (n < 2 ^ 62)
IsPeer _ = ⊥

neg64_pos : (n : ℕ) → 0 < n → n < 2 ^ 62 → neg64 (pos n) ≡ negsuc (n - 1)
neg64_pos n h k = ground arith

sub64_base : (n : ℕ) → n < 2 ^ 62 → sub64 channel_base (pos n) ≡ negsuc (999999999999 + n)
sub64_base n h = ground arith

-- The peer that a chat id stands for, as a reader of the Bot API's ids takes it.
abbrev pub peer_of_id : ℤ → Peer
peer_of_id (pos n) = peer_user (pos n)
peer_of_id (negsuc n) =
    if ltb n 1000000000000 then peer_chat (pos (suc n)) else peer_channel (pos (n - 999999999999))

-- A chat id determines its peer, if the peer's id is positive and below 2^62, and below 10^12 for a
-- group.
pub peer_of_id-peer_to_bot_api_chat_id :
    (p : Peer) → IsPeer p → peer_of_id (peer_to_bot_api_chat_id (some p)) ≡ p
unfolding peer_to_bot_api_chat_id
peer_of_id-peer_to_bot_api_chat_id (peer_user (pos n)) h = refl
peer_of_id-peer_to_bot_api_chat_id (peer_user (negsuc n)) h = elim h [ ]
peer_of_id-peer_to_bot_api_chat_id (peer_chat (pos n)) (h, k) =
    rw (neg64_pos n h (omega arith)) (ground arith)
peer_of_id-peer_to_bot_api_chat_id (peer_chat (negsuc n)) h = elim h [ ]
peer_of_id-peer_to_bot_api_chat_id (peer_channel (pos n)) (h, k) =
    rw (sub64_base n k) (ground arith)
peer_of_id-peer_to_bot_api_chat_id (peer_channel (negsuc n)) h = elim h [ ]
