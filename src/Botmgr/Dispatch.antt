-- ===== src/Botmgr/Dispatch.antt =====
-- `dispatchIntercepted` and `pushInnerUpdate` of internal/botmgr/botmgr.go: what the MTProto library's
-- receiver hands over goes to the queue. The fields that the code only copies are of types of the library,
-- and a nil update is `none`; the peer cache is the library's.
pub mod Laws
pub mod Tests
use tgbotd.Prelude.{ℕ, List, [], ◌∷◌, ◌++◌, Option, none, some, Bool}
use tgbotd.Prelude.Bytes.{Bytes}
use tgbotd.Prelude.Int.{ℤ}
use tgbotd.Botmgr.Updates.{UpdateBuffer, push}

pub data Peer : Type 0 where
  peer_user : ℤ → Peer
  peer_chat : ℤ → Peer

-- The types of entities, forward headers and reply headers.
pub record ShortMessage (E F R : Type 0) : Type 0 where
  pub id : ℤ
  pub out : Bool
  pub mentioned : Bool
  pub message : Bytes
  pub media_unread : Bool
  -- `UserID`, or `FromID` of a chat message.
  pub from : ℤ
  pub date : ℤ
  pub entities : List E
  pub fwd_from : Option F
  pub reply_to : Option R
  pub via_bot_id : ℤ
  pub ttl_period : ℤ
  pub silent : Bool
  pub pts : ℤ
  pub pts_count : ℤ

pub record MessageObj (E F R : Type 0) : Type 0 where
  pub id : ℤ
  pub out : Bool
  pub mentioned : Bool
  pub message : Bytes
  pub media_unread : Bool
  pub from_id : Peer
  pub peer_id : Peer
  pub date : ℤ
  pub entities : List E
  pub fwd_from : Option F
  pub reply_to : Option R
  pub via_bot_id : ℤ
  pub ttl_period : ℤ
  pub silent : Bool

-- The cases of the type switch; `ignored` is any other value.
pub data Intercepted (U E F R : Type 0) : Type 0 where
  updates_obj : List (Option U) → Intercepted U E F R
  updates_combined : List (Option U) → Intercepted U E F R
  update_short : Option U → Intercepted U E F R
  update_short_message : ShortMessage E F R → Intercepted U E F R
  update_short_chat_message : ℤ → ShortMessage E F R → Intercepted U E F R
  ignored : Intercepted U E F R

module _ {E F R : Type 0} where
  abbrev pub full_message : Peer → Peer → ShortMessage E F R → MessageObj E F R
  full_message from peer m = record {
    id = m.id;
    out = m.out;
    mentioned = m.mentioned;
    message = m.message;
    media_unread = m.media_unread;
    from_id = from;
    peer_id = peer;
    date = m.date;
    entities = m.entities;
    fwd_from = m.fwd_from;
    reply_to = m.reply_to;
    via_bot_id = m.via_bot_id;
    ttl_period = m.ttl_period;
    silent = m.silent;
  }

module _ {U : Type 0} where
  unfoldable pub push_inner_update : Option U → UpdateBuffer U → UpdateBuffer U
  push_inner_update none b = b
  push_inner_update (some u) b = push u b

  unfoldable pub push_inner_updates : List (Option U) → UpdateBuffer U → UpdateBuffer U
  unfolding push_inner_update
  push_inner_updates [] b = b
  push_inner_updates (u ∷ us) b = push_inner_updates us (push_inner_update u b)

-- `new_message` is the library's `UpdateNewMessage` of a message, its `pts` and its `pts_count`.
module _ {U E F R : Type 0} (new_message : MessageObj E F R → ℤ → ℤ → U) where
  unfoldable pub dispatch_intercepted : Intercepted U E F R → UpdateBuffer U → UpdateBuffer U
  unfolding push_inner_updates push_inner_update
  dispatch_intercepted (updates_obj us) b = push_inner_updates us b
  dispatch_intercepted (updates_combined us) b = push_inner_updates us b
  dispatch_intercepted (update_short u) b = push_inner_update u b
  dispatch_intercepted (update_short_message m) b =
      push_inner_update
        (some
          (new_message (full_message (peer_user m.from) (peer_user m.from) m) m.pts m.pts_count))
        b
  dispatch_intercepted (update_short_chat_message chat m) b =
      push_inner_update
        (some (new_message (full_message (peer_user m.from) (peer_chat chat) m) m.pts m.pts_count))
        b
  dispatch_intercepted ignored b = b
