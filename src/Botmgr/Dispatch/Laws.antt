-- ===== src/Botmgr/Dispatch/Laws.antt =====
-- What `dispatchIntercepted` of internal/botmgr/botmgr.go adds to the log of a bot's updates.
use tgbotd.Prelude.{◌≡◌, refl, List, [], ◌∷◌, Option, none, some}
use tgbotd.Prelude.Int.{ℤ}
use tgbotd.Botmgr.Updates.{UpdateBuffer, push}
use tgbotd.Botmgr.Updates.Refinement.{Log, Refines}
use tgbotd.Botmgr.Updates.Runs.{BufferOp, pushes, log_run, run, run-Refines_from}
use tgbotd.Botmgr.Dispatch.{
  Intercepted, updates_obj, updates_combined, update_short, update_short_message,
  update_short_chat_message, ignored, MessageObj, full_message, peer_user, peer_chat,
  push_inner_updates, dispatch_intercepted,
}

module _ {U : Type 0} where
  -- The updates that are there, as pushes.
  abbrev pub present : List (Option U) → List (BufferOp U)
  present [] = []
  present (none ∷ us) = present us
  present (some u ∷ us) = pushes u ∷ present us

  push_inner_updates_lem :
      (us : List (Option U)) (b : UpdateBuffer U) → push_inner_updates us b ≡ run (present us) b
  unfolding push_inner_updates run
  push_inner_updates_lem [] b = refl
  push_inner_updates_lem (none ∷ us) b = push_inner_updates_lem us b
  push_inner_updates_lem (some u ∷ us) b = push_inner_updates_lem us (push u b)

module _ {U E F R : Type 0} (new_message : MessageObj E F R → ℤ → ℤ → U) where
  -- The updates that a value holds, in its order; a short message is one new message, of its sender, to the sender's
  -- chat with the bot or to the group.
  abbrev pub contained : Intercepted U E F R → List (Option U)
  contained (updates_obj us) = us
  contained (updates_combined us) = us
  contained (update_short u) = u ∷ []
  contained (update_short_message m) =
      some (new_message (full_message (peer_user m.from) (peer_user m.from) m) m.pts m.pts_count)
      ∷ []
  contained (update_short_chat_message chat m) =
      some (new_message (full_message (peer_user m.from) (peer_chat chat) m) m.pts m.pts_count) ∷ []
  contained ignored = []

  dispatch_run :
      (i : Intercepted U E F R) (b : UpdateBuffer U)
      → dispatch_intercepted new_message i b ≡ push_inner_updates (contained i) b
  unfolding dispatch_intercepted
  dispatch_run (updates_obj us) b = refl
  dispatch_run (updates_combined us) b = refl
  dispatch_run (update_short u) b = unfold push_inner_updates in refl
  dispatch_run (update_short_message m) b = unfold push_inner_updates in refl
  dispatch_run (update_short_chat_message chat m) b = unfold push_inner_updates in refl
  dispatch_run ignored b = unfold push_inner_updates in refl

  -- Every value of the receiver appends the updates that it holds to the log, in its order and without
  -- the nil ones, and the queue keeps to the log.
  pub dispatch-Refines :
      (i : Intercepted U E F R) (b : UpdateBuffer U) (l : Log U)
      → Refines b l
      → Refines (dispatch_intercepted new_message i b) (log_run b.cap (present (contained i)) l)
  dispatch-Refines i b l r =
      rw (dispatch_run i b, push_inner_updates_lem (contained i) b)
        (run-Refines_from (present (contained i)) b l r)
