-- ===== src/Botmgr/Updates/Runs.antt =====
-- Any sequence of operations on a bot's queue, and what its snapshots hold.
use tgbotd.Prelude.{ℕ, zero, suc, ◌<◌, ◌≡◌, ◌↔◌, refl, ap, List, [], ◌∷◌, arith, lt→ltb, false}
use tgbotd.Botmgr.Updates.{
  UpdateItem, UpdateBuffer, new_update_buffer, push, peek, ack, clear, skip_below, first_items,
  has_ready, snapshot_locked, default_buffer_cap,
}
use tgbotd.Botmgr.Updates.Refinement.{
  Log, Refines, new_log, log_push, log_ack, log_clear, pending, new-Refines, push-Refines,
  ack-Refines, clear-Refines,
}

pub data BufferOp (U : Type 0) : Type 0 where
  pushes : U → BufferOp U
  acks : ℕ → BufferOp U
  clears : BufferOp U

module _ {U : Type 0} where
  pub step : BufferOp U → UpdateBuffer U → UpdateBuffer U
  step (pushes u) b = push u b
  step (acks up_to) b = ack up_to b
  step clears b = clear b

  unfoldable pub run : List (BufferOp U) → UpdateBuffer U → UpdateBuffer U
  unfolding step
  run [] b = b
  run (op ∷ ops) b = run ops (step op b)

  abbrev pub log_step : ℕ → BufferOp U → Log U → Log U
  log_step cap (pushes u) l = log_push cap u l
  log_step cap (acks up_to) l = log_ack up_to l
  log_step cap clears l = log_clear l

  abbrev pub log_run : ℕ → List (BufferOp U) → Log U → Log U
  log_run cap [] l = l
  log_run cap (op ∷ ops) l = log_run cap ops (log_step cap op l)

  cap-step : (op : BufferOp U) (b : UpdateBuffer U) → (step op b).cap ≡ b.cap
  unfolding step push ack clear
  cap-step (pushes u) b = refl
  cap-step (acks up_to) b = refl
  cap-step clears b = refl

  step-Refines :
      (op : BufferOp U) (b : UpdateBuffer U) (l : Log U)
      → Refines b l
      → Refines (step op b) (log_step b.cap op l)
  unfolding step
  step-Refines (pushes u) b l r = push-Refines u b l r
  step-Refines (acks up_to) b l r = ack-Refines up_to b l r
  step-Refines clears b l r = clear-Refines b l r

  pub run-Refines_from :
      (ops : List (BufferOp U)) (b : UpdateBuffer U) (l : Log U)
      → Refines b l
      → Refines (run ops b) (log_run b.cap ops l)
  unfolding run
  run-Refines_from [] b l r = r
  run-Refines_from (op ∷ ops) b l r =
      rw (cap-step op b) at
        (run-Refines_from ops (step op b) (log_step b.cap op l) (step-Refines op b l r))

  -- After any sequence of pushes, acknowledgements and clears, the buffer holds exactly the
  -- pending updates of the log that the same sequence makes, oldest first, each under its position in
  -- the log as its id, and at most `cap` of them.
  pub run-Refines :
      (ops : List (BufferOp U))
      → Refines (run ops new_update_buffer) (log_run default_buffer_cap ops new_log)
  unfolding new_update_buffer
  run-Refines ops = run-Refines_from ops new_update_buffer new_log new-Refines

  -- Under a positive offset `Peek` acknowledges what lies below it, and it returns the first `limit` updates
  -- that are then pending.
  pub peek-Refines :
      (offset limit : ℕ) (b : UpdateBuffer U) (l : Log U)
      → Refines b l
      → 0 < offset
      → Refines (peek offset limit b).0 (log_ack offset l)
        × ((peek offset limit b).1 ≡ first_items limit (pending (log_ack offset l)))
  unfolding peek
  peek-Refines offset limit b l r h =
      let r' = ack-Refines offset b l r in
      rw (lt→ltb 0 offset h) (unfold ack in (r', ap (first_items limit) r'.items))

  -- Where no item reaches the offset, all are skipped, and nowhere else.
  skip_below-has_ready :
      (xs : List (UpdateItem U)) (offset : ℕ)
      → (skip_below offset xs ≡ []) ↔ (has_ready xs offset ≡ false)
  unfolding skip_below has_ready
  skip_below-has_ready [] offset = (λ _. refl, λ _. refl)
  skip_below-has_ready (x ∷ xs) offset =
      let ih = skip_below-has_ready xs offset in
      (λ h. ground (arith, ih.0), λ h. ground (arith, ih.1))

  first_items-nil : (limit : ℕ) (xs : List (UpdateItem U)) → (first_items limit xs ≡ []) ↔ (xs ≡ [])
  unfolding first_items
  first_items-nil zero [] = (λ _. refl, λ _. ground arith)
  first_items-nil (suc n) [] = (λ _. refl, λ _. ground arith)
  first_items-nil zero (x ∷ xs) = (λ h. h, λ h. h)
  first_items-nil (suc n) (x ∷ xs) = (λ h. ground arith, λ h. cc)

  nil-has_ready : (xs : List (UpdateItem U)) → (xs ≡ []) ↔ (has_ready xs 0 ≡ false)
  unfolding has_ready
  nil-has_ready [] = (λ _. refl, λ _. refl)
  nil-has_ready (x ∷ xs) = (λ h. cc, λ h. ground arith)

  snapshot_pos :
      (n limit : ℕ) (xs : List (UpdateItem U))
      → snapshot_locked xs (suc n) limit ≡ first_items limit (skip_below (suc n) xs)
  unfolding snapshot_locked
  snapshot_pos n limit xs = rw (lt→ltb 0 (suc n) (omega arith))

  -- The readiness test of `Wait` is exactly that its snapshot will hold an item.
  pub has_ready-snapshot :
      (xs : List (UpdateItem U)) (offset limit : ℕ)
      → (snapshot_locked xs offset limit ≡ []) ↔ (has_ready xs offset ≡ false)
  unfolding snapshot_locked
  has_ready-snapshot xs zero limit = (
    λ h. (nil-has_ready xs).0 ((first_items-nil limit xs).0 h),
    λ h. (first_items-nil limit xs).1 ((nil-has_ready xs).1 h),
  )
  has_ready-snapshot xs (suc n) limit =
      let kept = skip_below (suc n) xs in
      rw (snapshot_pos n limit xs) (
        λ h. (skip_below-has_ready xs (suc n)).0 ((first_items-nil limit kept).0 h),
        λ h. (first_items-nil limit kept).1 ((skip_below-has_ready xs (suc n)).1 h),
      )
