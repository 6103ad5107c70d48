-- ===== src/Server/GetUpdates/Delivery.antt =====
-- `getUpdates` of internal/server/methods_updates.go against the log of the bot's updates.
use tgbotd.Prelude.{
  ℕ, suc, ◌+◌, ◌≤◌, ◌<◌, max, ◌≡◌, refl, ap, ◌∙◌, sym, subst, List, [], ◌∷◌, ◌++◌, Option, none,
  some, Bool, ltb, if◌then◌else◌, arith, Option-cases, inl, inr, All, length, min, ◌-◌, drop_all,
  lt→ltb,
}
use mathlib.Core.Option.{some-injective}
use tgbotd.Prelude.Int.{ℤ, pos, negsuc}
use tgbotd.Botmgr.Updates.{
  UpdateItem, UpdateBuffer, ack, first_items, snapshot_locked, has_ready, skip_below,
}
use tgbotd.Botmgr.Updates.Wait.{WaitEvent, wait}
use tgbotd.Botmgr.Updates.Refinement.{Log, Refines, log_ack, pending, ack-Refines}
use tgbotd.Botmgr.Updates.Runs.{run, log_run, run-Refines_from}
use tgbotd.Botmgr.Updates.Snapshots.{effects, wait_snapshot}
use tgbotd.Botmgr.Updates.Order.{
  IsAscending, IsAscending-All, first_items-IsAscending, length-first_items, pending-IsAscending,
  accept-Refines, snapshot-pending,
}
use tgbotd.Server.GetUpdates.{
  Delivered, translated, last_id, answer, get_updates, limit_param, timeout_param, offset_param,
}
use tgbotd.Server.GetUpdates.Laws.{
  last_item, IsRising, translated-IsRising, length-translated, auto_ack_tail, auto_ack_kept,
}

limit_param_bounds : (p : Option ℤ) → (0 < limit_param p) × (limit_param p ≤ 100)
unfolding limit_param
limit_param_bounds none = (ground arith, ground arith)
limit_param_bounds (some (pos n)) = (ground arith, ground arith)
limit_param_bounds (some (negsuc n)) = (ground arith, ground arith)

none≢some : {A : Type 0} {a : A} → none ≡ some a → ⊥
none≢some h = cc

module _ {U : Type 0} where
  abbrev pub accepted : ℕ → UpdateBuffer U → UpdateBuffer U
  accepted offset b = if ltb 0 offset then ack offset b else b

  cap-accepted : (offset : ℕ) (b : UpdateBuffer U) → (accepted offset b).cap ≡ b.cap
  unfolding ack
  cap-accepted offset b = ground arith

  -- The log when the snapshot is taken.
  abbrev pub log_seen : ℕ → ℕ → List (WaitEvent U) → Log U → Log U
  log_seen cap offset seen l = log_run cap (effects seen) (log_ack offset l)

  seen-Refines :
      (offset : ℕ) (seen : List (WaitEvent U)) (b : UpdateBuffer U) (l : Log U)
      → Refines b l
      → Refines (run (effects seen) (accepted offset b)) (log_seen b.cap offset seen l)
  seen-Refines offset seen b l r = rw (cap-accepted offset b) at (
      run-Refines_from (effects seen) (accepted offset b) (log_ack offset l)
        (accept-Refines offset b l r))

  pending_ahead :
      (offset : ℕ) (l : Log U) → suc (length l.history) < offset → pending (log_ack offset l) ≡ []
  pending_ahead offset l h =
      let m = max l.gone (min (offset - 1) (length l.history)) in
      rw (drop_all m l.history (omega arith))

  accepted_ahead :
      (offset : ℕ) (b : UpdateBuffer U) (l : Log U)
      → Refines b l
      → b.next_id < offset
      → accepted offset b ≡ record b { items = [] }
  unfolding ack
  accepted_ahead offset b l r ahead =
      let r' = ack-Refines offset b l r in
      let none_left : skip_below offset b.items ≡ [] =
        r'.items ∙ pending_ahead offset l (omega (arith, r.next)) in
      rw (lt→ltb 0 offset (omega arith), none_left)

  wait_instant :
      (offset limit : ℕ) (gone : Bool) (es : List (WaitEvent U)) (b : UpdateBuffer U)
      → wait offset limit 0 gone es (record b { items = [] }) ≡ some (record b { items = [] }, [])
  unfolding wait has_ready
  wait_instant offset limit gone es b = refl

  snapshot-IsAscending :
      (b : UpdateBuffer U) (l : Log U) (offset limit : ℕ) (x : UpdateItem U)
      (xs : List (UpdateItem U))
      → Refines b l
      → snapshot_locked b.items offset limit ≡ x ∷ xs
      → IsAscending 1 (x ∷ xs)
  snapshot-IsAscending b l offset limit x xs r e =
      let up =
        first_items-IsAscending limit (max 1 offset) (pending (log_ack offset l))
          (pending-IsAscending offset l) in
      let up' =
        subst (IsAscending (max 1 offset)) (sym (snapshot-pending offset limit b l r) ∙ e) up in
      (omega (arith, up'.0), up'.1)

module _ {U V : Type 0} (translate : U → Option V) where
  -- The call answers the snapshot of a buffer that the moves of the others made while it waited.
  get_updates_inv :
      (limit timeout offset : Option ℤ) (gone : Bool) (es during : List (WaitEvent U))
      (b b' : UpdateBuffer U) (out : List (Delivered V))
      → get_updates translate limit timeout offset gone es during b ≡ some (b', out)
      → (seen rest : List (WaitEvent U)) × (es ≡ seen ++ rest)
        × ((b', out)
            ≡ answer translate during (run (effects seen) (accepted (offset_param offset) b)) (
                snapshot_locked
                  (run (effects seen) (accepted (offset_param offset) b)).items
                  (offset_param offset)
                  (limit_param limit)))
  unfolding get_updates
  get_updates_inv limit timeout offset gone es during b b' out h =
      let off = offset_param offset in
      let lim = limit_param limit in
      elim (Option-cases (wait off lim (timeout_param timeout) gone es (accepted off b))) [
        | inl never ↦ absurd (none≢some (rw (never, get_updates) at h))
        | inr ((b2, items), e) ↦
            let (seen, rest, parts, made, snap) =
              wait_snapshot off lim (timeout_param timeout) gone es (accepted off b) b2 items e in
            let same : answer translate during b2 items ≡ (b', out) =
              some-injective _ _ (rw (e, get_updates) at h) in
            (seen, rest, parts, sym same ∙ rw snap (rw made))
      ]

  answer-out :
      (during : List (WaitEvent U)) (b : UpdateBuffer U) (xs : List (UpdateItem U))
      → (answer translate during b xs).1 ≡ translated translate xs
  unfolding answer translated
  answer-out during b [] = refl
  answer-out during b (x ∷ xs) = refl

  -- A call that returns delivers the translations of the first `limit` updates that are pending at or after
  -- its offset in the log as it stands after some front part of the moves of the others, the offset having
  -- been acknowledged when the call began.
  pub get_updates_contents :
      (limit timeout offset : Option ℤ) (gone : Bool) (es during : List (WaitEvent U))
      (b b' : UpdateBuffer U) (out : List (Delivered V)) (l : Log U)
      → Refines b l
      → get_updates translate limit timeout offset gone es during b ≡ some (b', out)
      → (seen rest : List (WaitEvent U)) × (es ≡ seen ++ rest)
        × (out
            ≡ translated translate (
                first_items (limit_param limit) (
                  pending
                    (log_ack (offset_param offset) (log_seen b.cap (offset_param offset) seen l)))))
  get_updates_contents limit timeout offset gone es during b b' out l r h =
      let off = offset_param offset in
      let (seen, rest, parts, e) = get_updates_inv limit timeout offset gone es during b b' out h in
      let b2 = run (effects seen) (accepted off b) in
      let snap =
        snapshot-pending off (limit_param limit) b2 (log_seen b.cap off seen l)
          (seen-Refines off seen b l r) in
      (
        seen,
        rest,
        parts,
        ap (λ p. p.1) e
            ∙ answer-out during b2 (snapshot_locked b2.items off (limit_param limit))
            ∙ ap (translated translate) snap,
      )

  -- The ids of the updates that a call delivers rise strictly, none is below the offset or below 1, and
  -- there are at most `limit` of them, 100 in any case.
  pub get_updates_order :
      (limit timeout offset : Option ℤ) (gone : Bool) (es during : List (WaitEvent U))
      (b b' : UpdateBuffer U) (out : List (Delivered V)) (l : Log U)
      → Refines b l
      → get_updates translate limit timeout offset gone es during b ≡ some (b', out)
      → IsRising (max 1 (offset_param offset)) out
        × (length out ≤ limit_param limit)
        × (limit_param limit ≤ 100)
  get_updates_order limit timeout offset gone es during b b' out l r h =
      let off = offset_param offset in
      let lim = limit_param limit in
      let (seen, rest, parts, e) =
        get_updates_contents limit timeout offset gone es during b b' out l r h in
      let waiting = pending (log_ack off (log_seen b.cap off seen l)) in
      let bounds = limit_param_bounds limit in
      rw e (
        translated-IsRising translate (max 1 off) (first_items lim waiting) (
            first_items-IsAscending lim (max 1 off) waiting
              (pending-IsAscending off (log_seen b.cap off seen l))),
        omega (
          arith,
          length-translated translate (first_items lim waiting),
          length-first_items lim waiting bounds.0,
        ),
        bounds.1,
      )

  -- A snapshot that ends with a translatable update consumes nothing: what the call leaves is
  -- the buffer that the moves of the others made meanwhile.
  pub answer_keeps :
      (during : List (WaitEvent U)) (b : UpdateBuffer U) (l : Log U) (offset limit : ℕ)
      (x : UpdateItem U) (xs : List (UpdateItem U)) (v : V)
      → Refines b l
      → snapshot_locked b.items offset limit ≡ x ∷ xs
      → translate (last_item x xs).update ≡ some v
      → (answer translate during b (x ∷ xs)).0 ≡ run (effects during) b
  unfolding answer
  answer_keeps during b l offset limit x xs v r e last =
      let up = snapshot-IsAscending b l offset limit x xs r e in
      auto_ack_kept translate x xs (run (effects during) b) 0 v up last

  -- A snapshot that ends with an untranslatable update is consumed whole: nothing of it is
  -- left in the queue, the updates that the call delivers included.
  pub answer_drops :
      (during : List (WaitEvent U)) (b : UpdateBuffer U) (l : Log U) (offset limit : ℕ)
      (x : UpdateItem U) (xs : List (UpdateItem U))
      → Refines b l
      → snapshot_locked b.items offset limit ≡ x ∷ xs
      → translate (last_item x xs).update ≡ none
      → All (λ y. last_id x.id xs < y.id) (answer translate during b (x ∷ xs)).0.items
  unfolding answer
  answer_drops during b l offset limit x xs r e last =
      let up = snapshot-IsAscending b l offset limit x xs r e in
      let later = run (effects during) b in
      let l' = log_run b.cap (effects during) l in
      let r' =
        ack-Refines (last_id x.id xs + 1) later l' (run-Refines_from (effects during) b l r) in
      rw (auto_ack_tail translate x xs later 0 up last, r'.items)
        (IsAscending-All (max 1 (last_id x.id xs + 1)) (suc (last_id x.id xs))
          (pending (log_ack (last_id x.id xs + 1) l')) (omega arith)
          (pending-IsAscending (last_id x.id xs + 1) l'))

  -- With an offset beyond the next id to be given out, a call that does not wait delivers
  -- nothing and leaves the queue empty, whatever was pending.
  pub get_updates_ahead :
      (limit timeout offset : Option ℤ) (gone : Bool) (es during : List (WaitEvent U))
      (b : UpdateBuffer U) (l : Log U)
      → Refines b l
      → b.next_id < offset_param offset
      → timeout_param timeout ≡ 0
      → get_updates translate limit timeout offset gone es during b
        ≡ some (record b { items = [] }, [])
  unfolding answer get_updates
  get_updates_ahead limit timeout offset gone es during b l r ahead instant =
      let off = offset_param offset in
      rw (accepted_ahead off b l r ahead, instant, get_updates)
        (rw (wait_instant off (limit_param limit) gone es b, get_updates))
