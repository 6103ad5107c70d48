-- ===== src/Server/GetUpdates.antt =====
-- `getUpdates` of internal/server/methods_updates.go. The translation of an update to the Bot API,
-- `tlate.UpdateToBotAPI` in the context of the moment, is a function `translate` here; `none` is nil.
pub mod Laws
pub mod Delivery
pub mod Tests
use tgbotd.Prelude.{
  ℕ, ◌+◌, List, [], ◌∷◌, Option, none, some, Bool, true, false, ltb, ◌==◌, if◌then◌else◌,
}
use tgbotd.Prelude.Int.{ℤ, pos, negsuc}
use tgbotd.Botmgr.Updates.{UpdateItem, UpdateBuffer, ack}
use tgbotd.Botmgr.Updates.Wait.{WaitEvent, wait}
use tgbotd.Botmgr.Updates.Runs.{run}
use tgbotd.Botmgr.Updates.Snapshots.{effects}

-- A parameter that counts only if it is there and positive.
abbrev pub positive : Option ℤ → ℕ
positive none = 0
positive (some (pos n)) = n
positive (some (negsuc n)) = 0

unfoldable pub limit_param : Option ℤ → ℕ
limit_param p = let n = positive p in if n == 0 then 100 else if ltb 100 n then 100 else n

unfoldable pub timeout_param : Option ℤ → ℕ
timeout_param p = let n = positive p in if ltb 50 n then 50 else n

unfoldable pub offset_param : Option ℤ → ℕ
offset_param p = positive p

-- A translated update under its `update_id`.
pub record Delivered (V : Type 0) : Type 0 where
  pub update_id : ℕ
  pub body : V

module _ {V : Type 0} where
  abbrev pub prepend : ℕ → Option V → List (Delivered V) → List (Delivered V)
  prepend id none out = out
  prepend id (some v) out = record { update_id = id; body = v } ∷ out

  abbrev pub last_delivered : ℕ → List (Delivered V) → ℕ
  last_delivered k [] = k
  last_delivered k (d ∷ ds) = last_delivered d.update_id ds

-- `items[len(items)-1].ID` of the items `x ∷ xs` is `last_id x.id xs`.
abbrev pub last_id : {U : Type 0} → ℕ → List (UpdateItem U) → ℕ
last_id k [] = k
last_id k (x ∷ xs) = last_id x.id xs

module _ {U V : Type 0} (translate : U → Option V) where
  -- The loop over the items skips what has no translation.
  unfoldable pub translated : List (UpdateItem U) → List (Delivered V)
  translated [] = []
  translated (x ∷ xs) = prepend x.id (translate x.update) (translated xs)

  -- What is acknowledged of the items `x ∷ xs` after the translation `out`.
  unfoldable pub auto_ack :
      UpdateItem U → List (UpdateItem U) → List (Delivered V) → UpdateBuffer U → UpdateBuffer U
  auto_ack x xs [] b = ack (last_id x.id xs + 1) b
  auto_ack x xs (d ∷ ds) b =
      if ltb (last_delivered d.update_id ds) (last_id x.id xs)
      then ack (last_id x.id xs + 1) b
      else b

  -- The answer to the items of a snapshot; `during` are the moves of the others while they are translated.
  unfoldable pub answer :
      List (WaitEvent U)
      → UpdateBuffer U
      → List (UpdateItem U)
      → UpdateBuffer U × List (Delivered V)
  answer during b [] = (b, [])
  answer during b (x ∷ xs) =
      (auto_ack x xs (translated (x ∷ xs)) (run (effects during) b), translated (x ∷ xs))

  -- `es` are the moves of the others while the request waits; `none`: it has not returned yet.
  unfoldable pub get_updates :
      Option ℤ
      → Option ℤ
      → Option ℤ
      → Bool
      → List (WaitEvent U)
      → List (WaitEvent U)
      → UpdateBuffer U
      → Option (UpdateBuffer U × List (Delivered V))
  get_updates limit timeout offset gone es during b =
      let acked = if ltb 0 (offset_param offset) then ack (offset_param offset) b else b in
      elim (wait (offset_param offset) (limit_param limit) (timeout_param timeout) gone es acked) [
        | none ↦ none
        | some (b', items) ↦ some (answer during b' items)
      ]
