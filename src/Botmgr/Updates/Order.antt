-- ===== src/Botmgr/Updates/Order.antt =====
-- The ids of a queue rise, and what its snapshots and acknowledgements make of them.
use tgbotd.Prelude.{
  ℕ, zero, suc, ◌-◌, ◌≤◌, ◌<◌, min, max, ◌≡◌, ap, ◌∙◌, sym, List, [], ◌∷◌, leb, ltb, if◌then◌else◌,
  length, drop, take, arith, Bool-cases, inl, inr, lt→ltb, leb→le, All, drop_all, length-take,
}
use tgbotd.Botmgr.Updates.{UpdateItem, UpdateBuffer, ack, first_items, snapshot_locked}
use tgbotd.Botmgr.Updates.Log.{number}
use tgbotd.Botmgr.Updates.Refinement.{Log, Refines, log_ack, pending, ack-Refines}

module _ {U : Type 0} where
  -- Each id is at least `n`, and greater than the one before.
  abbrev pub IsAscending : ℕ → List (UpdateItem U) → Type 0
  IsAscending n [] = Unit
  IsAscending n (x ∷ xs) = (n ≤ x.id) × IsAscending (suc x.id) xs

  pub number-IsAscending : (n m : ℕ) (us : List U) → n ≤ m → IsAscending n (number m us)
  number-IsAscending n m [] h = tt
  number-IsAscending n m (u ∷ us) h = (h, number-IsAscending (suc m) (suc m) us (omega arith))

  take-IsAscending :
      (k n : ℕ) (xs : List (UpdateItem U)) → IsAscending n xs → IsAscending n (take k xs)
  take-IsAscending zero n xs h = tt
  take-IsAscending (suc k) n [] h = tt
  take-IsAscending (suc k) n (x ∷ xs) h = (h.0, take-IsAscending k (suc x.id) xs h.1)

  pub IsAscending-All :
      (n m : ℕ) (xs : List (UpdateItem U)) → m ≤ n → IsAscending n xs → All (λ x. m ≤ x.id) xs
  IsAscending-All n m [] le h = tt
  IsAscending-All n m (x ∷ xs) le h =
      (omega arith, IsAscending-All (suc x.id) m xs (omega arith) h.1)

  pub first_items-IsAscending :
      (limit n : ℕ) (xs : List (UpdateItem U))
      → IsAscending n xs
      → IsAscending n (first_items limit xs)
  unfolding first_items
  first_items-IsAscending limit n xs h = ground (arith, take-IsAscending limit n xs h)

  pub length-first_items :
      (limit : ℕ) (xs : List (UpdateItem U)) → 0 < limit → length (first_items limit xs) ≤ limit
  unfolding first_items
  length-first_items limit xs h = ground (arith, length-take limit xs)

  -- Nothing below an acknowledged offset is pending.
  pub pending-IsAscending :
      (offset : ℕ) (l : Log U) → IsAscending (max 1 offset) (pending (log_ack offset l))
  pending-IsAscending offset l =
      let m = max l.gone (min (offset - 1) (length l.history)) in
      elim (Bool-cases (leb (offset - 1) (length l.history))) [
        | inl within ↦
            let le = leb→le (offset - 1) (length l.history) within in
            number-IsAscending (max 1 offset) (suc m) (drop m l.history) (omega arith)
        | inr beyond ↦
            let gt : length l.history < offset - 1 = ground arith in
            rw (drop_all m l.history (omega arith)) tt
      ]

  pub log_ack_zero : (l : Log U) → log_ack 0 l ≡ l
  log_ack_zero l =
      let e : max l.gone (min (0 - 1) (length l.history)) ≡ l.gone = omega arith in
      ap (λ g. record { history = l.history; gone = g }) e

  -- The guarded acknowledgement at the head of `getUpdates`.
  pub accept-Refines :
      (offset : ℕ) (b : UpdateBuffer U) (l : Log U)
      → Refines b l
      → Refines (if ltb 0 offset then ack offset b else b) (log_ack offset l)
  accept-Refines zero b l r = rw (log_ack_zero l) r
  accept-Refines (suc n) b l r = rw (lt→ltb 0 (suc n) (omega arith)) (ack-Refines (suc n) b l r)

  -- The snapshot at an offset is the front of what is pending once the offset is acknowledged.
  pub snapshot-pending :
      (offset limit : ℕ) (b : UpdateBuffer U) (l : Log U)
      → Refines b l
      → snapshot_locked b.items offset limit ≡ first_items limit (pending (log_ack offset l))
  unfolding snapshot_locked
  snapshot-pending zero limit b l r =
      ap (first_items limit) r.items
      ∙ sym (ap (λ k. first_items limit (pending k)) (log_ack_zero l))
  snapshot-pending (suc n) limit b l r =
      rw (lt→ltb 0 (suc n) (omega arith))
        (unfold ack in ap (first_items limit) (ack-Refines (suc n) b l r).items)
