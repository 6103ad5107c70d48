-- ===== src/Server/GetUpdates/Laws.antt =====
-- What a call of `getUpdates` delivers, and what it leaves in the queue.
use tgbotd.Prelude.{
  ℕ, suc, ◌+◌, ◌≤◌, ◌<◌, ◌≡◌, refl, List, [], ◌∷◌, Option, none, some, arith, lt→ltb, le→ltb_false,
  length,
}
use tgbotd.Botmgr.Updates.{UpdateItem, UpdateBuffer, ack}
use tgbotd.Botmgr.Updates.Order.{IsAscending}
use tgbotd.Server.GetUpdates.{Delivered, prepend, translated, last_id, last_delivered, auto_ack}

module _ {U : Type 0} where
  abbrev pub last_item : UpdateItem U → List (UpdateItem U) → UpdateItem U
  last_item x [] = x
  last_item x (y ∷ ys) = last_item y ys

  le-last_id :
      (x : UpdateItem U) (xs : List (UpdateItem U))
      → IsAscending (suc x.id) xs
      → x.id ≤ last_id x.id xs
  le-last_id x [] h = omega arith
  le-last_id x (y ∷ ys) h = omega (arith, h.0, le-last_id y ys h.1)

module _ {V : Type 0} where
  -- Each `update_id` is at least `n`, and greater than the one before.
  abbrev pub IsRising : ℕ → List (Delivered V) → Type 0
  IsRising n [] = Unit
  IsRising n (d ∷ ds) = (n ≤ d.update_id) × IsRising (suc d.update_id) ds

  IsRising-mono : (m n : ℕ) (ds : List (Delivered V)) → m ≤ n → IsRising n ds → IsRising m ds
  IsRising-mono m n [] le h = tt
  IsRising-mono m n (d ∷ ds) le h = (omega arith, h.1)

module _ {U V : Type 0} (translate : U → Option V) where
  pub translated-IsRising :
      (n : ℕ) (xs : List (UpdateItem U)) → IsAscending n xs → IsRising n (translated translate xs)
  unfolding translated
  translated-IsRising n [] h = tt
  translated-IsRising n (x ∷ xs) h =
      let later = translated-IsRising (suc x.id) xs h.1 in
      elim (translate x.update) as (λ o. IsRising n (prepend x.id o (translated translate xs))) [
        | none ↦ IsRising-mono n (suc x.id) (translated translate xs) (omega arith) later
        | some v ↦ (h.0, later)
      ]

  pub length-translated : (xs : List (UpdateItem U)) → length (translated translate xs) ≤ length xs
  unfolding translated
  length-translated [] = omega arith
  length-translated (x ∷ xs) = ground (arith, length-translated xs)

  -- Where the last item has no translation, the last one delivered stands before it.
  last_delivered-lt :
      (n k : ℕ) (x : UpdateItem U) (xs : List (UpdateItem U))
      → IsAscending n (x ∷ xs)
      → k < x.id
      → translate (last_item x xs).update ≡ none
      → last_delivered k (translated translate (x ∷ xs)) < last_id x.id xs
  unfolding translated
  last_delivered-lt n k x [] h lt e = rw e lt
  last_delivered-lt n k x (y ∷ ys) h lt e =
      elim (translate x.update)
        as (λ o.
          last_delivered k (prepend x.id o (translated translate (y ∷ ys))) < last_id y.id ys) [
            | none ↦ last_delivered-lt (suc x.id) k y ys h.1 (omega arith) e
            | some v ↦ last_delivered-lt (suc x.id) x.id y ys h.1 (omega arith) e
          ]

  -- Where the last item has a translation, it is the last one delivered.
  last_delivered-eq :
      (k : ℕ) (x : UpdateItem U) (xs : List (UpdateItem U)) (v : V)
      → translate (last_item x xs).update ≡ some v
      → last_delivered k (translated translate (x ∷ xs)) ≡ last_id x.id xs
  unfolding translated
  last_delivered-eq k x [] v e = rw e
  last_delivered-eq k x (y ∷ ys) v e =
      elim (translate x.update)
        as (λ o.
          last_delivered k (prepend x.id o (translated translate (y ∷ ys))) ≡ last_id y.id ys) [
            | none ↦ last_delivered-eq k y ys v e
            | some w ↦ last_delivered-eq x.id y ys v e
          ]

  -- The untranslatable tail is acknowledged, and all before it.
  pub auto_ack_tail :
      (x : UpdateItem U) (xs : List (UpdateItem U)) (b : UpdateBuffer U) (n : ℕ)
      → IsAscending (suc n) (x ∷ xs)
      → translate (last_item x xs).update ≡ none
      → auto_ack translate x xs (translated translate (x ∷ xs)) b ≡ ack (last_id x.id xs + 1) b
  auto_ack_tail x xs b n h e =
      by_out (translated translate (x ∷ xs)) (last_delivered-lt (suc n) 0 x xs h (omega arith) e)
    where
      by_out :
          (out : List (Delivered V))
          → last_delivered 0 out < last_id x.id xs
          → auto_ack translate x xs out b ≡ ack (last_id x.id xs + 1) b
      by_out [] lt = unfold auto_ack in refl
      by_out (d ∷ ds) lt =
          unfold auto_ack in rw (lt→ltb (last_delivered d.update_id ds) (last_id x.id xs) lt)

  pub auto_ack_kept :
      (x : UpdateItem U) (xs : List (UpdateItem U)) (b : UpdateBuffer U) (n : ℕ) (v : V)
      → IsAscending (suc n) (x ∷ xs)
      → translate (last_item x xs).update ≡ some v
      → auto_ack translate x xs (translated translate (x ∷ xs)) b ≡ b
  auto_ack_kept x xs b n v h e =
      by_out (translated translate (x ∷ xs)) (last_delivered-eq 0 x xs v e)
    where
      by_out :
          (out : List (Delivered V))
          → last_delivered 0 out ≡ last_id x.id xs
          → auto_ack translate x xs out b ≡ b
      by_out [] eq = absurd (omega (arith, h.0, le-last_id x xs h.1))
      by_out (d ∷ ds) eq =
          unfold auto_ack in
          rw (le→ltb_false (last_delivered d.update_id ds) (last_id x.id xs) (omega arith))
