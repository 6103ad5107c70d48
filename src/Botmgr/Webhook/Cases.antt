-- ===== src/Botmgr/Webhook/Cases.antt =====
-- The five ways in which the loop of `deliverer.run` deals with an item.
use tgbotd.Prelude.{
  ℕ, ◌+◌, ◌≤◌, ◌<◌, ◌≡◌, List, ◌∷◌, Option, none, some, Bool, true, false, leb, arith, Bool-cases,
  Option-cases, inl, inr, leb→le,
}
use tgbotd.Botmgr.Updates.{UpdateItem}
use tgbotd.Botmgr.Webhook.{
  max_delivery_attempts, count_of, delete_count, set_count, Deliverer, failed, stopped, Outcome,
  posting, ends_with, deliver_items,
}

module _ {ℓ} {U V : Type 0} (translate : U → Option V) (delivers stops : UpdateItem U → Bool)
    (P : Outcome → Type ℓ) where
  pub deliver_cases :
      (x : UpdateItem U) (xs : List (UpdateItem U)) (last : ℕ) (d : Deliverer)
      → (stops x ≡ true → P (ends_with stopped last d))
      → (translate x.update ≡ none
          → P (
              deliver_items translate delivers stops xs
                (x.id + 1)
                (record d { attempts = delete_count x.id d.attempts })))
      → ((v : V)
          → translate x.update ≡ some v
          → delivers x ≡ true
          → P (
              posting x.id (
                deliver_items translate delivers stops xs
                  (x.id + 1)
                  (record { backoff = 1; attempts = delete_count x.id d.attempts }))))
      → ((v : V)
          → translate x.update ≡ some v
          → delivers x ≡ false
          → max_delivery_attempts ≤ count_of x.id d.attempts + 1
          → P (
              posting x.id (
                deliver_items translate delivers stops xs (x.id + 1) (record d {
                  attempts =
                      delete_count x.id (set_count x.id (count_of x.id d.attempts + 1) d.attempts);
                }))))
      → ((v : V)
          → translate x.update ≡ some v
          → delivers x ≡ false
          → count_of x.id d.attempts + 1 < max_delivery_attempts
          → P (
              posting x.id (
                ends_with failed last (record d {
                  attempts = set_count x.id (count_of x.id d.attempts + 1) d.attempts;
                }))))
      → P (deliver_items translate delivers stops (x ∷ xs) last d)
  unfolding deliver_items
  deliver_cases x xs last d stopping skipped sent dropped refused =
      let count = count_of x.id d.attempts + 1 in
      elim (Bool-cases (stops x)) [
        | inl e ↦ rw (e, deliver_items) (stopping e)
        | inr e ↦
            rw (e, deliver_items)
              (elim (Option-cases (translate x.update)) [
                | inl e' ↦ rw e' (skipped e')
                | inr (v, e') ↦ rw e' (elim (Bool-cases (delivers x)) [
                  | inl e'' ↦ rw e'' (sent v e' e'')
                  | inr e'' ↦ rw e'' (elim (Bool-cases (leb max_delivery_attempts count)) [
                    | inl many ↦
                        rw many (dropped v e' e'' (leb→le max_delivery_attempts count many))
                    | inr few ↦ rw few (refused v e' e'' (ground arith))
                  ])
                ])
              ])
      ]
