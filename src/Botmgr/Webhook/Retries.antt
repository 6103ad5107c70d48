-- ===== src/Botmgr/Webhook/Retries.antt =====
-- How long `deliverer.run` of internal/botmgr/webhook.go goes on with an update that the endpoint refuses.
use tgbotd.Prelude.{
  ℕ, suc, ◌+◌, ◌≤◌, ◌<◌, ◌≡◌, List, [], ◌∷◌, Option, some, Bool, true, false, leb, length, arith,
}
use tgbotd.Botmgr.Updates.{UpdateItem}
use tgbotd.Botmgr.Updates.Order.{IsAscending}
use tgbotd.Botmgr.Webhook.{
  max_delivery_attempts, count_of, delete_count, set_count, Deliverer, deliver_items, after_round,
}
use tgbotd.Botmgr.Webhook.Cases.{deliver_cases}
use tgbotd.Botmgr.Webhook.Attempts.{count_of-set_self}

module _ {U V : Type 0} (translate : U → Option V) (delivers stops : UpdateItem U → Bool) where
  -- The acknowledged id never falls.
  last_acked-ge :
      (xs : List (UpdateItem U)) (last : ℕ) (d : Deliverer)
      → IsAscending last xs
      → last ≤ (deliver_items translate delivers stops xs last d).last_acked
  unfolding deliver_items
  last_acked-ge [] last d up = omega arith
  last_acked-ge (x ∷ xs) last d up =
      deliver_cases translate delivers stops (λ o. last ≤ o.last_acked) x xs last d
        (λ _. omega arith)
        (λ _. omega (
          arith,
          up.0,
          last_acked-ge xs (x.id + 1) (record d { attempts = delete_count x.id d.attempts })
              (next x xs up.1),
        ))
        (λ v _ _. omega (
          arith,
          up.0,
          last_acked-ge xs (x.id + 1)
              (record { backoff = 1; attempts = delete_count x.id d.attempts }) (next x xs up.1),
        ))
        (λ v _ _ _. omega (
          arith,
          up.0,
          last_acked-ge xs (x.id + 1)
              (record d {
                attempts =
                    delete_count x.id (set_count x.id (count_of x.id d.attempts + 1) d.attempts);
              })
              (next x xs up.1),
        ))
        (λ v _ _ _. omega arith)
    where
      next :
          (x : UpdateItem U) (xs : List (UpdateItem U))
          → IsAscending (suc x.id) xs
          → IsAscending (x.id + 1) xs
      next x [] h = tt
      next x (y ∷ ys) h = (omega (arith, h.0), h.1)

  -- The deliverer after rounds whose snapshots all begin with `x`, with these items behind it.
  abbrev pub after_rounds : UpdateItem U → List (List (UpdateItem U)) → Deliverer → Deliverer
  after_rounds x [] d = d
  after_rounds x (xs ∷ xss) d =
      after_rounds x xss (after_round (deliver_items translate delivers stops (x ∷ xs) 0 d))

  one_more :
      (x : UpdateItem U) (xs : List (UpdateItem U)) (d : Deliverer) (v : V)
      → stops x ≡ false
      → translate x.update ≡ some v
      → delivers x ≡ false
      → count_of x.id d.attempts + 1 < max_delivery_attempts
      → count_of x.id (after_round (deliver_items translate delivers stops (x ∷ xs) 0 d)).attempts
        ≡ count_of x.id d.attempts + 1
  unfolding deliver_items after_round
  one_more x xs d v runs e refuses few =
      let under : leb max_delivery_attempts (count_of x.id d.attempts + 1) ≡ false = ground arith in
      rw (runs, deliver_items)
        (rw (e, refuses, under) (count_of-set_self x.id (count_of x.id d.attempts + 1) d.attempts))

  count_after :
      (x : UpdateItem U) (xss : List (List (UpdateItem U))) (d : Deliverer) (v : V)
      → stops x ≡ false
      → translate x.update ≡ some v
      → delivers x ≡ false
      → count_of x.id d.attempts + length xss < max_delivery_attempts
      → count_of x.id (after_rounds x xss d).attempts ≡ count_of x.id d.attempts + length xss
  count_after x [] d v runs e refuses few = omega arith
  count_after x (xs ∷ xss) d v runs e refuses few =
      let d' = after_round (deliver_items translate delivers stops (x ∷ xs) 0 d) in
      let more = one_more x xs d v runs e refuses (omega arith) in
      omega (arith, more, count_after x xss d' v runs e refuses (omega (arith, more)))

  -- An update with a translation and no attempts yet, which the endpoint refuses every time
  -- and no stop signal meets, is acknowledged by the eighth of eight rounds that begin with
  -- it, whatever stands behind it, if the ids behind it rise in that round.
  pub deliver_items-eighth_round :
      (x : UpdateItem U) (xss : List (List (UpdateItem U))) (xs : List (UpdateItem U))
      (d : Deliverer) (v : V)
      → stops x ≡ false
      → translate x.update ≡ some v
      → delivers x ≡ false
      → count_of x.id d.attempts ≡ 0
      → length xss ≡ 7
      → IsAscending (x.id + 1) xs
      → x.id < (deliver_items translate delivers stops (x ∷ xs) 0 (after_rounds x xss d)).last_acked
  unfolding deliver_items
  deliver_items-eighth_round x xss xs d v runs e refuses new seven up =
      let d' = after_rounds x xss d in
      let count = count_after x xss d v runs e refuses (omega arith) in
      let over : leb max_delivery_attempts (count_of x.id d'.attempts + 1) ≡ true = ground arith in
      rw (runs, deliver_items)
        (rw (e, refuses, over)
          (omega (
            arith,
            last_acked-ge xs (x.id + 1)
                (record d' {
                  attempts =
                      delete_count x.id
                        (set_count x.id (count_of x.id d'.attempts + 1) d'.attempts);
                })
                up,
          )))
