-- ===== src/Botmgr/Webhook/Attempts.antt =====
-- The attempt counts and the backoff of internal/botmgr/webhook.go.
use tgbotd.Prelude.{ℕ, ◌+◌, ◌≤◌, ◌<◌, ◌≡◌, ◌≢◌, refl, List, [], ◌∷◌, Option, Bool, arith, All}
use tgbotd.Botmgr.Updates.{UpdateItem}
use tgbotd.Botmgr.Webhook.Cases.{deliver_cases}
use tgbotd.Botmgr.Webhook.{
  max_delivery_attempts, max_backoff, count_of, delete_count, set_count, Deliverer, deliver_items,
  next_backoff, after_round,
}

pub count_of-delete_self : (id : ℕ) (m : List (ℕ × ℕ)) → count_of id (delete_count id m) ≡ 0
unfolding count_of delete_count
count_of-delete_self id [] = refl
count_of-delete_self id ((k, n) ∷ m) = ground (arith, count_of-delete_self id m)

pub count_of-delete_ne :
    (id j : ℕ) (m : List (ℕ × ℕ)) → id ≢ j → count_of j (delete_count id m) ≡ count_of j m
unfolding count_of delete_count
count_of-delete_ne id j [] h = refl
count_of-delete_ne id j ((k, n) ∷ m) h = ground (arith, count_of-delete_ne id j m h)

pub count_of-set_self : (id n : ℕ) (m : List (ℕ × ℕ)) → count_of id (set_count id n m) ≡ n
unfolding count_of set_count
count_of-set_self id n m = ground arith

pub count_of-set_ne :
    (id j n : ℕ) (m : List (ℕ × ℕ)) → id ≢ j → count_of j (set_count id n m) ≡ count_of j m
unfolding count_of set_count
count_of-set_ne id j n m h = ground (arith, count_of-delete_ne id j m h)

-- Counts stay below the limit, and the backoff between 1 and 300 seconds.
pub record IsDeliverer (d : Deliverer) : Type 0 where
  pub below : All (λ e. e.1 < max_delivery_attempts) d.attempts
  pub waits : 1 ≤ d.backoff
  pub capped : d.backoff ≤ max_backoff

delete_below :
    (id : ℕ) (m : List (ℕ × ℕ))
    → All (λ e. e.1 < max_delivery_attempts) m
    → All (λ e. e.1 < max_delivery_attempts) (delete_count id m)
unfolding delete_count
delete_below id [] h = tt
delete_below id ((k, n) ∷ m) h = ground (arith, delete_below id m h.1)

delete_set :
    (id n : ℕ) (m : List (ℕ × ℕ))
    → All (λ e. e.1 < max_delivery_attempts) (delete_count id m)
    → All (λ e. e.1 < max_delivery_attempts) (delete_count id (set_count id n m))
unfolding set_count
delete_set id n m h = unfold delete_count in ground (arith, delete_below id (delete_count id m) h)

set_below :
    (id n : ℕ) (m : List (ℕ × ℕ))
    → n < max_delivery_attempts
    → All (λ e. e.1 < max_delivery_attempts) (delete_count id m)
    → All (λ e. e.1 < max_delivery_attempts) (set_count id n m)
unfolding set_count
set_below id n m few h = (few, h)

module _ {U V : Type 0} (translate : U → Option V) (delivers stops : UpdateItem U → Bool) where
  deliver_items-IsDeliverer :
      (xs : List (UpdateItem U)) (last : ℕ) (d : Deliverer)
      → IsDeliverer d
      → IsDeliverer (deliver_items translate delivers stops xs last d).state
  unfolding deliver_items
  deliver_items-IsDeliverer [] last d h = h
  deliver_items-IsDeliverer (x ∷ xs) last d h =
      let forget = delete_below x.id d.attempts h.below in
      let count = count_of x.id d.attempts + 1 in
      deliver_cases translate delivers stops (λ o. IsDeliverer o.state) x xs last d (λ _. h)
        (λ _.
          deliver_items-IsDeliverer xs (x.id + 1)
            (record d { attempts = delete_count x.id d.attempts })
            (record { below = forget; waits = h.waits; capped = h.capped }))
        (λ v _ _.
          deliver_items-IsDeliverer xs (x.id + 1)
            (record { backoff = 1; attempts = delete_count x.id d.attempts })
            (record { below = forget; waits = omega arith; capped = omega arith }))
        (λ v _ _ _.
          deliver_items-IsDeliverer xs (x.id + 1)
            (record d { attempts = delete_count x.id (set_count x.id count d.attempts) })
            (record {
              below = delete_set x.id count d.attempts forget;
              waits = h.waits;
              capped = h.capped;
            }))
        (λ v _ _ few. record {
          below = set_below x.id count d.attempts few forget;
          waits = h.waits;
          capped = h.capped;
        })

  -- Whatever the endpoint does, a round leaves every attempt count below 8, and the backoff between 1 and 300
  -- seconds.
  pub after_round-IsDeliverer :
      (xs : List (UpdateItem U)) (d : Deliverer)
      → IsDeliverer d
      → IsDeliverer (after_round (deliver_items translate delivers stops xs 0 d))
  unfolding after_round next_backoff
  after_round-IsDeliverer xs d h =
      let v = deliver_items-IsDeliverer xs 0 d h in
      let o = deliver_items translate delivers stops xs 0 d in
      ground (arith, v.below, v.waits, v.capped)
