-- ===== src/Botmgr/Webhook/Tests.antt =====
-- A round of the webhook's loop on three items: the first has no translation, the endpoint takes the second and
-- refuses the third.
use tgbotd.Prelude.{
  ℕ, ◌<◌, ◌≡◌, refl, List, [], ◌∷◌, Bool, false, Option, none, some, arith, ◌==◌, if◌then◌else◌,
}
use tgbotd.Botmgr.Updates.{UpdateItem}
use tgbotd.Botmgr.Webhook.{new_deliverer, deliver_items, failed, count_of, delete_count, set_count}
use tgbotd.Botmgr.Webhook.Attempts.{IsDeliverer}
use tgbotd.Botmgr.Webhook.Retries.{after_rounds, deliver_items-eighth_round}
use tgbotd.Botmgr.Webhook.Prefix.{Report, deliver_items-Report}

abbrev not_70 : ℕ → Option ℕ
not_70 u = if u == 70 then none else some u

abbrev takes_second : UpdateItem ℕ → Bool
takes_second x = x.id == 2

abbrev never_stops : UpdateItem ℕ → Bool
never_stops x = false

abbrev three_items : List (UpdateItem ℕ)
three_items =
    record { id = 1; update = 70 }
    ∷ record { id = 2; update = 80 }
    ∷ record { id = 3; update = 90 }
    ∷ []

three_delivered :
    deliver_items not_70 takes_second never_stops three_items 0 new_deliverer ≡ record {
      last_acked = 3;
      state = record { backoff = 1; attempts = (3, 1) ∷ [] };
      ending = failed;
      posts = 2 ∷ 3 ∷ [];
    }
unfolding deliver_items count_of delete_count set_count
three_delivered = refl

new_deliverer-IsDeliverer : IsDeliverer new_deliverer
new_deliverer-IsDeliverer = record { below = tt; waits = omega arith; capped = omega arith }

deliver_items-Report_example :
    Report not_70 takes_second never_stops [] three_items 0
      (deliver_items not_70 takes_second never_stops three_items 0 new_deliverer)
deliver_items-Report_example =
    deliver_items-Report not_70 takes_second never_stops 1 three_items new_deliverer (omega arith)

abbrev stuck : UpdateItem ℕ
stuck = record { id = 3; update = 90 }

abbrev behind : List (UpdateItem ℕ)
behind = record { id = 4; update = 100 } ∷ []

-- Nothing stands behind the stuck update at first, and one update later.
abbrev seven_rounds : List (List (UpdateItem ℕ))
seven_rounds = [] ∷ [] ∷ [] ∷ behind ∷ behind ∷ behind ∷ behind ∷ []

no_attempts : count_of 3 new_deliverer.attempts ≡ 0
unfolding count_of
no_attempts = refl

deliver_items-eighth_round_example :
    3
    < (deliver_items not_70 takes_second never_stops
        (stuck ∷ behind)
        0
        (after_rounds not_70 takes_second never_stops stuck seven_rounds new_deliverer)).last_acked
deliver_items-eighth_round_example =
    deliver_items-eighth_round not_70 takes_second never_stops stuck seven_rounds behind
      new_deliverer 90 refl refl refl no_attempts refl (omega arith)
