-- ===== src/Server/GetUpdates/Tests.antt =====
-- `getUpdates` on a queue of three updates, of which `not_70` translates all but the number 70.
use tgbotd.Prelude.{
  ℕ, max, ◌≤◌, ◌<◌, ◌≡◌, refl, List, [], ◌∷◌, ◌++◌, false, Option, none, some, arith, All, ◌==◌,
  if◌then◌else◌, length,
}
use tgbotd.Prelude.Int.{pos}
use tgbotd.Botmgr.Updates.{
  UpdateItem, UpdateBuffer, new_update_buffer, push, ack, first_items, has_ready, snapshot_locked,
  default_buffer_cap,
}
use tgbotd.Botmgr.Updates.Wait.{WaitEvent, wait}
use tgbotd.Botmgr.Updates.Refinement.{Log, new_log, log_ack, pending}
use tgbotd.Botmgr.Updates.Runs.{BufferOp, pushes, run, log_run, run-Refines}
use tgbotd.Server.GetUpdates.{
  Delivered, translated, last_id, auto_ack, answer, get_updates, limit_param, timeout_param,
  offset_param,
}
use tgbotd.Server.GetUpdates.Laws.{IsRising}
use tgbotd.Server.GetUpdates.Delivery.{
  log_seen, get_updates_contents, get_updates_order, answer_drops, get_updates_ahead,
}

abbrev not_70 : ℕ → Option ℕ
not_70 u = if u == 70 then none else some u

abbrev first_ops : List (BufferOp ℕ)
first_ops = pushes 60 ∷ pushes 70 ∷ pushes 80 ∷ []

abbrev queue : UpdateBuffer ℕ
queue = run first_ops new_update_buffer

abbrev log : Log ℕ
log = log_run default_buffer_cap first_ops new_log

abbrev item : ℕ → ℕ → UpdateItem ℕ
item i u = record { id = i; update = u }

abbrev sent : ℕ → ℕ → Delivered ℕ
sent i u = record { update_id = i; body = u }

-- The third update is the last of the snapshot, and has a translation: nothing is consumed but what the
-- offset acknowledges.
two_sent :
    get_updates not_70 none none (some (pos 2)) false [] [] queue
    ≡ some (ack 2 queue, sent 3 80 ∷ [])
unfolding run push new_update_buffer get_updates wait has_ready snapshot_locked ack answer
    translated auto_ack limit_param timeout_param offset_param
two_sent = refl

get_updates_contents_example :
    (seen rest : List (WaitEvent ℕ)) × ([] ≡ seen ++ rest)
    × (sent 3 80 ∷ []
        ≡ translated not_70 (
            first_items (limit_param none) (
              pending (
                log_ack
                  (offset_param (some (pos 2)))
                  (log_seen queue.cap (offset_param (some (pos 2))) seen log)))))
get_updates_contents_example =
    get_updates_contents not_70 none none (some (pos 2)) false [] [] queue (ack 2 queue)
      (sent 3 80 ∷ []) log (run-Refines first_ops) two_sent

get_updates_order_example :
    IsRising (max 1 (offset_param (some (pos 2)))) (sent 3 80 ∷ [])
    × (length (sent 3 80 ∷ []) ≤ limit_param none)
    × (limit_param none ≤ 100)
get_updates_order_example =
    get_updates_order not_70 none none (some (pos 2)) false [] [] queue (ack 2 queue)
      (sent 3 80 ∷ []) log (run-Refines first_ops) two_sent

snapshot_all : snapshot_locked queue.items 0 100 ≡ item 1 60 ∷ item 2 70 ∷ item 3 80 ∷ []
unfolding run push new_update_buffer snapshot_locked
snapshot_all = refl

snapshot_two : snapshot_locked queue.items 0 2 ≡ item 1 60 ∷ item 2 70 ∷ []
unfolding run push new_update_buffer snapshot_locked
snapshot_two = refl

-- The first update is delivered and gone, though no offset has acknowledged it.
answer_drops_example :
    All
      (λ y. last_id 1 (item 2 70 ∷ []) < y.id)
      (answer not_70 [] queue (item 1 60 ∷ item 2 70 ∷ [])).0.items
answer_drops_example =
    answer_drops not_70 [] queue log 0 2 (item 1 60) (item 2 70 ∷ []) (run-Refines first_ops)
      snapshot_two refl

next_id_queue : queue.next_id < offset_param (some (pos 1000))
unfolding run push new_update_buffer offset_param
next_id_queue = omega arith

instant : timeout_param none ≡ 0
unfolding timeout_param
instant = refl

get_updates_ahead_example :
    get_updates not_70 none none (some (pos 1000)) false [] [] queue
    ≡ some (record queue { items = [] }, [])
get_updates_ahead_example =
    get_updates_ahead not_70 none none (some (pos 1000)) false [] [] queue log
      (run-Refines first_ops) next_id_queue instant
