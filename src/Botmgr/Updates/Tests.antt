-- ===== src/Botmgr/Updates/Tests.antt =====
-- The queue of internal/botmgr/updates.go on small inputs. An update is a number.
use tgbotd.Prelude.{true, ℕ, ◌≡◌, ◌≢◌, refl, List, [], ◌∷◌, ◌++◌, false, none, some, arith}
use tgbotd.Botmgr.Updates.{
  UpdateItem, UpdateBuffer, new_update_buffer, push, ack, clear, peek, len, skip_below, first_items,
  has_ready, snapshot_locked, default_buffer_cap,
}
use tgbotd.Botmgr.Updates.Wait.{
  pushed, cleared, expired, timed, told, woken, wait, wait_loop, observe, loop_ends,
}
use tgbotd.Botmgr.Updates.Refinement.{Refines, new_log, log_ack, pending}
use tgbotd.Botmgr.Updates.Runs.{BufferOp, pushes, acks, run, log_run, run-Refines, peek-Refines}
use tgbotd.Botmgr.Updates.Blocking.{by_timer, wait_returns}
use tgbotd.Botmgr.Updates.Asleep.{wait_asleep}

abbrev sample_ops : List (BufferOp ℕ)
sample_ops = pushes 70 ∷ pushes 80 ∷ acks 2 ∷ pushes 90 ∷ []

abbrev sample_buffer : UpdateBuffer ℕ
sample_buffer = run sample_ops new_update_buffer

abbrev two_items : List (UpdateItem ℕ)
two_items = record { id = 2; update = 80 } ∷ record { id = 3; update = 90 } ∷ []

abbrev idle_buffer : UpdateBuffer ℕ
idle_buffer = record { items = []; next_id = 4; cap = 2 }

abbrev full_buffer : UpdateBuffer ℕ
full_buffer = record { items = two_items; next_id = 4; cap = 2 }

sample_items : sample_buffer.items ≡ two_items
unfolding run push ack skip_below new_update_buffer
sample_items = refl

-- A full queue drops its oldest update.
push_full :
    (push 100 full_buffer).items
    ≡ record { id = 3; update = 90 } ∷ record { id = 4; update = 100 } ∷ []
unfolding push
push_full = refl

peek_one : (peek 3 1 full_buffer).1 ≡ record { id = 3; update = 90 } ∷ []
unfolding peek skip_below first_items
peek_one = refl

len-clear : len (clear full_buffer) ≡ 0
unfolding len clear
len-clear = refl

run-Refines_example : Refines sample_buffer (log_run default_buffer_cap sample_ops new_log)
run-Refines_example = run-Refines sample_ops

peek-Refines_example :
    Refines (peek 3 1 sample_buffer).0 (log_ack 3 (log_run default_buffer_cap sample_ops new_log))
    × ((peek 3 1 sample_buffer).1
        ≡ first_items 1 (pending (log_ack 3 (log_run default_buffer_cap sample_ops new_log))))
peek-Refines_example =
    peek-Refines 3 1 sample_buffer (log_run default_buffer_cap sample_ops new_log)
      (run-Refines sample_ops) (omega arith)

wait_returns_example :
    wait 0 100 30 false
      ((woken ∷ [])
        ++ expired ∷ ((told true ∷ []) ++ timed true ∷ ((cleared ∷ []) ++ woken ∷ (pushed 5 ∷ []))))
      idle_buffer
    ≢ none
wait_returns_example =
    wait_returns 0 100 30 false by_timer (woken ∷ []) (told true ∷ []) (cleared ∷ [])
      (pushed 5 ∷ []) idle_buffer (refl, (refl, (refl, tt)))

idle_has_ready : has_ready idle_buffer.items 0 ≡ false
unfolding has_ready
idle_has_ready = refl

wait_asleep_example :
    wait 0 100 30 false ([] ++ timed true ∷ ([] ++ woken ∷ (expired ∷ woken ∷ []))) idle_buffer
    ≡ none
wait_asleep_example =
    wait_asleep 0 100 30 true [] [] (expired ∷ woken ∷ []) idle_buffer idle_has_ready (omega arith)
      tt tt (refl, (refl, tt))

abbrev woken_buffer : UpdateBuffer ℕ
woken_buffer = record { items = record { id = 4; update = 5 } ∷ []; next_id = 5; cap = 2 }

wait_pushed :
    wait 0 100 30 false (pushed 5 ∷ woken ∷ []) idle_buffer
    ≡ some (woken_buffer, woken_buffer.items)
unfolding wait wait_loop loop_ends observe has_ready snapshot_locked first_items push
wait_pushed = refl
