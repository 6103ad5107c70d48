-- ===== src/Botmgr/Dispatch/Tests.antt =====
-- A container with a nil update among its three.
use tgbotd.Prelude.{ℕ, [], ◌∷◌, none, some}
use tgbotd.Prelude.Int.{ℤ}
use tgbotd.Botmgr.Updates.{UpdateBuffer, new_update_buffer}
use tgbotd.Botmgr.Updates.Refinement.{Refines, new_log, new-Refines}
use tgbotd.Botmgr.Updates.Runs.{log_run}
use tgbotd.Botmgr.Dispatch.{Intercepted, updates_obj, MessageObj, dispatch_intercepted}
use tgbotd.Botmgr.Dispatch.Laws.{present, contained, dispatch-Refines}

abbrev five : MessageObj ℕ ℕ ℕ → ℤ → ℤ → ℕ
five m pts pts_count = 5

abbrev three_updates : Intercepted ℕ ℕ ℕ ℕ
three_updates = updates_obj (some 60 ∷ none ∷ some 70 ∷ [])

abbrev empty_buffer : UpdateBuffer ℕ
empty_buffer = new_update_buffer

dispatch-Refines_example :
    Refines
      (dispatch_intercepted five three_updates empty_buffer)
      (log_run empty_buffer.cap (present (contained five three_updates)) new_log)
dispatch-Refines_example = dispatch-Refines five three_updates empty_buffer new_log new-Refines
