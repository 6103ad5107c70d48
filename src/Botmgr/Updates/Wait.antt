-- ===== src/Botmgr/Updates/Wait.antt =====
-- `Wait` of internal/botmgr/updates.go. The caller holds the take lock, and `cond.Wait` gives up the
-- buffer's mutex: what happens meanwhile is a list of events.
use mathlib.Core.Option
use tgbotd.Prelude.{
  ℕ, List, [], ◌∷◌, Bool, true, false, not, ◌&&◌, ◌||◌, Option, none, some, if◌then◌else◌, ◌==◌,
}
use tgbotd.Botmgr.Updates.{UpdateItem, UpdateBuffer, push, clear, has_ready, snapshot_locked}

-- `pushed` and `cleared` are the buffer's other operations that do not need the take lock; a push broadcasts,
-- and since it needs the mutex the waiting goroutine is asleep by then and hears it. `expired` is the moment of the
-- deadline, and `cancelled` that of the context. `timed` is the broadcast of the timer and `told` that of the goroutine that
-- waits for the context: without the mutex, so that neither is heard between a test of the condition and the
-- sleep. `woken` is the waiting goroutine's turn: if it heard a broadcast, it tests the condition again.
pub data WaitEvent (U : Type 0) : Type 0 where
  pushed : U → WaitEvent U
  cleared : WaitEvent U
  expired : WaitEvent U
  cancelled : WaitEvent U
  timed : (heard : Bool) → WaitEvent U
  told : (heard : Bool) → WaitEvent U
  woken : WaitEvent U

-- What the loop's condition reads; whether a broadcast was heard since the last test; and whether the timer and the goroutine
-- that waits for the context have their one broadcast still to make.
pub record Waiting (U : Type 0) : Type 0 where
  pub buffer : UpdateBuffer U
  pub late : Bool
  pub gone : Bool
  pub signalled : Bool
  pub armed : Bool
  pub watching : Bool

module _ {U : Type 0} where
  -- The loop ends: an item is ready, the deadline has passed, or the context is done.
  unfoldable pub loop_ends : ℕ → Waiting U → Bool
  loop_ends offset w = has_ready w.buffer.items offset || w.late || w.gone

  unfoldable pub observe : WaitEvent U → Waiting U → Waiting U
  observe (pushed u) w = record w { buffer = push u w.buffer; signalled = true }
  observe cleared w = record w { buffer = clear w.buffer }
  observe expired w = record w { late = true }
  observe cancelled w = record w { gone = true }
  observe (timed heard) w = record w {
    signalled = w.signalled || (w.armed && heard);
    armed = false;
  }
  observe (told heard) w = record w {
    signalled = w.signalled || (w.gone && w.watching && heard);
    watching = w.watching && not w.gone;
  }
  observe woken w = record w { signalled = false }

  abbrev pub is_woken : WaitEvent U → Bool
  is_woken woken = true
  is_woken _ = false

  -- Before the first sleep.
  abbrev pub start_wait : Bool → UpdateBuffer U → Waiting U
  start_wait gone b = record {
    buffer = b;
    late = false;
    gone = gone;
    signalled = false;
    armed = true;
    watching = true;
  }

  -- `cond.Wait` until a broadcast is heard and the condition is then found true. `none`: still asleep
  -- after the events.
  unfoldable pub wait_loop : ℕ → Waiting U → List (WaitEvent U) → Option (UpdateBuffer U)
  unfolding loop_ends observe
  wait_loop offset w [] = none
  wait_loop offset w (e ∷ es) =
      let rest = wait_loop offset (observe e w) es in
      if is_woken e && w.signalled && loop_ends offset w then some w.buffer else rest

  -- The buffer when `Wait` returns, and the snapshot that it returns. A timeout of 0 does not block.
  unfoldable pub wait :
      ℕ
      → ℕ
      → ℕ
      → Bool
      → List (WaitEvent U)
      → UpdateBuffer U
      → Option (UpdateBuffer U × List (UpdateItem U))
  unfolding wait_loop
  wait offset limit timeout gone es b =
      let start = start_wait gone b in
      let final = if loop_ends offset start then some b else wait_loop offset start es in
      if has_ready b.items offset
      then some (b, snapshot_locked b.items offset limit)
      else if timeout == 0
      then some (b, [])
      else Option.map (λ b'. (b', snapshot_locked b'.items offset limit)) final
