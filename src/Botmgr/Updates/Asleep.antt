-- ===== src/Botmgr/Updates/Asleep.antt =====
-- When `Wait` of internal/botmgr/updates.go does not return.
use tgbotd.Prelude.{ℕ, ◌<◌, ◌≡◌, refl, List, [], ◌∷◌, ◌++◌, Bool, true, false, none, arith, All}
use tgbotd.Botmgr.Updates.{UpdateBuffer, clear, has_ready}
use tgbotd.Botmgr.Updates.Wait.{
  WaitEvent, pushed, cleared, expired, cancelled, timed, told, woken, start_wait, Waiting,
  loop_ends, observe, wait_loop, wait,
}

module _ {U : Type 0} where
  -- No push, and the context is not done.
  abbrev pub is_quiet : WaitEvent U → Bool
  is_quiet (pushed u) = false
  is_quiet cancelled = false
  is_quiet _ = true

  -- Nor is it the deadline.
  abbrev pub is_early : WaitEvent U → Bool
  is_early expired = false
  is_early e = is_quiet e

  -- Nothing can wake the goroutine any more.
  abbrev IsAsleep : Waiting U → Type 0
  IsAsleep w = (w.signalled ≡ false) × (w.armed ≡ false) × (w.gone ≡ false)

  observe-IsAsleep :
      (e : WaitEvent U) (w : Waiting U) → is_quiet e ≡ true → IsAsleep w → IsAsleep (observe e w)
  unfolding observe
  observe-IsAsleep (pushed u) w q h = cc
  observe-IsAsleep cancelled w q h = cc
  observe-IsAsleep cleared w q h = h
  observe-IsAsleep expired w q h = h
  observe-IsAsleep (timed heard) w q h = rw (h.0, h.1, h.2) (refl, refl, refl)
  observe-IsAsleep (told heard) w q h = rw (h.0, h.1, h.2) (refl, refl, refl)
  observe-IsAsleep woken w q h = (refl, h.1, h.2)

  wait_loop_asleep :
      (offset : ℕ) (w : Waiting U) (es : List (WaitEvent U))
      → IsAsleep w
      → All (λ e. is_quiet e ≡ true) es
      → wait_loop offset w es ≡ none
  unfolding wait_loop
  wait_loop_asleep offset w [] h q = refl
  wait_loop_asleep offset w (e ∷ es) h q =
      ground (arith, h.0, wait_loop_asleep offset (observe e w) es (observe-IsAsleep e w q.0 h) q.1)

  -- The condition is false.
  abbrev IsIdle : ℕ → Waiting U → Type 0
  IsIdle offset w = (has_ready w.buffer.items offset ≡ false) × (w.late ≡ false) × (w.gone ≡ false)

  observe-IsIdle :
      (offset : ℕ) (e : WaitEvent U) (w : Waiting U)
      → is_early e ≡ true
      → IsIdle offset w
      → IsIdle offset (observe e w)
  unfolding observe clear has_ready
  observe-IsIdle offset (pushed u) w q h = cc
  observe-IsIdle offset cancelled w q h = cc
  observe-IsIdle offset expired w q h = cc
  observe-IsIdle offset cleared w q h = (refl, h.1, h.2)
  observe-IsIdle offset (timed heard) w q h = h
  observe-IsIdle offset (told heard) w q h = h
  observe-IsIdle offset woken w q h = h

  -- The timer has nothing left.
  still_spent : (e : WaitEvent U) (w : Waiting U) → w.armed ≡ false → (observe e w).armed ≡ false
  unfolding observe
  still_spent (timed heard) w h = refl
  still_spent _ w h = h

  idle-loop_ends : (offset : ℕ) (w : Waiting U) → IsIdle offset w → loop_ends offset w ≡ false
  unfolding loop_ends
  idle-loop_ends offset w h = rw (h.0, h.1, h.2) refl

  wait_loop_spent :
      (offset : ℕ) (w : Waiting U) (between after : List (WaitEvent U))
      → IsIdle offset w
      → w.armed ≡ false
      → All (λ e. is_early e ≡ true) between
      → All (λ e. is_quiet e ≡ true) after
      → wait_loop offset w (between ++ woken ∷ after) ≡ none
  unfolding wait_loop
  wait_loop_spent offset w [] after h spent early quiet = ground (
    arith,
    idle-loop_ends offset w h,
    wait_loop_asleep offset (observe woken w) after (unfold observe in (refl, spent, h.2)) quiet,
  )
  wait_loop_spent offset w (e ∷ between) after h spent early quiet = ground (
    arith,
    idle-loop_ends offset w h,
    wait_loop_spent offset (observe e w) between after (observe-IsIdle offset e w early.0 h)
        (still_spent e w spent) early.1 quiet,
  )

  wait_loop_idle :
      (offset : ℕ) (w : Waiting U) (heard : Bool) (before between after : List (WaitEvent U))
      → IsIdle offset w
      → All (λ e. is_early e ≡ true) before
      → All (λ e. is_early e ≡ true) between
      → All (λ e. is_quiet e ≡ true) after
      → wait_loop offset w (before ++ timed heard ∷ (between ++ woken ∷ after)) ≡ none
  unfolding wait_loop
  wait_loop_idle offset w heard [] between after h early early' quiet = ground (
    arith,
    wait_loop_spent offset (observe (timed heard) w) between after
        (observe-IsIdle offset (timed heard) w refl h) (unfold observe in refl) early' quiet,
  )
  wait_loop_idle offset w heard (e ∷ before) between after h early early' quiet = ground (
    arith,
    idle-loop_ends offset w h,
    wait_loop_idle offset (observe e w) heard before between after
        (observe-IsIdle offset e w early.0 h) early.1 early' quiet,
  )

  -- A `Wait` with a timeout that finds nothing ready, and whose timer makes its broadcast before the deadline: once the
  -- goroutine has had its turn, still before the deadline, `Wait` does not return any more, also
  -- after the deadline and however many turns follow, unless an update is pushed or the context is done.
  pub wait_asleep :
      (offset limit timeout : ℕ) (heard : Bool) (before between after : List (WaitEvent U))
      (b : UpdateBuffer U)
      → has_ready b.items offset ≡ false
      → 0 < timeout
      → All (λ e. is_early e ≡ true) before
      → All (λ e. is_early e ≡ true) between
      → All (λ e. is_quiet e ≡ true) after
      → wait offset limit timeout false (before ++ timed heard ∷ (between ++ woken ∷ after)) b
        ≡ none
  unfolding wait loop_ends
  wait_asleep offset limit timeout heard before between after b idle blocks early early' quiet =
      ground (
        arith,
        wait_loop_idle offset (start_wait false b) heard before between after (idle, refl, refl)
            early early' quiet,
      )
