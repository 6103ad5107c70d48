-- ===== src/Botmgr/Updates/Blocking.antt =====
-- When `Wait` of internal/botmgr/updates.go returns.
use tgbotd.Prelude.{
  ℕ, ◌≡◌, ◌≢◌, refl, ◌∙◌, List, [], ◌∷◌, ◌++◌, Bool, true, false, none, arith, Bool-cases, inl, inr,
  All,
}
use tgbotd.Botmgr.Updates.{UpdateBuffer}
use tgbotd.Botmgr.Updates.Wait.{
  WaitEvent, pushed, expired, timed, told, woken, start_wait, Waiting, loop_ends, observe, is_woken,
  wait_loop, wait,
}

-- The broadcasts that a `Wait` whose context is not done may hear.
pub data Broadcast (U : Type 0) : Type 0 where
  by_push : U → Broadcast U
  by_timer : Broadcast U

module _ {U : Type 0} where
  observe-late : (e : WaitEvent U) (w : Waiting U) → w.late ≡ true → (observe e w).late ≡ true
  unfolding observe
  observe-late expired w h = refl
  observe-late _ w h = h

  observe-signalled :
      (e : WaitEvent U) (w : Waiting U)
      → w.signalled ≡ true
      → is_woken e ≡ false
      → (observe e w).signalled ≡ true
  unfolding observe
  observe-signalled (pushed u) w h a = refl
  observe-signalled (timed heard) w h a = rw h refl
  observe-signalled (told heard) w h a = rw h refl
  observe-signalled woken w h a = cc
  observe-signalled _ w h a = h

  wait_loop_signalled :
      (offset : ℕ) (w : Waiting U) (es rest : List (WaitEvent U))
      → w.late ≡ true
      → w.signalled ≡ true
      → wait_loop offset w (es ++ woken ∷ rest) ≢ none
  unfolding wait_loop loop_ends
  wait_loop_signalled offset w [] rest h k = ground arith
  wait_loop_signalled offset w (e ∷ es) rest h k = elim (Bool-cases (is_woken e)) [
    | inl turn ↦ ground arith
    | inr other ↦ ground (
      arith,
      wait_loop_signalled offset (observe e w) es rest (observe-late e w h)
          (observe-signalled e w k other),
    )
  ]

  abbrev is_timed : WaitEvent U → Bool
  is_timed (timed heard) = true
  is_timed _ = false

  abbrev pub broadcast : Broadcast U → WaitEvent U
  broadcast (by_push u) = pushed u
  broadcast by_timer = timed true

  -- A push's is heard, and the timer's if none was before.
  abbrev pub IsHeard : Broadcast U → List (WaitEvent U) → Type 0
  IsHeard (by_push u) seen = Unit
  IsHeard by_timer seen = All (λ e. is_timed e ≡ false) seen

  abbrev CanSignal : Broadcast U → Waiting U → Type 0
  CanSignal (by_push u) w = Unit
  CanSignal by_timer w = w.armed ≡ true

  observe-armed :
      (e : WaitEvent U) (w : Waiting U) → is_timed e ≡ false → (observe e w).armed ≡ w.armed
  unfolding observe
  observe-armed (timed heard) w h = cc
  observe-armed _ w h = refl

  observe-IsHeard :
      (e : Broadcast U) (x : WaitEvent U) (seen : List (WaitEvent U)) (w : Waiting U)
      → IsHeard e (x ∷ seen)
      → CanSignal e w
      → IsHeard e seen × CanSignal e (observe x w)
  observe-IsHeard (by_push u) x seen w h k = (tt, tt)
  observe-IsHeard by_timer x seen w h k = (h.1, observe-armed x w h.0 ∙ k)

  signals :
      (e : Broadcast U) (w : Waiting U) → CanSignal e w → (observe (broadcast e) w).signalled ≡ true
  unfolding observe
  signals (by_push u) w k = refl
  signals by_timer w k = ground arith

  wait_loop_heard :
      (offset : ℕ) (w : Waiting U) (e : Broadcast U) (between after rest : List (WaitEvent U))
      → w.late ≡ true
      → IsHeard e between
      → CanSignal e w
      → wait_loop offset w (between ++ broadcast e ∷ (after ++ woken ∷ rest)) ≢ none
  unfolding wait_loop
  wait_loop_heard offset w e [] after rest late h k = ground (
    arith,
    wait_loop_signalled offset (observe (broadcast e) w) after rest
        (observe-late (broadcast e) w late) (signals e w k),
  )
  wait_loop_heard offset w e (x ∷ between) after rest late h k =
      let (h', k') = observe-IsHeard e x between w h k in
      ground (
        arith,
        wait_loop_heard offset (observe x w) e between after rest (observe-late x w late) h' k',
      )

  wait_loop_returns :
      (offset : ℕ) (w : Waiting U) (e : Broadcast U)
      (before between after rest : List (WaitEvent U))
      → IsHeard e (before ++ expired ∷ between)
      → CanSignal e w
      → wait_loop offset w (before ++ expired ∷ (between ++ broadcast e ∷ (after ++ woken ∷ rest)))
        ≢ none
  unfolding wait_loop
  wait_loop_returns offset w e [] between after rest h k =
      let (h', k') = observe-IsHeard e expired between w h k in
      wait_loop_heard offset (observe expired w) e between after rest refl h' k'
  wait_loop_returns offset w e (x ∷ before) between after rest h k =
      let (h', k') = observe-IsHeard e x (before ++ expired ∷ between) w h k in
      ground (arith, wait_loop_returns offset (observe x w) e before between after rest h' k')

  can_signal :
      (e : Broadcast U) (seen : List (WaitEvent U)) (w : Waiting U)
      → IsHeard e seen
      → w.armed ≡ true
      → CanSignal e w
  can_signal (by_push u) seen w h a = tt
  can_signal by_timer seen w h a = a

  -- `Wait` returns when, after its deadline, a broadcast is heard (a push's, or the timer's one broadcast) and the waiting
  -- goroutine then has its turn, whatever else happens before, between and after.
  pub wait_returns :
      (offset limit timeout : ℕ) (gone : Bool) (e : Broadcast U)
      (before between after rest : List (WaitEvent U)) (b : UpdateBuffer U)
      → IsHeard e (before ++ expired ∷ between)
      → wait offset limit timeout gone
          (before ++ expired ∷ (between ++ broadcast e ∷ (after ++ woken ∷ rest)))
          b
        ≢ none
  unfolding wait
  wait_returns offset limit timeout gone e before between after rest b h = ground (
    arith,
    wait_loop_returns offset (start_wait gone b) e before between after rest h
        (can_signal e (before ++ expired ∷ between) (start_wait gone b) h refl),
  )
