-- ===== src/Botmgr/Updates/Snapshots.antt =====
-- What `Wait` of internal/botmgr/updates.go returns.
use tgbotd.Prelude.{
  ℕ, ◌<◌, ◌≡◌, ◌≢◌, refl, ap, ◌∙◌, sym, List, [], ◌∷◌, ◌++◌, Bool, true, false, some, arith,
  Bool-cases, Option-cases, ◌==◌, inl, inr, All, ◌&&◌,
}
use tgbotd.Botmgr.Updates.{UpdateItem, UpdateBuffer, has_ready, snapshot_locked}
use tgbotd.Botmgr.Updates.Wait.{
  WaitEvent, pushed, cleared, expired, cancelled, timed, told, woken, start_wait, Waiting,
  loop_ends, observe, is_woken, wait_loop, wait,
}
use tgbotd.Botmgr.Updates.Runs.{BufferOp, pushes, clears, run, has_ready-snapshot}

module _ {U : Type 0} where
  -- What the events do to the buffer.
  abbrev pub effects : List (WaitEvent U) → List (BufferOp U)
  effects [] = []
  effects (pushed u ∷ es) = pushes u ∷ effects es
  effects (cleared ∷ es) = clears ∷ effects es
  effects (expired ∷ es) = effects es
  effects (cancelled ∷ es) = effects es
  effects (timed heard ∷ es) = effects es
  effects (told heard ∷ es) = effects es
  effects (woken ∷ es) = effects es

  run-effects :
      (e : WaitEvent U) (seen : List (WaitEvent U)) (w : Waiting U)
      → run (effects (e ∷ seen)) w.buffer ≡ run (effects seen) (observe e w).buffer
  unfolding run observe
  run-effects (pushed u) seen w = refl
  run-effects cleared seen w = refl
  run-effects _ seen w = refl

  wait_loop_inv :
      (offset : ℕ) (w : Waiting U) (es : List (WaitEvent U)) (b' : UpdateBuffer U)
      → wait_loop offset w es ≡ some b'
      → (seen rest : List (WaitEvent U)) × (es ≡ seen ++ rest) × (b' ≡ run (effects seen) w.buffer)
  unfolding wait_loop
  wait_loop_inv offset w [] b' h = absurd (cc)
  wait_loop_inv offset w (e ∷ es) b' h =
      elim (Bool-cases (is_woken e && w.signalled && loop_ends offset w)) [
        | inl ends ↦ ([], e ∷ es, refl, unfold run in ground arith)
        | inr asleep ↦
            let (seen, rest, parts, made) =
              wait_loop_inv offset (observe e w) es b' (ground arith) in
            (e ∷ seen, rest, ap (λ t. e ∷ t) parts, made ∙ sym (run-effects e seen w))
      ]

  -- What `Wait` returns is the snapshot of the buffer that the pushes and clears in some front part of
  -- the events made.
  pub wait_snapshot :
      (offset limit timeout : ℕ) (gone : Bool) (es : List (WaitEvent U)) (b b' : UpdateBuffer U)
      (snap : List (UpdateItem U))
      → wait offset limit timeout gone es b ≡ some (b', snap)
      → (seen rest : List (WaitEvent U)) × (es ≡ seen ++ rest)
        × (b' ≡ run (effects seen) b)
        × (snap ≡ snapshot_locked b'.items offset limit)
  unfolding wait
  wait_snapshot offset limit timeout gone es b b' snap h =
      let start = start_wait gone b in
      elim (Bool-cases (has_ready b.items offset)) [
        | inl ready ↦ ([], es, refl, unfold run in ground arith, ground arith)
        | inr idle ↦ elim (Bool-cases (timeout == 0)) [
          | inl instant ↦ (
            [],
            es,
            refl,
            unfold run in ground arith,
            ground (arith, (has_ready-snapshot b.items offset limit).1 idle),
          )
          | inr blocks ↦ elim (Bool-cases (loop_ends offset start)) [
            | inl over ↦ ([], es, refl, unfold run in ground arith, ground arith)
            | inr asleep ↦ elim (Option-cases (wait_loop offset start es)) [
              | inl never ↦ absurd (ground arith)
              | inr (b1, e) ↦
                  let (seen, rest, parts, made) = wait_loop_inv offset start es b1 e in
                  (seen, rest, parts, ground arith, ground arith)
            ]
          ]
        ]
      ]

  abbrev pub is_patient : WaitEvent U → Bool
  is_patient expired = false
  is_patient cancelled = false
  is_patient _ = true

  observe_patient :
      (e : WaitEvent U) (w : Waiting U)
      → is_patient e ≡ true
      → ((observe e w).late ≡ w.late) × ((observe e w).gone ≡ w.gone)
  unfolding observe
  observe_patient expired w h = cc
  observe_patient cancelled w h = cc
  observe_patient _ w h = (refl, refl)

  wait_loop_ready :
      (offset : ℕ) (w : Waiting U) (es : List (WaitEvent U)) (b' : UpdateBuffer U)
      → All (λ e. is_patient e ≡ true) es
      → w.late ≡ false
      → w.gone ≡ false
      → wait_loop offset w es ≡ some b'
      → has_ready b'.items offset ≡ true
  unfolding wait_loop loop_ends
  wait_loop_ready offset w [] b' p hl hg h = absurd (cc)
  wait_loop_ready offset w (e ∷ es) b' p hl hg h =
      let keeps = observe_patient e w p.0 in
      ground (arith, wait_loop_ready offset (observe e w) es b' p.1 (keeps.0 ∙ hl) (keeps.1 ∙ hg))

  -- Before its deadline, and while its context lives, `Wait` with a timeout returns at least one update.
  pub wait_ready :
      (offset limit timeout : ℕ) (es : List (WaitEvent U)) (b b' : UpdateBuffer U)
      (snap : List (UpdateItem U))
      → 0 < timeout
      → All (λ e. is_patient e ≡ true) es
      → wait offset limit timeout false es b ≡ some (b', snap)
      → snap ≢ []
  unfolding wait loop_ends
  wait_ready offset limit timeout es b b' snap blocks p h empty =
      let start = start_wait false b in
      let ready = has_ready-snapshot b'.items offset limit in
      elim (Option-cases (wait_loop offset start es)) [
        | inl never ↦ ground (arith, ready)
        | inr (b1, e) ↦ ground (arith, ready, wait_loop_ready offset start es b1 p refl refl e)
      ]
