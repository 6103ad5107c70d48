-- ===== src/Botmgr/Deliverers/Laws.antt =====
-- Calls of StartWebhook (internal/botmgr/webhook.go) one after the other.
use tgbotd.Prelude.{
  ℕ, zero, suc, ◌≡◌, ◌≢◌, refl, sym, subst, append-nil, List, [], ◌∷◌, Option, none, some, ◌⊎◌, inl,
  inr,
}
use tgbotd.Prelude.Bytes.{Bytes}
use tgbotd.Botmgr.Deliverers.{
  WebhookConfig, Deliverers, stop_entry, close_taken, set_deliverer, Call, taking, closing, setting,
  after_close, step_call, World, Move, begins, advances, advance, move, run_moves, new_world,
  start_webhook,
}

abbrev pub Member : ℕ → List ℕ → Type 0
Member d [] = ⊥
Member d (e ∷ es) = (d ≡ e) ⊎ Member d es

abbrev pub IsCurrent : Option (ℕ × WebhookConfig) → ℕ → Type 0
IsCurrent none d = ⊥
IsCurrent (some (e, cfg)) d = d ≡ e

-- Each of the first `n` deliverers is stopped, or is this one.
abbrev pub StoppedBut : Option (ℕ × WebhookConfig) → List ℕ → ℕ → Type 0
StoppedBut c stopped zero = Unit
StoppedBut c stopped (suc n) = (Member n stopped ⊎ IsCurrent c n) × StoppedBut c stopped n

stop_one :
    (d : ℕ) (c : Option (ℕ × WebhookConfig)) (stopped : List ℕ)
    → Member d stopped ⊎ IsCurrent c d
    → Member d (stop_entry c stopped)
stop_one d none stopped (inl m) = m
stop_one d none stopped (inr m) = absurd m
stop_one d (some (e, cfg)) stopped (inl m) = inr m
stop_one d (some (e, cfg)) stopped (inr m) = inl m

-- Once it is stopped, all are.
close-StoppedBut :
    (c c' : Option (ℕ × WebhookConfig)) (stopped : List ℕ) (n : ℕ)
    → StoppedBut c stopped n
    → StoppedBut c' (stop_entry c stopped) n
close-StoppedBut c c' stopped zero v = tt
close-StoppedBut c c' stopped (suc n) v =
    (inl (stop_one n c stopped v.0), close-StoppedBut c c' stopped n v.1)

with_current :
    (c : Option (ℕ × WebhookConfig)) (stopped : List ℕ) (n : ℕ)
    → StoppedBut none stopped n
    → StoppedBut c stopped n
with_current c stopped n v = close-StoppedBut none c stopped n v

set-StoppedBut :
    (cfg : WebhookConfig) (ds : Deliverers)
    → StoppedBut none ds.stopped ds.made
    → let after = set_deliverer cfg ds in StoppedBut after.current after.stopped after.made
set-StoppedBut cfg ds v = (inr refl, with_current (some (ds.made, cfg)) ds.stopped ds.made v)

-- Where the first deliverers of one call at a time are: in the map, or in the call's hands, or stopped.
abbrev IsOrderly : List Call → Deliverers → Type 0
IsOrderly [] ds = StoppedBut ds.current ds.stopped ds.made
IsOrderly (taking cfg ∷ []) ds = StoppedBut ds.current ds.stopped ds.made
IsOrderly (closing taken cfg ∷ []) ds = (ds.current ≡ none) × StoppedBut taken ds.stopped ds.made
IsOrderly (setting cfg ∷ []) ds = (ds.current ≡ none) × StoppedBut none ds.stopped ds.made
IsOrderly (c ∷ d ∷ cs) ds = ⊥

closed-IsOrderly :
    (url : Bytes) (taken : Option (ℕ × WebhookConfig)) (cfg : WebhookConfig) (ds : Deliverers)
    → ds.current ≡ none
    → StoppedBut taken ds.stopped ds.made
    → IsOrderly (after_close url cfg) (close_taken taken ds)
closed-IsOrderly [] taken cfg ds e v = close-StoppedBut taken ds.current ds.stopped ds.made v
closed-IsOrderly (c ∷ s) taken cfg ds e v = (e, close-StoppedBut taken none ds.stopped ds.made v)

-- A call begins when no other one is in progress.
abbrev pub MayMove : Move → List Call → Type 0
MayMove (begins cfg) calls = calls ≡ []
MayMove (advances i) calls = Unit

abbrev pub IsSerial : List Move → World → Type 0
IsSerial [] w = Unit
IsSerial (m ∷ ms) w = MayMove m w.calls × IsSerial ms (move m w)

step_call-IsOrderly :
    (c : Call) (ds : Deliverers)
    → IsOrderly (c ∷ []) ds
    → let r = step_call c ds in IsOrderly r.0 r.1
unfolding step_call
step_call-IsOrderly (taking cfg) ds v = (refl, v)
step_call-IsOrderly (closing taken cfg) ds v = closed-IsOrderly cfg.url taken cfg ds v.0 v.1
step_call-IsOrderly (setting cfg) ds v = set-StoppedBut cfg ds v.1

advance-IsOrderly :
    (i : ℕ) (calls : List Call) (ds : Deliverers)
    → IsOrderly calls ds
    → let r = advance i calls ds in IsOrderly r.0 r.1
unfolding advance
advance-IsOrderly i [] ds v = v
advance-IsOrderly zero (c ∷ []) ds v =
    let (rest, after) = step_call c ds in
    subst (λ cs. IsOrderly cs after) (sym (append-nil rest)) (step_call-IsOrderly c ds v)
advance-IsOrderly (suc i) (c ∷ []) ds v = v
advance-IsOrderly i (c ∷ d ∷ cs) ds v = absurd v

move-IsOrderly :
    (m : Move) (w : World)
    → MayMove m w.calls
    → IsOrderly w.calls w.deliverers
    → let after = move m w in IsOrderly after.calls after.deliverers
unfolding move
move-IsOrderly (begins cfg) w none_there v =
    rw none_there (subst (λ cs. IsOrderly cs w.deliverers) none_there v)
move-IsOrderly (advances i) w may v = advance-IsOrderly i w.calls w.deliverers v

run_moves-IsOrderly :
    (ms : List Move) (w : World)
    → IsSerial ms w
    → IsOrderly w.calls w.deliverers
    → let after = run_moves ms w in IsOrderly after.calls after.deliverers
unfolding run_moves
run_moves-IsOrderly [] w h v = v
run_moves-IsOrderly (m ∷ ms) w h v =
    run_moves-IsOrderly ms (move m w) h.1 (move-IsOrderly m w h.0 v)

-- After any calls of StartWebhook of which each begins when none is in progress, and once the last one has
-- ended, every deliverer that was ever made is stopped, but for the one in the map, if there is one.
pub run_moves-StoppedBut :
    (ms : List Move)
    → IsSerial ms new_world
    → (run_moves ms new_world).calls ≡ []
    → let ds = (run_moves ms new_world).deliverers in StoppedBut ds.current ds.stopped ds.made
run_moves-StoppedBut ms h ended =
    let after = run_moves ms new_world in
    subst (λ cs. IsOrderly cs after.deliverers) ended (run_moves-IsOrderly ms new_world h tt)

-- The moves of one call with a URL that begins when none is in progress make what `start_webhook` makes.
start_webhook_lem :
    (cfg : WebhookConfig) (ds : Deliverers)
    → cfg.url ≢ []
    → run_moves
        (begins cfg ∷ advances 0 ∷ advances 0 ∷ advances 0 ∷ [])
        (record { deliverers = ds; calls = [] })
      ≡ record { deliverers = start_webhook cfg ds; calls = [] }
unfolding run_moves move advance step_call start_webhook
start_webhook_lem cfg ds given = go cfg.url given refl
  where
    go :
        (url : Bytes)
        → url ≢ []
        → cfg.url ≡ url
        → run_moves
            (begins cfg ∷ advances 0 ∷ advances 0 ∷ advances 0 ∷ [])
            (record { deliverers = ds; calls = [] })
          ≡ record { deliverers = start_webhook cfg ds; calls = [] }
    go [] h e = absurd (h refl)
    go (c ∷ s) h e = rw e refl
