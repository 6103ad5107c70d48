-- ===== src/Botmgr/Deliverers.antt =====
-- `StartWebhook`, `stopWebhook`, `setDeliverer` and `takeDeliverer` of internal/botmgr/webhook.go, for one bot. `delivererMu`
-- is held by takeDeliverer and by setDeliverer, each alone, so that a call of StartWebhook has three moves, and
-- those of other calls may come between them.
pub mod Laws
pub mod Lost
pub mod Tests
use tgbotd.Prelude.{ℕ, zero, suc, List, [], ◌∷◌, ◌++◌, Option, none, some}
use tgbotd.Prelude.Bytes.{Bytes}
use tgbotd.Prelude.Int.{ℤ}
use mathlib.Core.Bool.{Bool}

pub record WebhookConfig : Type 0 where
  pub url : Bytes
  pub secret : Bytes
  pub ip : Bytes
  pub max_conns : ℤ
  pub drop_pending : Bool

-- A deliverer is the number of its making. `current` is the entry of `delivererMap` for the bot, with its
-- configuration, and `stopped` are those whose stop channel is closed.
pub record Deliverers : Type 0 where
  pub current : Option (ℕ × WebhookConfig)
  pub made : ℕ
  pub stopped : List ℕ

abbrev pub new_deliverers : Deliverers
new_deliverers = record { current = none; made = 0; stopped = [] }

abbrev pub stop_entry : Option (ℕ × WebhookConfig) → List ℕ → List ℕ
stop_entry none stopped = stopped
stop_entry (some (d, cfg)) stopped = d ∷ stopped

-- What is left in the map.
abbrev pub take_deliverer : Deliverers → Deliverers
take_deliverer ds = record ds { current = none }

-- The stop channel of a deliverer that was taken is closed, once.
abbrev pub close_taken : Option (ℕ × WebhookConfig) → Deliverers → Deliverers
close_taken taken ds = record ds { stopped = stop_entry taken ds.stopped }

-- A new deliverer takes the place of whatever the map has.
abbrev pub set_deliverer : WebhookConfig → Deliverers → Deliverers
set_deliverer cfg ds = record ds { current = some (ds.made, cfg); made = suc ds.made }

-- A call of StartWebhook: before takeDeliverer, with what it took, and before setDeliverer.
pub data Call : Type 0 where
  taking : WebhookConfig → Call
  closing : (taken : Option (ℕ × WebhookConfig)) → WebhookConfig → Call
  setting : WebhookConfig → Call

-- An empty URL starts nothing.
abbrev pub after_close : Bytes → WebhookConfig → List Call
after_close [] cfg = []
after_close (c ∷ s) cfg = setting cfg ∷ []

-- The next move of a call, and what is left of the call.
unfoldable pub step_call : Call → Deliverers → List Call × Deliverers
step_call (taking cfg) ds = (closing ds.current cfg ∷ [], take_deliverer ds)
step_call (closing taken cfg) ds = (after_close cfg.url cfg, close_taken taken ds)
step_call (setting cfg) ds = ([], set_deliverer cfg ds)

-- The calls in progress, the latest first. A call that stops alone, at a shutdown, is one with an empty URL.
pub record World : Type 0 where
  pub deliverers : Deliverers
  pub calls : List Call

pub data Move : Type 0 where
  begins : WebhookConfig → Move
  advances : (index : ℕ) → Move

-- The call with this index moves; past the last one nothing happens.
unfoldable pub advance : ℕ → List Call → Deliverers → List Call × Deliverers
unfolding step_call
advance i [] ds = ([], ds)
advance zero (c ∷ cs) ds = let r = step_call c ds in (r.0 ++ cs, r.1)
advance (suc i) (c ∷ cs) ds = let r = advance i cs ds in (c ∷ r.0, r.1)

unfoldable pub move : Move → World → World
unfolding advance
move (begins cfg) w = record w { calls = taking cfg ∷ w.calls }
move (advances i) w =
    let r = advance i w.calls w.deliverers in record { deliverers = r.1; calls = r.0 }

unfoldable pub run_moves : List Move → World → World
unfolding move
run_moves [] w = w
run_moves (m ∷ ms) w = run_moves ms (move m w)

abbrev pub new_world : World
new_world = record { deliverers = new_deliverers; calls = [] }

-- A call that no other call comes between.
abbrev pub start_at : Bytes → WebhookConfig → Deliverers → Deliverers
start_at [] cfg ds = ds
start_at (c ∷ s) cfg ds = set_deliverer cfg ds

unfoldable pub start_webhook : WebhookConfig → Deliverers → Deliverers
start_webhook cfg ds = start_at cfg.url cfg (close_taken ds.current (take_deliverer ds))
