-- ===== src/Botmgr/Deliverers/Lost.antt =====
-- Two calls of StartWebhook (internal/botmgr/webhook.go) at once.
use tgbotd.Prelude.{ℕ, suc, ◌≤◌, ◌<◌, List, [], ◌∷◌, some, ◌⊎◌}
use tgbotd.Prelude.Bytes.{Bytes}
use tgbotd.Botmgr.Deliverers.{
  WebhookConfig, Deliverers, stop_entry, Call, closing, World, Move, begins, advances,
}
use tgbotd.Botmgr.Deliverers.Laws.{Member, IsCurrent}

-- Neither the calls, nor the map, nor those that are stopped have the deliverer `d`.
abbrev IsFreeOf : ℕ → Call → Type 0
IsFreeOf d (closing taken cfg) = IsCurrent taken d → ⊥
IsFreeOf d _ = Unit

abbrev IsFree : ℕ → List Call → Type 0
IsFree d [] = Unit
IsFree d (c ∷ cs) = IsFreeOf d c × IsFree d cs

abbrev IsNowhere : ℕ → List Call → Deliverers → Type 0
IsNowhere d calls ds = (Member d ds.stopped → ⊥) × (IsCurrent ds.current d → ⊥) × IsFree d calls

-- `d` is not made on the way from `m` to `n` deliverers.
abbrev IsOld : ℕ → ℕ → ℕ → Type 0
IsOld d m n = (d < m) ⊎ (n ≤ d)

-- Both calls take, then both close what they took, and then both set, `a` first.
abbrev pub race : WebhookConfig → WebhookConfig → List Move
race a b =
    begins a
    ∷ begins b
    ∷ advances 0
    ∷ advances 1
    ∷ advances 0
    ∷ advances 1
    ∷ advances 1
    ∷ advances 0
    ∷ []

abbrev raced : WebhookConfig → World → World
raced b w = record {
  deliverers = record {
    current = some (suc w.deliverers.made, b);
    made = suc (suc w.deliverers.made);
    stopped = stop_entry w.deliverers.current w.deliverers.stopped;
  };
  calls = w.calls;
}
