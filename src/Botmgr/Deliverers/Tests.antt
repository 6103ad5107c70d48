-- ===== src/Botmgr/Deliverers/Tests.antt =====
-- Calls of StartWebhook with small configurations.
use tgbotd.Prelude.{refl, [], ◌∷◌, false}
use tgbotd.Prelude.Bytes.{codes}
use tgbotd.Prelude.Int.{pos}
use tgbotd.Botmgr.Deliverers.{
  WebhookConfig, begins, advances, step_call, advance, move, run_moves, new_world,
}
use tgbotd.Botmgr.Deliverers.Laws.{StoppedBut, run_moves-StoppedBut}

abbrev hook : WebhookConfig
hook = record { url = codes "u"; secret = []; ip = []; max_conns = pos 40; drop_pending = false }

abbrev no_hook : WebhookConfig
no_hook = record hook { url = [] }

-- One webhook replaces another, and is deleted.
run_moves-StoppedBut_example :
    let ms =
      begins hook
      ∷ advances 0
      ∷ advances 0
      ∷ advances 0
      ∷ begins hook
      ∷ advances 0
      ∷ advances 0
      ∷ advances 0
      ∷ begins no_hook
      ∷ advances 0
      ∷ advances 0
      ∷ [] in
    let ds = (run_moves ms new_world).deliverers in StoppedBut ds.current ds.stopped ds.made
unfolding run_moves move advance step_call
run_moves-StoppedBut_example =
    run_moves-StoppedBut
      (begins hook
        ∷ advances 0
        ∷ advances 0
        ∷ advances 0
        ∷ begins hook
        ∷ advances 0
        ∷ advances 0
        ∷ advances 0
        ∷ begins no_hook
        ∷ advances 0
        ∷ advances 0
        ∷ [])
      (refl, (tt, (tt, (tt, (refl, (tt, (tt, (tt, (refl, (tt, (tt, tt))))))))))) refl
