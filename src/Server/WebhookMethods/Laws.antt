-- ===== src/Server/WebhookMethods/Laws.antt =====
-- The webhook methods together with the store.
use tgbotd.Prelude.{ℕ, ◌≡◌, refl, ◌∷◌, Option, none, some, Bool, true, false, if◌then◌else◌}
use tgbotd.Prelude.Bytes.{Bytes, bytes_eq_refl}
use tgbotd.Prelude.Int.{ℤ, pos}
use tgbotd.Botapi.{ok}
use tgbotd.Botmgr.Updates.{UpdateBuffer, clear, len}
use tgbotd.Storage.{BotRow, get_bot}
use tgbotd.Storage.Laws.{get_bot-set_webhook}
use tgbotd.Server.WebhookMethods.{
  BotState, WebhookInfo, or_default, drop_if, configure, set_webhook_method, get_webhook_info,
}

-- What `getWebhookInfo` answers after a `setWebhook` with these parameters.
abbrev pub info_set : Bytes → Bytes → ℤ → Bytes → ℕ → WebhookInfo
info_set url ip max_conns allowed pending = record {
  url = url;
  pending_update_count = pending;
  ip_address = ip;
  max_connections = max_conns;
  allowed_updates = allowed;
}

module _ {U : Type 0} where
  len-drop_if :
      (drop_pending : Bool) (b : UpdateBuffer U)
      → len (drop_if drop_pending b) ≡ (if drop_pending then 0 else len b)
  unfolding len clear
  len-drop_if true b = refl
  len-drop_if false b = refl

module _ {U : Type 0} (token : Bytes) where
  -- After a `setWebhook` with a URL for a bot with a row, while the database works,
  -- `getWebhookInfo` answers the URL, the address, the number of connections, 40 by default,
  -- and the allowed updates that were set, and no pending updates if they were to be dropped.
  pub info-set_webhook :
      (c : ℕ) (rest secret ip : Bytes) (max_conns : Option ℤ) (allowed : Bytes)
      (drop_pending : Bool) (s : BotState U) (row : BotRow)
      → get_bot token s.store ≡ some row
      → get_webhook_info token none
          (set_webhook_method token none (c ∷ rest) secret ip max_conns allowed drop_pending s).0
        ≡ ok (
            info_set
              (c ∷ rest)
              ip
              (or_default max_conns (pos 40))
              allowed
              (if drop_pending then 0 else len s.buffer))
  unfolding get_webhook_info set_webhook_method configure
  info-set_webhook c rest secret ip max_conns allowed drop_pending s row known = rw (
    get_bot-set_webhook token token (c ∷ rest) secret ip (or_default max_conns (pos 40)) allowed
        drop_pending s.store,
    known,
    bytes_eq_refl token,
    len-drop_if drop_pending s.buffer,
  )
