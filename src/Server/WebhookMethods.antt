-- ===== src/Server/WebhookMethods.antt =====
-- `setWebhook`, `deleteWebhook` and `getWebhookInfo` of internal/server/methods_updates.go, with
-- the call of `StartWebhook` (Botmgr/Deliverers) that each makes at its end, here without another one's moves
-- in between. The requests' parameters are read; `allowed` is the text
-- of the allowed updates as JSON. The configuration's list of allowed updates, which no code reads, is left out.
pub mod Laws
pub mod Tests
use tgbotd.Prelude.{
  ℕ, suc, ◌+◌, List, [], ◌∷◌, Option, none, some, Bool, true, false, if◌then◌else◌,
}
use tgbotd.Prelude.Bytes.{Bytes, codes}
use tgbotd.Prelude.Int.{ℤ, pos}
use tgbotd.Botapi.{Result, ok, err, api, err_bad_request, err_internal}
use tgbotd.Botmgr.Updates.{UpdateBuffer, clear, len}
use tgbotd.Botmgr.Deliverers.{WebhookConfig, Deliverers, start_webhook}
use tgbotd.Storage.{Store, BotRow, get_bot, set_webhook}

-- What the handlers change.
pub record BotState (U : Type 0) : Type 0 where
  pub store : Store
  pub buffer : UpdateBuffer U
  pub deliverers : Deliverers

pub record WebhookInfo : Type 0 where
  pub url : Bytes
  pub pending_update_count : ℕ
  pub ip_address : Bytes
  pub max_connections : ℤ
  pub allowed_updates : Bytes

abbrev pub or_default : Option ℤ → ℤ → ℤ
or_default none d = d
or_default (some n) d = n

abbrev pub no_webhook : WebhookConfig
no_webhook = record { url = []; secret = []; ip = []; max_conns = pos 0; drop_pending = false }

abbrev pub info_of : ℕ → Option BotRow → WebhookInfo
info_of pending none = record {
  url = [];
  pending_update_count = pending;
  ip_address = [];
  max_connections = pos 0;
  allowed_updates = [];
}
info_of pending (some r) = record {
  url = r.webhook_url;
  pending_update_count = pending;
  ip_address = r.webhook_ip;
  max_connections = r.max_conns;
  allowed_updates = r.allowed_updates;
}

module _ {U : Type 0} where
  abbrev pub drop_if : Bool → UpdateBuffer U → UpdateBuffer U
  drop_if drop_pending b = if drop_pending then clear b else b

-- `storage_error` is the error of the database, if there is one; the handler then stops.
module _ {U : Type 0} (token : Bytes) (storage_error : Option Bytes) where
  unfoldable pub configure :
      (url secret ip : Bytes) → ℤ → Bytes → Bool → BotState U → BotState U × Result Bool
  configure url secret ip max_conns allowed drop_pending s =
      let dropped = record s { buffer = drop_if drop_pending s.buffer } in
      elim storage_error [
        | some text ↦ (dropped, err (api (err_internal text)))
        | none ↦ (
          record dropped {
            store = set_webhook token url secret ip max_conns allowed drop_pending s.store;
            deliverers =
                start_webhook
                  (record {
                    url = url;
                    secret = secret;
                    ip = ip;
                    max_conns = max_conns;
                    drop_pending = drop_pending;
                  })
                  s.deliverers;
          },
          ok true,
        )
      ]

  -- The pending updates are dropped before the configuration is stored.
  unfoldable pub set_webhook_method :
      (url secret ip : Bytes) → Option ℤ → Bytes → Bool → BotState U → BotState U × Result Bool
  set_webhook_method url secret ip max_conns allowed drop_pending s = elim url [
    | [] ↦ (s, err (api (err_bad_request (codes "field \"url\" is required"))))
    | c ∷ rest ↦
        configure (c ∷ rest) secret ip (or_default max_conns (pos 40)) allowed drop_pending s
  ]

  -- Here they are dropped afterwards.
  unfoldable pub delete_webhook_method : Bool → BotState U → BotState U × Result Bool
  delete_webhook_method drop_pending s = elim storage_error [
    | some text ↦ (s, err (api (err_internal text)))
    | none ↦ (
      record {
        store = set_webhook token [] [] [] (pos 40) [] drop_pending s.store;
        buffer = drop_if drop_pending s.buffer;
        deliverers = start_webhook no_webhook s.deliverers;
      },
      ok true,
    )
  ]

  -- The list of allowed updates is given by its JSON text; an empty one is left out.
  unfoldable pub get_webhook_info : BotState U → Result WebhookInfo
  get_webhook_info s = elim storage_error [
    | some text ↦ err (api (err_internal text))
    | none ↦ ok (info_of (len s.buffer) (get_bot token s.store))
  ]
