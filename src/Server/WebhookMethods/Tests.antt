-- ===== src/Server/WebhookMethods/Tests.antt =====
-- A webhook set for a known bot with two pending updates.
use tgbotd.Prelude.{ℕ, ◌≡◌, refl, [], none, some, true}
use tgbotd.Prelude.Bytes.{Bytes, codes, bytes_eq}
use tgbotd.Prelude.Int.{pos}
use tgbotd.Botmgr.Updates.{new_update_buffer, push}
use tgbotd.Storage.{
  BotRow, empty_store, upsert_bot, upsert_row, find_row, get_bot, new_bot, row_of_bot,
}
use tgbotd.Botmgr.Deliverers.{new_deliverers}
use tgbotd.Server.WebhookMethods.{BotState, set_webhook_method, get_webhook_info}
use tgbotd.Server.WebhookMethods.Laws.{info_set, info-set_webhook}
use tgbotd.Botapi.{ok}

abbrev token_7 : Bytes
token_7 = codes "7:a"

abbrev known_state : BotState ℕ
known_state = record {
  store = upsert_bot token_7 (pos 7) 100 empty_store;
  buffer = push 80 (push 70 new_update_buffer);
  deliverers = new_deliverers;
}

abbrev known_row : BotRow
known_row = row_of_bot (new_bot token_7 (pos 7) 100)

known_row_found : get_bot token_7 known_state.store ≡ some known_row
unfolding get_bot upsert_bot upsert_row find_row bytes_eq
known_row_found = refl

info_after_set :
    get_webhook_info token_7 none
      (set_webhook_method token_7 none (codes "u") [] [] none [] true known_state).0
    ≡ ok (info_set (codes "u") [] (pos 40) [] 0)
info_after_set =
    info-set_webhook token_7 b'u' [] [] [] none [] true known_state known_row known_row_found
