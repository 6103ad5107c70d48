-- ===== src/Storage/Tests.antt =====
-- The store on small inputs.
use tgbotd.Prelude.{max, ◌≡◌, refl, [], ◌∷◌, none, false, arith}
use tgbotd.Prelude.Bytes.{Bytes, codes, bytes_eq}
use tgbotd.Prelude.Int.{pos}
use tgbotd.Storage.{
  Store, empty_store, find_row, upsert_row, upsert_bot, enqueue_update, fetch_updates, ack_updates,
  list_bot_tokens, sort_by_seen, insert_by_seen, tokens_of, save_session,
}
use tgbotd.Storage.Queue.{Numbered, fetch-ack_updates}

abbrev t1 : Bytes
t1 = codes "7:a"

abbrev t2 : Bytes
t2 = codes "8:b"

abbrev two_bots : Store
two_bots = upsert_bot t2 (pos 8) 200 (upsert_bot t1 (pos 7) 100 empty_store)

newest_first : list_bot_tokens two_bots ≡ t2 ∷ t1 ∷ []
unfolding list_bot_tokens sort_by_seen insert_by_seen tokens_of upsert_bot upsert_row bytes_eq
newest_first = refl

-- The foreign key refuses the session of an unknown bot.
no_bot :
    save_session
      (record { token = t1; dc = pos 2; auth_key = []; hash = []; salt = pos 0; hostname = [] })
      empty_store
    ≡ none
unfolding save_session find_row
no_bot = refl

abbrev queued : Store
queued = (enqueue_update t2 (codes "y") 6 (enqueue_update t1 (codes "x") 5 two_bots).0).0

queued-Numbered : Numbered 1 queued.next_seq queued.queue
unfolding enqueue_update upsert_bot
queued-Numbered = (omega arith, (omega arith, omega arith))

tokens_differ : bytes_eq t1 t2 ≡ false
unfolding bytes_eq
tokens_differ = refl

fetch-ack_updates_example :
    (fetch_updates t1 0 (pos 10) (ack_updates t1 2 queued)
      ≡ fetch_updates t1 (max 0 2) (pos 10) queued)
    × (fetch_updates t2 0 (pos 10) (ack_updates t1 2 queued) ≡ fetch_updates t2 0 (pos 10) queued)
fetch-ack_updates_example = fetch-ack_updates t1 t2 2 0 (pos 10) queued tokens_differ
