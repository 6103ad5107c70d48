-- ===== src/Botmgr/Translation/Laws.antt =====
-- Callback queries in the context that `BuildTranslateContext` (internal/botmgr/webhook.go) makes.
use tgbotd.Prelude.{◌≡◌, refl, Option, none, some, false}
use tgbotd.Prelude.Bytes.{Bytes}
use tgbotd.Prelude.Int.{ℤ}
use tgbotd.Botapi.Types.{user_of_id}
use tgbotd.Tlate.Telegram.{UserObj, KeyboardButton}
use tgbotd.Tlate.Telegram.Incoming.{update_bot_callback_query}
use tgbotd.Tlate.Context.{user, int_eq}
use tgbotd.Tlate.Chats.{user_from_obj}
use tgbotd.Tlate.Updates.{update_to_bot_api}
use tgbotd.Tlate.Updates.Safety.{query_from, update_to_bot_api_callback_query}
use tgbotd.Botmgr.Translation.{Client, build_translate_context, self_id_of, self_entry}

self_entry_other :
    (me : Option UserObj) (id : ℤ) → int_eq (self_id_of me) id ≡ false → self_entry me id ≡ none
self_entry_other none id h = refl
self_entry_other (some u) id h = rw h

-- In a fresh context a callback query of a user other than the bot names the user by the id alone,
-- although the client knows the user; had the user been looked up for an earlier update, the same query
-- would name them in full.
pub update_to_bot_api_fresh_query :
    (get_text : KeyboardButton → Option Bytes) (c : Client) (query_id user_id chat_inst : ℤ)
    (payload game : Bytes) (u : UserObj)
    → int_eq (self_id_of c.me) user_id ≡ false
    → c.get_user user_id ≡ some u
    → let query = some (update_bot_callback_query query_id user_id chat_inst payload game) in
      let t = build_translate_context c in
      (query_from (update_to_bot_api get_text query t).0 ≡ some (user_of_id user_id))
      × (query_from (update_to_bot_api get_text query (user user_id t).1).0
          ≡ some (user_from_obj u))
unfolding build_translate_context
update_to_bot_api_fresh_query get_text c query_id user_id chat_inst payload game u h k =
    update_to_bot_api_callback_query get_text query_id user_id chat_inst payload game u
      (build_translate_context c) (self_entry_other c.me user_id h) k
