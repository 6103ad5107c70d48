-- ===== src/Tlate/Updates/Safety.antt =====
-- What `UpdateToBotAPI` (internal/tlate/updates.go) says of the sender of a query.
use tgbotd.Prelude.{◌≡◌, Option, none, some}
use tgbotd.Prelude.Bytes.{Bytes}
use mathlib.Core.Option
use tgbotd.Prelude.Int.{ℤ}
use tgbotd.Botapi.Types.{User, Update, CallbackQuery, user_of_id}
use tgbotd.Tlate.Telegram.{UserObj, KeyboardButton}
use tgbotd.Tlate.Telegram.Incoming.{update_bot_callback_query}
use tgbotd.Tlate.Context.{TranslateContext, user, asked}
use tgbotd.Tlate.Context.Laws.{int_eq_refl}
use tgbotd.Tlate.Chats.{user_from_obj}
use tgbotd.Tlate.Updates.{is_empty, filled, update_to_bot_api}
use tgbotd.Tlate.Updates.Envelopes.{callback_query}

-- What a query says of the user who sent it.
abbrev pub query_from : Option Update → Option User
query_from none = none
query_from (some u) = Option.map (λ q. CallbackQuery.from q) u.callback_query

module _ (get_text : KeyboardButton → Option Bytes) where
  -- A callback query of a user that the context has not kept names the user by the id alone, whatever
  -- the lookup would answer; once the user was looked up for another update, it names them in full.
  pub update_to_bot_api_callback_query :
      (query_id user_id inst : ℤ) (payload game : Bytes) (u : UserObj) (t : TranslateContext)
      → t.users user_id ≡ none
      → asked t.user_lookup user_id ≡ some u
      → let query = some (update_bot_callback_query query_id user_id inst payload game) in
        (query_from (update_to_bot_api get_text query t).0 ≡ some (user_of_id user_id))
        × (query_from (update_to_bot_api get_text query (user user_id t).1).0
            ≡ some (user_from_obj u))
  unfolding update_to_bot_api filled callback_query is_empty user
  update_to_bot_api_callback_query query_id user_id inst payload game u t h k =
      (rw h, rw (h, k, int_eq_refl user_id))
