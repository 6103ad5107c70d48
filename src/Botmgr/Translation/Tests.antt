-- ===== src/Botmgr/Translation/Tests.antt =====
-- A fresh context, and posts to a webhook's endpoint.
use tgbotd.Prelude.{ℕ, ◌≡◌, refl, [], Option, none, some, true, false, length, if◌then◌else◌, ltb}
use tgbotd.Prelude.Bytes.{Bytes, codes}
use tgbotd.Prelude.Int.{ℤ, pos}
use tgbotd.Botapi.Types.{user_of_id}
use tgbotd.Tlate.Telegram.{UserObj, KeyboardButton}
use tgbotd.Tlate.Telegram.Incoming.{update_bot_callback_query}
use tgbotd.Tlate.Context.{user}
use tgbotd.Tlate.Chats.{user_from_obj}
use tgbotd.Tlate.Updates.{update_to_bot_api}
use tgbotd.Tlate.Updates.Safety.{query_from}
use tgbotd.Botmgr.Translation.{Client, build_translate_context, HttpRequest, deliver_one}
use tgbotd.Botmgr.Translation.Laws.{update_to_bot_api_fresh_query}

abbrev no_text : KeyboardButton → Option Bytes
no_text b = none

abbrev someone : ℤ → UserObj
someone id = record {
  id = id;
  bot = false;
  first_name = codes "Alice";
  last_name = [];
  username = [];
  lang_code = [];
  premium = false;
  attach_menu_enabled = false;
  bot_nochats = false;
  bot_chat_history = false;
  bot_inline_placeholder = [];
  bot_has_main_app = false;
  bot_business = false;
}

abbrev client : Client
client = record {
  me = some (someone (pos 1));
  get_user = λ id. some (someone id);
  get_channel = λ id. none;
  get_chat = λ id. none;
}

update_to_bot_api_fresh_query_example :
    (query_from
        (update_to_bot_api no_text
          (some (update_bot_callback_query (pos 5) (pos 7) (pos 6) (codes "d") []))
          (build_translate_context client)).0
      ≡ some (user_of_id (pos 7)))
    × (query_from
          (update_to_bot_api no_text
            (some (update_bot_callback_query (pos 5) (pos 7) (pos 6) (codes "d") []))
            (user (pos 7) (build_translate_context client)).1).0
        ≡ some (user_from_obj (someone (pos 7))))
update_to_bot_api_fresh_query_example =
    update_to_bot_api_fresh_query no_text client (pos 5) (pos 7) (pos 6) (codes "d") []
      (someone (pos 7)) refl refl

abbrev secret_needed : HttpRequest → Option ℕ
secret_needed r = if ltb 1 (length r.headers) then some 204 else some 403

posts_secret :
    deliver_one (λ (n : ℕ). some []) (λ u. true) secret_needed (codes "https://x.y") (codes "s") 3
    ≡ true
unfolding deliver_one
posts_secret = refl

posts_without_secret :
    deliver_one (λ (n : ℕ). some []) (λ u. true) secret_needed (codes "https://x.y") [] 3 ≡ false
unfolding deliver_one
posts_without_secret = refl
