-- ===== src/Server/Extensions.antt =====
-- internal/server/methods_ext.go: methods beyond the Bot API's.
use tgbotd.Prelude.{List, [], ◌∷◌, map, Option, none, some, true}
use tgbotd.Prelude.Bytes.{Bytes, codes}
use tgbotd.Prelude.Int.{ℤ, pos, neg64, to_int32}
use tgbotd.Botapi.{Result, ok, err, api, errorf, err_bad_request, ◌>>=◌}
use tgbotd.Botapi.Types.{User, Chat, Message, chat_of}
use tgbotd.Json as JsonTree
use tgbotd.Server.Integers.{json_parse_int}
use tgbotd.Server.Params.{Params, Json, param_raw, require_string, field_required}
use tgbotd.Server.Chats.{ChatRef, resolve_chat_id, ChannelInfo, channel_info_chat}
use tgbotd.Server.Send.Groups.{raw_slice, text_element, int_element}
use tgbotd.Tlate.Telegram.{UserObj, KeyboardButton, MessageObj}
use tgbotd.Tlate.Context.{TranslateContext, Action}
use tgbotd.Tlate.Messages.{message_obj_to_bot_api_ctx}
use tgbotd.Tlate.Chats.{user_from_obj, bot_api_chat_id, channel_type}

pub record ResolveUsernameResult : Type 0 where
  pub kind : Bytes
  pub chat_id : ℤ
  pub user : Option User
  pub chat : Option Chat
  pub access_hash : ℤ

-- What the library resolves a name to; `access_hash` is read of it where it has one.
pub data Resolved : Type 0 where
  resolved_user : UserObj → (access_hash : ℤ) → Resolved
  resolved_chat : (id : ℤ) (title : Bytes) → Resolved
  resolved_channel : ChannelInfo → (access_hash : ℤ) → Resolved
  other_resolved : Resolved

unfoldable pub resolve_result : Resolved → Result ResolveUsernameResult
unfolding user_from_obj bot_api_chat_id
resolve_result (resolved_user u hash) = ok (record {
  kind = codes "user";
  chat_id = u.id;
  user = some (user_from_obj u);
  chat = none;
  access_hash = hash;
})
resolve_result (resolved_chat id title) = ok (record {
  kind = codes "group";
  chat_id = neg64 id;
  user = none;
  chat = some (record (chat_of (neg64 id) (codes "group")) { title = title });
  access_hash = pos 0;
})
resolve_result (resolved_channel ch hash) = ok (record {
  kind = channel_type ch.broadcast;
  chat_id = bot_api_chat_id ch.id true;
  user = none;
  chat = some (channel_info_chat ch);
  access_hash = hash;
})
resolve_result other_resolved = err (api (errorf 400 (codes "unknown resolved peer type")))

-- Texts that are no number are left out.
unfoldable pub ids_of_texts : List Bytes → List ℤ
ids_of_texts [] = []
ids_of_texts (s ∷ ss) =
    let rest = ids_of_texts ss in
    elim (json_parse_int s) [ none ↦ rest | some n ↦ to_int32 n ∷ rest ]

abbrev pub not_an_array : Result (List ℤ)
not_an_array = err (api (err_bad_request (codes "message_ids must be an array of integers")))

-- Numbers if all elements are, else texts.
abbrev pub ids_or_texts : Option (List ℤ) → Option (List Bytes) → Result (List ℤ)
ids_or_texts (some ns) texts = ok (map to_int32 ns)
ids_or_texts none (some ss) = ok (ids_of_texts ss)
ids_or_texts none none = not_an_array

-- The messages are translated in one context, one after the other; nil ones are left out.
unfoldable pub translated_messages :
    (KeyboardButton → Option Bytes) → List (Option MessageObj) → Action (List Message)
translated_messages get_text [] t = ([], t)
translated_messages get_text (none ∷ ms) t = translated_messages get_text ms t
translated_messages get_text (some m ∷ ms) t =
    let first = message_obj_to_bot_api_ctx get_text m t in
    let rest = translated_messages get_text ms first.1 in (first.0 ∷ rest.0, rest.1)

module _ (whole : Bytes → Option ℤ) (number_text : Bytes → Bytes)
    (tree : Bytes → JsonTree.Json) where
  unfoldable pub resolve_username :
      (Bytes → Result Resolved) → Params → Result ResolveUsernameResult
  resolve_username client ps =
      require_string number_text ps (codes "username") >>= client >>= resolve_result

  unfoldable pub json_unmarshal_ints : Json → Result (List ℤ)
  unfolding ids_of_texts
  json_unmarshal_ints raw =
      ids_or_texts (raw_slice whole number_text tree int_element raw)
        (raw_slice whole number_text tree text_element raw)

  abbrev pub ids_of_raw : Option Json → Result (List ℤ)
  ids_of_raw none = err (api (err_bad_request (field_required (codes "message_ids"))))
  ids_of_raw (some raw) = json_unmarshal_ints raw

  -- Without an id nothing is asked for.
  module _ (get_text : KeyboardButton → Option Bytes) (t : TranslateContext)
      (get_messages : ChatRef → List ℤ → Result (List (Option MessageObj))) where
    abbrev pub fetched_messages : ChatRef → List ℤ → Result (List Message)
    fetched_messages peer [] = ok []
    fetched_messages peer (n ∷ ids) =
        get_messages peer (n ∷ ids) >>= λ ms. ok (translated_messages get_text ms t).0

    unfoldable pub get_messages_by_id : Params → Result (List Message)
    get_messages_by_id ps = do
      peer ← resolve_chat_id ps (codes "chat_id")
      ids ← ids_of_raw (param_raw ps (codes "message_ids"))
      fetched_messages peer ids
