-- ===== src/Server/Send.antt =====
-- The options of messages that are sent: sendMessage of internal/server/methods_core.go, and commonMediaOpts of
-- internal/server/input_file.go.
pub mod Albums
pub mod Groups
pub mod Laws
pub mod Media
pub mod Methods
pub mod Tests
use tgbotd.Prelude.{
  ℕ, zero, suc, ◌-◌, List, [], ◌∷◌, ◌++◌, drop, length, Option, none, some, Bool, true, false, not,
  ◌||◌, if◌then◌else◌,
}
use tgbotd.Prelude.Bytes.{Bytes, codes, bytes_eq, has_prefix}
use tgbotd.Prelude.Int.{ℤ, pos, IsInt32, to_int32}
use tgbotd.Botapi.{Result, ok, err, ◌>>=◌}
use tgbotd.Json as JsonTree
use tgbotd.Json.Reading.{find, struct_fields, flag_value, lower}
use tgbotd.Server.Integers.{json_parse_int, to_int32_safe}
use tgbotd.Server.Params.{
  Params, Json, null, boolean, number, text, composite, param_string, param_int64, param_bool,
  param_raw, require_string,
}
use tgbotd.Server.Chats.{ChatRef, resolve_chat_id, flag}
use tgbotd.Server.Chats.Members.{is_true}
use tgbotd.Server.Markup.{parse_reply_markup}
use tgbotd.Tlate.Telegram.{ReplyMarkup}
use tgbotd.Tlate.Context.{int_eq}

-- strings.ReplaceAll of a text that is not empty: `skip` bytes of a match are still to be left out.
unfoldable pub replace_from : (old new : Bytes) → (skip : ℕ) → Bytes → Bytes
replace_from old new skip [] = []
replace_from old new (suc skip) (c ∷ s) = replace_from old new skip s
replace_from old new zero (c ∷ s) = elim (has_prefix (c ∷ s) old) [
  | true ↦ new ++ replace_from old new (length old - 1) s
  | false ↦ c ∷ replace_from old new zero s
]

abbrev pub replace_all : Bytes → Bytes → Bytes → Bytes
replace_all s old new = replace_from old new 0 s

unfoldable pub normalize_bot_api_html : Bytes → Bytes
unfolding replace_from
normalize_bot_api_html s =
    replace_all
      (replace_all (replace_all s (codes "<tg-spoiler>") (codes "<spoiler>"))
        (codes "</tg-spoiler>") (codes "</spoiler>"))
      (codes "<blockquote expandable>") (codes "<blockquote>")

-- The mode in lower case, of which only ASCII letters can matter.
unfoldable pub normalize_text : Bytes → Bytes → Bytes
unfolding normalize_bot_api_html
normalize_text s mode = if bytes_eq (lower mode) (codes "html") then normalize_bot_api_html s else s

-- The struct's field `MessageID` of an `int32`: a number beyond it, or of another type, is an error.
abbrev pub small_id : ℤ → Option ℤ
small_id n = if int_eq (to_int32 n) n then some n else none

abbrev pub id_value : Option JsonTree.Json → Option ℤ
id_value none = some (pos 0)
id_value (some JsonTree.null) = some (pos 0)
id_value (some (JsonTree.num n)) = small_id n
id_value _ = none

abbrev pub nonzero : Option ℤ → Option ℤ
nonzero none = none
nonzero (some n) = if int_eq n (pos 0) then none else some n

abbrev pub id_in : Option JsonTree.Fields → Option ℤ
id_in none = none
id_in (some fs) = nonzero (id_value (find (codes "message_id") fs))

abbrev pub disabled_in : Option JsonTree.Fields → Option Bool
disabled_in none = none
disabled_in (some fs) = flag_value (find (codes "is_disabled") fs)

-- `telegram.SendOptions`, as far as it is set.
pub record SendOptions : Type 0 where
  pub parse_mode : Bytes
  pub silent : Bool
  pub no_forwards : Bool
  pub reply_id : ℤ
  pub topic_id : ℤ
  pub effect : ℤ
  pub reply_markup : Option ReplyMarkup
  pub link_preview : Bool

-- `telegram.MediaOptions`, as far as commonMediaOpts sets it.
pub record CommonOptions : Type 0 where
  pub silent : Bool
  pub no_forwards : Bool
  pub topic_id : ℤ
  pub reply_id : ℤ
  pub reply_markup : Option ReplyMarkup
  pub caption : Bytes
  pub parse_mode : Bytes
  pub spoiler : Bool
  pub invert_media : Bool

abbrev pub or_nothing : Option Bytes → Bytes
or_nothing none = []
or_nothing (some s) = s

abbrev pub or_zero : Option ℤ → ℤ
or_zero none = pos 0
or_zero (some n) = n

-- The second of two settings, if it is there, replaces the first.
abbrev pub overridden {ℓ} : {A : Type ℓ} → A → Option A → A
overridden a none = a
overridden a (some b) = b

abbrev pub map_some {ℓ κ} : {A : Type ℓ} {B : Type κ} → (A → B) → Option A → Option B
map_some f none = none
map_some f (some a) = some (f a)

abbrev pub effect_of : Option Bytes → ℤ
effect_of none = pos 0
effect_of (some s) = or_zero (json_parse_int s)

abbrev pub text_with_mode : Bytes → Option Bytes → Bytes
text_with_mode s none = s
text_with_mode s (some mode) = normalize_text s mode

-- `whole` and `number_text` are those of Server/Params; `tree` is the JSON tree of a composite value.
module _ (whole : Bytes → Option ℤ) (number_text : Bytes → Bytes)
    (tree : Bytes → JsonTree.Json) where
  -- A raw value read for a struct; what is no object nor null is an error.
  abbrev pub raw_fields : Option Json → Option JsonTree.Fields
  raw_fields (some null) = some JsonTree.end
  raw_fields (some (composite c)) = struct_fields (tree c)
  raw_fields _ = none

  abbrev pub raw_markup : Option Json → Option ReplyMarkup
  raw_markup (some (composite c)) = parse_reply_markup (tree c)
  raw_markup _ = none

  -- `reply_parameters`, and then `reply_to_message_id`.
  unfoldable pub message_reply_id : Params → ℤ
  message_reply_id ps =
      overridden (or_zero (id_in (raw_fields (param_raw ps (codes "reply_parameters")))))
        (map_some to_int32_safe (param_int64 whole ps (codes "reply_to_message_id")))

  -- `reply_to_message_id`, and then `reply_parameters`.
  unfoldable pub media_reply_id : Params → ℤ
  media_reply_id ps =
      overridden (or_zero (map_some to_int32 (param_int64 whole ps (codes "reply_to_message_id"))))
        (id_in (raw_fields (param_raw ps (codes "reply_parameters"))))

  unfoldable pub link_preview_of : Params → Bool
  link_preview_of ps =
      if flag ps (codes "disable_web_page_preview")
      then false
      else not (is_true (disabled_in (raw_fields (param_raw ps (codes "link_preview_options")))))

  unfoldable pub send_options : Params → SendOptions
  unfolding message_reply_id link_preview_of
  send_options ps = record {
    parse_mode = or_nothing (param_string number_text ps (codes "parse_mode"));
    silent = flag ps (codes "disable_notification");
    no_forwards = flag ps (codes "protect_content");
    reply_id = message_reply_id ps;
    topic_id = or_zero (map_some to_int32_safe (param_int64 whole ps (codes "message_thread_id")));
    effect = effect_of (param_string number_text ps (codes "message_effect_id"));
    reply_markup = raw_markup (param_raw ps (codes "reply_markup"));
    link_preview = link_preview_of ps;
  }

  unfoldable pub common_media_opts : Params → CommonOptions
  unfolding media_reply_id
  common_media_opts ps = record {
    silent = flag ps (codes "disable_notification");
    no_forwards = flag ps (codes "protect_content");
    topic_id = or_zero (map_some to_int32 (param_int64 whole ps (codes "message_thread_id")));
    reply_id = media_reply_id ps;
    reply_markup = raw_markup (param_raw ps (codes "reply_markup"));
    caption = or_nothing (param_string number_text ps (codes "caption"));
    parse_mode = or_nothing (param_string number_text ps (codes "parse_mode"));
    spoiler = flag ps (codes "has_spoiler");
    invert_media = flag ps (codes "show_caption_above_media");
  }

  -- The text and the options of sendMessage, for the chat that it names.
  unfoldable pub message_to_send : Params → Result (ChatRef × Bytes × SendOptions)
  unfolding send_options
  message_to_send ps = do
    peer ← resolve_chat_id ps (codes "chat_id")
    s ← require_string number_text ps (codes "text")
    ok (peer, text_with_mode s (param_string number_text ps (codes "parse_mode")), send_options ps)
