-- ===== src/Server/Edit.antt =====
-- internal/server/methods_edit.go, and `editInlineMessage` of internal/server/inline_edit.go.
pub mod Laws
pub mod Tests
use tgbotd.Prelude.{List, [], ◌∷◌, ◌++◌, Option, none, some, Bool, true, false, ◌||◌}
use tgbotd.Prelude.Bytes.{Bytes, codes}
use tgbotd.Prelude.Int.{ℤ, pos, to_int32}
use tgbotd.Prelude.Maps.{lookup}
use tgbotd.Botapi.{Result, ok, err, api, errorf, err_bad_request, ◌>>=◌}
use tgbotd.Botapi.Types.{Message}
use tgbotd.Json as JsonTree
use tgbotd.Tlate.Telegram.{KeyboardButton, MessageObj, ReplyMarkup}
use tgbotd.Tlate.Context.{TranslateContext}
use tgbotd.Server.Params.{
  Params, Json, param_string, param_bool, param_raw, require_string, require_int64, field_required,
}
use tgbotd.Server.InlineId.{InlineMessageId, decode_inline_message_id}
use tgbotd.Server.Chats.{ChatRef, resolve_chat_id, flag}
use tgbotd.Server.Chats.Members.{is_true}
use tgbotd.Server.Send.{SendOptions, or_nothing, raw_fields, raw_markup, disabled_in}
use tgbotd.Server.Send.Groups.{raw_slice, small_value}
use tgbotd.Server.Send.Methods.{translated_answer}

-- `telegram.MessagesEditInlineBotMessageParams`, as far as it is set; `M` is the type of media.
pub record InlineEdit (M : Type 0) : Type 0 where
  pub id : InlineMessageId
  pub message : Bytes
  pub media : Option M
  pub reply_markup : Option ReplyMarkup
  pub no_webpage : Bool
  pub invert_media : Bool

-- The actions that a chat shows of the bot.
pub data SendAction : Type 0 where
  typing : SendAction
  upload_photo : SendAction
  record_video : SendAction
  upload_video : SendAction
  record_audio : SendAction
  upload_audio : SendAction
  upload_document : SendAction
  geo_location : SendAction
  record_round : SendAction
  upload_round : SendAction
  choose_sticker : SendAction

abbrev pub send_actions : List (Bytes × SendAction)
send_actions =
    (codes "typing", typing)
    ∷ (codes "upload_photo", upload_photo)
    ∷ (codes "record_video", record_video)
    ∷ (codes "upload_video", upload_video)
    ∷ (codes "record_voice", record_audio)
    ∷ (codes "upload_voice", upload_audio)
    ∷ (codes "upload_document", upload_document)
    ∷ (codes "find_location", geo_location)
    ∷ (codes "record_video_note", record_round)
    ∷ (codes "upload_video_note", upload_round)
    ∷ (codes "choose_sticker", choose_sticker)
    ∷ []

abbrev pub action_or_unknown : Bytes → Option SendAction → Result SendAction
action_or_unknown name none =
    err (api (err_bad_request (codes "unknown action \"" ++ (name ++ codes "\""))))
action_or_unknown name (some a) = ok a

unfoldable pub action_of : Bytes → Result SendAction
action_of name = action_or_unknown name (lookup name send_actions)

abbrev pub parsed_ids : Option (List ℤ) → Result (List ℤ)
parsed_ids (some ids) = ok ids
parsed_ids none = err (api (err_bad_request (codes "message_ids must be an array of integers")))

-- The messages and chats that a request is about, with what becomes of them.
pub data EditCall : Type 0 where
  delete_call : ChatRef → (ids : List ℤ) → EditCall
  set_typing_call : ChatRef → SendAction → EditCall

pub data ForwardCall : Type 0 where
  forward_call : (dest src : ChatRef) → (ids : List ℤ) (silent no_forwards : Bool) → ForwardCall

pub data TextEdit (M : Type 0) : Type 0 where
  edit_inline : InlineEdit M → TextEdit M
  edit_message : ChatRef → (id : ℤ) → Bytes → SendOptions → TextEdit M

module _ (whole : Bytes → Option ℤ) (number_text : Bytes → Bytes)
    (tree : Bytes → JsonTree.Json) where
  abbrev pub ids_of_raw : Option Json → Result (List ℤ)
  ids_of_raw none = err (api (err_bad_request (field_required (codes "message_ids"))))
  ids_of_raw (some raw) =
      parsed_ids (raw_slice whole number_text tree (λ x. small_value (some x)) raw)

  unfoldable pub delete_message : Params → Result EditCall
  delete_message ps = do
    peer ← resolve_chat_id ps (codes "chat_id")
    id ← require_int64 whole ps (codes "message_id")
    ok (delete_call peer (to_int32 id ∷ []))

  unfoldable pub delete_messages : Params → Result EditCall
  delete_messages ps = do
    peer ← resolve_chat_id ps (codes "chat_id")
    ids ← ids_of_raw (param_raw ps (codes "message_ids"))
    ok (delete_call peer ids)

  unfoldable pub forward_message : Params → Result ForwardCall
  forward_message ps = do
    dest ← resolve_chat_id ps (codes "chat_id")
    src ← resolve_chat_id ps (codes "from_chat_id")
    id ← require_int64 whole ps (codes "message_id")
    ok (
        forward_call dest src (to_int32 id ∷ []) (flag ps (codes "disable_notification"))
          (flag ps (codes "protect_content")))

  unfoldable pub send_chat_action : Params → Result EditCall
  unfolding action_of
  send_chat_action ps = do
    peer ← resolve_chat_id ps (codes "chat_id")
    name ← require_string number_text ps (codes "action")
    a ← action_of name
    ok (set_typing_call peer a)

  -- No page is shown if either parameter turns it off.
  abbrev pub no_page : Params → Bool
  no_page ps =
      is_true (
        disabled_in
          (raw_fields whole number_text tree (param_raw ps (codes "link_preview_options"))))
      || flag ps (codes "disable_web_page_preview")

  abbrev pub text_edit_options : Params → SendOptions
  text_edit_options ps = record {
    parse_mode = or_nothing (param_string number_text ps (codes "parse_mode"));
    silent = false;
    no_forwards = false;
    reply_id = pos 0;
    topic_id = pos 0;
    effect = pos 0;
    reply_markup = raw_markup whole number_text tree (param_raw ps (codes "reply_markup"));
    link_preview = false;
  }

  module _ {M : Type 0} where
    abbrev pub inline_fields : Params → Bytes → Option M → InlineMessageId → InlineEdit M
    inline_fields ps message media id = record {
      id = id;
      message = message;
      media = media;
      reply_markup = raw_markup whole number_text tree (param_raw ps (codes "reply_markup"));
      no_webpage = no_page ps;
      invert_media = flag ps (codes "show_caption_above_media");
    }

    -- `editInlineMessage`: a text that is nil is empty, and `extra` changes nothing where it is nil.
    unfoldable pub edit_inline_message :
        Params → Bytes → Bytes → Option M → (InlineEdit M → InlineEdit M) → Result (InlineEdit M)
    edit_inline_message ps inline_id message media extra =
        decode_inline_message_id inline_id >>= λ id. ok (extra (inline_fields ps message media id))

    abbrev pub chat_edit : Params → Bytes → Result (TextEdit M)
    chat_edit ps message = do
      peer ← resolve_chat_id ps (codes "chat_id")
      id ← require_int64 whole ps (codes "message_id")
      ok (edit_message peer (to_int32 id) message (text_edit_options ps))

    -- With an inline message id that is not empty, the chat is not looked at.
    abbrev pub chat_or_inline : Params → Bytes → Bytes → Result (TextEdit M)
    chat_or_inline ps message [] = chat_edit ps message
    chat_or_inline ps message (c ∷ s) =
        edit_inline_message ps (c ∷ s) message none (λ e. e) >>= λ e. ok (edit_inline e)

    unfoldable pub edit_message_text : Params → Result (TextEdit M)
    edit_message_text ps = do
      message ← require_string number_text ps (codes "text")
      chat_or_inline ps message
          (or_nothing (param_string number_text ps (codes "inline_message_id")))

-- deleteMessage, deleteMessages and sendChatAction answer true once their calls are made.
unfoldable pub perform_edit : (EditCall → Result Bool) → Result EditCall → Result Bool
perform_edit client plan = plan >>= λ c. client c >>= λ u. ok true

-- The answers that depend on the library's messages are translated with `t`.
module _ (get_text : KeyboardButton → Option Bytes) (t : TranslateContext) where
  abbrev pub first_forwarded : List (Option MessageObj) → Result (Option Message)
  first_forwarded [] = err (api (errorf 500 (codes "forward returned no messages")))
  first_forwarded (m ∷ ms) = ok (translated_answer get_text t m)

  unfoldable pub answer_forwarded :
      (ForwardCall → Result (List (Option MessageObj)))
      → Result ForwardCall
      → Result (Option Message)
  answer_forwarded client plan = plan >>= client >>= first_forwarded

  -- What editMessageText answers: true for an inline message, else the message.
  module _ {M : Type 0} (edit_inline_bot_message : InlineEdit M → Result Bool)
      (edit_chat_message : ChatRef → ℤ → Bytes → SendOptions → Result (Option MessageObj)) where
    abbrev pub answer_edit : TextEdit M → Result (Option (Option Message))
    answer_edit (edit_inline e) = edit_inline_bot_message e >>= λ u. ok none
    answer_edit (edit_message peer id message opts) =
        edit_chat_message peer id message opts >>= λ m. ok (some (translated_answer get_text t m))

    unfoldable pub answer_edited : Result (TextEdit M) → Result (Option (Option Message))
    answer_edited plan = plan >>= answer_edit
