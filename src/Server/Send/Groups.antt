-- ===== src/Server/Send/Groups.antt =====
-- sendPoll and sendMediaGroup of internal/server/methods_send.go.
use tgbotd.Prelude.{
  List, [], ◌∷◌, ◌++◌, drop, length, Option, none, some, Bool, false, not, ◌||◌, ltb, if◌then◌else◌,
}
use tgbotd.Prelude.Bytes.{Bytes, codes, bytes_eq, has_prefix}
use tgbotd.Prelude.Int.{ℤ, pos, to_int32}
use tgbotd.Prelude.Decimal.{in_int64}
use tgbotd.Prelude.Maps.{lookup}
use tgbotd.Botapi.{Result, ok, err, api, err_bad_request, ◌>>=◌}
use tgbotd.Botapi.Types.{Message}
use tgbotd.Json as JsonTree
use tgbotd.Json.Reading.{find, struct_fields, text_value, flag_value}
use tgbotd.Server.Params.{
  Params, Json, null, composite, param_string, param_int64, param_bool, param_raw, require_string,
  field_required,
}
use tgbotd.Server.Chats.{resolve_chat_id, flag}
use tgbotd.Server.InputFile.{InputFile, temporary, plain_text}
use tgbotd.Server.Send.{or_nothing, or_zero, small_id, common_media_opts}
use tgbotd.Server.Send.Media.{SendCall, send_poll_call, send_album_call}
use tgbotd.Server.Send.Methods.{translated_answer}
use tgbotd.Tlate.Telegram.{KeyboardButton, MessageObj}
use tgbotd.Tlate.Context.{TranslateContext}

infixl 5 ◌>>?◌
abbrev pub ◌>>?◌ {ℓ κ} : {A : Type ℓ} {B : Type κ} → Option A → (A → Option B) → Option B
none >>? f = none
some a >>? f = f a

-- A slice whose elements `read` reads; `none` is an error.
unfoldable pub elements {ℓ} :
    {A : Type ℓ} → (JsonTree.Json → Option A) → JsonTree.Items → Option (List A)
elements read JsonTree.done = some []
elements read (JsonTree.item x xs) = read x >>? λ a. elements read xs >>? λ rest. some (a ∷ rest)

-- A raw value read as a slice; null is the nil slice.
abbrev pub slice {ℓ} : {A : Type ℓ} → (JsonTree.Json → Option A) → JsonTree.Json → Option (List A)
slice read JsonTree.null = some []
slice read (JsonTree.arr xs) = elements read xs
slice read _ = none

abbrev pub text_element : JsonTree.Json → Option Bytes
text_element x = text_value (some x)

abbrev pub object_text : JsonTree.Json → Option Bytes
object_text x = struct_fields x >>? λ fs. text_value (find (codes "text") fs)

-- An `int`.
abbrev pub int_element : JsonTree.Json → Option ℤ
int_element JsonTree.null = some (pos 0)
int_element (JsonTree.num n) = in_int64 n
int_element _ = none

-- An `int32` of a struct.
abbrev pub small_value : Option JsonTree.Json → Option ℤ
small_value none = some (pos 0)
small_value (some JsonTree.null) = some (pos 0)
small_value (some (JsonTree.num n)) = small_id n
small_value _ = none

abbrev pub strings_or_objects : Option (List Bytes) → Option (List Bytes) → Result (List Bytes)
strings_or_objects (some options) objects = ok options
strings_or_objects none (some options) = ok options
strings_or_objects none none = err (api (err_bad_request (codes "options must be an array")))

abbrev pub parsed_answers : Option (List ℤ) → Result (List ℤ)
parsed_answers (some ids) = ok ids
parsed_answers none =
    err (api (err_bad_request (codes "correct_option_ids must be an array of integers")))

abbrev pub is_false : Option Bool → Bool
is_false none = false
is_false (some b) = not b

-- What one entry of a media group must read as; its media is what is used.
unfoldable pub entry_media : JsonTree.Json → Option Bytes
unfolding find
entry_media x = struct_fields x >>? λ fs. text_value (find (codes "type") fs) >>? λ kind.
    text_value (find (codes "media") fs) >>? λ media.
    text_value (find (codes "caption") fs) >>? λ caption.
    text_value (find (codes "parse_mode") fs) >>? λ mode.
    flag_value (find (codes "has_spoiler") fs) >>? λ spoiler.
    flag_value (find (codes "supports_streaming") fs) >>? λ streaming.
    small_value (find (codes "duration") fs) >>? λ duration.
    small_value (find (codes "width") fs) >>? λ width.
    small_value (find (codes "height") fs) >>? λ height.
    text_value (find (codes "performer") fs) >>? λ performer.
    text_value (find (codes "title") fs) >>? λ title. some media

abbrev pub parsed_entries : Option (List Bytes) → Result (List Bytes)
parsed_entries (some entries) = ok entries
parsed_entries none = err (api (err_bad_request (codes "media must be a JSON array")))

abbrev pub two_to_ten : List Bytes → Result (List Bytes)
two_to_ten entries =
    if ltb (length entries) 2 || ltb 10 (length entries)
    then err (api (err_bad_request (codes "media array must contain 2-10 items")))
    else ok entries

module _ {F : Type 0} (lower : Bytes → Bytes) (save : F → Result Bytes)
    (files : List (Bytes × F)) where
  abbrev pub attached_item : Bytes → Option F → Result InputFile
  attached_item name none = err (api (err_bad_request (codes "no multipart part named " ++ name)))
  attached_item name (some f) = save f >>= λ path. ok (temporary path)

  abbrev pub group_item : Bytes → Result InputFile
  group_item [] = err (api (err_bad_request (codes "each media entry needs a media field")))
  group_item (c ∷ s) =
      if has_prefix (c ∷ s) (codes "attach://")
      then attached_item (lower (drop 9 (c ∷ s))) (lookup (lower (drop 9 (c ∷ s))) files)
      else ok (plain_text (c ∷ s))

  -- The loop over the entries, which ends with the first error.
  unfoldable pub group_items : List Bytes → Result (List InputFile)
  group_items [] = ok []
  group_items (e ∷ es) = group_item e >>= λ x. group_items es >>= λ xs. ok (x ∷ xs)

module _ (whole : Bytes → Option ℤ) (number_text : Bytes → Bytes)
    (tree : Bytes → JsonTree.Json) where
  -- A raw value read as a slice.
  abbrev pub raw_slice {ℓ} : {A : Type ℓ} → (JsonTree.Json → Option A) → Json → Option (List A)
  raw_slice read null = some []
  raw_slice read (composite c) = slice read (tree c)
  raw_slice read _ = none

  abbrev pub options_of_raw : Option Json → Result (List Bytes)
  options_of_raw none = err (api (err_bad_request (field_required (codes "options"))))
  options_of_raw (some raw) =
      strings_or_objects (raw_slice text_element raw) (raw_slice object_text raw)

  abbrev pub answers_of_raw : Option Json → Result (List ℤ)
  answers_of_raw none = ok []
  answers_of_raw (some raw) = parsed_answers (raw_slice int_element raw)

  abbrev pub small_param : Params → Bytes → ℤ
  small_param ps name = to_int32 (or_zero (param_int64 whole ps name))

  unfoldable pub send_poll : Params → Result SendCall
  send_poll ps = do
    peer ← resolve_chat_id ps (codes "chat_id")
    question ← require_string number_text ps (codes "question")
    options ← options_of_raw (param_raw ps (codes "options"))
    answers ← answers_of_raw (param_raw ps (codes "correct_option_ids"))
    ok (
        send_poll_call peer question options (record {
          public_voters = is_false (param_bool ps (codes "is_anonymous"));
          multiple_choice = flag ps (codes "allows_multiple_answers");
          is_quiz =
              bytes_eq (or_nothing (param_string number_text ps (codes "type"))) (codes "quiz");
          close_period = small_param ps (codes "open_period");
          close_date = small_param ps (codes "close_date");
          solution = or_nothing (param_string number_text ps (codes "explanation"));
          correct_answers = answers;
          reply_id = small_param ps (codes "reply_to_message_id");
          topic_id = small_param ps (codes "message_thread_id");
          no_forwards = flag ps (codes "protect_content");
        }))

  abbrev pub entries_of_raw : Option Json → Result (List Bytes)
  entries_of_raw none = err (api (err_bad_request (field_required (codes "media"))))
  entries_of_raw (some raw) = parsed_entries (raw_slice entry_media raw)

  -- Temporary files are removed when the handler is done, also after an error.
  unfoldable pub send_media_group :
      {F : Type 0}
      → (Bytes → Bytes)
      → (F → Result Bytes)
      → List (Bytes × F)
      → Params
      → Result SendCall
  send_media_group lower save files ps = do
    peer ← resolve_chat_id ps (codes "chat_id")
    entries ← entries_of_raw (param_raw ps (codes "media"))
    kept ← two_to_ten entries
    items ← group_items lower save files kept
    ok (send_album_call peer items (common_media_opts whole number_text tree ps))

abbrev pub cons_message : Option Message → List Message → List Message
cons_message none ms = ms
cons_message (some m) ms = m ∷ ms

-- Each message is translated in a context of its own; nil ones are left out.
unfoldable pub answer_album :
    (KeyboardButton → Option Bytes) → TranslateContext → List (Option MessageObj) → List Message
answer_album get_text t [] = []
answer_album get_text t (m ∷ ms) =
    cons_message (translated_answer get_text t m) (answer_album get_text t ms)
