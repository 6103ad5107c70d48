-- ===== src/Server/Answers.antt =====
-- internal/server/methods_answer.go.
pub mod Laws
pub mod Tests
use tgbotd.Prelude.{List, [], ◌∷◌, ◌++◌, Option, none, some, Bool, true, false, ◌||◌, if◌then◌else◌}
use tgbotd.Prelude.Bytes.{Bytes, codes, bytes_eq}
use tgbotd.Prelude.Int.{ℤ, to_int32}
use tgbotd.Botapi.{Result, ok, err, api, err_bad_request, ◌>>=◌}
use tgbotd.Json as JsonTree
use tgbotd.Json.Reading.{find, struct_fields, text_value}
use tgbotd.Server.Integers.{json_parse_int}
use tgbotd.Server.Params.{
  Params, Json, param_string, param_int64, param_raw, require_string, field_required,
}
use tgbotd.Server.Chats.{flag}
use tgbotd.Server.Send.{or_nothing, or_zero}
use tgbotd.Server.Send.Groups.{◌>>?◌, raw_slice}

-- `telegram.CallbackOptions` and `telegram.InlineSendOptions`, as far as they are set.
pub record CallbackOptions : Type 0 where
  pub alert : Bool
  pub url : Bytes
  pub cache_time : ℤ

pub record InlineOptions : Type 0 where
  pub cache_time : ℤ
  pub is_private : Bool
  pub next_offset : Bytes

-- `telegram.InputBotInlineResultObj`, as far as it is set, with the text of its message.
pub record InlineResult : Type 0 where
  pub id : Bytes
  pub kind : Bytes
  pub title : Bytes
  pub description : Bytes
  pub url : Bytes
  pub message : Bytes

pub data AnswerCall : Type 0 where
  answer_callback : (query_id : ℤ) → Bytes → CallbackOptions → AnswerCall
  answer_inline : (query_id : ℤ) → List InlineResult → InlineOptions → AnswerCall

abbrev pub numeric_or : Bytes → Option ℤ → Result ℤ
numeric_or name none = err (api (err_bad_request (name ++ codes " must be numeric")))
numeric_or name (some n) = ok n

-- The first text that is not empty.
unfoldable pub first_non_empty : List Bytes → Bytes
first_non_empty [] = []
first_non_empty ([] ∷ ss) = first_non_empty ss
first_non_empty ((c ∷ s) ∷ ss) = c ∷ s

abbrev pub no_type_or_id : Result (Bytes × Bytes)
no_type_or_id = err (api (err_bad_request (codes "inline result missing type/id")))

-- The type and the id of a result.
abbrev pub type_and_id : Option (Bytes × Bytes) → Result (Bytes × Bytes)
type_and_id (some (c ∷ kind, d ∷ id)) = ok (c ∷ kind, d ∷ id)
type_and_id _ = no_type_or_id

unfoldable pub read_head : JsonTree.Json → Option (Bytes × Bytes)
unfolding find
read_head x = struct_fields x >>? λ fs. text_value (find (codes "type") fs) >>? λ kind.
    text_value (find (codes "id") fs) >>? λ id. some (kind, id)

-- The text of the message in `input_message_content`, which may be left out.
abbrev pub content_text : Option JsonTree.Json → Option Bytes
content_text none = some []
content_text (some x) = struct_fields x >>? λ fs. text_value (find (codes "message_text") fs)

unfoldable pub read_article : Bytes → JsonTree.Json → Option InlineResult
read_article id x = struct_fields x >>? λ fs. text_value (find (codes "title") fs) >>? λ title.
    text_value (find (codes "description") fs) >>? λ description.
    text_value (find (codes "url") fs) >>? λ url.
    content_text (find (codes "input_message_content") fs) >>? λ message. some (record {
      id = id;
      kind = codes "article";
      title = title;
      description = description;
      url = url;
      message = message;
    })

-- The members that texts must be read from, in their order.
unfoldable pub read_texts : List Bytes → JsonTree.Fields → Option (List Bytes)
read_texts [] fs = some []
read_texts (name ∷ names) fs =
    text_value (find name fs) >>? λ s. read_texts names fs >>? λ rest. some (s ∷ rest)

abbrev pub url_members : List Bytes
url_members =
    codes "photo_url"
    ∷ codes "gif_url"
    ∷ codes "mpeg4_url"
    ∷ codes "video_url"
    ∷ codes "audio_url"
    ∷ codes "voice_url"
    ∷ codes "document_url"
    ∷ []

-- The URLs, the title and the caption of a result with media.
unfoldable pub read_media : JsonTree.Json → Option (List Bytes × Bytes × Bytes)
unfolding read_texts
read_media x = struct_fields x >>? λ fs. read_texts url_members fs >>? λ urls.
    text_value (find (codes "thumbnail_url") fs) >>? λ thumb.
    text_value (find (codes "title") fs) >>? λ title.
    text_value (find (codes "caption") fs) >>? λ caption.
    text_value (find (codes "mime_type") fs) >>? λ mime. some (urls, title, caption)

abbrev pub article_or_bad : Option InlineResult → Result InlineResult
article_or_bad (some a) = ok a
article_or_bad none = err (api (err_bad_request (codes "bad article result")))

abbrev pub media_of_url : Bytes → Bytes → Bytes → Bytes → Bytes → Result InlineResult
media_of_url kind id title caption [] =
    err (api (err_bad_request (codes "inline result " ++ (kind ++ codes " missing url"))))
media_of_url kind id title caption (c ∷ url) = ok (record {
  id = id;
  kind = kind;
  title = title;
  description = [];
  url = c ∷ url;
  message = caption;
})

abbrev pub media_or_bad : Bytes → Bytes → Option (List Bytes × Bytes × Bytes) → Result InlineResult
media_or_bad kind id none = err (api (err_bad_request (codes "bad " ++ (kind ++ codes " result"))))
media_or_bad kind id (some (urls, title, caption)) =
    media_of_url kind id title caption (first_non_empty urls)

abbrev pub is_media_kind : Bytes → Bool
is_media_kind kind =
    bytes_eq kind (codes "photo")
    || bytes_eq kind (codes "gif")
    || bytes_eq kind (codes "mpeg4_gif")
    || bytes_eq kind (codes "video")
    || bytes_eq kind (codes "audio")
    || bytes_eq kind (codes "voice")
    || bytes_eq kind (codes "document")
    || bytes_eq kind (codes "sticker")

abbrev pub result_of_kind : JsonTree.Json → Bytes × Bytes → Result InlineResult
result_of_kind x (kind, id) =
    if bytes_eq kind (codes "article")
    then article_or_bad (read_article id x)
    else if is_media_kind kind
    then media_or_bad kind id (read_media x)
    else err (api (err_bad_request (codes "unsupported inline result type: " ++ kind)))

unfoldable pub parse_inline_result : JsonTree.Json → Result InlineResult
unfolding read_head read_article read_media first_non_empty
parse_inline_result x = type_and_id (read_head x) >>= result_of_kind x

-- The first error ends the loop.
unfoldable pub parse_inline_results : List JsonTree.Json → Result (List InlineResult)
parse_inline_results [] = ok []
parse_inline_results (x ∷ xs) =
    parse_inline_result x >>= λ a. parse_inline_results xs >>= λ rest. ok (a ∷ rest)

abbrev pub results_or_bad : Option (List JsonTree.Json) → Result (List JsonTree.Json)
results_or_bad (some xs) = ok xs
results_or_bad none = err (api (err_bad_request (codes "results must be JSON array")))

module _ (whole : Bytes → Option ℤ) (number_text : Bytes → Bytes)
    (tree : Bytes → JsonTree.Json) where
  abbrev pub query_id_of : Params → Bytes → Result ℤ
  query_id_of ps name =
      require_string number_text ps name >>= λ s. numeric_or name (json_parse_int s)

  abbrev pub cache_time_of : Params → ℤ
  cache_time_of ps = to_int32 (or_zero (param_int64 whole ps (codes "cache_time")))

  unfoldable pub answer_callback_query : Params → Result AnswerCall
  answer_callback_query ps = do
    qid ← query_id_of ps (codes "callback_query_id")
    ok (
        answer_callback qid (or_nothing (param_string number_text ps (codes "text"))) (record {
          alert = flag ps (codes "show_alert");
          url = or_nothing (param_string number_text ps (codes "url"));
          cache_time = cache_time_of ps;
        }))

  abbrev pub results_of_raw : Option Json → Result (List JsonTree.Json)
  results_of_raw none = err (api (err_bad_request (field_required (codes "results"))))
  results_of_raw (some raw) = results_or_bad (raw_slice whole number_text tree (λ x. some x) raw)

  unfoldable pub answer_inline_query : Params → Result AnswerCall
  answer_inline_query ps = do
    qid ← query_id_of ps (codes "inline_query_id")
    entries ← results_of_raw (param_raw ps (codes "results"))
    results ← parse_inline_results entries
    ok (
        answer_inline qid results (record {
          cache_time = cache_time_of ps;
          is_private = flag ps (codes "is_personal");
          next_offset = or_nothing (param_string number_text ps (codes "next_offset"));
        }))

-- A query is answered once its parameters are read, and the bot is answered true.
unfoldable pub perform_answer : (AnswerCall → Result Bool) → Result AnswerCall → Result Bool
perform_answer client plan = plan >>= λ c. client c >>= λ u. ok true
