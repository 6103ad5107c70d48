-- ===== src/Server/InputFile/Tests.antt =====
-- File ids, attachments and URLs in requests.
use tgbotd.Prelude.{false, ◌≡◌, refl, [], ◌∷◌, Option, none, some, arith}
use tgbotd.Prelude.Bytes.{Bytes, codes, bytes_eq, has_prefix}
use tgbotd.Prelude.Int.{pos, negsuc}
use tgbotd.Prelude.Maps.{lookup}
use tgbotd.Botapi.{Result, ok}
use tgbotd.Botapi.Types.{chat_of}
use tgbotd.Fileid.{encode}
use tgbotd.Server.Params.{Params, text, param_raw}
use tgbotd.Tlate.Telegram.{KeyboardButton, DocumentObj, MessageObj, media_document}
use tgbotd.Tlate.Messages.Files.{IsFile, built_message-decode}
use tgbotd.Server.InputFile.{
  input_document, by_reference, temporary, Fetched, not_fetched, text_input, resolve_input_file,
}
use tgbotd.Server.InputFile.Laws.{resolve_input_file-built_message}

abbrev no_text : KeyboardButton → Option Bytes
no_text b = none

abbrev same : Bytes → Bytes
same s = s

abbrev save : Bytes → Result Bytes
save name = ok (codes "/tmp/part")

abbrev fetch : Bytes → Fetched
fetch url = not_fetched (codes "HTTP 404")

abbrev report : DocumentObj
report = record {
  dc_id = pos 2;
  id = pos 77;
  access_hash = negsuc 12;
  file_reference = 1 ∷ 0 ∷ 200 ∷ [];
  mime_type = [];
  size = pos 5000;
  thumbs = [];
  attributes = [];
}

report-IsFile : IsFile (pos 2) (pos 77) (negsuc 12) (1 ∷ 0 ∷ 200 ∷ [])
report-IsFile = record {
  dc_range = omega arith;
  id_range = omega arith;
  hash_range = omega arith;
  ref_bytes = (omega arith, (omega arith, (omega arith, tt)));
  ref_some = omega arith;
  ref_short = omega arith;
}

abbrev message : MessageObj
message = record {
  id = pos 3;
  out = false;
  from_id = none;
  peer_id = none;
  date = pos 1000;
  edit_date = pos 0;
  message = [];
  entities = [];
  media = some (media_document (some report));
  reply_markup = none;
}

abbrev report_id : Bytes
report_id =
    encode
      (built_message-decode no_text message report (chat_of (pos 7) []) none refl report-IsFile).0

abbrev request : Params
request = (codes "document", text report_id) ∷ []

request_raw : param_raw request (codes "document") ≡ some (text report_id)
unfolding param_raw lookup bytes_eq
request_raw = refl

resolve_input_file-built_message_example :
    resolve_input_file same save fetch [] request (codes "document")
    ≡ ok (by_reference (input_document (pos 77) (negsuc 12) (1 ∷ 0 ∷ 200 ∷ [])))
resolve_input_file-built_message_example =
    resolve_input_file-built_message same save fetch no_text message report (chat_of (pos 7) [])
      none [] request (codes "document") report_id refl report-IsFile
      (built_message-decode no_text message report (chat_of (pos 7) []) none refl report-IsFile).1
      request_raw

attachment :
    resolve_input_file same save fetch
      ((codes "part1", codes "x") ∷ [])
      ((codes "photo", text (codes "attach://part1")) ∷ [])
      (codes "photo")
    ≡ ok (temporary (codes "/tmp/part"))
unfolding resolve_input_file text_input param_raw lookup bytes_eq has_prefix
attachment = refl
