-- ===== src/Server/Send/Laws.antt =====
-- Which message is replied to: sendMessage (internal/server/methods_core.go) and the methods that send media
-- (internal/server/input_file.go).
use tgbotd.Prelude.{◌≡◌, Option, some}
use tgbotd.Prelude.Bytes.{Bytes, codes}
use tgbotd.Prelude.Int.{ℤ}
use tgbotd.Json as JsonTree
use tgbotd.Server.Integers.{to_int32_safe}
use tgbotd.Server.Params.{Params, param_int64, param_raw}
use tgbotd.Server.Send.{
  id_in, raw_fields, message_reply_id, media_reply_id, send_options, common_media_opts,
}

-- With both `reply_parameters` and `reply_to_message_id`, sendMessage replies to the second, taken to
-- the nearest `int32`, and a method that sends media to the first.
pub send_options-common_media_opts :
    (whole : Bytes → Option ℤ) (number_text : Bytes → Bytes) (tree : Bytes → JsonTree.Json)
    (ps : Params) (m n : ℤ)
    → id_in (raw_fields whole number_text tree (param_raw ps (codes "reply_parameters"))) ≡ some m
    → param_int64 whole ps (codes "reply_to_message_id") ≡ some n
    → ((send_options whole number_text tree ps).reply_id ≡ to_int32_safe n)
      × ((common_media_opts whole number_text tree ps).reply_id ≡ m)
unfolding send_options common_media_opts message_reply_id media_reply_id
send_options-common_media_opts whole number_text tree ps m n h k = (rw k, rw h)
