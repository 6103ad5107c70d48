-- ===== src/Server/Send/Tests.antt =====
-- Messages to send on small requests.
use tgbotd.Prelude.{◌≤◌, length, ◌≡◌, refl, [], ◌∷◌, Option, none, some}
use tgbotd.Prelude.Bytes.{Bytes, codes, bytes_eq, has_prefix}
use tgbotd.Prelude.Int.{ℤ, pos}
use tgbotd.Prelude.Maps.{lookup}
use tgbotd.Prelude.Decimal.{parse_int, parse_signed, parse_digits, all_digits, value}
use tgbotd.Json as JsonTree
use tgbotd.Json.Reading.{find}
use tgbotd.Server.Params.{Params, text, number, composite, param_int64, param_raw}
use tgbotd.Botapi.{Result, ok}
use tgbotd.Server.Chats.{handle, resolve_chat_id}
use tgbotd.Server.InputFile.{plain_text, temporary}
use tgbotd.Server.Send.Media.{send_album_call}
use tgbotd.Server.Send.Groups.{elements, entry_media, group_items, send_media_group}
use tgbotd.Server.Send.Albums.{send_media_group-length}
use tgbotd.Server.Send.{
  common_media_opts, replace_from, normalize_bot_api_html, normalize_text, id_in, raw_fields,
}

abbrev no_float : Bytes → Option ℤ
no_float s = none

abbrev same_text : Bytes → Bytes
same_text s = s

abbrev replies_to : Bytes → JsonTree.Json
replies_to s = JsonTree.object ((codes "message_id", JsonTree.num (pos 5)) ∷ [])

abbrev request : Params
request =
    (codes "reply_parameters", composite [])
    ∷ (codes "reply_to_message_id", number (codes "9"))
    ∷ []

first_reply :
    id_in (raw_fields no_float same_text replies_to (param_raw request (codes "reply_parameters")))
    ≡ some (pos 5)
unfolding param_raw lookup bytes_eq find
first_reply = refl

second_reply : param_int64 no_float request (codes "reply_to_message_id") ≡ some (pos 9)
unfolding param_int64 param_raw lookup bytes_eq parse_int parse_signed parse_digits all_digits value
second_reply = refl

spoiler_renamed :
    normalize_text (codes "a<tg-spoiler>b</tg-spoiler>") (codes "HTML")
    ≡ codes "a<spoiler>b</spoiler>"
unfolding normalize_text normalize_bot_api_html replace_from has_prefix bytes_eq
spoiler_renamed = refl

abbrev two_photos : Bytes → JsonTree.Json
two_photos s = JsonTree.arr (
    JsonTree.item (JsonTree.object ((codes "media", JsonTree.str (codes "a")) ∷ [])) (
      JsonTree.item (JsonTree.object ((codes "media", JsonTree.str (codes "attach://B")) ∷ []))
        JsonTree.done))

abbrev album : Params
album = (codes "chat_id", text (codes "@news")) ∷ (codes "media", composite []) ∷ []

abbrev in_temp : Bytes → Result Bytes
in_temp name = ok (codes "/tmp/b")

abbrev to_b : Bytes → Bytes
to_b s = codes "b"

send_media_group-length_example :
    let items = plain_text (codes "a") ∷ temporary (codes "/tmp/b") ∷ [] in
    (2 ≤ length items) × (length items ≤ 10)
unfolding send_media_group resolve_chat_id param_raw lookup has_prefix bytes_eq elements entry_media
    find group_items
send_media_group-length_example =
    send_media_group-length no_float same_text two_photos to_b in_temp
      ((codes "b", codes "part") ∷ []) album
      (send_album_call (handle (codes "@news"))
        (plain_text (codes "a") ∷ temporary (codes "/tmp/b") ∷ [])
        (common_media_opts no_float same_text two_photos album))
      refl
