-- ===== src/Server/Send/Methods.antt =====
-- sendMessage (internal/server/methods_core.go), and sendLocation, sendVenue, sendContact and sendDice of
-- internal/server/methods_send.go: what each asks the library's client to send, and the answer, which is the translation of
-- what the client returns.
use tgbotd.Prelude.{Option, none, some}
use tgbotd.Prelude.Bytes.{Bytes, codes}
use tgbotd.Prelude.Int.{ℤ, to_int32}
use tgbotd.Botapi.{Result, ok, err, api, err_bad_request, ◌>>=◌}
use tgbotd.Botapi.Types.{Message}
use tgbotd.Json.{Float64}
use tgbotd.Json as JsonTree
use tgbotd.Server.Params.{Params, Json, null, number, param_int64, param_raw, require_string}
use tgbotd.Server.Chats.{resolve_chat_id}
use tgbotd.Server.Send.{message_to_send, common_media_opts}
use tgbotd.Tlate.Telegram.{KeyboardButton, MessageObj}
use tgbotd.Tlate.Context.{TranslateContext}
use tgbotd.Tlate.Messages.{message_obj_to_bot_api_ctx}
use tgbotd.Server.Send.Media.{
  MediaOptions, SentMedia, SendCall, plain_options, dice_or_default, positive, sized, given_text,
  geo_point, geo_live, venue, contact, send_message_call, send_media_call, send_dice_call,
}

module _ (whole : Bytes → Option ℤ) (number_text : Bytes → Bytes) (tree : Bytes → JsonTree.Json)
    (float_of : Bytes → Option Float64) where
  -- json.Unmarshal of a float64: null is read as 0.
  abbrev pub as_float : Option Json → Option Float64
  as_float (some null) = some 0
  as_float (some (number n)) = float_of n
  as_float _ = none

  unfoldable pub param_float : Params → Bytes → Option Float64
  param_float ps name = as_float (param_raw ps name)

  abbrev pub both : Option Float64 → Option Float64 → Result (Float64 × Float64)
  both (some lat) (some long) = ok (lat, long)
  both _ _ = err (api (err_bad_request (codes "latitude and longitude required")))

  unfoldable pub require_lat_lon : Params → Result (Float64 × Float64)
  unfolding param_float
  require_lat_lon ps = both (param_float ps (codes "latitude")) (param_float ps (codes "longitude"))

  abbrev pub options_of : Params → MediaOptions
  options_of ps = plain_options (common_media_opts whole number_text tree ps)

  abbrev pub location_media : Params → Float64 → Float64 → Option ℤ → SentMedia
  location_media ps lat long none = geo_point lat long
  location_media ps lat long (some period) =
      geo_live lat long (to_int32 period) (sized whole number_text tree ps (codes "heading"))
        (sized whole number_text tree ps (codes "proximity_alert_radius"))

  unfoldable pub send_location : Params → Result SendCall
  unfolding require_lat_lon
  send_location ps = do
    peer ← resolve_chat_id ps (codes "chat_id")
    (lat, long) ← require_lat_lon ps
    ok (
        send_media_call peer
          (location_media ps lat long (positive (param_int64 whole ps (codes "live_period"))))
          (options_of ps))

  unfoldable pub send_venue : Params → Result SendCall
  unfolding require_lat_lon
  send_venue ps = do
    peer ← resolve_chat_id ps (codes "chat_id")
    (lat, long) ← require_lat_lon ps
    title ← require_string number_text ps (codes "title")
    address ← require_string number_text ps (codes "address")
    ok (
        send_media_call peer
          (venue lat long title address (codes "foursquare")
            (given_text whole number_text tree ps (codes "foursquare_id"))
            (given_text whole number_text tree ps (codes "foursquare_type")))
          (options_of ps))

  unfoldable pub send_contact : Params → Result SendCall
  send_contact ps = do
    peer ← resolve_chat_id ps (codes "chat_id")
    phone ← require_string number_text ps (codes "phone_number")
    first ← require_string number_text ps (codes "first_name")
    ok (
        send_media_call peer
          (contact phone first (given_text whole number_text tree ps (codes "last_name"))
            (given_text whole number_text tree ps (codes "vcard")))
          (options_of ps))

  unfoldable pub send_dice : Params → Result SendCall
  send_dice ps = do
    peer ← resolve_chat_id ps (codes "chat_id")
    ok (
        send_dice_call peer
          (dice_or_default (given_text whole number_text tree ps (codes "emoji"))))

  unfoldable pub send_message : Params → Result SendCall
  send_message ps = do
    (peer, s, opts) ← message_to_send whole number_text tree ps
    ok (send_message_call peer s opts)

-- The message that the client returns, which may be nil, translated in a fresh context.
abbrev pub translated_answer :
    (KeyboardButton → Option Bytes) → TranslateContext → Option MessageObj → Option Message
translated_answer get_text t none = none
translated_answer get_text t (some m) = some (message_obj_to_bot_api_ctx get_text m t).0

unfoldable pub answer_sent :
    (KeyboardButton → Option Bytes)
    → TranslateContext
    → (SendCall → Result (Option MessageObj))
    → Result SendCall
    → Result (Option Message)
answer_sent get_text t client plan = plan >>= client >>= λ m. ok (translated_answer get_text t m)
