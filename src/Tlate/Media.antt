-- ===== src/Tlate/Media.antt =====
-- internal/tlate/media.go: what a message carries. The file ids are those of Fileid.antt.
pub mod Documents
pub mod Files
pub mod Laws
use tgbotd.Prelude.{
  ℕ, List, [], ◌∷◌, Option, none, some, Bool, true, false, not, length, if◌then◌else◌,
}
use tgbotd.Prelude.Bytes.{Bytes, codes}
use tgbotd.Prelude.Int.{ℤ, pos}
use tgbotd.Prelude.Decimal.{format_int}
use tgbotd.Json.{float_of_int32}
use tgbotd.Fileid.{Info, encode, unique_id, ft_photo}
use tgbotd.Botapi.Media.{
  PhotoSize, Document, Audio, Video, Voice, Animation, VideoNote, Sticker, Contact, Location, Venue,
  Dice, PollOption, Poll,
}
use tgbotd.Botapi.Types.{Message}
use tgbotd.Tlate.Telegram.{
  UserObj, Peer, peer_user, peer_chat, peer_channel, ChatObj, chat_obj, channel, other_chat, Entity,
  entity_mention, entity_hashtag, entity_cashtag, entity_bot_command, entity_url, entity_email,
  entity_bold, entity_italic, entity_code, entity_pre, entity_text_url, entity_mention_name,
  entity_phone, entity_underline, entity_strike, entity_spoiler, entity_blockquote,
  entity_bank_card, entity_custom_emoji, other_entity, KeyboardButton, button_obj, button_url,
  button_callback, button_simple_web_view, button_web_view, button_switch_inline, button_buy,
  button_game, button_copy, button_url_auth, input_button_url_auth, button_request_phone,
  button_request_geo_location, button_request_poll, other_button, nil_button, ReplyMarkup,
  reply_inline_markup, reply_keyboard_markup, reply_keyboard_hide, reply_keyboard_force_reply,
  SizeObj, photo_size_obj, photo_cached_size, photo_stripped_size, photo_size_progressive,
  other_size, PhotoObj, DocumentAttribute, attribute_audio, attribute_video, attribute_sticker,
  attribute_animated, attribute_filename, attribute_image_size, other_attribute, DocumentObj,
  GeoPoint, PollObj, PollResults, MessageMedia, media_photo, media_document, media_contact,
  media_geo, media_geo_live, media_venue, media_dice, media_poll, other_media, MessageObj,
}
use Documents.{file_info, photo_size_of, fill_from_document}

-- `v.Sizes[len(v.Sizes)-1]`, or 0 of none.
abbrev pub last_size : List ℤ → ℤ
last_size [] = pos 0
last_size (n ∷ []) = n
last_size (n ∷ m ∷ ns) = last_size (m ∷ ns)

abbrev pub photo_info : PhotoObj → Bytes → Info
photo_info p kind = file_info p.dc_id ft_photo p.id p.access_hash p.file_reference kind

-- The size of one kind, in front of the others; stripped and unknown ones are left out.
abbrev pub photo_size : PhotoObj → SizeObj → List PhotoSize → List PhotoSize
photo_size p (photo_size_obj kind w h size) rest = photo_size_of (photo_info p kind) w h size ∷ rest
photo_size p (photo_cached_size kind w h bytes) rest =
    photo_size_of (photo_info p kind) w h (pos (length bytes)) ∷ rest
photo_size p photo_stripped_size rest = rest
photo_size p (photo_size_progressive kind w h sizes) rest =
    photo_size_of (photo_info p kind) w h (last_size sizes) ∷ rest
photo_size p other_size rest = rest

unfoldable pub photo_sizes_from : PhotoObj → List SizeObj → List PhotoSize
photo_sizes_from p [] = []
photo_sizes_from p (s ∷ ss) = photo_size p s (photo_sizes_from p ss)

unfoldable pub photo_sizes : PhotoObj → List PhotoSize
unfolding photo_sizes_from
photo_sizes p = photo_sizes_from p p.sizes

-- The answers with a text.
unfoldable pub poll_options : List (Option Bytes) → List PollOption
poll_options [] = []
poll_options (none ∷ rest) = poll_options rest
poll_options (some text ∷ rest) = record { text = text; voter_count = pos 0 } ∷ poll_options rest

-- `Options[i].VoterCount = Results[i].Voters` as far as both go.
unfoldable pub with_voters : List PollOption → List ℤ → List PollOption
with_voters [] results = []
with_voters (o ∷ os) [] = o ∷ os
with_voters (o ∷ os) (n ∷ ns) = record o { voter_count = n } ∷ with_voters os ns

abbrev pub poll_type : Bool → Bytes
poll_type quiz = if quiz then codes "quiz" else codes "regular"

abbrev pub poll_before_results : PollObj → Poll
poll_before_results p = record {
  id = format_int p.id;
  question = p.question;
  options = poll_options p.answers;
  total_voter_count = pos 0;
  is_closed = p.closed;
  is_anonymous = not p.public_voters;
  type = poll_type p.quiz;
  allows_multiple_answers = p.multiple_choice;
  correct_option_id = pos 0;
  explanation = [];
  open_period = p.close_period;
  close_date = p.close_date;
}

unfoldable pub poll_to_bot_api : PollObj → Option PollResults → Poll
unfolding poll_options with_voters
poll_to_bot_api p none = poll_before_results p
poll_to_bot_api p (some r) = record (poll_before_results p) {
  total_voter_count = r.total_voters;
  options = with_voters (poll_options p.answers) r.results;
}

abbrev pub location_of : GeoPoint → Location
location_of pt = record {
  latitude = pt.lat;
  longitude = pt.long;
  horizontal_accuracy = 0;
  live_period = pos 0;
  heading = pos 0;
  proximity_alert_radius = pos 0;
}

abbrev pub accurate_location : GeoPoint → Location
accurate_location pt = record (location_of pt) {
  horizontal_accuracy = float_of_int32 pt.accuracy_radius;
}

-- The zero value of `Location` where there is no point.
abbrev pub venue_location : Option GeoPoint → Location
venue_location none = location_of (record { lat = 0; long = 0; accuracy_radius = pos 0 })
venue_location (some pt) = location_of pt

unfoldable pub fill_media : Message → MessageMedia → Message
unfolding fill_from_document photo_sizes poll_to_bot_api
fill_media bm (media_photo none) = bm
fill_media bm (media_photo (some p)) = record bm { photo = photo_sizes p }
fill_media bm (media_document none) = bm
fill_media bm (media_document (some d)) = fill_from_document bm d
fill_media bm (media_contact phone first last vcard id) = record bm {
  contact = some (record {
    phone_number = phone;
    first_name = first;
    last_name = last;
    user_id = id;
    vcard = vcard;
  });
}
fill_media bm (media_geo none) = bm
fill_media bm (media_geo (some pt)) = record bm { location = some (accurate_location pt) }
fill_media bm (media_geo_live none period heading radius) = bm
fill_media bm (media_geo_live (some pt) period heading radius) = record bm {
  location = some (record (accurate_location pt) {
    live_period = period;
    heading = heading;
    proximity_alert_radius = radius;
  });
}
fill_media bm (media_venue geo title address id kind) = record bm {
  venue = some (record {
    location = venue_location geo;
    title = title;
    address = address;
    foursquare_id = id;
    foursquare_type = kind;
    google_place_id = [];
    google_place_type = [];
  });
}
fill_media bm (media_dice emoticon value) = record bm {
  dice = some (record { emoji = emoticon; value = value });
}
fill_media bm (media_poll none results) = bm
fill_media bm (media_poll (some p) results) = record bm { poll = some (poll_to_bot_api p results) }
fill_media bm other_media = bm
