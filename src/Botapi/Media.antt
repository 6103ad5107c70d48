-- ===== src/Botapi/Media.antt =====
-- internal/botapi/types.go: what a message carries besides its text. A pointer that may be nil is an
-- option; the JSON tags are the fields' names.
use tgbotd.Prelude.{List, Option, Bool}
use tgbotd.Prelude.Bytes.{Bytes}
use tgbotd.Prelude.Int.{ℤ}
use tgbotd.Json.{Float64}

pub record PhotoSize : Type 0 where
  pub file_id : Bytes
  pub file_unique_id : Bytes
  pub width : ℤ
  pub height : ℤ
  pub file_size : ℤ

pub record Document : Type 0 where
  pub file_id : Bytes
  pub file_unique_id : Bytes
  pub thumbnail : Option PhotoSize
  pub file_name : Bytes
  pub mime_type : Bytes
  pub file_size : ℤ

pub record Audio : Type 0 where
  pub file_id : Bytes
  pub file_unique_id : Bytes
  pub duration : ℤ
  pub performer : Bytes
  pub title : Bytes
  pub file_name : Bytes
  pub mime_type : Bytes
  pub file_size : ℤ
  pub thumbnail : Option PhotoSize

pub record Video : Type 0 where
  pub file_id : Bytes
  pub file_unique_id : Bytes
  pub width : ℤ
  pub height : ℤ
  pub duration : ℤ
  pub thumbnail : Option PhotoSize
  pub file_name : Bytes
  pub mime_type : Bytes
  pub file_size : ℤ

pub record Voice : Type 0 where
  pub file_id : Bytes
  pub file_unique_id : Bytes
  pub duration : ℤ
  pub mime_type : Bytes
  pub file_size : ℤ

pub record Animation : Type 0 where
  pub file_id : Bytes
  pub file_unique_id : Bytes
  pub width : ℤ
  pub height : ℤ
  pub duration : ℤ
  pub thumbnail : Option PhotoSize
  pub file_name : Bytes
  pub mime_type : Bytes
  pub file_size : ℤ

pub record VideoNote : Type 0 where
  pub file_id : Bytes
  pub file_unique_id : Bytes
  pub length : ℤ
  pub duration : ℤ
  pub thumbnail : Option PhotoSize
  pub file_size : ℤ

pub record Sticker : Type 0 where
  pub file_id : Bytes
  pub file_unique_id : Bytes
  pub type : Bytes
  pub width : ℤ
  pub height : ℤ
  pub is_animated : Bool
  pub is_video : Bool
  pub thumbnail : Option PhotoSize
  pub emoji : Bytes
  pub set_name : Bytes
  pub custom_emoji_id : Bytes
  pub file_size : ℤ

pub record Contact : Type 0 where
  pub phone_number : Bytes
  pub first_name : Bytes
  pub last_name : Bytes
  pub user_id : ℤ
  pub vcard : Bytes

pub record Location : Type 0 where
  pub latitude : Float64
  pub longitude : Float64
  pub horizontal_accuracy : Float64
  pub live_period : ℤ
  pub heading : ℤ
  pub proximity_alert_radius : ℤ

pub record Venue : Type 0 where
  pub location : Location
  pub title : Bytes
  pub address : Bytes
  pub foursquare_id : Bytes
  pub foursquare_type : Bytes
  pub google_place_id : Bytes
  pub google_place_type : Bytes

pub record Dice : Type 0 where
  pub emoji : Bytes
  pub value : ℤ

pub record PollOption : Type 0 where
  pub text : Bytes
  pub voter_count : ℤ

pub record Poll : Type 0 where
  pub id : Bytes
  pub question : Bytes
  pub options : List PollOption
  pub total_voter_count : ℤ
  pub is_closed : Bool
  pub is_anonymous : Bool
  pub type : Bytes
  pub allows_multiple_answers : Bool
  pub correct_option_id : ℤ
  pub explanation : Bytes
  pub open_period : ℤ
  pub close_date : ℤ
