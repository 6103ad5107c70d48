-- ===== src/Server/Send/Media.antt =====
-- The sending of one file: sendMediaField of internal/server/methods_send.go and the methods that use it.
use tgbotd.Prelude.{
  List, [], ◌∷◌, ◌++◌, Option, none, some, Bool, true, false, ◌||◌, ltb, if◌then◌else◌,
}
use tgbotd.Prelude.Bytes.{Bytes, codes}
use tgbotd.Prelude.Int.{ℤ, pos, to_int32}
use tgbotd.Botapi.{Result, ok, err, ◌>>=◌}
use tgbotd.Json.{Float64}
use tgbotd.Json as JsonTree
use tgbotd.Server.Params.{Params, Json, param_string, param_int64, param_raw}
use tgbotd.Server.Chats.{ChatRef, resolve_chat_id, flag}
use tgbotd.Server.InputFile.{InputFile, temporary, Fetched, resolve_input_file}
use tgbotd.Server.Send.{SendOptions, CommonOptions, or_nothing, or_zero, common_media_opts}

-- The attributes that are sent with a file. The duration of a video is a float64, which holds the
-- number that it is made of up to 2^53.
pub data SentAttribute : Type 0 where
  sent_audio : (voice : Bool) (duration : ℤ) (performer title : Bytes) → SentAttribute
  sent_video : (round_message streaming : Bool) (duration w h : ℤ) → SentAttribute
  sent_animated : SentAttribute

-- `telegram.MediaOptions`.
pub record MediaOptions : Type 0 where
  pub common : CommonOptions
  pub attributes : List SentAttribute
  pub mime_type : Bytes
  pub force_document : Bool
  pub thumb : Option InputFile
  pub file_name : Bytes

pub data SentMedia : Type 0 where
  sent_file : InputFile → SentMedia
  geo_point : (lat long : Float64) → SentMedia
  geo_live : (lat long : Float64) (period heading proximity_radius : ℤ) → SentMedia
  venue : (lat long : Float64) (title address provider venue_id venue_type : Bytes) → SentMedia
  contact : (phone_number first_name last_name vcard : Bytes) → SentMedia

-- `telegram.PollOptions`
pub record PollOptions : Type 0 where
  pub public_voters : Bool
  pub multiple_choice : Bool
  pub is_quiz : Bool
  pub close_period : ℤ
  pub close_date : ℤ
  pub solution : Bytes
  pub correct_answers : List ℤ
  pub reply_id : ℤ
  pub topic_id : ℤ
  pub no_forwards : Bool

pub data SendCall : Type 0 where
  send_message_call : ChatRef → Bytes → SendOptions → SendCall
  send_media_call : ChatRef → SentMedia → MediaOptions → SendCall
  send_dice_call : ChatRef → Bytes → SendCall
  send_poll_call : ChatRef → (question : Bytes) → (options : List Bytes) → PollOptions → SendCall
  send_album_call : ChatRef → List InputFile → CommonOptions → SendCall

abbrev pub plain_options : CommonOptions → MediaOptions
plain_options c = record {
  common = c;
  attributes = [];
  mime_type = [];
  force_document = false;
  thumb = none;
  file_name = [];
}

abbrev pub is_there {ℓ} : {A : Type ℓ} → Option A → Bool
is_there none = false
is_there (some a) = true

abbrev pub one_if {ℓ} : {A : Type ℓ} → Bool → A → List A
one_if true a = a ∷ []
one_if false a = []

-- 🎲 in UTF-8.
abbrev pub default_dice : Bytes
default_dice = 240 ∷ 159 ∷ 142 ∷ 178 ∷ []

abbrev pub dice_or_default : Bytes → Bytes
dice_or_default [] = default_dice
dice_or_default (c ∷ s) = c ∷ s

abbrev pub positive : Option ℤ → Option ℤ
positive (some (pos n)) = if ltb 0 n then some (pos n) else none
positive _ = none

-- What `defer os.Remove(tmp)` removes when the handler is done.
abbrev pub temp_of : InputFile → List Bytes
temp_of (temporary path) = path ∷ []
temp_of _ = []

abbrev pub temps_of : Option InputFile → List Bytes
temps_of none = []
temps_of (some f) = temp_of f

-- The thumbnail is left out where it is not there or cannot be read.
abbrev pub thumb_of : Option Json → Result InputFile → Option InputFile
thumb_of none r = none
thumb_of (some j) (ok f) = some f
thumb_of (some j) (err e) = none

module _ (whole : Bytes → Option ℤ) (number_text : Bytes → Bytes)
    (tree : Bytes → JsonTree.Json) where
  abbrev pub sized : Params → Bytes → ℤ
  sized ps name = to_int32 (or_zero (param_int64 whole ps name))

  abbrev pub given_int : Params → Bytes → Bool
  given_int ps name = is_there (param_int64 whole ps name)

  abbrev pub given_text : Params → Bytes → Bytes
  given_text ps name = or_nothing (param_string number_text ps name)

  abbrev pub audio_options : Params → MediaOptions → MediaOptions
  audio_options ps o = record o {
    attributes =
        one_if
          (given_int ps (codes "duration")
            || is_there (param_string number_text ps (codes "performer"))
            || is_there (param_string number_text ps (codes "title")))
          (sent_audio false (sized ps (codes "duration")) (given_text ps (codes "performer"))
            (given_text ps (codes "title")));
    mime_type = codes "audio/mpeg";
  }

  abbrev pub document_options : Params → MediaOptions → MediaOptions
  document_options ps o = record o { force_document = true }

  abbrev pub has_video_size : Params → Bool
  has_video_size ps =
      given_int ps (codes "duration")
      || given_int ps (codes "width")
      || given_int ps (codes "height")

  abbrev pub whole_duration : Params → ℤ
  whole_duration ps = or_zero (param_int64 whole ps (codes "duration"))

  abbrev pub video_options : Params → MediaOptions → MediaOptions
  video_options ps o = record o {
    attributes = one_if (has_video_size ps || flag ps (codes "supports_streaming")) (
        sent_video false (flag ps (codes "supports_streaming")) (whole_duration ps)
          (sized ps (codes "width")) (sized ps (codes "height")));
    mime_type = codes "video/mp4";
  }

  abbrev pub animation_options : Params → MediaOptions → MediaOptions
  animation_options ps o = record o {
    attributes =
        sent_animated
        ∷ one_if (has_video_size ps) (
            sent_video false false (whole_duration ps) (sized ps (codes "width"))
              (sized ps (codes "height")));
    mime_type = codes "video/mp4";
  }

  abbrev pub voice_options : Params → MediaOptions → MediaOptions
  voice_options ps o = record o {
    attributes = sent_audio true (sized ps (codes "duration")) [] [] ∷ [];
    mime_type = codes "audio/ogg";
  }

  abbrev pub video_note_options : Params → MediaOptions → MediaOptions
  video_note_options ps o = record o {
    attributes =
        sent_video true false (whole_duration ps) (sized ps (codes "length"))
          (sized ps (codes "length"))
        ∷ [];
    mime_type = codes "video/mp4";
  }

  module _ {F : Type 0} (lower : Bytes → Bytes) (save : F → Result Bytes) (fetch : Bytes → Fetched)
      (files : List (Bytes × F)) where
    abbrev pub thumbnail_of : Params → Option InputFile
    thumbnail_of ps =
        thumb_of (param_raw ps (codes "thumbnail"))
          (resolve_input_file lower save fetch files ps (codes "thumbnail"))

    -- The call, and the temporary files that are removed afterwards.
    unfoldable pub send_media_field :
        Bytes → (Params → MediaOptions → MediaOptions) → Params → Result (SendCall × List Bytes)
    send_media_field name fill ps = do
      peer ← resolve_chat_id ps (codes "chat_id")
      media ← resolve_input_file lower save fetch files ps name
      ok (
        send_media_call peer (sent_file media)
            (record (fill ps (plain_options (common_media_opts whole number_text tree ps))) {
              thumb = thumbnail_of ps;
              file_name = given_text ps (codes "file_name");
            }),
        temp_of media ++ temps_of (thumbnail_of ps),
      )

    abbrev pub no_fill : Params → MediaOptions → MediaOptions
    no_fill ps o = o

    unfoldable pub send_photo : Params → Result (SendCall × List Bytes)
    unfolding send_media_field
    send_photo = send_media_field (codes "photo") no_fill

    unfoldable pub send_audio : Params → Result (SendCall × List Bytes)
    unfolding send_media_field
    send_audio = send_media_field (codes "audio") audio_options

    unfoldable pub send_document : Params → Result (SendCall × List Bytes)
    unfolding send_media_field
    send_document = send_media_field (codes "document") document_options

    unfoldable pub send_video : Params → Result (SendCall × List Bytes)
    unfolding send_media_field
    send_video = send_media_field (codes "video") video_options

    unfoldable pub send_animation : Params → Result (SendCall × List Bytes)
    unfolding send_media_field
    send_animation = send_media_field (codes "animation") animation_options

    unfoldable pub send_voice : Params → Result (SendCall × List Bytes)
    unfolding send_media_field
    send_voice = send_media_field (codes "voice") voice_options

    unfoldable pub send_video_note : Params → Result (SendCall × List Bytes)
    unfolding send_media_field
    send_video_note = send_media_field (codes "video_note") video_note_options

    unfoldable pub send_sticker : Params → Result (SendCall × List Bytes)
    unfolding send_media_field
    send_sticker = send_media_field (codes "sticker") no_fill
