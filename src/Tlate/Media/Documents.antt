-- ===== src/Tlate/Media/Documents.antt =====
-- `fillFromDocument` of internal/tlate/media.go: the attributes of a document say which kind of file it is.
use tgbotd.Prelude.{List, [], ◌∷◌, Option, none, some, Bool, true, false, ◌||◌, if◌then◌else◌}
use tgbotd.Prelude.Bytes.{Bytes, codes}
use tgbotd.Prelude.Int.{ℤ, pos}
use tgbotd.Fileid.{
  FileType, Info, encode, unique_id, ft_thumbnail, ft_voice_note, ft_video, ft_document, ft_sticker,
  ft_audio, ft_animation, ft_video_note,
}
use tgbotd.Botapi.Media.{PhotoSize}
use tgbotd.Botapi.Types.{Message}
use tgbotd.Tlate.Telegram.{
  SizeObj, photo_size_obj, DocumentAttribute, attribute_audio, attribute_video, attribute_sticker,
  attribute_animated, attribute_filename, attribute_image_size, other_attribute, DocumentObj,
}

-- `&fileid.Info{...}`
abbrev pub file_info : ℤ → FileType → ℤ → ℤ → Bytes → Bytes → Info
file_info dc kind id hash ref size = record {
  dc = dc;
  file_type = kind;
  id = id;
  access_hash = hash;
  file_ref = ref;
  volume_id = pos 0;
  local_id = pos 0;
  photo_size = size;
  source_type = pos 0;
}

abbrev pub photo_size_of : Info → ℤ → ℤ → ℤ → PhotoSize
photo_size_of i w h size = record {
  file_id = encode i;
  file_unique_id = unique_id i;
  width = w;
  height = h;
  file_size = size;
}

-- The variables that the loop over the attributes sets.
pub record Facts : Type 0 where
  pub is_audio : Bool
  pub is_voice : Bool
  pub is_video : Bool
  pub is_video_note : Bool
  pub is_sticker : Bool
  pub is_animation : Bool
  pub file_name : Bytes
  pub performer : Bytes
  pub title : Bytes
  pub duration : ℤ
  pub width : ℤ
  pub height : ℤ
  pub length : ℤ

abbrev pub no_facts : Facts
no_facts = record {
  is_audio = false;
  is_voice = false;
  is_video = false;
  is_video_note = false;
  is_sticker = false;
  is_animation = false;
  file_name = [];
  performer = [];
  title = [];
  duration = pos 0;
  width = pos 0;
  height = pos 0;
  length = pos 0;
}

unfoldable pub note_attribute : Facts → DocumentAttribute → Facts
note_attribute f (attribute_audio voice duration title performer) = record f {
  is_audio = true;
  duration = duration;
  performer = performer;
  title = title;
  is_voice = f.is_voice || voice;
}
note_attribute f (attribute_video round_message duration w h) = record f {
  is_video = true;
  duration = duration;
  width = w;
  height = h;
  is_video_note = f.is_video_note || round_message;
  length = if round_message then w else f.length;
}
note_attribute f attribute_sticker = record f { is_sticker = true }
note_attribute f attribute_animated = record f { is_animation = true }
note_attribute f (attribute_filename name) = record f { file_name = name }
note_attribute f (attribute_image_size w h) = record f { width = w; height = h }
note_attribute f other_attribute = f

unfoldable pub note_attributes : Facts → List DocumentAttribute → Facts
unfolding note_attribute
note_attributes f [] = f
note_attributes f (a ∷ rest) = note_attributes (note_attribute f a) rest

unfoldable pub document_type : Facts → FileType
document_type f =
    if f.is_voice
    then ft_voice_note
    else if f.is_video_note
    then ft_video_note
    else if f.is_sticker
    then ft_sticker
    else if f.is_animation
    then ft_animation
    else if f.is_video
    then ft_video
    else if f.is_audio
    then ft_audio
    else ft_document

-- The first thumbnail that is a plain size.
unfoldable pub document_thumb : DocumentObj → List SizeObj → Option PhotoSize
document_thumb d [] = none
document_thumb d (photo_size_obj kind w h size ∷ rest) = some (
    photo_size_of (file_info d.dc_id ft_thumbnail d.id d.access_hash d.file_reference kind) w h
      size)
document_thumb d (s ∷ rest) = document_thumb d rest

-- The last switch of the function.
unfoldable pub set_document :
    Message → DocumentObj → Facts → Option PhotoSize → Bytes → Bytes → Message
set_document bm d f thumb fid uid =
    if f.is_voice
    then record bm {
      voice = some (record {
        file_id = fid;
        file_unique_id = uid;
        duration = f.duration;
        mime_type = d.mime_type;
        file_size = d.size;
      });
    }
    else if f.is_video_note
    then record bm {
      video_note = some (record {
        file_id = fid;
        file_unique_id = uid;
        duration = f.duration;
        length = f.length;
        thumbnail = thumb;
        file_size = d.size;
      });
    }
    else if f.is_sticker
    then record bm {
      sticker = some (record {
        file_id = fid;
        file_unique_id = uid;
        type = codes "regular";
        width = f.width;
        height = f.height;
        is_animated = false;
        is_video = false;
        thumbnail = thumb;
        emoji = [];
        set_name = [];
        custom_emoji_id = [];
        file_size = d.size;
      });
    }
    else if f.is_animation
    then record bm {
      animation = some (record {
        file_id = fid;
        file_unique_id = uid;
        duration = f.duration;
        width = f.width;
        height = f.height;
        thumbnail = thumb;
        file_name = f.file_name;
        mime_type = d.mime_type;
        file_size = d.size;
      });
    }
    else if f.is_video
    then record bm {
      video = some (record {
        file_id = fid;
        file_unique_id = uid;
        duration = f.duration;
        width = f.width;
        height = f.height;
        thumbnail = thumb;
        file_name = f.file_name;
        mime_type = d.mime_type;
        file_size = d.size;
      });
    }
    else if f.is_audio
    then record bm {
      audio = some (record {
        file_id = fid;
        file_unique_id = uid;
        duration = f.duration;
        performer = f.performer;
        title = f.title;
        file_name = f.file_name;
        mime_type = d.mime_type;
        file_size = d.size;
        thumbnail = thumb;
      });
    }
    else record bm {
      document = some (record {
        file_id = fid;
        file_unique_id = uid;
        thumbnail = thumb;
        file_name = f.file_name;
        mime_type = d.mime_type;
        file_size = d.size;
      });
    }

abbrev pub document_info : DocumentObj → Facts → Info
document_info d f = file_info d.dc_id (document_type f) d.id d.access_hash d.file_reference []

unfoldable pub fill_from_document : Message → DocumentObj → Message
unfolding note_attributes document_type document_thumb set_document
fill_from_document bm d =
    let f = note_attributes no_facts d.attributes in
    let i = document_info d f in
    set_document bm d f (document_thumb d d.thumbs) (encode i) (unique_id i)
