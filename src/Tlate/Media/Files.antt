-- ===== src/Tlate/Media/Files.antt =====
-- The file ids that internal/tlate/media.go puts into messages: they name the photo or the document that they were
-- made of, and the document's attributes decide which kind of file it is.
use tgbotd.Prelude.{
  ◌≡◌, ◌∙◌, List, [], ◌∷◌, ◌++◌, Option, none, some, Bool, true, false, ◌||◌, if◌then◌else◌, arith,
}
use tgbotd.Prelude.Bytes.{Bytes}
use tgbotd.Prelude.Int.{ℤ}
use tgbotd.Fileid.{
  FileType, ft_voice_note, ft_video, ft_document, ft_sticker, ft_audio, ft_animation, ft_video_note,
}
use tgbotd.Botapi.Types.{Message, Chat, User, MessageEntity, message_of}
use tgbotd.Botapi.Media.{PhotoSize, Document, Audio, Video, Voice, Animation, VideoNote, Sticker}
use tgbotd.Tlate.Telegram.{
  DocumentAttribute, attribute_audio, attribute_video, attribute_sticker, attribute_animated,
  attribute_filename, attribute_image_size, other_attribute, DocumentObj,
}
use tgbotd.Tlate.Media.Documents.{
  Facts, no_facts, note_attribute, note_attributes, document_type, set_document,
}

abbrev pub file_of {ℓ} : {A : Type ℓ} → FileType → (A → Bytes) → Option A → List (FileType × Bytes)
file_of kind id none = []
file_of kind id (some a) = (kind, id a) ∷ []

-- The files of a message that are not photos, each with its type and its id.
abbrev pub document_files : Message → List (FileType × Bytes)
document_files m =
    file_of ft_voice_note (λ x. Voice.file_id x) m.voice
    ++ (file_of ft_video_note (λ x. VideoNote.file_id x) m.video_note
        ++ (file_of ft_sticker (λ x. Sticker.file_id x) m.sticker
            ++ (file_of ft_animation (λ x. Animation.file_id x) m.animation
                ++ (file_of ft_video (λ x. Video.file_id x) m.video
                    ++ (file_of ft_audio (λ x. Audio.file_id x) m.audio
                        ++ file_of ft_document (λ x. Document.file_id x) m.document)))))

-- A message before its media are filled in.
abbrev pub base_message : ℤ → ℤ → Chat → Bytes → Option User → ℤ → List MessageEntity → Message
base_message n date c text from edit es = record (message_of n date c text) {
  from = from;
  edit_date = edit;
  entities = es;
}

pub set_document-document_files :
    (n date edit : ℤ) (c : Chat) (text : Bytes) (from : Option User) (es : List MessageEntity)
    (d : DocumentObj) (f : Facts) (thumb : Option PhotoSize) (fid uid : Bytes)
    → document_files (set_document (base_message n date c text from edit es) d f thumb fid uid)
      ≡ (document_type f, fid) ∷ []
unfolding set_document document_type
set_document-document_files n date edit c text from es d f thumb fid uid = ground arith

abbrev pub is_voice_attribute : DocumentAttribute → Bool
is_voice_attribute (attribute_audio voice duration title performer) = voice
is_voice_attribute _ = false

abbrev pub is_round_attribute : DocumentAttribute → Bool
is_round_attribute (attribute_video round_message duration w h) = round_message
is_round_attribute _ = false

abbrev pub is_sticker_attribute : DocumentAttribute → Bool
is_sticker_attribute attribute_sticker = true
is_sticker_attribute _ = false

abbrev pub is_animated_attribute : DocumentAttribute → Bool
is_animated_attribute attribute_animated = true
is_animated_attribute _ = false

abbrev pub is_video_attribute : DocumentAttribute → Bool
is_video_attribute (attribute_video round_message duration w h) = true
is_video_attribute _ = false

abbrev pub is_audio_attribute : DocumentAttribute → Bool
is_audio_attribute (attribute_audio voice duration title performer) = true
is_audio_attribute _ = false

abbrev pub any {ℓ} : {A : Type ℓ} → (A → Bool) → List A → Bool
any p [] = false
any p (x ∷ xs) = p x || any p xs

-- The kind of file that the attributes make, whatever their order: the first in this list that one
-- of them asks for.
abbrev pub kind_of : List DocumentAttribute → FileType
kind_of attrs =
    if any is_voice_attribute attrs
    then ft_voice_note
    else if any is_round_attribute attrs
    then ft_video_note
    else if any is_sticker_attribute attrs
    then ft_sticker
    else if any is_animated_attribute attrs
    then ft_animation
    else if any is_video_attribute attrs
    then ft_video
    else if any is_audio_attribute attrs
    then ft_audio
    else ft_document

or_assoc : (a b c : Bool) → ((a || b) || c) ≡ (a || (b || c))
or_assoc a b c = ground arith

-- A flag that each attribute can only set is set at the end if it was before or one of them sets it.
flag-note_attributes :
    (flag : Facts → Bool) (sets : DocumentAttribute → Bool)
    (step : (f : Facts) (a : DocumentAttribute) → flag (note_attribute f a) ≡ (flag f || sets a))
    (f : Facts) (attrs : List DocumentAttribute)
    → flag (note_attributes f attrs) ≡ (flag f || any sets attrs)
unfolding note_attributes
flag-note_attributes flag sets step f [] = ground arith
flag-note_attributes flag sets step f (a ∷ attrs) =
    flag-note_attributes flag sets step (note_attribute f a) attrs
    ∙ rw (step f a) (or_assoc (flag f) (sets a) (any sets attrs))

is_voice-note_attribute :
    (f : Facts) (a : DocumentAttribute)
    → (note_attribute f a).is_voice ≡ (f.is_voice || is_voice_attribute a)
unfolding note_attribute
is_voice-note_attribute f (attribute_audio voice duration title performer) = ground arith
is_voice-note_attribute f (attribute_video round_message duration w h) = ground arith
is_voice-note_attribute f attribute_sticker = ground arith
is_voice-note_attribute f attribute_animated = ground arith
is_voice-note_attribute f (attribute_filename name) = ground arith
is_voice-note_attribute f (attribute_image_size w h) = ground arith
is_voice-note_attribute f other_attribute = ground arith

is_video_note-note_attribute :
    (f : Facts) (a : DocumentAttribute)
    → (note_attribute f a).is_video_note ≡ (f.is_video_note || is_round_attribute a)
unfolding note_attribute
is_video_note-note_attribute f (attribute_audio voice duration title performer) = ground arith
is_video_note-note_attribute f (attribute_video round_message duration w h) = ground arith
is_video_note-note_attribute f attribute_sticker = ground arith
is_video_note-note_attribute f attribute_animated = ground arith
is_video_note-note_attribute f (attribute_filename name) = ground arith
is_video_note-note_attribute f (attribute_image_size w h) = ground arith
is_video_note-note_attribute f other_attribute = ground arith

is_sticker-note_attribute :
    (f : Facts) (a : DocumentAttribute)
    → (note_attribute f a).is_sticker ≡ (f.is_sticker || is_sticker_attribute a)
unfolding note_attribute
is_sticker-note_attribute f (attribute_audio voice duration title performer) = ground arith
is_sticker-note_attribute f (attribute_video round_message duration w h) = ground arith
is_sticker-note_attribute f attribute_sticker = ground arith
is_sticker-note_attribute f attribute_animated = ground arith
is_sticker-note_attribute f (attribute_filename name) = ground arith
is_sticker-note_attribute f (attribute_image_size w h) = ground arith
is_sticker-note_attribute f other_attribute = ground arith

is_animation-note_attribute :
    (f : Facts) (a : DocumentAttribute)
    → (note_attribute f a).is_animation ≡ (f.is_animation || is_animated_attribute a)
unfolding note_attribute
is_animation-note_attribute f (attribute_audio voice duration title performer) = ground arith
is_animation-note_attribute f (attribute_video round_message duration w h) = ground arith
is_animation-note_attribute f attribute_sticker = ground arith
is_animation-note_attribute f attribute_animated = ground arith
is_animation-note_attribute f (attribute_filename name) = ground arith
is_animation-note_attribute f (attribute_image_size w h) = ground arith
is_animation-note_attribute f other_attribute = ground arith

is_video-note_attribute :
    (f : Facts) (a : DocumentAttribute)
    → (note_attribute f a).is_video ≡ (f.is_video || is_video_attribute a)
unfolding note_attribute
is_video-note_attribute f (attribute_audio voice duration title performer) = ground arith
is_video-note_attribute f (attribute_video round_message duration w h) = ground arith
is_video-note_attribute f attribute_sticker = ground arith
is_video-note_attribute f attribute_animated = ground arith
is_video-note_attribute f (attribute_filename name) = ground arith
is_video-note_attribute f (attribute_image_size w h) = ground arith
is_video-note_attribute f other_attribute = ground arith

is_audio-note_attribute :
    (f : Facts) (a : DocumentAttribute)
    → (note_attribute f a).is_audio ≡ (f.is_audio || is_audio_attribute a)
unfolding note_attribute
is_audio-note_attribute f (attribute_audio voice duration title performer) = ground arith
is_audio-note_attribute f (attribute_video round_message duration w h) = ground arith
is_audio-note_attribute f attribute_sticker = ground arith
is_audio-note_attribute f attribute_animated = ground arith
is_audio-note_attribute f (attribute_filename name) = ground arith
is_audio-note_attribute f (attribute_image_size w h) = ground arith
is_audio-note_attribute f other_attribute = ground arith

-- The type that the loop over the attributes arrives at does not depend on their order.
pub document_type-kind_of :
    (attrs : List DocumentAttribute)
    → document_type (note_attributes no_facts attrs) ≡ kind_of attrs
unfolding document_type
document_type-kind_of attrs = rw (
  flag-note_attributes (λ f. f.is_voice) is_voice_attribute is_voice-note_attribute no_facts attrs,
  flag-note_attributes (λ f. f.is_video_note) is_round_attribute is_video_note-note_attribute
      no_facts attrs,
  flag-note_attributes (λ f. f.is_sticker) is_sticker_attribute is_sticker-note_attribute no_facts
      attrs,
  flag-note_attributes (λ f. f.is_animation) is_animated_attribute is_animation-note_attribute
      no_facts attrs,
  flag-note_attributes (λ f. f.is_video) is_video_attribute is_video-note_attribute no_facts attrs,
  flag-note_attributes (λ f. f.is_audio) is_audio_attribute is_audio-note_attribute no_facts attrs,
)
