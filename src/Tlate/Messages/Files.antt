-- ===== src/Tlate/Messages/Files.antt =====
-- The file ids of a translated message (internal/tlate/tlate.go and internal/tlate/media.go), read back by internal/fileid.
use tgbotd.Prelude.{
  ◌<◌, ◌^◌, ◌≡◌, refl, ◌∙◌, ap, List, [], ◌∷◌, Option, none, some, arith, All, length,
}
use tgbotd.Prelude.Bytes.{Bytes, IsByte}
use tgbotd.Prelude.Int.{ℤ, IsInt32, IsInt64}
use tgbotd.Fileid.{decoded, FileType, ft_photo, Info, encode, decoded, decode, unique_id}
use tgbotd.Fileid.Codec.{decode-encode}
use tgbotd.Botapi.Types.{Message, Chat, User}
use tgbotd.Botapi.Media.{PhotoSize}
use tgbotd.Tlate.Telegram.{
  KeyboardButton, ReplyMarkup, SizeObj, photo_size_obj, photo_cached_size, photo_stripped_size,
  photo_size_progressive, other_size, PhotoObj, DocumentAttribute, DocumentObj, media_document,
  MessageObj,
}
use tgbotd.Tlate.Media.{photo_sizes_from, photo_sizes, fill_media}
use tgbotd.Tlate.Media.Documents.{
  file_info, no_facts, note_attributes, document_thumb, document_info, fill_from_document,
}
use tgbotd.Tlate.Media.Files.{
  document_files, set_document-document_files, set_document-document_files, kind_of,
  document_type-kind_of,
}
use tgbotd.Tlate.Entities.{entities_to_bot_api}
use tgbotd.Tlate.Messages.{with_markup, built_message}

-- The fields of a file in the ranges of their types, with a file reference of 1 to 255 bytes.
pub record IsFile (dc id hash : ℤ) (ref : Bytes) : Type 0 where
  pub dc_range : IsInt32 dc
  pub id_range : IsInt64 id
  pub hash_range : IsInt64 hash
  pub ref_bytes : All IsByte ref
  pub ref_some : 0 < length ref
  pub ref_short : length ref < 256

-- What `Decode` makes of the id of such a file.
abbrev pub file_named : ℤ → FileType → ℤ → ℤ → Bytes → Info
file_named dc kind id hash ref = file_info dc kind id hash ref []

decode-file_info :
    (dc id hash : ℤ) (ref size : Bytes) (kind : FileType)
    → IsFile dc id hash ref
    → All IsByte size
    → kind < 2 ^ 24
    → decode (encode (file_info dc kind id hash ref size))
      ≡ decoded (file_named dc kind id hash ref)
decode-file_info dc id hash ref size kind h bytes small =
    decode-encode (file_info dc kind id hash ref size)
      (record {
        dc_range = h.dc_range;
        type_range = omega arith;
        id_range = h.id_range;
        hash_range = h.hash_range;
        ref_bytes = h.ref_bytes;
        size_bytes = bytes;
      })
      h.ref_some h.ref_short
    ∙ ap (λ k. decoded (file_named dc k id hash ref)) (omega arith)

kind_of_small : (attrs : List DocumentAttribute) → kind_of attrs < 2 ^ 24
kind_of_small attrs = ground arith

with_markup-document_files :
    (get_text : KeyboardButton → Option Bytes) (rm : Option ReplyMarkup) (bm : Message)
    → document_files (with_markup get_text rm bm) ≡ document_files bm
with_markup-document_files get_text none bm = refl
with_markup-document_files get_text (some rm) bm = refl

-- A translated message with a document carries one file beside its photos, of the kind that the
-- document's attributes ask for, under an id that decodes to the document's data centre, id, access
-- hash and file reference, if these are in the ranges of their types and the reference has 1 to 255
-- bytes.
pub built_message-decode :
    (get_text : KeyboardButton → Option Bytes) (m : MessageObj) (d : DocumentObj) (c : Chat)
    (from : Option User)
    → m.media ≡ some (media_document (some d))
    → IsFile d.dc_id d.id d.access_hash d.file_reference
    → (i : Info) × (document_files (built_message get_text m c from)
        ≡ (kind_of d.attributes, encode i) ∷ [])
      × (decode (encode i)
          ≡ decoded (file_named d.dc_id (kind_of d.attributes) d.id d.access_hash d.file_reference))
unfolding built_message fill_media fill_from_document
built_message-decode get_text m d c from e h =
    let f = note_attributes no_facts d.attributes in
    let kind = document_type-kind_of d.attributes in
    let fid = encode (document_info d f) in
    (
      document_info d f,
      with_markup-document_files get_text m.reply_markup _
          ∙ rw e (
              set_document-document_files m.id m.date m.edit_date c m.message from
                (entities_to_bot_api m.entities) d f (document_thumb d d.thumbs) fid
                (unique_id (document_info d f)))
          ∙ ap (λ k. (k, fid) ∷ []) kind,
      rw kind (
          decode-file_info d.dc_id d.id d.access_hash d.file_reference [] (kind_of d.attributes) h
            tt (kind_of_small d.attributes)),
    )

-- The name of a size consists of bytes.
abbrev pub IsSizeName : SizeObj → Type 0
IsSizeName (photo_size_obj kind w h size) = All IsByte kind
IsSizeName (photo_cached_size kind w h bytes) = All IsByte kind
IsSizeName photo_stripped_size = Unit
IsSizeName (photo_size_progressive kind w h sizes) = All IsByte kind
IsSizeName other_size = Unit

abbrev pub NamesPhoto : PhotoObj → PhotoSize → Type 0
NamesPhoto p s =
    decode s.file_id ≡ decoded (file_named p.dc_id ft_photo p.id p.access_hash p.file_reference)

photo_sizes_from-NamesPhoto :
    (p : PhotoObj) (sizes : List SizeObj)
    → IsFile p.dc_id p.id p.access_hash p.file_reference
    → All IsSizeName sizes
    → All (NamesPhoto p) (photo_sizes_from p sizes)
unfolding photo_sizes_from
photo_sizes_from-NamesPhoto p [] h hs = tt
photo_sizes_from-NamesPhoto p (photo_size_obj kind w hh size ∷ ss) h hs = (
  decode-file_info _ _ _ _ kind ft_photo h hs.0 (omega arith),
  photo_sizes_from-NamesPhoto p ss h hs.1,
)
photo_sizes_from-NamesPhoto p (photo_cached_size kind w hh bytes ∷ ss) h hs = (
  decode-file_info _ _ _ _ kind ft_photo h hs.0 (omega arith),
  photo_sizes_from-NamesPhoto p ss h hs.1,
)
photo_sizes_from-NamesPhoto p (photo_stripped_size ∷ ss) h hs =
    photo_sizes_from-NamesPhoto p ss h hs.1
photo_sizes_from-NamesPhoto p (photo_size_progressive kind w hh sizes ∷ ss) h hs = (
  decode-file_info _ _ _ _ kind ft_photo h hs.0 (omega arith),
  photo_sizes_from-NamesPhoto p ss h hs.1,
)
photo_sizes_from-NamesPhoto p (other_size ∷ ss) h hs = photo_sizes_from-NamesPhoto p ss h hs.1

-- Every size of a translated photo has a file id that decodes to the photo's data centre, id,
-- access hash and file reference, if these are in the ranges of their types and the reference has 1
-- to 255 bytes.
pub photo_sizes-NamesPhoto :
    (p : PhotoObj)
    → IsFile p.dc_id p.id p.access_hash p.file_reference
    → All IsSizeName p.sizes
    → All (NamesPhoto p) (photo_sizes p)
unfolding photo_sizes
photo_sizes-NamesPhoto p h hs = photo_sizes_from-NamesPhoto p p.sizes h hs
