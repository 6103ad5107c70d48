-- ===== src/Fileid.antt =====
-- internal/fileid/fileid.go: the file ids of the Bot API. The packages encoding/base64 and
-- encoding/binary are Prelude/Base64.antt and Prelude/Binary.antt.
pub mod Rle
pub mod Codec
pub mod Unique
pub mod Tests
use tgbotd.Prelude.{
  ℕ, suc, ◌-◌, ◌%◌, ◌^◌, [], ◌∷◌, ◌++◌, Option, none, some, Bool, true, false, ◌&&◌, ltb, leb,
  if◌then◌else◌, length, take,
}
use tgbotd.Prelude.Bytes.{Bytes}
use tgbotd.Prelude.Int.{ℤ, pos, bits32, bits64, signed32, signed64}
use tgbotd.Prelude.Binary.{put_le, read_le}
use tgbotd.Prelude.Base64
use Rle.{rle_encode, rle_decode}

-- `FileType` is a `uint32`.
abbrev pub FileType : Type 0
FileType = ℕ

abbrev pub ft_thumbnail : FileType
ft_thumbnail = 0

abbrev pub ft_profile_photo : FileType
ft_profile_photo = 1

abbrev pub ft_photo : FileType
ft_photo = 2

abbrev pub ft_voice_note : FileType
ft_voice_note = 3

abbrev pub ft_video : FileType
ft_video = 4

abbrev pub ft_document : FileType
ft_document = 5

abbrev pub ft_sticker : FileType
ft_sticker = 8

abbrev pub ft_audio : FileType
ft_audio = 9

abbrev pub ft_animation : FileType
ft_animation = 10

abbrev pub ft_video_note : FileType
ft_video_note = 13

pub record Info : Type 0 where
  pub dc : ℤ
  pub file_type : FileType
  pub id : ℤ
  pub access_hash : ℤ
  pub file_ref : Bytes
  pub volume_id : ℤ
  pub local_id : ℤ
  pub photo_size : Bytes
  pub source_type : ℤ

-- A text behind its length byte, left out when it is empty: `byte(len(s))` keeps eight bits.
abbrev pub counted : Bytes → Bytes
counted [] = []
counted (c ∷ s) = length (c ∷ s) % 256 ∷ c ∷ s

abbrev pub footer : Bytes
footer = 4 ∷ 30 ∷ []

-- What `Encode` writes to its buffer.
abbrev pub encoded_bytes : Info → Bytes
encoded_bytes i =
    put_le 8 (bits64 i.id)
    ++ (put_le 8 (bits64 i.access_hash)
        ++ (put_le 4 (bits32 i.dc)
            ++ (put_le 4 i.file_type ++ (counted i.file_ref ++ (counted i.photo_size ++ footer)))))

unfoldable pub encode : Info → Bytes
encode i = Base64.encode (rle_encode (encoded_bytes i))

-- `short_field` stands for the errors of `binary.Read`.
pub data DecodeError : Type 0 where
  bad_base64 too_short short_field : DecodeError

pub data Decoded {ℓ} (A : Type ℓ) : Type ℓ where
  decoded : A → Decoded A
  failed : DecodeError → Decoded A

infixl 5 ◌>>=◌
abbrev pub ◌>>=◌ {ℓ κ} : {A : Type ℓ} {B : Type κ} → Decoded A → (A → Decoded B) → Decoded B
decoded a >>= f = f a
failed e >>= f = failed e

abbrev pub or_fail {ℓ} : {A : Type ℓ} → Option A → DecodeError → Decoded A
or_fail none e = failed e
or_fail (some a) e = decoded a

-- The file reference behind its length byte; an empty or cut one is left out.
abbrev pub read_ref : Bytes → Bytes
read_ref [] = []
read_ref (n ∷ rest) = if ltb 0 n && leb n (length rest) then take n rest else []

-- The fields of `body`; the high byte of the type is cleared.
unfoldable pub read_fields : Bytes → Decoded Info
read_fields body = do
  (id, r) ← or_fail (read_le 8 body) short_field
  (access_hash, r) ← or_fail (read_le 8 r) short_field
  (dc, r) ← or_fail (read_le 4 r) short_field
  (t, r) ← or_fail (read_le 4 r) short_field
  decoded (record {
    dc = signed32 dc;
    file_type = t % 2 ^ 24;
    id = signed64 id;
    access_hash = signed64 access_hash;
    file_ref = read_ref r;
    volume_id = pos 0;
    local_id = pos 0;
    photo_size = [];
    source_type = pos 0;
  })

abbrev pub min_length : ℕ
min_length = 26

unfoldable pub decode_bytes : Bytes → Decoded Info
decode_bytes raw =
    if ltb (length raw) min_length
    then failed too_short
    else read_fields (take (length raw - 2) raw)

-- The URL alphabet without padding is tried first, then the standard one.
unfoldable pub base64_bytes : Bytes → Option Bytes
base64_bytes s = elim (Base64.decode_raw_url s) [ some raw ↦ some raw | none ↦ Base64.decode_std s ]

unfoldable pub decode : Bytes → Decoded Info
decode s = do raw ← or_fail (base64_bytes s) bad_base64; decode_bytes (rle_decode raw)

abbrev pub unique_bytes : Info → Bytes
unique_bytes i = put_le 4 i.file_type ++ (put_le 8 (bits64 i.id) ++ counted i.photo_size)

unfoldable pub unique_id : Info → Bytes
unique_id i = Base64.encode (unique_bytes i)
