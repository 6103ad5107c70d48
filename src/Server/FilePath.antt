-- ===== src/Server/FilePath.antt =====
-- The signed file paths of internal/server/methods_file.go. HMAC-SHA256 is a function `mac` of a key and a
-- message here. The key is the bot's token hash.
pub mod Laws
pub mod Tests
use tgbotd.Prelude.{
  ℕ, ◌+◌, ◌-◌, ◌%◌, ◌^◌, [], ◌∷◌, ◌++◌, Option, none, some, Bool, true, false, ◌||◌, ltb, ◌==◌,
  if◌then◌else◌, length, take, drop,
}
use tgbotd.Prelude.Bytes.{Bytes, codes, bytes_eq, index_byte}
use tgbotd.Prelude.Int.{ℤ, pos, bits32, bits64, signed32, signed64}
use tgbotd.Prelude.Binary.{put_le, read_le}
use tgbotd.Prelude.Base64
use tgbotd.Botapi.{ApiError, errorf, err_bad_request}
use tgbotd.Fileid.{Info, FileType, read_ref}

unfoldable pub encode_file_payload : Info → Bytes
encode_file_payload i =
    put_le 4 (bits32 i.dc)
    ++ (put_le 4 i.file_type
        ++ (put_le 8 (bits64 i.id)
            ++ (put_le 8 (bits64 i.access_hash) ++ length i.file_ref % 256 ∷ i.file_ref)))

-- `illegal_base64` stands for the error of the decoder.
pub data Verified : Type 0 where
  verified : Info → Verified
  illegal_base64 : Verified
  refused : ApiError → Verified

abbrev pub bad_file_path : Verified
bad_file_path = refused (err_bad_request (codes "bad file_path"))

abbrev pub bad_signature : Verified
bad_signature = refused (errorf 401 (codes "Unauthorized: bad file_path signature"))

-- What stands before a slash that is not the first byte.
unfoldable pub before_slash : Bytes → Bytes
before_slash s = elim (index_byte s b'/') [ none ↦ s | some i ↦ if i == 0 then s else take i s ]

infixl 5 ◌>>=◌
-- A field that is not there cannot be, by the length of the payload.
abbrev pub ◌>>=◌ : {A : Type 0} → Option A → (A → Verified) → Verified
none >>= f = bad_file_path
some a >>= f = f a

unfoldable pub read_payload : Bytes → Verified
read_payload payload = do
  (dc, r) ← read_le 4 payload
  (t, r) ← read_le 4 r
  (id, r) ← read_le 8 r
  (access_hash, r) ← read_le 8 r
  verified (record {
    dc = signed32 dc;
    file_type = t;
    id = signed64 id;
    access_hash = signed64 access_hash;
    file_ref = read_ref r;
    volume_id = pos 0;
    local_id = pos 0;
    photo_size = [];
    source_type = pos 0;
  })

module _ (mac : Bytes → Bytes → Bytes) (key : Bytes) where
  unfoldable pub signed_payload : Bytes → Bytes
  signed_payload payload = payload ++ take 16 (mac key payload)

  unfoldable pub signed_file_path : Info → Bytes
  signed_file_path i = Base64.encode (signed_payload (encode_file_payload i))

  unfoldable pub verify_raw : Bytes → Verified
  verify_raw raw =
      let payload = take (length raw - 16) raw in
      if ltb (length raw) 41
      then bad_file_path
      else if bytes_eq (drop (length raw - 16) raw) (take 16 (mac key payload))
      then if ltb (length payload) 25 then bad_file_path else read_payload payload
      else bad_signature

  unfoldable pub verify_and_decode_file_path : Bytes → Verified
  verify_and_decode_file_path s = elim (Base64.decode_raw_url (before_slash s)) [
    | none ↦ illegal_base64
    | some raw ↦ verify_raw raw
  ]

-- The locations that the library downloads from.
pub data InputFileLocation : Type 0 where
  input_photo_file_location :
      (id access_hash : ℤ) (file_reference thumb_size : Bytes) → InputFileLocation
  input_document_file_location :
      (id access_hash : ℤ) (file_reference thumb_size : Bytes) → InputFileLocation

-- `FTPhoto`, `FTProfilePhoto` or `FTThumbnail`.
abbrev pub is_photo : FileType → Bool
is_photo t = t == 2 || t == 1 || t == 0

unfoldable pub build_file_location : Info → InputFileLocation
build_file_location i =
    if is_photo i.file_type
    then input_photo_file_location i.id i.access_hash i.file_ref (codes "x")
    else input_document_file_location i.id i.access_hash i.file_ref []

unfoldable pub content_type_for_type : FileType → Bytes
content_type_for_type t =
    if is_photo t
    then codes "image/jpeg"
    else if t == 9 || t == 3
    then codes "audio/ogg"
    else if t == 4 || t == 10 || t == 13
    then codes "video/mp4"
    else codes "application/octet-stream"
