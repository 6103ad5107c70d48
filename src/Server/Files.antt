-- ===== src/Server/Files.antt =====
-- `getFile` and `handleFileDownload` of internal/server/methods_file.go, up to the transfer itself. The manager's
-- `Get` is a function of the token, and a bot is given by its token hash; `error_text` is the text of an error
-- of `fileid.Decode`.
pub mod Laws
pub mod Tests
use tgbotd.Prelude.{ℕ, ◌+◌, [], ◌∷◌, ◌++◌, Option, none, some, ◌==◌, if◌then◌else◌, take, drop}
use tgbotd.Prelude.Bytes.{Bytes, codes, index_byte}
use tgbotd.Botapi.{Result, ok, err, Error, api, err_bad_request, ◌>>=◌}
use tgbotd.Fileid.{Info, DecodeError, Decoded, decoded, failed, decode, unique_id}
use tgbotd.Server.FilePath.{
  Verified, verified, illegal_base64, refused, signed_file_path, verify_and_decode_file_path,
  InputFileLocation, build_file_location, content_type_for_type,
}

pub record File : Type 0 where
  pub file_id : Bytes
  pub file_unique_id : Bytes
  pub file_path : Bytes

-- What the download is answered with: an error, that of the base64 decoder among them, or the stream of a location.
pub data Download : Type 0 where
  download_error : Error → Download
  undecoded : Download
  streams : InputFileLocation → (content_type : Bytes) → Download

module _ (mac : Bytes → Bytes → Bytes) (error_text : DecodeError → Bytes) where
  abbrev pub file_of : Bytes → Bytes → Decoded Info → Result File
  file_of key fid (failed e) = err (api (err_bad_request (codes "bad file_id: " ++ error_text e)))
  file_of key fid (decoded info) = ok (record {
    file_id = fid;
    file_unique_id = unique_id info;
    file_path = signed_file_path mac key info;
  })

  -- `file_id` is what `requireString` makes of the parameter.
  unfoldable pub get_file : Bytes → Result Bytes → Result File
  get_file key file_id = file_id >>= λ fid. file_of key fid (decode fid)

module _ (mac : Bytes → Bytes → Bytes) (get : Bytes → Result Bytes) where
  abbrev pub answer_verified : Verified → Download
  answer_verified illegal_base64 = undecoded
  answer_verified (refused e) = download_error (api e)
  answer_verified (verified info) =
      streams (build_file_location info) (content_type_for_type info.file_type)

  abbrev pub download_for : Bytes → Result Bytes → Download
  download_for path (err e) = download_error e
  download_for path (ok key) = answer_verified (verify_and_decode_file_path mac key path)

  unfoldable pub download_rest : Bytes → Download
  download_rest rest = elim (index_byte rest b'/') [
    | none ↦ download_error (api (err_bad_request (codes "no file path")))
    | some i ↦
        if i == 0
        then download_error (api (err_bad_request (codes "no file path")))
        else download_for (drop (i + 1) rest) (get (take i rest))
  ]

  -- The path begins with `file/bot`.
  unfoldable pub handle_file_download : Bytes → Download
  handle_file_download path = download_rest (drop 8 path)
