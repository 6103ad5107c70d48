-- ===== src/Server/InputFile.antt =====
-- `resolveInputFile` and `inputMediaFromFileID` of internal/server/input_file.go. Temporary files are parameters: what writing an
-- uploaded part, and fetching a URL, give.
pub mod Laws
pub mod Tests
use tgbotd.Prelude.{
  ℕ, List, [], ◌∷◌, ◌++◌, drop, Option, none, some, Bool, true, false, ◌||◌, ◌==◌, if◌then◌else◌,
}
use tgbotd.Prelude.Bytes.{Bytes, codes, has_prefix}
use tgbotd.Prelude.Int.{ℤ}
use tgbotd.Prelude.Maps.{lookup}
use tgbotd.Botapi.{Result, ok, err, api, err_bad_request, ◌>>=◌}
use tgbotd.Fileid.{Info, Decoded, decoded, failed, decode, ft_photo, ft_profile_photo, ft_thumbnail}
use tgbotd.Server.Params.{Params, Json, text, field_required, param_raw}

-- A file that Telegram has.
pub data FileMedia : Type 0 where
  input_photo : (id access_hash : ℤ) (file_reference : Bytes) → FileMedia
  input_document : (id access_hash : ℤ) (file_reference : Bytes) → FileMedia

unfoldable pub input_media_from_file_id : Info → FileMedia
input_media_from_file_id i =
    if i.file_type == ft_photo || i.file_type == ft_profile_photo || i.file_type == ft_thumbnail
    then input_photo i.id i.access_hash i.file_ref
    else input_document i.id i.access_hash i.file_ref

-- A file by reference, a text that the library reads, or a temporary file, which is removed afterwards.
pub data InputFile : Type 0 where
  by_reference : FileMedia → InputFile
  plain_text : Bytes → InputFile
  temporary : (path : Bytes) → InputFile

-- A URL's file, or the text of the error.
pub data Fetched : Type 0 where
  fetched : (path : Bytes) → Fetched
  not_fetched : (message : Bytes) → Fetched

-- `lower` is strings.ToLower, `save` handleMultipartFile and `fetch` downloadURLToTemp.
module _ {F : Type 0} (lower : Bytes → Bytes) (save : F → Result Bytes)
    (fetch : Bytes → Fetched) where
  abbrev pub saved : F → Result InputFile
  saved f = save f >>= λ path. ok (temporary path)

  abbrev pub attached : Bytes → Option F → Result InputFile
  attached name none = err (
      api
        (err_bad_request (codes "attach://" ++ (name ++ codes " has no matching multipart part"))))
  attached name (some f) = saved f

  abbrev pub of_url : Fetched → Result InputFile
  of_url (fetched path) = ok (temporary path)
  of_url (not_fetched message) =
      err (api (err_bad_request (codes "failed to fetch URL: " ++ message)))

  abbrev pub reference_or_text : Bytes → Decoded Info → InputFile
  reference_or_text s (decoded i) = by_reference (input_media_from_file_id i)
  reference_or_text s (failed e) = plain_text s

  -- The text of the field, which is not empty.
  unfoldable pub text_input : List (Bytes × F) → Bytes → Result InputFile
  unfolding lookup
  text_input files s =
      if has_prefix s (codes "attach://")
      then attached (drop 9 s) (lookup (lower (drop 9 s)) files)
      else if has_prefix s (codes "http://") || has_prefix s (codes "https://")
      then of_url (fetch s)
      else ok (reference_or_text s (decode s))

  abbrev pub part_or_required : Bytes → Option F → Result InputFile
  part_or_required name none = err (api (err_bad_request (field_required name)))
  part_or_required name (some f) = saved f

  abbrev pub raw_input : List (Bytes × F) → Bytes → Option Json → Result InputFile
  raw_input files name (some (text (c ∷ s))) = text_input files (c ∷ s)
  raw_input files name _ = part_or_required name (lookup name files)

  unfoldable pub resolve_input_file : List (Bytes × F) → Params → Bytes → Result InputFile
  unfolding text_input
  resolve_input_file files ps name = raw_input files name (param_raw ps name)
