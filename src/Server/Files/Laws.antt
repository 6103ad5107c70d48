-- ===== src/Server/Files/Laws.antt =====
-- A file that `getFile` names can be downloaded by the same bot.
use tgbotd.Prelude.{◌≤◌, ◌<◌, ◌≡◌, ◌∷◌, ◌++◌, false, ◌==◌, length, arith, All}
use tgbotd.Prelude.Bytes.{Bytes, codes, IsByte, Lacks}
use tgbotd.Prelude.Slices.{index_byte-append, take-length-append, drop-suc-append}
use tgbotd.Botapi.{Result, ok}
use tgbotd.Fileid.{Info, DecodeError, encode}
use tgbotd.Fileid.Codec.{IsInfo, basic_info, decode-encode}
use tgbotd.Server.FilePath.{
  encode_file_payload, signed_file_path, build_file_location, content_type_for_type,
}
use tgbotd.Server.FilePath.Laws.{verify-signed_file_path}
use tgbotd.Server.Files.{File, streams, get_file, download_for, download_rest, handle_file_download}

basic_info-IsInfo : (i : Info) → IsInfo i → IsInfo (basic_info i i.file_ref)
basic_info-IsInfo i h = record {
  dc_range = h.dc_range;
  type_range = omega arith;
  id_range = h.id_range;
  hash_range = h.hash_range;
  ref_bytes = h.ref_bytes;
  size_bytes = tt;
}

download_rest_lem :
    (mac : Bytes → Bytes → Bytes) (get : Bytes → Result Bytes) (token path : Bytes)
    → Lacks b'/' token
    → 0 < length token
    → download_rest mac get (token ++ b'/' ∷ path) ≡ download_for mac get path (get token)
unfolding download_rest
download_rest_lem mac get token path lacks some_token =
    let not_first : (length token == 0) ≡ false = ground arith in
    rw (index_byte-append token path b'/' lacks, download_rest)
      (rw (not_first, take-length-append token (b'/' ∷ path), drop-suc-append token path b'/'))

-- For a file id that this server encoded, its fields in their ranges and with a file reference of 1 to 255 bytes, `getFile`
-- returns a file whose path, requested under the token of a bot with the same key, is answered with the stream
-- of the location that the id names.
pub handle_file_download-get_file :
    (mac : Bytes → Bytes → Bytes) (error_text : DecodeError → Bytes) (get : Bytes → Result Bytes)
    (token key : Bytes) (i : Info) (f : File)
    → IsInfo i
    → 0 < length i.file_ref
    → length i.file_ref < 256
    → 16 ≤ length (mac key (encode_file_payload (basic_info i i.file_ref)))
    → All IsByte (mac key (encode_file_payload (basic_info i i.file_ref)))
    → Lacks b'/' token
    → 0 < length token
    → get token ≡ ok key
    → get_file mac error_text key (ok (encode i)) ≡ ok f
    → handle_file_download mac get (codes "file/bot" ++ (token ++ b'/' ∷ f.file_path))
      ≡ streams
          (build_file_location (basic_info i i.file_ref))
          (content_type_for_type (basic_info i i.file_ref).file_type)
unfolding get_file handle_file_download
handle_file_download-get_file mac error_text get token key i f h some_ref short long mac_bytes lacks
      some_token known got =
    let info = basic_info i i.file_ref in
    let path_same : signed_file_path mac key info ≡ f.file_path =
      path_of (rw (decode-encode i h some_ref short) at got) in
    rw (
      download_rest_lem mac get token f.file_path lacks some_token,
      known,
      ← path_same,
      verify-signed_file_path mac key info (basic_info-IsInfo i h) short long mac_bytes,
    )
  where
    path_of : {g : File} → ok g ≡ ok f → g.file_path ≡ f.file_path
    path_of e = cc
