-- ===== src/Server/Files/Tests.antt =====
-- A photo's way from its id to its download, under a toy MAC.
use tgbotd.Prelude.{◌+◌, ◌%◌, ◌≡◌, refl, [], ◌∷◌, ◌++◌, length, arith, replicate}
use tgbotd.Prelude.Bytes.{Bytes, codes}
use tgbotd.Prelude.Int.{pos}
use tgbotd.Botapi.{Result, ok}
use tgbotd.Fileid.{Info, ft_photo, DecodeError, encode, unique_id}
use tgbotd.Fileid.Codec.{IsInfo, basic_info, decode-encode}
use tgbotd.Server.FilePath.{
  encode_file_payload, signed_file_path, build_file_location, content_type_for_type,
}
use tgbotd.Server.Files.{File, streams, get_file, handle_file_download}
use tgbotd.Server.Files.Laws.{handle_file_download-get_file}

abbrev toy_mac : Bytes → Bytes → Bytes
toy_mac k m = replicate 32 ((length k + length m) % 256)

abbrev bot_key : Bytes
bot_key = 9 ∷ []

abbrev some_error : DecodeError → Bytes
some_error e = codes "bad"

abbrev one_bot : Bytes → Result Bytes
one_bot token = ok bot_key

abbrev picture : Info
picture = record {
  dc = pos 2;
  file_type = ft_photo;
  id = pos 6;
  access_hash = pos 99;
  file_ref = codes "ab";
  volume_id = pos 0;
  local_id = pos 0;
  photo_size = codes "x";
  source_type = pos 0;
}

picture-IsInfo : IsInfo picture
picture-IsInfo = record {
  dc_range = omega arith;
  type_range = omega arith;
  id_range = omega arith;
  hash_range = omega arith;
  ref_bytes = omega arith;
  size_bytes = omega arith;
}

abbrev picture_file : File
picture_file = record {
  file_id = encode picture;
  file_unique_id = unique_id (basic_info picture (codes "ab"));
  file_path = signed_file_path toy_mac bot_key (basic_info picture (codes "ab"));
}

picture_got : get_file toy_mac some_error bot_key (ok (encode picture)) ≡ ok picture_file
unfolding get_file
picture_got = rw (decode-encode picture picture-IsInfo (omega arith) (omega arith))

handle_file_download-get_file_example :
    handle_file_download toy_mac one_bot
      (codes "file/bot" ++ (codes "1:A" ++ b'/' ∷ picture_file.file_path))
    ≡ streams (build_file_location (basic_info picture (codes "ab"))) (content_type_for_type 2)
unfolding encode_file_payload
handle_file_download-get_file_example =
    handle_file_download-get_file toy_mac some_error one_bot (codes "1:A") bot_key picture
      picture_file picture-IsInfo (omega arith) (omega arith) (omega arith) (omega arith)
      (omega arith) (omega arith) refl picture_got
