-- ===== src/Server/FilePath/Tests.antt =====
-- Signed paths under a toy MAC that repeats a byte of its key and the message's length.
use tgbotd.Prelude.{◌+◌, ◌%◌, ◌≡◌, refl, [], ◌∷◌, some, length, arith, replicate}
use tgbotd.Prelude.Bytes.{Bytes, codes, bytes_eq, index_byte}
use tgbotd.Prelude.Int.{pos, negsuc}
use tgbotd.Prelude.Binary.{put_le}
use tgbotd.Prelude.Base64
use tgbotd.Fileid.{Info}
use tgbotd.Fileid.Codec.{IsInfo}
use tgbotd.Server.FilePath.{
  encode_file_payload, verified, bad_signature, before_slash, read_payload, signed_payload,
  signed_file_path, verify_raw, verify_and_decode_file_path, content_type_for_type,
}
use tgbotd.Server.FilePath.Laws.{path_info, verify-signed_file_path, verify_sound}

abbrev toy_mac : Bytes → Bytes → Bytes
toy_mac [] m = replicate 32 (length m % 256)
toy_mac (c ∷ k) m = replicate 32 ((c + length m) % 256)

abbrev key_1 : Bytes
key_1 = 9 ∷ []

abbrev key_2 : Bytes
key_2 = 8 ∷ []

abbrev document : Info
document = record {
  dc = pos 4;
  file_type = 5;
  id = negsuc 6;
  access_hash = pos 99;
  file_ref = codes "ab";
  volume_id = pos 0;
  local_id = pos 0;
  photo_size = [];
  source_type = pos 0;
}

document-IsInfo : IsInfo document
document-IsInfo = record {
  dc_range = omega arith;
  type_range = omega arith;
  id_range = omega arith;
  hash_range = omega arith;
  ref_bytes = omega arith;
  size_bytes = tt;
}

voice_note : content_type_for_type 3 ≡ codes "audio/ogg"
unfolding content_type_for_type
voice_note = refl

verify-signed_file_path_example :
    verify_and_decode_file_path toy_mac key_1 (signed_file_path toy_mac key_1 document)
    ≡ verified (path_info document)
unfolding encode_file_payload
verify-signed_file_path_example =
    verify-signed_file_path toy_mac key_1 document document-IsInfo (omega arith) (omega arith)
      (omega arith)

-- The path of one bot is refused with the key of another.
other_key :
    verify_and_decode_file_path toy_mac key_2 (signed_file_path toy_mac key_1 document)
    ≡ bad_signature
unfolding verify_and_decode_file_path verify_raw before_slash signed_file_path signed_payload
    encode_file_payload put_le Base64.encode Base64.decode_raw_url bytes_eq index_byte
other_key = refl

verify_sound_example :
    (payload : Bytes) × (Base64.decode_raw_url
        (before_slash (signed_file_path toy_mac key_1 document))
      ≡ some (signed_payload toy_mac key_1 payload))
    × (read_payload payload ≡ verified document)
verify_sound_example =
    verify_sound toy_mac key_1 (signed_file_path toy_mac key_1 document) document
      verify-signed_file_path_example
