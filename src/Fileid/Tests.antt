-- ===== src/Fileid/Tests.antt =====
-- File ids on small inputs.
use tgbotd.Prelude.{◌≡◌, refl, [], ◌∷◌, arith}
use tgbotd.Prelude.Bytes.{Bytes, codes}
use tgbotd.Prelude.Int.{pos, negsuc}
use tgbotd.Fileid.{Info, ft_photo, encode, decode, decoded, unique_id}
use tgbotd.Fileid.Rle.{rle_encode, rle_decode, rle_loop, zero_run}
use tgbotd.Fileid.Codec.{IsInfo, basic_info, decode-encode_size}

abbrev photo : Bytes → Bytes → Info
photo ref size = record {
  dc = pos 2;
  file_type = ft_photo;
  id = negsuc 6;
  access_hash = pos 99;
  file_ref = ref;
  volume_id = pos 0;
  local_id = pos 0;
  photo_size = size;
  source_type = pos 0;
}

photo-IsInfo : IsInfo (photo (codes "ab") (codes "x"))
photo-IsInfo = record {
  dc_range = omega arith;
  type_range = omega arith;
  id_range = omega arith;
  hash_range = omega arith;
  ref_bytes = omega arith;
  size_bytes = omega arith;
}

sized-IsInfo : IsInfo (photo [] (codes "x"))
sized-IsInfo = record {
  dc_range = omega arith;
  type_range = omega arith;
  id_range = omega arith;
  hash_range = omega arith;
  ref_bytes = tt;
  size_bytes = omega arith;
}

rle_zeros : rle_encode (7 ∷ 0 ∷ 0 ∷ 5 ∷ []) ≡ 7 ∷ 0 ∷ 2 ∷ 5 ∷ []
unfolding rle_encode rle_loop zero_run
rle_zeros = refl

rle_last_zero : rle_decode (7 ∷ 0 ∷ []) ≡ 7 ∷ 0 ∷ []
unfolding rle_decode
rle_last_zero = refl

decode-encode_size_example :
    decode (encode (photo [] (codes "x"))) ≡ decoded (basic_info (photo [] (codes "x")) (codes "x"))
decode-encode_size_example =
    decode-encode_size (photo [] (codes "x")) sized-IsInfo refl (omega arith) (omega arith)

other-IsInfo : IsInfo (photo (codes "cd") (codes "x"))
other-IsInfo = record {
  dc_range = omega arith;
  type_range = omega arith;
  id_range = omega arith;
  hash_range = omega arith;
  ref_bytes = omega arith;
  size_bytes = omega arith;
}

-- The file reference is no part of the unique id.
same_unique :
    unique_id (photo (codes "ab") (codes "x")) ≡ unique_id (photo (codes "cd") (codes "x"))
unfolding unique_id
same_unique = refl
