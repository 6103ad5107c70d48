-- ===== src/Fileid/Codec.antt =====
-- Decoding what `Encode` of internal/fileid/fileid.go wrote.
use tgbotd.Prelude.{
  ℕ, ◌+◌, ◌-◌, ◌%◌, ◌^◌, ◌<◌, ◌≡◌, ap, ◌∙◌, [], ◌∷◌, ◌++◌, some, true, false, ltb, leb, length,
  take, arith, All, All-append, length-append, append_assoc, append-nil, le→ltb_false, lt→ltb,
  le→leb,
}
use tgbotd.Prelude.Bytes.{Bytes, IsByte}
use tgbotd.Prelude.Int.{
  pos, bits32, bits64, IsInt64, IsInt32, signed64-bits64, signed32-bits32, bits64-lt, bits32-lt,
}
use tgbotd.Prelude.Slices.{take-length-append}
use tgbotd.Prelude.Binary.{put_le, read_le-put_le, put_le-IsByte, length-put_le, low4, low8}
use tgbotd.Prelude.Base64
use tgbotd.Fileid.{
  Info, counted, footer, encoded_bytes, encode, decoded, read_ref, read_fields, decode_bytes,
  decode, base64_bytes, min_length,
}
use tgbotd.Fileid.Rle.{rle_encode, rle_decode-encode, rle_encode-IsByte}

-- The ranges of Go's types.
pub record IsInfo (i : Info) : Type 0 where
  pub dc_range : IsInt32 i.dc
  pub type_range : i.file_type < 2 ^ 32
  pub id_range : IsInt64 i.id
  pub hash_range : IsInt64 i.access_hash
  pub ref_bytes : All IsByte i.file_ref
  pub size_bytes : All IsByte i.photo_size

-- The fields that `Decode` fills, with a file reference `ref`.
abbrev pub basic_info : Info → Bytes → Info
basic_info i ref = record {
  dc = i.dc;
  file_type = i.file_type % 2 ^ 24;
  id = i.id;
  access_hash = i.access_hash;
  file_ref = ref;
  volume_id = pos 0;
  local_id = pos 0;
  photo_size = [];
  source_type = pos 0;
}

abbrev header_then : Info → Bytes → Bytes
header_then i rest =
    put_le 8 (bits64 i.id)
    ++ (put_le 8 (bits64 i.access_hash)
        ++ (put_le 4 (bits32 i.dc) ++ (put_le 4 i.file_type ++ rest)))

read_fields-header :
    (i : Info) (rest : Bytes)
    → IsInfo i
    → read_fields (header_then i rest) ≡ decoded (basic_info i (read_ref rest))
unfolding read_fields
read_fields-header i rest h =
    rw
      (
        read_le-put_le 8 (bits64 i.id) _,
        read_le-put_le 8 (bits64 i.access_hash) _,
        read_le-put_le 4 (bits32 i.dc) _,
        read_le-put_le 4 i.file_type rest,
      )
      (rw (
        low8 (bits64 i.id) (bits64-lt i.id),
        low8 (bits64 i.access_hash) (bits64-lt i.access_hash),
        low4 (bits32 i.dc) (bits32-lt i.dc),
        low4 i.file_type h.type_range,
        signed64-bits64 i.id h.id_range,
        signed64-bits64 i.access_hash h.hash_range,
        signed32-bits32 i.dc h.dc_range,
      ))

without_footer : (s : Bytes) → take (length (s ++ footer) - 2) (s ++ footer) ≡ s
without_footer s =
    let e : length (s ++ footer) - 2 ≡ length s = omega (arith, length-append s footer) in
    rw e (take-length-append s footer)

header_then-append : (i : Info) (s t : Bytes) → header_then i (s ++ t) ≡ header_then i s ++ t
header_then-append i s t = simp append_assoc

length-header_then : (i : Info) (s : Bytes) → length (header_then i s) ≡ 24 + length s
length-header_then i s = omega (
  arith,
  length-append (put_le 8 (bits64 i.id))
      (put_le 8 (bits64 i.access_hash) ++ (put_le 4 (bits32 i.dc) ++ (put_le 4 i.file_type ++ s))),
  length-append (put_le 8 (bits64 i.access_hash))
      (put_le 4 (bits32 i.dc) ++ (put_le 4 i.file_type ++ s)),
  length-append (put_le 4 (bits32 i.dc)) (put_le 4 i.file_type ++ s),
  length-append (put_le 4 i.file_type) s,
  length-put_le 8 (bits64 i.id),
  length-put_le 8 (bits64 i.access_hash),
  length-put_le 4 (bits32 i.dc),
  length-put_le 4 i.file_type,
)

decode_bytes-footer :
    (i : Info) (rest : Bytes)
    → IsInfo i
    → decode_bytes (header_then i rest ++ footer) ≡ decoded (basic_info i (read_ref rest))
unfolding decode_bytes
decode_bytes-footer i rest h =
    let long : ltb (length (header_then i rest ++ footer)) min_length ≡ false =
      le→ltb_false (length (header_then i rest ++ footer)) min_length
        (omega (arith, length-append (header_then i rest) footer, length-header_then i rest)) in
    rw (long, without_footer (header_then i rest)) (read_fields-header i rest h)

pub counted-IsByte : (s : Bytes) → All IsByte s → All IsByte (counted s)
counted-IsByte [] h = tt
counted-IsByte (c ∷ s) h = (omega arith, h)

pub put-IsByte : (k n : ℕ) (rest : Bytes) → All IsByte rest → All IsByte (put_le k n ++ rest)
put-IsByte k n rest h = All-append IsByte (put_le k n) rest (put_le-IsByte k n) h

encoded_bytes-IsByte : (i : Info) → IsInfo i → All IsByte (encoded_bytes i)
encoded_bytes-IsByte i h =
    let r5 = counted i.photo_size ++ footer in
    let h5 : All IsByte r5 =
      All-append IsByte (counted i.photo_size) footer (counted-IsByte i.photo_size h.size_bytes)
        (omega arith) in
    let r4 = counted i.file_ref ++ r5 in
    let h4 : All IsByte r4 =
      All-append IsByte (counted i.file_ref) r5 (counted-IsByte i.file_ref h.ref_bytes) h5 in
    let r3 = put_le 4 i.file_type ++ r4 in
    let h3 : All IsByte r3 = put-IsByte 4 i.file_type r4 h4 in
    let r2 = put_le 4 (bits32 i.dc) ++ r3 in
    let h2 : All IsByte r2 = put-IsByte 4 (bits32 i.dc) r3 h3 in
    put-IsByte 8 (bits64 i.id) (put_le 8 (bits64 i.access_hash) ++ r2)
      (put-IsByte 8 (bits64 i.access_hash) r2 h2)

base64_bytes-encode : (s : Bytes) → All IsByte s → base64_bytes (Base64.encode s) ≡ some s
unfolding base64_bytes
base64_bytes-encode s h = rw (Base64.decode_raw_url-encode s h, base64_bytes)

decode-encode_any :
    (i : Info)
    → IsInfo i
    → decode (encode i)
      ≡ decoded (basic_info i (read_ref (counted i.file_ref ++ counted i.photo_size)))
unfolding decode encode
decode-encode_any i h =
    let rest = counted i.file_ref ++ counted i.photo_size in
    let layout : encoded_bytes i ≡ header_then i rest ++ footer = simp append_assoc in
    rw
      (base64_bytes-encode (rle_encode (encoded_bytes i))
        (rle_encode-IsByte (encoded_bytes i) (encoded_bytes-IsByte i h)))
      (rw (rle_decode-encode (encoded_bytes i), layout) (decode_bytes-footer i rest h))

read_ref-counted :
    (s rest : Bytes) → 0 < length s → length s < 256 → read_ref (counted s ++ rest) ≡ s
read_ref-counted [] rest h k = absurd (omega arith)
read_ref-counted (c ∷ s) rest h k =
    let e : length (c ∷ s) % 256 ≡ length (c ∷ s) = omega arith in
    let fits : leb (length (c ∷ s)) (length ((c ∷ s) ++ rest)) ≡ true =
      le→leb (length (c ∷ s)) (length ((c ∷ s) ++ rest))
        (omega (arith, length-append (c ∷ s) rest)) in
    let some_ref : ltb 0 (length (c ∷ s)) ≡ true = lt→ltb 0 (length (c ∷ s)) h in
    rw (e, fits, some_ref) (take-length-append (c ∷ s) rest)

-- Decoding an encoded id, its fields in the ranges of their types, gives its data centre, id,
-- access hash and file reference back, and the type without its high byte, if the file
-- reference has 1 to 255 bytes; the other fields come back empty.
pub decode-encode :
    (i : Info)
    → IsInfo i
    → 0 < length i.file_ref
    → length i.file_ref < 256
    → decode (encode i) ≡ decoded (basic_info i i.file_ref)
decode-encode i h some_ref short =
    decode-encode_any i h
    ∙ ap (λ r. decoded (basic_info i r))
        (read_ref-counted i.file_ref (counted i.photo_size) some_ref short)

-- An id with no file reference but a photo size of 1 to 255 bytes, its fields in the ranges of
-- their types, comes back with the photo size as its file reference.
pub decode-encode_size :
    (i : Info)
    → IsInfo i
    → i.file_ref ≡ []
    → 0 < length i.photo_size
    → length i.photo_size < 256
    → decode (encode i) ≡ decoded (basic_info i i.photo_size)
decode-encode_size i h no_ref some_size short =
    decode-encode_any i h
    ∙ ap (λ r. decoded (basic_info i r))
        (rw no_ref (
          rw (append-nil (counted i.photo_size)) at
            (read_ref-counted i.photo_size [] some_size short)))
