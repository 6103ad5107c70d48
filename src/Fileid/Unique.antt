-- ===== src/Fileid/Unique.antt =====
-- `UniqueID` of internal/fileid/fileid.go tells files apart.
use tgbotd.Prelude.{◌≡◌, refl, sym, ap, ◌∙◌, [], ◌∷◌, ◌++◌, some, All}
use tgbotd.Prelude.Bytes.{Bytes, IsByte}
use tgbotd.Prelude.Int.{bits64, signed64, signed64-bits64, bits64-lt}
use tgbotd.Prelude.Binary.{put_le, read_le, read_le-put_le, low4, low8}
use tgbotd.Prelude.Base64
use mathlib.Core.Option.{some-injective}
use tgbotd.Fileid.{Info, counted, unique_bytes, unique_id}
use tgbotd.Fileid.Codec.{IsInfo, put-IsByte, counted-IsByte}

unique_bytes-IsByte : (i : Info) → IsInfo i → All IsByte (unique_bytes i)
unique_bytes-IsByte i h =
    put-IsByte 4 i.file_type (put_le 8 (bits64 i.id) ++ counted i.photo_size)
      (put-IsByte 8 (bits64 i.id) (counted i.photo_size) (counted-IsByte i.photo_size h.size_bytes))

counted-injective : (s t : Bytes) → counted s ≡ counted t → s ≡ t
counted-injective [] [] e = refl
counted-injective [] (c ∷ t) e = absurd (cc)
counted-injective (c ∷ s) [] e = absurd (cc)
counted-injective (c ∷ s) (d ∷ t) e = cc

-- Reading the two numbers at the front of the bytes gives them and the rest.
read_unique :
    (i : Info)
    → IsInfo i
    → read_le 4 (unique_bytes i)
      ≡ some (i.file_type, put_le 8 (bits64 i.id) ++ counted i.photo_size)
read_unique i h =
    read_le-put_le 4 i.file_type (put_le 8 (bits64 i.id) ++ counted i.photo_size)
    ∙ rw (low4 i.file_type h.type_range)

read_id :
    (i : Info)
    → IsInfo i
    → read_le 8 (put_le 8 (bits64 i.id) ++ counted i.photo_size)
      ≡ some (bits64 i.id, counted i.photo_size)
read_id i h =
    read_le-put_le 8 (bits64 i.id) (counted i.photo_size) ∙ rw (low8 (bits64 i.id) (bits64-lt i.id))

-- Two files with one unique id have the same type, id and photo size, if their fields are in
-- the ranges of their types.
pub unique_id-injective :
    (i j : Info)
    → IsInfo i
    → IsInfo j
    → unique_id i ≡ unique_id j
    → (i.file_type ≡ j.file_type) × (i.id ≡ j.id) × (i.photo_size ≡ j.photo_size)
unfolding unique_id
unique_id-injective i j hi hj e =
    let bytes : unique_bytes i ≡ unique_bytes j = some-injective _ _ (
      sym (Base64.decode_raw_url-encode (unique_bytes i) (unique_bytes-IsByte i hi))
      ∙ ap Base64.decode_raw_url e
      ∙ Base64.decode_raw_url-encode (unique_bytes j) (unique_bytes-IsByte j hj)) in
    let first =
      some-injective _ _ (sym (read_unique i hi) ∙ ap (read_le 4) bytes ∙ read_unique j hj) in
    let second =
      some-injective _ _ (sym (read_id i hi) ∙ ap (λ p. read_le 8 p.1) first ∙ read_id j hj) in
    let id_bits : bits64 i.id ≡ bits64 j.id = ap (λ p. p.0) second in
    (
      ap (λ p. p.0) first,
      sym (signed64-bits64 i.id hi.id_range)
          ∙ ap signed64 id_bits
          ∙ signed64-bits64 j.id hj.id_range,
      counted-injective i.photo_size j.photo_size (ap (λ p. p.1) second),
    )
