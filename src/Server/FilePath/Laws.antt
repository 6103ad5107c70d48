-- ===== src/Server/FilePath/Laws.antt =====
-- What `verifyAndDecodeFilePath` accepts, and that it reads what `signedFilePath` wrote.
use tgbotd.Prelude.{
  ℕ, zero, suc, ◌+◌, ◌-◌, ◌*◌, ◌/◌, ◌%◌, ◌≤◌, ◌<◌, ◌≡◌, ◌≢◌, refl, ap, ◌∙◌, sym, [], ◌∷◌, ◌++◌,
  append-nil, none, some, true, false, ltb, length, length-append, take, drop, arith, All,
  All-append, Bool-cases, Option-cases, inl, inr, le→ltb_false, lt→ltb, le→leb,
}
use tgbotd.Prelude.Bytes.{Bytes, IsByte, bytes_eq, bytes_eq→eq, bytes_eq_refl, index_byte, Lacks}
use tgbotd.Prelude.Slices.{take-length-append, drop-length-append}
use tgbotd.Prelude.Int.{pos, bits32, bits64, signed64-bits64, signed32-bits32, bits64-lt, bits32-lt}
use tgbotd.Prelude.Binary.{put_le, read_le-put_le, length-put_le, low4, low8}
use tgbotd.Prelude.Base64
use tgbotd.Botapi.{ApiError}
use tgbotd.Fileid.{Info, read_ref}
use tgbotd.Fileid.Codec.{IsInfo, put-IsByte}
use tgbotd.Server.FilePath.{
  encode_file_payload, verified, illegal_base64, refused, before_slash, read_payload,
  signed_payload, signed_file_path, verify_raw, verify_and_decode_file_path,
}

-- The fields that a path carries.
abbrev pub path_info : Info → Info
path_info i = record i { volume_id = pos 0; local_id = pos 0; photo_size = []; source_type = pos 0 }

to_char-slash : (v : ℕ) → Base64.to_char v ≢ b'/'
unfolding Base64.to_char
to_char-slash v h = ground arith

encode-Lacks : (s : Bytes) → Lacks b'/' (Base64.encode s)
unfolding Base64.encode
encode-Lacks [] = tt
encode-Lacks (x ∷ []) = (to_char-slash (x / 4), (to_char-slash (x % 4 * 16), tt))
encode-Lacks (x ∷ y ∷ []) =
    (to_char-slash (x / 4), (to_char-slash (x % 4 * 16 + y / 16), (to_char-slash (y % 16 * 4), tt)))
encode-Lacks (x ∷ y ∷ z ∷ s) = (
  to_char-slash (x / 4),
  (
    to_char-slash (x % 4 * 16 + y / 16),
    (to_char-slash (y % 16 * 4 + z / 64), (to_char-slash (z % 64), encode-Lacks s)),
  ),
)

index_byte-Lacks : (b : ℕ) (s : Bytes) → Lacks b s → index_byte s b ≡ none
unfolding index_byte
index_byte-Lacks b [] h = refl
index_byte-Lacks b (c ∷ s) h = ground (arith, index_byte-Lacks b s h.1)

before_slash-Lacks : (s : Bytes) → Lacks b'/' s → before_slash s ≡ s
unfolding before_slash
before_slash-Lacks s h = rw (index_byte-Lacks b'/' s h, before_slash)

read_ref-one : (s : Bytes) → length s < 256 → read_ref (length s % 256 ∷ s) ≡ s
read_ref-one [] h = refl
read_ref-one (c ∷ s) h =
    let e : length (c ∷ s) % 256 ≡ length (c ∷ s) = omega arith in
    let some_ref : ltb 0 (length (c ∷ s)) ≡ true = lt→ltb 0 (length (c ∷ s)) (omega arith) in
    let whole : take (length (c ∷ s)) (c ∷ s) ≡ c ∷ s =
      ap (take (length (c ∷ s))) (sym (append-nil (c ∷ s))) ∙ take-length-append (c ∷ s) [] in
    rw e (rw (some_ref, le→leb (length (c ∷ s)) (length (c ∷ s)) (omega arith)) whole)

read_payload-encode :
    (i : Info)
    → IsInfo i
    → length i.file_ref < 256
    → read_payload (encode_file_payload i) ≡ verified (path_info i)
unfolding read_payload encode_file_payload
read_payload-encode i h short =
    rw
      (
        read_le-put_le 4 (bits32 i.dc) _,
        read_le-put_le 4 i.file_type _,
        read_le-put_le 8 (bits64 i.id) _,
        read_le-put_le 8 (bits64 i.access_hash) _,
      )
      (rw (
        low8 (bits64 i.id) (bits64-lt i.id),
        low8 (bits64 i.access_hash) (bits64-lt i.access_hash),
        low4 (bits32 i.dc) (bits32-lt i.dc),
        low4 i.file_type h.type_range,
        signed64-bits64 i.id h.id_range,
        signed64-bits64 i.access_hash h.hash_range,
        signed32-bits32 i.dc h.dc_range,
        read_ref-one i.file_ref short,
      ))

payload-IsByte : (i : Info) → IsInfo i → All IsByte (encode_file_payload i)
unfolding encode_file_payload
payload-IsByte i h =
    let r4 = length i.file_ref % 256 ∷ i.file_ref in
    let h4 : All IsByte r4 = (omega arith, h.ref_bytes) in
    let r3 = put_le 8 (bits64 i.access_hash) ++ r4 in
    let h3 : All IsByte r3 = put-IsByte 8 (bits64 i.access_hash) r4 h4 in
    let r2 = put_le 8 (bits64 i.id) ++ r3 in
    let h2 : All IsByte r2 = put-IsByte 8 (bits64 i.id) r3 h3 in
    put-IsByte 4 (bits32 i.dc) (put_le 4 i.file_type ++ r2) (put-IsByte 4 i.file_type r2 h2)

length-payload : (i : Info) → 25 ≤ length (encode_file_payload i)
unfolding encode_file_payload
length-payload i =
    let r4 = length i.file_ref % 256 ∷ i.file_ref in
    let r3 = put_le 8 (bits64 i.access_hash) ++ r4 in
    let r2 = put_le 8 (bits64 i.id) ++ r3 in
    omega (
      arith,
      length-append (put_le 4 (bits32 i.dc)) (put_le 4 i.file_type ++ r2),
      length-append (put_le 4 i.file_type) r2,
      length-append (put_le 8 (bits64 i.id)) r3,
      length-append (put_le 8 (bits64 i.access_hash)) r4,
      length-put_le 4 (bits32 i.dc),
      length-put_le 4 i.file_type,
      length-put_le 8 (bits64 i.id),
      length-put_le 8 (bits64 i.access_hash),
    )

length-take : (n : ℕ) (s : Bytes) → n ≤ length s → length (take n s) ≡ n
length-take zero s h = refl
length-take (suc n) [] h = absurd (omega arith)
length-take (suc n) (c ∷ s) h = ap suc (length-take n s (omega arith))

All-take : (P : ℕ → Type 0) (n : ℕ) (s : Bytes) → All P s → All P (take n s)
All-take P zero s h = tt
All-take P (suc n) [] h = tt
All-take P (suc n) (c ∷ s) h = (h.0, All-take P n s h.1)

refused≢verified : {e : ApiError} {i : Info} → refused e ≡ verified i → ⊥
refused≢verified h = cc

illegal≢verified : {i : Info} → illegal_base64 ≡ verified i → ⊥
illegal≢verified h = cc

module _ (mac : Bytes → Bytes → Bytes) (key : Bytes) where
  verify_raw-signed :
      (payload : Bytes)
      → 25 ≤ length payload
      → length (take 16 (mac key payload)) ≡ 16
      → verify_raw mac key (signed_payload mac key payload) ≡ read_payload payload
  unfolding verify_raw signed_payload
  verify_raw-signed payload long sixteen =
      let sig = take 16 (mac key payload) in
      let total : length (payload ++ sig) ≡ length payload + 16 =
        omega (arith, length-append payload sig) in
      let front : length payload + 16 - 16 ≡ length payload = omega arith in
      let enough : ltb (length payload + 16) 41 ≡ false =
        le→ltb_false (length payload + 16) 41 (omega arith) in
      let enough' : ltb (length payload) 25 ≡ false = le→ltb_false (length payload) 25 long in
      rw (
        total,
        front,
        enough,
        take-length-append payload sig,
        drop-length-append payload sig,
        bytes_eq_refl sig,
        enough',
      )

  -- A path that was signed with a bot's key is accepted with the same key, and gives back data
  -- centre, type, id, access hash and file reference, if these are in the ranges of their
  -- types, the reference has at most 255 bytes and the MAC at least 16.
  pub verify-signed_file_path :
      (i : Info)
      → IsInfo i
      → length i.file_ref < 256
      → 16 ≤ length (mac key (encode_file_payload i))
      → All IsByte (mac key (encode_file_payload i))
      → verify_and_decode_file_path mac key (signed_file_path mac key i) ≡ verified (path_info i)
  unfolding verify_and_decode_file_path signed_file_path
  verify-signed_file_path i h short long mac_bytes =
      let payload = encode_file_payload i in
      let raw = signed_payload mac key payload in
      let raw_bytes : All IsByte raw =
        unfold signed_payload in
        All-append IsByte payload (take 16 (mac key payload)) (payload-IsByte i h)
          (All-take IsByte 16 (mac key payload) mac_bytes) in
      rw
        (
          before_slash-Lacks (Base64.encode raw) (encode-Lacks raw),
          Base64.decode_raw_url-encode raw raw_bytes,
          verify_and_decode_file_path,
        )
        (rw (verify_raw-signed payload (length-payload i) (length-take 16 (mac key payload) long))
          (read_payload-encode i h short))

  take-drop : (n : ℕ) (s : Bytes) → s ≡ take n s ++ drop n s
  take-drop zero s = refl
  take-drop (suc n) [] = refl
  take-drop (suc n) (c ∷ s) = ap (λ t. c ∷ t) (take-drop n s)

  -- The bytes of an accepted path are a payload, whose fields are returned, and the first 16
  -- bytes of the MAC of that payload under the bot's own key.
  pub verify_sound :
      (s : Bytes) (i : Info)
      → verify_and_decode_file_path mac key s ≡ verified i
      → (payload : Bytes) × (Base64.decode_raw_url (before_slash s)
          ≡ some (signed_payload mac key payload))
        × (read_payload payload ≡ verified i)
  unfolding verify_and_decode_file_path verify_raw signed_payload
  verify_sound s i h = elim (Option-cases (Base64.decode_raw_url (before_slash s))) [
    | inl no_text ↦ absurd (illegal≢verified (rw (no_text, verify_and_decode_file_path) at h))
    | inr (raw, e) ↦
        let payload = take (length raw - 16) raw in
        let h' : verify_raw mac key raw ≡ verified i = rw (e, verify_and_decode_file_path) at h in
        elim (Bool-cases (ltb (length raw) 41)) [
          | inl short ↦ absurd (refused≢verified (rw (short, verify_raw) at h'))
          | inr long ↦
              elim (Bool-cases
                (bytes_eq (drop (length raw - 16) raw) (take 16 (mac key payload)))) [
                  | inl same ↦ elim (Bool-cases (ltb (length payload) 25)) [
                    | inl cut ↦ absurd (refused≢verified (rw (long, same, cut, verify_raw) at h'))
                    | inr whole ↦
                        let tail =
                          bytes_eq→eq (drop (length raw - 16) raw) (take 16 (mac key payload))
                            same in
                        (
                          payload,
                          e
                              ∙ ap some
                                  (take-drop (length raw - 16) raw ∙ ap (λ t. payload ++ t) tail),
                          rw (long, same, whole, verify_raw) at h',
                        )
                  ]
                  | inr differs ↦ absurd (refused≢verified (rw (long, differs, verify_raw) at h'))
                ]
        ]
  ]
