-- ===== src/Server/InputFile/Laws.antt =====
-- A file id that came with an update, sent back in a request (internal/server/input_file.go).
use tgbotd.Prelude.{
  ℕ, ◌+◌, ◌*◌, ◌/◌, ◌%◌, ◌≡◌, ◌≢◌, refl, sym, ap, ◌∙◌, List, [], ◌∷◌, Option, some, false, ◌==◌,
  ==_iff, arith, Bool-cases, inl, inr,
}
use tgbotd.Prelude.Bytes.{Bytes, codes, has_prefix, Lacks}
use tgbotd.Prelude.Int.{ℤ}
use tgbotd.Prelude.Base64
use tgbotd.Botapi.{Result, ok}
use tgbotd.Botapi.Types.{Chat, User}
use tgbotd.Fileid.{Info, FileType, decoded, decode, decode_bytes, base64_bytes, encode}
use tgbotd.Fileid.Rle.{rle_decode}
use tgbotd.Server.Params.{Params, text, param_raw}
use tgbotd.Tlate.Telegram.{
  KeyboardButton, DocumentAttribute, DocumentObj, media_document, MessageObj,
}
use tgbotd.Tlate.Media.Files.{document_files, kind_of}
use tgbotd.Tlate.Messages.{built_message}
use tgbotd.Tlate.Messages.Files.{IsFile, file_named, built_message-decode}
use tgbotd.Server.InputFile.{
  input_document, input_media_from_file_id, by_reference, Fetched, text_input, raw_input,
  resolve_input_file,
}

to_char-ne : (v : ℕ) → Base64.to_char v ≢ b':'
unfolding Base64.to_char
to_char-ne v e = ground arith

encode-Lacks : (s : Bytes) → Lacks b':' (Base64.encode s)
unfolding Base64.encode
encode-Lacks [] = tt
encode-Lacks (x ∷ []) = (to_char-ne (x / 4), (to_char-ne (x % 4 * 16), tt))
encode-Lacks (x ∷ y ∷ []) =
    (to_char-ne (x / 4), (to_char-ne (x % 4 * 16 + y / 16), (to_char-ne (y % 16 * 4), tt)))
encode-Lacks (x ∷ y ∷ z ∷ s) = (
  to_char-ne (x / 4),
  (
    to_char-ne (x % 4 * 16 + y / 16),
    (to_char-ne (y % 16 * 4 + z / 64), (to_char-ne (z % 64), encode-Lacks s)),
  ),
)

has_prefix-Lacks : (b : ℕ) (s p : Bytes) → Lacks b s → (Lacks b p → ⊥) → has_prefix s p ≡ false
unfolding has_prefix
has_prefix-Lacks b s [] h k = absurd (k tt)
has_prefix-Lacks b [] (d ∷ p) h k = refl
has_prefix-Lacks b (c ∷ s) (d ∷ p) h k = elim (Bool-cases (c == d)) [
  | inr ne ↦ rw ne
  | inl e ↦
      let same : c ≡ d = (==_iff c d).0 e in
      rw e (has_prefix-Lacks b s p h.1 (λ l. k (rw (sym same) h.0, l)))
]

module _ {F : Type 0} (lower : Bytes → Bytes) (save : F → Result Bytes)
    (fetch : Bytes → Fetched) where
  -- A text without a colon that decodes is neither an attachment nor a URL.
  text_input-decoded :
      (files : List (Bytes × F)) (s : Bytes) (i : Info)
      → Lacks b':' s
      → decode s ≡ decoded i
      → text_input lower save fetch files s ≡ ok (by_reference (input_media_from_file_id i))
  unfolding text_input
  text_input-decoded files s i h e = rw (
    has_prefix-Lacks b':' s (codes "attach://") h (λ l. l.1.1.1.1.1.1.0 refl),
    has_prefix-Lacks b':' s (codes "http://") h (λ l. l.1.1.1.1.0 refl),
    has_prefix-Lacks b':' s (codes "https://") h (λ l. l.1.1.1.1.1.0 refl),
    e,
  )

  raw_input-text :
      (files : List (Bytes × F)) (name s : Bytes)
      → s ≢ []
      → raw_input lower save fetch files name (some (text s)) ≡ text_input lower save fetch files s
  raw_input-text files name [] h = absurd (h refl)
  raw_input-text files name (c ∷ s) h = refl

nil_undecoded : (i : Info) → decode [] ≢ decoded i
unfolding decode base64_bytes Base64.decode_raw_url decode_bytes rle_decode
nil_undecoded i e = cc

-- The kinds of documents are none of photos.
kind_of-document :
    (attrs : List DocumentAttribute) (dc id hash : ℤ) (ref : Bytes)
    → input_media_from_file_id (file_named dc (kind_of attrs) id hash ref)
      ≡ input_document id hash ref
unfolding input_media_from_file_id
kind_of-document attrs dc id hash ref = ground arith

encode-no_colon : (i : Info) → Lacks b':' (encode i)
unfolding encode
encode-no_colon i = encode-Lacks _

abbrev first_id : List (FileType × Bytes) → Bytes
first_id [] = []
first_id ((kind, id) ∷ rest) = id

module _ {F : Type 0} (lower : Bytes → Bytes) (save : F → Result Bytes)
    (fetch : Bytes → Fetched) where
  sent_by_id :
      (files : List (Bytes × F)) (ps : Params) (name : Bytes) (i j : Info)
      → decode (encode i) ≡ decoded j
      → param_raw ps name ≡ some (text (encode i))
      → resolve_input_file lower save fetch files ps name
        ≡ ok (by_reference (input_media_from_file_id j))
  unfolding resolve_input_file
  sent_by_id files ps name i j e given = rw given (
      raw_input-text lower save fetch files name (encode i) (λ z. nil_undecoded j (rw z at e))
      ∙ text_input-decoded lower save fetch files (encode i) j (encode-no_colon i) e)

  -- The file id of a document that came with a message, sent back as a file to send, is sent by
  -- reference to that very document, if its fields are in the ranges of their types and its file
  -- reference has 1 to 255 bytes.
  pub resolve_input_file-built_message :
      (get_text : KeyboardButton → Option Bytes) (m : MessageObj) (d : DocumentObj) (c : Chat)
      (from : Option User) (files : List (Bytes × F)) (ps : Params) (name fid : Bytes)
      → m.media ≡ some (media_document (some d))
      → IsFile d.dc_id d.id d.access_hash d.file_reference
      → document_files (built_message get_text m c from) ≡ (kind_of d.attributes, fid) ∷ []
      → param_raw ps name ≡ some (text fid)
      → resolve_input_file lower save fetch files ps name
        ≡ ok (by_reference (input_document d.id d.access_hash d.file_reference))
  resolve_input_file-built_message get_text m d c from files ps name fid e h listed given =
      let (i, found, named) = built_message-decode get_text m d c from e h in
      let same : fid ≡ encode i = ap first_id (sym listed ∙ found) in
      sent_by_id files ps name i _ named (given ∙ ap (λ s. some (text s)) same)
      ∙ ap (λ f. ok (by_reference f))
          (kind_of-document d.attributes d.dc_id d.id d.access_hash d.file_reference)
