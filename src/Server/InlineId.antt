-- ===== src/Server/InlineId.antt =====
-- internal/server/inline_msg_id.go, and `inlineMsgID` of internal/tlate/updates.go, which it reverses.
use tgbotd.Prelude.{suc, ◌≡◌, List, [], ◌∷◌, ◌++◌, Option, some, arith, All}
use tgbotd.Prelude.Bytes.{Bytes, codes, split, Lacks, split-append, split-Lacks}
use tgbotd.Prelude.Int.{
  ℤ, pos, negsuc, IsInt32, IsInt64, IsInt32-IsInt64, to_int32, signed32-bits32,
}
use tgbotd.Prelude.Decimal.{format_int, digits, IsDigit, digits-IsDigit}
use tgbotd.Botapi.{Result, ok, err, api, err_bad_request}
use tgbotd.Server.Integers.{json_parse_int}
use tgbotd.Server.Integers.Laws.{json_parse_int-format_int}

-- `telegram.InputBotInlineMessageIDObj` and `telegram.InputBotInlineMessageID64`. The data centre,
-- and the id of the second, are `int32`, all else is `int64`.
pub data InlineMessageId : Type 0 where
  id_obj : (dc_id id access_hash : ℤ) → InlineMessageId
  id_64 : (dc_id owner_id id access_hash : ℤ) → InlineMessageId

abbrev pub IsInlineId : InlineMessageId → Type 0
IsInlineId (id_obj dc id ah) = IsInt32 dc × IsInt64 id × IsInt64 ah
IsInlineId (id_64 dc owner id ah) = IsInt32 dc × IsInt64 owner × IsInt32 id × IsInt64 ah

-- `inlineMsgID` of an id that is not nil.
unfoldable pub inline_msg_id : InlineMessageId → Bytes
inline_msg_id (id_obj dc id ah) = format_int dc ++ b':' ∷ (format_int id ++ b':' ∷ format_int ah)
inline_msg_id (id_64 dc owner id ah) =
    format_int dc ++ b':' ∷ (format_int owner ++ b':' ∷ (format_int id ++ b':' ∷ format_int ah))

abbrev pub bad_inline_id : Result InlineMessageId
bad_inline_id = err (api (err_bad_request (codes "bad inline_message_id")))

abbrev pub bad_inline_format : Result InlineMessageId
bad_inline_format = err (api (err_bad_request (codes "bad inline_message_id format")))

-- All parts are read first, and any error refuses the id.
abbrev pub read3 : Option ℤ → Option ℤ → Option ℤ → Result InlineMessageId
read3 (some dc) (some id) (some ah) = ok (id_obj (to_int32 dc) id ah)
read3 _ _ _ = bad_inline_id

abbrev pub read4 : Option ℤ → Option ℤ → Option ℤ → Option ℤ → Result InlineMessageId
read4 (some dc) (some owner) (some id) (some ah) = ok (id_64 (to_int32 dc) owner (to_int32 id) ah)
read4 _ _ _ _ = bad_inline_id

unfoldable pub decode_parts : List Bytes → Result InlineMessageId
decode_parts (p0 ∷ p1 ∷ p2 ∷ []) = read3 (json_parse_int p0) (json_parse_int p1) (json_parse_int p2)
decode_parts (p0 ∷ p1 ∷ p2 ∷ p3 ∷ []) =
    read4 (json_parse_int p0) (json_parse_int p1) (json_parse_int p2) (json_parse_int p3)
decode_parts _ = bad_inline_format

unfoldable pub decode_inline_message_id : Bytes → Result InlineMessageId
unfolding decode_parts
decode_inline_message_id s = decode_parts (split s b':')

digits-Lacks : (s : Bytes) → All IsDigit s → Lacks b':' s
digits-Lacks [] h = tt
digits-Lacks (c ∷ s) h = (omega arith, digits-Lacks s h.1)

format_int-Lacks : (n : ℤ) → Lacks b':' (format_int n)
unfolding format_int
format_int-Lacks (pos n) = digits-Lacks (digits n) (digits-IsDigit n)
format_int-Lacks (negsuc n) = (omega arith, digits-Lacks (digits (suc n)) (digits-IsDigit (suc n)))

split_printed :
    (n : ℤ) (rest : Bytes)
    → split (format_int n ++ b':' ∷ rest) b':' ≡ format_int n ∷ split rest b':'
split_printed n rest = split-append b':' (format_int n) rest (format_int-Lacks n)

split_last : (n : ℤ) → split (format_int n) b':' ≡ format_int n ∷ []
split_last n = split-Lacks b':' (format_int n) (format_int-Lacks n)

-- Decoding an inline message id that the translator printed gives the id back, in both forms
-- and for every value of their fields that is in its type's range.
pub decode-inline_msg_id :
    (i : InlineMessageId) → IsInlineId i → decode_inline_message_id (inline_msg_id i) ≡ ok i
unfolding decode_inline_message_id inline_msg_id
decode-inline_msg_id (id_obj dc id ah) (hdc, hid, hah) =
    rw (split_printed dc _, split_printed id _, split_last ah)
      (rw (
        json_parse_int-format_int dc (IsInt32-IsInt64 dc hdc),
        json_parse_int-format_int id hid,
        json_parse_int-format_int ah hah,
        signed32-bits32 dc hdc,
      ))
decode-inline_msg_id (id_64 dc owner id ah) (hdc, howner, hid, hah) =
    rw (split_printed dc _, split_printed owner _, split_printed id _, split_last ah)
      (rw (
        json_parse_int-format_int dc (IsInt32-IsInt64 dc hdc),
        json_parse_int-format_int owner howner,
        json_parse_int-format_int id (IsInt32-IsInt64 id hid),
        json_parse_int-format_int ah hah,
        signed32-bits32 dc hdc,
        signed32-bits32 id hid,
      ))
