-- ===== src/Server/Edit/Laws.antt =====
-- The message that editMessageText edits.
use tgbotd.Prelude.{◌≡◌, [], ◌∷◌, Option, none, some}
use tgbotd.Prelude.Bytes.{Bytes, codes, split}
use tgbotd.Prelude.Int.{ℤ}
use tgbotd.Botapi.{ok, api, err_bad_request, err≢ok}
use tgbotd.Json as JsonTree
use tgbotd.Server.Params.{Params, param_string, require_string}
use tgbotd.Server.InlineId.{
  InlineMessageId, IsInlineId, inline_msg_id, decode_inline_message_id, decode_parts,
  decode-inline_msg_id,
}
use tgbotd.Server.Edit.{
  edit_inline, inline_fields, edit_inline_message, chat_or_inline, edit_message_text,
}

module _ {M : Type 0} (whole : Bytes → Option ℤ) (number_text : Bytes → Bytes)
    (tree : Bytes → JsonTree.Json) where
  chat_or_inline-decode :
      (ps : Params) (message s : Bytes) (i : InlineMessageId)
      → decode_inline_message_id s ≡ ok i
      → chat_or_inline whole number_text tree {M = M} ps message s
        ≡ ok (edit_inline (inline_fields whole number_text tree ps message none i))
  unfolding edit_inline_message decode_inline_message_id decode_parts split
  chat_or_inline-decode ps message [] i h =
      absurd (err≢ok (api (err_bad_request (codes "bad inline_message_id format"))) i h)
  chat_or_inline-decode ps message (c ∷ s) i h = rw h

-- Given an inline message id that the translator printed, editMessageText edits that message, with
-- the request's text, whatever chat the request names.
pub edit_message_text-inline_msg_id :
    {M : Type 0} (whole : Bytes → Option ℤ) (number_text : Bytes → Bytes)
    (tree : Bytes → JsonTree.Json) (ps : Params) (message : Bytes) (i : InlineMessageId)
    → IsInlineId i
    → require_string number_text ps (codes "text") ≡ ok message
    → param_string number_text ps (codes "inline_message_id") ≡ some (inline_msg_id i)
    → edit_message_text whole number_text tree {M = M} ps
      ≡ ok (edit_inline (inline_fields whole number_text tree ps message none i))
unfolding edit_message_text
edit_message_text-inline_msg_id whole number_text tree ps message i hi text given =
    rw (text, given)
      (chat_or_inline-decode whole number_text tree ps message (inline_msg_id i) i
        (decode-inline_msg_id i hi))
