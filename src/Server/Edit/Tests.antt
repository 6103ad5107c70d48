-- ===== src/Server/Edit/Tests.antt =====
-- Requests to edit messages.
use tgbotd.Prelude.{◌≡◌, refl, [], ◌∷◌, Option, none, arith}
use tgbotd.Prelude.Bytes.{Bytes, codes, bytes_eq}
use tgbotd.Prelude.Int.{ℤ, pos, negsuc}
use tgbotd.Prelude.Maps.{lookup}
use tgbotd.Botapi.{ok}
use tgbotd.Json as JsonTree
use tgbotd.Server.Params.{Params, text, param_string, require_string}
use tgbotd.Server.InlineId.{InlineMessageId, id_64, inline_msg_id}
use tgbotd.Server.InputFile.{FileMedia}
use tgbotd.Server.Edit.{choose_sticker, action_of, edit_inline, inline_fields, edit_message_text}
use tgbotd.Server.Edit.Laws.{edit_message_text-inline_msg_id}

abbrev no_float : Bytes → Option ℤ
no_float s = none

abbrev same_text : Bytes → Bytes
same_text s = s

abbrev no_tree : Bytes → JsonTree.Json
no_tree s = JsonTree.null

sticker_chosen : action_of (codes "choose_sticker") ≡ ok choose_sticker
unfolding action_of lookup bytes_eq
sticker_chosen = refl

abbrev inline_message : InlineMessageId
inline_message = id_64 (pos 2) (pos 11) (negsuc 4) (pos 99)

abbrev edit_request : Params
edit_request =
    (codes "text", text (codes "new"))
    ∷ (codes "inline_message_id", text (inline_msg_id inline_message))
    ∷ []

edit_message_text-inline_msg_id_example :
    edit_message_text no_float same_text no_tree {M = FileMedia} edit_request
    ≡ ok (
        edit_inline
          (inline_fields no_float same_text no_tree edit_request (codes "new") none inline_message))
unfolding require_string param_string lookup bytes_eq
edit_message_text-inline_msg_id_example =
    edit_message_text-inline_msg_id no_float same_text no_tree edit_request (codes "new")
      inline_message (omega arith, omega arith, omega arith, omega arith) refl refl
