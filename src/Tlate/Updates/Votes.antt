-- ===== src/Tlate/Updates/Votes.antt =====
-- Poll answers in internal/tlate/updates.go and internal/tlate/updates_helpers.go.
use tgbotd.Prelude.{ℕ, suc, ◌≡◌, refl, ap, arith, List, [], ◌∷◌, Option, some, length}
use tgbotd.Prelude.Bytes.{Bytes}
use tgbotd.Prelude.Int.{ℤ, pos}
use tgbotd.Tlate.Telegram.{KeyboardButton, Peer}
use tgbotd.Tlate.Telegram.Incoming.{update_message_poll_vote}
use tgbotd.Tlate.Context.{TranslateContext}
use tgbotd.Tlate.Reactions.{indexes_from, options_to_indexes}
use tgbotd.Tlate.Updates.{update_to_bot_api, filled}
use tgbotd.Tlate.Updates.Envelopes.{poll_answer}

indexes_from-length :
    (i : ℕ) (xs ys : List Bytes) → length xs ≡ length ys → indexes_from i xs ≡ indexes_from i ys
indexes_from-length i [] [] h = refl
indexes_from-length i [] (y ∷ ys) h = absurd (omega arith)
indexes_from-length i (x ∷ xs) [] h = absurd (omega arith)
indexes_from-length i (x ∷ xs) (y ∷ ys) h =
    ap (λ ns. pos i ∷ ns) (indexes_from-length (suc i) xs ys (omega arith))

options_to_indexes-length :
    (xs ys : List Bytes) → length xs ≡ length ys → options_to_indexes xs ≡ options_to_indexes ys
unfolding options_to_indexes
options_to_indexes-length xs ys h = indexes_from-length 0 xs ys h

-- Two votes of one user in one poll for as many options are translated alike, whichever the
-- options are: the answer does not say what was voted for.
pub update_to_bot_api_votes :
    (get_text : KeyboardButton → Option Bytes) (poll_id : ℤ) (peer : Option Peer)
    (t : TranslateContext) (xs ys : List Bytes)
    → length xs ≡ length ys
    → update_to_bot_api get_text (some (update_message_poll_vote poll_id peer xs)) t
      ≡ update_to_bot_api get_text (some (update_message_poll_vote poll_id peer ys)) t
unfolding update_to_bot_api filled poll_answer
update_to_bot_api_votes get_text poll_id peer t xs ys h = rw (options_to_indexes-length xs ys h)
