-- ===== src/Botmgr/Manager/Tests.antt =====
-- Tokens, and two calls of `Get` for one token.
use tgbotd.Prelude.{ℕ, suc, ◌≤◌, ◌≡◌, refl, [], ◌∷◌, ◌++◌, ◌⊎◌, none, some, length, arith}
use tgbotd.Prelude.Bytes.{Bytes, codes, index_byte}
use tgbotd.Prelude.Int.{pos}
use tgbotd.Prelude.Decimal.{parse_int, parse_signed, parse_digits, all_digits, value}
use tgbotd.Botapi.{ok}
use tgbotd.Botmgr.Manager.{
  validate_token, validate_parts, Slot, new_slot, join, enter, store_bot, joins, enters, stores,
  GetReach, here, next,
}
use tgbotd.Botmgr.Manager.Token.{validate_token_complete}
use tgbotd.Botmgr.Manager.Building.{get-builds_once}

abbrev sample_secret : Bytes
sample_secret = codes "AAAAAAAAAABBBBBBBBBBCCCCCCCCCCDDDDD"

abbrev sample_token : Bytes
sample_token = codes "123" ++ b':' ∷ sample_secret

parsed_123 : parse_int (codes "123") ≡ some (pos (suc 122))
unfolding parse_int parse_signed parse_digits all_digits value
parsed_123 = refl

validate_token_complete_example : validate_token sample_token ≡ ok (pos (suc 122))
validate_token_complete_example =
    validate_token_complete (codes "123") sample_secret 122 (omega arith) (omega arith)
      (omega arith) parsed_123 (omega arith)

sample_accepted : validate_token sample_token ≡ ok (pos 123)
unfolding validate_token validate_parts index_byte parse_int parse_signed parse_digits all_digits
    value
sample_accepted = refl

-- The first call has stored its bot, the second still waits.
abbrev one_stored : Slot ℕ
one_stored = record { bot = some 9; init = none; made = 1; waiting = 0 ∷ []; building = [] }

one_stored_reach : GetReach new_slot one_stored
unfolding join enter store_bot
one_stored_reach =
    next (next (next (next here (joins refl)) (joins refl)) (enters [] (0 ∷ []) 0 refl tt))
      (stores [] [] 0 9 refl)

get-builds_once_example :
    (length one_stored.building ≤ 1) × ((one_stored.bot ≡ none) ⊎ (one_stored.building ≡ []))
get-builds_once_example = get-builds_once one_stored one_stored_reach
