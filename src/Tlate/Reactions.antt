-- ===== src/Tlate/Reactions.antt =====
-- Reactions, boosts and the options of poll votes: internal/tlate/updates_helpers.go.
use tgbotd.Prelude.{ℕ, suc, List, [], ◌∷◌, Option, none, some}
use tgbotd.Prelude.Bytes.{Bytes, codes}
use tgbotd.Prelude.Int.{ℤ, pos}
use tgbotd.Prelude.Decimal.{format_int}
use tgbotd.Json.{Json, num, str, obj, Items, done, item, end, object}
use tgbotd.Tlate.Telegram.Incoming.{
  Reaction, reaction_emoji, reaction_custom_emoji, reaction_paid, other_reaction, ReactionCount,
  Boost,
}

-- The positions from `i` on, one for each option.
abbrev pub indexes_from : ℕ → List Bytes → List ℤ
indexes_from i [] = []
indexes_from i (o ∷ os) = pos i ∷ indexes_from (suc i) os

unfoldable pub options_to_indexes : List Bytes → List ℤ
options_to_indexes options = indexes_from 0 options

-- `none` of another type.
abbrev pub reaction_map : Reaction → Option Json
reaction_map (reaction_emoji emoticon) =
    some (object ((codes "type", str (codes "emoji")) ∷ (codes "emoji", str emoticon) ∷ []))
reaction_map (reaction_custom_emoji id) = some (
    object (
      (codes "type", str (codes "custom_emoji"))
      ∷ (codes "custom_emoji_id", str (format_int id))
      ∷ []))
reaction_map reaction_paid = some (object ((codes "type", str (codes "paid")) ∷ []))
reaction_map other_reaction = none

abbrev pub item_if : Option Json → Items → Items
item_if none xs = xs
item_if (some x) xs = item x xs

unfoldable pub reactions_to_bot_api : List Reaction → Items
reactions_to_bot_api [] = done
reactions_to_bot_api (r ∷ rs) = item_if (reaction_map r) (reactions_to_bot_api rs)

abbrev pub map_or_empty : Option Json → Json
map_or_empty none = obj end
map_or_empty (some j) = j

unfoldable pub reaction_counts_to_bot_api : List (Option ReactionCount) → Items
reaction_counts_to_bot_api [] = done
reaction_counts_to_bot_api (none ∷ rest) = reaction_counts_to_bot_api rest
reaction_counts_to_bot_api (some rc ∷ rest) =
    item
      (object (
        (codes "type", map_or_empty (reaction_map rc.reaction))
        ∷ (codes "total_count", num rc.count)
        ∷ []))
      (reaction_counts_to_bot_api rest)

abbrev pub boost_id : Option Boost → Bytes
boost_id none = []
boost_id (some b) = b.id

abbrev pub boost_add_date : Option Boost → ℤ
boost_add_date none = pos 0
boost_add_date (some b) = b.date

abbrev pub boost_expire_date : Option Boost → ℤ
boost_expire_date none = pos 0
boost_expire_date (some b) = b.expires
