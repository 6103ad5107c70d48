-- ===== src/Tlate/Entities/Laws.antt =====
-- Nothing of an entity that `EntitiesToBotAPI` (internal/tlate/tlate.go) knows is lost.
use tgbotd.Prelude.{
  ◌≡◌, refl, ap, List, [], ◌∷◌, Option, none, some, true, false, if◌then◌else◌, All,
}
use tgbotd.Prelude.Bytes.{Bytes, codes, bytes_eq}
use tgbotd.Prelude.Int.{ℤ, pos, IsInt64}
use tgbotd.Prelude.Decimal.{parse_int, parse_int-format_int}
use tgbotd.Botapi.Types.{MessageEntity, User}
use tgbotd.Tlate.Telegram.{
  Entity, entity_mention, entity_hashtag, entity_cashtag, entity_bot_command, entity_url,
  entity_email, entity_bold, entity_italic, entity_code, entity_pre, entity_text_url,
  entity_mention_name, entity_phone, entity_underline, entity_strike, entity_spoiler,
  entity_blockquote, entity_bank_card, entity_custom_emoji, other_entity,
}
use tgbotd.Tlate.Entities.{entity_to_bot_api, entities_to_bot_api}

abbrev pub user_id_of : Option User → ℤ
user_id_of none = pos 0
user_id_of (some u) = u.id

abbrev pub number_of : Option ℤ → ℤ
number_of none = pos 0
number_of (some n) = n

-- The types of entities that hold nothing but their place, and the entity of each.
abbrev pub plain_kinds : List (Bytes × (ℤ → ℤ → Entity))
plain_kinds =
    (codes "mention", entity_mention)
    ∷ (codes "hashtag", entity_hashtag)
    ∷ (codes "cashtag", entity_cashtag)
    ∷ (codes "bot_command", entity_bot_command)
    ∷ (codes "url", entity_url)
    ∷ (codes "email", entity_email)
    ∷ (codes "bold", entity_bold)
    ∷ (codes "italic", entity_italic)
    ∷ (codes "code", entity_code)
    ∷ (codes "phone_number", entity_phone)
    ∷ (codes "underline", entity_underline)
    ∷ (codes "strikethrough", entity_strike)
    ∷ (codes "spoiler", entity_spoiler)
    ∷ (codes "bank_card", entity_bank_card)
    ∷ (codes "blockquote", λ o l. entity_blockquote o l false)
    ∷ (codes "expandable_blockquote", λ o l. entity_blockquote o l true)
    ∷ []

abbrev pub plain_read : List (Bytes × (ℤ → ℤ → Entity)) → MessageEntity → Entity
plain_read [] e = other_entity
plain_read ((kind, f) ∷ rest) e =
    let other = plain_read rest e in if bytes_eq e.type kind then f e.offset e.length else other

-- The entity of MTProto that one of the Bot API stands for.
abbrev pub read_entity : MessageEntity → Entity
read_entity e =
    if bytes_eq e.type (codes "pre")
    then entity_pre e.offset e.length e.language
    else if bytes_eq e.type (codes "text_link")
    then entity_text_url e.offset e.length e.url
    else if bytes_eq e.type (codes "text_mention")
    then entity_mention_name e.offset e.length (user_id_of e.user)
    else if bytes_eq e.type (codes "custom_emoji")
    then entity_custom_emoji e.offset e.length (number_of (parse_int e.custom_emoji_id))
    else plain_read plain_kinds e

-- The id of a custom emoji is an `int64`.
abbrev pub IsEntity : Entity → Type 0
IsEntity (entity_custom_emoji o l id) = IsInt64 id
IsEntity _ = Unit

-- The entities of a type that is known.
abbrev pub known : List Entity → List Entity
known [] = []
known (other_entity ∷ es) = known es
known (e ∷ es) = e ∷ known es

abbrev pub read_entities : List MessageEntity → List Entity
read_entities [] = []
read_entities (e ∷ es) = read_entity e ∷ read_entities es

-- A reader of the translated entities finds those that were translated, in their order, each at its
-- place and with what it holds; only those of unknown types are missing. The ids of custom emoji are in
-- the range of an `int64`.
pub read_entities-entities_to_bot_api :
    (es : List Entity) → All IsEntity es → read_entities (entities_to_bot_api es) ≡ known es
unfolding entities_to_bot_api entity_to_bot_api bytes_eq
read_entities-entities_to_bot_api [] h = refl
read_entities-entities_to_bot_api (entity_mention o l ∷ es) h =
    ap (λ r. entity_mention o l ∷ r) (read_entities-entities_to_bot_api es h.1)
read_entities-entities_to_bot_api (entity_hashtag o l ∷ es) h =
    ap (λ r. entity_hashtag o l ∷ r) (read_entities-entities_to_bot_api es h.1)
read_entities-entities_to_bot_api (entity_cashtag o l ∷ es) h =
    ap (λ r. entity_cashtag o l ∷ r) (read_entities-entities_to_bot_api es h.1)
read_entities-entities_to_bot_api (entity_bot_command o l ∷ es) h =
    ap (λ r. entity_bot_command o l ∷ r) (read_entities-entities_to_bot_api es h.1)
read_entities-entities_to_bot_api (entity_url o l ∷ es) h =
    ap (λ r. entity_url o l ∷ r) (read_entities-entities_to_bot_api es h.1)
read_entities-entities_to_bot_api (entity_email o l ∷ es) h =
    ap (λ r. entity_email o l ∷ r) (read_entities-entities_to_bot_api es h.1)
read_entities-entities_to_bot_api (entity_bold o l ∷ es) h =
    ap (λ r. entity_bold o l ∷ r) (read_entities-entities_to_bot_api es h.1)
read_entities-entities_to_bot_api (entity_italic o l ∷ es) h =
    ap (λ r. entity_italic o l ∷ r) (read_entities-entities_to_bot_api es h.1)
read_entities-entities_to_bot_api (entity_code o l ∷ es) h =
    ap (λ r. entity_code o l ∷ r) (read_entities-entities_to_bot_api es h.1)
read_entities-entities_to_bot_api (entity_phone o l ∷ es) h =
    ap (λ r. entity_phone o l ∷ r) (read_entities-entities_to_bot_api es h.1)
read_entities-entities_to_bot_api (entity_underline o l ∷ es) h =
    ap (λ r. entity_underline o l ∷ r) (read_entities-entities_to_bot_api es h.1)
read_entities-entities_to_bot_api (entity_strike o l ∷ es) h =
    ap (λ r. entity_strike o l ∷ r) (read_entities-entities_to_bot_api es h.1)
read_entities-entities_to_bot_api (entity_spoiler o l ∷ es) h =
    ap (λ r. entity_spoiler o l ∷ r) (read_entities-entities_to_bot_api es h.1)
read_entities-entities_to_bot_api (entity_bank_card o l ∷ es) h =
    ap (λ r. entity_bank_card o l ∷ r) (read_entities-entities_to_bot_api es h.1)
read_entities-entities_to_bot_api (entity_pre o l language ∷ es) h =
    ap (λ r. entity_pre o l language ∷ r) (read_entities-entities_to_bot_api es h.1)
read_entities-entities_to_bot_api (entity_text_url o l url ∷ es) h =
    ap (λ r. entity_text_url o l url ∷ r) (read_entities-entities_to_bot_api es h.1)
read_entities-entities_to_bot_api (entity_mention_name o l id ∷ es) h =
    ap (λ r. entity_mention_name o l id ∷ r) (read_entities-entities_to_bot_api es h.1)
read_entities-entities_to_bot_api (entity_blockquote o l true ∷ es) h =
    ap (λ r. entity_blockquote o l true ∷ r) (read_entities-entities_to_bot_api es h.1)
read_entities-entities_to_bot_api (entity_blockquote o l false ∷ es) h =
    ap (λ r. entity_blockquote o l false ∷ r) (read_entities-entities_to_bot_api es h.1)
read_entities-entities_to_bot_api (entity_custom_emoji o l id ∷ es) h =
    rw (parse_int-format_int id h.0)
      (ap (λ r. entity_custom_emoji o l id ∷ r) (read_entities-entities_to_bot_api es h.1))
read_entities-entities_to_bot_api (other_entity ∷ es) h = read_entities-entities_to_bot_api es h.1
