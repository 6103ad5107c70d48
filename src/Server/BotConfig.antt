-- ===== src/Server/BotConfig.antt =====
-- The handlers of internal/server/methods_bot_config.go that use a bot's caches: the commands, and the name and
-- descriptions. A call of Telegram is a function of its arguments, and its error the one that `MapRPCError` makes.
-- A handler runs alone here; the caches of Botmgr/Cache are met by many at once in Botmgr/Cache/Coherence.
pub mod Laws
pub mod Tests
use tgbotd.Prelude.{ℕ, List, [], ◌∷◌, ◌++◌, Option, none, some, Bool, true, false, if◌then◌else◌}
use tgbotd.Prelude.Bytes.{Bytes, codes, bytes_eq}
use tgbotd.Prelude.Int.{ℤ}
use tgbotd.Prelude.Decimal.{format_int}
use tgbotd.Botapi.{Result, ok, err, Error, api, err_bad_request, ◌>>=◌}
use tgbotd.Botmgr.Cache.{BotInfoEntry, Cache, cache_get, cache_put, cache_invalidate}

-- The parameter `scope`: not there, no object of that form, or its three fields, the chat's id as raw JSON.
pub data ScopeParam : Type 0 where
  no_scope : ScopeParam
  bad_scope : ScopeParam
  scope : (type chat_id : Bytes) → ℤ → ScopeParam

unfoldable pub command_cache_key : ScopeParam → Bytes → Bytes
command_cache_key no_scope lang = codes "d|" ++ lang
command_cache_key bad_scope lang = codes "err|" ++ lang
command_cache_key (scope type chat_id user_id) lang =
    if bytes_eq type []
    then codes "d|" ++ lang
    else if bytes_eq type (codes "default")
    then codes "d|" ++ lang
    else if bytes_eq type (codes "all_private_chats")
    then codes "apc|" ++ lang
    else if bytes_eq type (codes "all_group_chats")
    then codes "agc|" ++ lang
    else if bytes_eq type (codes "all_chat_administrators")
    then codes "aca|" ++ lang
    else if bytes_eq type (codes "chat")
    then codes "c:" ++ (chat_id ++ (codes "|" ++ lang))
    else if bytes_eq type (codes "chat_administrators")
    then codes "cadm:" ++ (chat_id ++ (codes "|" ++ lang))
    else if bytes_eq type (codes "chat_member")
    then codes "cm:" ++ (chat_id ++ (codes ":" ++ (format_int user_id ++ (codes "|" ++ lang))))
    else codes "u:" ++ (type ++ (codes "|" ++ lang))

-- A peer of the library is `P`; one that is a user has an id and an access hash.
pub data CommandScope (P : Type 0) : Type 0 where
  scope_default scope_users scope_chats scope_chat_admins : CommandScope P
  scope_peer : P → CommandScope P
  scope_peer_admins : P → CommandScope P
  scope_peer_user : P → (user_id access_hash : ℤ) → CommandScope P

-- A text that is not given is the English one.
abbrev pub or_en : Bytes → Bytes
or_en [] = codes "en"
or_en (c ∷ s) = c ∷ s

-- A setter that Telegram accepts empties the cache.
abbrev pub after_set : {V : Type 0} → Result Bool → Cache V → Cache V × Result Bool
after_set (err e) c = (c, err e)
after_set (ok b) c = (cache_invalidate c, ok true)

-- `resolve` and `resolve_user` are `ResolvePeer`, and `as_user` is the test for an `InputPeerUser`.
module _ {P : Type 0} (resolve : Bytes → Result P) (resolve_user : ℤ → Result P)
    (as_user : P → Option (ℤ × ℤ)) where
  abbrev pub peer_user_scope : P → Option (ℤ × ℤ) → Result (CommandScope P)
  peer_user_scope peer none = err (api (err_bad_request (codes "user_id must resolve to a user")))
  peer_user_scope peer (some (id, hash)) = ok (scope_peer_user peer id hash)

  unfoldable pub parse_command_scope : ScopeParam → Result (CommandScope P)
  parse_command_scope no_scope = ok scope_default
  parse_command_scope bad_scope = err (api (err_bad_request (codes "bad scope object")))
  parse_command_scope (scope type chat_id user_id) =
      if bytes_eq type []
      then ok scope_default
      else if bytes_eq type (codes "default")
      then ok scope_default
      else if bytes_eq type (codes "all_private_chats")
      then ok scope_users
      else if bytes_eq type (codes "all_group_chats")
      then ok scope_chats
      else if bytes_eq type (codes "all_chat_administrators")
      then ok scope_chat_admins
      else if bytes_eq type (codes "chat")
      then (resolve chat_id >>= λ peer. ok (scope_peer peer))
      else if bytes_eq type (codes "chat_administrators")
      then (resolve chat_id >>= λ peer. ok (scope_peer_admins peer))
      else if bytes_eq type (codes "chat_member")
      then (resolve chat_id >>= λ peer.
          resolve_user user_id >>= λ user. peer_user_scope peer (as_user user))
      else err (api (err_bad_request (codes "unknown scope type: " ++ type)))

  -- `set_commands` is `BotsSetBotCommands`; `commands` is none where the parameter is not there, and an error
  -- where it is no array.
  module _ {K : Type 0} (set_commands : CommandScope P → Bytes → List K → Result Bool) where
    unfoldable pub store_commands :
        ScopeParam → Bytes → List K → Cache Bytes → Cache Bytes × Result Bool
    store_commands sp lang cmds c =
        after_set (parse_command_scope sp >>= λ s. set_commands s (or_en lang) cmds) c

    unfoldable pub set_my_commands :
        Option (Option (List K)) → ScopeParam → Bytes → Cache Bytes → Cache Bytes × Result Bool
    set_my_commands none sp lang c =
        (c, err (api (err_bad_request (codes "field \"commands\" is required"))))
    set_my_commands (some none) sp lang c =
        (c, err (api (err_bad_request (codes "commands must be an array"))))
    set_my_commands (some (some cmds)) sp lang c = store_commands sp lang cmds c

    unfoldable pub delete_my_commands : ScopeParam → Bytes → Cache Bytes → Cache Bytes × Result Bool
    delete_my_commands sp lang c = store_commands sp lang [] c

  -- `get_commands` is `BotsGetBotCommands`.
  unfoldable pub fetch_commands :
      {K : Type 0}
      → (CommandScope P → Bytes → Result (List K))
      → ScopeParam
      → Bytes
      → Result (List K)
  fetch_commands get_commands sp lang = parse_command_scope sp >>= λ s. get_commands s lang

-- An answer: encoded bytes from the cache, or the commands.
pub data Commands (K : Type 0) : Type 0 where
  cached : Bytes → Commands K
  fetched : List K → Commands K

abbrev pub envelope_of : Bytes → Bytes
envelope_of enc = codes "{\"ok\":true,\"result\":" ++ (enc ++ codes "}")

-- `encode` is `json.Marshal`, and `fetch` is `fetch_commands`.
module _ {K : Type 0} (encode : List K → Option Bytes) where
  abbrev pub cache_commands : Bytes → ℕ → Option Bytes → Cache Bytes → Cache Bytes
  cache_commands key gen none c = c
  cache_commands key gen (some enc) c = cache_put key gen (envelope_of enc) c

  abbrev pub after_fetch :
      Bytes → ℕ → Result (List K) → Cache Bytes → Cache Bytes × Result (Commands K)
  after_fetch key gen (err e) c = (c, err e)
  after_fetch key gen (ok cmds) c = (cache_commands key gen (encode cmds) c, ok (fetched cmds))

  abbrev pub from_cache :
      Bytes → Option Bytes × ℕ → Result (List K) → Cache Bytes → Cache Bytes × Result (Commands K)
  from_cache key (some buf, gen) answer c = (c, ok (cached buf))
  from_cache key (none, gen) answer c = after_fetch key gen answer c

  unfoldable pub get_my_commands :
      (ScopeParam → Bytes → Result (List K))
      → ScopeParam
      → Bytes
      → Cache Bytes
      → Cache Bytes × Result (Commands K)
  get_my_commands fetch sp lang c =
      let key = command_cache_key sp (or_en lang) in
      from_cache key (cache_get key c) (fetch sp (or_en lang)) c

pub data InfoField : Type 0 where
  field_name field_description field_short_description : InfoField

abbrev pub field_of : InfoField → BotInfoEntry → Bytes
field_of field_name e = e.name
field_of field_description e = e.description
field_of field_short_description e = e.short_description

-- `set_info` is `BotsSetBotInfo` with the one field.
unfoldable pub set_bot_info_field :
    (Bytes → InfoField → Bytes → Result Bool)
    → InfoField
    → (lang val : Bytes) → Cache BotInfoEntry
    → Cache BotInfoEntry × Result Bool
set_bot_info_field set_info field lang val c = after_set (set_info lang field val) c

abbrev pub after_info :
    InfoField
    → Bytes
    → ℕ
    → Result BotInfoEntry
    → Cache BotInfoEntry
    → Cache BotInfoEntry × Result Bytes
after_info field lang gen (err e) c = (c, err e)
after_info field lang gen (ok entry) c = (cache_put lang gen entry c, ok (field_of field entry))

abbrev pub info_from_cache :
    InfoField
    → Bytes
    → Option BotInfoEntry × ℕ
    → Result BotInfoEntry
    → Cache BotInfoEntry
    → Cache BotInfoEntry × Result Bytes
info_from_cache field lang (some entry, gen) answer c = (c, ok (field_of field entry))
info_from_cache field lang (none, gen) answer c = after_info field lang gen answer c

-- `get_info` is `BotsGetBotInfo`.
unfoldable pub get_bot_info_field :
    (Bytes → Result BotInfoEntry)
    → InfoField
    → Bytes
    → Cache BotInfoEntry
    → Cache BotInfoEntry × Result Bytes
get_bot_info_field get_info field lang c =
    info_from_cache field lang (cache_get lang c) (get_info lang) c
