-- ===== src/Server/BotConfig/Tests.antt =====
-- A cold cache that one answer of Telegram fills.
use tgbotd.Prelude.{ℕ, ◌≡◌, refl, List, [], ◌∷◌, Option, none, some}
use tgbotd.Prelude.Bytes.{Bytes, codes, bytes_eq}
use tgbotd.Prelude.Int.{pos}
use tgbotd.Prelude.Decimal.{format_int, digits, digits_fuel}
use tgbotd.Prelude.Maps.{lookup}
use tgbotd.Botapi.{Result, ok, err, api, err_not_found}
use tgbotd.Botmgr.Cache.{BotInfoEntry, Cache, cache_get}
use tgbotd.Server.BotConfig.{ScopeParam, no_scope, scope, command_cache_key, or_en}

abbrev cold : {V : Type 0} → Cache V
cold = record { entries = []; gen = 0 }

member_key :
    command_cache_key (scope (codes "chat_member") (codes "5") (pos 7)) (codes "en")
    ≡ codes "cm:5:7|en"
unfolding command_cache_key bytes_eq format_int digits digits_fuel
member_key = refl

abbrev one_command : ScopeParam → Bytes → Result (List ℕ)
one_command sp lang = ok (1 ∷ [])

abbrev down : ScopeParam → Bytes → Result (List ℕ)
down sp lang = err (api err_not_found)

abbrev brackets : List ℕ → Option Bytes
brackets ks = some (codes "[]")

cold_commands : (cache_get {V = Bytes} (command_cache_key no_scope (or_en [])) cold).0 ≡ none
unfolding cache_get lookup
cold_commands = refl

abbrev about : BotInfoEntry
about = record { name = codes "n"; description = codes "d"; short_description = codes "s" }

abbrev info_up : Bytes → Result BotInfoEntry
info_up lang = ok about

abbrev info_down : Bytes → Result BotInfoEntry
info_down lang = err (api err_not_found)

cold_info : (cache_get {V = BotInfoEntry} (codes "en") cold).0 ≡ none
unfolding cache_get lookup
cold_info = refl
