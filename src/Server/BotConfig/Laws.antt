-- ===== src/Server/BotConfig/Laws.antt =====
-- One call of Telegram serves the getters of internal/server/methods_bot_config.go until a setter comes.
use tgbotd.Prelude.{◌≡◌, refl, ◌∙◌, List, Option, none, some, true, ◌==◌, arith}
use tgbotd.Prelude.Bytes.{Bytes, bytes_eq_refl}
use tgbotd.Prelude.Maps.{lookup-insert}
use tgbotd.Botapi.{Result, ok}
use tgbotd.Botmgr.Cache.{BotInfoEntry, Cache, cache_get, cache_put}
use tgbotd.Server.BotConfig.{
  ScopeParam, command_cache_key, or_en, cached, envelope_of, get_my_commands, InfoField, field_of,
  get_bot_info_field,
}

pair_of : {A B : Type 0} (p : A × B) (a : A) (b : B) → p.0 ≡ a → p.1 ≡ b → p ≡ (a, b)
pair_of p a b e e' = cc

module _ {V : Type 0} where
  -- What a put under the current generation leaves for the next lookup.
  get-put_now :
      (key : Bytes) (v : V) (c : Cache V) → (cache_get key (cache_put key c.gen v c)).0 ≡ some v
  unfolding cache_get cache_put
  get-put_now key v c =
      let now : (c.gen == c.gen) ≡ true = ground arith in
      rw now (lookup-insert key key v c.entries ∙ rw (bytes_eq_refl key))

  cache_get-gen : (key : Bytes) (c : Cache V) → (cache_get key c).1 ≡ c.gen
  unfolding cache_get
  cache_get-gen key c = refl

-- After `getMyCommands` has found nothing cached, asked Telegram and encoded its answer, a
-- second one with the same scope and language is answered with the encoded envelope, whatever
-- Telegram would answer now, and changes nothing.
pub get_my_commands-cached :
    {K : Type 0} (encode : List K → Option Bytes)
    (fetch fetch' : ScopeParam → Bytes → Result (List K)) (sp : ScopeParam) (lang : Bytes)
    (c : Cache Bytes) (cmds : List K) (enc : Bytes)
    → (cache_get (command_cache_key sp (or_en lang)) c).0 ≡ none
    → fetch sp (or_en lang) ≡ ok cmds
    → encode cmds ≡ some enc
    → let c' = (get_my_commands encode fetch sp lang c).0 in
      get_my_commands encode fetch' sp lang c' ≡ (c', ok (cached (envelope_of enc)))
unfolding get_my_commands
get_my_commands-cached encode fetch fetch' sp lang c cmds enc miss asked encoded =
    let key = command_cache_key sp (or_en lang) in
    rw (pair_of (cache_get key c) none c.gen miss (cache_get-gen key c), asked, encoded)
      (rw (
        pair_of (cache_get key (cache_put key c.gen (envelope_of enc) c)) (some (envelope_of enc)) _
          (get-put_now key (envelope_of enc) c) refl))

-- After the getter of one field has found nothing cached for a language and asked Telegram,
-- the getters of all three fields answer their field of that answer for that language,
-- whatever Telegram would answer now, and change nothing.
pub get_bot_info_field-cached :
    (get_info get_info' : Bytes → Result BotInfoEntry) (field field' : InfoField) (lang : Bytes)
    (c : Cache BotInfoEntry) (entry : BotInfoEntry)
    → (cache_get lang c).0 ≡ none
    → get_info lang ≡ ok entry
    → let c' = (get_bot_info_field get_info field lang c).0 in
      get_bot_info_field get_info' field' lang c' ≡ (c', ok (field_of field' entry))
unfolding get_bot_info_field
get_bot_info_field-cached get_info get_info' field field' lang c entry miss asked =
    rw (pair_of (cache_get lang c) none c.gen miss (cache_get-gen lang c), asked)
      (rw (
        pair_of (cache_get lang (cache_put lang c.gen entry c)) (some entry) _
          (get-put_now lang entry c) refl))
