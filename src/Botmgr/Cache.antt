-- ===== src/Botmgr/Cache.antt =====
-- The generation-guarded caches of internal/botmgr/botmgr.go: `CommandCacheGet`, `-Put`, `-Invalidate`
-- and their `BotInfo` twins, which are the same code at another type of entry, `V` here.
-- A map is a list of its entries, and a nil map is the empty one.
pub mod Coherence
pub mod Tests
use tgbotd.Prelude.{ℕ, ◌+◌, ◌%◌, ◌^◌, List, [], ◌∷◌, Option, none, some, ◌==◌, if◌then◌else◌}
use tgbotd.Prelude.Bytes.{Bytes}
use tgbotd.Prelude.Maps.{lookup, insert}

pub record BotInfoEntry : Type 0 where
  pub name : Bytes
  pub description : Bytes
  pub short_description : Bytes

pub record Cache (V : Type 0) : Type 0 where
  pub entries : List (Bytes × V)
  pub gen : ℕ

module _ {V : Type 0} where
  -- The entry under `key`, and the generation that a later put has to show.
  unfoldable pub cache_get : Bytes → Cache V → Option V × ℕ
  unfolding lookup
  cache_get key c = (lookup key c.entries, c.gen)

  -- A put under an old generation is dropped.
  unfoldable pub cache_put : Bytes → ℕ → V → Cache V → Cache V
  unfolding insert
  cache_put key gen payload c =
      if c.gen == gen then record c { entries = insert key payload c.entries } else c

  unfoldable pub cache_invalidate : Cache V → Cache V
  cache_invalidate c = record { entries = []; gen = (c.gen + 1) % 2 ^ 64 }
