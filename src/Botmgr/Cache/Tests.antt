-- ===== src/Botmgr/Cache/Tests.antt =====
-- A getter whose answer is overtaken by a setter does not leave its old answer in the cache.
use tgbotd.Prelude.{ℕ, ◌≡◌, refl, [], ◌∷◌, none, some, arith}
use tgbotd.Prelude.Bytes.{Bytes, codes, bytes_eq}
use tgbotd.Prelude.Maps.{lookup, insert}
use tgbotd.Botmgr.Cache.{cache_get, cache_put, cache_invalidate}
use tgbotd.Botmgr.Cache.Coherence.{
  Fetch, System, misses, answers, puts, mutates, invalidates, Reach, here, next, idle_system,
  cache_coherence,
}

abbrev held_old : Bytes → ℕ
held_old k = 1

abbrev held_new : Bytes → ℕ
held_new k = 2

abbrev en : Bytes
en = codes "en"

abbrev asked : Fetch ℕ
asked = record { key = en; gen = 0; answer = none }

abbrev answered : Fetch ℕ
answered = record { key = en; gen = 0; answer = some 1 }

abbrev asked_again : Fetch ℕ
asked_again = record { key = en; gen = 1; answer = none }

abbrev answered_again : Fetch ℕ
answered_again = record { key = en; gen = 1; answer = some 2 }

abbrev settled_system : System ℕ
settled_system = record {
  held = held_new;
  cache = record { entries = (en, 2) ∷ []; gen = 1 };
  mutating = 0;
  fetching = [];
}

overtaken : Reach (idle_system held_old) settled_system
unfolding cache_get cache_put cache_invalidate lookup insert
overtaken =
    next
      (next
        (next
          (next
            (next
              (next (next (next here (misses en 0 refl)) (answers [] [] asked refl))
                (mutates held_new))
              (invalidates 0 refl (omega arith)))
            (puts [] [] answered 1 refl refl))
          (misses en 1 refl))
        (answers [] [] asked_again refl))
      (puts [] [] answered_again 2 refl refl)

cached_en : cache_get en settled_system.cache ≡ (some 2, 1)
unfolding cache_get lookup bytes_eq
cached_en = refl

cache_coherence_example : 2 ≡ settled_system.held en
cache_coherence_example = cache_coherence held_old settled_system overtaken refl en 2 1 cached_en
