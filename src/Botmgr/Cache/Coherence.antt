-- ===== src/Botmgr/Cache/Coherence.antt =====
-- The caches of internal/botmgr/botmgr.go under concurrent requests. The getters of
-- internal/server/methods_bot_config.go look up, ask Telegram on a miss and put the answer;
-- the setters change what Telegram holds and then invalidate. A step is one of these moves.
use tgbotd.Prelude.{
  ℕ, suc, ◌+◌, ◌^◌, ◌<◌, ◌≤◌, ◌≡◌, refl, sym, ap, ◌∙◌, List, [], ◌∷◌, ◌++◌, Option, none, some,
  ◌==◌, if◌then◌else◌, All, All-append, All-split, arith, Bool-cases, inl, inr, subst, ◌⊎◌,
}
use tgbotd.Prelude.Bytes.{Bytes, bytes_eq, bytes_eq→eq}
use tgbotd.Prelude.Maps.{lookup, lookup-insert}
use tgbotd.Botmgr.Cache.{Cache, cache_get, cache_put, cache_invalidate}

-- A getter between its lookup and its put: the key, the generation it saw, and Telegram's answer.
pub record Fetch (V : Type 0) : Type 0 where
  pub key : Bytes
  pub gen : ℕ
  pub answer : Option V

-- `held` is what Telegram holds, and `mutating` counts the setters between their call of Telegram and
-- their invalidation.
pub record System (V : Type 0) : Type 0 where
  pub held : Bytes → V
  pub cache : Cache V
  pub mutating : ℕ
  pub fetching : List (Fetch V)

module _ {V : Type 0} where
  pub data Step (s : System V) : System V → Type 0 where
    misses :
        (key : Bytes) (g : ℕ)
        → cache_get key s.cache ≡ (none, g)
        → Step s (record s { fetching = record { key = key; gen = g; answer = none } ∷ s.fetching })
    answers :
        (before after : List (Fetch V)) (f : Fetch V)
        → s.fetching ≡ before ++ f ∷ after
        → Step s
            (record s { fetching = before ++ record f { answer = some (s.held f.key) } ∷ after })
    puts :
        (before after : List (Fetch V)) (f : Fetch V) (v : V)
        → s.fetching ≡ before ++ f ∷ after
        → f.answer ≡ some v
        → Step s (record s { fetching = before ++ after; cache = cache_put f.key f.gen v s.cache })
    fails :
        (before after : List (Fetch V)) (f : Fetch V)
        → s.fetching ≡ before ++ f ∷ after
        → Step s (record s { fetching = before ++ after })
    mutates : (held : Bytes → V) → Step s (record s { held = held; mutating = suc s.mutating })
    invalidates :
        (n : ℕ)
        → s.mutating ≡ suc n
        → s.cache.gen + 1 < 2 ^ 64
        → Step s (record s { mutating = n; cache = cache_invalidate s.cache })

  pub data Reach (s : System V) : System V → Type 0 where
    here : Reach s s
    next : {t u : System V} → Reach s t → Step t u → Reach s u

  abbrev pub IsFresh : (Bytes → V) → ℕ → Fetch V → Type 0
  IsFresh held g f = f.gen ≡ g → (f.answer ≡ none) ⊎ (f.answer ≡ some (held f.key))

  -- What is cached is what Telegram holds.
  abbrev pub IsCoherent : (Bytes → V) → Cache V → Type 0
  IsCoherent held c = (key : Bytes) (v : V) → lookup key c.entries ≡ some v → v ≡ held key

  pub record Inv (s : System V) : Type 0 where
    pub seen : All (λ f. f.gen ≤ s.cache.gen) s.fetching
    pub coherent : s.mutating ≡ 0 → IsCoherent s.held s.cache
    pub fresh : s.mutating ≡ 0 → All (IsFresh s.held s.cache.gen) s.fetching

  put-IsCoherent :
      (held : Bytes → V) (c : Cache V) (key : Bytes) (g : ℕ) (v : V)
      → (c.gen ≡ g → v ≡ held key)
      → IsCoherent held c
      → IsCoherent held (cache_put key g v c)
  unfolding cache_put
  put-IsCoherent held c key g v fresh h key' v' e = elim (Bool-cases (c.gen == g)) [
    | inl now ↦
        let e' : (if bytes_eq key key' then some v else lookup key' c.entries) ≡ some v' =
          sym (lookup-insert key key' v c.entries) ∙ (rw (now, cache_put) at e) in
        elim (Bool-cases (bytes_eq key key')) [
          | inl hit ↦
              let same : v ≡ held key = fresh (ground arith) in
              let taken : v ≡ v' = ground arith in
              subst (λ k. v' ≡ held k) (bytes_eq→eq key key' hit) (cc)
          | inr miss ↦ h key' v' (rw miss at e')
        ]
    | inr old ↦ h key' v' (rw (old, cache_put) at e)
  ]

  -- A getter that changes in place, and one that leaves.
  changed :
      (P : Fetch V → Type 0) (xs before after : List (Fetch V)) (f g : Fetch V)
      → xs ≡ before ++ f ∷ after
      → All P xs
      → P g
      → All P (before ++ g ∷ after)
  changed P xs before after f g e h pg =
      let (hb, hf) = All-split P before (f ∷ after) (subst (All P) e h) in
      All-append P before (g ∷ after) hb (pg, hf.1)

  left :
      (P : Fetch V → Type 0) (xs before after : List (Fetch V)) (f : Fetch V)
      → xs ≡ before ++ f ∷ after
      → All P xs
      → All P (before ++ after)
  left P xs before after f e h =
      let (hb, hf) = All-split P before (f ∷ after) (subst (All P) e h) in
      All-append P before after hb hf.1

  picked :
      (P : Fetch V → Type 0) (xs before after : List (Fetch V)) (f : Fetch V)
      → xs ≡ before ++ f ∷ after
      → All P xs
      → P f
  picked P xs before after f e h = (All-split P before (f ∷ after) (subst (All P) e h)).1.0

  gen-put : (key : Bytes) (g : ℕ) (v : V) (c : Cache V) → (cache_put key g v c).gen ≡ c.gen
  unfolding cache_put
  gen-put key g v c = ground arith

  older :
      (g n : ℕ) (xs : List (Fetch V))
      → All (λ f. f.gen ≤ g) xs
      → n ≡ suc g
      → All (λ f. f.gen ≤ n) xs
  older g n [] h e = tt
  older g n (f ∷ xs) h e = (omega arith, older g n xs h.1 e)

  outdated :
      (held : Bytes → V) (g n : ℕ) (xs : List (Fetch V))
      → All (λ f. f.gen ≤ g) xs
      → n ≡ suc g
      → All (IsFresh held n) xs
  outdated held g n [] h e = tt
  outdated held g n (f ∷ xs) h e = (λ same. absurd (omega arith), outdated held g n xs h.1 e)

  gen-invalidate : (c : Cache V) → c.gen + 1 < 2 ^ 64 → (cache_invalidate c).gen ≡ suc c.gen
  unfolding cache_invalidate
  gen-invalidate c h = omega arith

  gen_seen : (key : Bytes) (c : Cache V) (g : ℕ) → cache_get key c ≡ (none, g) → g ≡ c.gen
  unfolding cache_get
  gen_seen key c g e = sym (ap (λ p. p.1) e)

  emptied :
      (key : Bytes) (w : V) (c : Cache V) → lookup key (cache_invalidate c).entries ≡ some w → ⊥
  unfolding cache_invalidate lookup
  emptied key w c h = cc

  fresh_answer :
      (held : Bytes → V) (g : ℕ) (f : Fetch V) (a : V)
      → f.answer ≡ some a
      → g ≡ f.gen
      → IsFresh held g f
      → a ≡ held f.key
  fresh_answer held g f a e now fresh = elim (fresh (sym now)) [
    | inl never ↦ absurd (cc)
    | inr same ↦ cc
  ]

  pub Step-Inv : {s t : System V} → Step s t → Inv s → Inv t
  Step-Inv {s} (misses key g e) v =
      let same = gen_seen key s.cache g e in
      record {
        seen = (omega arith, v.seen);
        coherent = v.coherent;
        fresh = λ quiet. (λ _. inl refl, v.fresh quiet);
      }
  Step-Inv {s} (answers before after f e) v = record {
    seen =
        changed (λ f. f.gen ≤ s.cache.gen) s.fetching before after f
          (record f { answer = some (s.held f.key) }) e v.seen
          (picked (λ f. f.gen ≤ s.cache.gen) s.fetching before after f e v.seen);
    coherent = v.coherent;
    fresh = λ quiet.
        changed (IsFresh s.held s.cache.gen) s.fetching before after f
          (record f { answer = some (s.held f.key) }) e (v.fresh quiet) (λ _. inr refl);
  }
  Step-Inv {s} (puts before after f a e e') v =
      let kept = sym (gen-put f.key f.gen a s.cache) in
      record {
        seen =
            subst (λ g. All (λ f. f.gen ≤ g) (before ++ after)) kept
              (left (λ f. f.gen ≤ s.cache.gen) s.fetching before after f e v.seen);
        coherent = λ quiet.
            put-IsCoherent s.held s.cache f.key f.gen a
              (λ now.
                fresh_answer s.held s.cache.gen f a e' now
                  (picked (IsFresh s.held s.cache.gen) s.fetching before after f e (v.fresh quiet)))
              (v.coherent quiet);
        fresh = λ quiet.
            subst (λ g. All (IsFresh s.held g) (before ++ after)) kept
              (left (IsFresh s.held s.cache.gen) s.fetching before after f e (v.fresh quiet));
      }
  Step-Inv {s} (fails before after f e) v = record {
    seen = left (λ f. f.gen ≤ s.cache.gen) s.fetching before after f e v.seen;
    coherent = v.coherent;
    fresh = λ quiet. left (IsFresh s.held s.cache.gen) s.fetching before after f e (v.fresh quiet);
  }
  Step-Inv {s} (mutates held) v = record {
    seen = v.seen;
    coherent = λ quiet. absurd (omega arith);
    fresh = λ quiet. absurd (omega arith);
  }
  Step-Inv {s} (invalidates n e small) v =
      let newer = gen-invalidate s.cache small in
      record {
        seen = older s.cache.gen (cache_invalidate s.cache).gen s.fetching v.seen newer;
        coherent = λ quiet key w h. absurd (emptied key w s.cache h);
        fresh = λ quiet.
            outdated s.held s.cache.gen (cache_invalidate s.cache).gen s.fetching v.seen newer;
      }

  -- At the start nothing is cached and nobody is at work.
  abbrev pub idle_system : (Bytes → V) → System V
  idle_system held = record {
    held = held;
    cache = record { entries = []; gen = 0 };
    mutating = 0;
    fetching = [];
  }

  idle_system-Inv : (held : Bytes → V) → Inv (idle_system held)
  unfolding lookup
  idle_system-Inv held = record { seen = tt; coherent = λ _ key v h. absurd (cc); fresh = λ _. tt }

  Reach-Inv : {s t : System V} → Reach s t → Inv s → Inv t
  Reach-Inv here v = v
  Reach-Inv (next r st) v = Step-Inv st (Reach-Inv r v)

  -- However lookups, answers, puts and mutations interleave, while the generation does not
  -- wrap around, whenever no setter stands between its call of Telegram and its invalidation,
  -- each cached entry is what Telegram holds under its key.
  pub cache_coherence :
      (held : Bytes → V) (s : System V)
      → Reach (idle_system held) s
      → s.mutating ≡ 0
      → (key : Bytes) (v : V) (g : ℕ) → cache_get key s.cache ≡ (some v, g)
      → v ≡ s.held key
  unfolding cache_get
  cache_coherence held s r quiet key v g e =
      (Reach-Inv r (idle_system-Inv held)).coherent quiet key v (ap (λ p. p.0) e)
