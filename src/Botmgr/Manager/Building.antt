-- ===== src/Botmgr/Manager/Building.antt =====
-- `Manager.Get` builds a bot once.
use tgbotd.Prelude.{
  ℕ, ◌≤◌, ◌≡◌, ◌≢◌, refl, sym, ap, ◌∙◌, subst, List, [], ◌∷◌, ◌++◌, Option, none, some, length, All,
  All-append, All-split, arith, Option-cases, inl, inr, ◌⊎◌,
}
use mathlib.Core.Option.{some-injective}
use tgbotd.Botmgr.Manager.{
  Slot, new_slot, join, enter, give_up, store_bot, GetStep, joins, enters, gives_up, stores,
  GetReach, here, next,
}

removed :
    (P : ℕ → Type 0) (xs before after : List ℕ) (m : ℕ)
    → xs ≡ before ++ m ∷ after
    → All P xs
    → All P (before ++ after)
removed P xs before after m e h =
    let (hb, hf) = All-split P before (m ∷ after) (subst (All P) e h) in
    All-append P before after hb hf.1

picked :
    (P : ℕ → Type 0) (xs before after : List ℕ) (m : ℕ) → xs ≡ before ++ m ∷ after → All P xs → P m
picked P xs before after m e h = (All-split P before (m ∷ after) (subst (All P) e h)).1.0

only_one :
    (xs before after : List ℕ) (m : ℕ)
    → xs ≡ before ++ m ∷ after
    → length xs ≤ 1
    → before ++ after ≡ []
only_one xs [] [] m e h = refl
only_one xs [] (y ∷ after) m e h = absurd (omega (arith, ap length e))
only_one xs (x ∷ []) after m e h = absurd (omega (arith, ap length e))
only_one xs (x ∷ y ∷ before) after m e h = absurd (omega (arith, ap length e))

not_nil : (xs before after : List ℕ) (m : ℕ) → xs ≡ before ++ m ∷ after → xs ≢ []
not_nil xs [] after m e h = cc
not_nil xs (x ∷ before) after m e h = cc

-- Nobody builds, where the holder of `m` would be one of those who build.
nobody :
    (init : Option ℕ) (m : ℕ) (xs : List ℕ)
    → init ≡ some m
    → All (λ k. init ≡ some k) xs
    → All (λ k. k ≢ m) xs
    → xs ≡ []
nobody init m [] e h ne = refl
nobody init m (k ∷ xs) e h ne = absurd (ne.0 (some-injective _ _ (sym h.0 ∙ e)))

-- Nobody holds on to a mutex that is not there.
none_held : (init : Option ℕ) (xs : List ℕ) → init ≡ none → All (λ k. init ≡ some k) xs → xs ≡ []
none_held init [] e h = refl
none_held init (k ∷ xs) e h = absurd (cc)

no_length : (xs : List ℕ) → xs ≡ [] → length xs ≤ 0
no_length xs e = rw e (omega arith)

module _ {B : Type 0} where
  -- All who wait or build hold on to the mutex of `init`, and at most one builds.
  pub record IsOpen (s : Slot B) : Type 0 where
    pub missing : s.bot ≡ none
    pub waits : All (λ m. s.init ≡ some m) s.waiting
    pub builds : All (λ m. s.init ≡ some m) s.building
    pub alone : length s.building ≤ 1

  -- The bot is there, and nobody builds.
  pub record IsBuilt (s : Slot B) : Type 0 where
    pub found : s.bot ≢ none
    pub idle : s.building ≡ []

  join-IsOpen : (s : Slot B) → IsOpen s → IsOpen (join s)
  unfolding join
  join-IsOpen s v = elim (Option-cases s.init) [
    | inl e ↦
        let none_waits = none_held s.init s.waiting e v.waits in
        let none_builds = none_held s.init s.building e v.builds in
        rw (e, join)
          (record {
            missing = v.missing;
            waits = (refl, rw none_waits tt);
            builds = rw none_builds tt;
            alone = v.alone;
          })
    | inr (m, e) ↦
        rw (e, join)
          (record { missing = v.missing; waits = (e, v.waits); builds = v.builds; alone = v.alone })
  ]

  enter-IsOpen :
      (s : Slot B) (before after : List ℕ) (m : ℕ)
      → s.waiting ≡ before ++ m ∷ after
      → All (λ k. k ≢ m) s.building
      → IsOpen s
      → IsOpen (enter m (before ++ after) s)
  unfolding enter
  enter-IsOpen s before after m e free v =
      let holds = picked (λ k. s.init ≡ some k) s.waiting before after m e v.waits in
      let idle = nobody s.init m s.building holds v.builds free in
      rw (v.missing, enter)
        (record {
          missing = v.missing;
          waits = removed (λ k. s.init ≡ some k) s.waiting before after m e v.waits;
          builds = (holds, v.builds);
          alone = omega (arith, no_length s.building idle);
        })

  enter-IsBuilt : (s : Slot B) (m : ℕ) (others : List ℕ) → IsBuilt s → IsBuilt (enter m others s)
  unfolding enter
  enter-IsBuilt s m others v = elim (Option-cases s.bot) [
    | inl e ↦ absurd (v.found e)
    | inr (b, e) ↦ rw (e, enter) (record { found = v.found; idle = v.idle })
  ]

  some≢none : (b : B) → some b ≢ none
  some≢none b h = cc

  GetStep-safe : {s t : Slot B} → GetStep s t → IsOpen s ⊎ IsBuilt s → IsOpen t ⊎ IsBuilt t
  unfolding give_up store_bot
  GetStep-safe {s} (joins e) (inl v) = inl (join-IsOpen s v)
  GetStep-safe {s} (joins e) (inr v) = absurd (v.found e)
  GetStep-safe {s} (enters before after m e free) (inl v) =
      inl (enter-IsOpen s before after m e free v)
  GetStep-safe {s} (enters before after m e free) (inr v) =
      inr (enter-IsBuilt s m (before ++ after) v)
  GetStep-safe {s} (gives_up before after m e) (inl v) =
      let idle = only_one s.building before after m e v.alone in
      inl (record {
        missing = v.missing;
        waits = v.waits;
        builds = removed (λ k. s.init ≡ some k) s.building before after m e v.builds;
        alone = omega (arith, no_length (before ++ after) idle);
      })
  GetStep-safe {s} (gives_up before after m e) (inr v) =
      absurd (not_nil s.building before after m e v.idle)
  GetStep-safe {s} (stores before after m b e) (inl v) =
      inr (record { found = some≢none b; idle = only_one s.building before after m e v.alone })
  GetStep-safe {s} (stores before after m b e) (inr v) =
      absurd (not_nil s.building before after m e v.idle)

  GetReach-safe : {s t : Slot B} → GetReach s t → IsOpen s ⊎ IsBuilt s → IsOpen t ⊎ IsBuilt t
  GetReach-safe here v = v
  GetReach-safe (next r st) v = GetStep-safe st (GetReach-safe r v)

  -- However the calls of `Get` for a token interleave, and however often building fails, at most one of them
  -- builds at a time, and none does once the bot is there.
  pub get-builds_once :
      (s : Slot B)
      → GetReach new_slot s
      → (length s.building ≤ 1) × ((s.bot ≡ none) ⊎ (s.building ≡ []))
  get-builds_once s r =
      let start : IsOpen new_slot = record {
        missing = refl;
        waits = tt;
        builds = tt;
        alone = omega arith;
      } in
      elim (GetReach-safe r (inl start)) [
        | inl v ↦ (v.alone, inl v.missing)
        | inr v ↦ (omega (arith, no_length s.building v.idle), inr v.idle)
      ]

  -- A bot that is there stays: no later call replaces it.
  pub get-keeps_bot :
      (s t : Slot B) (b : B) → GetReach new_slot s → s.bot ≡ some b → GetStep s t → t.bot ≡ some b
  unfolding give_up store_bot enter
  get-keeps_bot s t b r e (joins none_yet) = absurd (cc)
  get-keeps_bot s t b r e (enters before after m w free) = rw (e, enter) e
  get-keeps_bot s t b r e (gives_up before after m w) = e
  get-keeps_bot s t b r e (stores before after m b' w) = elim (get-builds_once s r).1 [
    | inl missing ↦ absurd (cc)
    | inr idle ↦ absurd (not_nil s.building before after m w idle)
  ]
