-- ===== src/Botmgr/Updates/Log.antt =====
-- The abstract view of a bot's queue: the log of every update that came, and how many of its oldest
-- entries are gone. The entry at position k of the log, counted from 1, has the id k.
use tgbotd.Prelude.{
  ℕ, zero, suc, ◌+◌, ◌-◌, ◌≡◌, refl, ap, ◌∙◌, List, [], ◌∷◌, ◌++◌, ltb, length, drop, arith,
  drop-nil, Bool-cases, inl, inr, ltb→lt,
}
use tgbotd.Botmgr.Updates.{UpdateItem, skip_below}

module _ {U : Type 0} where
  -- The items that carry the updates `us`, with ids from `n` on.
  abbrev pub number : ℕ → List U → List (UpdateItem U)
  number n [] = []
  number n (u ∷ us) = record { id = n; update = u } ∷ number (suc n) us

  pub length-number : (n : ℕ) (us : List U) → length (number n us) ≡ length us
  length-number n [] = refl
  length-number n (u ∷ us) = ap suc (length-number (suc n) us)

  number_by : {m n : ℕ} (us : List U) → m ≡ n → number m us ≡ number n us
  number_by us e = ap (λ k. number k us) e

  pub number-append :
      (n : ℕ) (us vs : List U) → number n (us ++ vs) ≡ number n us ++ number (n + length us) vs
  number-append n [] vs = number_by vs (omega arith)
  number-append n (u ∷ us) vs =
      ap (λ r. record { id = n; update = u } ∷ r)
        (number-append (suc n) us vs
          ∙ ap (λ r. number (suc n) us ++ r) (number_by vs (omega arith)))

  pub drop-number : (k n : ℕ) (us : List U) → drop k (number n us) ≡ number (n + k) (drop k us)
  drop-number zero n us = number_by us (omega arith)
  drop-number (suc k) n [] = refl
  drop-number (suc k) n (u ∷ us) = drop-number k (suc n) us ∙ number_by (drop k us) (omega arith)

  pub skip_below-number :
      (offset n : ℕ) (us : List U)
      → skip_below offset (number n us) ≡ number (n + (offset - n)) (drop (offset - n) us)
  unfolding skip_below
  skip_below-number offset n [] = rw (drop-nil (offset - n))
  skip_below-number offset n (u ∷ us) = elim (Bool-cases (ltb n offset)) [
    | inl below ↦
        let lt = ltb→lt n offset below in
        let e : offset - n ≡ suc (offset - suc n) = omega arith in
        rw (below, e)
          (skip_below-number offset (suc n) us ∙ number_by (drop (offset - suc n) us) (omega arith))
    | inr reached ↦
        let e : offset - n ≡ 0 = ground arith in rw (reached, e) (number_by (u ∷ us) (omega arith))
  ]
