-- ===== src/Botmgr/Webhook/Prefix.antt =====
-- A round of `deliverer.run` settles a front part of its items, in order, and touches nothing behind
-- the first item that it cannot settle.
use tgbotd.Prelude.{
  ℕ, suc, ◌+◌, ◌≤◌, ◌<◌, ◌≡◌, refl, ap, ◌∙◌, List, [], ◌∷◌, ◌++◌, Option, none, some, Bool, true,
  false, arith, All, ◌⊎◌, inl, inr,
}
use tgbotd.Botmgr.Updates.{UpdateItem}
use tgbotd.Botmgr.Updates.Order.{IsAscending}
use tgbotd.Botmgr.Webhook.{
  max_delivery_attempts, count_of, delete_count, set_count, Deliverer, Ending, finished, failed,
  stopped, Outcome, posting, deliver_items,
}
use tgbotd.Botmgr.Webhook.Cases.{deliver_cases}
use tgbotd.Botmgr.Webhook.Attempts.{count_of-delete_ne, count_of-set_ne}

module _ {U V : Type 0} (translate : U → Option V) (delivers stops : UpdateItem U → Bool) where
  -- An item needs no more rounds: it has no translation, or the endpoint took it, or this was its last attempt
  -- by the counts `m`.
  abbrev pub IsSettled : List (ℕ × ℕ) → UpdateItem U → Type 0
  IsSettled m x =
      (translate x.update ≡ none)
      ⊎ (delivers x ≡ true)
      ⊎ (max_delivery_attempts ≤ count_of x.id m + 1)

  -- The id behind the last of the items.
  abbrev pub acked_to : ℕ → List (UpdateItem U) → ℕ
  acked_to last [] = last
  acked_to last (x ∷ xs) = acked_to (x.id + 1) xs

  abbrev pub add_post : ℕ → Option V → List ℕ → List ℕ
  add_post id none ids = ids
  add_post id (some v) ids = id ∷ ids

  -- The ids of the items that have a translation.
  abbrev pub wanted : List (UpdateItem U) → List ℕ
  wanted [] = []
  wanted (x ∷ xs) = add_post x.id (translate x.update) (wanted xs)

  -- Why the loop ended before the items `rest`, and the id that it handed to deliverOne last, in vain.
  abbrev pub Ends : List (ℕ × ℕ) → Ending → List (UpdateItem U) → List ℕ → Type 0
  Ends m finished rest vain = (rest ≡ []) × (vain ≡ [])
  Ends m stopped rest vain =
      (y : UpdateItem U) × (ys : List (UpdateItem U)) × (rest ≡ y ∷ ys)
      × (stops y ≡ true)
      × (vain ≡ [])
  Ends m failed rest vain =
      (y : UpdateItem U) × (ys : List (UpdateItem U)) × (rest ≡ y ∷ ys)
      × (delivers y ≡ false)
      × (count_of y.id m + 1 < max_delivery_attempts)
      × (vain ≡ y.id ∷ [])

  pub record Report (m : List (ℕ × ℕ)) (xs : List (UpdateItem U)) (last : ℕ) (o : Outcome)
      : Type 0 where
    pub settled : List (UpdateItem U)
    pub rest : List (UpdateItem U)
    pub vain : List ℕ
    pub parts : xs ≡ settled ++ rest
    pub all_settled : All (IsSettled m) settled
    pub acked : o.last_acked ≡ acked_to last settled
    pub posted : o.posts ≡ wanted settled ++ vain
    pub ends : Ends m o.ending rest vain

  -- One more item in front of a report.
  settle_first :
      (m : List (ℕ × ℕ)) (x : UpdateItem U) (xs : List (UpdateItem U)) (last : ℕ) (o : Outcome)
      → translate x.update ≡ none
      → Report m xs (x.id + 1) o
      → Report m (x ∷ xs) last o
  settle_first m x xs last o e r = record {
    settled = x ∷ r.settled;
    rest = r.rest;
    vain = r.vain;
    parts = ap (λ t. x ∷ t) r.parts;
    all_settled = (inl e, r.all_settled);
    acked = r.acked;
    posted = rw e r.posted;
    ends = r.ends;
  }

  post_first :
      (m : List (ℕ × ℕ)) (x : UpdateItem U) (xs : List (UpdateItem U)) (last : ℕ) (o : Outcome)
      (v : V)
      → translate x.update ≡ some v
      → IsSettled m x
      → Report m xs (x.id + 1) o
      → Report m (x ∷ xs) last (posting x.id o)
  post_first m x xs last o v e s r = record {
    settled = x ∷ r.settled;
    rest = r.rest;
    vain = r.vain;
    parts = ap (λ t. x ∷ t) r.parts;
    all_settled = (s, r.all_settled);
    acked = r.acked;
    posted = rw e (ap (λ t. x.id ∷ t) r.posted);
    ends = r.ends;
  }

  -- The counts of the items to come are those of `m`.
  abbrev Agrees : List (ℕ × ℕ) → List (ℕ × ℕ) → List (UpdateItem U) → Type 0
  Agrees m m' = All (λ y. count_of y.id m' ≡ count_of y.id m)

  Agrees-delete :
      (m m' : List (ℕ × ℕ)) (id n : ℕ) (xs : List (UpdateItem U))
      → id < n
      → IsAscending n xs
      → Agrees m m' xs
      → Agrees m (delete_count id m') xs
  Agrees-delete m m' id n [] lt up h = tt
  Agrees-delete m m' id n (y ∷ ys) lt up h = (
    count_of-delete_ne id y.id m' (omega arith) ∙ h.0,
    Agrees-delete m m' id (suc y.id) ys (omega arith) up.1 h.1,
  )

  Agrees-set :
      (m m' : List (ℕ × ℕ)) (id k n : ℕ) (xs : List (UpdateItem U))
      → id < n
      → IsAscending n xs
      → Agrees m m' xs
      → Agrees m (set_count id k m') xs
  Agrees-set m m' id k n [] lt up h = tt
  Agrees-set m m' id k n (y ∷ ys) lt up h = (
    count_of-set_ne id y.id k m' (omega arith) ∙ h.0,
    Agrees-set m m' id k (suc y.id) ys (omega arith) up.1 h.1,
  )

  report :
      (m : List (ℕ × ℕ)) (n : ℕ) (xs : List (UpdateItem U)) (last : ℕ) (d : Deliverer)
      → IsAscending n xs
      → Agrees m d.attempts xs
      → Report m xs last (deliver_items translate delivers stops xs last d)
  unfolding deliver_items
  report m n [] last d up same = record {
    settled = [];
    rest = [];
    vain = [];
    parts = refl;
    all_settled = tt;
    acked = refl;
    posted = refl;
    ends = (refl, refl);
  }
  report m n (x ∷ xs) last d up same =
      let count = count_of x.id d.attempts + 1 in
      let forget = delete_count x.id d.attempts in
      let counted = set_count x.id count d.attempts in
      let later = Agrees-delete m d.attempts x.id (suc x.id) xs (omega arith) up.1 same.1 in
      let later' =
        Agrees-delete m counted x.id (suc x.id) xs (omega arith) up.1
          (Agrees-set m d.attempts x.id count (suc x.id) xs (omega arith) up.1 same.1) in
      deliver_cases translate delivers stops (Report m (x ∷ xs) last) x xs last d
        (λ e. record {
          settled = [];
          rest = x ∷ xs;
          vain = [];
          parts = refl;
          all_settled = tt;
          acked = refl;
          posted = refl;
          ends = (x, xs, refl, e, refl);
        })
        (λ e.
          settle_first m x xs last _ e
            (report m (suc x.id) xs (x.id + 1) (record d { attempts = forget }) up.1 later))
        (λ v e e'. post_first m x xs last _ v e (inr (inl e')) (
          report m (suc x.id) xs (x.id + 1) (record { backoff = 1; attempts = forget }) up.1 later))
        (λ v e e' many. post_first m x xs last _ v e (inr (inr (omega (arith, same.0)))) (
          report m (suc x.id) xs (x.id + 1) (record d { attempts = delete_count x.id counted }) up.1
            later'))
        (λ v e e' few. record {
          settled = [];
          rest = x ∷ xs;
          vain = x.id ∷ [];
          parts = refl;
          all_settled = tt;
          acked = refl;
          posted = refl;
          ends = (x, xs, refl, e', omega (arith, same.0), refl);
        })

  all_same : (m : List (ℕ × ℕ)) (xs : List (UpdateItem U)) → Agrees m m xs
  all_same m [] = tt
  all_same m (x ∷ xs) = (refl, all_same m xs)

  -- A round over items with rising ids splits them in two. The front part is settled, each of its
  -- translatable updates is handed to deliverOne, in order and once, and it alone is acknowledged. The loop ends at the end of the
  -- items, or at the first one that meets the stop signal, or at one that was not delivered
  -- and that has attempts left: this one was handed over too, and nothing behind it was.
  pub deliver_items-Report :
      (n : ℕ) (xs : List (UpdateItem U)) (d : Deliverer)
      → IsAscending n xs
      → Report d.attempts xs 0 (deliver_items translate delivers stops xs 0 d)
  deliver_items-Report n xs d up = report d.attempts n xs 0 d up (all_same d.attempts xs)
