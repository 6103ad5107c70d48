-- ===== src/Storage/Laws.antt =====
-- What a row of internal/storage/storage.go holds after a statement.
use mathlib.Core.Option
use tgbotd.Prelude.{
  ℕ, ◌≡◌, refl, ap, sym, List, [], ◌∷◌, Option, none, some, Bool, true, false, if◌then◌else◌,
  Bool-cases, inl, inr, arith,
}
use tgbotd.Prelude.Bytes.{Bytes, bytes_eq, bytes_eq→eq, bytes_eq_refl}
use tgbotd.Prelude.Maps.{bytes_eq_common}
use tgbotd.Prelude.Int.{ℤ}
use tgbotd.Storage.{
  BotRecord, BotRow, Store, find_row, upsert_row, update_rows, new_bot, seen_again, upsert_bot,
  row_of_bot, get_bot, configured, set_webhook,
}

differs : (k j key : Bytes) → bytes_eq k j ≡ false → bytes_eq k key ≡ true → bytes_eq j key ≡ false
differs k j key ne hit = ground (arith, bytes_eq_common k j key)

module _ {R : Type 0} (key_of : R → Bytes) where
  -- What an upsert leaves under its key.
  abbrev pub upserted : R → (R → R) → Option R → R
  upserted new change none = new
  upserted new change (some r) = change r

  find_row-upsert_same :
      (k : Bytes) (new : R) (change : R → R) (rs : List R)
      → bytes_eq k (key_of new) ≡ true
      → ((r : R) → key_of (change r) ≡ key_of r)
      → find_row key_of k (upsert_row key_of k new change rs)
        ≡ some (upserted new change (find_row key_of k rs))
  unfolding find_row upsert_row
  find_row-upsert_same k new change [] hn hc = rw (hn, find_row)
  find_row-upsert_same k new change (r ∷ rs) hn hc = elim (Bool-cases (bytes_eq k (key_of r))) [
    | inl hit ↦ rw (hit, find_row) (rw (hc r, hit, find_row))
    | inr miss ↦
        rw (miss, find_row) (rw (miss, find_row) (find_row-upsert_same k new change rs hn hc))
  ]

  find_row-upsert_other :
      (k j : Bytes) (new : R) (change : R → R) (rs : List R)
      → bytes_eq k j ≡ false
      → bytes_eq k (key_of new) ≡ true
      → ((r : R) → key_of (change r) ≡ key_of r)
      → find_row key_of j (upsert_row key_of k new change rs) ≡ find_row key_of j rs
  unfolding find_row upsert_row
  find_row-upsert_other k j new change [] ne hn hc = rw (differs k j (key_of new) ne hn, find_row)
  find_row-upsert_other k j new change (r ∷ rs) ne hn hc =
      let ih = find_row-upsert_other k j new change rs ne hn hc in
      elim (Bool-cases (bytes_eq k (key_of r))) [
        | inl hit ↦ rw (hit, find_row) (rw (hc r, differs k j (key_of r) ne hit, find_row))
        | inr miss ↦ rw (miss, find_row) (rw ih)
      ]

  -- An upsert changes the row under its key, or makes it, and leaves every other key alone.
  find_row-upsert :
      (k j : Bytes) (new : R) (change : R → R) (rs : List R)
      → bytes_eq k (key_of new) ≡ true
      → ((r : R) → key_of (change r) ≡ key_of r)
      → find_row key_of j (upsert_row key_of k new change rs) ≡ (
          if bytes_eq k j
          then some (upserted new change (find_row key_of j rs))
          else find_row key_of j rs)
  find_row-upsert k j new change rs hn hc = elim (Bool-cases (bytes_eq k j)) [
    | inl same ↦ rw (same, sym (bytes_eq→eq k j same)) (find_row-upsert_same k new change rs hn hc)
    | inr ne ↦ rw ne (find_row-upsert_other k j new change rs ne hn hc)
  ]

  find_row-update :
      (k j : Bytes) (change : R → R) (rs : List R)
      → ((r : R) → key_of (change r) ≡ key_of r)
      → find_row key_of j (update_rows key_of k change rs)
        ≡ Option.map (λ r. if bytes_eq k j then change r else r) (find_row key_of j rs)
  unfolding find_row update_rows
  find_row-update k j change [] hc = refl
  find_row-update k j change (r ∷ rs) hc =
      let ih = find_row-update k j change rs hc in
      elim (Bool-cases (bytes_eq j (key_of r))) [
        | inl hit ↦
            let same : bytes_eq k (key_of r) ≡ bytes_eq k j =
              ap (bytes_eq k) (sym (bytes_eq→eq j (key_of r) hit)) in
            rw same (elim (Bool-cases (bytes_eq k j)) [
              | inl y ↦ rw y (rw (hc r, hit, find_row))
              | inr n ↦ rw n (rw (hit, find_row))
            ])
        | inr miss ↦ elim (Bool-cases (bytes_eq k (key_of r))) [
          | inl y ↦ rw y (rw (hc r, miss, find_row) ih)
          | inr n ↦ rw n (rw (miss, find_row) ih)
        ]
      ]

-- The row that `UpsertBot` leaves, from the one before it.
abbrev pub row_seen : Bytes → ℤ → ℕ → Option BotRow → BotRow
row_seen token bot_id now none = row_of_bot (new_bot token bot_id now)
row_seen token bot_id now (some r) = record r { bot_id = bot_id; last_seen = now }

row_seen-upserted :
    (token : Bytes) (bot_id : ℤ) (now : ℕ) (o : Option BotRecord)
    → row_of_bot (upserted (λ r. r.token) (new_bot token bot_id now) (seen_again bot_id now) o)
      ≡ row_seen token bot_id now (Option.map row_of_bot o)
row_seen-upserted token bot_id now none = refl
row_seen-upserted token bot_id now (some r) = refl

-- After `UpsertBot`, the bot's row has its id and the time of the call; a bot that was known keeps its
-- creation time and its webhook, a new one has the defaults, and no other bot's row changes.
pub get_bot-upsert_bot :
    (token other : Bytes) (bot_id : ℤ) (now : ℕ) (s : Store)
    → get_bot other (upsert_bot token bot_id now s) ≡ (
        if bytes_eq token other
        then some (row_seen token bot_id now (get_bot other s))
        else get_bot other s)
unfolding get_bot upsert_bot
get_bot-upsert_bot token other bot_id now s =
    let found =
      find_row-upsert (λ r. r.token) token other (new_bot token bot_id now) (seen_again bot_id now)
        s.bots (bytes_eq_refl token) (λ r. refl) in
    rw found (elim (Bool-cases (bytes_eq token other)) [
      | inl y ↦
          rw y (ap some (row_seen-upserted token bot_id now (find_row (λ r. r.token) other s.bots)))
      | inr n ↦ rw n
    ])

-- What `SetWebhook` makes of a row.
abbrev pub row_configured : Bytes → Bytes → Bytes → ℤ → Bytes → Bool → BotRow → BotRow
row_configured url secret ip max_conns allowed drop_pending r = record r {
  webhook_url = url;
  webhook_secret = secret;
  webhook_ip = ip;
  max_conns = max_conns;
  allowed_updates = allowed;
  drop_pending = drop_pending;
}

row_configured_lem :
    (url secret ip : Bytes) (max_conns : ℤ) (allowed : Bytes) (drop_pending b : Bool)
    (o : Option BotRecord)
    → Option.map row_of_bot (
        Option.map
          (λ r. if b then configured url secret ip max_conns allowed drop_pending r else r)
          o)
      ≡ Option.map
          (λ r. if b then row_configured url secret ip max_conns allowed drop_pending r else r)
          (Option.map row_of_bot o)
row_configured_lem url secret ip max_conns allowed drop_pending b none = refl
row_configured_lem url secret ip max_conns allowed true true (some r) = refl
row_configured_lem url secret ip max_conns allowed false true (some r) = refl
row_configured_lem url secret ip max_conns allowed drop_pending false (some r) = refl

-- `SetWebhook` stores the whole configuration in the row of its bot, the Boolean as it was given,
-- and nowhere else; a bot without a row stays without one.
pub get_bot-set_webhook :
    (token other url secret ip : Bytes) (max_conns : ℤ) (allowed : Bytes) (drop_pending : Bool)
    (s : Store)
    → get_bot other (set_webhook token url secret ip max_conns allowed drop_pending s)
      ≡ Option.map
          (λ r.
            if bytes_eq token other
            then row_configured url secret ip max_conns allowed drop_pending r
            else r)
          (get_bot other s)
unfolding get_bot set_webhook
get_bot-set_webhook token other url secret ip max_conns allowed drop_pending s =
    rw
      (find_row-update (λ r. r.token) token other
        (configured url secret ip max_conns allowed drop_pending) s.bots (λ r. refl))
      (row_configured_lem url secret ip max_conns allowed drop_pending (bytes_eq token other)
        (find_row (λ r. r.token) other s.bots))
