-- ===== src/Botmgr/Webhook.antt =====
-- internal/botmgr/webhook.go: the loop that posts a bot's updates to its webhook, `deliverer.run`.
-- Translation (`tlate.UpdateToBotAPI`), the answer of the endpoint (`deliverOne`) and the stop
-- channel are functions of the item, which a round meets at most once.
pub mod Cases
pub mod Attempts
pub mod Prefix
pub mod Retries
pub mod Tests
use tgbotd.Prelude.{
  ℕ, ◌+◌, ◌*◌, List, [], ◌∷◌, Option, none, some, Bool, true, false, ltb, leb, ◌==◌, if◌then◌else◌,
}
use tgbotd.Botmgr.Updates.{UpdateItem, UpdateBuffer, ack}
use tgbotd.Botmgr.Updates.Wait.{WaitEvent, wait}
use tgbotd.Botmgr.Updates.Runs.{run}
use tgbotd.Botmgr.Updates.Snapshots.{effects}

abbrev pub max_delivery_attempts : ℕ
max_delivery_attempts = 8

-- Seconds.
abbrev pub max_backoff : ℕ
max_backoff = 300

-- `attempts`, a map from update ids to counts; a missing count is 0.
unfoldable pub count_of : ℕ → List (ℕ × ℕ) → ℕ
count_of id [] = 0
count_of id ((k, n) ∷ m) = if k == id then n else count_of id m

unfoldable pub delete_count : ℕ → List (ℕ × ℕ) → List (ℕ × ℕ)
delete_count id [] = []
delete_count id ((k, n) ∷ m) = if k == id then delete_count id m else (k, n) ∷ delete_count id m

unfoldable pub set_count : ℕ → ℕ → List (ℕ × ℕ) → List (ℕ × ℕ)
set_count id n m = (id, n) ∷ delete_count id m

-- The variables that live across the rounds.
pub record Deliverer : Type 0 where
  pub backoff : ℕ
  pub attempts : List (ℕ × ℕ)

abbrev pub new_deliverer : Deliverer
new_deliverer = record { backoff = 1; attempts = [] }

pub data Ending : Type 0 where
  finished failed stopped : Ending

-- What a round's loop over the items ends with; `posts` are the ids that were handed to deliverOne, in order,
-- which posts them unless their JSON or the request cannot be made.
pub record Outcome : Type 0 where
  pub last_acked : ℕ
  pub state : Deliverer
  pub ending : Ending
  pub posts : List ℕ

abbrev pub posting : ℕ → Outcome → Outcome
posting id o = record o { posts = id ∷ o.posts }

abbrev pub ends_with : Ending → ℕ → Deliverer → Outcome
ends_with e last d = record { last_acked = last; state = d; ending = e; posts = [] }

abbrev pub is_failed : Ending → Bool
is_failed finished = false
is_failed failed = true
is_failed stopped = false

-- `backoff *= 2`, and the cap, after a round that failed.
unfoldable pub next_backoff : ℕ → ℕ
next_backoff s = if ltb max_backoff (s * 2) then max_backoff else s * 2

unfoldable pub after_round : Outcome → Deliverer
unfolding next_backoff
after_round o =
    if is_failed o.ending
    then record o.state { backoff = next_backoff o.state.backoff }
    else o.state

module _ {U V : Type 0} (translate : U → Option V) (delivers stops : UpdateItem U → Bool) where
  unfoldable pub deliver_items : List (UpdateItem U) → ℕ → Deliverer → Outcome
  deliver_items [] last d = ends_with finished last d
  deliver_items (x ∷ xs) last d =
      let forget = delete_count x.id d.attempts in
      let skipped = deliver_items xs (x.id + 1) (record d { attempts = forget }) in
      let sent = deliver_items xs (x.id + 1) (record { backoff = 1; attempts = forget }) in
      let count = count_of x.id d.attempts + 1 in
      let counted = set_count x.id count d.attempts in
      let dropped =
        deliver_items xs (x.id + 1) (record d { attempts = delete_count x.id counted }) in
      let refused =
        if leb max_delivery_attempts count
        then dropped
        else ends_with failed last (record d { attempts = counted }) in
      elim (stops x) [
        | true ↦ ends_with stopped last d
        | false ↦ elim (translate x.update) [
          | none ↦ skipped
          | some v ↦ posting x.id (elim (delivers x) [ true ↦ sent | false ↦ refused ])
        ]
      ]

  -- One round: wait for at most 100 items, post them, acknowledge what is settled. `es` are the
  -- moves of the others while it waits, and `during` while it posts. `none`: it still waits.
  unfoldable pub round :
      List (WaitEvent U)
      → List (WaitEvent U)
      → UpdateBuffer U
      → Deliverer
      → Option (UpdateBuffer U × Deliverer)
  unfolding after_round
  round es during b d = elim (wait 0 100 30 false es b) [
    | none ↦ none
    | some (b', []) ↦ some (b', d)
    | some (b', x ∷ xs) ↦
        let o = deliver_items (x ∷ xs) 0 d in
        let later = run (effects during) b' in
        some (if ltb 0 o.last_acked then ack o.last_acked later else later, after_round o)
  ]
