-- ===== src/Botmgr/Updates.antt =====
-- internal/botmgr/updates.go: the bounded queue of a bot's updates. An update (`telegram.Update`) is
-- a value of the MTProto library, a type `U` here. Each operation runs under the buffer's mutex, so
-- it is one function of the buffer; `wait`, which gives the mutex up, takes the moves of the others.
pub mod Wait
pub mod Log
pub mod Refinement
pub mod Runs
pub mod Asleep
pub mod Blocking
pub mod Snapshots
pub mod Order
pub mod Tests
use tgbotd.Prelude.{
  ℕ, ◌+◌, List, [], ◌∷◌, ◌++◌, Bool, true, false, ◌&&◌, ◌||◌, length, take, drop, ltb, leb,
  if◌then◌else◌,
}

pub record UpdateItem (U : Type 0) : Type 0 where
  pub id : ℕ
  pub update : U

pub record UpdateBuffer (U : Type 0) : Type 0 where
  pub items : List (UpdateItem U)
  pub next_id : ℕ
  pub cap : ℕ

abbrev pub default_buffer_cap : ℕ
default_buffer_cap = 10_000

module _ {U : Type 0} where
  unfoldable pub new_update_buffer : UpdateBuffer U
  new_update_buffer = record { items = []; next_id = 1; cap = default_buffer_cap }

  -- A full buffer drops its oldest item.
  unfoldable pub push : U → UpdateBuffer U → UpdateBuffer U
  push u b =
      let kept = if leb b.cap (length b.items) then drop 1 b.items else b.items in
      record b {
        items = kept ++ record { id = b.next_id; update = u } ∷ [];
        next_id = b.next_id + 1;
      }

  -- `for i < len(items) && items[i].ID < offset { i++ }`, and the items from `i` on.
  unfoldable pub skip_below : ℕ → List (UpdateItem U) → List (UpdateItem U)
  skip_below offset [] = []
  skip_below offset (x ∷ xs) = if ltb x.id offset then skip_below offset xs else x ∷ xs

  -- The first `limit` items; a limit of 0 or less is no limit.
  unfoldable pub first_items : ℕ → List (UpdateItem U) → List (UpdateItem U)
  first_items limit xs = if ltb 0 limit && ltb limit (length xs) then take limit xs else xs

  unfoldable pub has_ready : List (UpdateItem U) → ℕ → Bool
  has_ready [] offset = false
  has_ready (x ∷ xs) offset = leb offset x.id || has_ready xs offset

  unfoldable pub snapshot_locked : List (UpdateItem U) → ℕ → ℕ → List (UpdateItem U)
  unfolding skip_below first_items
  snapshot_locked items offset limit =
      first_items limit (if ltb 0 offset then skip_below offset items else items)

  -- The buffer without the items below a positive offset, and the snapshot.
  unfoldable pub peek : ℕ → ℕ → UpdateBuffer U → UpdateBuffer U × List (UpdateItem U)
  unfolding skip_below first_items
  peek offset limit b =
      let kept = if ltb 0 offset then skip_below offset b.items else b.items in
      (record b { items = kept }, first_items limit kept)

  unfoldable pub ack : ℕ → UpdateBuffer U → UpdateBuffer U
  unfolding skip_below
  ack up_to b = record b { items = skip_below up_to b.items }

  unfoldable pub clear : UpdateBuffer U → UpdateBuffer U
  clear b = record b { items = [] }

  unfoldable pub len : UpdateBuffer U → ℕ
  len b = length b.items
