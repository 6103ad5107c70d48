-- ===== src/Storage.antt =====
-- internal/storage/storage.go: the tables of the SQLite store as lists of rows, and each SQL statement as
-- a function of them. Times are Unix seconds. A statement that the database refuses changes nothing; of
-- the reasons for that only the foreign key of `sessions` is modelled. The table `peers` and
-- the column `cert_pem` are never read or written.
pub mod Laws
pub mod Queue
pub mod Tests
use mathlib.Core.Option
use tgbotd.Prelude.{
  ℕ, ◌+◌, List, [], ◌∷◌, ◌++◌, Option, none, some, Bool, true, false, ◌&&◌, ◌==◌, ltb, leb,
  if◌then◌else◌, take,
}
use tgbotd.Prelude.Bytes.{Bytes, bytes_eq}
use tgbotd.Prelude.Int.{ℤ, pos, negsuc}

-- A row of `bots`. `drop_pending` is 0 or 1.
pub record BotRecord : Type 0 where
  pub token : Bytes
  pub bot_id : ℤ
  pub created_at : ℕ
  pub last_seen : ℕ
  pub webhook_url : Bytes
  pub webhook_secret : Bytes
  pub webhook_ip : Bytes
  pub max_conns : ℤ
  pub allowed_updates : Bytes
  pub drop_pending : ℕ

-- What `GetBot` returns of it.
pub record BotRow : Type 0 where
  pub token : Bytes
  pub bot_id : ℤ
  pub created_at : ℕ
  pub last_seen : ℕ
  pub webhook_url : Bytes
  pub webhook_secret : Bytes
  pub webhook_ip : Bytes
  pub max_conns : ℤ
  pub allowed_updates : Bytes
  pub drop_pending : Bool

pub record SessionRow : Type 0 where
  pub token : Bytes
  pub dc : ℤ
  pub auth_key : Bytes
  pub hash : Bytes
  pub salt : ℤ
  pub hostname : Bytes

-- A row of `updates_queue`; `seq` counts up and is never used again.
pub record QueueRow : Type 0 where
  pub token : Bytes
  pub seq : ℕ
  pub payload : Bytes
  pub created_at : ℕ

pub record FileRow : Type 0 where
  pub file_id_hash : Bytes
  pub file_id : Bytes
  pub file_unique_id : Bytes
  pub dc_id : ℤ
  pub owner_id : ℤ
  pub mtproto_type : ℤ
  pub payload : Bytes
  pub size : ℤ

pub record Store : Type 0 where
  pub bots : List BotRecord
  pub sessions : List SessionRow
  pub queue : List QueueRow
  pub next_seq : ℕ
  pub files : List FileRow

-- The tables after `migrate` of an empty database.
abbrev pub empty_store : Store
empty_store = record { bots = []; sessions = []; queue = []; next_seq = 1; files = [] }

-- The first row under a key, and the rows with that row changed or, where there is none, a new one behind.
module _ {R : Type 0} (key_of : R → Bytes) where
  unfoldable pub find_row : Bytes → List R → Option R
  find_row k [] = none
  find_row k (r ∷ rs) = if bytes_eq k (key_of r) then some r else find_row k rs

  unfoldable pub upsert_row : Bytes → R → (R → R) → List R → List R
  upsert_row k new change [] = new ∷ []
  upsert_row k new change (r ∷ rs) =
      if bytes_eq k (key_of r) then change r ∷ rs else r ∷ upsert_row k new change rs

  unfoldable pub update_rows : Bytes → (R → R) → List R → List R
  update_rows k change [] = []
  update_rows k change (r ∷ rs) =
      (if bytes_eq k (key_of r) then change r else r) ∷ update_rows k change rs

-- `ORDER BY last_seen DESC`.
unfoldable pub insert_by_seen : BotRecord → List BotRecord → List BotRecord
insert_by_seen r [] = r ∷ []
insert_by_seen r (x ∷ xs) =
    if ltb r.last_seen x.last_seen then x ∷ insert_by_seen r xs else r ∷ x ∷ xs

unfoldable pub sort_by_seen : List BotRecord → List BotRecord
unfolding insert_by_seen
sort_by_seen [] = []
sort_by_seen (r ∷ rs) = insert_by_seen r (sort_by_seen rs)

unfoldable pub tokens_of : List BotRecord → List Bytes
tokens_of [] = []
tokens_of (r ∷ rs) = r.token ∷ tokens_of rs

unfoldable pub list_bot_tokens : Store → List Bytes
unfolding sort_by_seen tokens_of
list_bot_tokens s = tokens_of (sort_by_seen s.bots)

-- A new row has the defaults of the columns that the statement does not name.
abbrev pub new_bot : Bytes → ℤ → ℕ → BotRecord
new_bot token bot_id now = record {
  token = token;
  bot_id = bot_id;
  created_at = now;
  last_seen = now;
  webhook_url = [];
  webhook_secret = [];
  webhook_ip = [];
  max_conns = pos 40;
  allowed_updates = [];
  drop_pending = 0;
}

abbrev pub seen_again : ℤ → ℕ → BotRecord → BotRecord
seen_again bot_id now r = record r { bot_id = bot_id; last_seen = now }

unfoldable pub upsert_bot : Bytes → ℤ → ℕ → Store → Store
unfolding upsert_row
upsert_bot token bot_id now s = record s {
  bots = upsert_row (λ r. r.token) token (new_bot token bot_id now) (seen_again bot_id now) s.bots;
}

abbrev pub row_of_bot : BotRecord → BotRow
row_of_bot r = record {
  token = r.token;
  bot_id = r.bot_id;
  created_at = r.created_at;
  last_seen = r.last_seen;
  webhook_url = r.webhook_url;
  webhook_secret = r.webhook_secret;
  webhook_ip = r.webhook_ip;
  max_conns = r.max_conns;
  allowed_updates = r.allowed_updates;
  drop_pending = if r.drop_pending == 0 then false else true;
}

unfoldable pub get_bot : Bytes → Store → Option BotRow
unfolding find_row
get_bot token s = Option.map row_of_bot (find_row (λ r. r.token) token s.bots)

abbrev pub configured : Bytes → Bytes → Bytes → ℤ → Bytes → Bool → BotRecord → BotRecord
configured url secret ip max_conns allowed drop_pending r = record r {
  webhook_url = url;
  webhook_secret = secret;
  webhook_ip = ip;
  max_conns = max_conns;
  allowed_updates = allowed;
  drop_pending = if drop_pending then 1 else 0;
}

unfoldable pub set_webhook : Bytes → Bytes → Bytes → Bytes → ℤ → Bytes → Bool → Store → Store
unfolding update_rows
set_webhook token url secret ip max_conns allowed drop_pending s = record s {
  bots =
      update_rows (λ r. r.token) token (configured url secret ip max_conns allowed drop_pending)
        s.bots;
}

unfoldable pub load_session : Bytes → Store → Option SessionRow
unfolding find_row
load_session token s = find_row (λ r. r.token) token s.sessions

-- `none`: no row of `bots` has the token that the foreign key asks for.
unfoldable pub save_session : SessionRow → Store → Option Store
unfolding find_row upsert_row
save_session r s =
    Option.map
      (λ bot. record s { sessions = upsert_row (λ t. t.token) r.token r (λ old. r) s.sessions })
      (find_row (λ t. t.token) r.token s.bots)

unfoldable pub enqueue_update : Bytes → Bytes → ℕ → Store → Store × ℕ
enqueue_update token payload now s = (
  record s {
    queue =
        s.queue
        ++ record { token = token; seq = s.next_seq; payload = payload; created_at = now } ∷ [];
    next_seq = s.next_seq + 1;
  },
  s.next_seq,
)

unfoldable pub waiting_rows : Bytes → ℕ → List QueueRow → List (ℕ × Bytes)
waiting_rows token offset [] = []
waiting_rows token offset (r ∷ rs) =
    if bytes_eq token r.token && leb offset r.seq
    then (r.seq, r.payload) ∷ waiting_rows token offset rs
    else waiting_rows token offset rs

-- `LIMIT`: a negative number is no limit.
abbrev pub limited : ℤ → List (ℕ × Bytes) → List (ℕ × Bytes)
limited (pos n) xs = take n xs
limited (negsuc n) xs = xs

-- The rows stand in the order of `seq`.
unfoldable pub fetch_updates : Bytes → ℕ → ℤ → Store → List (ℕ × Bytes)
unfolding waiting_rows
fetch_updates token offset limit s = limited limit (waiting_rows token offset s.queue)

unfoldable pub without_acked : Bytes → ℕ → List QueueRow → List QueueRow
without_acked token up_to [] = []
without_acked token up_to (r ∷ rs) =
    if bytes_eq token r.token && ltb r.seq up_to
    then without_acked token up_to rs
    else r ∷ without_acked token up_to rs

unfoldable pub ack_updates : Bytes → ℕ → Store → Store
unfolding without_acked
ack_updates token up_to s = record s { queue = without_acked token up_to s.queue }

unfoldable pub without_token : Bytes → List QueueRow → List QueueRow
without_token token [] = []
without_token token (r ∷ rs) =
    if bytes_eq token r.token then without_token token rs else r ∷ without_token token rs

unfoldable pub drop_updates : Bytes → Store → Store
unfolding without_token
drop_updates token s = record s { queue = without_token token s.queue }

-- A file that is known keeps its data centre, owner and type.
abbrev pub file_again : FileRow → FileRow → FileRow
file_again r old = record old {
  file_id = r.file_id;
  file_unique_id = r.file_unique_id;
  payload = r.payload;
  size = r.size;
}

unfoldable pub put_file : FileRow → Store → Store
unfolding upsert_row
put_file r s = record s {
  files = upsert_row (λ t. t.file_id_hash) r.file_id_hash r (file_again r) s.files;
}

unfoldable pub get_file_by_id : Bytes → Store → Option FileRow
unfolding find_row
get_file_by_id hash s = find_row (λ t. t.file_id_hash) hash s.files
