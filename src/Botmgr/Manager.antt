-- ===== src/Botmgr/Manager.antt =====
-- `validateToken` and `Manager.Get` of internal/botmgr/botmgr.go. A manager's two maps are seen at one
-- token: calls for other tokens touch neither entry. Each section under the manager's mutex is one
-- function of the entries; `build` takes place between two of them. `Shutdown`, which ends the
-- process, is left out.
pub mod Token
pub mod Building
pub mod Tests
use tgbotd.Prelude.{
  ℕ, suc, ◌+◌, ◌≡◌, ◌≢◌, List, [], ◌∷◌, ◌++◌, Option, none, some, Bool, true, false, ◌||◌, ltb, leb,
  ◌==◌, if◌then◌else◌, length, take, drop, All,
}
use tgbotd.Prelude.Bytes.{Bytes, codes, index_byte}
use tgbotd.Prelude.Int.{ℤ, pos, negsuc}
use tgbotd.Prelude.Decimal.{parse_int}
use tgbotd.Botapi.{Result, ok, err, other}

abbrev pub bad_token_format : Result ℤ
bad_token_format = err (other (codes "bad token format"))

abbrev pub bad_bot_id : Result ℤ
bad_bot_id = err (other (codes "bad bot id in token"))

abbrev pub bad_token_secret : Result ℤ
bad_token_secret = err (other (codes "bad token secret"))

abbrev pub check_secret : ℤ → Bytes → Result ℤ
check_secret id secret = if ltb (length secret) 30 then bad_token_secret else ok id

-- The id has to be positive.
abbrev pub check_id : Option ℤ → Bytes → Result ℤ
check_id none secret = bad_bot_id
check_id (some (pos n)) secret = if n == 0 then bad_bot_id else check_secret (pos n) secret
check_id (some (negsuc n)) secret = bad_bot_id

-- The parts before and behind the first colon.
unfoldable pub validate_parts : Bytes → Option ℕ → Result ℤ
validate_parts token none = bad_token_format
validate_parts token (some i) =
    if i == 0 || ltb 20 i
    then bad_token_format
    else check_id (parse_int (take i token)) (drop (i + 1) token)

unfoldable pub validate_token : Bytes → Result ℤ
unfolding validate_parts
validate_token token = validate_parts token (index_byte token b':')

-- The entries of `bots` and of `init` under the token, the calls of `Get` that wait for a mutex of
-- `init`, and those that hold one and build. A mutex is the number of its making.
pub record Slot (B : Type 0) : Type 0 where
  pub bot : Option B
  pub init : Option ℕ
  pub made : ℕ
  pub waiting : List ℕ
  pub building : List ℕ

module _ {B : Type 0} where
  abbrev pub new_slot : Slot B
  new_slot = record { bot = none; init = none; made = 0; waiting = []; building = [] }

  -- The section that finds no bot: the mutex of `init` is taken from there, or made.
  unfoldable pub join : Slot B → Slot B
  join s = elim s.init [
    | none ↦ record s { init = some s.made; made = s.made + 1; waiting = s.made ∷ s.waiting }
    | some m ↦ record s { waiting = m ∷ s.waiting }
  ]

  -- The call that has locked `m` looks once more, and returns or builds.
  unfoldable pub enter : ℕ → List ℕ → Slot B → Slot B
  enter m others s = elim s.bot [
    | none ↦ record s { waiting = others; building = m ∷ s.building }
    | some b ↦ record s { waiting = others }
  ]

  -- `build` failed: `init` keeps the mutex.
  unfoldable pub give_up : List ℕ → Slot B → Slot B
  give_up others s = record s { building = others }

  unfoldable pub store_bot : B → List ℕ → Slot B → Slot B
  store_bot b others s = record s { bot = some b; init = none; building = others }

  pub data GetStep (s : Slot B) : Slot B → Type 0 where
    joins : s.bot ≡ none → GetStep s (join s)
    enters :
        (before after : List ℕ) (m : ℕ)
        → s.waiting ≡ before ++ m ∷ after
        → All (λ k. k ≢ m) s.building
        → GetStep s (enter m (before ++ after) s)
    gives_up :
        (before after : List ℕ) (m : ℕ)
        → s.building ≡ before ++ m ∷ after
        → GetStep s (give_up (before ++ after) s)
    stores :
        (before after : List ℕ) (m : ℕ) (b : B)
        → s.building ≡ before ++ m ∷ after
        → GetStep s (store_bot b (before ++ after) s)

  pub data GetReach (s : Slot B) : Slot B → Type 0 where
    here : GetReach s s
    next : {t u : Slot B} → GetReach s t → GetStep t u → GetReach s u
