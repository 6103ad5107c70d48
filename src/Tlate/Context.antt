-- ===== src/Tlate/Context.antt =====
-- `TranslateContext` of internal/tlate/updates.go: the users and chats that are known, and the lookups that find more,
-- whose answers are kept. A translation is an action on the context. The maps hold no nil entries, since
-- `User`, `Chat` and `BuildTranslateContext` (internal/botmgr/webhook.go) put none there.
pub mod Laws
use tgbotd.Prelude.{ℕ, Option, none, some, Bool, true, false, ◌&&◌, ◌==◌, if◌then◌else◌}
use tgbotd.Prelude.Int.{ℤ, pos, negsuc}
use tgbotd.Tlate.Telegram.{UserObj, ChatObj}

abbrev pub int_eq : ℤ → ℤ → Bool
int_eq (pos m) (pos n) = m == n
int_eq (negsuc m) (negsuc n) = m == n
int_eq _ _ = false

pub record TranslateContext : Type 0 where
  pub self_id : ℤ
  pub users : ℤ → Option UserObj
  pub chats : ℤ → Option ChatObj
  pub user_lookup : Option (ℤ → Option UserObj)
  pub chat_lookup : Option (ℤ → Option ChatObj)

abbrev pub Action {ℓ} : Type ℓ → Type ℓ
Action A = TranslateContext → A × TranslateContext

abbrev pub pure {ℓ} : {A : Type ℓ} → A → Action A
pure a t = (a, t)

infixl 5 ◌>>=◌
abbrev pub ◌>>=◌ {ℓ} : {A B : Type ℓ} → Action A → (A → Action B) → Action B
(m >>= f) t = f (m t).0 (m t).1

-- `m[id] = v`
abbrev pub set_entry {ℓ} : {A : Type ℓ} → ℤ → A → (ℤ → Option A) → ℤ → Option A
set_entry id v m n = if int_eq id n then some v else m n

abbrev pub asked {ℓ} : {A : Type ℓ} → Option (ℤ → Option A) → ℤ → Option A
asked none id = none
asked (some f) id = f id

-- The user, if it is in the map, and else what the lookup answers, which is kept.
abbrev pub user_found : ℤ → Option UserObj → Option UserObj → Action (Option UserObj)
user_found id (some u) answer t = (some u, t)
user_found id none (some u) t = (some u, record t { users = set_entry id u t.users })
user_found id none none t = (none, t)

unfoldable pub user : ℤ → Action (Option UserObj)
user id t = user_found id (t.users id) (asked t.user_lookup id) t

abbrev pub chat_found : ℤ → Option ChatObj → Option ChatObj → Action (Option ChatObj)
chat_found id (some c) answer t = (some c, t)
chat_found id none (some c) t = (some c, record t { chats = set_entry id c t.chats })
chat_found id none none t = (none, t)

unfoldable pub chat : ℤ → Action (Option ChatObj)
chat id t = chat_found id (t.chats id) (asked t.chat_lookup id) t
