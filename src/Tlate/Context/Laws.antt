-- ===== src/Tlate/Context/Laws.antt =====
-- What the answers kept in a `TranslateContext` leave visible: nothing, to who asks by `User` and `Chat`.
use tgbotd.Prelude.{
  ◌≡◌, refl, sym, ◌∙◌, Option, none, some, true, arith, Bool-cases, inl, inr, ap, fun_ext, fun_ext,
}
use tgbotd.Prelude.Int.{ℤ, pos, negsuc}
use tgbotd.Tlate.Telegram.{UserObj, ChatObj}
use tgbotd.Tlate.Context.{
  int_eq, TranslateContext, Action, pure, ◌>>=◌, set_entry, asked, user_found, user, chat_found,
  chat,
}

pub int_eq→eq : (m n : ℤ) → int_eq m n ≡ true → m ≡ n
int_eq→eq (pos m) (pos n) h = ap pos (ground arith)
int_eq→eq (pos m) (negsuc n) h = absurd (cc)
int_eq→eq (negsuc m) (pos n) h = absurd (cc)
int_eq→eq (negsuc m) (negsuc n) h = ap negsuc (ground arith)

-- What a map and a lookup say together, without keeping anything.
abbrev pub or_asked {ℓ} : {A : Type ℓ} → Option A → Option A → Option A
or_asked (some a) answer = some a
or_asked none answer = answer

abbrev pub known_user : TranslateContext → ℤ → Option UserObj
known_user t id = or_asked (t.users id) (asked t.user_lookup id)

abbrev pub known_chat : TranslateContext → ℤ → Option ChatObj
known_chat t id = or_asked (t.chats id) (asked t.chat_lookup id)

-- The two contexts answer alike.
pub record Agrees (s t : TranslateContext) : Type 0 where
  pub same_self : s.self_id ≡ t.self_id
  pub same_users : (id : ℤ) → known_user s id ≡ known_user t id
  pub same_chats : (id : ℤ) → known_chat s id ≡ known_chat t id

pub Agrees-refl : (t : TranslateContext) → Agrees t t
Agrees-refl t = record { same_self = refl; same_users = λ id. refl; same_chats = λ id. refl }

pub Agrees-trans : (r s t : TranslateContext) → Agrees r s → Agrees s t → Agrees r t
Agrees-trans r s t h k = record {
  same_self = h.same_self ∙ k.same_self;
  same_users = λ id. h.same_users id ∙ k.same_users id;
  same_chats = λ id. h.same_chats id ∙ k.same_chats id;
}

or_asked-set_entry :
    {A : Type 0} (id n : ℤ) (a : A) (m f : ℤ → Option A)
    → m id ≡ none
    → f id ≡ some a
    → or_asked (set_entry id a m n) (f n) ≡ or_asked (m n) (f n)
or_asked-set_entry id n a m f absent answer = elim (Bool-cases (int_eq id n)) [
  | inl e ↦ rw (e, sym (int_eq→eq id n e), absent, answer)
  | inr ne ↦ rw ne
]

-- An action is transparent if it returns what `ref` makes of the plain answers, and the context that
-- it leaves answers as before.
pub record IsTransparent {A : Type 0} (m : Action A)
    (ref : (ℤ → Option UserObj) → (ℤ → Option ChatObj) → ℤ → A) : Type 0 where
  pub returns : (t : TranslateContext) → (m t).0 ≡ ref (known_user t) (known_chat t) t.self_id
  pub keeps : (t : TranslateContext) → Agrees (m t).1 t

pub pure-IsTransparent : {A : Type 0} (a : A) → IsTransparent (pure a) (λ us cs self. a)
pure-IsTransparent a = record { returns = λ t. refl; keeps = Agrees-refl }

pub bind-IsTransparent :
    {A B : Type 0} (m : Action A) (f : A → Action B)
    (r : (ℤ → Option UserObj) → (ℤ → Option ChatObj) → ℤ → A)
    (q : A → (ℤ → Option UserObj) → (ℤ → Option ChatObj) → ℤ → B)
    → IsTransparent m r
    → ((a : A) → IsTransparent (f a) (q a))
    → IsTransparent (m >>= f) (λ us cs self. q (r us cs self) us cs self)
bind-IsTransparent m f r q h k = record {
  returns = λ t.
      let left = h.keeps t in
      (k (m t).0).returns (m t).1
      ∙ rw (h.returns t, fun_ext left.same_users, fun_ext left.same_chats, left.same_self);
  keeps = λ t. Agrees-trans _ _ _ ((k (m t).0).keeps (m t).1) (h.keeps t);
}

user_found-keeps :
    (id : ℤ) (t : TranslateContext) (known answer : Option UserObj)
    → t.users id ≡ known
    → asked t.user_lookup id ≡ answer
    → ((user_found id known answer t).0 ≡ known_user t id)
      × Agrees (user_found id known answer t).1 t
user_found-keeps id t (some u) answer e h = (rw e, Agrees-refl t)
user_found-keeps id t none none e h = (rw (e, h), Agrees-refl t)
user_found-keeps id t none (some u) e h = (
  rw (e, h),
  record {
    same_self = refl;
    same_users = λ n. or_asked-set_entry id n u t.users (asked t.user_lookup) e h;
    same_chats = λ n. refl;
  },
)

chat_found-keeps :
    (id : ℤ) (t : TranslateContext) (known answer : Option ChatObj)
    → t.chats id ≡ known
    → asked t.chat_lookup id ≡ answer
    → ((chat_found id known answer t).0 ≡ known_chat t id)
      × Agrees (chat_found id known answer t).1 t
chat_found-keeps id t (some u) answer e h = (rw e, Agrees-refl t)
chat_found-keeps id t none none e h = (rw (e, h), Agrees-refl t)
chat_found-keeps id t none (some u) e h = (
  rw (e, h),
  record {
    same_self = refl;
    same_users = λ n. refl;
    same_chats = λ n. or_asked-set_entry id n u t.chats (asked t.chat_lookup) e h;
  },
)

pub user-IsTransparent : (id : ℤ) → IsTransparent (user id) (λ us cs self. us id)
unfolding user
user-IsTransparent id = record {
  returns = λ t. (user_found-keeps id t (t.users id) (asked t.user_lookup id) refl refl).0;
  keeps = λ t. (user_found-keeps id t (t.users id) (asked t.user_lookup id) refl refl).1;
}

pub chat-IsTransparent : (id : ℤ) → IsTransparent (chat id) (λ us cs self. cs id)
unfolding chat
chat-IsTransparent id = record {
  returns = λ t. (chat_found-keeps id t (t.chats id) (asked t.chat_lookup id) refl refl).0;
  keeps = λ t. (chat_found-keeps id t (t.chats id) (asked t.chat_lookup id) refl refl).1;
}

-- An action followed by a function of its result.
pub then_pure-IsTransparent :
    {A B : Type 0} (m : Action A) (f : A → B)
    (r : (ℤ → Option UserObj) → (ℤ → Option ChatObj) → ℤ → A)
    → IsTransparent m r
    → IsTransparent (m >>= λ a. pure (f a)) (λ us cs self. f (r us cs self))
then_pure-IsTransparent m f r h =
    bind-IsTransparent m (λ a. pure (f a)) r (λ a us cs self. f a) h (λ a. pure-IsTransparent (f a))

pub int_eq_refl : (n : ℤ) → int_eq n n ≡ true
int_eq_refl (pos n) = ground arith
int_eq_refl (negsuc n) = ground arith
