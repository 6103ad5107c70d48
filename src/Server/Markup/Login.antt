-- ===== src/Server/Markup/Login.antt =====
-- `parseInlineButton` (internal/server/methods_core.go) on login buttons.
use tgbotd.Prelude.{◌≡◌, refl, subst, ◌∙◌, [], ◌∷◌, Option, none, some, Bool, true, false}
use tgbotd.Prelude.Bytes.{Bytes, codes}
use tgbotd.Json.{Json, obj, Fields, end}
use tgbotd.Json.Reading.{find, text_value, flag_value, text_pointer, struct_pointer}
use tgbotd.Tlate.Telegram.{KeyboardButton, input_button_url_auth}
use tgbotd.Server.Markup.{
  ◌>>=◌, LoginUrl, read_login, InlineFields, read_url, read_text, read_inline_fields, if_text,
  if_there, pay_button, game_button, choose_inline, parse_inline_button,
}

abbrev Holds : {A : Type 0} → (A → Type 0) → Option A → Type 0
Holds P none = Unit
Holds P (some a) = P a

bind-Holds :
    {A B : Type 0} (Q : A → Type 0) (P : B → Type 0) (o : Option A) (f : A → Option B)
    → Holds Q o
    → ((a : A) → Q a → Holds P (f a))
    → Holds P (o >>= f)
bind-Holds Q P none f h step = tt
bind-Holds Q P (some a) f h step = step a h

bind-each :
    {A B : Type 0} (P : B → Type 0) (o : Option A) (f : A → Option B)
    → ((a : A) → Holds P (f a))
    → Holds P (o >>= f)
bind-each P none f step = tt
bind-each P (some a) f step = step a

-- No forward text, and no write access.
abbrev IsPlainLogin : LoginUrl → Type 0
IsPlainLogin l = (l.forward_text ≡ []) × (l.request_write_access ≡ false)

abbrev IsPlainFields : InlineFields → Type 0
IsPlainFields b = Holds IsPlainLogin b.login_url

abbrev IsPlainButton : KeyboardButton → Type 0
IsPlainButton (input_button_url_auth text url forward write) = (forward ≡ []) × (write ≡ false)
IsPlainButton _ = Unit

read_login-IsPlainLogin :
    (login : Fields)
    → find (codes "forwardtext") login ≡ none
    → find (codes "requestwriteaccess") login ≡ none
    → Holds IsPlainLogin (read_login login)
unfolding read_login
read_login-IsPlainLogin login hf hw =
    rw (hf, hw)
      (bind-each IsPlainLogin (text_value (find (codes "url") login)) _ λ url.
        bind-each IsPlainLogin (text_value (find (codes "botusername") login)) _
          λ bot_name. (refl, refl))

pointer-IsPlainLogin :
    (o : Option LoginUrl)
    → Holds IsPlainLogin o
    → Holds (Holds IsPlainLogin) (struct_pointer (λ fs. o) (some (obj end)))
pointer-IsPlainLogin none h = tt
pointer-IsPlainLogin (some l) h = h

read_inline_fields-IsPlainFields :
    (fs login : Fields)
    → find (codes "login_url") fs ≡ some (obj login)
    → find (codes "forwardtext") login ≡ none
    → find (codes "requestwriteaccess") login ≡ none
    → Holds IsPlainFields (read_inline_fields fs)
unfolding read_inline_fields
read_inline_fields-IsPlainFields fs login there hf hw = rw there (
    bind-each P (text_value (find (codes "text") fs)) _ λ text.
      bind-each P (text_value (find (codes "url") fs)) _ λ url.
        bind-each P (text_value (find (codes "callback_data") fs)) _ λ payload.
          bind-each P (struct_pointer read_url (find (codes "web_app") fs)) _ λ web_app.
            bind-Holds (Holds IsPlainLogin) P (struct_pointer read_login (some (obj login))) _
              (pointer-IsPlainLogin (read_login login) (read_login-IsPlainLogin login hf hw))
              λ l plain.
                bind-each P (text_pointer (find (codes "switch_inline_query") fs)) _ λ query.
                  bind-each P (text_pointer (find (codes "switch_inline_query_current_chat") fs)) _
                    λ current.
                      bind-each P (struct_pointer read_text (find (codes "copy_text") fs)) _
                        λ copied. bind-each P (flag_value (find (codes "pay") fs)) _ λ pay. plain)
  where
    P : InlineFields → Type 0
    P = IsPlainFields

if_text-Holds :
    (s : Bytes) (f : Bytes → KeyboardButton) (rest : Option KeyboardButton)
    → ((t : Bytes) → IsPlainButton (f t))
    → Holds IsPlainButton rest
    → Holds IsPlainButton (if_text s f rest)
if_text-Holds [] f rest made h = h
if_text-Holds (c ∷ s) f rest made h = made (c ∷ s)

if_there-Holds :
    {A : Type 0} (Q : A → Type 0) (o : Option A) (f : A → KeyboardButton)
    (rest : Option KeyboardButton)
    → Holds Q o
    → ((a : A) → Q a → IsPlainButton (f a))
    → Holds IsPlainButton rest
    → Holds IsPlainButton (if_there o f rest)
if_there-Holds Q none f rest q made h = h
if_there-Holds Q (some a) f rest q made h = made a q

if_given-Holds :
    {A : Type 0} (o : Option A) (f : A → KeyboardButton) (rest : Option KeyboardButton)
    → ((a : A) → IsPlainButton (f a))
    → Holds IsPlainButton rest
    → Holds IsPlainButton (if_there o f rest)
if_given-Holds none f rest made h = h
if_given-Holds (some a) f rest made h = made a

pay_or_game :
    (pay : Bool) (text : Bytes) (game : Option Json)
    → Holds IsPlainButton (pay_button pay text (game_button text game))
pay_or_game true text game = tt
pay_or_game false text none = tt
pay_or_game false text (some j) = tt

choose_inline-IsPlainButton :
    (b : InlineFields) → IsPlainFields b → Holds IsPlainButton (choose_inline b)
unfolding choose_inline
choose_inline-IsPlainButton b plain =
    if_text-Holds b.url _ _ (λ t. tt)
      (if_text-Holds b.callback_data _ _ (λ t. tt)
        (if_given-Holds b.web_app _ _ (λ t. tt)
          (if_there-Holds IsPlainLogin b.login_url _ _ plain (λ l h. h)
            (if_given-Holds b.switch_inline_query _ _ (λ t. tt)
              (if_given-Holds b.switch_inline_query_current_chat _ _ (λ t. tt)
                (if_given-Holds b.copy_text _ _ (λ t. tt)
                  (pay_or_game b.pay b.text b.callback_game)))))))

-- Where `login_url` is an object in which no member has, but for the case of its letters, the name of the struct's
-- field for the forward text or for the write access (the Bot API's `forward_text` and
-- `request_write_access` have not), a login button that is made of it has no forward text and
-- asks for no write access, whatever other members the two objects have.
pub parse_inline_button_login_url :
    (fs login : Fields) (text url forward : Bytes) (write : Bool)
    → find (codes "login_url") fs ≡ some (obj login)
    → find (codes "forwardtext") login ≡ none
    → find (codes "requestwriteaccess") login ≡ none
    → parse_inline_button (obj fs) ≡ some (input_button_url_auth text url forward write)
    → parse_inline_button (obj fs) ≡ some (input_button_url_auth text url [] false)
unfolding parse_inline_button
parse_inline_button_login_url fs login text url forward write there hf hw made =
    let plain : (forward ≡ []) × (write ≡ false) = subst (Holds IsPlainButton) made (
      bind-Holds IsPlainFields IsPlainButton (read_inline_fields fs) choose_inline
        (read_inline_fields-IsPlainFields fs login there hf hw) choose_inline-IsPlainButton) in
    made ∙ rw (plain.0, plain.1) refl
