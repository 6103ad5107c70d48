-- ===== src/Server/Markup/RoundTrip.antt =====
-- `parseReplyMarkup` (internal/server/methods_core.go) and `ReplyMarkupToBotAPI` (internal/tlate/tlate.go): a markup
-- that is printed and read again.
use tgbotd.Prelude.{◌≡◌, ◌≢◌, refl, ap, List, [], ◌∷◌, map, Option, some, true, false, All}
use tgbotd.Prelude.Bytes.{Bytes, bytes_eq}
use tgbotd.Prelude.Utf8.{valid_string, marshaled-valid}
use tgbotd.Json.{Json, arr, items_of}
use tgbotd.Json.Reading.{find, list_of, rows_of}
use tgbotd.Tlate.Telegram.{
  KeyboardButton, button_obj, button_url, button_callback, button_simple_web_view, button_web_view,
  button_switch_inline, button_buy, button_game, button_copy, button_url_auth,
  input_button_url_auth, button_request_phone, button_request_geo_location, button_request_poll,
  other_button, nil_button, ReplyMarkup, reply_inline_markup, reply_keyboard_markup,
  reply_keyboard_hide, reply_keyboard_force_reply,
}
use tgbotd.Tlate.Markup.{inline_button_to_bot_api, reply_button_to_bot_api, reply_markup_to_bot_api}
use tgbotd.Server.Markup.{
  parse_inline_button, parse_reply_button, cons_nonempty, parse_row, parse_rows, parse_reply_markup,
}

abbrev pub IsUtf8 : Bytes → Type 0
IsUtf8 s = valid_string s ≡ true

-- The inline buttons that come back as they were.
abbrev pub IsInline : KeyboardButton → Type 0
IsInline (button_url text url) = IsUtf8 text × IsUtf8 url × (url ≢ [])
IsInline (button_callback text d) = IsUtf8 text × IsUtf8 d × (d ≢ [])
IsInline (button_simple_web_view text url) = IsUtf8 text × IsUtf8 url
IsInline (button_switch_inline text query same_peer) = IsUtf8 text × IsUtf8 query
IsInline (button_buy text) = IsUtf8 text
IsInline (button_game text) = IsUtf8 text
IsInline (button_copy text copy_text) = IsUtf8 text × IsUtf8 copy_text
IsInline _ = ⊥

abbrev pub IsReply : KeyboardButton → Type 0
IsReply (button_obj text) = IsUtf8 text
IsReply (button_request_phone text) = IsUtf8 text
IsReply (button_request_geo_location text) = IsUtf8 text
IsReply (button_request_poll text) = IsUtf8 text
IsReply (button_simple_web_view text url) = IsUtf8 text × IsUtf8 url
IsReply _ = ⊥

abbrev pub IsRow : (KeyboardButton → Type 0) → List KeyboardButton → Type 0
IsRow P row = (row ≢ []) × All P row

-- Keyboards with rows, none of them empty.
abbrev pub IsMarkup : ReplyMarkup → Type 0
IsMarkup (reply_inline_markup rows) = (rows ≢ []) × All (IsRow IsInline) rows
IsMarkup (reply_keyboard_markup rows resize single_use selective placeholder) =
    IsUtf8 placeholder × (rows ≢ []) × All (IsRow IsReply) rows
IsMarkup (reply_keyboard_hide selective) = Unit
IsMarkup (reply_keyboard_force_reply selective placeholder) = IsUtf8 placeholder

list_of-items_of : {A : Type 0} (f : A → Json) (xs : List A) → list_of (items_of f xs) ≡ map f xs
unfolding list_of items_of
list_of-items_of f [] = refl
list_of-items_of f (x ∷ xs) = ap (λ ys. f x ∷ ys) (list_of-items_of f xs)

rows_of-items_of :
    {A : Type 0} (f : A → Json) (rows : List (List A))
    → rows_of (items_of (λ row. arr (items_of f row)) rows) ≡ some (map (map f) rows)
unfolding rows_of items_of
rows_of-items_of f [] = refl
rows_of-items_of f (row ∷ rows) = rw (rows_of-items_of f rows, list_of-items_of f row)

module _ (get_text : KeyboardButton → Option Bytes) where
  parse_inline_button-inline_button_to_bot_api :
      (b : KeyboardButton)
      → IsInline b
      → parse_inline_button (inline_button_to_bot_api get_text b) ≡ some b
  unfolding parse_inline_button inline_button_to_bot_api bytes_eq
  parse_inline_button-inline_button_to_bot_api (button_obj text) h = elim h [ ]
  parse_inline_button-inline_button_to_bot_api (button_url text []) h = absurd (h.2 refl)
  parse_inline_button-inline_button_to_bot_api (button_url text (x ∷ url)) h =
      rw (marshaled-valid text h.0, marshaled-valid (x ∷ url) h.1) refl
  parse_inline_button-inline_button_to_bot_api (button_callback text []) h = absurd (h.2 refl)
  parse_inline_button-inline_button_to_bot_api (button_callback text (x ∷ d)) h =
      rw (marshaled-valid text h.0, marshaled-valid (x ∷ d) h.1) refl
  parse_inline_button-inline_button_to_bot_api (button_simple_web_view text url) h =
      rw (marshaled-valid text h.0, marshaled-valid url h.1) refl
  parse_inline_button-inline_button_to_bot_api (button_web_view text url) h = elim h [ ]
  parse_inline_button-inline_button_to_bot_api (button_switch_inline text query true) h =
      rw (marshaled-valid text h.0, marshaled-valid query h.1) refl
  parse_inline_button-inline_button_to_bot_api (button_switch_inline text query false) h =
      rw (marshaled-valid text h.0, marshaled-valid query h.1) refl
  parse_inline_button-inline_button_to_bot_api (button_buy text) h =
      rw (marshaled-valid text h) refl
  parse_inline_button-inline_button_to_bot_api (button_game text) h =
      rw (marshaled-valid text h) refl
  parse_inline_button-inline_button_to_bot_api (button_copy text copy_text) h =
      rw (marshaled-valid text h.0, marshaled-valid copy_text h.1) refl
  parse_inline_button-inline_button_to_bot_api (button_url_auth text url fwd id) h = elim h [ ]
  parse_inline_button-inline_button_to_bot_api (input_button_url_auth text url fwd access) h =
      elim h [ ]
  parse_inline_button-inline_button_to_bot_api (button_request_phone text) h = elim h [ ]
  parse_inline_button-inline_button_to_bot_api (button_request_geo_location text) h = elim h [ ]
  parse_inline_button-inline_button_to_bot_api (button_request_poll text) h = elim h [ ]
  parse_inline_button-inline_button_to_bot_api other_button h = elim h [ ]
  parse_inline_button-inline_button_to_bot_api nil_button h = elim h [ ]

  parse_reply_button-reply_button_to_bot_api :
      (b : KeyboardButton)
      → IsReply b
      → parse_reply_button (reply_button_to_bot_api get_text b) ≡ some b
  unfolding parse_reply_button reply_button_to_bot_api bytes_eq
  parse_reply_button-reply_button_to_bot_api (button_obj text) h = rw (marshaled-valid text h) refl
  parse_reply_button-reply_button_to_bot_api (button_url text url) h = elim h [ ]
  parse_reply_button-reply_button_to_bot_api (button_callback text d) h = elim h [ ]
  parse_reply_button-reply_button_to_bot_api (button_simple_web_view text url) h =
      rw (marshaled-valid text h.0, marshaled-valid url h.1) refl
  parse_reply_button-reply_button_to_bot_api (button_web_view text url) h = elim h [ ]
  parse_reply_button-reply_button_to_bot_api (button_switch_inline text query same_peer) h =
      elim h [ ]
  parse_reply_button-reply_button_to_bot_api (button_buy text) h = elim h [ ]
  parse_reply_button-reply_button_to_bot_api (button_game text) h = elim h [ ]
  parse_reply_button-reply_button_to_bot_api (button_copy text copy_text) h = elim h [ ]
  parse_reply_button-reply_button_to_bot_api (button_url_auth text url fwd id) h = elim h [ ]
  parse_reply_button-reply_button_to_bot_api (input_button_url_auth text url fwd access) h =
      elim h [ ]
  parse_reply_button-reply_button_to_bot_api (button_request_phone text) h =
      rw (marshaled-valid text h) refl
  parse_reply_button-reply_button_to_bot_api (button_request_geo_location text) h =
      rw (marshaled-valid text h) refl
  parse_reply_button-reply_button_to_bot_api (button_request_poll text) h =
      rw (marshaled-valid text h) refl
  parse_reply_button-reply_button_to_bot_api other_button h = elim h [ ]
  parse_reply_button-reply_button_to_bot_api nil_button h = elim h [ ]

module _ (P : KeyboardButton → Type 0) (parse : Json → Option KeyboardButton)
    (print : KeyboardButton → Json)
    (back : (b : KeyboardButton) → P b → parse (print b) ≡ some b) where
  parse_row-map : (row : List KeyboardButton) → All P row → parse_row parse (map print row) ≡ row
  unfolding parse_row
  parse_row-map [] h = refl
  parse_row-map (b ∷ row) h = rw (back b h.0) (ap (λ bs. b ∷ bs) (parse_row-map row h.1))

  cons_nonempty_lem :
      (row : List KeyboardButton) (rows : List (List KeyboardButton))
      → row ≢ []
      → cons_nonempty row rows ≡ row ∷ rows
  cons_nonempty_lem [] rows h = absurd (h refl)
  cons_nonempty_lem (b ∷ row) rows h = refl

  parse_rows-map :
      (rows : List (List KeyboardButton))
      → All (IsRow P) rows
      → parse_rows parse (map (map print) rows) ≡ rows
  unfolding parse_rows
  parse_rows-map [] h = refl
  parse_rows-map (row ∷ rows) h =
      rw (parse_row-map row h.0.1, parse_rows-map rows h.1) (cons_nonempty_lem row rows h.0.0)

module _ (get_text : KeyboardButton → Option Bytes) where
  -- A markup that was translated for a client comes back the same when the client sends it, with
  -- inline buttons of the kinds that a client can make, its texts and data valid UTF-8, those not empty where the kind is told by
  -- the text, and with keyboards that have rows and no empty row.
  pub parse_reply_markup-reply_markup_to_bot_api :
      (rm : ReplyMarkup)
      → IsMarkup rm
      → parse_reply_markup (reply_markup_to_bot_api get_text rm) ≡ some rm
  unfolding parse_reply_markup reply_markup_to_bot_api find bytes_eq
  parse_reply_markup-reply_markup_to_bot_api (reply_inline_markup []) h = absurd (h.0 refl)
  parse_reply_markup-reply_markup_to_bot_api (reply_inline_markup (row ∷ rows)) h =
      rw (rows_of-items_of (inline_button_to_bot_api get_text) (row ∷ rows)) (
        ap (λ rs. some (reply_inline_markup rs))
          (parse_rows-map IsInline parse_inline_button (inline_button_to_bot_api get_text)
            (parse_inline_button-inline_button_to_bot_api get_text) (row ∷ rows) h.1))
  parse_reply_markup-reply_markup_to_bot_api
        (reply_keyboard_markup [] resize single_use selective placeholder) h =
      absurd (h.1 refl)
  parse_reply_markup-reply_markup_to_bot_api
        (reply_keyboard_markup (row ∷ rows) resize single_use selective placeholder) h =
      rw
        (
          rows_of-items_of (reply_button_to_bot_api get_text) (row ∷ rows),
          marshaled-valid placeholder h.0,
        )
        (ap (λ rs. some (reply_keyboard_markup rs resize single_use selective placeholder))
          (parse_rows-map IsReply parse_reply_button (reply_button_to_bot_api get_text)
            (parse_reply_button-reply_button_to_bot_api get_text) (row ∷ rows) h.2))
  parse_reply_markup-reply_markup_to_bot_api (reply_keyboard_hide selective) h = refl
  parse_reply_markup-reply_markup_to_bot_api (reply_keyboard_force_reply selective placeholder) h =
      rw (marshaled-valid placeholder h) refl
