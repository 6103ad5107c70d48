-- ===== src/Server/Routing.antt =====
-- `handle` of internal/server/server.go with `writeOK`, `writeError` and `lowerASCII`, and the counters of
-- internal/server/metrics.go. A result stands for its encoding, `R`. The bot's manager, the table of
-- handlers and the parser of parameters are parameters here; they have modules of their own.
pub mod Laws
pub mod Counters
pub mod Tests
use tgbotd.Prelude.{
  ℕ, ◌+◌, ◌-◌, ◌%◌, ◌^◌, List, [], ◌∷◌, ◌++◌, Option, none, some, Bool, true, false, ◌&&◌, ◌||◌,
  ◌==◌, ltb, leb, if◌then◌else◌, length, take, drop, map,
}
use tgbotd.Prelude.Bytes.{Bytes, codes, bytes_eq, has_prefix, index_byte}
use tgbotd.Prelude.Int.{ℤ, pos, negsuc}
use tgbotd.Botapi.{
  Response, Error, api, other, Result, ok, err, err_not_found, err_method_not_found,
  err_bad_request, error_text, ok_response, from_error,
}

abbrev pub lower_byte : ℕ → ℕ
lower_byte c = if leb b'A' c && leb c b'Z' then c + 32 else c

-- A text without capitals is returned as it is, which is the same.
unfoldable pub lower_ascii : Bytes → Bytes
lower_ascii [] = []
lower_ascii (c ∷ s) = lower_byte c ∷ lower_ascii s

abbrev pub no_leading_slash : Bytes → Bytes
no_leading_slash [] = []
no_leading_slash (c ∷ s) = if c == b'/' then s else c ∷ s

unfoldable pub no_trailing_slash : Bytes → Bytes
no_trailing_slash [] = []
no_trailing_slash (c ∷ []) = if c == b'/' then [] else c ∷ []
no_trailing_slash (c ∷ d ∷ s) = c ∷ no_trailing_slash (d ∷ s)

pub data Route : Type 0 where
  health : Route
  stats : Route
  file_download : Bytes → Route
  unknown_path : Route
  no_method : Route
  call : (token method : Bytes) → Route

unfoldable pub split_call : Bytes → Route
split_call rest = elim (index_byte rest b'/') [
  | none ↦ no_method
  | some i ↦ if i == 0 then no_method else call (take i rest) (lower_ascii (drop (i + 1) rest))
]

unfoldable pub route_path : Bytes → Route
route_path path =
    if bytes_eq path [] || bytes_eq path (codes "healthz")
    then health
    else if bytes_eq path (codes "stats")
    then stats
    else if has_prefix path (codes "file/bot")
    then file_download path
    else if has_prefix path (codes "bot")
    then split_call (drop 3 path)
    else unknown_path

unfoldable pub route : Bytes → Route
route path = route_path (no_trailing_slash (no_leading_slash path))

-- What is written: an encoded envelope as it is, or a status and an envelope.
pub data Reply (R : Type 0) : Type 0 where
  health_page : Reply R
  stats_page : Reply R
  download : Bytes → Reply R
  verbatim : Bytes → Reply R
  envelope : ℕ → Response R → Reply R

-- The result of a handler: a `rawResponse`, or a value, whose encoding may fail.
pub data Output (R : Type 0) : Type 0 where
  raw_response : Bytes → Output R
  value : Result R → Output R

abbrev pub error_status : ℕ → ℕ
error_status code = if ltb code 400 || ltb 599 code then 400 else code

module _ {R : Type 0} (json_true : R) where
  unfoldable pub write_error : Error → Reply R
  write_error e =
      let resp = from_error json_true (some e) in envelope (error_status resp.error_code) resp

  unfoldable pub write_ok : Output R → Reply R
  write_ok (raw_response bytes) = verbatim bytes
  write_ok (value r) = elim (ok_response r) [ ok resp ↦ envelope 200 resp | err e ↦ write_error e ]

-- The counters are `uint64`.
abbrev pub add64 : ℕ → ℕ → ℕ
add64 a b = (a + b) % 2 ^ 64

pub record MethodStat : Type 0 where
  pub count : ℕ
  pub dur_sum : ℕ
  pub errored : ℕ

pub record Metrics : Type 0 where
  pub requests : ℕ
  pub errors : ℕ
  pub total_duration : ℕ
  pub flood_waits : ℕ
  pub auth_401s : ℕ
  pub forbidden : ℕ
  pub bytes_in : ℕ
  pub bytes_out : ℕ
  pub methods : List (Bytes × MethodStat)

abbrev pub error_count : Bool → ℕ
error_count false = 0
error_count true = 1

abbrev pub count_call : ℕ → Bool → MethodStat → MethodStat
count_call dur failed m = record {
  count = add64 m.count 1;
  dur_sum = add64 m.dur_sum dur;
  errored = add64 m.errored (error_count failed);
}

abbrev pub no_calls : MethodStat
no_calls = record { count = 0; dur_sum = 0; errored = 0 }

-- `LoadOrStore`, and the counts.
unfoldable pub count_method :
    Bytes → ℕ → Bool → List (Bytes × MethodStat) → List (Bytes × MethodStat)
count_method method dur failed [] = (method, count_call dur failed no_calls) ∷ []
count_method method dur failed ((k, m) ∷ ms) =
    if bytes_eq method k
    then (k, count_call dur failed m) ∷ ms
    else (k, m) ∷ count_method method dur failed ms

unfoldable pub record_call : Bytes → ℕ → Bool → ℕ → ℕ → Metrics → Metrics
record_call method dur failed bytes_in bytes_out m = record m {
  requests = add64 m.requests 1;
  errors = add64 m.errors (error_count failed);
  total_duration = add64 m.total_duration dur;
  bytes_in = add64 m.bytes_in bytes_in;
  bytes_out = add64 m.bytes_out bytes_out;
  methods = count_method method dur failed m.methods;
}

abbrev pub count_code : ℕ → Metrics → Metrics
count_code code m =
    if code == 429
    then record m { flood_waits = add64 m.flood_waits 1 }
    else if code == 401
    then record m { auth_401s = add64 m.auth_401s 1 }
    else if code == 403
    then record m { forbidden = add64 m.forbidden 1 }
    else m

abbrev pub count_error : Error → Metrics → Metrics
count_error (api e) m = count_code e.code m
count_error (other text) m = m

pub record HttpRequest : Type 0 where
  pub path : Bytes
  pub raw_query : Bytes
  pub content_length : ℤ

abbrev pub not_negative : ℤ → ℕ
not_negative (pos n) = n
not_negative (negsuc n) = 0

abbrev pub is_positive : ℤ → Bool
is_positive (pos n) = ltb 0 n
is_positive (negsuc n) = false

abbrev pub text_of_error : Error → Bytes
text_of_error (api e) = error_text e
text_of_error (other text) = text

-- `quote` is `%q`; `P` the parsed parameters, `B` a bot, `get_me_cache` its encoded getMe answer.
-- `dur` is the time that the handler took, in nanoseconds.
module _ {R B P : Type 0} (json_true : R) (quote : Bytes → Bytes) (get_me_cache : B → Bytes)
    (get : Bytes → Result B) (handlers : Bytes → Option (B → P → Result (Output R)))
    (params : Result P) (dur : ℕ) where
  -- The handler is there and the parameters are read.
  unfoldable pub finish : Bytes → ℕ → Result (Output R) → Metrics → Metrics × Reply R
  finish method bytes_in (err e) m =
      (record_call method dur true bytes_in 0 (count_error e m), write_error json_true e)
  finish method bytes_in (ok out) m =
      (record_call method dur false bytes_in 0 m, write_ok json_true out)

  unfoldable pub call_method : HttpRequest → B → Bytes → Metrics → Metrics × Reply R
  call_method r bot method m = elim (handlers method) [
    | none ↦ (
      record_call method 0 true 0 0 m,
      write_error json_true (api (err_method_not_found (quote method))),
    )
    | some h ↦ elim params [
      | err e ↦ (m, write_error json_true (api (err_bad_request (text_of_error e))))
      | ok ps ↦ finish method (not_negative r.content_length) (h bot ps) m
    ]
  ]

  -- A plain getMe is answered from the bot's cache, if there is one.
  unfoldable pub is_cached : HttpRequest → Bytes → Bytes → Bool
  is_cached r method cache =
      bytes_eq method (codes "getme")
      && ltb 0 (length cache)
      && bytes_eq r.raw_query []
      && (if is_positive r.content_length then false else true)

  unfoldable pub call_bot : HttpRequest → Bytes → Bytes → Metrics → Metrics × Reply R
  call_bot r token method m = elim (get token) [
    | err e ↦ (m, write_error json_true e)
    | ok bot ↦
        if is_cached r method (get_me_cache bot)
        then (
          record_call method 0 false 0 (length (get_me_cache bot)) m,
          verbatim (get_me_cache bot),
        )
        else call_method r bot method m
  ]

  abbrev pub handle_route : HttpRequest → Route → Metrics → Metrics × Reply R
  handle_route r health m = (m, health_page)
  handle_route r stats m = (m, stats_page)
  handle_route r (file_download path) m = (m, download path)
  handle_route r unknown_path m = (m, write_error json_true (api err_not_found))
  handle_route r no_method m =
      (m, write_error json_true (api (err_bad_request (codes "no method"))))
  handle_route r (call token method) m = call_bot r token method m

  unfoldable pub handle : HttpRequest → Metrics → Metrics × Reply R
  handle r m = handle_route r (route r.path) m
