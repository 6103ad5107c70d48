-- ===== src/Server/Routing/Laws.antt =====
-- Which paths of internal/server/server.go call a method, and with what status errors are answered.
use tgbotd.Prelude.{
  ℕ, ◌<◌, ◌≡◌, ◌≢◌, refl, ap, ◌∙◌, [], ◌∷◌, ◌++◌, append_assoc, some, false, ◌==◌, arith, length,
}
use tgbotd.Prelude.Bytes.{Bytes, codes, bytes_eq, has_prefix, Lacks}
use tgbotd.Prelude.Slices.{index_byte-append, take-length-append, drop-suc-append}
use tgbotd.Botapi.{api, from_error}
use tgbotd.Botmgr.RpcError.{map_rpc_error}
use tgbotd.Botmgr.RpcError.Laws.{IsRpcCode, map_rpc_error_codes}
use tgbotd.Server.Routing.{
  lower_ascii, no_trailing_slash, call, split_call, route_path, route, envelope, error_status,
  write_error,
}

no_trailing_slash-kept :
    (s : Bytes) (c : ℕ) → c ≢ b'/' → no_trailing_slash (s ++ c ∷ []) ≡ s ++ c ∷ []
unfolding no_trailing_slash
no_trailing_slash-kept [] c h = ground arith
no_trailing_slash-kept (d ∷ []) c h = ap (λ t. d ∷ t) (no_trailing_slash-kept [] c h)
no_trailing_slash-kept (d ∷ e ∷ s) c h = ap (λ t. d ∷ t) (no_trailing_slash-kept (e ∷ s) c h)

no_trailing_slash-dropped : (s : Bytes) → no_trailing_slash (s ++ b'/' ∷ []) ≡ s
unfolding no_trailing_slash
no_trailing_slash-dropped [] = refl
no_trailing_slash-dropped (d ∷ []) = refl
no_trailing_slash-dropped (d ∷ e ∷ s) = ap (λ t. d ∷ t) (no_trailing_slash-dropped (e ∷ s))

split_call_lem :
    (token method : Bytes)
    → Lacks b'/' token
    → 0 < length token
    → split_call (token ++ b'/' ∷ method) ≡ call token (lower_ascii method)
unfolding split_call
split_call_lem token method lacks some_token =
    let not_first : (length token == 0) ≡ false = ground arith in
    rw (index_byte-append token method b'/' lacks, split_call)
      (rw (not_first, take-length-append token (b'/' ∷ method), drop-suc-append token method b'/'))

-- `bot<token>/<method>`.
abbrev pub call_path : Bytes → Bytes → Bytes
call_path token method = codes "bot" ++ (token ++ b'/' ∷ method)

route_path_call :
    (token method : Bytes)
    → Lacks b'/' token
    → 0 < length token
    → route_path (call_path token method) ≡ call token (lower_ascii method)
unfolding route_path bytes_eq has_prefix
route_path_call token method lacks some_token = split_call_lem token method lacks some_token

call_path-append : (token m s : Bytes) → call_path token (m ++ s) ≡ call_path token m ++ s
call_path-append token m s = simp append_assoc

-- `/bot<token>/<method>`, and the same with a slash at the end, call the method in lower case with the token, if the
-- token is not empty and holds no slash and the method does not end with one.
pub route-call_path :
    (token m : Bytes) (c : ℕ)
    → Lacks b'/' token
    → 0 < length token
    → c ≢ b'/'
    → (route (b'/' ∷ call_path token (m ++ c ∷ [])) ≡ call token (lower_ascii (m ++ c ∷ [])))
      × (route (b'/' ∷ (call_path token (m ++ c ∷ []) ++ b'/' ∷ []))
          ≡ call token (lower_ascii (m ++ c ∷ [])))
unfolding route
route-call_path token m c lacks some_token last =
    let method = m ++ c ∷ [] in
    let called = route_path_call token method lacks some_token in
    let whole : no_trailing_slash (call_path token method) ≡ call_path token method =
      rw (call_path-append token m (c ∷ [])) (no_trailing_slash-kept (call_path token m) c last) in
    (
      ap route_path whole ∙ called,
      ap route_path (no_trailing_slash-dropped (call_path token method)) ∙ called,
    )

known_status : (code : ℕ) → IsRpcCode code → error_status code ≡ code
known_status code h = ground arith

-- An error of Telegram is answered with the HTTP status that its Bot API code names.
pub write_error-map_rpc_error :
    {R : Type 0} (json_true : R) (msg : Bytes) (seconds : ℕ)
    → write_error json_true (api (map_rpc_error msg seconds))
      ≡ envelope
          (map_rpc_error msg seconds).code
          (from_error json_true (some (api (map_rpc_error msg seconds))))
unfolding write_error from_error
write_error-map_rpc_error json_true msg seconds =
    rw (known_status (map_rpc_error msg seconds).code (map_rpc_error_codes msg seconds).0)
