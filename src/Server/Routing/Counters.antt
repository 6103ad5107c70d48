-- ===== src/Server/Routing/Counters.antt =====
-- The counters of internal/server/metrics.go agree with each other.
use tgbotd.Prelude.{
  ℕ, ◌≡◌, ap, ◌∙◌, sym, List, [], ◌∷◌, Option, Bool, true, false, arith, Bool-cases, Option-cases,
  inl, inr, length,
}
use tgbotd.Prelude.Bytes.{Bytes}
use tgbotd.Botapi.{Result, ok, err, Error, api, other, Result-cases}
use tgbotd.Server.Routing.{
  MethodStat, Metrics, Output, HttpRequest, add64, error_count, count_method, record_call,
  count_code, count_error, finish, call_method, is_cached, call_bot, health, stats, file_download,
  unknown_path, no_method, call, handle_route, handle, route, not_negative,
}

-- What the methods' counters add up to.
abbrev pub all_calls : List (Bytes × MethodStat) → ℕ
all_calls [] = 0
all_calls ((k, m) ∷ ms) = add64 m.count (all_calls ms)

abbrev pub all_errors : List (Bytes × MethodStat) → ℕ
all_errors [] = 0
all_errors ((k, m) ∷ ms) = add64 m.errored (all_errors ms)

pub record IsBalanced (m : Metrics) : Type 0 where
  pub calls : m.requests ≡ all_calls m.methods
  pub fails : m.errors ≡ all_errors m.methods

all_calls-count :
    (method : Bytes) (dur : ℕ) (failed : Bool) (ms : List (Bytes × MethodStat))
    → all_calls (count_method method dur failed ms) ≡ add64 (all_calls ms) 1
unfolding count_method
all_calls-count method dur failed [] = omega arith
all_calls-count method dur failed ((k, m) ∷ ms) =
    ground (arith, all_calls-count method dur failed ms)

all_errors-count :
    (method : Bytes) (dur : ℕ) (failed : Bool) (ms : List (Bytes × MethodStat))
    → all_errors (count_method method dur failed ms) ≡ add64 (all_errors ms) (error_count failed)
unfolding count_method
all_errors-count method dur failed [] = ground arith
all_errors-count method dur failed ((k, m) ∷ ms) =
    ground (arith, all_errors-count method dur failed ms)

record_call-IsBalanced :
    (method : Bytes) (dur : ℕ) (failed : Bool) (bytes_in bytes_out : ℕ) (m : Metrics)
    → IsBalanced m
    → IsBalanced (record_call method dur failed bytes_in bytes_out m)
unfolding record_call
record_call-IsBalanced method dur failed bytes_in bytes_out m v = record {
  calls = ap (λ n. add64 n 1) v.calls ∙ sym (all_calls-count method dur failed m.methods);
  fails =
      ap (λ n. add64 n (error_count failed)) v.fails
      ∙ sym (all_errors-count method dur failed m.methods);
}

same_counts :
    (m m' : Metrics)
    → m'.requests ≡ m.requests
    → m'.errors ≡ m.errors
    → m'.methods ≡ m.methods
    → IsBalanced m
    → IsBalanced m'
same_counts m m' r e ms v = record {
  calls = r ∙ v.calls ∙ ap all_calls (sym ms);
  fails = e ∙ v.fails ∙ ap all_errors (sym ms);
}

count_error-IsBalanced : (e : Error) (m : Metrics) → IsBalanced m → IsBalanced (count_error e m)
count_error-IsBalanced (other text) m v = v
count_error-IsBalanced (api e) m v =
    same_counts m (count_code e.code m) (ground arith) (ground arith) (ground arith) v

module _ {R B P : Type 0} (json_true : R) (quote : Bytes → Bytes) (get_me_cache : B → Bytes)
    (get : Bytes → Result B) (handlers : Bytes → Option (B → P → Result (Output R)))
    (params : Result P) (dur : ℕ) where
  finish-IsBalanced :
      (method : Bytes) (bytes_in : ℕ) (r : Result (Output R)) (m : Metrics)
      → IsBalanced m
      → IsBalanced
          (finish json_true quote get_me_cache get handlers params dur method bytes_in r m).0
  unfolding finish
  finish-IsBalanced method bytes_in (err e) m v =
      record_call-IsBalanced method dur true bytes_in 0 (count_error e m)
        (count_error-IsBalanced e m v)
  finish-IsBalanced method bytes_in (ok out) m v =
      record_call-IsBalanced method dur false bytes_in 0 m v

  call_method-IsBalanced :
      (r : HttpRequest) (bot : B) (method : Bytes) (m : Metrics)
      → IsBalanced m
      → IsBalanced
          (call_method json_true quote get_me_cache get handlers params dur r bot method m).0
  unfolding call_method
  call_method-IsBalanced r bot method m v = elim (Option-cases (handlers method)) [
    | inl unknown ↦ rw (unknown, call_method) (record_call-IsBalanced method 0 true 0 0 m v)
    | inr (h, e) ↦
        rw (e, call_method)
          (elim (Result-cases params) [
            | inl (ps, e') ↦
                rw (e', call_method)
                  (finish-IsBalanced method (not_negative r.content_length) (h bot ps) m v)
            | inr (failure, e') ↦ rw (e', call_method) v
          ])
  ]

  call_bot-IsBalanced :
      (r : HttpRequest) (token method : Bytes) (m : Metrics)
      → IsBalanced m
      → IsBalanced
          (call_bot json_true quote get_me_cache get handlers params dur r token method m).0
  unfolding call_bot
  call_bot-IsBalanced r token method m v = elim (Result-cases (get token)) [
    | inr (failure, e) ↦ rw (e, call_bot) v
    | inl (bot, e) ↦
        rw (e, call_bot)
          (elim (Bool-cases (
            is_cached json_true quote get_me_cache get handlers params dur r method
              (get_me_cache bot))) [
                | inl cached ↦
                    rw cached
                      (record_call-IsBalanced method 0 false 0 (length (get_me_cache bot)) m v)
                | inr called ↦ rw called (call_method-IsBalanced r bot method m v)
              ])
  ]

  -- Whatever a request is, and however it ends, the number of requests stays the sum of the methods' counts
  -- and the number of errors the sum of their errors, modulo 2^64.
  pub handle-IsBalanced :
      (r : HttpRequest) (m : Metrics)
      → IsBalanced m
      → IsBalanced (handle json_true quote get_me_cache get handlers params dur r m).0
  unfolding handle
  handle-IsBalanced r m v =
      elim (route r.path)
        as (λ t.
          IsBalanced (handle_route json_true quote get_me_cache get handlers params dur r t m).0) [
            | health ↦ v
            | stats ↦ v
            | file_download path ↦ v
            | unknown_path ↦ v
            | no_method ↦ v
            | call token method ↦ call_bot-IsBalanced r token method m v
          ]
