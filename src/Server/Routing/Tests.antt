-- ===== src/Server/Routing/Tests.antt =====
-- Paths, statuses and counters on small inputs. A bot is a number, and a result too.
use tgbotd.Prelude.{ℕ, ◌≡◌, refl, [], Option, some}
use tgbotd.Prelude.Bytes.{Bytes, codes, bytes_eq, has_prefix, index_byte}
use tgbotd.Prelude.Int.{pos}
use tgbotd.Botapi.{Result, ok, err, api, err_unauthorized, from_error}
use tgbotd.Botmgr.RpcError.{map_rpc_error}
use tgbotd.Server.Routing.{
  health, no_method, route, route_path, split_call, no_trailing_slash, envelope, write_error,
  Output, HttpRequest, Metrics, handle,
}
use tgbotd.Server.Routing.Laws.{write_error-map_rpc_error}
use tgbotd.Server.Routing.Counters.{IsBalanced, handle-IsBalanced}

route_health : route (codes "/") ≡ health
unfolding route route_path no_trailing_slash bytes_eq
route_health = refl

route_no_token : route (codes "/bot/getMe") ≡ no_method
unfolding route route_path no_trailing_slash bytes_eq has_prefix split_call index_byte
route_no_token = refl

abbrev seven : ℕ
seven = 7

write_error-map_rpc_error_example :
    write_error seven (api (map_rpc_error (codes "[FLOOD_WAIT_5]") 5))
    ≡ envelope
        (map_rpc_error (codes "[FLOOD_WAIT_5]") 5).code
        (from_error seven (some (api (map_rpc_error (codes "[FLOOD_WAIT_5]") 5))))
write_error-map_rpc_error_example = write_error-map_rpc_error seven (codes "[FLOOD_WAIT_5]") 5

abbrev no_calls_yet : Metrics
no_calls_yet = record {
  requests = 0;
  errors = 0;
  total_duration = 0;
  flood_waits = 0;
  auth_401s = 0;
  forbidden = 0;
  bytes_in = 0;
  bytes_out = 0;
  methods = [];
}

abbrev same_text : Bytes → Bytes
same_text s = s

abbrev no_cache : ℕ → Bytes
no_cache b = []

abbrev one_bot : Bytes → Result ℕ
one_bot token = ok 1

-- Every method is there, and refused.
abbrev refusing : Bytes → Option (ℕ → ℕ → Result (Output ℕ))
refusing method = some (λ b p. err (api err_unauthorized))

abbrev get_me : HttpRequest
get_me = record { path = codes "/bot1:A/getMe"; raw_query = []; content_length = pos 3 }

handle-IsBalanced_example :
    IsBalanced (handle 7 same_text no_cache one_bot refusing (ok 0) 1000 get_me no_calls_yet).0
handle-IsBalanced_example =
    handle-IsBalanced 7 same_text no_cache one_bot refusing (ok 0) 1000 get_me no_calls_yet
      (record { calls = refl; fails = refl })
