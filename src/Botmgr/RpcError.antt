-- ===== src/Botmgr/RpcError.antt =====
-- `mapRPCError` of internal/botmgr/botmgr.go: an error of the MTProto library, given by its text,
-- becomes a Bot API error. `telegram.GetFloodWait` is the library's: its seconds are a parameter.
pub mod Laws
pub mod Tests
use tgbotd.Prelude.{
  ℕ, ◌+◌, ◌-◌, List, [], ◌∷◌, ◌++◌, Option, none, some, Bool, true, false, ◌&&◌, ◌||◌, ltb, ◌==◌,
  if◌then◌else◌, take, drop,
}
use tgbotd.Prelude.Bytes.{Bytes, codes, bytes_eq, has_prefix, index_byte}
use tgbotd.Prelude.Int.{ℤ, pos}
use tgbotd.Prelude.Decimal.{digits}
use tgbotd.Botapi.{ApiError, ResponseParameters, errorf}

-- The text between the first '[' and the next ']' behind it; empty where there is none.
unfoldable pub extract_tag : Bytes → Bytes
extract_tag msg = elim (index_byte msg b'[') [
  | none ↦ []
  | some start ↦ elim (index_byte (drop start msg) b']') [
    | none ↦ []
    | some end ↦ if ltb 0 end then take (end - 1) (drop (start + 1) msg) else []
  ]
]

unfoldable pub one_of : Bytes → List Bytes → Bool
one_of tag [] = false
one_of tag (t ∷ ts) = bytes_eq tag t || one_of tag ts

unfoldable pub has_prefix_of : Bytes → List Bytes → Bool
has_prefix_of tag [] = false
has_prefix_of tag (p ∷ ps) = has_prefix tag p || has_prefix_of tag ps

abbrev pub auth_tags : List Bytes
auth_tags =
    codes "ACCESS_TOKEN_INVALID"
    ∷ codes "ACCESS_TOKEN_EXPIRED"
    ∷ codes "AUTH_KEY_INVALID"
    ∷ codes "AUTH_KEY_UNREGISTERED"
    ∷ codes "SESSION_REVOKED"
    ∷ codes "USER_DEACTIVATED_BAN"
    ∷ []

abbrev pub flood_prefixes : List Bytes
flood_prefixes = codes "FLOOD_WAIT_" ∷ codes "FLOOD_PREMIUM_WAIT_" ∷ codes "SLOWMODE_WAIT_" ∷ []

abbrev pub access_tags : List Bytes
access_tags =
    codes "CHAT_WRITE_FORBIDDEN"
    ∷ codes "USER_BANNED_IN_CHANNEL"
    ∷ codes "CHANNEL_PRIVATE"
    ∷ codes "USER_IS_BLOCKED"
    ∷ codes "USER_DEACTIVATED"
    ∷ codes "CHAT_ADMIN_REQUIRED"
    ∷ codes "RIGHT_FORBIDDEN"
    ∷ []

unfoldable pub code_of_tag : Bytes → ℕ
unfolding one_of has_prefix_of
code_of_tag tag =
    if one_of tag auth_tags
    then 401
    else if has_prefix_of tag flood_prefixes
    then 429
    else if one_of tag access_tags
    then 403
    else 400

unfoldable pub http_status_text : ℕ → Bytes
http_status_text c =
    if c == 400
    then codes "Bad Request"
    else if c == 401
    then codes "Unauthorized"
    else if c == 403
    then codes "Forbidden"
    else if c == 404
    then codes "Not Found"
    else if c == 429
    then codes "Too Many Requests"
    else if c == 500
    then codes "Internal Server Error"
    else codes "Bad Request"

-- The error before the seconds of a flood wait are put in.
unfoldable pub tagged_error : Bytes → ApiError
unfolding extract_tag code_of_tag http_status_text
tagged_error msg = elim (extract_tag msg) [
  | [] ↦ errorf 400 msg
  | c ∷ s ↦
      let code = code_of_tag (c ∷ s) in
      errorf code (http_status_text code ++ (codes ": " ++ (c ∷ s)))
]

-- `seconds` is `GetFloodWait(err)`; the code asks only whether it is positive.
unfoldable pub map_rpc_error : Bytes → ℕ → ApiError
unfolding tagged_error
map_rpc_error msg seconds =
    let ae = tagged_error msg in
    if ae.code == 429 && ltb 0 seconds
    then record {
      code = ae.code;
      description = codes "Too Many Requests: retry after " ++ digits seconds;
      parameters = some (record { migrate_to_chat_id = pos 0; retry_after = pos seconds });
    }
    else ae
