-- ===== src/Botmgr/RpcError/Laws.antt =====
-- What `mapRPCError` makes of an error's text.
use tgbotd.Prelude.{
  ℕ, suc, ◌-◌, ◌<◌, ◌≡◌, ◌≢◌, refl, [], ◌∷◌, ◌++◌, none, some, true, ltb, ◌==◌, arith, length, ◌⊎◌,
  inl, inr, Bool-cases, All-append, lt→ltb, ◌&&◌,
}
use tgbotd.Prelude.Bytes.{Bytes, codes, index_byte, Lacks, has_prefix, bytes_eq}
use tgbotd.Prelude.Int.{pos}
use tgbotd.Prelude.Decimal.{format_int}
use tgbotd.Botapi.{flood_wait}
use tgbotd.Prelude.Slices.{
  index_byte-append, drop-length-append, take-length-append, drop-suc-append,
}
use tgbotd.Botmgr.RpcError.{extract_tag, code_of_tag, tagged_error, map_rpc_error}

tag_end :
    (tag rest : Bytes)
    → Lacks b']' tag
    → index_byte (b'[' ∷ (tag ++ b']' ∷ rest)) b']' ≡ some (suc (length tag))
unfolding index_byte
tag_end tag rest h = rw (index_byte-append tag rest b']' h)

-- The tag is found behind any text that holds no '[', so however the library wraps it.
pub extract_tag_wrapped :
    (p tag rest : Bytes)
    → Lacks b'[' p
    → Lacks b']' tag
    → extract_tag (p ++ b'[' ∷ (tag ++ b']' ∷ rest)) ≡ tag
unfolding extract_tag
extract_tag_wrapped p tag rest hp ht =
    let e : suc (length tag) - 1 ≡ length tag = omega arith in
    let pos : ltb 0 (suc (length tag)) ≡ true = ground arith in
    rw (index_byte-append p (tag ++ b']' ∷ rest) b'[' hp, extract_tag)
      (rw (drop-length-append p (b'[' ∷ (tag ++ b']' ∷ rest))) (
        rw (tag_end tag rest ht) (
          rw (drop-suc-append p (tag ++ b']' ∷ rest) b'[', e, pos)
            (take-length-append tag (b']' ∷ rest)))))

abbrev pub wrapped : Bytes → Bytes → Bytes → Bytes
wrapped p tag rest = p ++ b'[' ∷ (tag ++ b']' ∷ rest)

flood_code : (ds : Bytes) → code_of_tag (codes "FLOOD_WAIT_" ++ ds) ≡ 429
unfolding code_of_tag
flood_code ds = unfold bytes_eq has_prefix in refl

-- A flood wait of a positive number of seconds, with any text behind its tag and a text
-- without an opening bracket before it, becomes the error that tells the client to retry after
-- just that many seconds.
pub map_rpc_error_flood :
    (p ds rest : Bytes) (seconds : ℕ)
    → Lacks b'[' p
    → Lacks b']' ds
    → 0 < seconds
    → map_rpc_error (wrapped p (codes "FLOOD_WAIT_" ++ ds) rest) seconds ≡ flood_wait (pos seconds)
unfolding map_rpc_error format_int
map_rpc_error_flood p ds rest seconds hp hd positive =
    let tag_Lacks : Lacks b']' (codes "FLOOD_WAIT_" ++ ds) =
      All-append (λ c. c ≢ b']') (codes "FLOOD_WAIT_") ds (omega arith) hd in
    rw
      (
        extract_tag_wrapped p (codes "FLOOD_WAIT_" ++ ds) rest hp tag_Lacks,
        tagged_error,
        map_rpc_error,
      )
      (rw (flood_code ds, lt→ltb 0 seconds positive))

code_of_tag_cases :
    (tag : Bytes)
    → (code_of_tag tag ≡ 400)
      ⊎ (code_of_tag tag ≡ 401)
      ⊎ (code_of_tag tag ≡ 403)
      ⊎ (code_of_tag tag ≡ 429)
unfolding code_of_tag
code_of_tag_cases tag = ground arith

abbrev pub IsRpcCode : ℕ → Type 0
IsRpcCode c = (c ≡ 400) ⊎ (c ≡ 401) ⊎ (c ≡ 403) ⊎ (c ≡ 429)

tagged_error_code :
    (msg : Bytes) → IsRpcCode (tagged_error msg).code × ((tagged_error msg).parameters ≡ none)
unfolding tagged_error
tagged_error_code msg = go (extract_tag msg) refl
  where
    go :
        (t : Bytes)
        → extract_tag msg ≡ t
        → IsRpcCode (tagged_error msg).code × ((tagged_error msg).parameters ≡ none)
    go [] e = rw (e, tagged_error) (inl refl, refl)
    go (c ∷ s) e = rw (e, tagged_error) (code_of_tag_cases (c ∷ s), refl)

-- Every mapped error has one of four codes, and only one with the code 429 carries parameters.
pub map_rpc_error_codes :
    (msg : Bytes) (seconds : ℕ)
    → let ae = map_rpc_error msg seconds in
      IsRpcCode ae.code × ((ae.parameters ≡ none) ⊎ (ae.code ≡ 429))
unfolding map_rpc_error
map_rpc_error_codes msg seconds =
    let known = tagged_error_code msg in
    elim (Bool-cases ((tagged_error msg).code == 429 && ltb 0 seconds)) [
      | inl flood ↦ rw (flood, map_rpc_error) (known.0, inr (ground arith))
      | inr plain ↦ rw (plain, map_rpc_error) (known.0, inl known.1)
    ]
