-- ===== src/Botmgr/Manager/Token.antt =====
-- The tokens that `validateToken` accepts.
use tgbotd.Prelude.{
  ℕ, zero, suc, ◌+◌, ◌≤◌, ◌<◌, ◌≡◌, ap, sym, ◌∷◌, ◌++◌, Option, none, some, false, ◌||◌, ◌==◌, ltb,
  length, take, drop, arith, Bool-cases, Option-cases, inl, inr,
}
use tgbotd.Prelude.Bytes.{Bytes, index_byte, Lacks}
use tgbotd.Prelude.Slices.{index_byte-append, index_byte-parts, take-length-append, drop-suc-append}
use tgbotd.Prelude.Int.{ℤ, pos, negsuc}
use tgbotd.Prelude.Decimal.{parse_int}
use tgbotd.Botapi.{ok, err, Error}
use tgbotd.Botmgr.Manager.{check_id, validate_parts, validate_token}

-- The parts of a token around its first colon.
pub record IsToken (token : Bytes) (id : ℤ) : Type 0 where
  pub number : Bytes
  pub secret : Bytes
  pub parts : token ≡ number ++ b':' ∷ secret
  pub short : length number ≤ 20
  pub parsed : parse_int number ≡ some id
  pub positive : (n : ℕ) × (id ≡ pos (suc n))
  pub long : 30 ≤ length secret

err≢ok : {e : Error} {a : ℤ} → err e ≡ ok a → ⊥
err≢ok h = cc

ok-injective : {a b : ℤ} → ok a ≡ ok b → a ≡ b
ok-injective h = cc

check_id_sound :
    (o : Option ℤ) (secret : Bytes) (id : ℤ)
    → check_id o secret ≡ ok id
    → (o ≡ some id) × ((n : ℕ) × (id ≡ pos (suc n))) × (30 ≤ length secret)
check_id_sound none secret id h = absurd (cc)
check_id_sound (some (negsuc n)) secret id h = absurd (cc)
check_id_sound (some (pos zero)) secret id h = absurd (cc)
check_id_sound (some (pos (suc n))) secret id h = elim (Bool-cases (ltb (length secret) 30)) [
  | inl short ↦ absurd (ground arith)
  | inr long ↦
      let same : pos (suc n) ≡ id = ok-injective (ground arith) in
      (ap some same, (n, sym same), ground arith)
]

-- An accepted token is a number of at most 20 bytes that `ParseInt` reads as the positive id returned, a
-- colon, and a secret of at least 30 bytes.
pub validate_token_sound :
    (token : Bytes) (id : ℤ) → validate_token token ≡ ok id → IsToken token id
unfolding validate_token validate_parts
validate_token_sound token id h = elim (Option-cases (index_byte token b':')) [
  | inl gone ↦ absurd (err≢ok (rw (gone, validate_token) at h))
  | inr (i, e) ↦ elim (Bool-cases (i == 0 || ltb 20 i)) [
    | inl far ↦ absurd (err≢ok (rw (far, validate_parts) at (rw (e, validate_token) at h)))
    | inr near ↦
        let (parsed, positive, long) =
          check_id_sound (parse_int (take i token)) (drop (i + 1) token) id
            (rw (near, validate_parts) at (rw (e, validate_token) at h)) in
        let (parts, at) = index_byte-parts token b':' i e in
        record {
          number = take i token;
          secret = drop (i + 1) token;
          parts = parts;
          short = ground arith;
          parsed = parsed;
          positive = positive;
          long = long;
        }
  ]
]

-- Every token of that shape is accepted, if its number holds no colon and is not empty.
pub validate_token_complete :
    (number secret : Bytes) (n : ℕ)
    → Lacks b':' number
    → 0 < length number
    → length number ≤ 20
    → parse_int number ≡ some (pos (suc n))
    → 30 ≤ length secret
    → validate_token (number ++ b':' ∷ secret) ≡ ok (pos (suc n))
unfolding validate_token validate_parts
validate_token_complete number secret n lacks some_number short parsed long =
    let near : (length number == 0 || ltb 20 (length number)) ≡ false = ground arith in
    let enough : ltb (length secret) 30 ≡ false = ground arith in
    rw (index_byte-append number secret b':' lacks, validate_parts)
      (rw
        (
          near,
          take-length-append number (b':' ∷ secret),
          drop-suc-append number secret b':',
          parsed,
          enough,
        )
        (ground arith))
