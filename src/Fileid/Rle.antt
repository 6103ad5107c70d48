-- ===== src/Fileid/Rle.antt =====
-- `rleEncode` and `rleDecode` of internal/fileid/fileid.go.
use tgbotd.Prelude.{
  ℕ, zero, suc, ◌≤◌, ◌≡◌, refl, ap, ◌∙◌, [], ◌∷◌, ◌++◌, true, false, ◌==◌, if◌then◌else◌, replicate,
  length, arith, Bool-cases, inl, inr, All,
}
use tgbotd.Prelude.Bytes.{Bytes, IsByte}

-- The inner loop: at most `budget` zeros are counted, and the bytes from there on are left.
unfoldable pub zero_run : ℕ → Bytes → ℕ × Bytes
zero_run zero s = (0, s)
zero_run (suc budget) [] = (0, [])
zero_run (suc budget) (c ∷ s) =
    let rest = zero_run budget s in if c == 0 then (suc rest.0, rest.1) else (0, c ∷ s)

-- The outer loop; the number of bytes is enough fuel.
unfoldable pub rle_loop : ℕ → Bytes → Bytes
rle_loop zero s = []
rle_loop (suc f) [] = []
rle_loop (suc f) (c ∷ s) = elim (c == 0) [
  | true ↦ let run = zero_run 255 (c ∷ s) in 0 ∷ run.0 ∷ rle_loop f run.1
  | false ↦ c ∷ rle_loop f s
]

unfoldable pub rle_encode : Bytes → Bytes
unfolding rle_loop zero_run
rle_encode s = rle_loop (length s) s

-- A zero without a count at the end stands for itself.
unfoldable pub rle_decode : Bytes → Bytes
rle_decode [] = []
rle_decode (c ∷ []) = c ∷ []
rle_decode (c ∷ n ∷ s) = elim (c == 0) [
  | true ↦ replicate n 0 ++ rle_decode s
  | false ↦ c ∷ rle_decode (n ∷ s)
]

zero_run-split :
    (b : ℕ) (s : Bytes)
    → (replicate (zero_run b s).0 0 ++ (zero_run b s).1 ≡ s) × ((zero_run b s).0 ≤ b)
unfolding zero_run
zero_run-split zero s = (refl, omega arith)
zero_run-split (suc b) [] = (refl, omega arith)
zero_run-split (suc b) (c ∷ s) =
    let ih = zero_run-split b s in (ground (arith, ih.0), ground (arith, ih.1))

zero_run-length : (b : ℕ) (s : Bytes) → length (zero_run b s).1 ≤ length s
unfolding zero_run
zero_run-length zero s = omega arith
zero_run-length (suc b) [] = omega arith
zero_run-length (suc b) (c ∷ s) = ground (arith, zero_run-length b s)

zero_run_first :
    (b c : ℕ) (s : Bytes)
    → (c == 0) ≡ true
    → zero_run (suc b) (c ∷ s) ≡ (suc (zero_run b s).0, (zero_run b s).1)
unfolding zero_run
zero_run_first b c s h = rw h

zero_run-shorter :
    (c : ℕ) (s : Bytes) → (c == 0) ≡ true → length (zero_run 255 (c ∷ s)).1 ≤ length s
zero_run-shorter c s h =
    let first : zero_run (suc 254) (c ∷ s) ≡ (suc (zero_run 254 s).0, (zero_run 254 s).1) =
      zero_run_first 254 c s h in
    rw first (zero_run-length 254 s)

decode_literal : (c : ℕ) (s : Bytes) → (c == 0) ≡ false → rle_decode (c ∷ s) ≡ c ∷ rle_decode s
unfolding rle_decode
decode_literal c [] h = refl
decode_literal c (n ∷ s) h = rw (h, rle_decode)

decode_run : (n : ℕ) (s : Bytes) → rle_decode (0 ∷ n ∷ s) ≡ replicate n 0 ++ rle_decode s
unfolding rle_decode
decode_run n s = refl

rle_decode-loop : (f : ℕ) (s : Bytes) → length s ≤ f → rle_decode (rle_loop f s) ≡ s
unfolding rle_loop
rle_decode-loop zero [] h = unfold rle_decode in refl
rle_decode-loop zero (c ∷ s) h = absurd (omega arith)
rle_decode-loop (suc f) [] h = unfold rle_decode in refl
rle_decode-loop (suc f) (c ∷ s) h = elim (Bool-cases (c == 0)) [
  | inl z ↦
      let run = zero_run 255 (c ∷ s) in
      let shorter = zero_run-shorter c s z in
      rw (z, rle_loop)
        (decode_run run.0 (rle_loop f run.1)
          ∙ ap (λ t. replicate run.0 0 ++ t) (rle_decode-loop f run.1 (omega arith))
          ∙ (zero_run-split 255 (c ∷ s)).0)
  | inr nz ↦
      rw (nz, rle_loop)
        (decode_literal c (rle_loop f s) nz ∙ ap (λ t. c ∷ t) (rle_decode-loop f s (omega arith)))
]

-- Decoding what `rleEncode` wrote gives the bytes back, runs of more than 255 zeros included.
pub rle_decode-encode : (s : Bytes) → rle_decode (rle_encode s) ≡ s
unfolding rle_encode
rle_decode-encode s = rle_decode-loop (length s) s (omega arith)

zero_run-IsByte : (b : ℕ) (s : Bytes) → All IsByte s → All IsByte (zero_run b s).1
unfolding zero_run
zero_run-IsByte zero s h = h
zero_run-IsByte (suc b) [] h = tt
zero_run-IsByte (suc b) (c ∷ s) h = ground (arith, zero_run-IsByte b s h.1)

rle_loop-IsByte : (f : ℕ) (s : Bytes) → All IsByte s → All IsByte (rle_loop f s)
unfolding rle_loop
rle_loop-IsByte zero s h = tt
rle_loop-IsByte (suc f) [] h = tt
rle_loop-IsByte (suc f) (c ∷ s) h = elim (Bool-cases (c == 0)) [
  | inl z ↦
      let run = zero_run 255 (c ∷ s) in
      let few = (zero_run-split 255 (c ∷ s)).1 in
      rw (z, rle_loop)
        (omega arith, (omega arith, rle_loop-IsByte f run.1 (zero_run-IsByte 255 (c ∷ s) h)))
  | inr nz ↦ rw (nz, rle_loop) (h.0, rle_loop-IsByte f s h.1)
]

pub rle_encode-IsByte : (s : Bytes) → All IsByte s → All IsByte (rle_encode s)
unfolding rle_encode
rle_encode-IsByte s = rle_loop-IsByte (length s) s
