-- ===== src/Prelude/Slices.antt =====
-- Parts of a text around a position or a byte.
use tgbotd.Prelude.{
  ℕ, zero, suc, ◌+◌, ◌≡◌, refl, ap, [], ◌∷◌, ◌++◌, some, ◌==◌, take, drop, length, arith,
  Bool-cases, Option-cases, inl, inr,
}
use tgbotd.Prelude.Bytes.{Bytes, index_byte, Lacks}

pub index_byte-append :
    (p rest : Bytes) (b : ℕ) → Lacks b p → index_byte (p ++ b ∷ rest) b ≡ some (length p)
unfolding index_byte
index_byte-append [] rest b h = ground arith
index_byte-append (c ∷ p) rest b h = ground (arith, index_byte-append p rest b h.1)

pub drop-length-append : (p rest : Bytes) → drop (length p) (p ++ rest) ≡ rest
drop-length-append [] rest = refl
drop-length-append (c ∷ p) rest = drop-length-append p rest

pub take-length-append : (p rest : Bytes) → take (length p) (p ++ rest) ≡ p
take-length-append [] rest = refl
take-length-append (c ∷ p) rest = rw (take-length-append p rest)

pub drop-suc-append : (p rest : Bytes) (c : ℕ) → drop (length p + 1) (p ++ c ∷ rest) ≡ rest
drop-suc-append [] rest c = refl
drop-suc-append (d ∷ p) rest c =
    let e : suc (length p) + 1 ≡ suc (length p + 1) = omega arith in rw e (drop-suc-append p rest c)

-- A text is what stands before the byte found, the byte, and what stands behind it.
pub index_byte-parts :
    (s : Bytes) (b i : ℕ)
    → index_byte s b ≡ some i
    → (s ≡ take i s ++ b ∷ drop (i + 1) s) × (length (take i s) ≡ i)
unfolding index_byte
index_byte-parts [] b i h = absurd (cc)
index_byte-parts (c ∷ s) b zero h = elim (Bool-cases (c == b)) [
  | inl hit ↦ (ap (λ t. t ∷ s) (ground arith), refl)
  | inr miss ↦ elim (Option-cases (index_byte s b)) [
    | inl gone ↦ absurd (ground arith)
    | inr (k, e) ↦ absurd (ground arith)
  ]
]
index_byte-parts (c ∷ s) b (suc i) h = elim (Bool-cases (c == b)) [
  | inl hit ↦ absurd (ground arith)
  | inr miss ↦ elim (Option-cases (index_byte s b)) [
    | inl gone ↦ absurd (ground arith)
    | inr (k, e) ↦
        let ih = index_byte-parts s b i (ground arith) in
        let next : suc i + 1 ≡ suc (i + 1) = omega arith in
        (rw next (ap (λ t. c ∷ t) ih.0), ap suc ih.1)
  ]
]
