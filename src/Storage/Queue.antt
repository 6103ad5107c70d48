-- ===== src/Storage/Queue.antt =====
-- The stored queue of internal/storage/storage.go: its numbers, and what acknowledging leaves.
use tgbotd.Prelude.{
  ℕ, suc, max, ◌+◌, ◌≤◌, ◌≡◌, refl, List, [], ◌∷◌, ◌++◌, false, ◌&&◌, ltb, Bool-cases, inl, inr,
  arith,
}
use tgbotd.Prelude.Bytes.{Bytes, bytes_eq}
use tgbotd.Prelude.Maps.{bytes_eq_common}
use tgbotd.Prelude.Int.{ℤ}
use tgbotd.Storage.{
  QueueRow, Store, enqueue_update, waiting_rows, fetch_updates, without_acked, ack_updates,
  without_token, drop_updates,
}

-- The numbers rise, from `n` on and below `top`.
abbrev pub Numbered : ℕ → ℕ → List QueueRow → Type 0
Numbered n top [] = n ≤ top
Numbered n top (r ∷ rs) = (n ≤ r.seq) × Numbered (suc r.seq) top rs

Numbered-mono : (m n top : ℕ) (rs : List QueueRow) → m ≤ n → Numbered n top rs → Numbered m top rs
Numbered-mono m n top [] le h = omega arith
Numbered-mono m n top (r ∷ rs) le h = (omega arith, h.1)

Numbered-append :
    (n top : ℕ) (rs : List QueueRow) (r : QueueRow)
    → r.seq ≡ top
    → Numbered n top rs
    → Numbered n (top + 1) (rs ++ r ∷ [])
Numbered-append n top [] r e h = (omega arith, omega arith)
Numbered-append n top (x ∷ rs) r e h = (h.0, Numbered-append (suc x.seq) top rs r e h.1)

Numbered-acked :
    (token : Bytes) (up_to n top : ℕ) (rs : List QueueRow)
    → Numbered n top rs
    → Numbered n top (without_acked token up_to rs)
unfolding without_acked
Numbered-acked token up_to n top [] h = h
Numbered-acked token up_to n top (r ∷ rs) h =
    let ih = Numbered-acked token up_to (suc r.seq) top rs h.1 in
    elim (Bool-cases (bytes_eq token r.token && ltb r.seq up_to)) [
      | inl gone ↦
          rw gone
            (Numbered-mono n (suc r.seq) top (without_acked token up_to rs) (omega (arith, h.0)) ih)
      | inr kept ↦ rw kept (h.0, ih)
    ]

Numbered-dropped :
    (token : Bytes) (n top : ℕ) (rs : List QueueRow)
    → Numbered n top rs
    → Numbered n top (without_token token rs)
unfolding without_token
Numbered-dropped token n top [] h = h
Numbered-dropped token n top (r ∷ rs) h =
    let ih = Numbered-dropped token (suc r.seq) top rs h.1 in
    elim (Bool-cases (bytes_eq token r.token)) [
      | inl gone ↦
          rw gone (Numbered-mono n (suc r.seq) top (without_token token rs) (omega (arith, h.0)) ih)
      | inr kept ↦ rw kept (h.0, ih)
    ]

-- The numbers of the stored queue rise strictly and stay below the next one, whatever is queued,
-- acknowledged or dropped.
pub queue-Numbered :
    (token payload : Bytes) (now up_to : ℕ) (s : Store)
    → Numbered 1 s.next_seq s.queue
    → Numbered 1
        (enqueue_update token payload now s).0.next_seq
        (enqueue_update token payload now s).0.queue
      × Numbered 1 (ack_updates token up_to s).next_seq (ack_updates token up_to s).queue
      × Numbered 1 (drop_updates token s).next_seq (drop_updates token s).queue
unfolding enqueue_update ack_updates drop_updates
queue-Numbered token payload now up_to s h = (
  Numbered-append 1 s.next_seq s.queue
      (record { token = token; seq = s.next_seq; payload = payload; created_at = now }) refl h,
  Numbered-acked token up_to 1 s.next_seq s.queue h,
  Numbered-dropped token 1 s.next_seq s.queue h,
)

waiting-acked :
    (token : Bytes) (up_to offset : ℕ) (rs : List QueueRow)
    → waiting_rows token offset (without_acked token up_to rs)
      ≡ waiting_rows token (max offset up_to) rs
unfolding waiting_rows without_acked
waiting-acked token up_to offset [] = refl
waiting-acked token up_to offset (r ∷ rs) = ground (arith, waiting-acked token up_to offset rs)

waiting-acked_other :
    (token other : Bytes) (up_to offset : ℕ) (rs : List QueueRow)
    → bytes_eq token other ≡ false
    → waiting_rows other offset (without_acked token up_to rs) ≡ waiting_rows other offset rs
unfolding waiting_rows without_acked
waiting-acked_other token other up_to offset [] ne = refl
waiting-acked_other token other up_to offset (r ∷ rs) ne =
    ground (
      arith,
      waiting-acked_other token other up_to offset rs ne,
      bytes_eq_common token other r.token,
    )

-- After an acknowledgement, a fetch finds what it found before from the later of its offset and the
-- acknowledged number on, and a fetch for another bot finds what it found before.
pub fetch-ack_updates :
    (token other : Bytes) (up_to offset : ℕ) (limit : ℤ) (s : Store)
    → bytes_eq token other ≡ false
    → (fetch_updates token offset limit (ack_updates token up_to s)
        ≡ fetch_updates token (max offset up_to) limit s)
      × (fetch_updates other offset limit (ack_updates token up_to s)
          ≡ fetch_updates other offset limit s)
unfolding fetch_updates ack_updates
fetch-ack_updates token other up_to offset limit s ne = (
  rw (waiting-acked token up_to offset s.queue),
  rw (waiting-acked_other token other up_to offset s.queue ne),
)
