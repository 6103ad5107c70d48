-- ===== src/Botmgr/Updates/Refinement.antt =====
-- The buffer of internal/botmgr/updates.go implements the log of `Log.antt`.
use tgbotd.Prelude.{
  ℕ, suc, ◌+◌, ◌-◌, ◌≤◌, ◌<◌, min, max, ◌≡◌, refl, ap, List, [], ◌∷◌, ◌++◌, leb, if◌then◌else◌,
  length, drop, arith, length-append, length-drop, drop-append_le, drop-drop, Bool-cases, inl, inr,
  leb→le, drop_all,
}
use tgbotd.Botmgr.Updates.{UpdateItem, UpdateBuffer, new_update_buffer, push, ack, clear}
use tgbotd.Botmgr.Updates.Log.{number, length-number, number-append, drop-number, skip_below-number}

pub record Log (U : Type 0) : Type 0 where
  pub history : List U
  pub gone : ℕ

module _ {U : Type 0} where
  abbrev pub new_log : Log U
  new_log = record { history = []; gone = 0 }

  -- The updates that are still there, oldest first.
  abbrev pub pending : Log U → List (UpdateItem U)
  pending l = number (suc l.gone) (drop l.gone l.history)

  abbrev pub log_push : ℕ → U → Log U → Log U
  log_push cap u l = record {
    history = l.history ++ u ∷ [];
    gone = if leb cap (length l.history - l.gone) then suc l.gone else l.gone;
  }

  abbrev pub log_ack : ℕ → Log U → Log U
  log_ack up_to l = record {
    history = l.history;
    gone = max l.gone (min (up_to - 1) (length l.history));
  }

  abbrev pub log_clear : Log U → Log U
  log_clear l = record { history = l.history; gone = length l.history }

  pub record Refines (b : UpdateBuffer U) (l : Log U) : Type 0 where
    pub room : 0 < b.cap
    pub next : b.next_id ≡ suc (length l.history)
    pub behind : l.gone ≤ length l.history
    pub bounded : length l.history ≤ l.gone + b.cap
    pub items : b.items ≡ pending l

  pub new-Refines : Refines new_update_buffer new_log
  unfolding new_update_buffer
  new-Refines = record {
    room = omega arith;
    next = refl;
    behind = omega arith;
    bounded = omega arith;
    items = refl;
  }

  pub length-pending :
      {b : UpdateBuffer U} {l : Log U} → Refines b l → length b.items + l.gone ≡ length l.history
  length-pending {b} {l} r = omega (
    arith,
    ap length r.items,
    length-number (suc l.gone) (drop l.gone l.history),
    length-drop l.gone l.history,
    r.behind,
  )

  -- One more update behind the pending ones.
  pending-snoc :
      (g : ℕ) (us : List U) (u : U)
      → g ≤ length us
      → number (suc g) (drop g (us ++ u ∷ []))
        ≡ number (suc g) (drop g us) ++ record { id = suc (length us); update = u } ∷ []
  pending-snoc g us u h =
      let e : suc g + length (drop g us) ≡ suc (length us) = omega (arith, length-drop g us) in
      rw (drop-append_le g us (u ∷ []) h, number-append (suc g) (drop g us) (u ∷ []), e)

  drop_one-pending :
      (g : ℕ) (us : List U)
      → drop 1 (number (suc g) (drop g us)) ≡ number (suc (suc g)) (drop (suc g) us)
  drop_one-pending g us =
      let e : suc g + 1 ≡ suc (suc g) = omega arith in
      let e' : g + 1 ≡ suc g = omega arith in
      rw (drop-number 1 (suc g) (drop g us), drop-drop 1 g us, e, e')

  -- A full buffer drops the oldest pending update, and any buffer appends the new one.
  pub push-Refines :
      (u : U) (b : UpdateBuffer U) (l : Log U)
      → Refines b l
      → Refines (push u b) (log_push b.cap u l)
  unfolding push
  push-Refines u b l r =
      let e : length b.items ≡ length l.history - l.gone = omega (arith, length-pending r) in
      let len' = length-append l.history (u ∷ []) in
      elim (Bool-cases (leb b.cap (length l.history - l.gone))) [
        | inl full ↦
            rw (e, full)
              (record {
                room = r.room;
                next = omega (arith, r.next, len');
                behind = omega (arith, len', leb→le _ _ full, r.room);
                bounded = omega (arith, len', r.bounded);
                items = rw (
                  r.items,
                  r.next,
                  drop_one-pending l.gone l.history,
                  pending-snoc (suc l.gone) l.history u (omega (arith, leb→le _ _ full, r.room)),
                );
              })
        | inr free ↦
            let not_full : length l.history - l.gone < b.cap = ground arith in
            rw (e, free)
              (record {
                room = r.room;
                next = omega (arith, r.next, len');
                behind = omega (arith, len', r.behind);
                bounded = omega (arith, len', not_full);
                items = rw (r.items, r.next, pending-snoc l.gone l.history u r.behind);
              })
      ]

  acked_from :
      (up_to g : ℕ) (us : List U)
      → g ≤ length us
      → number (suc g + (up_to - suc g)) (drop (up_to - suc g) (drop g us))
        ≡ number
            (suc (max g (min (up_to - 1) (length us))))
            (drop (max g (min (up_to - 1) (length us))) us)
  acked_from up_to g us h = elim (Bool-cases (leb (up_to - 1) (length us))) [
    | inl within ↦
        let le = leb→le (up_to - 1) (length us) within in
        let e : suc g + (up_to - suc g) ≡ suc (max g (min (up_to - 1) (length us))) = omega arith in
        let e' : g + (up_to - suc g) ≡ max g (min (up_to - 1) (length us)) = omega arith in
        rw (drop-drop (up_to - suc g) g us, e, e')
    | inr beyond ↦
        let gt : length us < up_to - 1 = ground arith in
        rw (
          drop-drop (up_to - suc g) g us,
          drop_all (g + (up_to - suc g)) us (omega arith),
          drop_all (max g (min (up_to - 1) (length us))) us (omega arith),
        )
  ]

  pub ack-Refines :
      (up_to : ℕ) (b : UpdateBuffer U) (l : Log U)
      → Refines b l
      → Refines (ack up_to b) (log_ack up_to l)
  unfolding ack
  ack-Refines up_to b l r = record {
    room = r.room;
    next = r.next;
    behind = omega (arith, r.behind);
    bounded = omega (arith, r.bounded);
    items =
        rw (r.items, skip_below-number up_to (suc l.gone) (drop l.gone l.history))
          (acked_from up_to l.gone l.history r.behind);
  }

  pub clear-Refines :
      (b : UpdateBuffer U) (l : Log U) → Refines b l → Refines (clear b) (log_clear l)
  unfolding clear
  clear-Refines b l r = record {
    room = r.room;
    next = r.next;
    behind = omega arith;
    bounded = omega arith;
    items = rw (drop_all (length l.history) l.history (omega arith));
  }
