-- ===== src/Mqueue/Locks.antt =====
-- petra/src/ipc/mqueue.rs: the lock on the byte count, which the update of the count takes twice.
use petra_os.Common.{
  ℕ, ◌+◌, ◌-◌, ◌≤◌, ◌<◌, min, ◌≡◌, refl, ap, ◌∙◌, if_false, ◌≢◌, ◌⊎◌, inl, inr, Bool, true, false,
  ◌||◌, none, some, List, arith, ltb, leb, Bool-cases, Option-cases, length, get_elem?,
}
use petra_os.Common.Errno.{Result}
use native.Mathlib.Decide.{dec_le}
use petra_os.Mqueue.{
  usize_max, Sent, Mqueue, MqMsg, capacity, Shared, assign_bytes, stuck, would_block, replied,
  try_send, best, remove, try_recv,
}

assign_bytes-stuck :
    (f : ℕ → ℕ) (q : Shared) → assign_bytes f q ≡ (false, record q { bytes_held = true })
unfolding assign_bytes
assign_bytes-stuck f q = elim (Bool-cases q.bytes_held) [
  | inl h ↦ rw (h, assign_bytes) (ap (λ b. (false, record { queue = q.queue; bytes_held = b })) h)
  | inr h ↦ rw (h, assign_bytes) refl
]

-- The queue has room for the bytes and for one more message.
abbrev pub HasRoom : Mqueue → List ℕ → Type 0
HasRoom q bytes = (q.bytes + length bytes ≤ capacity q) × (length q.msgs < q.maxmsg)

module _ (alive : ℕ → Bool) (gap : Shared → Shared) (q : Shared) where
  send_room :
      (bytes : List ℕ) (prio : ℕ)
      → q.bytes_held ≡ false
      → HasRoom q.queue bytes
      → try_send alive gap q (some bytes) prio ≡ record {
        ending = stuck;
        slot = none;
        shared = record (gap q) { bytes_held = true };
        signal = none;
      }
  unfolding try_send
  send_room bytes prio free (fits, few) =
      let room : (ltb (capacity q.queue) (q.queue.bytes + length bytes)
            || leb q.queue.maxmsg (length q.queue.msgs))
          ≡ false =
        ground arith in
      let f = λ (n : ℕ). min (n + length bytes) usize_max in
      let out = assign_bytes-stuck f (gap q) in
      let ending : Sent = record {
        ending = stuck;
        slot = none;
        shared = (assign_bytes f (gap q)).1;
        signal = none;
      } in
      let full =
        ltb (capacity q.queue) (q.queue.bytes + length bytes)
        || leb q.queue.maxmsg (length q.queue.msgs) in
      if_false q.bytes_held _ free
      ∙ if_false full _ room
      ∙ if_false (assign_bytes f (gap q)).0 _ {y = ending} (ap (λ r. r.0) out)
      ∙ ap (λ r. record { ending = stuck; slot = none; shared = r.1; signal = none }) out

  send_held :
      (bytes : List ℕ) (prio : ℕ)
      → q.bytes_held ≡ true
      → try_send alive gap q (some bytes) prio
        ≡ record { ending = stuck; slot = some bytes; shared = q; signal = none }
  unfolding try_send
  send_held bytes prio held = rw (held, try_send) refl

  send_full :
      (bytes : List ℕ) (prio : ℕ)
      → q.bytes_held ≡ false
      → (capacity q.queue < q.queue.bytes + length bytes) ⊎ (q.queue.maxmsg ≤ length q.queue.msgs)
      → try_send alive gap q (some bytes) prio
        ≡ record { ending = would_block; slot = some bytes; shared = q; signal = none }
  unfolding try_send
  send_full bytes prio free full =
      let no_room : (ltb (capacity q.queue) (q.queue.bytes + length bytes)
            || leb q.queue.maxmsg (length q.queue.msgs))
          ≡ true =
        ground (arith, full) in
      rw (free, no_room, try_send) refl

  recv_none :
      (len : ℕ)
      → get_elem? q.queue.msgs (best q.queue.msgs) ≡ none
      → try_recv gap q len ≡ (would_block, q)
  unfolding try_recv
  recv_none len e = rw (e, try_recv) refl

  pub recv_some :
      (len : ℕ) (m : MqMsg)
      → get_elem? q.queue.msgs (best q.queue.msgs) ≡ some m
      → let left = record q {
        queue = record q.queue { msgs = remove q.queue.msgs (best q.queue.msgs) };
      } in
        try_recv gap q len ≡ (stuck, record (gap left) { bytes_held = true })
  unfolding try_recv
  recv_some len m e =
      let left : Shared = record q {
        queue = record q.queue { msgs = remove q.queue.msgs (best q.queue.msgs) };
      } in
      rw (e, assign_bytes-stuck (λ n. n - length m.payload) (gap left), try_recv) refl

  -- No attempt to send or to receive a message ever succeeds. A send that finds room spins for a lock
  -- that it holds itself: the caller's bytes have been taken, no message has been queued, and the
  -- lock on the byte count is held for good. While it is, a send with any bytes spins too, and
  -- changes nothing. A send that finds no room, with the lock free, would block and changes nothing.
  -- A receive from a queue with messages takes one out and then spins, with the lock held for good.
  pub locks_lem :
      (bytes : List ℕ) (prio len : ℕ)
      → let sent = try_send alive gap q (some bytes) prio in
        let received = try_recv gap q len in
        ((r : Result ℕ) → sent.ending ≢ replied r)
        × ((r : Result (List ℕ × ℕ)) → received.0 ≢ replied r)
        × (q.bytes_held ≡ false
            → HasRoom q.queue bytes
            → (sent.ending ≡ stuck)
              × (sent.slot ≡ none)
              × (sent.shared.queue ≡ (gap q).queue)
              × (sent.shared.bytes_held ≡ true))
        × (q.bytes_held ≡ true → (sent.ending ≡ stuck) × (sent.shared ≡ q))
        × (q.bytes_held ≡ false
            → (capacity q.queue < q.queue.bytes + length bytes)
              ⊎ (q.queue.maxmsg ≤ length q.queue.msgs)
            → (sent.ending ≡ would_block) × (sent.slot ≡ some bytes) × (sent.shared ≡ q))
        × ((m : MqMsg)
            → get_elem? q.queue.msgs (best q.queue.msgs) ≡ some m
            → (received.0 ≡ stuck) × (received.1.bytes_held ≡ true))
  locks_lem bytes prio len = (
    sends,
    receives,
    (λ free room. rw (send_room bytes prio free room) (refl, refl, refl, refl)),
    (λ held. rw (send_held bytes prio held) (refl, refl)),
    (λ free full. rw (send_full bytes prio free full) (refl, refl, refl)),
    λ m e. rw (recv_some len m e) (refl, refl),
  )
    where
      sends : (r : Result ℕ) → (try_send alive gap q (some bytes) prio).ending ≢ replied r
      sends = elim (Bool-cases q.bytes_held) [
        | inl held ↦ λ r z. let s = ap (λ x. x.ending) (send_held bytes prio held) in absurd (cc)
        | inr free ↦ elim (dec_le (q.queue.bytes + length bytes) (capacity q.queue)) [
          | no long ↦ λ r z.
              let s = ap (λ x. x.ending) (send_full bytes prio free (inl (omega arith))) in
              absurd (cc)
          | yes fits ↦ elim (dec_le q.queue.maxmsg (length q.queue.msgs)) [
            | yes many ↦ λ r z.
                let s = ap (λ x. x.ending) (send_full bytes prio free (inr many)) in absurd (cc)
            | no few ↦ λ r z.
                let s = ap (λ x. x.ending) (send_room bytes prio free (fits, omega arith)) in
                absurd (cc)
          ]
        ]
      ]

      receives : (r : Result (List ℕ × ℕ)) → (try_recv gap q len).0 ≢ replied r
      receives r z = elim (Option-cases (get_elem? q.queue.msgs (best q.queue.msgs))) [
        | inl e ↦ let s = ap (λ x. x.0) (recv_none len e) in absurd (cc)
        | inr (m, e) ↦ let s = ap (λ x. x.0) (recv_some len m e) in absurd (cc)
      ]
