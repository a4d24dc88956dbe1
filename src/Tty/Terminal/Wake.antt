-- ===== src/Tty/Terminal/Wake.antt =====
-- petra/src/drivers/char/tty/core: from the interrupt that queues a byte to the read that returns it.
use petra_os.Common.{
  ℕ, zero, suc, ◌+◌, ◌%◌, ◌≤◌, ◌<◌, ◌≡◌, refl, sym, ap, ◌∙◌, subst, ◌≢◌, inl, inr, true, false,
  Option, none, some, List, [], ◌∷◌, ◌++◌, arith, ◌==◌, lt→ltb, ==_iff, Bool-cases, if_true,
  if_false, length, get_elem?, take, All, length-append, length-take,
}
use petra_os.Common.Errno.{Result, ok}
use petra_os.Tty.{vtime, vmin, canon_buf_size, is_canon, cc_at, read_into, feed}
use petra_os.Tty.Terminal.{
  pop_input, interrupt, total, sleep, queue_size, Terminal, receive, drain_loop, drain_input,
  queue_input_bytes, take_bytes, ready_canon, resolve, read_cond, read,
}
use petra_os.Ring.{wrapping_inc, len, pop_front, push_all}
use petra_os.Ring.Fifo.{contents, IsValid, length-contents, queue_lem}
use petra_os.Ring.Overwrite.{last, last-short, push_all-last}
use petra_os.Tty.Line.{Plain, Enter, feed-typed}
use petra_os.Tty.Reading.{typed-read}

-- What draining the queue does to the parts that a reader looks at.
record Drained (bytes : List ℕ) (t t' : Terminal) : Type 0 where
  disc : t'.disc ≡ feed bytes t.disc
  hung_up : t'.hung_up ≡ t.hung_up
  interrupted : t'.interrupted ≡ t.interrupted

some-fuel : (fuel : ℕ) (l : List ℕ) → length l ≡ suc fuel → (x : ℕ) × (xs : List ℕ) × (l ≡ x ∷ xs)
some-fuel fuel [] h = absurd (omega arith)
some-fuel fuel (x ∷ xs) h = (x, xs, refl)

no-fuel : (l : List ℕ) → length l ≡ 0 → l ≡ []
no-fuel [] h = refl
no-fuel (x ∷ xs) h = absurd (omega arith)

-- Without interrupts a pop is the ring buffer's.
pop_input-quiet :
    (t : Terminal)
    → t.interrupts ≡ []
    → pop_input t
      ≡ ((pop_front queue_size t.input).0, record t { input = (pop_front queue_size t.input).1 })
unfolding pop_input pop_front
pop_input-quiet t q =
    let still : interrupt t ≡ t =
      unfold interrupt in
      ap
        (λ l. elim l [
          | [] ↦ t
          | bytes ∷ rest ↦ queue_input_bytes bytes (record t { interrupts = rest })
        ])
        q in
    elim (Bool-cases (t.input.tail == t.input.head)) [
      | inl e ↦ rw (e, pop_input) refl
      | inr e ↦
          rw (e, pop_input)
            (ap
              (λ u. (
                get_elem? u.input.buffer (t.input.tail % queue_size),
                record u { input = record u.input { tail = wrapping_inc t.input.tail } },
              ))
              still)
    ]

drain_loop-step :
    (fuel : ℕ) (t : Terminal) {b : ℕ}
    → t.interrupts ≡ []
    → (pop_front queue_size t.input).0 ≡ some b
    → drain_loop (suc fuel) t
      ≡ drain_loop fuel (receive b (record t { input = (pop_front queue_size t.input).1 }))
unfolding drain_loop
drain_loop-step fuel t {b = b} q p =
    let popped = pop_input-quiet t q in
    let got = ap (λ r. r.0) popped ∙ p in
    rw (got, drain_loop) (ap (λ r. drain_loop fuel (receive b r.1)) popped)

drain_loop-Drained :
    (fuel : ℕ) (t : Terminal)
    → t.interrupts ≡ []
    → IsValid queue_size t.input
    → length (contents queue_size t.input) ≡ fuel
    → Drained (contents queue_size t.input) t (drain_loop fuel t)
unfolding drain_loop receive feed
drain_loop-Drained zero t q v h =
    let nil = no-fuel (contents queue_size t.input) h in
    record { disc = sym (ap (λ l. feed l t.disc) nil); hung_up = refl; interrupted = refl }
drain_loop-Drained (suc fuel) t q v h =
    let (x, xs, e) = some-fuel fuel (contents queue_size t.input) h in
    let (popped, left, v') = (queue_lem queue_size t.input 0 v).3 x xs e in
    let t' : Terminal = receive x (record t { input = (pop_front queue_size t.input).1 }) in
    let rest = drain_loop-Drained fuel t' q v' (ap length left ∙ omega (arith, ap length e)) in
    let step = drain_loop-step fuel t q popped in
    record {
      disc =
          ap (λ u. u.disc) step
          ∙ rest.disc
          ∙ ap (λ l. feed l t'.disc) left
          ∙ sym (ap (λ l. feed l t.disc) e);
      hung_up = ap (λ u. u.hung_up) step ∙ rest.hung_up;
      interrupted = ap (λ u. u.interrupted) step ∙ rest.interrupted;
    }

drain_input-free :
    (t : Terminal) → t.interrupts ≡ [] → t.free ≡ true → drain_input t ≡ drain_loop (len t.input) t
unfolding drain_input
drain_input-free t q f =
    let enough : len t.input + total t.interrupts ≡ len t.input = omega (arith, ap total q) in
    if_true t.free t f ∙ ap (λ k. drain_loop k t) enough

drain_input-Drained :
    (t : Terminal)
    → t.interrupts ≡ []
    → IsValid queue_size t.input
    → t.free ≡ true
    → Drained (contents queue_size t.input) t (drain_input t)
drain_input-Drained t q v f =
    subst (Drained (contents queue_size t.input) t) (sym (drain_input-free t q f))
      (drain_loop-Drained (len t.input) t q v (length-contents queue_size t.input v))

drain_input-none :
    (t : Terminal)
    → t.interrupts ≡ []
    → IsValid queue_size t.input
    → t.free ≡ true
    → contents queue_size t.input ≡ []
    → drain_input t ≡ t
drain_input-none t q v f e =
    let empty : len t.input ≡ 0 = sym (length-contents queue_size t.input v) ∙ ap length e in
    let still : drain_loop 0 t ≡ t = unfold drain_loop in refl in
    drain_input-free t q f ∙ ap (λ k. drain_loop k t) empty ∙ still

-- What a canonical read finds.
ready_canon-some :
    (n : ℕ) (t : Terminal)
    → 0 < length t.disc.read_buf
    → (ready_canon n t).0 ≡ some (read_into n t.disc).0
unfolding ready_canon take_bytes
ready_canon-some n t h = rw (lt→ltb 0 (length t.disc.read_buf) h, ready_canon) refl

ready_canon-none :
    (n : ℕ) (t : Terminal)
    → t.disc.read_buf ≡ []
    → t.disc.eof_received ≡ false
    → t.hung_up ≡ false
    → ready_canon n t ≡ (none, t)
unfolding ready_canon
ready_canon-none n t r e h = rw (r, e, h, ready_canon) refl

after_drain : ℕ → Terminal → Option (Result (List ℕ)) × Terminal
after_drain n t = let (got, t') = ready_canon n t in (resolve got t'.interrupted, t')

read_cond-canon :
    (m v n : ℕ) (t : Terminal) → read_cond true m v n t ≡ after_drain n (drain_input t)
unfolding read_cond after_drain
read_cond-canon m v n t = refl

-- A move that wakes the sleeper makes it try again.
sleep-woken :
    (attempt : Terminal → Option (Result (List ℕ)) × Terminal) (w : Terminal → Terminal)
    (t : Terminal) {x : Result (List ℕ)}
    → (w t).wakeups ≢ t.wakeups
    → (attempt (w t)).0 ≡ some x
    → (sleep attempt (w ∷ []) t).0 ≡ some x
unfolding sleep
sleep-woken attempt w t n q =
    let woken : ((w t).wakeups == t.wakeups) ≡ false = ground (arith, n) in
    rw (woken, q, sleep) refl

after_drain-none :
    (n : ℕ) (t : Terminal)
    → t.disc.read_buf ≡ []
    → (t.disc.eof_received ≡ false) × (t.hung_up ≡ false) × (t.interrupted ≡ false)
    → after_drain n t ≡ (none, t)
unfolding after_drain
after_drain-none n t r (e, h, i) =
    let none_yet : resolve none t.interrupted ≡ none =
      ap (resolve none) i ∙ unfold resolve in refl in
    ap (λ p. (resolve p.0 p.1.interrupted, p.1)) (ready_canon-none n t r e h)
    ∙ ap (λ o. (o, t)) none_yet

after_drain-some :
    (n : ℕ) (t : Terminal)
    → 0 < length t.disc.read_buf
    → (after_drain n t).0 ≡ some (ok (read_into n t.disc).0)
unfolding after_drain resolve
after_drain-some n t h =
    ap (λ o. resolve o (ready_canon n t).1.interrupted) (ready_canon-some n t h)

-- Draining feeds the bytes that were queued meanwhile.
drained-typed :
    (t : Terminal) (bytes : List ℕ)
    → t.interrupts ≡ []
    → IsValid queue_size t.input
    → t.free ≡ true
    → contents queue_size t.input ≡ []
    → length bytes ≤ queue_size
    → (drain_input (queue_input_bytes bytes t)).disc ≡ feed bytes t.disc
unfolding queue_input_bytes
drained-typed t bytes q v f e h =
    let (held, valid) = push_all-last queue_size bytes t.input v in
    let whole : contents queue_size (push_all queue_size bytes t.input) ≡ bytes =
      held ∙ ap (λ q. last queue_size (q ++ bytes)) e ∙ last-short queue_size bytes h in
    (drain_input-Drained (queue_input_bytes bytes t) q valid f).disc ∙ ap (λ l. feed l t.disc) whole

-- Typing wakes a reader. Let a terminal in canonical mode, which no one else drains, with a valid
-- input queue, have nothing typed, queued or to read, and be neither hung up nor at end of file, and
-- let `e` end a line. A read finds nothing and sleeps. When meanwhile the interrupts queue plain
-- bytes and then `e`, at most 1024 bytes and no more than the reader has room for, and no interrupt
-- comes in the middle of a pop, the reader is woken, and the read returns the line with a newline
-- at its end. Without a wake-up it sleeps on.
pub read-typed :
    (t : Terminal) (line : List ℕ) (e n : ℕ)
    → t.interrupts ≡ []
    → IsValid queue_size t.input
    → is_canon t.disc ≡ true
    → (t.disc.canon_buf ≡ []) × (t.disc.read_buf ≡ []) × (contents queue_size t.input ≡ [])
    → (t.disc.eof_received ≡ false) × (t.hung_up ≡ false) × (t.interrupted ≡ false)
    → t.expired ≡ false
    → t.free ≡ true
    → All (Plain t.disc) line
    → Enter t.disc e
    → length line < queue_size
    → length line < n
    → let typing : Terminal → Terminal = queue_input_bytes (line ++ (e ∷ [])) in
      let unheard : Terminal → Terminal = λ u. record (typing u) { wakeups = u.wakeups } in
      ((read n [] t).0 ≡ none)
      × ((read n (typing ∷ []) t).0 ≡ some (ok (line ++ (10 ∷ []))))
      × ((read n (unheard ∷ []) t).0 ≡ none)
read-typed t line e n q v c (no_line, nothing, unqueued) (not_eof, up, calm) early free p en short
      room =
    let bytes : List ℕ = line ++ (e ∷ []) in
    let attempt : Terminal → Option (Result (List ℕ)) × Terminal =
      read_cond (is_canon t.disc) (cc_at t.disc vmin) (cc_at t.disc vtime) n in
    let asleep : attempt t ≡ (none, t) =
      ap (λ b. read_cond b (cc_at t.disc vmin) (cc_at t.disc vtime) n t) c
      ∙ read_cond-canon (cc_at t.disc vmin) (cc_at t.disc vtime) n t
      ∙ ap (after_drain n) (drain_input-none t q v free unqueued)
      ∙ after_drain-none n t nothing (not_eof, up, calm) in
    let t' : Terminal = queue_input_bytes bytes t in
    let fits : length bytes ≤ queue_size = omega (arith, length-append line (e ∷ [])) in
    let fed : (drain_input t').disc ≡ feed bytes t.disc =
      drained-typed t bytes q v free unqueued fits in
    let found : 0 < length (drain_input t').disc.read_buf = omega (
      arith,
      ap (λ d. length d.read_buf) (fed ∙ feed-typed t.disc line e c no_line p en),
      length-append t.disc.read_buf (take canon_buf_size (line ++ (10 ∷ []))),
      length-take canon_buf_size (line ++ (10 ∷ [])),
      length-append line (10 ∷ []),
    ) in
    let woken : (attempt t').0 ≡ some (ok (line ++ (10 ∷ []))) =
      ap (λ b. (read_cond b (cc_at t.disc vmin) (cc_at t.disc vtime) n t').0) c
      ∙ ap (λ r. r.0) (read_cond-canon (cc_at t.disc vmin) (cc_at t.disc vtime) n t')
      ∙ after_drain-some n (drain_input t') found
      ∙ ap (λ d. some (ok (read_into n d).0)) fed
      ∙ ap (λ r. some (ok r.0))
          (typed-read t.disc line e n c no_line nothing p en (omega arith) room) in
    let some_room : (n == 0) ≡ false = ground (arith, room) in
    let sleeps : (ws : List (Terminal → Terminal)) → read n ws t ≡ sleep attempt ws t = λ ws.
      unfold read in
      if_false (n == 0) (some (ok []), t) some_room
      ∙ ap (λ r. elim r.0 [ none ↦ sleep attempt ws r.1 | some x ↦ (some x, r.1) ]) asleep in
    let more : t'.wakeups ≢ t.wakeups = unfold queue_input_bytes in λ z. omega (arith, z) in
    let unheard : Terminal → Terminal =
      λ u. record (queue_input_bytes bytes u) { wakeups = u.wakeups } in
    let same : (t.wakeups == t.wakeups) ≡ true = (==_iff t.wakeups t.wakeups).1 refl in
    let on : (sleep attempt (unheard ∷ []) t).0 ≡ none =
      unfold sleep queue_input_bytes in rw (same, calm, early, sleep) refl in
    (
      ap (λ r. r.0) (sleeps []) ∙ unfold sleep in refl,
      ap (λ r. r.0) (sleeps (queue_input_bytes bytes ∷ []))
          ∙ sleep-woken attempt (queue_input_bytes bytes) t more woken,
      ap (λ r. r.0) (sleeps (unheard ∷ [])) ∙ on,
    )
