-- ===== src/Pipe/Write.antt =====
-- petra/src/fs/pipe.rs: what `write` returns, for short writes and for all.
use petra_os.Common.{
  ℕ, ◌+◌, ◌≤◌, ◌≡◌, refl, sym, ap, ◌∙◌, subst, ◌≢◌, ◌⊎◌, inl, inr, Bool, true, false, none, some,
  List, [], ◌∷◌, ◌++◌, arith, leb, Bool-cases, Option-cases, length, drop, All, take_all, drop_all,
}
use petra_os.Common.Errno.{eagain, epipe, ok, err}
use petra_os.Common.Wait.{wait_until_rule, wait_until}
use petra_os.Pipe.{
  PipeState, PipeEnd, pipe_buf, pipe_capacity, can_write, Outcome, returned, asleep, out_of_fuel,
  Schedule, write_loop, write_end, step, retry, attempt, Attempt, resolved, would_block, sleeping,
}
use petra_os.Pipe.Rounds.{Stored, step-Stored, step-err, write_loop-rounds}

-- A call of `write` never runs out of the fuel that the model gives its loop: it returns, or it
-- sleeps.
pub write_end-ends :
    (e : PipeEnd) (bytes : List ℕ) (others : Schedule) (st : PipeState)
    → (write_end e bytes others st).0 ≢ out_of_fuel
unfolding write_end
write_end-ends e bytes others st = ground (arith, loop)
  where
    loop :
        (write_loop (length bytes) (leb (length bytes) pipe_buf) e.nonblock others bytes 0 st).0
        ≢ out_of_fuel
    loop =
        write_loop-rounds (leb (length bytes) pipe_buf) e.nonblock others
          (λ rest w s out. out.0 ≢ out_of_fuel) (λ w s k. cc) (λ b bs w n s out p q more. more)
          (λ b bs w s x p. ground arith) (λ b bs w s p. ground arith) (λ b bs w s p. cc)
          (length bytes) bytes 0 st (omega arith)

module _ (P : PipeState → Type 0) where
  -- A short write happened whole, in one state of the pipe that the others had left, with a reader
  -- and the room.
  abbrev pub WroteAll : List ℕ → Outcome × PipeState → Type 0
  WroteAll bytes out =
      (out.0 ≡ returned (ok (length bytes)) false)
      × ((s : PipeState) × P s
          × (s.readers ≢ 0)
          × (length s.buf + length bytes ≤ pipe_capacity)
          × (out.1 ≡ record s { buf = s.buf ++ bytes }))

  -- Or it did nothing, and left what the others had: no reader (with SIGPIPE), no room for a
  -- non-blocking end, or not yet.
  abbrev pub WroteNone : Outcome × PipeState → Type 0
  WroteNone out =
      P out.1
      × ((out.0 ≡ returned (err epipe) true)
          ⊎ (out.0 ≡ returned (err eagain) false)
          ⊎ (out.0 ≡ asleep 0))

  -- The moves of the others in the round that starts with nothing written keep the property.
  pub record Keeps (others : Schedule) : Type 0 where
    pub before : (s : PipeState) → P s → P (others.before 0 s)
    pub wakes : All (λ m. (s : PipeState) → P s → P (m s)) (others.wakes 0)

  step-none :
      (atomic : Bool) (rest : List ℕ) (s : PipeState)
      → (step atomic rest s).0 ≡ none
      → (step atomic rest s).1 ≡ s
  unfolding step
  step-none atomic rest s h = ground arith

  -- What a round that starts with nothing written comes to.
  Rounded : Bool → List ℕ → Attempt × PipeState → Type 0
  Rounded atomic rest (resolved r, t) = (q : PipeState) × P q × (step atomic rest q ≡ (some r, t))
  Rounded atomic rest (would_block, t) = P t
  Rounded atomic rest (sleeping, t) = P t

  retry-Rounded :
      (atomic nonblock : Bool) (rest : List ℕ) (ws : List (PipeState → PipeState)) (s : PipeState)
      → All (λ m. (u : PipeState) → P u → P (m u)) ws
      → P s
      → Rounded atomic rest (retry atomic nonblock rest ws (step atomic rest s))
  unfolding retry Rounded
  retry-Rounded atomic nonblock rest ws s keep h = elim (Option-cases (step atomic rest s).0) [
    | inr (r, e) ↦ rw (e, retry) (s, h, ap (λ o. (o, (step atomic rest s).1)) e)
    | inl e ↦
        let same = step-none atomic rest s e in
        let quiet : (u : PipeState)
            → P u
            → (step atomic rest u).0 ≡ none
            → P (step atomic rest u).1 =
          λ u k n. subst P (sym (step-none atomic rest u n)) k in
        let slept = wait_until (step atomic rest) ws (step atomic rest s).1 in
        let rule =
          wait_until_rule P (step atomic rest) quiet ws (step atomic rest s).1 keep
            (subst P (sym same) h) in
        elim (Bool-cases nonblock) [
          | inl b ↦ rw (e, b, retry) (quiet s h e)
          | inr b ↦ elim (Option-cases slept.0) [
            | inl n ↦ rw (e, b, n, retry) (rule.0 n)
            | inr (r, n) ↦ rw (e, b, n, retry) (rule.1 r n)
          ]
        ]
  ]

  attempt-Rounded :
      (atomic nonblock : Bool) (others : Schedule) (rest : List ℕ) (w : ℕ) (s : PipeState)
      → w ≡ 0
      → Keeps others
      → P s
      → Rounded atomic rest (attempt atomic nonblock others rest w s)
  unfolding attempt
  attempt-Rounded atomic nonblock others rest w s z k h =
      subst (λ n. Rounded atomic rest (attempt atomic nonblock others rest n s)) (sym z)
        (retry-Rounded atomic nonblock rest (others.wakes 0) (others.before 0 s) k.wakes
          (k.before s h))

  whole_round :
      (b : ℕ) (bs : List ℕ) (w n : ℕ) (s t : PipeState) (out : Outcome × PipeState)
      → w ≡ 0
      → P s
      → Stored true (b ∷ bs) n s t
      → (drop n (b ∷ bs) ≡ [] → out ≡ (returned (ok (w + n)) false, t))
      → WroteAll (b ∷ bs) out
  whole_round b bs w n s t out z held st last =
      let all : n ≡ length (b ∷ bs) = st.whole refl in
      let e = last (drop_all n (b ∷ bs) (omega arith)) in
      let same : w + n ≡ length (b ∷ bs) = omega arith in
      let bytes = take_all n (b ∷ bs) (omega arith) in
      (
        ap (λ o. o.0) e ∙ ap (λ k. returned (ok k) false) same,
        (s, held, st.read_by, omega (arith, st.fits), ap (λ o. o.1) e ∙ st.after ∙ rw bytes),
      )

  -- What the loop owes for the bytes that are left, when nothing has been written yet.
  abbrev Owes : List ℕ → ℕ → PipeState → Outcome × PipeState → Type 0
  Owes rest w s out =
      (rest ≡ [] → out ≡ (returned (ok w) false, s))
      × (w ≡ 0 → rest ≢ [] → P s → WroteAll rest out ⊎ WroteNone out)

  atomic_round :
      (nonblock : Bool) (others : Schedule) (bytes : List ℕ) (st : PipeState)
      → Keeps others
      → P st
      → bytes ≢ []
      → let out = write_loop (length bytes) true nonblock others bytes 0 st in
        WroteAll bytes out ⊎ WroteNone out
  unfolding Rounded
  atomic_round nonblock others bytes st keep h ne =
      let round = λ (b : ℕ) (bs : List ℕ) (w : ℕ) (s : PipeState).
        attempt true nonblock others (b ∷ bs) w s in
      let found =
        λ (b : ℕ) (bs : List ℕ) (w : ℕ) (s : PipeState) (a : Attempt) (p : (round b bs w s).0 ≡ a)
            (z : w ≡ 0) (i : P s).
          subst (λ x. Rounded true (b ∷ bs) (x, (round b bs w s).1)) p
            (attempt-Rounded true nonblock others (b ∷ bs) w s z keep i) in
      (write_loop-rounds true nonblock others Owes (λ w s. ((λ z. refl), λ z k i. absurd (k refl)))
          (λ b bs w n s out p q more. (
            (λ z. cc),
            λ z k i.
                let (q, held, f) = found b bs w s (resolved (ok n)) p z i in
                inl (
                  whole_round b bs w n q (round b bs w s).1 out z held
                    (step-Stored true b bs n q (round b bs w s).1 f) more.0),
          ))
          (λ b bs w s x p. (
            (λ z. cc),
            λ z k i.
                let (q, held, f) = found b bs w s (resolved (err x)) p z i in
                let failed = step-err true (b ∷ bs) x q (round b bs w s).1 f in
                inr (subst P (sym failed.2) held, inl (ground (arith, failed.0, z))),
          ))
          (λ b bs w s p.
            ((λ z. cc), λ z k i. inr (found b bs w s would_block p z i, inr (inl (ground arith)))))
          (λ b bs w s p.
            ((λ z. cc), λ z k i. inr (found b bs w s sleeping p z i, inr (inr (ground arith)))))
          (length bytes) bytes 0 st (omega arith)).1
        refl ne h

  -- Atomicity. Let some property of the pipe hold before a write of 1 to PIPE_BUF bytes through an
  -- end that may write, and let the moves of the other threads during the call keep it. Either the
  -- call stores all its bytes next to one another, in a state that has the property, a reader and
  -- the room for them, and returns their number; or it returns EPIPE with SIGPIPE raised, returns
  -- EAGAIN, or sleeps, and the pipe still has the property, whichever it is, so that no byte was
  -- written. It never returns a shorter count.
  pub write_end-atomic :
      (e : PipeEnd) (bytes : List ℕ) (others : Schedule) (st : PipeState)
      → bytes ≢ []
      → length bytes ≤ pipe_buf
      → can_write e.end ≡ true
      → Keeps others
      → P st
      → let out = write_end e bytes others st in WroteAll bytes out ⊎ WroteNone out
  unfolding write_end
  write_end-atomic e bytes others st ne short w keep h =
      let short' : leb (length bytes) pipe_buf ≡ true = ground arith in
      rw (w, short') (atomic_round e.nonblock others bytes st keep h ne)
