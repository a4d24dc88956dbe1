-- ===== src/Pipe/Rounds.antt =====
-- petra/src/fs/pipe.rs: one rule for the loop of `write`, from what one round does.
use petra_os.Common.{
  ℕ, zero, suc, ◌+◌, ◌≤◌, ◌≡◌, refl, ◌≢◌, ◌⊎◌, inl, inr, Bool, true, false, Option, none, some,
  List, [], ◌∷◌, ◌++◌, arith, length, take, drop, length-drop,
}
use petra_os.Common.Errno.{Errno, epipe, Result, ok, err}
use petra_os.Common.Wait.{wait_until_attempt}
use petra_os.Pipe.{
  PipeState, pipe_capacity, step, attempt, Attempt, resolve, resolved, would_block, sleeping,
  Outcome, returned, asleep, stop, refuse, Schedule, write_loop, retry,
}

Attempt-cases :
    (a : Attempt)
    → ((n : ℕ) × (a ≡ resolved (ok n)))
      ⊎ ((e : Errno) × (a ≡ resolved (err e)))
      ⊎ (a ≡ would_block)
      ⊎ (a ≡ sleeping)
Attempt-cases (resolved (ok n)) = inl (n, refl)
Attempt-cases (resolved (err e)) = inr (inl (e, refl))
Attempt-cases would_block = inr (inr (inl refl))
Attempt-cases sleeping = inr (inr (inr refl))

resolve-resolved : (o : Option (Result ℕ)) (r : Result ℕ) → resolve o ≡ resolved r → o ≡ some r
resolve-resolved none r h = absurd (cc)
resolve-resolved (some q) r h = cc

retry-resolved :
    (atomic nonblock : Bool) (rest : List ℕ) (ws : List (PipeState → PipeState)) (s : PipeState)
    (o : Option (Result ℕ)) (t : PipeState) (r : Result ℕ)
    → step atomic rest s ≡ (o, t)
    → (retry atomic nonblock rest ws (o, t)).0 ≡ resolved r
    → (q : PipeState) × (step atomic rest q ≡ (some r, (retry atomic nonblock rest ws (o, t)).1))
unfolding retry
retry-resolved atomic nonblock rest ws s (some x) t r p h = (s, cc)
retry-resolved atomic true rest ws s none t r p h = absurd (ground arith)
retry-resolved atomic false rest ws s none t r p h =
    wait_until_attempt (step atomic rest) ws t r (resolve-resolved _ r h)

pub attempt-resolved :
    (atomic nonblock : Bool) (others : Schedule) (rest : List ℕ) (written : ℕ) (st : PipeState)
    (r : Result ℕ)
    → (attempt atomic nonblock others rest written st).0 ≡ resolved r
    → (q : PipeState) × (step atomic rest q
        ≡ (some r, (attempt atomic nonblock others rest written st).1))
unfolding attempt
attempt-resolved atomic nonblock others rest written st r h =
    let t = others.before written st in
    retry-resolved atomic nonblock rest (others.wakes written) t (step atomic rest t).0
      (step atomic rest t).1 r refl h

-- What a step that wrote `n` of the bytes found and left.
pub record Stored (atomic : Bool) (rest : List ℕ) (n : ℕ) (s t : PipeState) : Type 0 where
  pub some_bytes : 1 ≤ n
  pub at_most : n ≤ length rest
  pub whole : atomic ≡ true → n ≡ length rest
  pub read_by : s.readers ≢ 0
  pub fits : length s.buf + n ≤ pipe_capacity
  pub after : t ≡ record s { buf = s.buf ++ take n rest }

pub step-Stored :
    (atomic : Bool) (b : ℕ) (bs : List ℕ) (n : ℕ) (s t : PipeState)
    → step atomic (b ∷ bs) s ≡ (some (ok n), t)
    → Stored atomic (b ∷ bs) n s t
unfolding step
step-Stored atomic b bs n s t h = record {
  some_bytes = ground arith;
  at_most = ground arith;
  whole = λ e. ground arith;
  read_by = λ e. ground arith;
  fits = ground arith;
  after = ground arith;
}

pub step-err :
    (atomic : Bool) (rest : List ℕ) (e : Errno) (s t : PipeState)
    → step atomic rest s ≡ (some (err e), t)
    → (e ≡ epipe) × (s.readers ≡ 0) × (t ≡ s)
unfolding step
step-err atomic rest e s t h = (ground arith, ground arith, ground arith)

-- An induction over the rounds of the loop, with enough fuel: what holds of the exits, and goes
-- from the rest of the bytes to all of them, holds of the loop.
pub write_loop-rounds {ℓ} :
    (atomic nonblock : Bool) (others : Schedule)
    (Q : List ℕ → ℕ → PipeState → Outcome × PipeState → Type ℓ)
    → ((w : ℕ) (st : PipeState) → Q [] w st (returned (ok w) false, st))
    → ((b : ℕ) (bs : List ℕ) (w n : ℕ) (st : PipeState) (out : Outcome × PipeState)
        → (attempt atomic nonblock others (b ∷ bs) w st).0 ≡ resolved (ok n)
        → 1 ≤ n
        → Q (drop n (b ∷ bs)) (w + n) (attempt atomic nonblock others (b ∷ bs) w st).1 out
        → Q (b ∷ bs) w st out)
    → ((b : ℕ) (bs : List ℕ) (w : ℕ) (st : PipeState) (e : Errno)
        → (attempt atomic nonblock others (b ∷ bs) w st).0 ≡ resolved (err e)
        → Q (b ∷ bs) w st (stop w e, (attempt atomic nonblock others (b ∷ bs) w st).1))
    → ((b : ℕ) (bs : List ℕ) (w : ℕ) (st : PipeState)
        → (attempt atomic nonblock others (b ∷ bs) w st).0 ≡ would_block
        → Q (b ∷ bs) w st (refuse w, (attempt atomic nonblock others (b ∷ bs) w st).1))
    → ((b : ℕ) (bs : List ℕ) (w : ℕ) (st : PipeState)
        → (attempt atomic nonblock others (b ∷ bs) w st).0 ≡ sleeping
        → Q (b ∷ bs) w st (asleep w, (attempt atomic nonblock others (b ∷ bs) w st).1))
    → (fuel : ℕ) (rest : List ℕ) (w : ℕ) (st : PipeState) → length rest ≤ fuel
    → Q rest w st (write_loop fuel atomic nonblock others rest w st)
unfolding write_loop
write_loop-rounds atomic nonblock others Q done more fail block sleep zero [] w st h = done w st
write_loop-rounds atomic nonblock others Q done more fail block sleep zero (b ∷ bs) w st h =
    absurd (omega arith)
write_loop-rounds atomic nonblock others Q done more fail block sleep (suc fuel) [] w st h =
    done w st
write_loop-rounds atomic nonblock others Q done more fail block sleep (suc fuel) (b ∷ bs) w st h =
    elim (Attempt-cases (attempt atomic nonblock others (b ∷ bs) w st).0) [
      | inl (n, p) ↦
          let found = attempt-resolved atomic nonblock others (b ∷ bs) w st (ok n) p in
          let stored = step-Stored atomic b bs n found.0 _ found.1 in
          rw (p, write_loop)
            (more b bs w n st _ p stored.some_bytes (
              write_loop-rounds atomic nonblock others Q done more fail block sleep fuel
                (drop n (b ∷ bs)) (w + n) (attempt atomic nonblock others (b ∷ bs) w st).1
                (omega (arith, length-drop n (b ∷ bs), stored.some_bytes))))
      | inr (inl (e, p)) ↦ rw (p, write_loop) (fail b bs w st e p)
      | inr (inr (inl p)) ↦ rw (p, write_loop) (block b bs w st p)
      | inr (inr (inr p)) ↦ rw (p, write_loop) (sleep b bs w st p)
    ]
