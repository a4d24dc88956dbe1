-- ===== src/Pipe/Poll.antt =====
-- petra/src/fs/pipe.rs: what `poll` promises of the next call.
use petra_os.Common.{ℕ, ◌-◌, min, ◌≡◌, ◌≢◌, ◌↔◌, true, false, none, some, List, ◌∷◌, arith, length}
use petra_os.Common.Errno.{epipe, ok, err}
use petra_os.Pipe.{PipeState, End, pipe_capacity, can_read, can_write, try_read, step, poll}

-- What `poll` reports of an end is what its next call meets: a reading end is readable exactly when
-- an attempt to read returns, a writing end is writable exactly when an attempt to write some of a
-- long write stores bytes, and it reports an error exactly when such an attempt fails with EPIPE.
poll_lem :
    (e : End) (len b : ℕ) (bs : List ℕ) (st : PipeState)
    → (((poll e st).readable ≡ true) ↔ ((can_read e ≡ true) × ((try_read len st).0 ≢ none)))
      × (((poll e st).writable ≡ true)
          ↔ ((can_write e ≡ true) × ((n : ℕ) × ((step false (b ∷ bs) st).0 ≡ some (ok n)))))
      × (((poll e st).error ≡ true)
          ↔ ((can_write e ≡ true) × ((step false (b ∷ bs) st).0 ≡ some (err epipe))))
unfolding poll try_read step
poll_lem e len b bs st = (
  (λ h. (ground arith, ground arith), λ h. ground (arith, h.1)),
  (
    λ h. (ground arith, (min (pipe_capacity - length st.buf) (length (b ∷ bs)), ground arith)),
    λ h. ground arith,
  ),
  (λ h. ground arith, λ h. ground arith),
)
