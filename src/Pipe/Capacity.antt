-- ===== src/Pipe/Capacity.antt =====
-- petra/src/fs/pipe.rs: the buffer against PIPE_CAPACITY, for the subtraction
-- `PIPE_CAPACITY - st.buf.len()` of `write`.
use petra_os.Common.{
  leb, ℕ, ◌-◌, ◌≤◌, Bool, List, min, All, arith, length, take, length-append, length-take,
  length-drop,
}
use petra_os.Common.Wait.{wait_until_keeps}
use petra_os.Pipe.Rounds.{write_loop-rounds}
use petra_os.Pipe.{
  PipeState, End, PipeEnd, pipe_buf, pipe_capacity, drop_end, open_fifo, try_read, read_end, step,
  attempt, Schedule, write_loop, write_end,
}

abbrev pub Fits : PipeState → Type 0
Fits st = length st.buf ≤ pipe_capacity

-- The other threads keep the bound too: they run this same code.
abbrev pub Careful : (PipeState → PipeState) → Type 0
Careful w = (st : PipeState) → Fits st → Fits (w st)

try_read-Fits : (len : ℕ) (st : PipeState) → Fits st → Fits (try_read len st).1
unfolding try_read
try_read-Fits len st h = ground (arith, length-drop (min len (length st.buf)) st.buf)

step-Fits :
    (atomic : Bool) (rest : List ℕ) (st : PipeState) → Fits st → Fits (step atomic rest st).1
unfolding step
step-Fits atomic rest st h =
    let n = min (pipe_capacity - length st.buf) (length rest) in
    ground (arith, length-append st.buf (take n rest), length-take n rest)

drop_end-Fits : (e : End) (st : PipeState) → Fits st → Fits (drop_end e st)
unfolding drop_end
drop_end-Fits e st h = ground arith

open_fifo-Fits :
    (r w nonblock : Bool) (st : PipeState) → Fits st → Fits (open_fifo r w nonblock st).1
unfolding open_fifo
open_fifo-Fits r w nonblock st h = ground arith

read_end-Fits :
    (e : PipeEnd) (len : ℕ) (ws : List (PipeState → PipeState)) (st : PipeState)
    → All Careful ws
    → Fits st
    → Fits (read_end e len ws st).1
unfolding read_end
read_end-Fits e len ws st c h =
    let first = try_read-Fits len st h in
    ground (
      arith,
      first,
      wait_until_keeps Fits (try_read len) (try_read-Fits len) ws (try_read len st).1 c first,
    )

-- Every move of the schedule keeps the bound.
pub record IsCareful (others : Schedule) : Type 0 where
  pub before : (n : ℕ) → Careful (others.before n)
  pub wakes : (n : ℕ) → All Careful (others.wakes n)

attempt-Fits :
    (atomic nonblock : Bool) (others : Schedule) (rest : List ℕ) (written : ℕ) (st : PipeState)
    → IsCareful others
    → Fits st
    → Fits (attempt atomic nonblock others rest written st).1
unfolding attempt
attempt-Fits atomic nonblock others rest written st c h =
    let t = others.before written st in
    let first = step-Fits atomic rest t (c.before written st h) in
    ground (
      arith,
      first,
      wait_until_keeps Fits (step atomic rest) (step-Fits atomic rest) (others.wakes written)
          (step atomic rest t).1 (c.wakes written) first,
    )

-- Whatever careful things the other threads do around and during a call of `write`, the pipe holds
-- at most PIPE_CAPACITY bytes after it, if it did before.
write_end-Fits :
    (e : PipeEnd) (bytes : List ℕ) (others : Schedule) (st : PipeState)
    → IsCareful others
    → Fits st
    → Fits (write_end e bytes others st).1
unfolding write_end
write_end-Fits e bytes others st c h = ground (arith, loop)
  where
    loop :
        Fits
          (write_loop (length bytes) (leb (length bytes) pipe_buf) e.nonblock others bytes 0 st).1
    loop =
        write_loop-rounds (leb (length bytes) pipe_buf) e.nonblock others
          (λ rest w s out. Fits s → Fits out.1) (λ w s k. k)
          (λ b bs w n s out p q more k. more (attempt-Fits _ _ others _ w s c k))
          (λ b bs w s x p k. attempt-Fits _ _ others _ w s c k)
          (λ b bs w s p k. attempt-Fits _ _ others _ w s c k)
          (λ b bs w s p k. attempt-Fits _ _ others _ w s c k) (length bytes) bytes 0 st
          (omega arith) h
