-- ===== src/Pipe.antt =====
-- petra/src/fs/pipe.rs: the bounded byte queue behind pipe(2) and FIFOs, as explicit state passing.
-- A call that may sleep takes what the other threads do meanwhile (Common/Wait); `none`, or
-- `asleep`, is a call that has not returned yet.
pub mod Rounds
pub mod Capacity
pub mod Ends
pub mod Stream
pub mod Write
pub mod Poll
mod Tests
use petra_os.Common.{
  ℕ, zero, suc, ◌+◌, ◌-◌, Bool, true, false, ◌&&◌, ◌||◌, Option, none, some, List, [], ◌∷◌, ◌++◌,
  min, length, take, drop, ltb, leb, ◌==◌, if◌then◌else◌,
}
use petra_os.Common.Errno.{Errno, ebadf, eagain, epipe, Result, ok, err}
use petra_os.Common.Wait.{wait_until}

abbrev pub pipe_buf : ℕ
pipe_buf = 4096

abbrev pub pipe_capacity : ℕ
pipe_capacity = 65536

pub record PipeState : Type 0 where
  pub buf : List ℕ
  pub readers : ℕ
  pub writers : ℕ
  pub writers_opened : Bool

pub data End : Type 0 where
  read write both : End

abbrev pub can_read : End → Bool
can_read read = true
can_read write = false
can_read both = true

abbrev pub can_write : End → Bool
can_write read = false
can_write write = true
can_write both = true

pub record PipeEnd : Type 0 where
  pub end : End
  pub nonblock : Bool

unfoldable pub new : PipeState
new = record { buf = []; readers = 0; writers = 0; writers_opened = false }

unfoldable pub new_anonymous : PipeState
new_anonymous = record { buf = []; readers = 1; writers = 1; writers_opened = true }

-- `readers -= 1` and `writers -= 1` saturate, as `-` on ℕ does.
drop_counts : End → PipeState → PipeState
drop_counts read st = record st { readers = st.readers - 1 }
drop_counts write st = record st { writers = st.writers - 1 }
drop_counts both st = record st { readers = st.readers - 1; writers = st.writers - 1 }

forget_writers : PipeState → PipeState
forget_writers st =
    if st.readers == 0 && st.writers == 0 then record st { writers_opened = false } else st

-- `Drop for PipeEnd`
unfoldable pub drop_end : End → PipeState → PipeState
unfolding drop_counts forget_writers
drop_end e st = forget_writers (drop_counts e st)

open_counts : End → PipeState → PipeState
open_counts read st = record st { readers = st.readers + 1 }
open_counts write st = record st { writers = st.writers + 1; writers_opened = true }
open_counts both st = record st {
  readers = st.readers + 1;
  writers = st.writers + 1;
  writers_opened = true;
}

end_of_flags : Bool → Bool → End
end_of_flags true true = both
end_of_flags false true = write
end_of_flags true false = read
end_of_flags false false = read

-- `FifoNodeOps::open`, by the READ, WRITE and NONBLOCK bits of the flags
unfoldable pub open_fifo : Bool → Bool → Bool → PipeState → PipeEnd × PipeState
unfolding end_of_flags open_counts
open_fifo is_read is_write nonblock st =
    let e = end_of_flags is_read is_write in
    (record { end = e; nonblock = nonblock }, open_counts e st)

-- The option is the bytes delivered; the empty list is end of file.
unfoldable pub try_read : ℕ → PipeState → Option (List ℕ) × PipeState
try_read len st = elim st.buf [
  | [] ↦ (if st.writers == 0 && st.writers_opened then some [] else none, st)
  | b ∷ bs ↦
      let n = min len (length (b ∷ bs)) in
      (some (take n (b ∷ bs)), record st { buf = drop n (b ∷ bs) })
]

abbrev answer : Option (List ℕ) → Option (Result (List ℕ))
answer none = none
answer (some bytes) = some (ok bytes)

read_or_wait :
    Bool
    → ℕ
    → List (PipeState → PipeState)
    → Option (List ℕ) × PipeState
    → Option (Result (List ℕ)) × PipeState
read_or_wait nonblock len ws (some bytes, st) = (some (ok bytes), st)
read_or_wait true len ws (none, st) = (some (err eagain), st)
read_or_wait false len ws (none, st) =
    let (r, st') = wait_until (try_read len) ws st in (answer r, st')

-- `PipeEnd::read` into a buffer of `len` bytes
unfoldable pub read_end :
    PipeEnd → ℕ → List (PipeState → PipeState) → PipeState → Option (Result (List ℕ)) × PipeState
unfolding read_or_wait
read_end e len ws st =
    if can_read e.end
    then (if len == 0 then (some (ok []), st) else read_or_wait e.nonblock len ws (try_read len st))
    else (some (err ebadf), st)

-- One attempt to write `rest`; the number is how many bytes went in.
unfoldable pub step : Bool → List ℕ → PipeState → Option (Result ℕ) × PipeState
step atomic rest st =
    let free = pipe_capacity - length st.buf in
    let needed = if atomic then length rest else 1 in
    let n = min free (length rest) in
    if st.readers == 0
    then (some (err epipe), st)
    else if leb needed free
    then (some (ok n), record st { buf = st.buf ++ take n rest })
    else (none, st)

pub data Attempt : Type 0 where
  resolved : Result ℕ → Attempt
  would_block sleeping : Attempt

abbrev pub resolve : Option (Result ℕ) → Attempt
resolve none = sleeping
resolve (some r) = resolved r

retry :
    Bool
    → Bool
    → List ℕ
    → List (PipeState → PipeState)
    → Option (Result ℕ) × PipeState
    → Attempt × PipeState
retry atomic nonblock rest ws (some r, st) = (resolved r, st)
retry atomic true rest ws (none, st) = (would_block, st)
retry atomic false rest ws (none, st) =
    let (r, st') = wait_until (step atomic rest) ws st in (resolve r, st')

-- What the other threads do: before the round that starts at a count of bytes written, and before
-- each wake-up of that round.
pub record Schedule : Type 0 where
  pub before : ℕ → PipeState → PipeState
  pub wakes : ℕ → List (PipeState → PipeState)

-- `returned r signalled`; the flag says whether SIGPIPE was raised.
pub data Outcome : Type 0 where
  returned : Result ℕ → Bool → Outcome
  asleep : ℕ → Outcome
  out_of_fuel : Outcome

-- The body of the loop of `write`, but for its own repetition.
unfoldable pub attempt : Bool → Bool → Schedule → List ℕ → ℕ → PipeState → Attempt × PipeState
unfolding retry
attempt atomic nonblock others rest written st =
    retry atomic nonblock rest (others.wakes written) (step atomic rest (others.before written st))

abbrev pub stop : ℕ → Errno → Outcome
stop written e = if ltb 0 written then returned (ok written) false else returned (err e) true

abbrev pub refuse : ℕ → Outcome
refuse written = if ltb 0 written then returned (ok written) false else returned (err eagain) false

unfoldable pub write_loop :
    ℕ → Bool → Bool → Schedule → List ℕ → ℕ → PipeState → Outcome × PipeState
write_loop zero atomic nonblock others [] written st = (returned (ok written) false, st)
write_loop zero atomic nonblock others (b ∷ bs) written st = (out_of_fuel, st)
write_loop (suc fuel) atomic nonblock others [] written st = (returned (ok written) false, st)
write_loop (suc fuel) atomic nonblock others (b ∷ bs) written st =
    let (a, st') = attempt atomic nonblock others (b ∷ bs) written st in
    elim a [
      | resolved (ok n) ↦ write_loop fuel atomic nonblock others (drop n (b ∷ bs)) (written + n) st'
      | resolved (err e) ↦ (stop written e, st')
      | would_block ↦ (refuse written, st')
      | sleeping ↦ (asleep written, st')
    ]

-- `PipeEnd::write`; each round takes at least one byte, so the length is fuel enough.
unfoldable pub write_end : PipeEnd → List ℕ → Schedule → PipeState → Outcome × PipeState
write_end e bytes others st =
    if can_write e.end
    then write_loop (length bytes) (leb (length bytes) pipe_buf) e.nonblock others bytes 0 st
    else (returned (err ebadf) false, st)

-- The bits of `PollEvents` that a pipe sets.
pub record PollEvents : Type 0 where
  pub readable : Bool
  pub rdnorm : Bool
  pub writable : Bool
  pub wrnorm : Bool
  pub error : Bool
  pub hup : Bool

abbrev pub no_events : PollEvents
no_events = record {
  readable = false;
  rdnorm = false;
  writable = false;
  wrnorm = false;
  error = false;
  hup = false;
}

abbrev is_empty : List ℕ → Bool
is_empty [] = true
is_empty (b ∷ bs) = false

poll_data : PipeState → PollEvents → PollEvents
poll_data st ev = if is_empty st.buf then ev else record ev { readable = true; rdnorm = true }

poll_eof : PipeState → PollEvents → PollEvents
poll_eof st ev =
    if st.writers == 0 && st.writers_opened
    then record ev { readable = true; rdnorm = true; hup = true }
    else ev

poll_room : PipeState → PollEvents → PollEvents
poll_room st ev =
    if st.readers == 0
    then record ev { error = true; hup = true }
    else if ltb 0 (pipe_capacity - length st.buf)
    then record ev { writable = true; wrnorm = true }
    else ev

unfoldable pub poll : End → PipeState → PollEvents
unfolding poll_data poll_eof poll_room
poll e st =
    let ev = if can_read e then poll_eof st (poll_data st no_events) else no_events in
    if can_write e then poll_room st ev else ev
