-- ===== src/Pipe/Tests.antt =====
-- petra/src/fs/pipe.rs: runs of the model, and the theorems at concrete pipes.
use petra_os.Common.{
  All, All-right, take, take-append-drop, subst, sym, inl, inr, ◌≡◌, refl, ◌≢◌, ◌↔◌, ◌⊎◌, true,
  some, List, [], ◌∷◌, ◌++◌, arith, drop, length-drop,
}
use petra_os.Common.Errno.{epipe, ok, err}
use petra_os.Pipe.{
  PipeState, read, write, PipeEnd, can_read, can_write, new_anonymous, drop_end, try_read, read_end,
  step, attempt, returned, out_of_fuel, Schedule, write_loop, write_end,
}
use petra_os.Pipe.Capacity.{IsCareful}
use petra_os.Pipe.Write.{write_end-ends, WroteAll, WroteNone, Keeps, write_end-atomic}
use petra_os.Pipe.Stream.{quiet, Call, reads, writes, all_in, all_out, after_calls, pipe_stream}
use petra_os.Pipe.Ends.{System, Reach, Reach-Counted, Counted, Step, NoneCan, hang_up}

-- Two bytes in the pipe, one end of each kind.
abbrev filled : PipeState
filled = record { buf = 7 ∷ 8 ∷ []; readers = 1; writers = 1; writers_opened = true }

abbrev reader : PipeEnd
reader = record { end = read; nonblock = true }

abbrev writer : PipeEnd
writer = record { end = write; nonblock = true }

-- Another thread takes a byte before each round.
abbrev taking : Schedule
taking = record { before = λ n st. record st { buf = drop 1 st.buf }; wakes = λ n. [] }

taking-IsCareful : IsCareful taking
taking-IsCareful = record {
  before = λ n st h. omega (arith, length-drop 1 st.buf);
  wakes = λ n. tt;
}

reads_what_was_written :
    (read_end reader 10 [] (write_end writer (9 ∷ []) quiet filled).1).0
    ≡ some (ok (7 ∷ 8 ∷ 9 ∷ []))
unfolding read_end write_end write_loop attempt step try_read
reads_what_was_written = refl

no_reader :
    (write_end writer (9 ∷ []) quiet (record filled { readers = 0 })).0 ≡ returned (err epipe) true
unfolding write_end write_loop attempt step
no_reader = refl

write_end-ends_example : (write_end writer (9 ∷ []) taking filled).0 ≢ out_of_fuel
write_end-ends_example = write_end-ends writer (9 ∷ []) taking filled

-- The buffer has no byte but 7 and 8, as before the call.
abbrev OnlyOld : PipeState → Type 0
OnlyOld st = All (λ b. (b ≡ 7) ⊎ (b ≡ 8)) st.buf

taking-Keeps : Keeps OnlyOld taking
taking-Keeps = record {
  before = λ s h.
      All-right (λ b. (b ≡ 7) ⊎ (b ≡ 8)) (take 1 s.buf) (drop 1 s.buf)
        (subst (All (λ b. (b ≡ 7) ⊎ (b ≡ 8))) (sym (take-append-drop 1 s.buf)) h);
  wakes = tt;
}

write_end-atomic_example :
    let out = write_end writer (9 ∷ 5 ∷ []) taking filled in
    WroteAll OnlyOld (9 ∷ 5 ∷ []) out ⊎ WroteNone OnlyOld out
write_end-atomic_example =
    write_end-atomic OnlyOld writer (9 ∷ 5 ∷ []) taking filled (λ e. cc) (omega arith) refl
      taking-Keeps (inl refl, (inr refl, tt))

abbrev script : List Call
script = writes writer (1 ∷ 2 ∷ []) ∷ reads reader 3 ∷ writes writer (3 ∷ []) ∷ reads reader 9 ∷ []

pipe_stream_example :
    7 ∷ 8 ∷ all_in script filled ≡ all_out script filled ++ (after_calls script filled).buf
pipe_stream_example = pipe_stream script filled

abbrev one_end_left : System
one_end_left = record { pipe = drop_end write new_anonymous; ends = read ∷ [] }

one_end_left-Reach : Reach one_end_left
one_end_left-Reach = Reach.next Reach.anonymous (Step.dropped new_anonymous (read ∷ []) [] write)

Reach-Counted_example : Counted one_end_left
Reach-Counted_example = Reach-Counted one_end_left-Reach

hang_up_example :
    ((drop_end write new_anonymous).buf ≡ []
      → (try_read 5 (drop_end write new_anonymous)).0 ≡ some []
      → NoneCan can_write (read ∷ []))
    × (((step true (1 ∷ []) (drop_end write new_anonymous)).0 ≡ some (err epipe))
        ↔ NoneCan can_read (read ∷ []))
hang_up_example = hang_up 5 1 [] true one_end_left-Reach
