-- ===== src/Pipe/Stream.antt =====
-- petra/src/fs/pipe.rs: the pipe as a stream: what is read is what was written, in order.
use petra_os.Common.{
  ℕ, zero, suc, ◌+◌, ◌-◌, ◌≤◌, min, ◌≡◌, refl, sym, ap, ◌∙◌, ◌≢◌, inl, inr, Bool, Option, none,
  some, List, [], ◌∷◌, ◌++◌, append-nil, append_assoc, arith, leb, Bool-cases, length, take, drop,
  take-append-drop, length-take,
}
use petra_os.Common.Errno.{Result, ok, err}
use petra_os.Common.Wait.{wait_until}
use petra_os.Pipe.{
  PipeState, PipeEnd, pipe_buf, pipe_capacity, can_write, try_read, read_end, step, attempt,
  resolved, Outcome, returned, asleep, out_of_fuel, stop, refuse, Schedule, write_loop, write_end,
}
use petra_os.Pipe.Rounds.{Stored, step-Stored, write_loop-rounds}

-- No other thread runs during the call.
abbrev pub quiet : Schedule
quiet = record { before = λ n st. st; wakes = λ n. [] }

-- How many bytes a call of `write` has put into the pipe.
abbrev pub count : Outcome → ℕ
count (returned (ok n) s) = n
count (returned (err e) s) = 0
count (asleep n) = n
count out_of_fuel = 0

attempt-quiet_ok :
    (atomic nonblock : Bool) (b : ℕ) (bs : List ℕ) (w n : ℕ) (st : PipeState)
    → (attempt atomic nonblock quiet (b ∷ bs) w st).0 ≡ resolved (ok n)
    → Stored atomic (b ∷ bs) n st (attempt atomic nonblock quiet (b ∷ bs) w st).1
attempt-quiet_ok atomic nonblock b bs w n st h =
    step-Stored atomic b bs n st _ (unfold attempt wait_until in ground arith)

attempt-quiet_else :
    (atomic nonblock : Bool) (rest : List ℕ) (w : ℕ) (st : PipeState)
    → ((n : ℕ) → (attempt atomic nonblock quiet rest w st).0 ≢ resolved (ok n))
    → (attempt atomic nonblock quiet rest w st).1 ≡ st
unfolding attempt step wait_until
attempt-quiet_else atomic nonblock rest w st h =
    ground (arith, h (min (pipe_capacity - length st.buf) (length rest)))

take-nil {ℓ} : {A : Type ℓ} (n : ℕ) → take {A = A} n [] ≡ []
take-nil zero = refl
take-nil (suc n) = refl

abbrev Fed : List ℕ → ℕ → PipeState → Outcome × PipeState → Type 0
Fed rest w s out =
    (w ≤ count out.0) × (out.1 ≡ record s { buf = s.buf ++ take (count out.0 - w) rest })

take-split {ℓ} :
    {A : Type ℓ} (n m : ℕ) (xs : List A) → take n xs ++ take m (drop n xs) ≡ take (n + m) xs
take-split zero m xs = let e : m ≡ 0 + m = omega arith in ap (λ k. take k xs) e
take-split (suc n) m [] = take-nil m ∙ sym (take-nil (suc n + m))
take-split {A = A} (suc n) m (x ∷ xs) =
    let e : suc n + m ≡ suc (n + m) = omega arith in rw e (ap (λ t. x ∷ t) (take-split n m xs))

none-Fed :
    (k w : ℕ) (rest : List ℕ) (s t : PipeState)
    → k ≤ w
    → t ≡ s
    → t ≡ record s { buf = s.buf ++ take (k - w) rest }
none-Fed k w rest s t h e =
    let z : k - w ≡ 0 = omega arith in
    e ∙ rw z (ap (λ b. record s { buf = b }) (sym (append-nil s.buf)))

Fed-more :
    (b : ℕ) (bs : List ℕ) (w n : ℕ) (s t : PipeState) (out : Outcome × PipeState) (atomic : Bool)
    → Stored atomic (b ∷ bs) n s t
    → Fed (drop n (b ∷ bs)) (w + n) t out
    → Fed (b ∷ bs) w s out
Fed-more b bs w n s t out atomic st f =
    let k = count out.0 - (w + n) in
    let all : n + k ≡ count out.0 - w = omega (arith, f.0) in
    (
      omega (arith, f.0),
      f.1
          ∙ rw st.after (
              ap (λ b. record s { buf = b })
                (append_assoc s.buf (take n (b ∷ bs)) (take k (drop n (b ∷ bs)))
                  ∙ ap (λ r. s.buf ++ r)
                      (take-split n k (b ∷ bs) ∙ ap (λ i. take i (b ∷ bs)) all))),
    )

Fed-exit :
    (atomic nonblock : Bool) (b : ℕ) (bs : List ℕ) (w : ℕ) (s : PipeState) (o : Outcome)
    → count o ≡ w
    → ((n : ℕ) → (attempt atomic nonblock quiet (b ∷ bs) w s).0 ≢ resolved (ok n))
    → Fed (b ∷ bs) w s (o, (attempt atomic nonblock quiet (b ∷ bs) w s).1)
Fed-exit atomic nonblock b bs w s o c h = (
  omega arith,
  none-Fed (count o) w (b ∷ bs) s _ (omega arith)
      (attempt-quiet_else atomic nonblock (b ∷ bs) w s h),
)

Fed-loop :
    (fuel : ℕ) (atomic nonblock : Bool) (rest : List ℕ) (w : ℕ) (st : PipeState)
    → length rest ≤ fuel
    → Fed rest w st (write_loop fuel atomic nonblock quiet rest w st)
Fed-loop fuel atomic nonblock rest w st h =
    write_loop-rounds atomic nonblock quiet Fed
      (λ w s. (omega arith, none-Fed w w [] s s (omega arith) refl))
      (λ b bs w n s out p q more.
        Fed-more b bs w n s _ out atomic (attempt-quiet_ok atomic nonblock b bs w n s p) more)
      (λ b bs w s x p. Fed-exit atomic nonblock b bs w s (stop w x) (ground arith) (λ n. cc))
      (λ b bs w s p. Fed-exit atomic nonblock b bs w s (refuse w) (ground arith) (λ n. cc))
      (λ b bs w s p. Fed-exit atomic nonblock b bs w s (asleep w) refl (λ n. cc)) fuel rest w st h

-- A call of `write` with no other thread about appends to the buffer the first bytes of its
-- argument, as many as it reports (or as it has written when it goes to sleep), and changes nothing
-- else of the pipe.
write_end-appends :
    (e : PipeEnd) (bytes : List ℕ) (st : PipeState)
    → let out = write_end e bytes quiet st in
      out.1 ≡ record st { buf = st.buf ++ take (count out.0) bytes }
unfolding write_end
write_end-appends e bytes st =
    let out = write_loop (length bytes) (leb (length bytes) pipe_buf) e.nonblock quiet bytes 0 st in
    let f =
      Fed-loop (length bytes) (leb (length bytes) pipe_buf) e.nonblock bytes 0 st (omega arith) in
    let z : count out.0 - 0 ≡ count out.0 = omega arith in
    elim (Bool-cases (can_write e.end)) [
      | inl w ↦ rw w (f.1 ∙ rw z)
      | inr w ↦ rw w (ap (λ b. record st { buf = b }) (sym (append-nil st.buf)))
    ]

-- What a call of `read` delivered; nothing if it failed or sleeps.
abbrev pub delivered : Option (Result (List ℕ)) → List ℕ
delivered none = []
delivered (some (ok bytes)) = bytes
delivered (some (err e)) = []

-- A call of `read` with no other thread about takes its bytes off the front of the buffer, at most
-- as many as it was asked for, and changes nothing else of the pipe.
read_end-takes :
    (e : PipeEnd) (len : ℕ) (st : PipeState)
    → let out = read_end e len [] st in
      (st.buf ≡ delivered out.0 ++ out.1.buf)
      × (length (delivered out.0) ≤ len)
      × (out.1 ≡ record st { buf = out.1.buf })
unfolding read_end try_read wait_until
read_end-takes e len st =
    let n = min len (length st.buf) in
    ground (arith, take-append-drop n st.buf, length-take n st.buf)

pub data Call : Type 0 where
  reads : PipeEnd → ℕ → Call
  writes : PipeEnd → List ℕ → Call

pub call : Call → PipeState → PipeState
call (reads e len) st = (read_end e len [] st).1
call (writes e bytes) st = (write_end e bytes quiet st).1

pub bytes_out : Call → PipeState → List ℕ
bytes_out (reads e len) st = delivered (read_end e len [] st).0
bytes_out (writes e bytes) st = []

pub bytes_in : Call → PipeState → List ℕ
bytes_in (reads e len) st = []
bytes_in (writes e bytes) st = take (count (write_end e bytes quiet st).0) bytes

-- The state after the calls, all the bytes that they delivered, and all that they stored.
pub after_calls : List Call → PipeState → PipeState
after_calls [] st = st
after_calls (c ∷ cs) st = after_calls cs (call c st)

pub all_out : List Call → PipeState → List ℕ
all_out [] st = []
all_out (c ∷ cs) st = bytes_out c st ++ all_out cs (call c st)

pub all_in : List Call → PipeState → List ℕ
all_in [] st = []
all_in (c ∷ cs) st = bytes_in c st ++ all_in cs (call c st)

call_stream :
    (c : Call) (st : PipeState) → st.buf ++ bytes_in c st ≡ bytes_out c st ++ (call c st).buf
unfolding call bytes_in bytes_out
call_stream (reads e len) st = append-nil st.buf ∙ (read_end-takes e len st).0
call_stream (writes e bytes) st = sym (ap (λ (t : PipeState). t.buf) (write_end-appends e bytes st))

-- The pipe is a FIFO stream: over any sequence of calls on its ends, the bytes that were there and
-- then those that the writes stored are, in order, the bytes that the reads delivered and then
-- those still there.
pub pipe_stream :
    (cs : List Call) (st : PipeState)
    → st.buf ++ all_in cs st ≡ all_out cs st ++ (after_calls cs st).buf
unfolding all_in all_out after_calls
pipe_stream [] st = append-nil st.buf
pipe_stream (c ∷ cs) st =
    sym (append_assoc st.buf (bytes_in c st) (all_in cs (call c st)))
    ∙ rw (call_stream c st) (
        append_assoc (bytes_out c st) (call c st).buf (all_in cs (call c st))
        ∙ ap (λ r. bytes_out c st ++ r) (pipe_stream cs (call c st))
        ∙ sym (
            append_assoc (bytes_out c st) (all_out cs (call c st))
              (after_calls cs (call c st)).buf))
