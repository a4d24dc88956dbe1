-- ===== src/Pipe/Ends.antt =====
-- petra/src/fs/pipe.rs: the reader and writer counts against the ends that are really open.
use petra_os.Common.{
  ℕ, suc, ◌+◌, ◌<◌, ◌≡◌, refl, ◌↔◌, inl, inr, Bool, true, false, some, List, [], ◌∷◌, ◌++◌, arith,
  if◌then◌else◌, Bool-cases, All,
}
use petra_os.Common.Errno.{epipe, err}
use petra_os.Pipe.{
  PipeState, End, read, write, can_read, can_write, new, new_anonymous, drop_end, open_fifo,
  try_read, step,
}

-- A pipe together with its open ends, which the source holds in the `PipeEnd` objects.
pub record System : Type 0 where
  pub pipe : PipeState
  pub ends : List End

pub count_ends : (End → Bool) → List End → ℕ
count_ends p [] = 0
count_ends p (e ∷ es) = if p e then suc (count_ends p es) else count_ends p es

-- What can happen to a pipe: an end is opened, some end is dropped, bytes are read or written.
pub data Step : System → System → Type 0 where
  opened :
      (s : System) (r w nonblock : Bool)
      → Step s (record {
        pipe = (open_fifo r w nonblock s.pipe).1;
        ends = (open_fifo r w nonblock s.pipe).0.end ∷ s.ends;
      })
  dropped :
      (st : PipeState) (before after : List End) (e : End)
      → Step
          (record { pipe = st; ends = before ++ (e ∷ after) })
          (record { pipe = drop_end e st; ends = before ++ after })
  was_read : (s : System) (len : ℕ) → Step s (record s { pipe = (try_read len s.pipe).1 })
  was_written :
      (s : System) (atomic : Bool) (rest : List ℕ)
      → Step s (record s { pipe = (step atomic rest s.pipe).1 })

-- A FIFO starts with no end, a pipe(2) with one of each.
pub data Reach : System → Type 0 where
  fifo : Reach (record { pipe = new; ends = [] })
  anonymous : Reach (record { pipe = new_anonymous; ends = read ∷ write ∷ [] })
  next : {s t : System} → Reach s → Step s t → Reach t

pub record Counted (s : System) : Type 0 where
  pub readers : s.pipe.readers ≡ count_ends can_read s.ends
  pub writers : s.pipe.writers ≡ count_ends can_write s.ends
  pub opened : 0 < s.pipe.writers → s.pipe.writers_opened ≡ true

count_ends-append :
    (p : End → Bool) (xs ys : List End)
    → count_ends p (xs ++ ys) ≡ count_ends p xs + count_ends p ys
unfolding count_ends
count_ends-append p [] ys = omega arith
count_ends-append p (x ∷ xs) ys = ground (arith, count_ends-append p xs ys)

open_fifo-Counted :
    (s : System) (r w nonblock : Bool)
    → Counted s
    → Counted (record {
      pipe = (open_fifo r w nonblock s.pipe).1;
      ends = (open_fifo r w nonblock s.pipe).0.end ∷ s.ends;
    })
unfolding open_fifo count_ends
open_fifo-Counted s r w nonblock c = ground arith

drop_end-Counted :
    (st : PipeState) (before after : List End) (e : End)
    → Counted (record { pipe = st; ends = before ++ (e ∷ after) })
    → Counted (record { pipe = drop_end e st; ends = before ++ after })
unfolding drop_end count_ends
drop_end-Counted st before after e c =
    let r = count_ends-append can_read before (e ∷ after) in
    let w = count_ends-append can_write before (e ∷ after) in
    let r' = count_ends-append can_read before after in
    let w' = count_ends-append can_write before after in
    let cr = c.readers in
    let cw = c.writers in
    let co = c.opened in
    record {
      readers = ground (arith, r, w, r', w', cr, cw);
      writers = ground (arith, r, w, r', w', cr, cw);
      opened = ground (arith, r, w, r', w', cr, cw, co);
    }

Step-Counted : {s t : System} → Step s t → Counted s → Counted t
unfolding try_read step
Step-Counted (opened s r w nonblock) c = open_fifo-Counted s r w nonblock c
Step-Counted (dropped st before after e) c = drop_end-Counted st before after e c
Step-Counted (was_read s len) c = ground arith
Step-Counted (was_written s atomic rest) c = ground arith

-- The two counts are at all times the numbers of open ends that can read and that can write, so
-- the saturating subtractions never saturate; and a pipe that has a write end knows it was opened.
pub Reach-Counted : {s : System} → Reach s → Counted s
unfolding new new_anonymous count_ends
Reach-Counted fifo = record { readers = refl; writers = refl; opened = λ h. absurd (omega arith) }
Reach-Counted anonymous = record { readers = refl; writers = refl; opened = λ h. refl }
Reach-Counted (next r st) = Step-Counted st (Reach-Counted r)

abbrev pub NoneCan : (End → Bool) → List End → Type 0
NoneCan p es = All (λ e. p e ≡ false) es

count_ends-zero : (p : End → Bool) (es : List End) → count_ends p es ≡ 0 → NoneCan p es
unfolding count_ends
count_ends-zero p [] h = tt
count_ends-zero p (e ∷ es) h = elim (Bool-cases (p e)) [
  | inl y ↦ absurd (ground arith)
  | inr n ↦ (n, count_ends-zero p es (ground arith))
]

NoneCan-zero : (p : End → Bool) (es : List End) → NoneCan p es → count_ends p es ≡ 0
unfolding count_ends
NoneCan-zero p [] h = refl
NoneCan-zero p (e ∷ es) h = rw (h.0) (NoneCan-zero p es h.1)

-- In every reachable state of a pipe, whatever the length asked for: a read of the empty pipe
-- reports end of file only if no open end can write, and a write of some bytes fails with EPIPE
-- exactly if no open end can read.
pub hang_up :
    {s : System} (len b : ℕ) (bs : List ℕ) (atomic : Bool)
    → Reach s
    → (s.pipe.buf ≡ [] → (try_read len s.pipe).0 ≡ some [] → NoneCan can_write s.ends)
      × (((step atomic (b ∷ bs) s.pipe).0 ≡ some (err epipe)) ↔ NoneCan can_read s.ends)
unfolding try_read step
hang_up {s} len b bs atomic r =
    let c = Reach-Counted r in
    (
      (λ e h. count_ends-zero can_write s.ends (ground (arith, c.writers))),
      (
        (λ h. count_ends-zero can_read s.ends (ground (arith, c.readers))),
        λ h. ground (arith, c.readers, NoneCan-zero can_read s.ends h),
      ),
    )
