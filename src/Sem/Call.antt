-- ===== src/Sem/Call.antt =====
-- petra/src/ipc/sem/mod.rs: whole calls of `sem_op`, which may sleep.
use petra_os.Common.{
  ℕ, zero, suc, ◌+◌, ◌-◌, ◌*◌, ◌/◌, ◌%◌, ◌^◌, ◌≤◌, ◌<◌, min, max, bit_and, ◌≡◌, refl, sym, ap, ap₂,
  ◌∙◌, subst, ◌≢◌, ◌↔◌, ◌⊎◌, inl, inr, Bool, true, false, not, ◌&&◌, ◌||◌, Option, none, some, List,
  [], ◌∷◌, ◌++◌, map, append-nil, append_assoc, arith, ltb, leb, ◌==◌, if◌then◌else◌, ltb→lt,
  lt→ltb, leb→le, ==_iff, tests, Bool-cases, Option-cases, if_cases, length, get_elem?, set, take,
  drop, replicate, All, length-append, take-append-drop, length-take, length-drop, take_all,
  drop_all, length-set, length-replicate, get_elem?-set_self, get_elem?-set_ne, get_elem?_total,
  get_elem?_lt, All-append, All-left, All-right,
}
use petra_os.Common.Errno.{
  Errno, eintr, e2big, eagain, efault, einval, efbig, eidrm, Result, ok, err, ◌>>=◌,
}
use petra_os.Common.Wait.{wait_until}
use petra_os.Common.Int.{ℤ, pos, negsuc}
use petra_os.Sem.{
  semopm, ipc_nowait, has, Semaphore, SemBuf, Cred, SemSet, check_read_permission,
  check_write_permission, can_execute_ops, Undo, is_zero, apply_ops, apply_so_far,
}
use petra_os.Common

pub data Reply : Type 0 where
  done panic : Reply
  fail : Errno → Reply

-- What a call sees: its set, the undo records, the time, whether its deadline has passed and whether
-- its thread is to be interrupted.
pub record World : Type 0 where
  pub set : SemSet
  pub undos : List Undo
  pub now : ℕ
  pub expired : Bool
  pub interrupted : Bool

-- The condition that `sem_op` sleeps on, which the fast path tries too.
unfoldable pub attempt : ℕ → List SemBuf → World → Option Reply × World
attempt pid ops w =
    let changed = λ (otime : ℕ) (sems : List Semaphore) (us : List Undo). record w {
      set = record w.set { sems = sems; otime = otime };
      undos = us;
    } in
    let part = apply_so_far pid w.set.semid ops (w.set.sems, w.undos) in
    if w.set.destroyed then (some (fail eidrm), w) else elim (can_execute_ops w.set.sems ops) [
      | none ↦ (some panic, w)
      | some (err e) ↦ (some (fail e), w)
      | some (ok false) ↦ (none, w)
      | some (ok true) ↦ elim (apply_ops pid w.set.semid ops (w.set.sems, w.undos)) [
        | none ↦ (some panic, changed w.set.otime part.0 part.1)
        | some (sems, us) ↦ (some done, changed w.now sems us)
      ]
    ]

-- The same, followed by the condition that cancels the wait.
unfoldable pub recheck : ℕ → List SemBuf → World → Option Reply × World
recheck pid ops w =
    let (r, w') = attempt pid ops w in
    elim r [
      | some x ↦ (some x, w')
      | none ↦
          if w'.expired
          then (some (fail eagain), w')
          else if w'.interrupted
          then (some (fail eintr), w')
          else (none, w')
    ]

-- The counts of waiters, which saturate at the bounds of u16. The indexes have been checked.
abbrev pub wait_on : (ℕ → ℕ) → ℤ → Semaphore → Semaphore
wait_on f (negsuc n) s = record s { ncnt = f s.ncnt }
wait_on f (pos zero) s = record s { zcnt = f s.zcnt }
wait_on f (pos (suc n)) s = s

unfoldable pub count_waits : (ℕ → ℕ) → List SemBuf → List Semaphore → List Semaphore
count_waits f [] sems = sems
count_waits f (op ∷ ops) sems = count_waits f ops (elim (get_elem? sems op.sem_num) [
  | none ↦ sems
  | some s ↦ Common.set sems op.sem_num (wait_on f op.sem_op s)
])

unfoldable pub count_world : (ℕ → ℕ) → List SemBuf → World → World
count_world f ops w = record w { set = record w.set { sems = count_waits f ops w.set.sems } }

abbrev pub enter : ℕ → ℕ
enter n = min (n + 1) 65535

abbrev pub leave : ℕ → ℕ
leave n = n - 1

abbrev pub any_of : (SemBuf → Bool) → List SemBuf → Bool
any_of p [] = false
any_of p (op ∷ ops) = p op || any_of p ops

-- The wait, between the two updates of the counts. A call that is still asleep is
-- counted, and so is one that panics.
unfoldable pub sleep : ℕ → List SemBuf → List (World → World) → World → Option Reply × World
sleep pid ops ws w =
    let (r, w') = wait_until (recheck pid ops) ws (count_world enter ops w) in
    elim r [
      | none ↦ (none, w')
      | some panic ↦ (some panic, w')
      | some done ↦ (some done, count_world leave ops w')
      | some (fail e) ↦ (some (fail e), count_world leave ops w')
    ]

-- The checks of the call, in their order: the count, the pointer, the operations as read from
-- user memory, the lookup, and the set.
unfoldable pub admit : ℕ → ℕ → Result (List SemBuf) → Bool → Cred → SemSet → Result (List SemBuf)
admit nsops ptr read found cred s =
    if nsops == 0 || ltb semopm nsops
    then err e2big
    else if ptr == 0
    then err efault
    else read >>= λ ops.
        if not found
        then err einval
        else if s.destroyed
        then err eidrm
        else if any_of (λ op. leb s.nsems op.sem_num) ops
        then err efbig
        else (if any_of (λ op. not (is_zero op.sem_op)) ops
            then check_write_permission s.perm cred
            else check_read_permission s.perm cred)
          >>= λ _. ok ops

-- The fast path and the wait; `zero_timeout` says that the timeout is zero.
unfoldable pub perform :
    Bool → ℕ → List SemBuf → List (World → World) → World → Option Reply × World
perform zero_timeout pid ops ws w =
    let (r, w') = attempt pid ops w in
    elim r [
      | some x ↦ (some x, w')
      | none ↦
          if any_of (λ op. has op.sem_flg ipc_nowait) ops || zero_timeout
          then (some (fail eagain), w')
          else sleep pid ops ws w'
    ]

-- `between` is what the other threads do after the checks, while the set is not locked.
unfoldable pub sem_op :
    ℕ
    → ℕ
    → Result (List SemBuf)
    → Bool
    → Bool
    → Cred
    → ℕ
    → (World → World)
    → List (World → World)
    → World
    → Option Reply × World
sem_op nsops ptr read found zero_timeout cred pid between ws w =
    elim (admit nsops ptr read found cred w.set) [
      | err e ↦ (some (fail e), w)
      | ok ops ↦ perform zero_timeout pid ops ws (between w)
    ]
