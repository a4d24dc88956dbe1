-- ===== src/EventFd.antt =====
-- petra/src/fs/fd/event_fd.rs: eventfd counters. Values are u64, below 2^64.
pub mod Counter
mod Tests
use petra_os.Common.{
  ℕ, zero, suc, ◌+◌, ◌-◌, ◌*◌, ◌/◌, ◌%◌, ◌^◌, ◌≤◌, ◌<◌, min, max, bit_and, ◌≡◌, refl, sym, ap, ap₂,
  ◌∙◌, subst, ◌≢◌, ◌↔◌, ◌⊎◌, inl, inr, Bool, true, false, not, ◌&&◌, ◌||◌, Option, none, some, List,
  [], ◌∷◌, ◌++◌, map, append-nil, append_assoc, arith, ltb, leb, ◌==◌, if◌then◌else◌, ltb→lt,
  lt→ltb, leb→le, ==_iff, tests, Bool-cases, Option-cases, if_cases, length, get_elem?, set, take,
  drop, replicate, All, length-append, take-append-drop, length-take, length-drop, take_all,
  drop_all, length-set, length-replicate, get_elem?-set_self, get_elem?-set_ne, get_elem?_total,
  get_elem?_lt, All-append, All-left, All-right,
}
use petra_os.Common.Errno.{
  Errno, eperm, enoent, esrch, eintr, e2big, ebadf, eagain, eacces, efault, eexist, ebusy, einval,
  emfile, efbig, enospc, erange, epipe, eidrm, enomem, emsgsize, etimedout, Result, ok, err, ◌>>=◌,
}
use petra_os.Common.Wait.{wait_until, wait_until_keeps, wait_until_returns, wait_until_attempt}

abbrev pub eventfd_max_counter : ℕ
eventfd_max_counter = 2 ^ 64 - 2

abbrev pub eventfd_payload_size : ℕ
eventfd_payload_size = 8

-- What a call sees: the counter, the mode, and whether its thread is to be interrupted.
pub record EventFd : Type 0 where
  pub counter : ℕ
  pub is_semaphore : Bool
  pub interrupted : Bool

unfoldable pub new : ℕ → Bool → EventFd
new initial_val is_semaphore = record {
  counter = initial_val;
  is_semaphore = is_semaphore;
  interrupted = false;
}

abbrev give_up {ℓ} : {A : Type ℓ} → EventFd → Option (Result A) × EventFd
give_up w = (if w.interrupted then some (err eintr) else none, w)

-- `try_consume`, which answers with the value that it copies out.
unfoldable pub try_consume : EventFd → Option (Result ℕ) × EventFd
try_consume w =
    if ltb 0 w.counter
    then (if w.is_semaphore
        then (some (ok 1), record w { counter = w.counter - 1 })
        else (some (ok w.counter), record w { counter = 0 }))
    else give_up w

unfoldable pub consume_event :
    Bool → List (EventFd → EventFd) → EventFd → Option (Result ℕ) × EventFd
consume_event nonblocking ws w =
    let (r, w') = try_consume w in
    elim r [
      | some x ↦ (some x, w')
      | none ↦ if nonblocking then (some (err eagain), w') else wait_until try_consume ws w'
    ]

-- `try_post`, which answers with the payload's size.
unfoldable pub try_post : ℕ → EventFd → Option (Result ℕ) × EventFd
try_post increment_val w =
    if leb increment_val (eventfd_max_counter - w.counter)
    then (some (ok eventfd_payload_size), record w { counter = w.counter + increment_val })
    else give_up w

unfoldable pub post_event :
    ℕ → Bool → List (EventFd → EventFd) → EventFd → Option (Result ℕ) × EventFd
post_event increment_val nonblocking ws w =
    let (r, w') = try_post increment_val w in
    elim r [
      | some x ↦ (some x, w')
      | none ↦
          if nonblocking then (some (err eagain), w') else wait_until (try_post increment_val) ws w'
    ]

-- `poll_events`: the IN (with RDNORM) and the OUT (with WRNORM) bits.
unfoldable pub poll_events : EventFd → Bool × Bool
poll_events w = (ltb 0 w.counter, ltb w.counter eventfd_max_counter)

-- `FileOps` of the descriptor: `read` into a buffer of `len` bytes, and `write` of a buffer of `len`
-- bytes that starts with `increment_val`.
unfoldable pub read_file :
    ℕ → Bool → List (EventFd → EventFd) → EventFd → Option (Result ℕ) × EventFd
read_file len nonblocking ws w =
    if ltb len eventfd_payload_size then (some (err einval), w) else consume_event nonblocking ws w

unfoldable pub write_file :
    ℕ → ℕ → Bool → List (EventFd → EventFd) → EventFd → Option (Result ℕ) × EventFd
write_file len increment_val nonblocking ws w =
    if ltb len eventfd_payload_size || increment_val == 2 ^ 64 - 1
    then (some (err einval), w)
    else post_event increment_val nonblocking ws w
