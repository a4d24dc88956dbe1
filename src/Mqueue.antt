-- ===== src/Mqueue.antt =====
-- petra/src/ipc/mqueue.rs: POSIX message queues. A queue is a value passed through the operations;
-- the registry keeps the queues in a list, in which an index stands for an `Arc<Mqueue>`.
-- Numbers of type i32, u32 and u64 are their bit patterns.
pub mod Bounds
pub mod Block
pub mod Registry
pub mod Open
pub mod Locks
pub mod Pick
pub mod Notify
mod Tests
use petra_os.Common.{
  ℕ, zero, suc, ◌+◌, ◌-◌, ◌*◌, ◌/◌, ◌%◌, ◌^◌, ◌≤◌, ◌<◌, min, max, bit_and, ◌≡◌, refl, sym, ap, ap₂,
  ◌∙◌, subst, ◌≢◌, ◌↔◌, ◌⊎◌, inl, inr, Bool, true, false, not, ◌&&◌, ◌||◌, Option, none, some, List,
  [], ◌∷◌, ◌++◌, map, append-nil, append_assoc, arith, ltb, leb, ◌==◌, if◌then◌else◌, ltb→lt,
  lt→ltb, leb→le, ==_iff, tests, Bool-cases, Option-cases, length, get_elem?, set, take, drop,
  replicate, All, length-append, take-append-drop, length-take, length-drop, take_all, drop_all,
  length-set, length-replicate, get_elem?-set_self, get_elem?-set_ne, get_elem?_total, get_elem?_lt,
  All-append, All-left, All-right,
}
use petra_os.Common.Errno.{
  Errno, eperm, enoent, esrch, eintr, e2big, ebadf, eagain, eacces, efault, eexist, ebusy, einval,
  emfile, efbig, enospc, erange, epipe, eidrm, enomem, emsgsize, etimedout, Result, ok, err, ◌>>=◌,
}
use petra_os.Common.Wait.{wait_until, wait_until_keeps, wait_until_returns, wait_until_attempt}

abbrev pub default_maxmsg : ℕ
default_maxmsg = 10

abbrev pub default_msgsize : ℕ
default_msgsize = 8192

abbrev pub mq_max_msgsize : ℕ
mq_max_msgsize = 1048576

abbrev pub mq_max_msg_count : ℕ
mq_max_msg_count = 65535

abbrev pub mq_max_queue_bytes : ℕ
mq_max_queue_bytes = 8388608

abbrev pub mq_prio_max : ℕ
mq_prio_max = 32767

abbrev pub mq_name_max : ℕ
mq_name_max = 255

abbrev pub usize_max : ℕ
usize_max = 2 ^ 64 - 1

pub record MqMsg : Type 0 where
  pub prio : ℕ
  pub payload : List ℕ

pub record NotifyState : Type 0 where
  pub owner_pid : ℕ
  pub signo : ℕ
  pub value : ℕ

pub record Mqueue : Type 0 where
  pub maxmsg : ℕ
  pub msgsize : ℕ
  pub mode : ℕ
  pub owner_uid : ℕ
  pub owner_gid : ℕ
  pub msgs : List MqMsg
  pub bytes : ℕ
  pub notify : Option NotifyState

abbrev pub capacity : Mqueue → ℕ
capacity q = q.maxmsg * q.msgsize

-- `deliver_notify`. Which process ids name a live process is the parameter; the option is the
-- signal sent.
unfoldable pub deliver_notify : (ℕ → Bool) → Mqueue → Mqueue × Option NotifyState
deliver_notify alive q = elim q.notify [
  | none ↦ (q, none)
  | some n ↦ (record q { notify = none }, if alive n.owner_pid then some n else none)
]

-- The queue with its lock on the byte count: whether a thread holds it that does not give it back.
pub record Shared : Type 0 where
  pub queue : Mqueue
  pub bytes_held : Bool

-- `SpinLock::lock`: nothing when the lock is held, since the thread then spins. A lock that another
-- thread holds for a while is not modelled: `bytes_held` is for good.
abbrev pub acquire : Bool → Option Bool
acquire true = none
acquire false = some true

-- `*queue.bytes.lock() = queue.bytes.lock().f(n)`: the guard that the right-hand side takes lives to
-- the end of the statement, and the left-hand side takes the lock too. The flag is whether the
-- statement ends.
unfoldable pub assign_bytes : (ℕ → ℕ) → Shared → Bool × Shared
assign_bytes f q = elim (acquire q.bytes_held) [
  | none ↦ (false, q)
  | some right ↦ elim (acquire right) [
    | none ↦ (false, record q { bytes_held = right })
    | some left ↦
        (true, record { queue = record q.queue { bytes = f q.queue.bytes }; bytes_held = false })
  ]
]

-- How an attempt ends: it spins for ever, finds the queue full or empty, or answers.
pub data Ending {ℓ} (R : Type ℓ) : Type ℓ where
  stuck would_block : Ending R
  replied : Result R → Ending R

pub record Sent : Type 0 where
  pub ending : Ending ℕ
  pub slot : Option (List ℕ)
  pub shared : Shared
  pub signal : Option NotifyState

push_back : Mqueue → List ℕ → ℕ → Mqueue
push_back q bytes prio = record q {
  msgs = q.msgs ++ (record { prio = prio; payload = bytes } ∷ []);
}

-- `gap` is what other threads do between the check for room and the update, while no lock is held.
unfoldable pub try_send : (ℕ → Bool) → (Shared → Shared) → Shared → Option (List ℕ) → ℕ → Sent
unfolding push_back
try_send alive gap q none prio = record {
  ending = replied (err efault);
  slot = none;
  shared = q;
  signal = none;
}
try_send alive gap q (some bytes) prio =
    let full =
      ltb (capacity q.queue) (q.queue.bytes + length bytes)
      || leb q.queue.maxmsg (length q.queue.msgs) in
    let (ends, q') = assign_bytes (λ n. min (n + length bytes) usize_max) (gap q) in
    let (told, signal) = deliver_notify alive (push_back q'.queue bytes prio) in
    if q.bytes_held
    then record { ending = stuck; slot = some bytes; shared = q; signal = none }
    else if full
    then record { ending = would_block; slot = some bytes; shared = q; signal = none }
    else if ends
    then record {
      ending = replied (ok (length bytes));
      slot = none;
      shared = record q' { queue = told };
      signal = signal;
    }
    else record { ending = stuck; slot = none; shared = q'; signal = none }

abbrev pub prio_at : List MqMsg → ℕ → ℕ
prio_at [] i = 0
prio_at (m ∷ ms) zero = m.prio
prio_at (m ∷ ms) (suc i) = prio_at ms i

-- `for i in 1..msgs.len()`: the rounds left, the next index, the best index so far.
unfoldable pub best_loop : List MqMsg → ℕ → ℕ → ℕ → ℕ
best_loop ms zero i best = best
best_loop ms (suc rounds) i best =
    best_loop ms rounds (i + 1) (if ltb (prio_at ms best) (prio_at ms i) then i else best)

unfoldable pub best : List MqMsg → ℕ
best ms = best_loop ms (length ms - 1) 1 0

abbrev pub remove : List MqMsg → ℕ → List MqMsg
remove [] i = []
remove (m ∷ ms) zero = ms
remove (m ∷ ms) (suc i) = m ∷ remove ms i

-- The bytes copied into a buffer of `len` bytes, and the priority. `gap` is what other threads do
-- after the messages are unlocked and before the byte count is locked.
unfoldable pub try_recv : (Shared → Shared) → Shared → ℕ → Ending (List ℕ × ℕ) × Shared
try_recv gap q len = elim (get_elem? q.queue.msgs (best q.queue.msgs)) [
  | none ↦ (would_block, q)
  | some m ↦
      let left = record q {
        queue = record q.queue { msgs = remove q.queue.msgs (best q.queue.msgs) };
      } in
      let (ends, q') = assign_bytes (λ n. n - length m.payload) (gap left) in
      (
        if ends then replied (ok (take (min (length m.payload) len) m.payload, m.prio)) else stuck,
        q',
      )
]

-- `mq_register_notify` by the process `pid`.
unfoldable pub mq_register_notify : Option ℕ → ℕ → ℕ → Mqueue → Result (Unit {0}) × Mqueue
mq_register_notify none signo value q = (err esrch, q)
mq_register_notify (some pid) signo value q =
    let fresh = record q {
      notify =
          if signo == 0
          then none
          else some (record { owner_pid = pid; signo = signo; value = value });
    } in
    elim q.notify [
      | none ↦ (ok tt, fresh)
      | some old ↦
          if old.owner_pid == pid
          then (ok tt, fresh)
          else (if signo == 0 then err eperm else err ebusy, q)
    ]

-- What a blocked call sees: the queue, the signals sent so far, whether its thread is to be
-- interrupted, and whether its deadline has passed.
pub record World : Type 0 where
  pub queue : Mqueue
  pub signals : List NotifyState
  pub interrupted : Bool
  pub expired : Bool

-- The condition that `mq_block` sleeps on.
unfoldable pub recheck {ℓ} :
    {R : Type ℓ} → (World → Option (Result R) × World) → World → Option (Result R) × World
recheck once w =
    let (r, w') = once w in
    elim r [
      | some x ↦ (some x, w')
      | none ↦
          if w'.interrupted
          then (some (err eintr), w')
          else if w'.expired
          then (some (err etimedout), w')
          else (none, w')
    ]

unfoldable pub mq_block {ℓ} :
    {R : Type ℓ}
    → Bool
    → (World → Option (Result R) × World)
    → List (World → World)
    → World
    → Option (Result R) × World
mq_block nonblocking once ws w =
    let (r, w') = once w in
    elim r [
      | some x ↦ (some x, w')
      | none ↦ if nonblocking then (some (err eagain), w') else wait_until (recheck once) ws w'
    ]

-- `MqDesc::poll_events`: the IN (with RDNORM) and the OUT (with WRNORM) bits.
is_empty : List MqMsg → Bool
is_empty [] = true
is_empty (m ∷ ms) = false

unfoldable pub poll_events : Mqueue → Bool × Bool
unfolding is_empty
poll_events q = (not (is_empty q.msgs), ltb q.bytes (capacity q))
