-- ===== src/Mqueue/Tests.antt =====
-- petra/src/ipc/mqueue.rs: runs of the model, and the theorems at concrete queues.
use petra_os.Common.{
  ◌≤◌, ℕ, ◌≤◌, ◌<◌, ◌≡◌, refl, ◌≢◌, ◌⊎◌, Bool, true, false, Option, none, some, List, [], ◌∷◌,
  arith, get_elem?,
}
use petra_os.Common.Errno.{eacces, etimedout, Result, ok, err}
use petra_os.Common.Wait.{wait_until}
use petra_os.Mqueue.{
  MqMsg, Mqueue, capacity, Shared, stuck, would_block, replied, try_send, best, try_recv, World,
  recheck, mq_block,
}
use petra_os.Mqueue.Locks.{HasRoom, locks_lem}
use petra_os.Mqueue.Bounds.{IsValid}
use petra_os.Mqueue.Registry.{Cred, Registry, lookup, find, queue_unlink, queue_open}
use petra_os.Mqueue.Open.{IsSound, registry-IsSound, queue_open_rdwr}

abbrev message : ℕ → ℕ → MqMsg
message p b = record { prio = p; payload = b ∷ [] }

-- Three messages, two of them of the higher priority.
abbrev busy : Mqueue
busy = record {
  maxmsg = 3;
  msgsize = 4;
  mode = 0o400;
  owner_uid = 5;
  owner_gid = 5;
  msgs = message 1 10 ∷ message 7 11 ∷ message 7 12 ∷ [];
  bytes = 3;
  notify = some (record { owner_pid = 9; signo = 10; value = 0 });
}

busy-IsValid : IsValid busy
busy-IsValid = record {
  counted = refl;
  few = omega arith;
  small = omega arith;
  machine = omega arith;
  prios = omega arith;
}

abbrev anyone : ℕ → Bool
anyone pid = true

abbrev world : World
world = record { queue = busy; signals = []; interrupted = false; expired = false }

-- Another thread changes nothing but lets the deadline pass.
abbrev late : World → World
late w = record w { expired = true }

-- A condition that waits for the notification to be used up.
abbrev used_up : World → Option (Result ℕ) × World
used_up w = (elim w.queue.notify [ none ↦ some (ok 1) | some n ↦ none ], w)

times_out : (mq_block false used_up (late ∷ []) world).0 ≡ some (err etimedout)
unfolding mq_block wait_until recheck
times_out = refl

-- The queue with its lock free, and room for one more message.
abbrev spacious : Shared
spacious = record { queue = record busy { maxmsg = 4 }; bytes_held = false }

-- Nothing happens in the gap.
abbrev idle : Shared → Shared
idle q = q

locks_lem_example :
    let sent = try_send anyone idle spacious (some (1 ∷ [])) 2 in
    let received = try_recv idle spacious 4 in
    ((r : Result ℕ) → sent.ending ≢ replied r)
    × ((r : Result (List ℕ × ℕ)) → received.0 ≢ replied r)
    × (◌≡◌ {A = Bool} false false
        → HasRoom spacious.queue (1 ∷ [])
        → (sent.ending ≡ stuck)
          × (sent.slot ≡ none)
          × (sent.shared.queue ≡ spacious.queue)
          × (sent.shared.bytes_held ≡ true))
    × (◌≡◌ {A = Bool} false true → (sent.ending ≡ stuck) × (sent.shared ≡ spacious))
    × (◌≡◌ {A = Bool} false false
        → (capacity spacious.queue < 4) ⊎ (4 ≤ 3)
        → (sent.ending ≡ would_block) × (sent.slot ≡ some (1 ∷ [])) × (sent.shared ≡ spacious))
    × ((m : MqMsg)
        → get_elem? spacious.queue.msgs (best spacious.queue.msgs) ≡ some m
        → (received.0 ≡ stuck) × (received.1.bytes_held ≡ true))
locks_lem_example = locks_lem anyone idle spacious (1 ∷ []) 2 4

abbrev name : List ℕ
name = b'/' ∷ b'q' ∷ []

abbrev table : Registry
table = record { names = (name, 0) ∷ []; queues = busy ∷ [] }

abbrev owner : Cred
owner = record { uid = 5; gid = 5 }

table-IsSound : IsSound table
unfolding lookup
table-IsSound = record {
  bound = λ n i e. ground arith;
  limits = ((busy-IsValid, omega arith, omega arith, omega arith, omega arith, omega arith), tt);
}

registry-IsSound_example :
    IsSound (queue_open (some owner) (b'/' ∷ []) 0o100 0o600 true 5 16 table).1
    × IsSound (queue_unlink (b'/' ∷ []) table).1
registry-IsSound_example =
    registry-IsSound (some owner) (b'/' ∷ []) 0o100 0o600 true 5 16 table table-IsSound

abbrev other_name : List ℕ
other_name = b'/' ∷ b'r' ∷ []

queue_open_rdwr_example :
    ((queue_open (some owner) name 2 0 false 0 0 table).0 ≡ ok (0, false))
    × ((queue_open (some owner) name 1 0 false 0 0 table).0 ≡ err eacces)
unfolding find lookup
queue_open_rdwr_example =
    queue_open_rdwr owner name 0 false 0 0 0 busy table (omega arith) (omega arith) refl refl
      (omega arith) refl refl
