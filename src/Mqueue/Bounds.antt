-- ===== src/Mqueue/Bounds.antt =====
-- petra/src/ipc/mqueue.rs: the limits of a queue.
use petra_os.Common.{ℕ, ◌+◌, ◌≤◌, ◌≡◌, List, [], ◌∷◌, length, All}
use petra_os.Mqueue.{mq_prio_max, usize_max, MqMsg, Mqueue, capacity}

abbrev pub total : List MqMsg → ℕ
total [] = 0
total (m ∷ ms) = length m.payload + total ms

-- `bytes` counts the bytes of the messages, and both limits of the queue hold.
pub record IsValid (q : Mqueue) : Type 0 where
  pub counted : q.bytes ≡ total q.msgs
  pub few : length q.msgs ≤ q.maxmsg
  pub small : total q.msgs ≤ capacity q
  pub machine : capacity q ≤ usize_max
  pub prios : All (λ m. m.prio ≤ mq_prio_max) q.msgs
