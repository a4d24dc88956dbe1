-- ===== src/Mqueue/Pick.antt =====
-- petra/src/ipc/mqueue.rs: which message `try_recv` takes out of the queue.
use petra_os.Common.{ℕ, ◌≤◌, ◌<◌, List}
use petra_os.Mqueue.{MqMsg, prio_at}

-- The message at `b` is the oldest of the highest priority among the first `n`.
abbrev pub Oldest : List MqMsg → ℕ → ℕ → Type 0
Oldest ms n b =
    (b < n)
    × ((j : ℕ) → j < b → prio_at ms j < prio_at ms b)
    × ((j : ℕ) → b < j → j < n → prio_at ms j ≤ prio_at ms b)
