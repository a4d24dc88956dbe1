-- ===== src/EventFd/Tests.antt =====
-- petra/src/fs/fd/event_fd.rs on concrete inputs.
use petra_os.Common.{ℕ, ◌+◌, min, ◌≡◌, refl, false, some, [], ◌∷◌, arith}
use petra_os.Common.Errno.{Result, ok}
use petra_os.Common.Wait.{wait_until}
use petra_os.EventFd.{
  eventfd_max_counter, EventFd, try_consume, consume_event, read_file, write_file,
}
use petra_os.EventFd.Counter.{Bounded, calls-Bounded}

abbrev answer : Result ℕ
answer = ok 5

abbrev empty : EventFd
empty = record { counter = 0; is_semaphore = false; interrupted = false }

-- Another thread adds 5.
abbrev five : EventFd → EventFd
five w = record w { counter = min (w.counter + 5) eventfd_max_counter }

read_run : consume_event false (five ∷ []) empty ≡ (some (ok 5), empty)
unfolding consume_event try_consume wait_until
read_run = refl

calls-Bounded_example :
    Bounded (read_file 8 false (five ∷ []) empty).1
    × Bounded (write_file 8 3 false (five ∷ []) empty).1
calls-Bounded_example =
    calls-Bounded 8 3 false (five ∷ []) empty ((λ t h. omega (arith, h)), tt) (omega arith)
