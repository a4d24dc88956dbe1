-- ===== src/Shm/Calls.antt =====
-- petra/src/ipc/shm/mod.rs: the calls, against the counts of attachments.
use petra_os.Common.{ℕ, ◌≡◌, some}
use petra_os.Sem.Registry.{lookup}
use petra_os.Shm.{ShmSegment, Shms}
use petra_os.Shm.Held.{Held}

-- The segments that a state has are in the table after the moves of the others.
abbrev pub Leaves : ℕ → (Shms → Shms) → Shms → Type 0
Leaves shmid between w =
    (s : ShmSegment)
    → lookup shmid w.objects ≡ some s
    → (t : ShmSegment) × (lookup shmid (between w).objects ≡ some t)
