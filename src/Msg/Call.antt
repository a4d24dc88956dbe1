-- ===== src/Msg/Call.antt =====
-- petra/src/ipc/msg/mod.rs: `msg_snd` and `msg_rcv` on a queue that was looked up, and what they
-- sleep on. The list holds what the other threads do before each wake-up.
use petra_os.Common.{
  ℕ, Bool, not, ◌&&◌, ◌||◌, Option, none, some, List, ltb, ◌==◌, if◌then◌else◌, length,
}
use petra_os.Common.Errno.{Errno, eintr, eagain, einval, enomsg, eidrm, Result, ok, err}
use petra_os.Common.Wait.{wait_until}
use petra_os.Common.Int.{ℤ, pos_part, neg_part}
use petra_os.Sem.{has, IpcPerm, Cred, check_read_permission, check_write_permission, ipc_nowait}
use petra_os.Msg.{msgmax, msg_copy, World, try_snd, try_rcv}

-- The condition of the sleep, with `wait_cancelled`.
unfoldable pub recheck {ℓ} :
    {R : Type ℓ} → (World → Option (Result R) × World) → World → Option (Result R) × World
recheck once w =
    let (r, w') = once w in
    elim r [ some x ↦ (some x, w') | none ↦ (if w'.cancelled then some (err eintr) else none, w') ]

-- The fast path, and then the refusal under IPC_NOWAIT or the slow path.
unfoldable pub attempt_or_wait {ℓ} :
    {R : Type ℓ}
    → Bool
    → Errno
    → (World → Option (Result R) × World)
    → List (World → World)
    → World
    → Option (Result R) × World
attempt_or_wait nowait refusal once ws w =
    let (r, w') = once w in
    elim r [
      | some x ↦ (some x, w')
      | none ↦ if nowait then (some (err refusal), w') else wait_until (recheck once) ws w'
    ]

-- The checks on a queue that was found; `found` says whether `lookup_queue` found it.
unfoldable pub check_queue :
    Bool → (IpcPerm → Cred → Result (Unit {0})) → Cred → World → Result (Unit {0})
check_queue found permission cred w =
    if not found
    then err einval
    else if w.queue.is_deleted
    then err eidrm
    else permission w.queue.perm cred

unfoldable pub msg_snd :
    Bool
    → ℤ
    → List ℕ
    → ℕ
    → Cred
    → ℕ
    → List (World → World)
    → World
    → Option (Result (Unit {0})) × World
msg_snd found mtype mtext flg cred pid ws w =
    if pos_part mtype == 0 || ltb msgmax (length mtext)
    then (some (err einval), w)
    else elim (check_queue found check_write_permission cred w) [
      | err e ↦ (some (err e), w)
      | ok _ ↦ attempt_or_wait (has flg ipc_nowait) eagain (try_snd (pos_part mtype) mtext pid) ws w
    ]

unfoldable pub msg_rcv :
    Bool
    → ℕ
    → ℤ
    → ℕ
    → Cred
    → ℕ
    → List (World → World)
    → World
    → Option (Result (ℕ × List ℕ)) × World
msg_rcv found msgsz typ flg cred pid ws w =
    if has flg msg_copy && (not (has flg ipc_nowait) || ltb 0 (neg_part typ))
    then (some (err einval), w)
    else elim (check_queue found check_read_permission cred w) [
      | err e ↦ (some (err e), w)
      | ok _ ↦ attempt_or_wait (has flg ipc_nowait) enomsg (try_rcv msgsz typ flg pid) ws w
    ]
