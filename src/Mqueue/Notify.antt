-- ===== src/Mqueue/Notify.antt =====
-- petra/src/ipc/mqueue.rs: the owner of a notification.
use petra_os.Common.{
  ℕ, ◌≡◌, refl, ◌≢◌, ◌↔◌, inl, inr, none, some, arith, ◌==◌, if◌then◌else◌, Option-cases,
}
use petra_os.Common.Errno.{eperm, esrch, ebusy, ok, err}
use petra_os.Mqueue.{NotifyState, Mqueue, mq_register_notify}

-- `mq_notify`: a process that does not exist changes nothing; while another process is registered,
-- nothing changes and the answer is EPERM to a removal and EBUSY to a registration; otherwise the
-- call succeeds, removes the registration if the signal is 0, and registers the caller if not. The
-- messages are never touched.
mq_register_notify_lem :
    (pid signo value : ℕ) (q : Mqueue)
    → (mq_register_notify none signo value q ≡ (err esrch, q))
      × ((old : NotifyState)
          → q.notify ≡ some old
          → old.owner_pid ≢ pid
          → mq_register_notify (some pid) signo value q
            ≡ ((if signo == 0 then err eperm else err ebusy), q))
      × (((old : NotifyState) → q.notify ≡ some old → old.owner_pid ≡ pid)
          → let (r, q') = mq_register_notify (some pid) signo value q in
            (r ≡ ok tt)
            × (q'.msgs ≡ q.msgs)
            × ((q'.notify ≡ none) ↔ (signo ≡ 0))
            × ((n : NotifyState)
                → q'.notify ≡ some n
                → (n.owner_pid ≡ pid) × (n.signo ≡ signo) × (n.value ≡ value)))
unfolding mq_register_notify
mq_register_notify_lem pid signo value q = (
  refl,
  (λ old e ne. ground arith),
  λ mine. elim (Option-cases q.notify) [
    | inl e ↦
        (ground arith, ground arith, ((λ h. ground arith), λ h. ground arith), λ n h. ground arith)
    | inr (old, e) ↦
        let m = mine old e in
        (ground arith, ground arith, ((λ h. ground arith), λ h. ground arith), λ n h. ground arith)
  ],
)
