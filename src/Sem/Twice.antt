-- ===== src/Sem/Twice.antt =====
-- petra/src/ipc/sem/mod.rs: a `semop` that names one semaphore twice.
use petra_os.Common.{ℕ, suc, ◌+◌, ◌≤◌, ◌<◌, ◌≡◌, true, none, some, List, [], ◌∷◌, arith}
use petra_os.Common.Errno.{ok}
use petra_os.Common.Int.{ℤ, pos, negsuc}
use petra_os.Sem.{semvmx, Semaphore, SemBuf, can_execute, can_execute_ops, add_op, Undo, apply_ops}

-- An operation on the first semaphore, with no flags.
abbrev on_first : ℤ → SemBuf
on_first op = record { sem_num = 0; sem_op = op; sem_flg = 0 }

-- Two operations on the same semaphore, each tested by itself. If each takes no more than the value
-- but both together take more, then `can_execute_ops` allows them, where the call should have
-- waited, and `apply_ops` overflows below zero. If both add, then the value they leave is their sum,
-- also where that is beyond SEMVMX and the call should have failed with ERANGE.
pub apply_ops_twice :
    (pid semid : ℕ) (s : Semaphore) (a b : ℕ) (us : List Undo)
    → s.val ≤ semvmx
    → (suc a ≤ s.val
        → suc b ≤ s.val
        → s.val < suc a + suc b
        → (can_execute_ops (s ∷ []) (on_first (negsuc a) ∷ on_first (negsuc b) ∷ [])
            ≡ some (ok true))
          × (apply_ops pid semid (on_first (negsuc a) ∷ on_first (negsuc b) ∷ []) (s ∷ [], us)
              ≡ none))
      × (s.val + suc a ≤ semvmx
          → s.val + suc b ≤ semvmx
          → (can_execute_ops (s ∷ []) (on_first (pos (suc a)) ∷ on_first (pos (suc b)) ∷ [])
              ≡ some (ok true))
            × (apply_ops pid semid
                  (on_first (pos (suc a)) ∷ on_first (pos (suc b)) ∷ [])
                  (s ∷ [], us)
                ≡ some (record s { val = s.val + suc a + suc b; pid = pid } ∷ [], us)))
unfolding can_execute_ops can_execute apply_ops add_op
apply_ops_twice pid semid s a b us r =
    (λ ha hb h. (ground arith, ground arith), λ ha hb. (ground arith, ground arith))
