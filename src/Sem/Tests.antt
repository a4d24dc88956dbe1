-- ===== src/Sem/Tests.antt =====
-- The semaphores of petra/src/ipc on concrete inputs.
use petra_os.Common.{
  All, ℕ, ◌≤◌, ◌<◌, ◌≡◌, refl, ◌≢◌, ◌⊎◌, true, false, Option, none, some, List, [], ◌∷◌, arith,
  length, set,
}
use petra_os.Common.Errno.{Result, ok}
use petra_os.Common.Wait.{wait_until}
use petra_os.Common.Int.{ℤ, pos, negsuc}
use petra_os.Sem.{
  has, sem_undo, semvmx, Semaphore, SemBuf, IpcPerm, Cred, SemSet, check_perm,
  check_write_permission, can_execute, can_execute_ops, add_op, Undo, adj_of, forget, record_undo,
  apply_ops, apply_proc_undo,
}
use petra_os.Sem.Call.{
  Reply, done, panic, World, attempt, recheck, count_waits, count_world, sleep, admit, perform,
  sem_op,
}
use petra_os.Sem.Registry.{Sems, contains_key, alloc_ipc_id}
use petra_os.Common.{none, ◌⊎◌, ◌<◌}
use petra_os.Sem.Control.{semctl_rmid, semctl_set_val, semctl_setall}
use petra_os.Sem.Atomic.{InRange, Applied, apply_ops-Applied, val_at}
use petra_os.Sem.Twice.{apply_ops_twice}
use petra_os.Sem.Walk.{entries}
use petra_os.Sem.GiveBack.{apply_proc_undo-apply_ops}
use petra_os.Sem.Ids.{IsFresh, Full, alloc_ipc_id-IsFresh}
use petra_os.Sem.Lifecycle.{NoUndo, Failed, Removed, controls_lem}
use petra_os.Sem.AllOrNothing.{Holds, Done, Panicked, sem_op-Outcome}
use petra_os.Sem.Get.{Got, sem_get-Got}
use petra_os.Sem.Registry.{sem_get, create_sem_set, lookup}

abbrev root : Cred
root = record { uid = 0; gid = 0 }

abbrev owned : IpcPerm
owned = record { uid = 0; gid = 0; cuid = 0; cgid = 0; mode = 0o600 }

abbrev sem : ℕ → Semaphore
sem v = record { val = v; pid = 0; ncnt = 0; zcnt = 0 }

abbrev a_set : List Semaphore → SemSet
a_set sems = record {
  semid = 5;
  key = 9;
  nsems = length sems;
  perm = owned;
  otime = 0;
  ctime = 0;
  sems = sems;
  destroyed = false;
}

abbrev op : ℕ → ℤ → SemBuf
op num n = record { sem_num = num; sem_op = n; sem_flg = 0 }

abbrev op_undo : ℕ → ℤ → SemBuf
op_undo num n = record { sem_num = num; sem_op = n; sem_flg = 0x1000 }

-- Take 1 from the first semaphore and give 2 to the second.
abbrev ops : List SemBuf
ops = op 0 (negsuc 0) ∷ op 1 (pos 2) ∷ []

abbrev world : World
world = record {
  set = a_set (sem 0 ∷ sem 3 ∷ []);
  undos = [];
  now = 7;
  expired = false;
  interrupted = false;
}

-- Another thread raises the first semaphore.
abbrev raise : World → World
raise w = record w { set = record w.set { sems = set w.set.sems 0 (sem 1) } }

abbrev Clean : List ℕ → List Undo → Type 0
Clean vs us = us ≡ []

abbrev outcome : Option Reply × World
outcome = sem_op 2 64 (ok ops) true false root 3 (λ w. w) (raise ∷ []) world

outcome_done : outcome.0 ≡ some done
unfolding sem_op admit perform attempt sleep recheck wait_until count_world count_waits
    can_execute_ops can_execute apply_ops add_op check_write_permission check_perm
outcome_done = refl

sem_op-Outcome_example :
    (outcome.0 ≢ some done → outcome.0 ≢ some panic → Holds Clean outcome.1)
    × (outcome.0 ≡ some done
        → (l : List SemBuf) × (admit 2 64 (ok ops) true root world.set ≡ ok l)
          × Done Clean 3 l outcome.1)
    × (outcome.0 ≡ some panic
        → (l : List SemBuf) × (admit 2 64 (ok ops) true root world.set ≡ ok l)
          × Panicked Clean 3 l outcome.1)
sem_op-Outcome_example =
    sem_op-Outcome Clean 2 64 (ok ops) true false root 3 (λ w. w) (raise ∷ []) world (λ t h. h)
      ((λ t h. h), tt) refl

two_ready : can_execute_ops (sem 1 ∷ sem 3 ∷ []) ops ≡ some (ok true)
unfolding can_execute_ops can_execute
two_ready = refl

apply_ops-Applied_example : Applied 3 5 ops (sem 1 ∷ sem 3 ∷ []) []
apply_ops-Applied_example =
    apply_ops-Applied 3 5 ops (sem 1 ∷ sem 3 ∷ []) []
      (((λ e. absurd (omega (arith, e))), tt), (tt, tt)) (omega arith, (omega arith, tt)) two_ready

apply_ops_twice_example :
    (2 ≤ 3
      → 2 ≤ 3
      → 3 < 4
      → (can_execute_ops (sem 3 ∷ []) (op 0 (negsuc 1) ∷ op 0 (negsuc 1) ∷ []) ≡ some (ok true))
        × (apply_ops 4 5 (op 0 (negsuc 1) ∷ op 0 (negsuc 1) ∷ []) (sem 3 ∷ [], []) ≡ none))
    × (5 ≤ semvmx
        → 5 ≤ semvmx
        → (can_execute_ops (sem 3 ∷ []) (op 0 (pos 2) ∷ op 0 (pos 2) ∷ []) ≡ some (ok true))
          × (apply_ops 4 5 (op 0 (pos 2) ∷ op 0 (pos 2) ∷ []) (sem 3 ∷ [], [])
              ≡ some (record { val = 7; pid = 4; ncnt = 0; zcnt = 0 } ∷ [], [])))
apply_ops_twice_example = apply_ops_twice 4 5 (sem 3) 1 1 [] (omega arith)

abbrev undo_ops : List SemBuf
undo_ops = op_undo 0 (negsuc 1) ∷ op_undo 1 (pos 4) ∷ []

abbrev taken : List Semaphore × List Undo
taken = (
  record { val = 1; pid = 4; ncnt = 0; zcnt = 0 }
      ∷ record { val = 4; pid = 4; ncnt = 0; zcnt = 0 }
      ∷ [],
  record { owner = 4; semid = 5; sem_num = 1; adj = negsuc 3 }
      ∷ record { owner = 4; semid = 5; sem_num = 0; adj = pos 2 }
      ∷ [],
)

taken_run : apply_ops 4 5 undo_ops (sem 3 ∷ sem 0 ∷ [], []) ≡ some taken
unfolding apply_ops add_op record_undo adj_of forget
taken_run = refl

none_before : adj_of 4 5 0 [] ≡ pos 0
unfolding adj_of
none_before = refl

both_undo : All (λ o. has o.sem_flg sem_undo ≡ true) undo_ops
both_undo = (refl, (refl, tt))

abbrev sets_now : List (ℕ × SemSet)
sets_now =
    (6, a_set (sem 1 ∷ [])) ∷ (5, record (a_set (sem 3 ∷ sem 0 ∷ [])) { sems = taken.0 }) ∷ []

found_set : lookup 5 sets_now ≡ some (record (a_set (sem 3 ∷ sem 0 ∷ [])) { sems = taken.0 })
unfolding lookup
found_set = refl

no_records : entries 4 5 0 [] ≤ 1
unfolding entries
no_records = omega arith

apply_proc_undo-apply_ops_example :
    let (us', sets') = apply_proc_undo 4 8 (taken.1, sets_now) in
    (t : SemSet) × (lookup 5 sets' ≡ some t)
    × (val_at t.sems 0 ≡ val_at (sem 3 ∷ sem 0 ∷ []) 0)
    × ((semid num : ℕ) → adj_of 4 semid num us' ≡ pos 0)
apply_proc_undo-apply_ops_example =
    apply_proc_undo-apply_ops 4 8 0 undo_ops (a_set (sem 3 ∷ sem 0 ∷ [])) [] taken sets_now
      both_undo none_before no_records (omega arith) taken_run (omega arith) refl refl (omega arith)
      found_set

abbrev in_use : List (ℕ × ℕ)
in_use = (6, 0) ∷ []

alloc_ipc_id-IsFresh_example :
    ((id : ℕ) × (alloc_ipc_id (λ n. 6) 1 in_use ≡ some id) × IsFresh in_use id)
    ⊎ ((alloc_ipc_id (λ n. 6) 1 in_use ≡ none)
        × ((n : ℕ) → n < 1024 → contains_key 6 in_use ≡ true)
        × Full in_use 1025)
alloc_ipc_id-IsFresh_example = alloc_ipc_id-IsFresh (λ n. 6) 1 in_use

abbrev tables : Sems
tables = record {
  objects = (5, a_set (sem 3 ∷ [])) ∷ [];
  keys = (9, 5) ∷ [];
  undos = record { owner = 4; semid = 5; sem_num = 0; adj = pos 2 } ∷ [];
  now = 8;
  seq = 2;
}

controls_lem_example :
    let s = a_set (sem 3 ∷ []) in
    let all = semctl_setall 5 64 (ok (2 ∷ [])) root 6 (s, tables) in
    let gone = semctl_rmid 5 root (s, tables) in
    ((out : Result ℕ × SemSet × Sems)
      → semctl_set_val 5 (pos 0) (pos 2) root 6 (s, tables) ≡ some out
      → (InRange out.1.sems × NoUndo 5 0 out.2.undos) ⊎ Failed (s, tables) out)
    × ((InRange all.1.sems × ((num : ℕ) → NoUndo 5 num all.2.undos)) ⊎ Failed (s, tables) all)
    × (Removed 5 root (s, tables) gone ⊎ Failed (s, tables) gone)
controls_lem_example =
    controls_lem 5 (pos 0) (pos 2) 64 (ok (2 ∷ [])) root 6 (a_set (sem 3 ∷ [])) tables
      (omega arith, tt)

-- A new key gets a new set.
get_run : (sem_get 8 11 (pos 2) 0o1600 root tables).0 ≡ ok 8
unfolding sem_get create_sem_set lookup
get_run = refl

sem_get-Got_example : Got 8 11 2 root tables (sem_get 8 11 (pos 2) 0o1600 root tables)
sem_get-Got_example = sem_get-Got 8 11 2 0o1600 root tables
