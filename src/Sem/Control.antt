-- ===== src/Sem/Control.antt =====
-- petra/src/ipc/sem/mod.rs: the commands of `sem_ctl`.
use petra_os.Common.{
  ℕ, ◌+◌, ◌-◌, bit_and, Bool, true, false, ◌||◌, Option, none, some, List, [], ◌∷◌, map, ltb, leb,
  ◌==◌, if◌then◌else◌, get_elem?, set,
}
use petra_os.Common.Errno.{efault, einval, erange, eidrm, Result, ok, err, ◌>>=◌}
use petra_os.Common.Int.{ℤ, pos_part, neg_part}
use petra_os.Sem.{
  semvmx, Semaphore, IpcPerm, Cred, SemSet, check_read_permission, check_write_permission,
  check_admin_permission, clear_undo_for_sem,
}
use petra_os.Sem.Registry.{Sems, remove, unbind_key}

-- The commands of `sem_ctl` on a set that was found. A handle on the set outlives its entry in the
-- table, so that the set stands beside the tables here.
unfoldable pub semctl_rmid : ℕ → Cred → SemSet × Sems → Result ℕ × SemSet × Sems
semctl_rmid semid cred (s, w) =
    if s.destroyed then (err eidrm, s, w) else elim (check_admin_permission s.perm cred) [
      | err e ↦ (err e, s, w)
      | ok _ ↦ (
        ok 0,
        record s { destroyed = true },
        record w {
          objects = remove semid w.objects;
          keys = unbind_key s.key w.keys;
          undos = clear_undo_for_sem semid none w.undos;
        },
      )
    ]

-- `semctl_set`, on the owner, the group and the mode as read from user memory.
unfoldable pub semctl_set : ℕ → Result IpcPerm → Cred → ℕ → SemSet → Result ℕ × SemSet
semctl_set arg read cred now s = if arg == 0 then (err efault, s) else elim read [
  | err e ↦ (err e, s)
  | ok p ↦ if s.destroyed then (err eidrm, s) else elim (check_admin_permission s.perm cred) [
    | err e ↦ (err e, s)
    | ok _ ↦ (
      ok 0,
      record s {
        perm = record s.perm {
          uid = p.uid;
          gid = p.gid;
          mode = s.perm.mode - bit_and s.perm.mode 0o777 + bit_and p.mode 0o777;
        };
        ctime = now;
      },
    )
  ]
]

pub data Query : Type 0 where
  getval getpid getncnt getzcnt : Query

abbrev pub answer : Query → Semaphore → ℕ
answer getval s = s.val
answer getpid s = s.pid
answer getncnt s = s.ncnt
answer getzcnt s = s.zcnt

-- `none` is a panic: the index is beyond the vector.
unfoldable pub semctl_get_val : ℤ → Query → Cred → SemSet → Option (Result ℕ)
semctl_get_val semnum q cred s =
    if s.destroyed then some (err eidrm) else elim (check_read_permission s.perm cred) [
      | err e ↦ some (err e)
      | ok _ ↦
          if ltb 0 (neg_part semnum) || leb s.nsems (pos_part semnum)
          then some (err einval)
          else elim (get_elem? s.sems (pos_part semnum)) [
            | none ↦ none
            | some sem ↦ some (ok (answer q sem))
          ]
    ]

unfoldable pub semctl_set_val :
    ℕ → ℤ → ℤ → Cred → ℕ → SemSet × Sems → Option (Result ℕ × SemSet × Sems)
semctl_set_val semid semnum val cred pid (s, w) =
    let num = pos_part semnum in
    let stored : Semaphore → SemSet = λ sem. record s {
      sems = set s.sems num (record sem { val = pos_part val; pid = pid });
      ctime = w.now;
    } in
    let cleared : Sems = record w { undos = clear_undo_for_sem semid (some num) w.undos } in
    if ltb 0 (neg_part val) || ltb semvmx (pos_part val)
    then some (err erange, s, w)
    else if s.destroyed
    then some (err eidrm, s, w)
    else elim (check_write_permission s.perm cred) [
      | err e ↦ some (err e, s, w)
      | ok _ ↦
          if ltb 0 (neg_part semnum) || leb s.nsems num
          then some (err einval, s, w)
          else elim (get_elem? s.sems num) [
            | none ↦ none
            | some sem ↦ some (ok 0, stored sem, cleared)
          ]
    ]

-- `semctl_getall`: the values, as they are written to user memory.
unfoldable pub semctl_getall : ℕ → Cred → SemSet → Result (List ℕ)
semctl_getall arg cred s =
    if arg == 0
    then err efault
    else if s.destroyed
    then err eidrm
    else check_read_permission s.perm cred >>= λ _. ok (map (λ sem. sem.val) s.sems)

-- `semctl_setall`, on the values as read from user memory, `nsems` of them.
unfoldable pub any_above : ℕ → List ℕ → Bool
any_above n [] = false
any_above n (v ∷ vs) = ltb n v || any_above n vs

unfoldable pub store_all : ℕ → List ℕ → List Semaphore → List Semaphore
store_all pid [] sems = sems
store_all pid (v ∷ vs) [] = []
store_all pid (v ∷ vs) (s ∷ ss) = record s { val = v; pid = pid } ∷ store_all pid vs ss

unfoldable pub semctl_setall :
    ℕ → ℕ → Result (List ℕ) → Cred → ℕ → SemSet × Sems → Result ℕ × SemSet × Sems
semctl_setall semid arg read cred pid (s, w) =
    if arg == 0
    then (err efault, s, w)
    else if s.destroyed
    then (err eidrm, s, w)
    else elim (check_write_permission s.perm cred) [
      | err e ↦ (err e, s, w)
      | ok _ ↦ elim read [
        | err e ↦ (err e, s, w)
        | ok values ↦ if any_above semvmx values then (err erange, s, w) else (
          ok 0,
          record s { sems = store_all pid values s.sems; ctime = w.now },
          record w { undos = clear_undo_for_sem semid none w.undos },
        )
      ]
    ]
