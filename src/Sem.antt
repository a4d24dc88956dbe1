-- ===== src/Sem.antt =====
-- petra/src/ipc/sem: System V semaphore sets (set.rs), the operations on their values (mod.rs), the
-- undo records (undo.rs) and the permission checks (ipc/perm.rs, uapi/ipc.rs). `none` is a panic: an
-- index out of range, or u16 arithmetic that overflows. An operation of -32768, whose negation
-- overflows i16, is left out.
pub mod Call
pub mod Control
pub mod Registry
pub mod Ids
pub mod Get
pub mod Lifecycle
pub mod Atomic
pub mod Twice
pub mod Exit
pub mod Walk
pub mod GiveBack
pub mod AllOrNothing
mod Tests
use petra_os.Common.{
  ℕ, zero, suc, ◌+◌, ◌-◌, ◌*◌, ◌/◌, ◌%◌, ◌^◌, ◌≤◌, ◌<◌, min, max, bit_and, ◌≡◌, refl, sym, ap, ap₂,
  ◌∙◌, subst, ◌≢◌, ◌↔◌, ◌⊎◌, inl, inr, Bool, true, false, not, ◌&&◌, ◌||◌, Option, none, some, List,
  [], ◌∷◌, ◌++◌, map, append-nil, append_assoc, arith, ltb, leb, ◌==◌, if◌then◌else◌, ltb→lt,
  lt→ltb, leb→le, ==_iff, tests, Bool-cases, Option-cases, if_cases, length, get_elem?, set, take,
  drop, replicate, All, length-append, take-append-drop, length-take, length-drop, take_all,
  drop_all, length-set, length-replicate, get_elem?-set_self, get_elem?-set_ne, get_elem?_total,
  get_elem?_lt, All-append, All-left, All-right,
}
use petra_os.Common.Errno.{
  Errno, eperm, enoent, esrch, eintr, e2big, ebadf, eagain, eacces, efault, eexist, ebusy, einval,
  emfile, efbig, enospc, erange, epipe, eidrm, enomem, emsgsize, etimedout, Result, ok, err, ◌>>=◌,
}
use petra_os.Common.Wait.{wait_until, wait_until_keeps, wait_until_returns, wait_until_attempt}
use petra_os.Common.Int.{ℤ, pos, negsuc, pos_part, neg_part, difference, ◌-ℤ◌, clamp_abs}

abbrev pub semvmx : ℕ
semvmx = 32767

abbrev pub semaem : ℕ
semaem = 16384

abbrev pub semmsl : ℕ
semmsl = 32000

abbrev pub semopm : ℕ
semopm = 32

abbrev pub sem_undo : ℕ
sem_undo = 0x1000

abbrev pub ipc_nowait : ℕ
ipc_nowait = 0o4000

-- Whether `flags & mask != 0`.
abbrev pub has : ℕ → ℕ → Bool
has flags mask = not (bit_and flags mask == 0)

pub record Semaphore : Type 0 where
  pub val : ℕ
  pub pid : ℕ
  pub ncnt : ℕ
  pub zcnt : ℕ

pub record SemBuf : Type 0 where
  pub sem_num : ℕ
  pub sem_op : ℤ
  pub sem_flg : ℕ

pub record IpcPerm : Type 0 where
  pub uid : ℕ
  pub gid : ℕ
  pub cuid : ℕ
  pub cgid : ℕ
  pub mode : ℕ

pub record Cred : Type 0 where
  pub uid : ℕ
  pub gid : ℕ

pub record SemSet : Type 0 where
  pub semid : ℕ
  pub key : ℕ
  pub nsems : ℕ
  pub perm : IpcPerm
  pub otime : ℕ
  pub ctime : ℕ
  pub sems : List Semaphore
  pub destroyed : Bool

-- `IpcPerm::check_perm`
unfoldable pub check_perm : IpcPerm → Cred → ℕ → Bool
check_perm p c req =
    let granted =
      if c.uid == p.uid || c.uid == p.cuid
      then bit_and (p.mode / 2 ^ 6) 7
      else if c.gid == p.gid || c.gid == p.cgid
      then bit_and (p.mode / 2 ^ 3) 7
      else bit_and p.mode 7 in
    if c.uid == 0 then true else bit_and granted req == req

unfoldable pub check_read_permission : IpcPerm → Cred → Result (Unit {0})
check_read_permission p c = if check_perm p c 4 then ok tt else err eacces

unfoldable pub check_write_permission : IpcPerm → Cred → Result (Unit {0})
check_write_permission p c = if check_perm p c 2 then ok tt else err eacces

unfoldable pub check_admin_permission : IpcPerm → Cred → Result (Unit {0})
check_admin_permission p c =
    if c.uid == 0 || c.uid == p.uid || c.uid == p.cuid then ok tt else err eperm

-- One round of `can_execute_ops`: whether the operation can go ahead on this value.
unfoldable pub can_execute : ℕ → ℤ → Result Bool
can_execute val (pos zero) = ok (val == 0)
can_execute val (pos (suc n)) = if ltb semvmx (val + suc n) then err erange else ok true
can_execute val (negsuc n) = ok (leb (suc n) val)

unfoldable pub can_execute_ops : List Semaphore → List SemBuf → Option (Result Bool)
can_execute_ops sems [] = some (ok true)
can_execute_ops sems (op ∷ ops) =
    let rest = can_execute_ops sems ops in
    elim (get_elem? sems op.sem_num) [
      | none ↦ none
      | some sem ↦ elim (can_execute sem.val op.sem_op) [
        | err e ↦ some (err e)
        | ok false ↦ some (ok false)
        | ok true ↦ rest
      ]
    ]

-- The u16 arithmetic of `apply_ops`.
unfoldable pub add_op : ℕ → ℤ → Option ℕ
add_op val (pos n) = if ltb 65535 (val + n) then none else some (val + n)
add_op val (negsuc n) = if ltb val (suc n) then none else some (val - suc n)

-- One adjustment of `UNDO_REGISTRY`, which maps a process and a semaphore to it. A process with no
-- entry has no inner map.
pub record Undo : Type 0 where
  pub owner : ℕ
  pub semid : ℕ
  pub sem_num : ℕ
  pub adj : ℤ

abbrev pub is_for : ℕ → ℕ → ℕ → Undo → Bool
is_for pid semid num u = u.owner == pid && u.semid == semid && u.sem_num == num

unfoldable pub adj_of : ℕ → ℕ → ℕ → List Undo → ℤ
adj_of pid semid num [] = pos 0
adj_of pid semid num (u ∷ us) = if is_for pid semid num u then u.adj else adj_of pid semid num us

unfoldable pub forget : (Undo → Bool) → List Undo → List Undo
forget p [] = []
forget p (u ∷ us) = if p u then forget p us else u ∷ forget p us

abbrev pub is_zero : ℤ → Bool
is_zero (pos n) = n == 0
is_zero (negsuc n) = false

unfoldable pub record_undo : ℕ → ℕ → ℕ → ℤ → List Undo → List Undo
record_undo pid semid num op us =
    let new_adj = clamp_abs semaem (adj_of pid semid num us -ℤ op) in
    let others = forget (is_for pid semid num) us in
    if is_zero new_adj
    then others
    else record { owner = pid; semid = semid; sem_num = num; adj = new_adj } ∷ others

abbrev pub is_of : ℕ → Option ℕ → Undo → Bool
is_of semid none u = u.semid == semid
is_of semid (some num) u = u.semid == semid && u.sem_num == num

unfoldable pub clear_undo_for_sem : ℕ → Option ℕ → List Undo → List Undo
clear_undo_for_sem semid num us = forget (is_of semid num) us

-- `apply_ops`, by the process `pid`.
unfoldable pub apply_ops :
    ℕ → ℕ → List SemBuf → List Semaphore × List Undo → Option (List Semaphore × List Undo)
apply_ops pid semid [] (sems, us) = some (sems, us)
apply_ops pid semid (op ∷ ops) (sems, us) =
    let us' =
      if has op.sem_flg sem_undo then record_undo pid semid op.sem_num op.sem_op us else us in
    let k = λ (s : Semaphore) (v : ℕ).
      apply_ops pid semid ops (set sems op.sem_num (record s { val = v; pid = pid }), us') in
    elim (get_elem? sems op.sem_num) [
      | none ↦ none
      | some sem ↦ elim (add_op sem.val op.sem_op) [ none ↦ none | some v ↦ k sem v ]
    ]

-- What `apply_ops` has changed when it ends, also where it panics: the operations before the one
-- that overflows, or that has no semaphore, have been carried out in place.
unfoldable pub apply_so_far :
    ℕ → ℕ → List SemBuf → List Semaphore × List Undo → List Semaphore × List Undo
apply_so_far pid semid [] (sems, us) = (sems, us)
apply_so_far pid semid (op ∷ ops) (sems, us) =
    let us' =
      if has op.sem_flg sem_undo then record_undo pid semid op.sem_num op.sem_op us else us in
    let k = λ (s : Semaphore) (v : ℕ).
      apply_so_far pid semid ops (set sems op.sem_num (record s { val = v; pid = pid }), us') in
    elim (get_elem? sems op.sem_num) [
      | none ↦ (sems, us)
      | some sem ↦ elim (add_op sem.val op.sem_op) [ none ↦ (sems, us) | some v ↦ k sem v ]
    ]

-- `apply_proc_undo` on the sets that are registered, by `id`.
unfoldable pub undo_one : ℕ → ℕ → ℕ → ℤ → SemSet → SemSet
undo_one pid now num adj s =
    let k = λ (sem : Semaphore). record s {
      sems =
          set s.sems num
            (record sem { val = min (sem.val + pos_part adj - neg_part adj) semvmx; pid = pid });
      otime = now;
    } in
    if s.destroyed || leb s.nsems num
    then s
    else elim (get_elem? s.sems num) [ none ↦ s | some sem ↦ k sem ]

unfoldable pub update_set : ℕ → (SemSet → SemSet) → List (ℕ × SemSet) → List (ℕ × SemSet)
update_set semid f [] = []
update_set semid f ((i, s) ∷ rest) =
    if i == semid then (i, f s) ∷ rest else (i, s) ∷ update_set semid f rest

unfoldable pub undo_all : ℕ → ℕ → List Undo → List (ℕ × SemSet) → List (ℕ × SemSet)
undo_all pid now [] sets = sets
undo_all pid now (u ∷ us) sets = undo_all pid now us (
    if is_zero u.adj || not (u.owner == pid)
    then sets
    else update_set u.semid (undo_one pid now u.sem_num u.adj) sets)

unfoldable pub apply_proc_undo :
    ℕ → ℕ → List Undo × List (ℕ × SemSet) → List Undo × List (ℕ × SemSet)
apply_proc_undo pid now (us, sets) = (forget (λ u. u.owner == pid) us, undo_all pid now us sets)
