-- ===== src/Sem/Lifecycle.antt =====
-- petra/src/ipc/sem/mod.rs: what the commands of `sem_ctl` keep and what they clear.
use petra_os.Common.{
  ℕ, ◌≡◌, refl, subst, ◌≢◌, ◌⊎◌, inl, inr, Bool, true, false, ◌||◌, Option, none, some, List, [],
  ◌∷◌, arith, ltb, leb, ◌==◌, if◌then◌else◌, Bool-cases, get_elem?, set,
}
use petra_os.Common.Errno.{Errno, efault, einval, erange, eidrm, Result, ok, err}
use petra_os.Common.Int.{ℤ, pos, pos_part, neg_part}
use petra_os.Sem.{
  semvmx, Semaphore, Cred, SemSet, check_write_permission, check_admin_permission, Undo, adj_of,
  forget, is_of, clear_undo_for_sem,
}
use petra_os.Sem.Registry.{ipc_private, Sems, lookup, remove, unbind_key}
use petra_os.Sem.Control.{semctl_rmid, semctl_set_val, any_above, store_all, semctl_setall}
use petra_os.Sem.Atomic.{InRange, InRange-set}

-- Nothing that any process's exit does concerns the semaphore `num` of the set `semid`.
abbrev pub NoUndo : ℕ → ℕ → List Undo → Type 0
NoUndo semid num us = (pid : ℕ) → adj_of pid semid num us ≡ pos 0

adj_of-clear :
    (pid semid num : ℕ) (which : Option ℕ) (us : List Undo)
    → (which ≡ none) ⊎ (which ≡ some num)
    → adj_of pid semid num (clear_undo_for_sem semid which us) ≡ pos 0
unfolding adj_of forget clear_undo_for_sem
adj_of-clear pid semid num which [] h = refl
adj_of-clear pid semid num which (u ∷ us) h =
    let rest = adj_of-clear pid semid num which us h in
    elim (Bool-cases (is_of semid which u)) [
      | inl e ↦ ground (arith, e, rest)
      | inr e ↦ elim h [ inl n ↦ ground (arith, e, rest, n) | inr n ↦ ground (arith, e, rest, n) ]
    ]

InRange-store_all :
    (pid : ℕ) (values : List ℕ) (sems : List Semaphore)
    → any_above semvmx values ≡ false
    → InRange sems
    → InRange (store_all pid values sems)
unfolding any_above store_all
InRange-store_all pid [] sems h r = r
InRange-store_all pid (v ∷ vs) [] h r = tt
InRange-store_all pid (v ∷ vs) (s ∷ ss) h r =
    (ground (arith, h), InRange-store_all pid vs ss (ground (arith, h)) r.1)

-- A command that failed changed nothing.
abbrev pub Failed : SemSet × Sems → Result ℕ × SemSet × Sems → Type 0
Failed before (r, s, w) = (e : Errno) × (r ≡ err e) × ((s, w) ≡ before)

set_val_stores :
    (semid : ℕ) (semnum val : ℤ) (cred : Cred) (pid : ℕ) (s : SemSet) (w : Sems)
    (out : Result ℕ × SemSet × Sems)
    → InRange s.sems
    → semctl_set_val semid semnum val cred pid (s, w) ≡ some out
    → (InRange out.1.sems × NoUndo semid (pos_part semnum) out.2.undos) ⊎ Failed (s, w) out
unfolding semctl_set_val
set_val_stores semid semnum val cred pid s w out r h =
    split (ltb 0 (neg_part val) || ltb semvmx (pos_part val)) refl s.destroyed
      (check_write_permission s.perm cred)
      (ltb 0 (neg_part semnum) || leb s.nsems (pos_part semnum))
      (get_elem? s.sems (pos_part semnum)) h
  where
    split :
        (bad : Bool)
        → (ltb 0 (neg_part val) || ltb semvmx (pos_part val)) ≡ bad
        → (destroyed : Bool) (allowed : Result (Unit {0})) (outside : Bool)
          (found : Option Semaphore)
        → (let num = pos_part semnum in
            let stored : Semaphore → SemSet = λ sem. record s {
              sems = set s.sems num (record sem { val = pos_part val; pid = pid });
              ctime = w.now;
            } in
            let cleared : Sems = record w { undos = clear_undo_for_sem semid (some num) w.undos } in
            let whole : Option (Result ℕ × SemSet × Sems) =
              if bad
              then some (err erange, s, w)
              else if destroyed
              then some (err eidrm, s, w)
              else elim allowed [
                | err e ↦ some (err e, s, w)
                | ok _ ↦
                    if outside
                    then some (err einval, s, w)
                    else elim found [ none ↦ none | some sem ↦ some (ok 0, stored sem, cleared) ]
              ] in
            whole ≡ some out)
        → (InRange out.1.sems × NoUndo semid (pos_part semnum) out.2.undos) ⊎ Failed (s, w) out
    split true b d a o f h = inr (erange, ground (arith, h), ground (arith, h))
    split false b true a o f h = inr (eidrm, ground (arith, h), ground (arith, h))
    split false b false (err e) o f h = inr (e, ground (arith, h), ground (arith, h))
    split false b false (ok u) true f h = inr (einval, ground (arith, h), ground (arith, h))
    split false b false (ok u) false none h = absurd (cc)
    split false b false (ok u) false (some sem) h =
        let num = pos_part semnum in
        let sem' : Semaphore = record sem { val = pos_part val; pid = pid } in
        let out' : Result ℕ × SemSet × Sems = (
          ok 0,
          record s { sems = set s.sems num sem'; ctime = w.now },
          record w { undos = clear_undo_for_sem semid (some num) w.undos },
        ) in
        let q : out' ≡ out = cc in
        inl (
          subst (λ o. InRange o.1.sems × NoUndo semid num o.2.undos) q
            (
              InRange-set s.sems num sem' (ground (arith, b)) r,
              λ p. adj_of-clear p semid num (some num) w.undos (inr refl),
            ))

set_all_stores :
    (semid arg : ℕ) (read : Result (List ℕ)) (cred : Cred) (pid : ℕ) (s : SemSet) (w : Sems)
    → InRange s.sems
    → let out = semctl_setall semid arg read cred pid (s, w) in
      (InRange out.1.sems × ((num : ℕ) → NoUndo semid num out.2.undos)) ⊎ Failed (s, w) out
unfolding semctl_setall
set_all_stores semid arg read cred pid s w r =
    split (arg == 0) s.destroyed (check_write_permission s.perm cred) read
  where
    split :
        (null destroyed : Bool) (allowed : Result (Unit {0})) (values : Result (List ℕ))
        → let out : Result ℕ × SemSet × Sems =
            if null
            then (err efault, s, w)
            else if destroyed
            then (err eidrm, s, w)
            else elim allowed [
              | err e ↦ (err e, s, w)
              | ok _ ↦ elim values [
                | err e ↦ (err e, s, w)
                | ok vs ↦ if any_above semvmx vs then (err erange, s, w) else (
                  ok 0,
                  record s { sems = store_all pid vs s.sems; ctime = w.now },
                  record w { undos = clear_undo_for_sem semid none w.undos },
                )
              ]
            ] in
          (InRange out.1.sems × ((num : ℕ) → NoUndo semid num out.2.undos)) ⊎ Failed (s, w) out
    split true d a v = inr (efault, refl, refl)
    split false true a v = inr (eidrm, refl, refl)
    split false false (err e) v = inr (e, refl, refl)
    split false false (ok u) (err e) = inr (e, refl, refl)
    split false false (ok u) (ok vs) = elim (Bool-cases (any_above semvmx vs)) [
      | inl e ↦ rw e (inr (erange, refl, refl))
      | inr e ↦ rw e (
          inl (
            InRange-store_all pid vs s.sems e r,
            λ num p. adj_of-clear p semid num none w.undos (inl refl),
          ))
    ]

-- A set that is removed, is gone: no id and no key leads to it, no exit concerns it, and every call
-- that still holds it fails with EIDRM.
abbrev pub Removed : ℕ → Cred → SemSet × Sems → Result ℕ × SemSet × Sems → Type 0
Removed semid cred (s, w) (r, s', w') =
    (r ≡ ok 0)
    × (s'.destroyed ≡ true)
    × (s'.sems ≡ s.sems)
    × (lookup semid w'.objects ≡ none)
    × (s.key ≢ ipc_private → lookup s.key w'.keys ≡ none)
    × ((num : ℕ) → NoUndo semid num w'.undos)

lookup-remove {ℓ} : {A : Type ℓ} (k : ℕ) (l : List (ℕ × A)) → lookup k (remove k l) ≡ none
unfolding lookup remove
lookup-remove k [] = refl
lookup-remove k ((i, a) ∷ rest) = let gone = lookup-remove k rest in ground (arith, gone)

rmid_removes :
    (semid : ℕ) (cred : Cred) (s : SemSet) (w : Sems)
    → Removed semid cred (s, w) (semctl_rmid semid cred (s, w))
      ⊎ Failed (s, w) (semctl_rmid semid cred (s, w))
unfolding semctl_rmid
rmid_removes semid cred s w = split s.destroyed (check_admin_permission s.perm cred)
  where
    split :
        (destroyed : Bool) (allowed : Result (Unit {0}))
        → let out : Result ℕ × SemSet × Sems =
            if destroyed then (err eidrm, s, w) else elim allowed [
              | err e ↦ (err e, s, w)
              | ok _ ↦ (
                ok 0,
                record s { destroyed = true },
                record w {
                  objects = remove semid w.objects;
                  keys = unbind_key s.key w.keys;
                  undos = clear_undo_for_sem semid none w.undos;
                },
              )
            ] in
          Removed semid cred (s, w) out ⊎ Failed (s, w) out
    split true a = inr (eidrm, refl, refl)
    split false (err e) = inr (e, refl, refl)
    split false (ok u) = inl (
      refl,
      refl,
      refl,
      lookup-remove semid w.objects,
      (λ n. let gone = lookup-remove s.key w.keys in unfold unbind_key in ground (arith, gone, n)),
      λ num p. adj_of-clear p semid num none w.undos (inl refl),
    )

-- SETVAL, SETALL and IPC_RMID. Each either fails and changes nothing, or: SETVAL leaves the values in
-- range and no process with an adjustment on its semaphore; SETALL leaves the values in range and no
-- process with an adjustment on the set; and after IPC_RMID no id and no key leads to the set, it is
-- marked destroyed, its values are as they were, and no process has an adjustment on it.
pub controls_lem :
    (semid : ℕ) (semnum val : ℤ) (arg : ℕ) (read : Result (List ℕ)) (cred : Cred) (pid : ℕ)
    (s : SemSet) (w : Sems)
    → InRange s.sems
    → let all = semctl_setall semid arg read cred pid (s, w) in
      let gone = semctl_rmid semid cred (s, w) in
      ((out : Result ℕ × SemSet × Sems)
        → semctl_set_val semid semnum val cred pid (s, w) ≡ some out
        → (InRange out.1.sems × NoUndo semid (pos_part semnum) out.2.undos) ⊎ Failed (s, w) out)
      × ((InRange all.1.sems × ((num : ℕ) → NoUndo semid num all.2.undos)) ⊎ Failed (s, w) all)
      × (Removed semid cred (s, w) gone ⊎ Failed (s, w) gone)
controls_lem semid semnum val arg read cred pid s w r = (
  λ out h. set_val_stores semid semnum val cred pid s w out r h,
  set_all_stores semid arg read cred pid s w r,
  rmid_removes semid cred s w,
)
