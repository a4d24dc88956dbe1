-- ===== src/Sem/Get.antt =====
-- petra/src/ipc/sem/mod.rs: `sem_get`.
use petra_os.Common.{
  ℕ, zero, suc, ◌≤◌, ◌<◌, ◌≡◌, refl, subst, ◌≢◌, ◌⊎◌, inl, inr, false, not, ◌&&◌, Option, none,
  some, arith, ltb, leb, ◌==◌, if◌then◌else◌, ==_iff, Bool-cases, length, replicate, All,
  length-replicate,
}
use petra_os.Common.Errno.{enoent, einval, eidrm, Result, ok, err, ◌>>=◌}
use petra_os.Common.Int.{pos}
use petra_os.Sem.{semmsl, has, Semaphore, Cred, SemSet, check_read_permission}
use petra_os.Sem.Registry.{
  semmni, ipc_private, ipc_creat, ipc_excl, Sems, lookup, bind_key, new_perm, new_set,
  create_sem_set, open_existing, sem_get,
}

-- The call found the set that the key leads to, and may read it.
abbrev pub Existing : ℕ → ℕ → Cred → Sems → ℕ → Type 0
Existing key nsems cred w id =
    (lookup key w.keys ≡ some id)
    × (s : SemSet) × (lookup id w.objects ≡ some s)
    × (s.destroyed ≡ false)
    × (check_read_permission s.perm cred ≡ ok tt)
    × (nsems ≤ s.nsems)

-- The call made a set of `nsems` semaphores of value 0 under the new id.
abbrev pub Created : ℕ → ℕ → ℕ → Sems → Sems → Type 0
Created semid key nsems w w' =
    (length w.objects < semmni)
    × (s : SemSet) × (lookup semid w'.objects ≡ some s)
    × (length s.sems ≡ nsems)
    × (s.nsems ≡ nsems)
    × All (λ m. m.val ≡ 0) s.sems
    × (key ≢ ipc_private → lookup key w'.keys ≡ some semid)
    × ((id : ℕ) → semid ≢ id → lookup id w'.objects ≡ lookup id w.objects)

-- What `sem_get` must do, given its answer.
abbrev pub Got : ℕ → ℕ → ℕ → Cred → Sems → Result ℕ × Sems → Type 0
Got semid key nsems cred w (err e, w') = w' ≡ w
Got semid key nsems cred w (ok id, w') =
    ((w' ≡ w) × Existing key nsems cred w id) ⊎ ((id ≡ semid) × Created semid key nsems w w')

All-zero :
    (n : ℕ)
    → All
        (λ (m : Semaphore). m.val ≡ 0)
        (replicate n (record { val = 0; pid = 0; ncnt = 0; zcnt = 0 }))
All-zero zero = tt
All-zero (suc n) = (refl, All-zero n)

create_sem_set-Got :
    (semid key nsems semflg : ℕ) (cred : Cred) (w : Sems)
    → Got semid key nsems cred w (create_sem_set semid key nsems semflg cred w)
unfolding create_sem_set new_set lookup bind_key
create_sem_set-Got semid key nsems semflg cred w =
    elim (Bool-cases (leb semmni (length w.objects))) [
      | inl e ↦ rw e refl
      | inr e ↦ rw e (
          inr (
            refl,
            (
              ground (arith, e),
              new_set semid key nsems (new_perm cred semflg) w.now,
              ground arith,
              length-replicate nsems (record { val = 0; pid = 0; ncnt = 0; zcnt = 0 }),
              refl,
              All-zero nsems,
              (λ n. ground (arith, n)),
              λ id n. ground (arith, n),
            ),
          ))
    ]

open_existing-Got :
    (semid key nsems semflg : ℕ) (cred : Cred) (w : Sems) (old : ℕ)
    → lookup key w.keys ≡ some old
    → Got semid key nsems cred w (open_existing old nsems semflg cred w, w)
unfolding open_existing
open_existing-Got semid key nsems semflg cred w old k =
    elim (Bool-cases (has semflg ipc_creat && has semflg ipc_excl)) [
      | inl e ↦ rw e refl
      | inr e ↦ rw e (found (lookup old w.objects) refl)
    ]
  where
    allowed :
        (s : SemSet) (r : Result (Unit {0}))
        → lookup old w.objects ≡ some s
        → s.destroyed ≡ false
        → check_read_permission s.perm cred ≡ r
        → Got semid key nsems cred w
            ((r >>= λ _. if ltb 0 nsems && ltb s.nsems nsems then err einval else ok old), w)
    allowed s (err x) l d c = refl
    allowed s (ok u) l d c = elim (Bool-cases (ltb 0 nsems && ltb s.nsems nsems)) [
      | inl f ↦ rw f refl
      | inr f ↦ rw f (inl (refl, (k, s, l, d, c, ground (arith, f))))
    ]

    found :
        (o : Option SemSet)
        → lookup old w.objects ≡ o
        → let out : Result ℕ = elim o [
          | none ↦ err enoent
          | some s ↦
              if s.destroyed
              then err eidrm
              else check_read_permission s.perm cred >>= λ _.
                  if ltb 0 nsems && ltb s.nsems nsems then err einval else ok old
        ] in
          Got semid key nsems cred w (out, w)
    found none l = refl
    found (some s) l = elim (Bool-cases s.destroyed) [
      | inl d ↦ rw d refl
      | inr d ↦ rw d (allowed s (check_read_permission s.perm cred) l d refl)
    ]

-- `sem_get`, where `semid` is the id to give to a new set. A failure changes nothing. The answer is
-- the id that the key leads to, of a set that is not destroyed, that the caller may read and that
-- has at least the semaphores asked for, and nothing changes; or it is the new id, there was room
-- for one more set, the id leads to a set of as many semaphores as asked for, all 0, so does the key
-- unless it is IPC_PRIVATE, and no other id leads elsewhere than before.
pub sem_get-Got :
    (semid key nsems semflg : ℕ) (cred : Cred) (w : Sems)
    → Got semid key nsems cred w (sem_get semid key (pos nsems) semflg cred w)
unfolding sem_get
sem_get-Got semid key nsems semflg cred w = elim (Bool-cases (ltb semmsl nsems)) [
  | inl e ↦ rw e refl
  | inr e ↦ elim (Bool-cases (key == ipc_private)) [
    | inl p ↦ elim (Bool-cases (nsems == 0)) [
      | inl z ↦ rw (e, p, z) refl
      | inr z ↦
          rw (e, p, z)
            (subst (λ k. Got semid key nsems cred w (create_sem_set semid k nsems semflg cred w))
              ((==_iff key ipc_private).0 p) (create_sem_set-Got semid key nsems semflg cred w))
    ]
    | inr p ↦ rw (e, p) (keyed (lookup key w.keys) refl)
  ]
]
  where
    keyed :
        (o : Option ℕ)
        → lookup key w.keys ≡ o
        → let out : Result ℕ × Sems = elim o [
          | some old ↦ (open_existing old nsems semflg cred w, w)
          | none ↦
              if not (has semflg ipc_creat)
              then (err enoent, w)
              else if nsems == 0
              then (err einval, w)
              else create_sem_set semid key nsems semflg cred w
        ] in
          Got semid key nsems cred w out
    keyed (some old) k = open_existing-Got semid key nsems semflg cred w old k
    keyed none k = elim (Bool-cases (not (has semflg ipc_creat))) [
      | inl c ↦ rw c refl
      | inr c ↦ elim (Bool-cases (nsems == 0)) [
        | inl z ↦ rw (c, z) refl
        | inr z ↦ rw (c, z) (create_sem_set-Got semid key nsems semflg cred w)
      ]
    ]
