-- ===== src/Sem/Atomic.antt =====
-- petra/src/ipc/sem/mod.rs: a `semop` whose operations name different semaphores.
use petra_os.Common.{
  ℕ, zero, suc, ◌+◌, ◌-◌, ◌≤◌, ◌<◌, ◌≡◌, refl, sym, ap, ◌∙◌, ◌≢◌, inl, inr, true, some, List, [],
  ◌∷◌, arith, ◌==◌, if◌then◌else◌, ==_iff, Bool-cases, Option-cases, length, get_elem?, set, All,
  length-set, get_elem?-set_ne, get_elem?_lt,
}
use petra_os.Common.Errno.{ok}
use petra_os.Common.Int.{ℤ, pos, negsuc, pos_part, neg_part}
use petra_os.Sem.{
  semvmx, sem_undo, has, Semaphore, SemBuf, can_execute, can_execute_ops, add_op, Undo, record_undo,
  apply_ops,
}

-- The operations name different semaphores.
abbrev pub Distinct : List SemBuf → Type 0
Distinct [] = Unit {0}
Distinct (op ∷ ops) = All (λ o. o.sem_num ≢ op.sem_num) ops × Distinct ops

abbrev pub InRange : List Semaphore → Type 0
InRange sems = All (λ s. s.val ≤ semvmx) sems

-- What the operations add to and take from the semaphore `i`.
abbrev pub ups : ℕ → List SemBuf → ℕ
ups i [] = 0
ups i (op ∷ ops) = (if op.sem_num == i then pos_part op.sem_op else 0) + ups i ops

abbrev pub downs : ℕ → List SemBuf → ℕ
downs i [] = 0
downs i (op ∷ ops) = (if op.sem_num == i then neg_part op.sem_op else 0) + downs i ops

abbrev pub val_at : List Semaphore → ℕ → ℕ
val_at [] i = 0
val_at (s ∷ ss) zero = s.val
val_at (s ∷ ss) (suc i) = val_at ss i

can_execute_ops-set :
    (sems : List Semaphore) (num : ℕ) (s : Semaphore) (ops : List SemBuf)
    → All (λ o. o.sem_num ≢ num) ops
    → can_execute_ops (set sems num s) ops ≡ can_execute_ops sems ops
unfolding can_execute_ops
can_execute_ops-set sems num s [] h = refl
can_execute_ops-set sems num s (op ∷ ops) h =
    let same = get_elem?-set_ne sems num op.sem_num s (λ e. h.0 (sym e)) in
    let rest = can_execute_ops-set sems num s ops h.1 in ground (arith, same, rest)

pub val_at-set_self :
    (sems : List Semaphore) (i : ℕ) (s : Semaphore)
    → i < length sems
    → val_at (set sems i s) i ≡ s.val
val_at-set_self [] i s h = absurd (omega arith)
val_at-set_self (x ∷ xs) zero s h = refl
val_at-set_self (x ∷ xs) (suc i) s h = val_at-set_self xs i s (omega arith)

pub val_at-set_ne :
    (sems : List Semaphore) (i j : ℕ) (s : Semaphore)
    → i ≢ j
    → val_at (set sems i s) j ≡ val_at sems j
val_at-set_ne [] i j s h = refl
val_at-set_ne (x ∷ xs) zero zero s h = absurd (h refl)
val_at-set_ne (x ∷ xs) zero (suc j) s h = refl
val_at-set_ne (x ∷ xs) (suc i) zero s h = refl
val_at-set_ne (x ∷ xs) (suc i) (suc j) s h = val_at-set_ne xs i j s (λ e. h (ap suc e))

pub val_at-get_elem? :
    (sems : List Semaphore) (i : ℕ) (s : Semaphore)
    → get_elem? sems i ≡ some s
    → val_at sems i ≡ s.val
val_at-get_elem? [] i s e = absurd (cc)
val_at-get_elem? (x ∷ xs) zero s e = ground arith
val_at-get_elem? (x ∷ xs) (suc i) s e = val_at-get_elem? xs i s e

pub InRange-set :
    (sems : List Semaphore) (i : ℕ) (s : Semaphore)
    → s.val ≤ semvmx
    → InRange sems
    → InRange (set sems i s)
InRange-set [] i s h r = tt
InRange-set (x ∷ xs) zero s h r = (h, r.1)
InRange-set (x ∷ xs) (suc i) s h r = (r.0, InRange-set xs i s h r.1)

InRange-get_elem? :
    (sems : List Semaphore) (i : ℕ) (s : Semaphore)
    → get_elem? sems i ≡ some s
    → InRange sems
    → s.val ≤ semvmx
InRange-get_elem? [] i s e r = absurd (cc)
InRange-get_elem? (x ∷ xs) zero s e r = ground (arith, r.0)
InRange-get_elem? (x ∷ xs) (suc i) s e r = InRange-get_elem? xs i s e r.1

untouched :
    (i : ℕ) (ops : List SemBuf) → All (λ o. o.sem_num ≢ i) ops → (ups i ops ≡ 0) × (downs i ops ≡ 0)
untouched i [] h = (refl, refl)
untouched i (op ∷ ops) h =
    (ground (arith, untouched i ops h.1, h.0), ground (arith, untouched i ops h.1, h.0))

-- One allowed operation, by itself: no overflow, and the value stays in range.
pub add_op-can_execute :
    (val : ℕ) (op : ℤ)
    → val ≤ semvmx
    → can_execute val op ≡ ok true
    → (v : ℕ) × (add_op val op ≡ some v) × (v ≤ semvmx) × (v + neg_part op ≡ val + pos_part op)
unfolding can_execute add_op
add_op-can_execute val (pos zero) h e = (val, ground arith, h, omega arith)
add_op-can_execute val (pos (suc n)) h e = (val + suc n, ground arith, ground arith, omega arith)
add_op-can_execute val (negsuc n) h e = (val - suc n, ground arith, ground arith, ground arith)

-- What the first operation being allowed gives.
first_allowed :
    (sems : List Semaphore) (op : SemBuf) (ops : List SemBuf)
    → can_execute_ops sems (op ∷ ops) ≡ some (ok true)
    → (s : Semaphore) × (get_elem? sems op.sem_num ≡ some s)
      × (can_execute s.val op.sem_op ≡ ok true)
      × (can_execute_ops sems ops ≡ some (ok true))
unfolding can_execute_ops
first_allowed sems op ops h = elim (Option-cases (get_elem? sems op.sem_num)) [
  | inl e ↦ absurd (ground (arith, h, e))
  | inr (s, e) ↦ (s, e, ground (arith, h, e), ground (arith, h, e))
]

apply_ops-cons :
    (pid semid : ℕ) (op : SemBuf) (ops : List SemBuf) (sems : List Semaphore) (us : List Undo)
    (s : Semaphore) (v : ℕ)
    → get_elem? sems op.sem_num ≡ some s
    → add_op s.val op.sem_op ≡ some v
    → apply_ops pid semid (op ∷ ops) (sems, us)
      ≡ apply_ops pid semid ops (
        set sems op.sem_num (record s { val = v; pid = pid }),
        (if has op.sem_flg sem_undo then record_undo pid semid op.sem_num op.sem_op us else us),
      )
unfolding apply_ops
apply_ops-cons pid semid op ops sems us s v e a = ground (arith, e, a)

-- What applying the operations must give.
pub record Applied (pid semid : ℕ) (ops : List SemBuf) (sems : List Semaphore) (us : List Undo)
    : Type 0 where
  pub after : List Semaphore
  pub undos : List Undo
  pub result : apply_ops pid semid ops (sems, us) ≡ some (after, undos)
  pub in_range : InRange after
  pub same_length : length after ≡ length sems
  pub values : (i : ℕ) → i < length sems → val_at after i + downs i ops ≡ val_at sems i + ups i ops

-- When the test of `semop` allows operations on different semaphores of a set in range, then
-- applying them all does not overflow, leaves every value between 0 and SEMVMX, and changes each
-- value by exactly the operation on it.
pub apply_ops-Applied :
    (pid semid : ℕ) (ops : List SemBuf) (sems : List Semaphore) (us : List Undo)
    → Distinct ops
    → InRange sems
    → can_execute_ops sems ops ≡ some (ok true)
    → Applied pid semid ops sems us
unfolding apply_ops
apply_ops-Applied pid semid [] sems us d r h = record {
  after = sems;
  undos = us;
  result = refl;
  in_range = r;
  same_length = refl;
  values = λ i k. omega arith;
}
apply_ops-Applied pid semid (op ∷ ops) sems us d r h =
    let f = first_allowed sems op ops h in
    let s = f.0 in
    let num = op.sem_num in
    let a = add_op-can_execute s.val op.sem_op (InRange-get_elem? sems num s f.1 r) f.2 in
    let s' : Semaphore = record s { val = a.0; pid = pid } in
    let us' = if has op.sem_flg sem_undo then record_undo pid semid num op.sem_op us else us in
    let rest =
      apply_ops-Applied pid semid ops (set sems num s') us' d.1 (InRange-set sems num s' a.2 r)
        (can_execute_ops-set sems num s' ops d.0 ∙ f.3) in
    record {
      after = rest.after;
      undos = rest.undos;
      result = apply_ops-cons pid semid op ops sems us s a.0 f.1 a.1 ∙ rest.result;
      in_range = rest.in_range;
      same_length = rest.same_length ∙ length-set sems num s';
      values = λ i k.
          let l = rest.values i (omega (arith, length-set sems num s')) in
          elim (Bool-cases (num == i)) [
            | inl e ↦
                let e' = (==_iff num i).0 e in
                let u = untouched num ops d.0 in
                ground (
                  arith,
                  l,
                  e',
                  e,
                  val_at-set_self sems num s' (get_elem?_lt sems num f.1),
                  val_at-get_elem? sems num s f.1,
                  a.3,
                )
            | inr e ↦ ground (arith, l, e, val_at-set_ne sems num i s' (λ z. ground (arith, z, e)))
          ];
    }
