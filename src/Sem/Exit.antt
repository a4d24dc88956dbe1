-- ===== src/Sem/Exit.antt =====
-- petra/src/ipc/sem/undo.rs: the adjustments that operations with SEM_UNDO leave.
use petra_os.Common.{
  ℕ, ◌+◌, ◌≤◌, ◌≡◌, refl, sym, ap, ◌∙◌, subst, ◌≢◌, inl, inr, true, some, List, [], ◌∷◌, arith,
  ◌==◌, if◌then◌else◌, ==_iff, Bool-cases, Option-cases, if_cases, length, get_elem?, set, All,
  length-set, get_elem?_lt,
}
use petra_os.Common.Int.{ℤ, pos, negsuc, pos_part, neg_part, ◌-ℤ◌, clamp_abs}
use petra_os.Sem.{
  semaem, sem_undo, has, Semaphore, SemBuf, add_op, Undo, is_for, adj_of, forget, is_zero,
  record_undo, apply_ops,
}
use petra_os.Sem.Atomic.{ups, downs, val_at, val_at-set_self, val_at-set_ne, val_at-get_elem?}

pub adj_of-forget_self :
    (pid semid num : ℕ) (us : List Undo)
    → adj_of pid semid num (forget (is_for pid semid num) us) ≡ pos 0
unfolding adj_of forget
adj_of-forget_self pid semid num [] = refl
adj_of-forget_self pid semid num (u ∷ us) =
    let rest = adj_of-forget_self pid semid num us in
    elim (Bool-cases (is_for pid semid num u)) [
      | inl e ↦ ground (arith, e, rest)
      | inr e ↦ ground (arith, e, rest)
    ]

pub adj_of-forget_ne :
    (pid semid num i : ℕ) (us : List Undo)
    → num ≢ i
    → adj_of pid semid i (forget (is_for pid semid num) us) ≡ adj_of pid semid i us
unfolding adj_of forget
adj_of-forget_ne pid semid num i [] h = refl
adj_of-forget_ne pid semid num i (u ∷ us) h =
    let rest = adj_of-forget_ne pid semid num i us h in
    elim (Bool-cases (is_for pid semid num u)) [
      | inl e ↦ ground (arith, e, rest, h)
      | inr e ↦ ground (arith, e, rest)
    ]

pub is_zero_pos : (n : ℤ) → is_zero n ≡ true → n ≡ pos 0
is_zero_pos (pos n) h = ap pos ((==_iff n 0).0 h)
is_zero_pos (negsuc n) h = absurd (cc)

-- The entry that `record_undo` leaves.
record_undo-adj_of_self :
    (pid semid num : ℕ) (op : ℤ) (us : List Undo)
    → adj_of pid semid num (record_undo pid semid num op us)
      ≡ clamp_abs semaem (adj_of pid semid num us -ℤ op)
unfolding record_undo
record_undo-adj_of_self pid semid num op us =
    let n = clamp_abs semaem (adj_of pid semid num us -ℤ op) in
    let others = forget (is_for pid semid num) us in
    if_cases (λ l. adj_of pid semid num l ≡ n) (is_zero n)
      (λ e. adj_of-forget_self pid semid num us ∙ sym (is_zero_pos n e))
      (λ e. unfold adj_of in ground arith)

-- The process's other records stay.
record_undo-adj_of_ne :
    (pid semid num i : ℕ) (op : ℤ) (us : List Undo)
    → num ≢ i
    → adj_of pid semid i (record_undo pid semid num op us) ≡ adj_of pid semid i us
unfolding record_undo
record_undo-adj_of_ne pid semid num i op us h =
    let n = clamp_abs semaem (adj_of pid semid num us -ℤ op) in
    let same = adj_of-forget_ne pid semid num i us h in
    if_cases (λ l. adj_of pid semid i l ≡ adj_of pid semid i us) (is_zero n) (λ e. same)
      (λ e. unfold adj_of in ground (arith, h, same))

-- Where the bound does not bite, an adjustment less an operation is exact.
clamp_abs-difference :
    (a op : ℤ)
    → pos_part a + neg_part a + (pos_part op + neg_part op) ≤ semaem
    → let n = clamp_abs semaem (a -ℤ op) in
      (pos_part n + neg_part a + pos_part op ≡ pos_part a + neg_part op + neg_part n)
      × (pos_part n + neg_part n ≤ pos_part a + neg_part a + (pos_part op + neg_part op))
clamp_abs-difference (pos x) (pos y) h = (ground arith, ground arith)
clamp_abs-difference (pos x) (negsuc y) h = (ground arith, ground arith)
clamp_abs-difference (negsuc x) (pos y) h = (ground arith, ground arith)
clamp_abs-difference (negsuc x) (negsuc y) h = (ground arith, ground arith)

abbrev pub Undoing : List SemBuf → Type 0
Undoing ops = All (λ op. has op.sem_flg sem_undo ≡ true) ops

add_op-value :
    (val : ℕ) (op : ℤ) (v : ℕ) → add_op val op ≡ some v → v + neg_part op ≡ val + pos_part op
unfolding add_op
add_op-value val (pos n) v h = ground arith
add_op-value val (negsuc n) v h = ground arith

-- What the first of some operations that were applied did.
pub first_applied :
    (pid semid : ℕ) (op : SemBuf) (ops : List SemBuf) (sems : List Semaphore) (us : List Undo)
    (out : List Semaphore × List Undo)
    → has op.sem_flg sem_undo ≡ true
    → apply_ops pid semid (op ∷ ops) (sems, us) ≡ some out
    → (s : Semaphore) × (v : ℕ) × (get_elem? sems op.sem_num ≡ some s)
      × (add_op s.val op.sem_op ≡ some v)
      × (apply_ops pid semid ops (
        set sems op.sem_num (record s { val = v; pid = pid }),
        record_undo pid semid op.sem_num op.sem_op us,
      )
          ≡ some out)
unfolding apply_ops
first_applied pid semid op ops sems us out f h = elim (Option-cases (get_elem? sems op.sem_num)) [
  | inl e ↦ absurd (ground (arith, h, e))
  | inr (s, e) ↦ elim (Option-cases (add_op s.val op.sem_op)) [
    | inl e' ↦ absurd (ground (arith, h, e, e'))
    | inr (v, e') ↦ (s, v, e, e', ground (arith, h, e, e', f))
  ]
]

one_balance :
    (pid semid i : ℕ) (op : SemBuf) (sems : List Semaphore) (us : List Undo) (s : Semaphore)
    (v left : ℕ)
    → get_elem? sems op.sem_num ≡ some s
    → add_op s.val op.sem_op ≡ some v
    → let adj = adj_of pid semid i us in
      let adj' = adj_of pid semid i (record_undo pid semid op.sem_num op.sem_op us) in
      pos_part adj
          + neg_part adj
          + ((if op.sem_num == i then pos_part op.sem_op else 0)
              + (if op.sem_num == i then neg_part op.sem_op else 0))
          + left
        ≤ semaem
      → (val_at (set sems op.sem_num (record s { val = v; pid = pid })) i
            + pos_part adj'
            + neg_part adj
          ≡ val_at sems i + pos_part adj + neg_part adj')
        × (pos_part adj' + neg_part adj' + left ≤ semaem)
one_balance pid semid i op sems us s v left e a b =
    let s' : Semaphore = record s { val = v; pid = pid } in
    let num = op.sem_num in
    elim (Bool-cases (num == i)) [
      | inl k ↦
          (let k' = (==_iff num i).0 k in
            let b' = rw k at b in
            let d = clamp_abs-difference (adj_of pid semid i us) op.sem_op (omega (arith, b')) in
            let n =
              subst
                (λ j.
                  adj_of pid semid j (record_undo pid semid num op.sem_op us)
                  ≡ clamp_abs semaem (adj_of pid semid j us -ℤ op.sem_op))
                k' (record_undo-adj_of_self pid semid num op.sem_op us) in
            let x =
              subst (λ j. val_at (set sems num s') j ≡ v) k'
                (val_at-set_self sems num s' (get_elem?_lt sems num e)) in
            let y = subst (λ j. val_at sems j ≡ s.val) k' (val_at-get_elem? sems num s e) in
            let z = add_op-value s.val op.sem_op v a in
            rw (n, x, y) (omega (arith, d.0, z), omega (arith, d.1, b')))
      | inr k ↦
          (let ne : num ≢ i = λ q. ground (arith, q, k) in
            let b' = rw k at b in
            let n = record_undo-adj_of_ne pid semid num i op.sem_op us ne in
            let x = val_at-set_ne sems num i s' ne in rw (n, x) (refl, omega (arith, b')))
    ]

-- The balance of a process: a semaphore's value and the adjustment that its exit would make add up
-- to the same through all of its operations.
pub apply_ops-balance :
    (pid semid i : ℕ) (ops : List SemBuf) (sems : List Semaphore) (us : List Undo)
    (out : List Semaphore × List Undo)
    → Undoing ops
    → let adj = adj_of pid semid i us in
      let adj' = adj_of pid semid i out.1 in
      pos_part adj + neg_part adj + (ups i ops + downs i ops) ≤ semaem
      → apply_ops pid semid ops (sems, us) ≡ some out
      → (val_at out.0 i + pos_part adj' + neg_part adj
          ≡ val_at sems i + pos_part adj + neg_part adj')
        × (length out.0 ≡ length sems)
apply_ops-balance pid semid i [] sems us out u b h =
    let e : (sems, us) ≡ out = unfold apply_ops in ground arith in
    (rw (sym e) (refl), ap (λ o. length o.0) (sym e))
apply_ops-balance pid semid i (op ∷ ops) sems us out u b h =
    let f = first_applied pid semid op ops sems us out u.0 h in
    let s' : Semaphore = record f.0 { val = f.1; pid = pid } in
    let us' = record_undo pid semid op.sem_num op.sem_op us in
    let one =
      one_balance pid semid i op sems us f.0 f.1 (ups i ops + downs i ops) f.2 f.3
        (omega (arith, b)) in
    let rest = apply_ops-balance pid semid i ops (set sems op.sem_num s') us' out u.1 one.1 f.4 in
    (omega (arith, one.0, rest.0), rest.1 ∙ length-set sems op.sem_num s')
