-- ===== src/Sem/Walk.antt =====
-- petra/src/ipc/sem/undo.rs: the walk over a process's adjustments when it exits.
use petra_os.Common.{
  ℕ, ◌+◌, ◌-◌, ◌≤◌, ◌<◌, min, ◌≡◌, refl, sym, ap, ◌∙◌, subst, ◌≢◌, inl, inr, Bool, true, false, not,
  ◌||◌, none, some, List, [], ◌∷◌, arith, leb, ◌==◌, if◌then◌else◌, Bool-cases, Option-cases,
  if_cases, length, get_elem?, set, length-set, get_elem?_total,
}
use petra_os.Common.Int.{ℤ, pos, pos_part, neg_part}
use petra_os.Sem.{
  semvmx, Semaphore, SemBuf, SemSet, Undo, is_for, adj_of, forget, is_zero, record_undo, apply_ops,
  undo_one, update_set, undo_all,
}
use petra_os.Sem.Atomic.{val_at, val_at-set_self, val_at-set_ne, val_at-get_elem?}
use petra_os.Sem.Registry.{lookup}
use petra_os.Sem.Exit.{is_zero_pos, Undoing, first_applied}

-- How many records a process has for a semaphore. `UNDO_REGISTRY` is a map, so that it is at most 1.
unfoldable pub entries : ℕ → ℕ → ℕ → List Undo → ℕ
entries pid semid i [] = 0
entries pid semid i (u ∷ us) = (if is_for pid semid i u then 1 else 0) + entries pid semid i us

entries-forget_self :
    (pid semid i : ℕ) (us : List Undo) → entries pid semid i (forget (is_for pid semid i) us) ≡ 0
unfolding entries forget
entries-forget_self pid semid i [] = refl
entries-forget_self pid semid i (u ∷ us) =
    let rest = entries-forget_self pid semid i us in
    elim (Bool-cases (is_for pid semid i u)) [
      | inl e ↦ ground (arith, e, rest)
      | inr e ↦ ground (arith, e, rest)
    ]

entries-forget_le :
    (p : Undo → Bool) (pid semid i : ℕ) (us : List Undo)
    → entries pid semid i (forget p us) ≤ entries pid semid i us
unfolding entries forget
entries-forget_le p pid semid i [] = omega arith
entries-forget_le p pid semid i (u ∷ us) =
    let rest = entries-forget_le p pid semid i us in
    elim (Bool-cases (p u)) [
      | inl e ↦ rw e (omega (arith, rest))
      | inr e ↦ rw e (omega (arith, rest))
    ]

entries-record_undo :
    (pid semid num i : ℕ) (op : ℤ) (us : List Undo)
    → entries pid semid i us ≤ 1
    → entries pid semid i (record_undo pid semid num op us) ≤ 1
unfolding record_undo entries
entries-record_undo pid semid num i op us h =
    let le = entries-forget_le (is_for pid semid num) pid semid i us in
    elim (Bool-cases (num == i)) [
      | inl e ↦
          let same : num ≡ i = ground (arith, e) in
          let none_left : entries pid semid i (forget (is_for pid semid num) us) ≡ 0 =
            subst (λ k. entries pid semid i (forget (is_for pid semid k) us) ≡ 0) (sym same)
              (entries-forget_self pid semid i us) in
          ground (arith, none_left)
      | inr e ↦ ground (arith, e, le, h)
    ]

pub entries-apply_ops :
    (pid semid i : ℕ) (ops : List SemBuf) (sems : List Semaphore) (us : List Undo)
    (out : List Semaphore × List Undo)
    → Undoing ops
    → entries pid semid i us ≤ 1
    → apply_ops pid semid ops (sems, us) ≡ some out
    → entries pid semid i out.1 ≤ 1
entries-apply_ops pid semid i [] sems us out u h a =
    let e : (sems, us) ≡ out = unfold apply_ops in ground arith in
    subst (λ o. entries pid semid i o.1 ≤ 1) e h
entries-apply_ops pid semid i (op ∷ ops) sems us out u h a =
    let f = first_applied pid semid op ops sems us out u.0 a in
    entries-apply_ops pid semid i ops (set sems op.sem_num (record f.0 { val = f.1; pid = pid }))
      (record_undo pid semid op.sem_num op.sem_op us) out u.1
      (entries-record_undo pid semid op.sem_num i op.sem_op us h) f.4

no_entries :
    (pid semid i : ℕ) (us : List Undo) → entries pid semid i us ≡ 0 → adj_of pid semid i us ≡ pos 0
unfolding entries adj_of
no_entries pid semid i [] h = refl
no_entries pid semid i (u ∷ us) h = elim (Bool-cases (is_for pid semid i u)) [
  | inl e ↦ absurd (ground (arith, e, h))
  | inr e ↦ rw e (no_entries pid semid i us (ground (arith, e, h)))
]

lookup-update_set_same :
    (semid : ℕ) (f : SemSet → SemSet) (sets : List (ℕ × SemSet)) (s : SemSet)
    → lookup semid sets ≡ some s
    → lookup semid (update_set semid f sets) ≡ some (f s)
unfolding lookup update_set
lookup-update_set_same semid f [] s e = absurd (cc)
lookup-update_set_same semid f ((j, t) ∷ rest) s e = elim (Bool-cases (j == semid)) [
  | inl q ↦
      let z = rw q at e in rw (q, q) (ap (λ o. elim o [ none ↦ none | some x ↦ some (f x) ]) z)
  | inr q ↦ rw (q, q) (lookup-update_set_same semid f rest s (rw q at e))
]

lookup-update_set_other :
    (semid k : ℕ) (f : SemSet → SemSet) (sets : List (ℕ × SemSet))
    → k ≢ semid
    → lookup semid (update_set k f sets) ≡ lookup semid sets
unfolding lookup update_set
lookup-update_set_other semid k f [] n = refl
lookup-update_set_other semid k f ((j, t) ∷ rest) n =
    let same = lookup-update_set_other semid k f rest n in ground (arith, n, same)

-- What the walk needs of the set, and keeps.
pub record Shape (n : ℕ) (s : SemSet) : Type 0 where
  pub live : s.destroyed ≡ false
  pub count : s.nsems ≡ n
  pub whole : length s.sems ≡ n

-- What one adjustment makes of its value.
abbrev pub back : ℤ → ℕ → ℕ
back adj v = min (v + pos_part adj - neg_part adj) semvmx

undo_one_self :
    (pid now i n : ℕ) (adj : ℤ) (s : SemSet)
    → i < n
    → Shape n s
    → Shape n (undo_one pid now i adj s)
      × (val_at (undo_one pid now i adj s).sems i ≡ back adj (val_at s.sems i))
unfolding undo_one
undo_one_self pid now i n adj s lt h =
    let (sem, e) = get_elem?_total s.sems i (omega (arith, h.whole)) in
    let v = val_at-get_elem? s.sems i sem e in
    let l : leb s.nsems i ≡ false = ground (arith, lt, h.count) in
    let new : Semaphore = record sem { val = back adj sem.val; pid = pid } in
    rw (h.live, l, e, undo_one)
      (
        record { live = h.live; count = h.count; whole = length-set s.sems i new ∙ h.whole },
        val_at-set_self s.sems i new (omega (arith, h.whole)) ∙ ap (back adj) (sym v),
      )

undo_one_other :
    (pid now num i n : ℕ) (adj : ℤ) (s : SemSet)
    → num ≢ i
    → Shape n s
    → Shape n (undo_one pid now num adj s)
      × (val_at (undo_one pid now num adj s).sems i ≡ val_at s.sems i)
unfolding undo_one
undo_one_other pid now num i n adj s ne h =
    let P = λ (t : SemSet). Shape n t × (val_at t.sems i ≡ val_at s.sems i) in
    if_cases P (s.destroyed || leb s.nsems num) (λ _. (h, refl))
      λ _. elim (Option-cases (get_elem? s.sems num)) [
        | inl e ↦ rw e (h, refl)
        | inr (sem, e) ↦
            let new : Semaphore = record sem { val = back adj sem.val; pid = pid } in
            rw e (
              record {
                live = h.live;
                count = h.count;
                whole = length-set s.sems num new ∙ h.whole;
              },
              val_at-set_ne s.sems num i new ne,
            )
      ]

-- The set that the tables have under `semid` after a walk, and the value of its semaphore.
pub record Walked (semid i n v : ℕ) (sets : List (ℕ × SemSet)) : Type 0 where
  pub set_now : SemSet
  pub there : lookup semid sets ≡ some set_now
  pub shape : Shape n set_now
  pub value : val_at set_now.sems i ≡ v

module _ (pid now semid i n : ℕ) (inside : i < n) where
  -- One step of the walk, over a record that is not this semaphore's.
  step_other :
      (u : Undo) (v : ℕ) (sets : List (ℕ × SemSet))
      → is_for pid semid i u ≡ false
      → u.owner ≡ pid
      → Walked semid i n v sets
      → Walked semid i n v (update_set u.semid (undo_one pid now u.sem_num u.adj) sets)
  step_other u v sets e mine w =
      let f = undo_one pid now u.sem_num u.adj in
      elim (Bool-cases (u.semid == semid)) [
        | inl q ↦
            let same : semid ≡ u.semid = ground (arith, q) in
            let num_ne : u.sem_num ≢ i = λ z. ground (arith, e, q, z, mine) in
            let (shape, value) =
              undo_one_other pid now u.sem_num i n u.adj w.set_now num_ne w.shape in
            record {
              set_now = f w.set_now;
              there =
                  subst (λ k. lookup semid (update_set k f sets) ≡ some (f w.set_now)) same
                    (lookup-update_set_same semid f sets w.set_now w.there);
              shape = shape;
              value = value ∙ w.value;
            }
        | inr q ↦
            let ne : u.semid ≢ semid = λ z. ground (arith, q, z) in
            record {
              set_now = w.set_now;
              there = lookup-update_set_other semid u.semid f sets ne ∙ w.there;
              shape = w.shape;
              value = w.value;
            }
      ]

  step_self :
      (u : Undo) (v : ℕ) (sets : List (ℕ × SemSet))
      → is_for pid semid i u ≡ true
      → Walked semid i n v sets
      → Walked semid i n (back u.adj v) (update_set u.semid (undo_one pid now u.sem_num u.adj) sets)
  step_self u v sets e w =
      let at_set : semid ≡ u.semid = ground (arith, e) in
      let at_num : i ≡ u.sem_num = ground (arith, e) in
      let f = undo_one pid now i u.adj in
      let (shape, value) = undo_one_self pid now i n u.adj w.set_now inside w.shape in
      let here : Walked semid i n (back u.adj v) (update_set semid f sets) = record {
        set_now = f w.set_now;
        there = lookup-update_set_same semid f sets w.set_now w.there;
        shape = shape;
        value = value ∙ ap (back u.adj) w.value;
      } in
      subst
        (λ k.
          Walked semid i n (back u.adj v) (update_set k (undo_one pid now u.sem_num u.adj) sets))
        at_set
        (subst
          (λ k. Walked semid i n (back u.adj v) (update_set semid (undo_one pid now k u.adj) sets))
          at_num here)

  pub walk :
      (us : List Undo) (v : ℕ) (sets : List (ℕ × SemSet))
      → entries pid semid i us ≤ 1
      → (adj_of pid semid i us ≡ pos 0 → v ≤ semvmx)
      → Walked semid i n v sets
      → Walked semid i n (back (adj_of pid semid i us) v) (undo_all pid now us sets)
  unfolding undo_all entries adj_of
  walk [] v sets one fits w =
      let same : v ≡ back (pos 0) v = omega (arith, fits refl) in
      subst (λ k. Walked semid i n k sets) same w
  walk (u ∷ us) v sets one fits w = elim (Bool-cases (is_for pid semid i u)) [
    | inl e ↦
        let alone : entries pid semid i us ≡ 0 = ground (arith, e, one) in
        let none_left = no_entries pid semid i us alone in
        let go =
          λ (v' : ℕ) (le : v' ≤ semvmx) (sets' : List (ℕ × SemSet))
              (w' : Walked semid i n v' sets').
            let same : back (adj_of pid semid i us) v' ≡ v' =
              ap (λ a. back a v') none_left ∙ omega (arith, le) in
            subst (λ k. Walked semid i n k (undo_all pid now us sets')) same
              (walk us v' sets' (omega (arith, alone)) (λ _. le) w') in
        rw e (
          if_cases (λ s. Walked semid i n (back u.adj v) (undo_all pid now us s))
            (is_zero u.adj || not (u.owner == pid))
            (λ skip.
              let zero_adj : is_zero u.adj ≡ true = ground (arith, skip, e) in
              let gone = is_zero_pos u.adj zero_adj in
              let le : v ≤ semvmx = fits (rw e gone) in
              let same : v ≡ back u.adj v = sym (ap (λ a. back a v) gone ∙ omega (arith, le)) in
              subst (λ k. Walked semid i n k (undo_all pid now us sets)) same (go v le sets w))
            λ _.
              go (back u.adj v) (omega arith)
                (update_set u.semid (undo_one pid now u.sem_num u.adj) sets)
                (step_self u v sets e w))
    | inr e ↦ rw e (
        if_cases (λ s. Walked semid i n (back (adj_of pid semid i us) v) (undo_all pid now us s))
          (is_zero u.adj || not (u.owner == pid))
          (λ _. walk us v sets (ground (arith, one, e)) (λ z. fits (rw e z)) w)
          λ k.
            let mine : u.owner ≡ pid = ground (arith, k) in
            walk us v (update_set u.semid (undo_one pid now u.sem_num u.adj) sets)
              (ground (arith, one, e)) (λ z. fits (rw e z)) (step_other u v sets e mine w))
  ]
