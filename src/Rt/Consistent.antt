-- ===== src/Rt/Consistent.antt =====
-- petra/src/sched/sched_class/rt.rs: the bitmap and the count of a run queue agree with its queues.
use petra_os.Common.{
  ℕ, suc, ◌+◌, ◌≤◌, ◌<◌, ◌≡◌, refl, sym, ap, subst, inl, inr, Bool, true, false, List, [], ◌∷◌,
  ◌++◌, arith, ◌==◌, if◌then◌else◌, ==_iff, Bool-cases, if_cases, if_true, length, length-append,
}
use petra_os.Rt.{
  Entities, SchedEntry, RtRunQueue, put, new, is_nil, level, enqueue, removed, yield_task,
}
use petra_os.Rt.Bitmap.{tasks, in_order-nil, length-put, nil-cases, Marked}

-- A bit is set exactly when its level has a task, tasks are at the levels from 1 to 99 only, and
-- the count is their number.
pub record IsConsistent (rq : RtRunQueue) : Type 0 where
  pub marked : Marked rq.prio_bitmap rq.prio_queues
  pub ranged : (p : ℕ) → 0 < length (rq.prio_queues p) → (1 ≤ p) × (p ≤ 99)
  pub counted : rq.nr_running ≡ length (tasks rq)

pub new-IsConsistent : IsConsistent new
unfolding new
new-IsConsistent = record {
  marked = λ p. ((λ e. absurd (cc)), λ h. absurd (omega arith));
  ranged = λ p h. absurd (omega arith);
  counted = sym (ap length (in_order-nil {A = SchedEntry} 100 (λ p. []) (λ p. refl)));
}

pub level_range :
    (entities : Entities) (e : SchedEntry) → (1 ≤ level entities e) × (level entities e ≤ 99)
unfolding level
level_range entities e = (omega arith, omega arith)

pub put_same {ℓ} : {A : Type ℓ} (f : ℕ → A) (i : ℕ) (v : A) → put f i v i ≡ v
put_same f i v = if_true (i == i) (f i) ((==_iff i i).1 refl)

removed-Marked :
    (bitmap : ℕ → Bool) (queues : ℕ → List SchedEntry)
    → Marked bitmap queues
    → (p : ℕ) → 0 < length (queues p)
    → (q : List SchedEntry)
    → Marked (if is_nil q then put bitmap p false else bitmap) (put queues p q)
removed-Marked bitmap queues marked p held [] j = elim (Bool-cases (j == p)) [
  | inl t ↦ rw t ((λ e. absurd (cc)), λ h. absurd (omega arith))
  | inr t ↦ rw t (marked j)
]
removed-Marked bitmap queues marked p held (x ∷ q) j = elim (Bool-cases (j == p)) [
  | inl t ↦
      let same : p ≡ j = ground (arith, t) in
      rw t ((λ _. omega arith), λ _. subst (λ i. bitmap i ≡ true) same ((marked p).1 held))
  | inr t ↦ rw t (marked j)
]

module _ (rq : RtRunQueue) (c : IsConsistent rq) where
  -- One more task at a level.
  more-IsConsistent :
      (p : ℕ) (q : List SchedEntry)
      → 1 ≤ p
      → p ≤ 99
      → length q ≡ suc (length (rq.prio_queues p))
      → IsConsistent (record {
        prio_queues = put rq.prio_queues p q;
        prio_bitmap = put rq.prio_bitmap p true;
        nr_running = rq.nr_running + 1;
      })
  more-IsConsistent p q lo hi size = record {
    marked = λ j. elim (Bool-cases (j == p)) [
      | inl t ↦ rw t ((λ _. omega (arith, size)), (λ _. refl))
      | inr t ↦ rw t (c.marked j)
    ];
    ranged = λ j. elim (Bool-cases (j == p)) [
      | inl t ↦ λ h. (ground (arith, t), ground (arith, t))
      | inr t ↦ rw t (c.ranged j)
    ];
    counted = omega (arith, c.counted, size, length-put 100 p q rq.prio_queues (omega arith));
  }

  pub removed-IsConsistent :
      (p : ℕ) (q : List SchedEntry)
      → 1 ≤ p
      → p ≤ 99
      → suc (length q) ≡ length (rq.prio_queues p)
      → IsConsistent (removed p q rq)
  unfolding removed
  removed-IsConsistent p q lo hi size = record {
    marked = removed-Marked rq.prio_bitmap rq.prio_queues c.marked p (omega (arith, size)) q;
    ranged = λ j. elim (Bool-cases (j == p)) [
      | inl t ↦ λ h. (ground (arith, t), ground (arith, t))
      | inr t ↦ rw t (c.ranged j)
    ];
    counted = omega (arith, c.counted, size, length-put 100 p q rq.prio_queues (omega arith));
  }

  pub enqueue-IsConsistent :
      (entities : Entities) (e : SchedEntry) (at_head : Bool)
      → IsConsistent (enqueue entities e at_head rq)
  unfolding enqueue
  enqueue-IsConsistent entities e at_head =
      let p = level entities e in
      let q = rq.prio_queues p in
      let (lo, hi) = level_range entities e in
      more-IsConsistent p (if at_head then e ∷ q else q ++ (e ∷ [])) lo hi (
        if_cases (λ (l : List SchedEntry). length l ≡ suc (length q)) at_head (λ _. refl)
          (λ _. omega (arith, length-append q (e ∷ []))))

  pub yield_task-IsConsistent :
      (entities : Entities) (e : SchedEntry) → IsConsistent (yield_task entities e rq)
  unfolding yield_task
  yield_task-IsConsistent entities e =
      let p = level entities e in
      let q = rq.prio_queues p in
      let (lo, hi) = level_range entities e in
      more-IsConsistent p (q ++ (e ∷ [])) lo hi (omega (arith, length-append q (e ∷ [])))

pub above-nil : (rq : RtRunQueue) → IsConsistent rq → (p : ℕ) → 100 ≤ p → rq.prio_queues p ≡ []
above-nil rq c p h = elim (nil-cases (rq.prio_queues p)) [
  | inl e ↦ e
  | inr held ↦ absurd (omega (arith, h, (c.ranged p held).1))
]
