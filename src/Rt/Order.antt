-- ===== src/Rt/Order.antt =====
-- petra/src/sched/sched_class/rt.rs: a run queue is the list of its tasks, by level and then by turn.
use petra_os.Common.{
  ℕ, zero, suc, ◌+◌, ◌-◌, ◌≤◌, ◌≡◌, refl, sym, ap, ap₂, ◌∙◌, inl, inr, Bool, true, Option, none,
  some, List, [], ◌∷◌, ◌++◌, arith, ◌==◌, if◌then◌else◌, Bool-cases, if_false,
}
use petra_os.Rt.{
  Entities, SchedEntry, RtRunQueue, put, new, front, level, enqueue, remove_first, removed,
  dequeue_from, dequeue, yield_task, pick_next,
}
use petra_os.Rt.Bitmap.{in_order, tasks, in_order-add, in_order-put, pick_next-front}
use petra_os.Rt.Consistent.{IsConsistent, above-nil, put_same, level_range, removed-IsConsistent}
use petra_os.Rt.Removal.{length-remove_first}
use petra_os.Rt.Dequeue.{dequeue_from_lem}
use petra_os.Rt.Consistent.{new-IsConsistent, enqueue-IsConsistent, yield_task-IsConsistent}

-- The tasks at the levels above `p`, and at those below.
abbrev pub higher : ℕ → RtRunQueue → List SchedEntry
higher p rq = in_order (99 - p) (λ i. rq.prio_queues (i + suc p))

abbrev pub lower : ℕ → RtRunQueue → List SchedEntry
lower p rq = in_order p rq.prio_queues

in_order-same :
    (n : ℕ) (f g : ℕ → List SchedEntry) → ((i : ℕ) → f i ≡ g i) → in_order n f ≡ in_order n g
in_order-same zero f g h = refl
in_order-same (suc n) f g h = ap₂ (λ a b. a ++ b) (h n) (in_order-same n f g h)

tasks-level :
    (p : ℕ) (rq : RtRunQueue) → p ≤ 99 → tasks rq ≡ higher p rq ++ (rq.prio_queues p ++ lower p rq)
tasks-level p rq hi =
    let split : 100 ≡ (99 - p) + suc p = omega arith in
    ap (λ n. in_order n rq.prio_queues) split ∙ in_order-add (99 - p) (suc p) rq.prio_queues

tasks-put :
    (p : ℕ) (q : List SchedEntry) (rq : RtRunQueue) (bitmap : ℕ → Bool) (count : ℕ)
    → p ≤ 99
    → tasks
        (record { prio_queues = put rq.prio_queues p q; prio_bitmap = bitmap; nr_running = count })
      ≡ higher p rq ++ (q ++ lower p rq)
tasks-put p q rq bitmap count hi =
    tasks-level p
      (record { prio_queues = put rq.prio_queues p q; prio_bitmap = bitmap; nr_running = count }) hi
    ∙ ap₂ (λ a b. a ++ b)
        (in_order-same (99 - p) (λ i. put rq.prio_queues p q (i + suc p))
          (λ i. rq.prio_queues (i + suc p)) (λ i. if_false (i + suc p == p) q (ground arith)))
        (ap₂ (λ a b. a ++ b) (put_same rq.prio_queues p q)
          (in_order-put p p q rq.prio_queues (omega arith)))

some-pair :
    (x y : SchedEntry) (l r : List SchedEntry)
    → ◌≡◌ {A = Option (SchedEntry × List SchedEntry)} (some (x, l)) (some (y, r))
    → (◌≡◌ {A = Option SchedEntry} (some x) (some y)) × (l ≡ r)
some-pair x y l r h = (cc, cc)

module _ (task : ℕ) (rq : RtRunQueue) (c : IsConsistent rq) where
  -- `dequeue` is the scan from level 99, which covers every level that has a task.
  dequeue-scan : dequeue task rq ≡ dequeue_from 99 task rq
  unfolding dequeue
  dequeue-scan = elim (Bool-cases (rq.nr_running == 0)) [
    | inl t ↦ elim (dequeue_from_lem task rq c 99) [
      | inl (r, nothing) ↦ rw t (sym r)
      | inr d ↦ absurd (
          ground (
            arith,
            t,
            c.counted,
            length-remove_first task (tasks rq) (in_order 100 (put rq.prio_queues d.at d.rest))
                d.entry d.whole,
          ))
    ]
    | inr t ↦ rw t refl
  ]

  dequeue-none : remove_first task (tasks rq) ≡ none → dequeue task rq ≡ (none, rq)
  dequeue-none h = elim (dequeue_from_lem task rq c 99) [
    | inl (r, nothing) ↦ dequeue-scan ∙ r
    | inr d ↦ absurd (let w = d.whole in cc)
  ]

  dequeue-some :
      (e : SchedEntry) (l : List SchedEntry)
      → remove_first task (tasks rq) ≡ some (e, l)
      → ((dequeue task rq).0 ≡ some e) × (tasks (dequeue task rq).1 ≡ l)
  dequeue-some e l h = elim (dequeue_from_lem task rq c 99) [
    | inl (r, nothing) ↦ absurd (cc)
    | inr d ↦
        let same =
          some-pair d.entry e (in_order 100 (put rq.prio_queues d.at d.rest)) l (sym d.whole ∙ h) in
        let left : tasks (removed d.at d.rest rq) ≡ in_order 100 (put rq.prio_queues d.at d.rest) =
          unfold removed in refl in
        (
          ap (λ r. r.0) (dequeue-scan ∙ d.result) ∙ same.0,
          ap (λ r. tasks r.1) (dequeue-scan ∙ d.result) ∙ left ∙ same.1,
        )
  ]

  dequeue-IsConsistent : IsConsistent (dequeue task rq).1
  dequeue-IsConsistent = elim (dequeue_from_lem task rq c 99) [
    | inl (r, nothing) ↦ rw (dequeue-scan, r) c
    | inr d ↦
        rw (dequeue-scan, d.result)
          (removed-IsConsistent rq c d.at d.rest d.low d.high
            (length-remove_first task (rq.prio_queues d.at) d.rest d.entry d.taken))
  ]

-- A run queue agrees with itself when a bit is set exactly when its level has a task, tasks are at
-- the levels from 1 to 99 only, and the count is their number. The new run queue does, and every
-- operation keeps it so.
pub calls-IsConsistent :
    (entities : Entities) (e : SchedEntry) (at_head : Bool) (task : ℕ) (rq : RtRunQueue)
    → IsConsistent rq
    → IsConsistent new
      × IsConsistent (enqueue entities e at_head rq)
      × IsConsistent (yield_task entities e rq)
      × IsConsistent (dequeue task rq).1
calls-IsConsistent entities e at_head task rq c = (
  new-IsConsistent,
  enqueue-IsConsistent rq c entities e at_head,
  yield_task-IsConsistent rq c entities e,
  dequeue-IsConsistent task rq c,
)

-- A consistent run queue is the list of its tasks, the higher levels first and each level by turn.
-- The task that is picked is the first of the list. A task that is enqueued goes behind all of the
-- higher levels and before all of the lower, at the head or at the end of its own, and one that
-- yields goes to the end of its own. A dequeue takes the first entry with the task out of the list,
-- whatever level its entity asks for now, and changes nothing when there is none.
pub order_lem :
    (entities : Entities) (e : SchedEntry) (at_head : Bool) (task : ℕ) (rq : RtRunQueue)
    → IsConsistent rq
    → let p = level entities e in
      let q = rq.prio_queues p in
      (pick_next rq ≡ front (tasks rq))
      × (tasks rq ≡ higher p rq ++ (q ++ lower p rq))
      × (tasks (enqueue entities e at_head rq)
          ≡ higher p rq ++ ((if at_head then e ∷ q else q ++ (e ∷ [])) ++ lower p rq))
      × (tasks (yield_task entities e rq) ≡ higher p rq ++ ((q ++ (e ∷ [])) ++ lower p rq))
      × (remove_first task (tasks rq) ≡ none → dequeue task rq ≡ (none, rq))
      × ((d : SchedEntry) (l : List SchedEntry)
          → remove_first task (tasks rq) ≡ some (d, l)
          → ((dequeue task rq).0 ≡ some d) × (tasks (dequeue task rq).1 ≡ l))
unfolding enqueue yield_task
order_lem entities e at_head task rq c =
    let p = level entities e in
    let q = rq.prio_queues p in
    let hi = (level_range entities e).1 in
    let bitmap = put rq.prio_bitmap p true in
    (
      pick_next-front rq c.marked (above-nil rq c),
      tasks-level p rq hi,
      tasks-put p (if at_head then e ∷ q else q ++ (e ∷ [])) rq bitmap (rq.nr_running + 1) hi,
      tasks-put p (q ++ (e ∷ [])) rq bitmap (rq.nr_running + 1) hi,
      dequeue-none task rq c,
      dequeue-some task rq c,
    )
