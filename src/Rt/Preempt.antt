-- ===== src/Rt/Preempt.antt =====
-- petra/src/sched/sched_class/rt.rs: when a tick asks for another task.
use petra_os.Common.{
  ℕ, ◌-◌, ◌≤◌, ◌<◌, ◌≡◌, refl, ap, ◌↔◌, ◌⊎◌, inl, inr, Bool, true, false, not, List, [], ◌∷◌, arith,
  ◌==◌, ltb→lt, lt→ltb, if_cases, length,
}
use native.Mathlib.Decide.{dec_le}
use petra_os.Rt.{
  def_rt_timeslice_ns, RtEntity, Entities, SchedEntry, RtRunQueue, is_nil, level, preempts, is_rr,
  with_rt, charge_slice, reset_time_slice, tick,
}
use petra_os.Rt.Bitmap.{highest_prio_lem}
use petra_os.Rt.Consistent.{IsConsistent, above-nil, put_same}

-- A task waits at a level above `p`.
abbrev pub Outranked : ℕ → RtRunQueue → Type 0
Outranked p rq = (k : ℕ) × (p < k) × (0 < length (rq.prio_queues k))

preempts_iff : (p : ℕ) (rq : RtRunQueue) → IsConsistent rq → (preempts p rq ≡ true) ↔ Outranked p rq
preempts_iff p rq c = elim (highest_prio_lem rq c.marked (above-nil rq c)) [
  | inl (answer, nothing, empty) ↦
      rw (answer, preempts)
        ((λ t. absurd (cc)), λ (k, lo, held). absurd (omega (arith, held, ap length (empty k))))
  | inr (h, s) ↦
      rw (s.answer, preempts)
        (
          (λ t. (h, ltb→lt p h t, s.held)),
          λ (k, lo, held). elim (dec_le k h) [
            | yes le ↦ lt→ltb p h (omega arith)
            | no gt ↦ absurd (omega (arith, held, ap length (s.above k (omega arith))))
          ],
        )
]

-- The quantum of the entity runs out, and another task waits at its level.
abbrev pub Expired : Entities → SchedEntry → ℕ → RtRunQueue → Type 0
Expired entities current delta_ns rq =
    let here = entities current.entity in
    (is_rr here.policy ≡ true)
    × (here.rt.time_slice_ns ≤ delta_ns)
    × (0 < length (rq.prio_queues (level entities current)))

abbrev pub quantum : Entities → SchedEntry → ℕ
quantum entities e = (entities e.entity).rt.time_slice_ns

-- What a tick answers.
record Ticked (entities : Entities) (current : SchedEntry) (delta_ns : ℕ) (rq : RtRunQueue)
    (answer : Bool × Entities) : Type 0 where
  exact :
      (answer.0 ≡ true)
      ↔ (Outranked (level entities current) rq ⊎ Expired entities current delta_ns rq)
  keeps_quantum :
      answer.0 ≡ false
      → is_rr (entities current.entity).policy ≡ true
      → 0 < quantum answer.1 current

is_nil-held {ℓ} : {A : Type ℓ} (l : List A) → not (is_nil l) ≡ true → 0 < length l
is_nil-held [] h = absurd (cc)
is_nil-held (x ∷ l) h = omega arith

is_nil-empty {ℓ} : {A : Type ℓ} (l : List A) → not (is_nil l) ≡ false → ¬ (0 < length l)
is_nil-empty [] h held = absurd (omega arith)
is_nil-empty (x ∷ l) h held = absurd (cc)

goes_on :
    (entities after : Entities) (current : SchedEntry) (delta_ns : ℕ) (rq : RtRunQueue)
    → ¬ Outranked (level entities current) rq
    → ¬ Expired entities current delta_ns rq
    → (is_rr (entities current.entity).policy ≡ true → 0 < quantum after current)
    → Ticked entities current delta_ns rq (false, after)
goes_on entities after current delta_ns rq alone unexpired keeps = record {
  exact = (
    (λ e. absurd (cc)),
    λ why. elim why [ inl o ↦ absurd (alone o) | inr x ↦ absurd (unexpired x) ],
  );
  keeps_quantum = λ _. keeps;
}

quantum-with_rt :
    (entities : Entities) (e : SchedEntry) (rt : RtEntity)
    → quantum (with_rt e.entity rt entities) e ≡ rt.time_slice_ns
quantum-with_rt entities e rt =
    ap (λ s. s.rt.time_slice_ns)
      (put_same entities e.entity (record (entities e.entity) { rt = rt }))

tick-Ticked :
    (entities : Entities) (current : SchedEntry) (delta_ns : ℕ) (rq : RtRunQueue)
    → IsConsistent rq
    → Ticked entities current delta_ns rq (tick entities current delta_ns rq)
unfolding tick charge_slice reset_time_slice
tick-Ticked entities current delta_ns rq c =
    let p = level entities current in
    let here = entities current.entity in
    let left = here.rt.time_slice_ns - delta_ns in
    let charged = record here.rt { time_slice_ns = left } in
    let outranked = preempts_iff p rq c in
    let P = Ticked entities current delta_ns rq in
    if_cases P (preempts p rq)
      (λ t. record {
        exact = ((λ _. inl (outranked.0 t)), λ _. refl);
        keeps_quantum = λ e. absurd (cc);
      })
      λ t.
        let alone : ¬ Outranked p rq = λ o. let u = outranked.1 o in absurd (cc) in
        if_cases P (not (is_rr here.policy))
          (λ u.
            goes_on entities entities current delta_ns rq alone
              (λ x. let r = x.0 in absurd (ground (arith, u, r)))
              (λ r. absurd (ground (arith, u, r))))
          λ u.
            if_cases P (not (left == 0))
              (λ v.
                goes_on entities (with_rt current.entity charged entities) current delta_ns rq alone
                  (λ x. let r = x.1 in absurd (ground (arith, v, r)))
                  (λ r. ground (arith, v, quantum-with_rt entities current charged)))
              λ v.
                if_cases P (not (is_nil (rq.prio_queues p)))
                  (λ w.
                    let held = is_nil-held (rq.prio_queues p) w in
                    let out : here.rt.time_slice_ns ≤ delta_ns = ground (arith, v) in
                    let rr : is_rr here.policy ≡ true = ground (arith, u) in
                    record {
                      exact = ((λ _. inr (rr, out, held)), λ _. refl);
                      keeps_quantum = λ e. absurd (cc);
                    })
                  λ w.
                    let full = record charged { time_slice_ns = def_rt_timeslice_ns } in
                    goes_on entities (with_rt current.entity full entities) current delta_ns rq
                      alone (λ x. let held = x.2 in is_nil-empty (rq.prio_queues p) w held)
                      (λ r. omega (arith, quantum-with_rt entities current full))

-- In a consistent run queue a tick asks for another task exactly when a task waits at a higher
-- level, or the task is round robin, its quantum runs out within the time that is charged, and
-- another waits at its own level. A round-robin task that goes on has some quantum left.
pub tick_lem :
    (entities : Entities) (current : SchedEntry) (delta_ns : ℕ) (rq : RtRunQueue)
    → IsConsistent rq
    → let (resched, entities') = tick entities current delta_ns rq in
      ((resched ≡ true)
        ↔ (Outranked (level entities current) rq ⊎ Expired entities current delta_ns rq))
      × (resched ≡ false
          → is_rr (entities current.entity).policy ≡ true
          → 0 < quantum entities' current)
tick_lem entities current delta_ns rq c =
    let t = tick-Ticked entities current delta_ns rq c in (t.exact, t.keeps_quantum)
