-- ===== src/Rt/Dequeue.antt =====
-- petra/src/sched/sched_class/rt.rs: the scan for a task from the highest level down.
use petra_os.Common.{
  ℕ, zero, suc, ◌≤◌, ◌≡◌, refl, sym, ap, ap₂, ◌∙◌, ◌⊎◌, inl, inr, true, none, some, List, [], ◌++◌,
  arith, ◌==◌, Bool-cases, Option-cases, if_false,
}
use petra_os.Rt.{SchedEntry, RtRunQueue, put, remove_first, removed, dequeue_from}
use petra_os.Rt.Bitmap.{in_order, in_order-put, nil-cases}
use petra_os.Rt.Consistent.{IsConsistent, put_same}
use petra_os.Rt.Removal.{after, length-remove_first, remove_first-left, remove_first-right}

-- What the loop from level `n` down did: the entry and what it left of its level, when there is one.
pub record Dequeued (n task : ℕ) (rq : RtRunQueue) : Type 0 where
  pub entry : SchedEntry
  pub at : ℕ
  pub rest : List SchedEntry
  pub low : 1 ≤ at
  pub high : at ≤ n
  pub taken : remove_first task (rq.prio_queues at) ≡ some (entry, rest)
  pub result : dequeue_from n task rq ≡ (some entry, removed at rest rq)
  pub whole :
      remove_first task (in_order (suc n) rq.prio_queues)
      ≡ some (entry, in_order (suc n) (put rq.prio_queues at rest))

module _ (task : ℕ) (rq : RtRunQueue) (c : IsConsistent rq) where
  bottom-nil : rq.prio_queues 0 ≡ []
  bottom-nil = elim (nil-cases (rq.prio_queues 0)) [
    | inl e ↦ e
    | inr h ↦ absurd (omega (arith, (c.ranged 0 h).0))
  ]

  -- A level whose bit is clear has no task to look for.
  skip :
      (p : ℕ)
      → remove_first task (rq.prio_queues (suc p)) ≡ none
      → dequeue_from (suc p) task rq ≡ dequeue_from p task rq
  unfolding dequeue_from
  skip p e = elim (Bool-cases (rq.prio_bitmap (suc p))) [
    | inl t ↦ rw (t, e) refl
    | inr t ↦ rw t refl
  ]

  hit :
      (p : ℕ) (e : SchedEntry) (q : List SchedEntry)
      → remove_first task (rq.prio_queues (suc p)) ≡ some (e, q)
      → dequeue_from (suc p) task rq ≡ (some e, removed (suc p) q rq)
  unfolding dequeue_from
  hit p e q h =
      let size = length-remove_first task (rq.prio_queues (suc p)) q e h in
      let set_bit : rq.prio_bitmap (suc p) ≡ true = (c.marked (suc p)).1 (omega (arith, size)) in
      rw (set_bit, h) refl

  pub dequeue_from_lem :
      (n : ℕ)
      → ((dequeue_from n task rq ≡ (none, rq))
          × (remove_first task (in_order (suc n) rq.prio_queues) ≡ none))
        ⊎ Dequeued n task rq
  dequeue_from_lem zero = inl (unfold dequeue_from in refl, rw bottom-nil refl)
  dequeue_from_lem (suc n) =
      let q = rq.prio_queues (suc n) in
      let lower = in_order (suc n) rq.prio_queues in
      elim (Option-cases (remove_first task q)) [
        | inr ((e, rest), p) ↦ inr (record {
          entry = e;
          at = suc n;
          rest = rest;
          low = omega arith;
          high = omega arith;
          taken = p;
          result = hit n e rest p;
          whole =
              remove_first-left task q rest lower e p
              ∙ ap (λ l. some (e, l))
                  (ap₂ (λ a b. a ++ b) (sym (put_same rq.prio_queues (suc n) rest))
                    (sym (in_order-put (suc n) (suc n) rest rq.prio_queues (omega arith))));
        })
        | inl p ↦ elim (dequeue_from_lem n) [
          | inl (r, nothing) ↦
              inl (skip n p ∙ r, remove_first-right task q lower p ∙ ap (after q) nothing)
          | inr d ↦ inr (record {
            entry = d.entry;
            at = d.at;
            rest = d.rest;
            low = d.low;
            high = omega (arith, d.high);
            taken = d.taken;
            result = skip n p ∙ d.result;
            whole =
                remove_first-right task q lower p
                ∙ ap (after q) d.whole
                ∙ ap (λ a. some (d.entry, a ++ in_order (suc n) (put rq.prio_queues d.at d.rest)))
                    (sym (if_false (suc n == d.at) d.rest (ground (arith, d.high))));
          })
        ]
      ]
