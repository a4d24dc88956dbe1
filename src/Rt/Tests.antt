-- ===== src/Rt/Tests.antt =====
-- petra/src/sched/sched_class/rt.rs: runs of the model, and the theorems at a queue of four tasks.
use petra_os.Common.{
  ℕ, zero, suc, ◌<◌, ◌≡◌, refl, ◌↔◌, ◌⊎◌, true, false, none, some, List, [], ◌∷◌, ◌++◌, map,
  if◌then◌else◌,
}
use petra_os.Common.Int.{pos}
use petra_os.Rt.{
  Entities, SchedEntry, RtRunQueue, new_entity, new, front, level, enqueue, remove_first, dequeue,
  yield_task, pick_next, is_rr, highest_prio, charge_slice, tick,
}
use petra_os.Rt.Bitmap.{tasks}
use petra_os.Rt.Consistent.{IsConsistent, new-IsConsistent, enqueue-IsConsistent}
use petra_os.Rt.Preempt.{Outranked, Expired, quantum, tick_lem}
use petra_os.Rt.Order.{higher, lower, calls-IsConsistent, order_lem}

-- Entity 0 asks for priority 10, entity 1 for 20, both round robin, and entity 2 for more than there is.
abbrev entities : Entities
entities zero = record { policy = pos 2; rt = new_entity (pos 10) }
entities (suc zero) = record { policy = pos 2; rt = new_entity (pos 20) }
entities (suc (suc n)) = record { policy = pos 1; rt = new_entity (pos 500) }

abbrev entry : ℕ → ℕ → SchedEntry
entry task entity = record { task = task; entity = entity; arrival = 0; is_idle = false }

abbrev three_tasks : RtRunQueue
three_tasks =
    enqueue entities (entry 7 0) true
      (enqueue entities (entry 6 1) false (enqueue entities (entry 5 0) false new))

three_tasks-IsConsistent : IsConsistent three_tasks
three_tasks-IsConsistent =
    let one = enqueue-IsConsistent new new-IsConsistent entities (entry 5 0) false in
    let two =
      enqueue-IsConsistent (enqueue entities (entry 5 0) false new) one entities (entry 6 1)
        false in
    enqueue-IsConsistent
      (enqueue entities (entry 6 1) false (enqueue entities (entry 5 0) false new)) two entities
      (entry 7 0) true

in_turn : map (λ (e : SchedEntry). e.task) (tasks three_tasks) ≡ 6 ∷ 7 ∷ 5 ∷ []
unfolding new enqueue level new_entity
in_turn = refl

clamped : level entities (entry 8 2) ≡ 99
unfolding level new_entity
clamped = refl

picks_highest : pick_next three_tasks ≡ some (entry 6 1)
unfolding new enqueue level new_entity pick_next highest_prio
picks_highest = refl

-- Task 7 is preempted by task 6 whatever its quantum.
preempted : (tick entities (entry 7 0) 0 three_tasks).0 ≡ true
unfolding new enqueue level new_entity tick highest_prio charge_slice
preempted = refl

calls-IsConsistent_example :
    IsConsistent new
    × IsConsistent (enqueue entities (entry 8 2) true three_tasks)
    × IsConsistent (yield_task entities (entry 8 2) three_tasks)
    × IsConsistent (dequeue 7 three_tasks).1
calls-IsConsistent_example =
    calls-IsConsistent entities (entry 8 2) true 7 three_tasks three_tasks-IsConsistent

order_lem_example :
    let e = entry 8 0 in
    let p = level entities e in
    let q = three_tasks.prio_queues p in
    (pick_next three_tasks ≡ front (tasks three_tasks))
    × (tasks three_tasks ≡ higher p three_tasks ++ (q ++ lower p three_tasks))
    × (tasks (enqueue entities e false three_tasks)
        ≡ higher p three_tasks ++ ((if false then e ∷ q else q ++ (e ∷ [])) ++ lower p three_tasks))
    × (tasks (yield_task entities e three_tasks)
        ≡ higher p three_tasks ++ ((q ++ (e ∷ [])) ++ lower p three_tasks))
    × (remove_first 7 (tasks three_tasks) ≡ none → dequeue 7 three_tasks ≡ (none, three_tasks))
    × ((d : SchedEntry) (l : List SchedEntry)
        → remove_first 7 (tasks three_tasks) ≡ some (d, l)
        → ((dequeue 7 three_tasks).0 ≡ some d) × (tasks (dequeue 7 three_tasks).1 ≡ l))
order_lem_example = order_lem entities (entry 8 0) false 7 three_tasks three_tasks-IsConsistent

-- Task 6, alone at its level, whose quantum runs out.
tick_lem_example :
    let (resched, entities') = tick entities (entry 6 1) 100000000 three_tasks in
    ((resched ≡ true) ↔ (
      Outranked (level entities (entry 6 1)) three_tasks
      ⊎ Expired entities (entry 6 1) 100000000 three_tasks))
    × (resched ≡ false → is_rr (entities 1).policy ≡ true → 0 < quantum entities' (entry 6 1))
tick_lem_example = tick_lem entities (entry 6 1) 100000000 three_tasks three_tasks-IsConsistent
