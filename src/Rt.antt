-- ===== src/Rt.antt =====
-- petra/src/sched/sched_class/rt.rs: the run queue of the real-time class. A task is the number of
-- its allocation, and so is its scheduling entity, which `Entities` holds, since a queued entry and
-- whoever sets the parameters share it.
pub mod Bitmap
pub mod Consistent
pub mod Removal
pub mod Dequeue
pub mod Order
pub mod Preempt
mod Tests
use petra_os.Common.{
  ℕ, zero, suc, ◌+◌, ◌-◌, ◌*◌, ◌/◌, ◌%◌, ◌^◌, ◌≤◌, ◌<◌, min, max, bit_and, ◌≡◌, refl, sym, ap, ap₂,
  ◌∙◌, subst, ◌≢◌, ◌↔◌, ◌⊎◌, inl, inr, Bool, true, false, not, ◌&&◌, ◌||◌, Option, none, some, List,
  [], ◌∷◌, ◌++◌, map, append-nil, append_assoc, arith, ltb, leb, ◌==◌, if◌then◌else◌, ltb→lt,
  lt→ltb, leb→le, ==_iff, tests, Bool-cases, Option-cases, if_cases, if_true, if_false, length,
  get_elem?, set, take, drop, replicate, All, length-append, take-append-drop, length-take,
  length-drop, take_all, drop_all, length-set, length-replicate, get_elem?-set_self,
  get_elem?-set_ne, get_elem?_total, get_elem?_lt, All-append, All-left, All-right,
}
use petra_os.Common.Errno.{
  Errno, eperm, enoent, esrch, eintr, e2big, ebadf, eagain, eacces, efault, eexist, ebusy, einval,
  emfile, efbig, enospc, enomsg, enotty, eio, erange, epipe, eidrm, enomem, emsgsize, etimedout,
  Result, ok, err, ◌>>=◌,
}
use petra_os.Common.Wait.{wait_until, wait_until_keeps, wait_until_returns, wait_until_attempt}
use petra_os.Common.Int.{ℤ, pos, negsuc}

abbrev pub rt_prio_max : ℕ
rt_prio_max = 99

abbrev sched_rr : ℕ
sched_rr = 2

abbrev pub def_rt_timeslice_ns : ℕ
def_rt_timeslice_ns = 100000000

pub record RtEntity : Type 0 where
  pub priority : ℕ
  pub time_slice_ns : ℕ

-- `clamp(0, RT_PRIO_MAX)`
abbrev pub clamp_prio : ℤ → ℕ
clamp_prio (negsuc n) = 0
clamp_prio (pos n) = min n rt_prio_max

unfoldable pub new_entity : ℤ → RtEntity
new_entity priority = record { priority = clamp_prio priority; time_slice_ns = def_rt_timeslice_ns }

unfoldable pub set_priority : ℤ → RtEntity → RtEntity
set_priority prio e = record e { priority = clamp_prio prio }

unfoldable pub reset_time_slice : RtEntity → RtEntity
reset_time_slice e = record e { time_slice_ns = def_rt_timeslice_ns }

-- The flag is whether the quantum expired.
unfoldable pub charge_slice : ℕ → RtEntity → Bool × RtEntity
charge_slice delta_ns e =
    let updated = e.time_slice_ns - delta_ns in (updated == 0, record e { time_slice_ns = updated })

-- The fields that the real-time class reads.
pub record SchedEntity : Type 0 where
  pub policy : ℤ
  pub rt : RtEntity

abbrev pub Entities : Type 0
Entities = ℕ → SchedEntity

pub record SchedEntry : Type 0 where
  pub task : ℕ
  pub entity : ℕ
  pub arrival : ℕ
  pub is_idle : Bool

-- A write to one place of an array, or to one bit.
abbrev pub put {ℓ} : {A : Type ℓ} → (ℕ → A) → ℕ → A → ℕ → A
put f i v j = if j == i then v else f j

-- `prio_queues` by index, and `prio_bitmap` by bit.
pub record RtRunQueue : Type 0 where
  pub prio_queues : ℕ → List SchedEntry
  pub prio_bitmap : ℕ → Bool
  pub nr_running : ℕ

unfoldable pub new : RtRunQueue
new = record { prio_queues = λ p. []; prio_bitmap = λ p. false; nr_running = 0 }

unfoldable pub has_tasks : RtRunQueue → Bool
has_tasks rq = ltb 0 rq.nr_running

abbrev pub front {ℓ} : {A : Type ℓ} → List A → Option A
front [] = none
front (x ∷ xs) = some x

abbrev pub is_nil {ℓ} : {A : Type ℓ} → List A → Bool
is_nil [] = true
is_nil (x ∷ xs) = false

abbrev pub bits : ℕ
bits = 128

-- Whether the low `n` bits are all clear, and how many clear bits there are below bit `n`, downwards.
abbrev pub is_zero : ℕ → (ℕ → Bool) → Bool
is_zero zero bitmap = true
is_zero (suc n) bitmap = not (bitmap n) && is_zero n bitmap

abbrev pub leading_zeros : ℕ → (ℕ → Bool) → ℕ
leading_zeros zero bitmap = 0
leading_zeros (suc n) bitmap = let rest = leading_zeros n bitmap in if bitmap n then 0 else suc rest

unfoldable pub highest_prio : RtRunQueue → Option ℕ
highest_prio rq =
    if is_zero bits rq.prio_bitmap then none else some (127 - leading_zeros bits rq.prio_bitmap)

-- `clamp(1, 99)` of the priority that the entity has now.
unfoldable pub level : Entities → SchedEntry → ℕ
level entities entry = max 1 (min (entities entry.entity).rt.priority rt_prio_max)

unfoldable pub enqueue : Entities → SchedEntry → Bool → RtRunQueue → RtRunQueue
enqueue entities entry at_head rq =
    let prio = level entities entry in
    let q = rq.prio_queues prio in
    record {
      prio_queues = put rq.prio_queues prio (if at_head then entry ∷ q else q ++ (entry ∷ []));
      prio_bitmap = put rq.prio_bitmap prio true;
      nr_running = rq.nr_running + 1;
    }

-- `position` of the task, and `remove`.
abbrev pub remove_first : ℕ → List SchedEntry → Option (SchedEntry × List SchedEntry)
remove_first task [] = none
remove_first task (e ∷ l) =
    let rest = remove_first task l in
    if e.task == task
    then some (e, l)
    else elim rest [ none ↦ none | some (found, l') ↦ some (found, e ∷ l') ]

-- `q` is what the removal leaves at `prio`.
unfoldable pub removed : ℕ → List SchedEntry → RtRunQueue → RtRunQueue
removed prio q rq = record {
  prio_queues = put rq.prio_queues prio q;
  prio_bitmap = if is_nil q then put rq.prio_bitmap prio false else rq.prio_bitmap;
  nr_running = rq.nr_running - 1;
}

-- The loop over the priorities from `prio` down to 1.
unfoldable pub dequeue_from : ℕ → ℕ → RtRunQueue → Option SchedEntry × RtRunQueue
dequeue_from zero task rq = (none, rq)
dequeue_from (suc prio) task rq =
    let rest = dequeue_from prio task rq in
    if not (rq.prio_bitmap (suc prio))
    then rest
    else elim (remove_first task (rq.prio_queues (suc prio))) [
      | none ↦ rest
      | some (entry, q) ↦ (some entry, removed (suc prio) q rq)
    ]

unfoldable pub dequeue : ℕ → RtRunQueue → Option SchedEntry × RtRunQueue
dequeue task rq = if rq.nr_running == 0 then (none, rq) else dequeue_from 99 task rq

unfoldable pub pick_next : RtRunQueue → Option SchedEntry
pick_next rq = elim (highest_prio rq) [
  | none ↦ none
  | some highest ↦ front (rq.prio_queues highest)
]

abbrev pub is_rr : ℤ → Bool
is_rr (negsuc n) = false
is_rr (pos n) = n == sched_rr

-- `highest_prio` above `prio`
abbrev pub preempts : ℕ → RtRunQueue → Bool
preempts prio rq = elim (highest_prio rq) [ none ↦ false | some highest ↦ ltb prio highest ]

abbrev with_rt : ℕ → RtEntity → Entities → Entities
with_rt entity rt entities = put entities entity (record (entities entity) { rt = rt })

-- The flag is whether to reschedule.
unfoldable pub tick : Entities → SchedEntry → ℕ → RtRunQueue → Bool × Entities
tick entities current delta_ns rq =
    let prio = level entities current in
    let here = entities current.entity in
    let (expired, charged) = charge_slice delta_ns here.rt in
    if preempts prio rq
    then (true, entities)
    else if not (is_rr here.policy)
    then (false, entities)
    else if not expired
    then (false, with_rt current.entity charged entities)
    else if not (is_nil (rq.prio_queues prio))
    then (true, with_rt current.entity charged entities)
    else (false, with_rt current.entity (reset_time_slice charged) entities)

unfoldable pub yield_task : Entities → SchedEntry → RtRunQueue → RtRunQueue
yield_task entities current rq =
    let prio = level entities current in
    record {
      prio_queues = put rq.prio_queues prio (rq.prio_queues prio ++ (current ∷ []));
      prio_bitmap = put rq.prio_bitmap prio true;
      nr_running = rq.nr_running + 1;
    }
