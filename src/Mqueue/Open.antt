-- ===== src/Mqueue/Open.antt =====
-- petra/src/ipc/mqueue.rs: what opening and unlinking a queue does.
use petra_os.Common.{
  ℕ, ◌*◌, ◌/◌, ◌^◌, ◌≤◌, ◌<◌, bit_and, ◌≡◌, refl, ◌≢◌, inl, inr, Bool, true, false, ◌||◌, Option,
  none, some, List, [], ◌∷◌, arith, ltb, ◌==◌, if◌then◌else◌, Bool-cases, Option-cases, length,
  get_elem?, All, length-append, All-append,
}
use petra_os.Common.Errno.{eacces, ok, err}
use petra_os.Mqueue.{
  default_maxmsg, default_msgsize, mq_max_msgsize, mq_max_msg_count, mq_max_queue_bytes,
  mq_name_max, Mqueue, capacity,
}
use petra_os.Mqueue.Bounds.{IsValid}
use petra_os.Mqueue.Registry.{
  o_creat, has, Cred, str_eq, Registry, lookup, forget, find, queue_unlink, access_permits,
  bad_attrs, fresh, create, open_new, queue_open,
}

str_eq_refl : (s : List ℕ) → str_eq s s ≡ true
str_eq_refl [] = refl
str_eq_refl (x ∷ xs) = ground (arith, str_eq_refl xs)

str_eq-eq : (s t : List ℕ) → str_eq s t ≡ true → s ≡ t
str_eq-eq [] [] h = refl
str_eq-eq [] (y ∷ ys) h = absurd (cc)
str_eq-eq (x ∷ xs) [] h = absurd (cc)
str_eq-eq (x ∷ xs) (y ∷ ys) h = ground (arith, str_eq-eq xs ys)

lookup-forget :
    (name other : List ℕ) (names : List (List ℕ × ℕ))
    → lookup other (forget name names) ≡ (if str_eq name other then none else lookup other names)
unfolding lookup forget
lookup-forget name other [] = ground arith
lookup-forget name other ((k, i) ∷ rest) = ground (
  arith,
  lookup-forget name other rest,
  str_eq-eq k name,
  str_eq-eq k other,
  str_eq-eq name other,
  str_eq_refl name,
  str_eq_refl other,
  str_eq_refl k,
)

-- The table refers only to queues that exist, and every queue is valid and within the limits that
-- the module's header promises.
pub record IsSound (reg : Registry) : Type 0 where
  pub bound : (name : List ℕ) (i : ℕ) → lookup name reg.names ≡ some i → i < length reg.queues
  pub limits :
      All
        (λ q.
          IsValid q
          × (1 ≤ q.maxmsg)
          × (q.maxmsg ≤ mq_max_msg_count)
          × (1 ≤ q.msgsize)
          × (q.msgsize ≤ mq_max_msgsize)
          × (capacity q ≤ mq_max_queue_bytes))
        reg.queues

good_attrs :
    (maxmsg msgsize : ℕ)
    → bad_attrs maxmsg msgsize ≡ false
    → (1 ≤ maxmsg)
      × (maxmsg ≤ mq_max_msg_count)
      × (1 ≤ msgsize)
      × (msgsize ≤ mq_max_msgsize)
      × (maxmsg * msgsize ≤ mq_max_queue_bytes)
good_attrs maxmsg msgsize h = (ground arith, ground arith, ground arith, ground arith, ground arith)

lookup-create :
    (c : Cred) (name other : List ℕ) (mode maxmsg msgsize : ℕ) (reg : Registry)
    → lookup other (create (some c) name mode maxmsg msgsize reg).1.names
      ≡ (if str_eq name other then some (length reg.queues) else lookup other reg.names)
unfolding create lookup
lookup-create c name other mode maxmsg msgsize reg =
    ground (arith, lookup-forget name other reg.names)

create-IsSound :
    (c : Cred) (name : List ℕ) (mode maxmsg msgsize : ℕ) (reg : Registry)
    → bad_attrs maxmsg msgsize ≡ false
    → IsSound reg
    → IsSound (create (some c) name mode maxmsg msgsize reg).1
unfolding create
create-IsSound c name mode maxmsg msgsize reg good s =
    let g = good_attrs maxmsg msgsize good in
    record {
      bound = λ other i e.
          let l = lookup-create c name other mode maxmsg msgsize reg in
          elim (Bool-cases (str_eq name other)) [
            | inl y ↦
                let k : i ≡ length reg.queues = ground (arith, e, l, y) in
                omega (arith, k, length-append reg.queues (fresh c mode maxmsg msgsize ∷ []))
            | inr n ↦
                let k = s.bound other i (ground (arith, e, l, n)) in
                omega (arith, k, length-append reg.queues (fresh c mode maxmsg msgsize ∷ []))
          ];
      limits = All-append _ reg.queues _ s.limits (
        (
          (record {
            counted = refl;
            few = omega arith;
            small = omega arith;
            machine = omega (arith, g.4);
            prios = tt;
          }),
          g.0,
          g.1,
          g.2,
          g.3,
          g.4,
        ),
        tt,
      );
    }

queue_unlink-IsSound :
    (name : List ℕ) (reg : Registry) → IsSound reg → IsSound (queue_unlink name reg).1
unfolding queue_unlink
queue_unlink-IsSound name reg s = elim (Option-cases (find name reg)) [
  | inl e ↦ rw (e, queue_unlink) s
  | inr (i, e) ↦
      rw (e, queue_unlink)
        (record {
          bound =
              λ other j h. s.bound other j (ground (arith, h, lookup-forget name other reg.names));
          limits = s.limits;
        })
]

create_any-IsSound :
    (cred : Option Cred) (name : List ℕ) (mode maxmsg msgsize : ℕ) (reg : Registry)
    → bad_attrs maxmsg msgsize ≡ false
    → IsSound reg
    → IsSound (create cred name mode maxmsg msgsize reg).1
create_any-IsSound none name mode maxmsg msgsize reg good s = unfold create in s
create_any-IsSound (some c) name mode maxmsg msgsize reg good s =
    create-IsSound c name mode maxmsg msgsize reg good s

open_new-IsSound :
    (cred : Option Cred) (name : List ℕ) (oflags mode : ℕ) (use_attrs : Bool)
    (attr_maxmsg attr_msgsize : ℕ) (reg : Registry)
    → IsSound reg
    → IsSound (open_new cred name oflags mode use_attrs attr_maxmsg attr_msgsize reg).1
unfolding open_new
open_new-IsSound cred name oflags mode use_attrs attr_maxmsg attr_msgsize reg s =
    let maxmsg = if use_attrs then attr_maxmsg else default_maxmsg in
    let msgsize = if use_attrs then attr_msgsize else default_msgsize in
    elim (Bool-cases (has oflags o_creat)) [
      | inl c ↦ elim (Bool-cases (bad_attrs maxmsg msgsize)) [
        | inl bad ↦ rw (c, bad) s
        | inr good ↦ rw (c, good) (create_any-IsSound cred name mode maxmsg msgsize reg good s)
      ]
      | inr c ↦ rw c s
    ]

-- Opening and unlinking keep the table sound: every name leads to a queue that exists, and every
-- queue, open or unlinked, is valid, holds 1 to MQ_MAX_MSG_COUNT messages of 1 to MQ_MAX_MSGSIZE
-- bytes, and at most MQ_MAX_QUEUE_BYTES in all.
pub registry-IsSound :
    (cred : Option Cred) (name : List ℕ) (oflags mode : ℕ) (use_attrs : Bool)
    (attr_maxmsg attr_msgsize : ℕ) (reg : Registry)
    → IsSound reg
    → IsSound (queue_open cred name oflags mode use_attrs attr_maxmsg attr_msgsize reg).1
      × IsSound (queue_unlink name reg).1
unfolding queue_open
registry-IsSound cred name oflags mode use_attrs attr_maxmsg attr_msgsize reg s = (
  elim (Bool-cases (length name == 0 || ltb mq_name_max (length name))) [
    | inl bad ↦ rw bad s
    | inr good ↦ elim (Option-cases (find name reg)) [
      | inl e ↦
          rw (good, e)
            (open_new-IsSound cred name oflags mode use_attrs attr_maxmsg attr_msgsize reg s)
      | inr (i, e) ↦ rw (good, e) s
    ]
  ],
  queue_unlink-IsSound name reg s,
)

-- The access check reads only the lowest flag bit to see whether the caller wants to write, and the
-- value O_RDWR is 2: so opening an existing queue for reading and writing needs the permission to
-- read only. For an owner who may read but not write, O_WRONLY is refused and O_RDWR is granted.
pub queue_open_rdwr :
    (c : Cred) (name : List ℕ) (mode : ℕ) (use_attrs : Bool) (maxmsg msgsize i : ℕ) (q : Mqueue)
    (reg : Registry)
    → 1 ≤ length name
    → length name ≤ mq_name_max
    → find name reg ≡ some i
    → get_elem? reg.queues i ≡ some q
    → c.uid ≢ 0
    → c.uid ≡ q.owner_uid
    → bit_and (q.mode / 2 ^ 6) 7 ≡ 4
    → ((queue_open (some c) name 2 mode use_attrs maxmsg msgsize reg).0 ≡ ok (i, false))
      × ((queue_open (some c) name 1 mode use_attrs maxmsg msgsize reg).0 ≡ err eacces)
unfolding queue_open access_permits
queue_open_rdwr c name mode use_attrs maxmsg msgsize i q reg short long known at other own bits =
    (ground arith, ground arith)
