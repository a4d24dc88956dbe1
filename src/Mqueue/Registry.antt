-- ===== src/Mqueue/Registry.antt =====
-- petra/src/ipc/mqueue.rs: the table of names, mq_open(2) and mq_unlink(2).
use petra_os.Common.{
  ℕ, ◌*◌, ◌/◌, ◌^◌, min, bit_and, Bool, true, false, not, ◌&&◌, ◌||◌, Option, none, some, List, [],
  ◌∷◌, ◌++◌, ltb, ◌==◌, if◌then◌else◌, length, get_elem?,
}
use petra_os.Common.Errno.{enoent, esrch, eacces, eexist, einval, Result, ok, err, ◌>>=◌}
use petra_os.Mqueue.{
  default_maxmsg, default_msgsize, mq_max_msgsize, mq_max_msg_count, mq_max_queue_bytes,
  mq_name_max, usize_max, Mqueue,
}

abbrev pub o_creat : ℕ
o_creat = 0o100

abbrev pub o_excl : ℕ
o_excl = 0o200

-- Whether `flags & mask != 0`.
abbrev pub has : ℕ → ℕ → Bool
has flags mask = not (bit_and flags mask == 0)

pub record Cred : Type 0 where
  pub uid : ℕ
  pub gid : ℕ

abbrev pub str_eq : List ℕ → List ℕ → Bool
str_eq [] [] = true
str_eq [] (y ∷ ys) = false
str_eq (x ∷ xs) [] = false
str_eq (x ∷ xs) (y ∷ ys) = x == y && str_eq xs ys

-- `MQ_REGISTRY`, with all the queues ever made: the table holds indices into them, and so does an
-- open descriptor, whose queue outlives its name.
pub record Registry : Type 0 where
  pub names : List (List ℕ × ℕ)
  pub queues : List Mqueue

unfoldable pub lookup : List ℕ → List (List ℕ × ℕ) → Option ℕ
lookup name [] = none
lookup name ((k, i) ∷ rest) = if str_eq k name then some i else lookup name rest

-- `BTreeMap::remove`
unfoldable pub forget : List ℕ → List (List ℕ × ℕ) → List (List ℕ × ℕ)
forget name [] = []
forget name ((k, i) ∷ rest) = if str_eq k name then forget name rest else (k, i) ∷ forget name rest

unfoldable pub find : List ℕ → Registry → Option ℕ
find name reg = lookup name reg.names

unfoldable pub queue_unlink : List ℕ → Registry → Result (Unit {0}) × Registry
queue_unlink name reg = elim (find name reg) [
  | none ↦ (err enoent, reg)
  | some i ↦ (ok tt, record reg { names = forget name reg.names })
]

-- The credentials are absent where the thread has no process.
unfoldable pub access_permits : Option Cred → Mqueue → Bool → Result (Unit {0})
access_permits none q wants_write = err esrch
access_permits (some c) q wants_write =
    let bits =
      if c.uid == q.owner_uid
      then bit_and (q.mode / 2 ^ 6) 7
      else if c.gid == q.owner_gid
      then bit_and (q.mode / 2 ^ 3) 7
      else bit_and q.mode 7 in
    let needed = if wants_write then 2 else 4 in
    if c.uid == 0 then ok tt else if has bits needed then ok tt else err eacces

abbrev pub saturating_mul : ℕ → ℕ → ℕ
saturating_mul a b = min (a * b) usize_max

-- The range check of the attributes fails.
abbrev pub bad_attrs : ℕ → ℕ → Bool
bad_attrs maxmsg msgsize =
    maxmsg == 0
    || ltb mq_max_msg_count maxmsg
    || msgsize == 0
    || ltb mq_max_msgsize msgsize
    || ltb mq_max_queue_bytes (saturating_mul maxmsg msgsize)

abbrev pub fresh : Cred → ℕ → ℕ → ℕ → Mqueue
fresh c mode maxmsg msgsize = record {
  maxmsg = maxmsg;
  msgsize = msgsize;
  mode = bit_and mode 0o7777;
  owner_uid = c.uid;
  owner_gid = c.gid;
  msgs = [];
  bytes = 0;
  notify = none;
}

unfoldable pub create : Option Cred → List ℕ → ℕ → ℕ → ℕ → Registry → Result (ℕ × Bool) × Registry
create none name mode maxmsg msgsize reg = (err esrch, reg)
create (some c) name mode maxmsg msgsize reg =
    let i = length reg.queues in
    (
      ok (i, true),
      record {
        names = (name, i) ∷ forget name reg.names;
        queues = reg.queues ++ (fresh c mode maxmsg msgsize ∷ []);
      },
    )

unfoldable pub open_old : Option Cred → ℕ → ℕ → Registry → Result (ℕ × Bool)
open_old cred oflags i reg = elim (get_elem? reg.queues i) [
  | none ↦ err enoent
  | some q ↦
      if has oflags o_creat && has oflags o_excl
      then err eexist
      else (access_permits cred q (has oflags 1) >>= λ _. ok (i, false))
]

unfoldable pub open_new :
    Option Cred → List ℕ → ℕ → ℕ → Bool → ℕ → ℕ → Registry → Result (ℕ × Bool) × Registry
unfolding create
open_new cred name oflags mode use_attrs attr_maxmsg attr_msgsize reg =
    let maxmsg = if use_attrs then attr_maxmsg else default_maxmsg in
    let msgsize = if use_attrs then attr_msgsize else default_msgsize in
    if has oflags o_creat
    then (if bad_attrs maxmsg msgsize
        then (err einval, reg)
        else create cred name mode maxmsg msgsize reg)
    else (err enoent, reg)

unfoldable pub queue_open :
    Option Cred → List ℕ → ℕ → ℕ → Bool → ℕ → ℕ → Registry → Result (ℕ × Bool) × Registry
unfolding open_old open_new
queue_open cred name oflags mode use_attrs attr_maxmsg attr_msgsize reg =
    if length name == 0 || ltb mq_name_max (length name)
    then (err einval, reg)
    else elim (find name reg) [
      | some i ↦ (open_old cred oflags i reg, reg)
      | none ↦ open_new cred name oflags mode use_attrs attr_maxmsg attr_msgsize reg
    ]
