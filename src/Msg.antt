-- ===== src/Msg.antt =====
-- petra/src/ipc/msg: System V message queues (mod.rs, queue.rs, message.rs). The message types that
-- are stored are positive, so they are natural numbers; a `msgtyp` of -2^63, whose negation
-- overflows, is left out. A handle on a queue outlives its entry in the registry: the calls that
-- work on a queue that was found take it from the handle.
pub mod Call
pub mod Registry
pub mod Scan
pub mod Choice
pub mod Receive
pub mod Counters
mod Tests
use petra_os.Common.{
  ℕ, zero, suc, ◌+◌, ◌-◌, ◌*◌, ◌/◌, ◌%◌, ◌^◌, ◌≤◌, ◌<◌, min, max, bit_and, ◌≡◌, refl, sym, ap, ap₂,
  ◌∙◌, subst, ◌≢◌, ◌↔◌, ◌⊎◌, inl, inr, Bool, true, false, not, ◌&&◌, ◌||◌, Option, none, some, List,
  [], ◌∷◌, ◌++◌, map, append-nil, append_assoc, arith, ltb, leb, ◌==◌, if◌then◌else◌, ltb→lt,
  lt→ltb, leb→le, ==_iff, tests, Bool-cases, Option-cases, if_cases, length, get_elem?, set, take,
  drop, replicate, All, length-append, take-append-drop, length-take, length-drop, take_all,
  drop_all, length-set, length-replicate, get_elem?-set_self, get_elem?-set_ne, get_elem?_total,
  get_elem?_lt, All-append, All-left, All-right,
}
use petra_os.Common.Errno.{
  Errno, eperm, enoent, esrch, eintr, e2big, ebadf, eagain, eacces, efault, eexist, ebusy, einval,
  emfile, efbig, enospc, enomsg, enotty, eio, erange, epipe, eidrm, enomem, emsgsize, etimedout,
  Result, ok, err, ◌>>=◌,
}
use petra_os.Common.Wait.{wait_until, wait_until_keeps, wait_until_returns, wait_until_attempt}
use petra_os.Common.Int.{ℤ, pos, negsuc, pos_part, neg_part}
use petra_os.Sem.{
  has, IpcPerm, Cred, check_perm, check_read_permission, check_write_permission,
  check_admin_permission, ipc_nowait,
}
use petra_os.Sem.Registry.{
  lookup, remove, contains_key, bind_key, unbind_key, ipc_private, ipc_creat, ipc_excl, new_perm,
}

abbrev pub msgmax : ℕ
msgmax = 8192

abbrev pub msgmnb : ℕ
msgmnb = 16384

abbrev pub msgmni : ℕ
msgmni = 32000

abbrev pub msg_noerror : ℕ
msg_noerror = 0o10000

abbrev pub msg_except : ℕ
msg_except = 0o20000

abbrev pub msg_copy : ℕ
msg_copy = 0o40000

abbrev pub i64_max : ℕ
i64_max = 2 ^ 63 - 1

pub record Message : Type 0 where
  pub mtype : ℕ
  pub mtext : List ℕ

-- The queue with its `msqid_ds`.
pub record MsgQueue : Type 0 where
  pub key : ℕ
  pub perm : IpcPerm
  pub stime : ℕ
  pub rtime : ℕ
  pub ctime : ℕ
  pub cbytes : ℕ
  pub qnum : ℕ
  pub qbytes : ℕ
  pub lspid : ℕ
  pub lrpid : ℕ
  pub messages : List Message
  pub is_deleted : Bool

unfoldable pub size : Message → ℕ
size m = length m.mtext

-- `enumerate` from `i` on, up to the first message that the test accepts.
unfoldable pub find_first : (Message → Bool) → ℕ → List Message → Option ℕ
find_first test i [] = none
find_first test i (m ∷ ms) =
    let rest = find_first test (i + 1) ms in if test m then some i else rest

-- The loop for the lowest type, with the lowest so far and where it was.
unfoldable pub find_lowest : ℕ → ℕ → ℕ → Option ℕ → List Message → Option ℕ
find_lowest max_typ i min_typ best [] = best
find_lowest max_typ i min_typ best (m ∷ ms) =
    let lower = leb m.mtype max_typ && ltb m.mtype min_typ in
    find_lowest max_typ (i + 1) (if lower then m.mtype else min_typ)
      (if lower then some i else best) ms

unfoldable pub find_copy : List Message → ℤ → Option ℕ
find_copy ms (negsuc n) = none
find_copy ms (pos idx) = if ltb idx (length ms) then some idx else none

abbrev pub matches : Bool → ℕ → Message → Bool
matches except typ m = if except then not (m.mtype == typ) else m.mtype == typ

unfoldable pub find_by_type : List Message → ℤ → ℕ → Option ℕ
find_by_type [] (pos zero) flg = none
find_by_type (m ∷ ms) (pos zero) flg = some 0
find_by_type ms (pos (suc n)) flg = find_first (matches (has flg msg_except) (suc n)) 0 ms
find_by_type ms (negsuc n) flg = find_lowest (suc n) 0 i64_max none ms

unfoldable pub find_message_index : MsgQueue → ℤ → ℕ → Option ℕ
find_message_index q typ flg =
    if has flg msg_copy then find_copy q.messages typ else find_by_type q.messages typ flg

unfoldable pub remove_at : ℕ → List Message → List Message
remove_at i [] = []
remove_at zero (m ∷ ms) = ms
remove_at (suc i) (m ∷ ms) = m ∷ remove_at i ms

-- What a call works with: the queue, the time, and whether its wait is to be cancelled.
pub record World : Type 0 where
  pub queue : MsgQueue
  pub now : ℕ
  pub cancelled : Bool

unfoldable pub has_room : ℕ → MsgQueue → Bool
has_room bytes q = leb (q.cbytes + bytes) q.qbytes && ltb q.qnum msgmnb

unfoldable pub enqueue : ℕ → List ℕ → ℕ → ℕ → MsgQueue → MsgQueue
enqueue typ text pid now q = record q {
  messages = q.messages ++ (record { mtype = typ; mtext = text } ∷ []);
  cbytes = q.cbytes + length text;
  qnum = q.qnum + 1;
  lspid = pid;
  stime = now;
}

-- The fast path of `msg_snd`, and its condition while it sleeps.
unfoldable pub try_snd : ℕ → List ℕ → ℕ → World → Option (Result (Unit {0})) × World
try_snd typ text pid w =
    if w.queue.is_deleted
    then (some (err eidrm), w)
    else if has_room (length text) w.queue
    then (some (ok tt), record w { queue = enqueue typ text pid w.now w.queue })
    else (none, w)

unfoldable pub dequeue : ℕ → Message → ℕ → ℕ → MsgQueue → MsgQueue
dequeue i m pid now q = record q {
  messages = remove_at i q.messages;
  cbytes = q.cbytes - size m;
  qnum = q.qnum - 1;
  lrpid = pid;
  rtime = now;
}

-- The fast path of `msg_rcv`, and its condition while it sleeps; `none` inside is an index out of
-- range, which would be a panic.
unfoldable pub take_message : ℕ → ℕ → ℕ → ℕ → World → Option (Result (ℕ × List ℕ)) × World
take_message i msgsz flg pid w = elim (get_elem? w.queue.messages i) [
  | none ↦ (none, w)
  | some m ↦ if ltb msgsz (size m) && not (has flg msg_noerror) then (some (err e2big), w) else (
    some (ok (m.mtype, take (min (length m.mtext) msgsz) m.mtext)),
    if has flg msg_copy then w else record w { queue = dequeue i m pid w.now w.queue },
  )
]

unfoldable pub try_rcv : ℕ → ℤ → ℕ → ℕ → World → Option (Result (ℕ × List ℕ)) × World
try_rcv msgsz typ flg pid w =
    if w.queue.is_deleted
    then (some (err eidrm), w)
    else elim (find_message_index w.queue typ flg) [
      | none ↦ (none, w)
      | some i ↦ take_message i msgsz flg pid w
    ]
