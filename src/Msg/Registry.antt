-- ===== src/Msg/Registry.antt =====
-- petra/src/ipc/msg/mod.rs: `msg_get`, `msg_ctl` and `lookup_queue` on the registry of the queues.
use petra_os.Common.{
  ℕ, ◌+◌, ◌-◌, bit_and, true, false, not, ◌&&◌, Option, none, some, List, [], ◌∷◌, ltb, leb, ◌==◌,
  if◌then◌else◌, length,
}
use petra_os.Common.Errno.{eperm, enoent, efault, eexist, enospc, eidrm, Result, ok, err, ◌>>=◌}
use petra_os.Sem.{has, IpcPerm, Cred, check_read_permission, check_admin_permission}
use petra_os.Sem.Registry.{lookup, remove, bind_key, unbind_key, ipc_creat, ipc_excl, new_perm}
use petra_os.Msg.{msgmnb, msgmni, MsgQueue}

-- `MSG_REGISTRY` and the time.
pub record Msgs : Type 0 where
  pub objects : List (ℕ × MsgQueue)
  pub keys : List (ℕ × ℕ)
  pub now : ℕ

unfoldable pub lookup_queue : ℕ → Msgs → Option MsgQueue
lookup_queue msqid w = lookup msqid w.objects

unfoldable pub new_queue : ℕ → IpcPerm → ℕ → MsgQueue
new_queue key perm now = record {
  key = key;
  perm = perm;
  stime = 0;
  rtime = 0;
  ctime = now;
  cbytes = 0;
  qnum = 0;
  qbytes = msgmnb;
  lspid = 0;
  lrpid = 0;
  messages = [];
  is_deleted = false;
}

-- `msqid` is the id that `alloc_ipc_id` gives now.
unfoldable pub create_msg_queue : ℕ → ℕ → ℕ → Cred → Msgs → Result ℕ × Msgs
create_msg_queue msqid key flg cred w = if leb msgmni (length w.objects) then (err enospc, w) else (
  ok msqid,
  record w {
    objects = (msqid, new_queue key (new_perm cred flg) w.now) ∷ w.objects;
    keys = bind_key key msqid w.keys;
  },
)

unfoldable pub open_queue : ℕ → ℕ → Cred → Msgs → Result ℕ
open_queue msqid flg cred w =
    if has flg ipc_creat && has flg ipc_excl then err eexist else elim (lookup_queue msqid w) [
      | none ↦ err enoent
      | some q ↦
          if q.is_deleted then err eidrm else check_read_permission q.perm cred >>= λ _. ok msqid
    ]

unfoldable pub msg_get : ℕ → ℕ → ℕ → Cred → Msgs → Result ℕ × Msgs
msg_get msqid key flg cred w = elim (lookup key w.keys) [
  | some old ↦ (open_queue old flg cred w, w)
  | none ↦
      if not (has flg ipc_creat) then (err enoent, w) else create_msg_queue msqid key flg cred w
]

-- IPC_RMID, on a queue that was found; it stands beside the registry.
unfoldable pub msgctl_rmid : ℕ → Cred → MsgQueue × Msgs → Result ℕ × MsgQueue × Msgs
msgctl_rmid msqid cred (q, w) =
    if q.is_deleted then (err eidrm, q, w) else elim (check_admin_permission q.perm cred) [
      | err e ↦ (err e, q, w)
      | ok _ ↦ (
        ok 0,
        record q { is_deleted = true },
        record w { objects = remove msqid w.objects; keys = unbind_key q.key w.keys },
      )
    ]

-- What IPC_SET takes from the `msqid_ds` in user memory.
pub record NewDs : Type 0 where
  pub uid : ℕ
  pub gid : ℕ
  pub mode : ℕ
  pub qbytes : ℕ

abbrev pub replaced : NewDs → ℕ → MsgQueue → MsgQueue
replaced ds now q = record q {
  perm = record q.perm {
    uid = ds.uid;
    gid = ds.gid;
    mode = q.perm.mode - bit_and q.perm.mode 0o777 + bit_and ds.mode 0o777;
  };
  qbytes = ds.qbytes;
  ctime = now;
}

unfoldable pub msgctl_set : ℕ → Result NewDs → Cred → ℕ → MsgQueue → Result ℕ × MsgQueue
msgctl_set buf_ptr get cred now q = if buf_ptr == 0 then (err efault, q) else elim get [
  | err e ↦ (err e, q)
  | ok ds ↦ if q.is_deleted then (err eidrm, q) else elim (check_admin_permission q.perm cred) [
    | err e ↦ (err e, q)
    | ok _ ↦
        if ltb q.qbytes ds.qbytes && not (cred.uid == 0)
        then (err eperm, q)
        else (ok 0, replaced ds now q)
  ]
]

-- IPC_STAT: the queue whose `msqid_ds` is copied out.
unfoldable pub msgctl_stat : ℕ → Cred → MsgQueue → Result MsgQueue
msgctl_stat buf_ptr cred q =
    if buf_ptr == 0
    then err efault
    else if q.is_deleted
    then err eidrm
    else check_read_permission q.perm cred >>= λ _. ok q

-- IPC_INFO and MSG_INFO.
unfoldable pub msgctl_info : ℕ → Result (Unit {0}) → Result ℕ
msgctl_info buf_ptr put = if buf_ptr == 0 then err efault else put >>= λ _. ok msgmni
