-- ===== src/Shm/Control.antt =====
-- petra/src/ipc/shm/mod.rs: what a fork, an exit and `shm_ctl` do to segments and attachments.
use petra_os.Common.{
  ℕ, ◌+◌, ◌-◌, bit_and, true, none, some, List, [], ◌∷◌, ◌++◌, map, ◌==◌, if◌then◌else◌,
}
use petra_os.Common.Errno.{efault, einval, Result, ok, err, ◌>>=◌}
use petra_os.Sem.{IpcPerm, Cred, check_read_permission, check_admin_permission}
use petra_os.Sem.Registry.{lookup, remove, unbind_key}
use petra_os.Shm.{ShmSegment, ShmAttachment, Shms, update, detach_segment}

-- The attachments of a process, in order, and those of the others.
unfoldable pub owned : ℕ → List ShmAttachment → List ShmAttachment
owned pid [] = []
owned pid (a ∷ rest) = if a.owner == pid then a ∷ owned pid rest else owned pid rest

unfoldable pub not_owned : ℕ → List ShmAttachment → List ShmAttachment
not_owned pid [] = []
not_owned pid (a ∷ rest) = if a.owner == pid then not_owned pid rest else a ∷ not_owned pid rest

unfoldable pub detach_all : ℕ → List ShmAttachment → Shms → Shms
detach_all pid [] w = w
detach_all pid (a ∷ rest) w = detach_all pid rest (detach_segment pid a.shmid w)

unfoldable pub on_proc_exit : ℕ → Shms → Shms
on_proc_exit pid w =
    detach_all pid (owned pid w.attachments)
      (record w { attachments = not_owned pid w.attachments })

abbrev pub one_more : ShmSegment → ShmSegment
one_more s = record s { nattch = s.nattch + 1 }

unfoldable pub attach_all : List ShmAttachment → List (ℕ × ShmSegment) → List (ℕ × ShmSegment)
attach_all [] objects = objects
attach_all (a ∷ rest) objects = attach_all rest (update a.shmid one_more objects)

-- `on_proc_fork`; the child is new and has no attachments of its own.
unfoldable pub on_proc_fork : ℕ → ℕ → Shms → Shms
on_proc_fork parent child w = record w {
  objects = attach_all (owned parent w.attachments) w.objects;
  attachments =
      map (λ (a : ShmAttachment). record a { owner = child }) (owned parent w.attachments)
      ++ w.attachments;
}

abbrev pub mark_deleted : ShmSegment → ShmSegment
mark_deleted s = record s { marked_for_deletion = true }

unfoldable pub shmctl_rmid : ℕ → Cred → Shms → Result ℕ × Shms
shmctl_rmid shmid cred w = elim (lookup shmid w.objects) [
  | none ↦ (err einval, w)
  | some s ↦ elim (check_admin_permission s.perm cred) [
    | err e ↦ (err e, w)
    | ok _ ↦ (
      ok 0,
      if s.nattch == 0
          then record w { objects = remove shmid w.objects; keys = unbind_key s.key w.keys }
          else record w { objects = update shmid mark_deleted w.objects },
    )
  ]
]

-- IPC_SET, on the permissions that were read from user memory.
abbrev pub with_perm : IpcPerm → ℕ → ShmSegment → ShmSegment
with_perm p now s = record s {
  perm = record s.perm {
    uid = p.uid;
    gid = p.gid;
    mode = s.perm.mode - bit_and s.perm.mode 0o777 + bit_and p.mode 0o777;
  };
  ctime = now;
}

unfoldable pub shmctl_set : ℕ → ℕ → Result IpcPerm → Cred → Shms → Result ℕ × Shms
shmctl_set shmid buf_ptr get cred w = elim (lookup shmid w.objects) [
  | none ↦ (err einval, w)
  | some s ↦ if buf_ptr == 0 then (err efault, w) else elim (check_admin_permission s.perm cred) [
    | err e ↦ (err e, w)
    | ok _ ↦ elim get [
      | err e ↦ (err e, w)
      | ok p ↦ (ok 0, record w { objects = update shmid (with_perm p w.now) w.objects })
    ]
  ]
]

-- IPC_STAT: the segment whose `shmid_ds` is copied out.
unfoldable pub shmctl_stat : ℕ → ℕ → Cred → Shms → Result ShmSegment
shmctl_stat shmid buf_ptr cred w = elim (lookup shmid w.objects) [
  | none ↦ err einval
  | some s ↦ if buf_ptr == 0 then err efault else check_read_permission s.perm cred >>= λ _. ok s
]
