-- ===== src/Shm/Tests.antt =====
-- petra/src/ipc/shm: runs of the model, and the theorem at a registry of one segment.
use petra_os.Common.{ℕ, ◌+◌, ◌^◌, ◌≡◌, refl, Bool, false, none, [], ◌∷◌}
use petra_os.Common.Errno.{Result, ok}
use petra_os.Sem.{
  Cred, check_perm, check_read_permission, check_write_permission, check_admin_permission,
}
use petra_os.Sem.Registry.{lookup, remove}
use petra_os.Shm.{
  ShmSegment, ShmAttachment, Shms, attach_target, update, take_attachment, attach_address,
  record_attachment, shm_at, detach_segment, shm_dt,
}
use petra_os.Shm.Control.{owned, not_owned, detach_all, on_proc_exit, shmctl_rmid}
use petra_os.Shm.Table.{count, nattch_of}
use petra_os.Shm.Held.{Held}

abbrev root : Cred
root = record { uid = 0; gid = 0 }

abbrev segment : ShmSegment
segment = record {
  key = 5;
  perm = record { uid = 0; gid = 0; cuid = 0; cgid = 0; mode = 0o600 };
  size = 4096;
  cpid = 3;
  lpid = 3;
  nattch = 1;
  atime = 2;
  dtime = 0;
  ctime = 1;
  marked_for_deletion = false;
}

abbrev attachment : ShmAttachment
attachment = record { owner = 3; shmid = 9; addr = 0x200000; size = 4096; readonly = false }

abbrev shared : Shms
shared = record {
  objects = (9, segment) ∷ [];
  keys = (5, 9) ∷ [];
  attachments = attachment ∷ [];
  now = 7;
}

abbrev at_target : ℕ → Bool → ShmSegment → Result ℕ
at_target target fixed s = ok target

-- A removed segment goes with its last attachment.
goes_last : (on_proc_exit 3 (shmctl_rmid 9 root shared).1).objects ≡ []
unfolding on_proc_exit owned not_owned detach_all detach_segment shmctl_rmid lookup update remove
    check_admin_permission
goes_last = refl

-- Attaching over an attachment counts both, and keeps one.
counts_both :
    let w = (shm_at (2 ^ 47) 9 0x200000 0 at_target (λ u. u) root 3 shared).1 in
    (nattch_of 9 w.objects ≡ 2) × (count 9 w.attachments ≡ 1)
unfolding shm_at attach_address attach_target record_attachment lookup update take_attachment
    nattch_of count check_read_permission check_write_permission check_perm
counts_both = (refl, refl)

-- IPC_RMID between the lookup of `shm_at` and its count: the attachment is to a segment that is gone.
reaped_meanwhile :
    let unattached = (shm_dt 0x200000 (ok tt) 3 shared).1 in
    let remove_it : Shms → Shms = λ u. (shmctl_rmid 9 root u).1 in
    let w = (shm_at (2 ^ 47) 9 0x200000 0 at_target remove_it root 3 unattached).1 in
    (lookup 9 w.objects ≡ none) × (count 9 w.attachments ≡ 1)
unfolding shm_dt shm_at attach_address attach_target record_attachment lookup update take_attachment
    count check_read_permission check_write_permission check_perm shmctl_rmid remove
    check_admin_permission detach_segment
reaped_meanwhile = (refl, refl)

-- The clock of the registry goes on while the segment is mapped.
abbrev tick : Shms → Shms
tick w = record w { now = w.now + 1 }
