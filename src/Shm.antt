-- ===== src/Shm.antt =====
-- petra/src/ipc/shm: System V shared memory. The attachments of all processes stand in one list,
-- each with its owner; mapping and unmapping are the caller's address space, whose answers are
-- parameters. Counting 2^64 attachments is left out, and so is the order of the locks.
pub mod Control
pub mod Table
pub mod Held
pub mod Calls
mod Tests
use petra_os.Common.{
  ℕ, zero, suc, ◌+◌, ◌-◌, ◌*◌, ◌/◌, ◌%◌, ◌^◌, ◌≤◌, ◌<◌, min, max, bit_and, ◌≡◌, refl, sym, ap, ap₂,
  ◌∙◌, subst, ◌≢◌, ◌↔◌, ◌⊎◌, inl, inr, Bool, true, false, not, ◌&&◌, ◌||◌, Option, none, some, List,
  [], ◌∷◌, ◌++◌, map, append-nil, append_assoc, arith, ltb, leb, ◌==◌, if◌then◌else◌, ltb→lt,
  lt→ltb, leb→le, ==_iff, tests, Bool-cases, Option-cases, if_cases, if_true, if_false, length,
  get_elem?, set, take, drop, replicate, All, length-append, take-append-drop, length-take,
  length-drop, take_all, drop_all, length-set, length-replicate, get_elem?-set_self,
  get_elem?-set_ne, get_elem?_total, get_elem?_lt, All-append, All-left, All-right,
}
use petra_os.Common.Errno.{
  Errno, eperm, enoent, esrch, eintr, e2big, ebadf, eagain, eacces, efault, eexist, ebusy, einval,
  emfile, efbig, enospc, enomsg, enotty, eio, erange, epipe, eidrm, enomem, emsgsize, etimedout,
  Result, ok, err, ◌>>=◌,
}
use petra_os.Common.Wait.{wait_until, wait_until_keeps, wait_until_returns, wait_until_attempt}
use petra_os.Common.Int.{ℤ, pos, negsuc, pos_part, neg_part}
use petra_os.Sem.{
  has, IpcPerm, Cred, check_perm, check_read_permission, check_write_permission,
  check_admin_permission,
}
use petra_os.Sem.Registry.{
  lookup, remove, contains_key, bind_key, unbind_key, ipc_private, ipc_creat, ipc_excl, new_perm,
}
use petra_os.Mappings.Allocator.{vmar_lowest_addr}

abbrev pub page_size : ℕ
page_size = 4096

abbrev pub shmlba : ℕ
shmlba = 4096

abbrev pub shmmax : ℕ
shmmax = 1024 * 1024 * 1024

abbrev pub shmmin : ℕ
shmmin = 1

abbrev pub shmmni : ℕ
shmmni = 4096

abbrev pub shm_rdonly : ℕ
shm_rdonly = 0o10000

abbrev pub shm_rnd : ℕ
shm_rnd = 0o20000

pub record ShmSegment : Type 0 where
  pub key : ℕ
  pub perm : IpcPerm
  pub size : ℕ
  pub cpid : ℕ
  pub lpid : ℕ
  pub nattch : ℕ
  pub atime : ℕ
  pub dtime : ℕ
  pub ctime : ℕ
  pub marked_for_deletion : Bool

-- An attachment of the process `owner`.
pub record ShmAttachment : Type 0 where
  pub owner : ℕ
  pub shmid : ℕ
  pub addr : ℕ
  pub size : ℕ
  pub readonly : Bool

-- `SHM_REGISTRY`, the attachments of the processes, and the time.
pub record Shms : Type 0 where
  pub objects : List (ℕ × ShmSegment)
  pub keys : List (ℕ × ℕ)
  pub attachments : List ShmAttachment
  pub now : ℕ

unfoldable pub new_segment : ℕ → IpcPerm → ℕ → ℕ → ℕ → ShmSegment
new_segment key perm size cpid now = record {
  key = key;
  perm = perm;
  size = size;
  cpid = cpid;
  lpid = 0;
  nattch = 0;
  atime = 0;
  dtime = 0;
  ctime = now;
  marked_for_deletion = false;
}

-- `checked_next_multiple_of(PAGE_SIZE)`, of sizes up to SHMMAX.
abbrev pub page_align : ℕ → ℕ
page_align size = (size + (page_size - 1)) / page_size * page_size

-- What `shm_get` does for IPC_PRIVATE and for a key that is not bound; `shmid` is the id that
-- `alloc_ipc_id` gives now, and `pages` what allocating the pages gives.
unfoldable pub create_segment :
    ℕ → Result (Unit {0}) → ℕ → ℕ → ℕ → Cred → ℕ → Shms → Result ℕ × Shms
create_segment shmid pages key size flg cred pid w =
    let made = new_segment key (new_perm cred (bit_and flg 0o777)) (page_align size) pid w.now in
    if ltb size shmmin || ltb shmmax size
    then (err einval, w)
    else if leb shmmni (length w.objects)
    then (err enospc, w)
    else elim pages [
      | err e ↦ (err e, w)
      | ok _ ↦ (
        ok shmid,
        record w { objects = (shmid, made) ∷ w.objects; keys = bind_key key shmid w.keys },
      )
    ]

unfoldable pub open_segment : ℕ → ℕ → ℕ → Cred → Shms → Result ℕ
open_segment shmid size flg cred w =
    if has flg ipc_creat && has flg ipc_excl then err eexist else elim (lookup shmid w.objects) [
      | none ↦ err enoent
      | some s ↦
          if ltb s.size size
          then err einval
          else if check_perm s.perm cred (bit_and flg 0o777)
          then ok shmid
          else err eacces
    ]

unfoldable pub shm_get : ℕ → Result (Unit {0}) → ℕ → ℕ → ℕ → Cred → ℕ → Shms → Result ℕ × Shms
shm_get shmid pages key size flg cred pid w =
    if key == ipc_private
    then create_segment shmid pages key size flg cred pid w
    else elim (lookup key w.keys) [
      | some old ↦ (open_segment old size flg cred w, w)
      | none ↦
          if not (has flg ipc_creat)
          then (err enoent, w)
          else create_segment shmid pages key size flg cred pid w
    ]

-- The address to attach at, and whether it is fixed; `cap` is VMAR_CAP_ADDR.
unfoldable pub attach_target : ℕ → ℕ → ℕ → Result (ℕ × Bool)
attach_target cap addr flg =
    let target = if has flg shm_rnd then addr - addr % shmlba else addr in
    if addr == 0
    then ok (0, false)
    else if not (has flg shm_rnd) && not (addr % page_size == 0)
    then err einval
    else if ltb target vmar_lowest_addr || leb cap target
    then err einval
    else ok (target, true)

unfoldable pub update :
    ℕ → (ShmSegment → ShmSegment) → List (ℕ × ShmSegment) → List (ℕ × ShmSegment)
update id f [] = []
update id f ((i, s) ∷ rest) = if i == id then (i, f s) ∷ rest else (i, s) ∷ update id f rest

-- The attachment of a process at an address, and the others.
unfoldable pub take_attachment :
    ℕ → ℕ → List ShmAttachment → Option ShmAttachment × List ShmAttachment
take_attachment pid addr [] = (none, [])
take_attachment pid addr (a ∷ rest) =
    let (found, others) = take_attachment pid addr rest in
    if a.owner == pid && a.addr == addr then (some a, rest) else (found, a ∷ others)

-- `fetch_sub` wraps around at 0.
abbrev pub fetch_dec : ℕ → ℕ
fetch_dec n = if n == 0 then 2 ^ 64 - 1 else n - 1

abbrev pub attached : ℕ → ℕ → ShmSegment → ShmSegment
attached pid now s = record s { nattch = s.nattch + 1; atime = now; lpid = pid }

abbrev pub detached : ℕ → ℕ → ShmSegment → ShmSegment
detached pid now s = record s { nattch = fetch_dec s.nattch; dtime = now; lpid = pid }

-- The address at which `shm_at` attaches; `mmap` is what mapping the segment at the target gives.
unfoldable pub attach_address :
    ℕ → ℕ → ℕ → (ℕ → Bool → ShmSegment → Result ℕ) → Cred → ShmSegment → Result ℕ
attach_address cap addr flg mmap cred s = check_read_permission s.perm cred >>= λ _.
    (if has flg shm_rdonly then ok tt else check_write_permission s.perm cred) >>= λ _.
    attach_target cap addr flg >>= λ t. mmap t.0 t.1 s

-- An attachment that was recorded at the address is replaced.
unfoldable pub record_attachment : ℕ → ℕ → ℕ → ℕ → ShmSegment → Shms → Shms
record_attachment shmid pid flg addr s w = record w {
  objects = update shmid (attached pid w.now) w.objects;
  attachments =
      record {
        owner = pid;
        shmid = shmid;
        addr = addr;
        size = s.size;
        readonly = has flg shm_rdonly;
      }
      ∷ (take_attachment pid addr w.attachments).1;
}

-- `between` is what others do after the lookup, while the registry is not locked: the call keeps the
-- segment that it found, and records its attachment to it, also when the table has it no more. The
-- record and the count that follows it are one step here.
unfoldable pub shm_at :
    ℕ
    → ℕ
    → ℕ
    → ℕ
    → (ℕ → Bool → ShmSegment → Result ℕ)
    → (Shms → Shms)
    → Cred
    → ℕ
    → Shms
    → Result ℕ × Shms
shm_at cap shmid addr flg mmap between cred pid w = elim (lookup shmid w.objects) [
  | none ↦ (err einval, w)
  | some s ↦ elim (attach_address cap addr flg mmap cred s) [
    | err e ↦ (err e, between w)
    | ok a ↦ (ok a, record_attachment shmid pid flg a s (between w))
  ]
]

-- What `shm_dt` and `on_proc_exit` do to the segment of an attachment.
unfoldable pub detach_segment : ℕ → ℕ → Shms → Shms
detach_segment pid shmid w = elim (lookup shmid w.objects) [
  | none ↦ w
  | some s ↦
      if leb s.nattch 1 && s.marked_for_deletion
      then record w { objects = remove shmid w.objects; keys = unbind_key s.key w.keys }
      else record w { objects = update shmid (detached pid w.now) w.objects }
]

-- `shm_dt`; `munmap` is what unmapping gives.
unfoldable pub shm_dt : ℕ → Result (Unit {0}) → ℕ → Shms → Result (Unit {0}) × Shms
shm_dt addr munmap pid w =
    let (found, others) = take_attachment pid addr w.attachments in
    let w' : Shms = record w { attachments = others } in
    if not (addr % page_size == 0) then (err einval, w) else elim found [
      | none ↦ (err einval, w)
      | some a ↦ elim munmap [ err e ↦ (err e, w') | ok _ ↦ (ok tt, detach_segment pid a.shmid w') ]
    ]
