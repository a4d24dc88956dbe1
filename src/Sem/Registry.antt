-- ===== src/Sem/Registry.antt =====
-- petra/src/ipc/sem/mod.rs, ipc/registry.rs, ipc/id.rs, uapi/ipc.rs: the tables of the sets, the
-- choice of an id, and `sem_get`.
use petra_os.Common.{
  ℕ, zero, suc, ◌+◌, ◌-◌, ◌%◌, ◌^◌, max, bit_and, Bool, true, false, not, ◌&&◌, Option, none, some,
  List, [], ◌∷◌, ltb, leb, ◌==◌, if◌then◌else◌, length, replicate,
}
use petra_os.Common.Errno.{enoent, eexist, einval, enospc, eidrm, Result, ok, err, ◌>>=◌}
use petra_os.Common.Int.{ℤ, pos, negsuc}
use petra_os.Sem.{semmsl, has, IpcPerm, Cred, SemSet, check_read_permission, Undo}

abbrev pub semmni : ℕ
semmni = 32000

abbrev pub ipc_private : ℕ
ipc_private = 0

abbrev pub ipc_creat : ℕ
ipc_creat = 0o1000

abbrev pub ipc_excl : ℕ
ipc_excl = 0o2000

-- `SEM_REGISTRY` and `UNDO_REGISTRY`, the time, and the counter of `alloc_ipc_id`.
pub record Sems : Type 0 where
  pub objects : List (ℕ × SemSet)
  pub keys : List (ℕ × ℕ)
  pub undos : List Undo
  pub now : ℕ
  pub seq : ℕ

unfoldable pub lookup {ℓ} : {A : Type ℓ} → ℕ → List (ℕ × A) → Option A
lookup k [] = none
lookup k ((i, a) ∷ rest) = if i == k then some a else lookup k rest

unfoldable pub remove {ℓ} : {A : Type ℓ} → ℕ → List (ℕ × A) → List (ℕ × A)
remove k [] = []
remove k ((i, a) ∷ rest) = if i == k then remove k rest else (i, a) ∷ remove k rest

abbrev pub contains_key {ℓ} : {A : Type ℓ} → ℕ → List (ℕ × A) → Bool
contains_key k l = elim (lookup k l) [ none ↦ false | some a ↦ true ]

unfoldable pub bind_key : ℕ → ℕ → List (ℕ × ℕ) → List (ℕ × ℕ)
bind_key key id keys = if key == ipc_private then keys else (key, id) ∷ remove key keys

unfoldable pub unbind_key : ℕ → List (ℕ × ℕ) → List (ℕ × ℕ)
unbind_key key keys = if key == ipc_private then keys else remove key keys

-- `alloc_ipc_id`: `hash seq` stands for the low half of the keyed SipHash. The first list holds the
-- sequence numbers left to try. The probing that follows them adds one in i32, which is a panic at
-- the last id in a build that checks overflow, as the development build does: it gives `none`. Its
-- fuel is the number of ids from the first one on.
abbrev pub to_id : ℕ → ℕ
to_id h = max (h % 2 ^ 31) 1

unfoldable pub try_ids {ℓ} : {A : Type ℓ} → (ℕ → ℕ) → List (ℕ × A) → ℕ → ℕ → Option ℕ
try_ids hash reg zero seq = none
try_ids hash reg (suc n) seq =
    let rest = try_ids hash reg n (suc seq) in
    if contains_key (to_id (hash seq)) reg then rest else some (to_id (hash seq))

abbrev pub last_id : ℕ
last_id = 2 ^ 31 - 1

unfoldable pub probe {ℓ} : {A : Type ℓ} → List (ℕ × A) → ℕ → ℕ → Option ℕ
probe reg zero id = none
probe reg (suc fuel) id =
    let rest = probe reg fuel (to_id (id + 1)) in
    if not (contains_key id reg) then some id else if id == last_id then none else rest

unfoldable pub alloc_ipc_id {ℓ} : {A : Type ℓ} → (ℕ → ℕ) → ℕ → List (ℕ × A) → Option ℕ
alloc_ipc_id hash seq reg =
    let start = to_id (seq + 1024) in
    elim (try_ids hash reg 1024 seq) [ some id ↦ some id | none ↦ probe reg (2 ^ 31 - start) start ]

-- `IpcPerm::new`, `SemSet::new` and `create_sem_set`.
unfoldable pub new_perm : Cred → ℕ → IpcPerm
new_perm c mode = record {
  uid = c.uid;
  gid = c.gid;
  cuid = c.uid;
  cgid = c.gid;
  mode = bit_and mode 0o777;
}

unfoldable pub new_set : ℕ → ℕ → ℕ → IpcPerm → ℕ → SemSet
new_set semid key nsems perm now = record {
  semid = semid;
  key = key;
  nsems = nsems;
  perm = perm;
  otime = 0;
  ctime = now;
  sems = replicate nsems (record { val = 0; pid = 0; ncnt = 0; zcnt = 0 });
  destroyed = false;
}

unfoldable pub create_sem_set : ℕ → ℕ → ℕ → ℕ → Cred → Sems → Result ℕ × Sems
create_sem_set semid key nsems semflg cred w =
    if leb semmni (length w.objects) then (err enospc, w) else (
      ok semid,
      record w {
        objects = (semid, new_set semid key nsems (new_perm cred semflg) w.now) ∷ w.objects;
        keys = bind_key key semid w.keys;
      },
    )

-- `sem_get`; `semid` is the id that `alloc_ipc_id` gives to a set created now.
unfoldable pub open_existing : ℕ → ℕ → ℕ → Cred → Sems → Result ℕ
open_existing semid nsems semflg cred w =
    if has semflg ipc_creat && has semflg ipc_excl
    then err eexist
    else elim (lookup semid w.objects) [
      | none ↦ err enoent
      | some s ↦
          if s.destroyed
          then err eidrm
          else check_read_permission s.perm cred >>= λ _.
              if ltb 0 nsems && ltb s.nsems nsems then err einval else ok semid
    ]

unfoldable pub sem_get : ℕ → ℕ → ℤ → ℕ → Cred → Sems → Result ℕ × Sems
sem_get semid key (negsuc n) semflg cred w = (err einval, w)
sem_get semid key (pos nsems) semflg cred w =
    if ltb semmsl nsems
    then (err einval, w)
    else if key == ipc_private
    then (if nsems == 0
        then (err einval, w)
        else create_sem_set semid ipc_private nsems semflg cred w)
    else elim (lookup key w.keys) [
      | some old ↦ (open_existing old nsems semflg cred w, w)
      | none ↦
          if not (has semflg ipc_creat)
          then (err enoent, w)
          else if nsems == 0
          then (err einval, w)
          else create_sem_set semid key nsems semflg cred w
    ]
