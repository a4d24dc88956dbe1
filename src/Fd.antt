-- ===== src/Fd.antt =====
-- petra/src/fs/fd/fd.rs: the table of file descriptors. A range of descriptors is given as u32, a
-- single one as i32.
pub mod Slots
pub mod Alloc
pub mod Hooks
pub mod Release
pub mod Duplicate
pub mod Fork
mod Tests
use petra_os.Common.{
  ℕ, zero, suc, ◌+◌, ◌-◌, ◌*◌, ◌/◌, ◌%◌, ◌^◌, ◌≤◌, ◌<◌, min, max, bit_and, ◌≡◌, refl, sym, ap, ap₂,
  ◌∙◌, subst, ◌≢◌, ◌↔◌, ◌⊎◌, inl, inr, Bool, true, false, not, ◌&&◌, ◌||◌, Option, none, some, List,
  [], ◌∷◌, ◌++◌, map, append-nil, append_assoc, arith, ltb, leb, ◌==◌, if◌then◌else◌, ltb→lt,
  lt→ltb, leb→le, ==_iff, tests, Bool-cases, Option-cases, if_cases, length, get_elem?, set, take,
  drop, replicate, All, length-append, take-append-drop, length-take, length-drop, take_all,
  drop_all, length-set, length-replicate, get_elem?-set_self, get_elem?-set_ne, get_elem?_total,
  get_elem?_lt, All-append, All-left, All-right,
}
use petra_os.Common.Errno.{
  Errno, eperm, enoent, esrch, eintr, e2big, ebadf, eagain, eacces, efault, eexist, ebusy, einval,
  emfile, efbig, enospc, erange, epipe, eidrm, enomem, emsgsize, etimedout, Result, ok, err, ◌>>=◌,
}
use petra_os.Common.Wait.{wait_until, wait_until_keeps, wait_until_returns, wait_until_attempt}
use petra_os.Common.Int.{ℤ, pos, negsuc, pos_part, neg_part, difference, ◌-ℤ◌, clamp_abs}

-- The flags are one bit, FD_CLOEXEC. A file is known by its identity, `Arc::ptr_eq`.
pub record FdEntry : Type 0 where
  pub file : ℕ
  pub cloexec : Bool

pub record Filedesc : Type 0 where
  pub files : List (Option FdEntry)
  pub cmask : ℕ
  pub max_files : ℕ

unfoldable pub new : Filedesc
new = record { files = []; cmask = 0o022; max_files = 1024 }

-- `self.files.get(idx)`, without the distinction between an empty slot and none.
unfoldable pub slot : List (Option FdEntry) → ℕ → Option FdEntry
slot [] i = none
slot (s ∷ ss) zero = s
slot (s ∷ ss) (suc i) = slot ss i

-- `alloc_fd_at`: the scan from `min_fd` on, with the index of the first slot of the list.
unfoldable pub scan : List (Option FdEntry) → ℕ → ℕ → Option ℕ
scan [] min_idx idx = none
scan (none ∷ ss) min_idx idx =
    let rest = scan ss min_idx (suc idx) in if leb min_idx idx then some idx else rest
scan (some e ∷ ss) min_idx idx = scan ss min_idx (suc idx)

abbrev pub resize : List (Option FdEntry) → ℕ → List (Option FdEntry)
resize files n = files ++ replicate (n - length files) none

unfoldable pub alloc_fd_at : Filedesc → ℤ → FdEntry → Result ℕ × Filedesc
alloc_fd_at t (negsuc n) entry = (err einval, t)
alloc_fd_at t (pos min_idx) entry =
    let files = if leb (length t.files) min_idx then resize t.files min_idx else t.files in
    if leb t.max_files min_idx then (err einval, t) else elim (scan files min_idx 0) [
      | some idx ↦ (ok idx, record t { files = set files idx (some entry) })
      | none ↦
          if leb t.max_files (length files)
          then (err emfile, record t { files = files })
          else (ok (length files), record t { files = files ++ (some entry ∷ []) })
    ]

unfoldable pub alloc_fd : Filedesc → FdEntry → Result ℕ × Filedesc
alloc_fd t entry = alloc_fd_at t (pos 0) entry

-- The console files are the arguments.
unfoldable pub with_stdio : ℕ → ℕ → ℕ → Filedesc
with_stdio stdin stdout stderr =
    let open_console =
      λ (f : ℕ) (t : Filedesc). (alloc_fd t (record { file = f; cloexec = false })).1 in
    open_console stderr (open_console stdout (open_console stdin new))

unfoldable pub clone_table : Filedesc → Filedesc
clone_table t = record { files = t.files; cmask = t.cmask; max_files = t.max_files }

unfoldable pub get : Filedesc → ℤ → Result ℕ
get t (negsuc n) = err ebadf
get t (pos idx) = elim (slot t.files idx) [ none ↦ err ebadf | some e ↦ ok e.file ]

unfoldable pub get_flags : Filedesc → ℤ → Result Bool
get_flags t (negsuc n) = err ebadf
get_flags t (pos idx) = elim (slot t.files idx) [ none ↦ err ebadf | some e ↦ ok e.cloexec ]

unfoldable pub set_flags : Filedesc → ℤ → Bool → Result (Unit {0}) × Filedesc
set_flags t (negsuc n) flags = (err ebadf, t)
set_flags t (pos idx) flags = elim (slot t.files idx) [
  | none ↦ (err ebadf, t)
  | some e ↦ (ok tt, record t { files = set t.files idx (some (record e { cloexec = flags })) })
]

-- The references to a file that a table holds.
abbrev pub refs_of : ℕ → Option FdEntry → ℕ
refs_of f none = 0
refs_of f (some e) = if e.file == f then 1 else 0

unfoldable pub refs : ℕ → List (Option FdEntry) → ℕ
refs f [] = 0
refs f (s ∷ ss) = refs_of f s + refs f ss

-- `release_entry`, of an entry that was taken out of the table, with the references that others
-- hold. The list is that of the files whose close hook ran.
unfoldable pub release_entry : (ℕ → ℕ) → FdEntry → List (Option FdEntry) → List ℕ → List ℕ
release_entry others e files closed =
    if 1 + refs e.file files + others e.file == 1 then closed ++ (e.file ∷ []) else closed

-- Taking the entry out of one slot, if it has one that the test picks.
unfoldable pub take_slot :
    (ℕ → ℕ) → (FdEntry → Bool) → ℕ → List (Option FdEntry) × List ℕ → List (Option FdEntry) × List ℕ
take_slot others which idx (files, closed) = elim (slot files idx) [
  | none ↦ (files, closed)
  | some e ↦
      if which e
      then (set files idx none, release_entry others e (set files idx none) closed)
      else (files, closed)
]

-- The loops: over `n` slots from `idx` on.
unfoldable pub take_slots :
    (ℕ → ℕ)
    → (FdEntry → Bool)
    → ℕ
    → ℕ
    → List (Option FdEntry) × List ℕ
    → List (Option FdEntry) × List ℕ
take_slots others which zero idx st = st
take_slots others which (suc n) idx st =
    take_slots others which n (suc idx) (take_slot others which idx st)

abbrev pub any_entry : FdEntry → Bool
any_entry e = true

unfoldable pub close : (ℕ → ℕ) → Filedesc × List ℕ → ℤ → Result (Unit {0}) × Filedesc × List ℕ
close others (t, closed) (negsuc n) = (err ebadf, t, closed)
close others (t, closed) (pos idx) =
    let out = take_slot others any_entry idx (t.files, closed) in
    elim (slot t.files idx) [
      | none ↦ (err ebadf, t, closed)
      | some e ↦ (ok tt, record t { files = out.0 }, out.1)
    ]

-- Setting FD_CLOEXEC on `n` slots from `idx` on.
unfoldable pub mark_slots : ℕ → ℕ → List (Option FdEntry) → List (Option FdEntry)
mark_slots zero idx files = files
mark_slots (suc n) idx files = mark_slots n (suc idx) (elim (slot files idx) [
  | none ↦ files
  | some e ↦ set files idx (some (record e { cloexec = true }))
])

unfoldable pub close_range :
    (ℕ → ℕ) → Filedesc × List ℕ → ℕ → ℕ → Bool → Result (Unit {0}) × Filedesc × List ℕ
close_range others (t, closed) first last cloexec =
    let n = suc (min last (length t.files - 1)) - first in
    let out = take_slots others any_entry n first (t.files, closed) in
    if ltb last first
    then (err einval, t, closed)
    else if leb (length t.files) first
    then (ok tt, t, closed)
    else if cloexec
    then (ok tt, record t { files = mark_slots n first t.files }, closed)
    else (ok tt, record t { files = out.0 }, out.1)

-- `dup2`. Its own reference to the file keeps it open while the old entry is released.
unfoldable pub dup2 : (ℕ → ℕ) → Filedesc × List ℕ → ℤ → ℤ → Bool → Result ℕ × Filedesc × List ℕ
dup2 others (t, closed) (negsuc o) newfd flags = (err ebadf, t, closed)
dup2 others (t, closed) (pos oldfd) (negsuc n) flags = (err ebadf, t, closed)
dup2 others (t, closed) (pos oldfd) (pos newfd) flags =
    if leb t.max_files newfd then (err ebadf, t, closed) else elim (get t (pos oldfd)) [
      | err e ↦ (err e, t, closed)
      | ok file ↦
          if oldfd == newfd
          then (ok newfd, t, closed)
          else let held : ℕ → ℕ = λ f. others f + (if f == file then 1 else 0) in
            let out = take_slot held any_entry newfd (resize t.files (newfd + 1), closed) in
            (
              ok newfd,
              record t { files = set out.0 newfd (some (record { file = file; cloexec = flags })) },
              out.1,
            )
    ]

unfoldable pub close_on_exec : (ℕ → ℕ) → Filedesc × List ℕ → Filedesc × List ℕ
close_on_exec others (t, closed) =
    let out = take_slots others (λ e. e.cloexec) (length t.files) 0 (t.files, closed) in
    (record t { files = out.0 }, out.1)

unfoldable pub close_all : (ℕ → ℕ) → Filedesc × List ℕ → Filedesc × List ℕ
close_all others (t, closed) =
    let out = take_slots others any_entry (length t.files) 0 (t.files, closed) in
    (record t { files = [] }, out.1)
