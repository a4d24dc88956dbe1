-- ===== src/Fd/Tests.antt =====
-- petra/src/fs/fd/fd.rs on concrete inputs.
use petra_os.Common.{
  ℕ, ◌+◌, ◌==◌, ◌≡◌, refl, true, false, ◌&&◌, Option, none, some, [], ◌∷◌, arith, leb,
  if◌then◌else◌,
}
use petra_os.Common.Errno.{ok}
use petra_os.Common.Int.{pos}
use petra_os.Fd.{
  FdEntry, Filedesc, slot, scan, alloc_fd_at, refs, release_entry, take_slot, take_slots,
  close_range, close_on_exec, close_all, with_stdio, new, alloc_fd, clone_table, get,
}
use petra_os.Fd.Hooks.{Once}
use petra_os.Fd.Release.{left_in, closes_lem}
use petra_os.Fd.{dup2}
use petra_os.Fd.Fork.{Forked, fork_exit-Forked}
use petra_os.Fd.Duplicate.{Duplicated, dup2-Duplicated}

abbrev opened : ℕ → Option FdEntry
opened f = some (record { file = f; cloexec = false })

-- File 7 stands twice, file 8 once; descriptor 2 is free.
abbrev table : Filedesc
table = record { files = opened 7 ∷ opened 8 ∷ none ∷ opened 7 ∷ []; cmask = 0o022; max_files = 5 }

abbrev no_others : ℕ → ℕ
no_others f = 0

alloc_run : (alloc_fd_at table (pos 1) (record { file = 9; cloexec = true })).0 ≡ ok 2
unfolding alloc_fd_at scan
alloc_run = refl

-- Closing descriptors 0 and 1 runs the hook of file 8 only.
close_run : (close_range no_others (table, []) 0 1 false).2 ≡ 8 ∷ []
unfolding close_range take_slots take_slot slot release_entry refs
close_run = refl

closes_lem_example :
    let range = close_range no_others (table, []) 0 1 false in
    let exec = close_on_exec no_others (table, []) in
    let all = close_all no_others (table, []) in
    ((range.0 ≡ ok tt)
      × Once no_others (table.files, []) (range.1.files, range.2)
      × ((i : ℕ)
          → slot range.1.files i ≡ (if leb 0 i && leb i 1 then none else slot table.files i)))
    × (Once no_others (table.files, []) (exec.0.files, exec.1)
        × ((i : ℕ) → slot exec.0.files i ≡ left_in (λ e. e.cloexec) (slot table.files i)))
    × (Once no_others (table.files, []) (all.0.files, all.1) × (all.0.files ≡ []))
closes_lem_example = closes_lem no_others table [] 0 1 (omega arith)

-- Descriptor 4 is beyond the end of the table.
dup2-Duplicated_example :
    Duplicated 1 4 true (table, []) (dup2 no_others (table, []) (pos 1) (pos 4) true)
dup2-Duplicated_example = dup2-Duplicated no_others table [] 1 4 true

stderr_at_2 : get (with_stdio 10 11 12) (pos 2) ≡ ok 12
unfolding with_stdio new alloc_fd alloc_fd_at scan get slot
stderr_at_2 = refl

-- Some other process has file 7.
abbrev elsewhere : ℕ → ℕ
elsewhere f = if f == 7 then 1 else 0

fork_exit-Forked_example :
    let child = clone_table table in
    let (t', first) = close_all (λ f. elsewhere f + refs f child.files) (table, 8 ∷ []) in
    let (child', second) = close_all (λ f. elsewhere f + refs f t'.files) (child, first) in
    (t'.files ≡ []) × (child'.files ≡ []) × Forked elsewhere table (8 ∷ []) first second
fork_exit-Forked_example = fork_exit-Forked elsewhere table (8 ∷ [])
