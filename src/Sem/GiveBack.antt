-- ===== src/Sem/GiveBack.antt =====
-- petra/src/ipc/sem/undo.rs: what a process's exit gives back.
use petra_os.Common.{
  ℕ, ◌+◌, ◌≤◌, ◌<◌, ◌≡◌, refl, sym, ap, ◌∙◌, inl, inr, false, some, List, [], ◌∷◌, arith, ◌==◌,
  Bool-cases, length,
}
use petra_os.Common.Int.{pos, pos_part, neg_part}
use petra_os.Sem.{
  semvmx, semaem, Semaphore, SemBuf, SemSet, Undo, adj_of, forget, apply_ops, apply_proc_undo,
}
use petra_os.Sem.Atomic.{ups, downs, val_at}
use petra_os.Sem.Registry.{lookup}
use petra_os.Sem.Exit.{Undoing, apply_ops-balance}
use petra_os.Sem.Walk.{entries, entries-apply_ops, Walked, walk}

adj_of-forget_owner :
    (pid semid i : ℕ) (us : List Undo)
    → adj_of pid semid i (forget (λ u. u.owner == pid) us) ≡ pos 0
unfolding adj_of forget
adj_of-forget_owner pid semid i [] = refl
adj_of-forget_owner pid semid i (u ∷ us) =
    let rest = adj_of-forget_owner pid semid i us in
    elim (Bool-cases (u.owner == pid)) [
      | inl e ↦ ground (arith, e, rest)
      | inr e ↦ ground (arith, e, rest)
    ]

-- An exit gives back what the process did with SEM_UNDO. Let it have no adjustment on a semaphore
-- of a live set, and at most one record for it. Let all of some operations on the set have
-- SEM_UNDO, and let those on this semaphore add and take at most SEMAEM altogether. When they have
-- been applied, and the process then exits, with whatever other adjustments it has and whatever
-- other sets there are, the set is still registered, the semaphore has its old value, if that is at
-- most SEMVMX, and the process has no adjustment left on any semaphore.
pub apply_proc_undo-apply_ops :
    (pid now i : ℕ) (ops : List SemBuf) (s : SemSet) (us : List Undo)
    (out : List Semaphore × List Undo) (sets : List (ℕ × SemSet))
    → Undoing ops
    → adj_of pid s.semid i us ≡ pos 0
    → entries pid s.semid i us ≤ 1
    → ups i ops + downs i ops ≤ semaem
    → apply_ops pid s.semid ops (s.sems, us) ≡ some out
    → i < s.nsems
    → s.nsems ≡ length s.sems
    → s.destroyed ≡ false
    → val_at s.sems i ≤ semvmx
    → lookup s.semid sets ≡ some (record s { sems = out.0 })
    → let (us', sets') = apply_proc_undo pid now (out.1, sets) in
      (t : SemSet) × (lookup s.semid sets' ≡ some t)
      × (val_at t.sems i ≡ val_at s.sems i)
      × ((semid num : ℕ) → adj_of pid semid num us' ≡ pos 0)
unfolding apply_proc_undo
apply_proc_undo-apply_ops pid now i ops s us out sets u z one b h lt n d r found =
    let bal = apply_ops-balance pid s.semid i ops s.sems us out u (rw z (omega (arith, b))) h in
    let bal' = rw z at bal.0 in
    let adj = adj_of pid s.semid i out.1 in
    let start : Walked s.semid i s.nsems (val_at out.0 i) sets = record {
      set_now = record s { sems = out.0 };
      there = found;
      shape = record { live = d; count = refl; whole = bal.1 ∙ sym n };
      value = refl;
    } in
    let fits : adj ≡ pos 0 → val_at out.0 i ≤ semvmx =
      λ e. omega (arith, bal', r, ap pos_part e, ap neg_part e) in
    let end =
      walk pid now s.semid i s.nsems lt out.1 (val_at out.0 i) sets
        (entries-apply_ops pid s.semid i ops s.sems us out u one h) fits start in
    (
      end.set_now,
      end.there,
      end.value ∙ omega (arith, bal', r),
      λ semid num. adj_of-forget_owner pid semid num out.1,
    )
