-- ===== src/Shm/Held.antt =====
-- petra/src/ipc/shm/mod.rs: the counts of attachments, and what a detach leaves of them.
use native.Mathlib.Decide.{ℕ_discrete}
use petra_os.Common.{
  ℕ, ◌+◌, ◌%◌, ◌≤◌, ◌<◌, ◌≡◌, refl, sym, ap, ◌∙◌, inl, inr, true, false, not, ◌&&◌, none, some,
  List, [], ◌∷◌, arith, leb, ◌==◌, if◌then◌else◌, ==_iff, Option-cases, if_cases, if_true, if_false,
  All,
}
use petra_os.Common.Errno.{result_cases, Result}
use petra_os.Sem.Registry.{lookup}
use petra_os.Shm.{
  page_size, ShmSegment, ShmAttachment, Shms, update, take_attachment, detached, detach_segment,
  shm_dt,
}
use petra_os.Shm.Control.{owned, not_owned, detach_all, on_proc_exit}
use petra_os.Shm.Table.{
  count, count_of, nattch_of, Awaited, count-owned, count-take_none, nattch_of-remove,
  count-take_some, lookup-update_same, lookup-update_other, All-update, All-remove,
}

-- Each segment has a count of at least its attachments, so that one with attachments is in the
-- table, and one that is marked for deletion has a count above 0.
pub record Held (w : Shms) : Type 0 where
  pub counted : (id : ℕ) → count id w.attachments ≤ nattch_of id w.objects
  pub awaited : All Awaited w.objects

pub nattch_of-some :
    (id : ℕ) (l : List (ℕ × ShmSegment)) (s : ShmSegment)
    → lookup id l ≡ some s
    → nattch_of id l ≡ s.nattch
unfolding nattch_of
nattch_of-some id l s e = ap count_of e

pub nattch_of-none : (id : ℕ) (l : List (ℕ × ShmSegment)) → lookup id l ≡ none → nattch_of id l ≡ 0
unfolding nattch_of
nattch_of-none id l e = ap count_of e

pub nattch_of-update :
    (f : ShmSegment → ShmSegment) (id j : ℕ) (l : List (ℕ × ShmSegment)) (s : ShmSegment)
    → lookup j l ≡ some s
    → nattch_of id (update j f l) ≡ (if j == id then (f s).nattch else nattch_of id l)
unfolding nattch_of
nattch_of-update f id j l s e = elim (ℕ_discrete j id) [
  | yes h ↦
      let same : (j == id) ≡ true = (==_iff j id).1 h in
      ap (λ k. count_of (lookup k (update j f l))) (sym h)
      ∙ ap count_of (lookup-update_same f j l s e)
      ∙ sym (if_true (j == id) (count_of (lookup id l)) same)
  | no h ↦
      let other : (j == id) ≡ false = ground (arith, h) in
      ap count_of (lookup-update_other f id j l h) ∙ sym (if_false (j == id) ((f s).nattch) other)
]

-- What a detach leaves: `extra` attachments are still counted when they were counted with the one
-- that goes.
record Left (extra : ℕ → ℕ) (w w' : Shms) : Type 0 where
  counted : (id : ℕ) → extra id ≤ nattch_of id w'.objects
  awaited : All Awaited w'.objects
  same : w'.attachments ≡ w.attachments

detach_segment-Left :
    (extra : ℕ → ℕ) (pid shmid : ℕ) (w : Shms)
    → ((id : ℕ) → extra id + (if shmid == id then 1 else 0) ≤ nattch_of id w.objects)
    → All Awaited w.objects
    → Left extra w (detach_segment pid shmid w)
unfolding detach_segment
detach_segment-Left extra pid shmid w counted awaited =
    elim (Option-cases (lookup shmid w.objects)) [
      | inl p ↦
          rw (p, detach_segment)
            (record { counted = λ id. ground (arith, counted id); awaited = awaited; same = refl })
      | inr (s, p) ↦
          let size = nattch_of-some shmid w.objects s p in
          let held = counted shmid in
          let positive : 0 < s.nattch = ground (arith, size, held) in
          rw (p, detach_segment)
            (if_cases (Left extra w) (leb s.nattch 1 && s.marked_for_deletion)
              (λ t. record {
                counted =
                    λ id. ground (arith, counted id, nattch_of-remove id shmid w.objects, size, t);
                awaited = All-remove shmid w.objects awaited;
                same = refl;
              })
              λ t. record {
                counted = λ id. ground (
                  arith,
                  counted id,
                  nattch_of-update (detached pid w.now) id shmid w.objects s p,
                  size,
                  positive,
                );
                awaited =
                    All-update (detached pid w.now) shmid w.objects s p
                      (λ m. ground (arith, t, positive, m)) awaited;
                same = refl;
              })
    ]

pub shm_dt-Held :
    (addr : ℕ) (munmap : Result (Unit {0})) (pid : ℕ) (w : Shms)
    → Held w
    → Held (shm_dt addr munmap pid w).1
unfolding shm_dt
shm_dt-Held addr munmap pid w h =
    let P = λ (p : Result (Unit {0}) × Shms). Held p.1 in
    let others = (take_attachment pid addr w.attachments).1 in
    if_cases P (not (addr % page_size == 0)) (λ _. h)
      λ _. elim (Option-cases (take_attachment pid addr w.attachments).0) [
        | inl p ↦ rw p h
        | inr (a, p) ↦ rw p (
            result_cases P munmap
              (λ e. record {
                counted =
                    λ id. omega (arith, h.counted id, count-take_none id pid addr w.attachments);
                awaited = h.awaited;
              })
              λ u.
                let left =
                  detach_segment-Left (λ id. count id others) pid a.shmid
                    (record w { attachments = others })
                    (λ id. ground (
                      arith,
                      h.counted id,
                      count-take_none id pid addr w.attachments,
                      count-take_some pid addr w.attachments p,
                    ))
                    h.awaited in
                record {
                  counted = λ id. rw (ap (count id) left.same) (left.counted id);
                  awaited = left.awaited;
                })
      ]

detach_all-Left :
    (pid : ℕ) (l : List ShmAttachment) (extra : ℕ → ℕ) (w : Shms)
    → ((id : ℕ) → extra id + count id l ≤ nattch_of id w.objects)
    → All Awaited w.objects
    → Left extra w (detach_all pid l w)
unfolding detach_all count
detach_all-Left pid [] extra w counted awaited = record {
  counted = λ id. omega (arith, counted id);
  awaited = awaited;
  same = refl;
}
detach_all-Left pid (a ∷ l) extra w counted awaited =
    let one =
      detach_segment-Left (λ id. extra id + count id l) pid a.shmid w
        (λ id. ground (arith, counted id)) awaited in
    let rest = detach_all-Left pid l extra (detach_segment pid a.shmid w) one.counted one.awaited in
    record { counted = rest.counted; awaited = rest.awaited; same = rest.same ∙ one.same }

pub on_proc_exit-Held : (pid : ℕ) (w : Shms) → Held w → Held (on_proc_exit pid w)
unfolding on_proc_exit
on_proc_exit-Held pid w h =
    let others = not_owned pid w.attachments in
    let left =
      detach_all-Left pid (owned pid w.attachments) (λ id. count id others)
        (record w { attachments = others })
        (λ id. omega (arith, h.counted id, count-owned id pid w.attachments)) h.awaited in
    record {
      counted = λ id. rw (ap (count id) left.same) (left.counted id);
      awaited = left.awaited;
    }
