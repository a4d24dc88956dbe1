-- ===== src/Fd/Fork.antt =====
-- petra/src/fs/fd/fd.rs: a table that `fork` copies and then both processes close.
use petra_os.Common.{
  ℕ, ◌+◌, ◌<◌, ◌≡◌, refl, ap, ◌∙◌, ◌&&◌, List, [], arith, ltb, ◌==◌, if◌then◌else◌,
}
use petra_os.Fd.{Filedesc, refs, clone_table, close_all}
use petra_os.Fd.Hooks.{times}
use petra_os.Fd.Release.{closes_lem}

-- Both tables after a fork and the exits of the two processes, the parent's first, with the close
-- hooks that had run after the first exit and after the second. `others` is the references that
-- neither table holds.
pub record Forked (others : ℕ → ℕ) (t : Filedesc) (closed first second : List ℕ) : Type 0 where
  pub kept : (f : ℕ) → 0 < refs f t.files → times f first ≡ times f closed
  pub once :
      (f : ℕ)
      → times f second ≡ times f closed + (if ltb 0 (refs f t.files) && others f == 0 then 1 else 0)

refs-nil : (f : ℕ) → refs f [] ≡ 0
unfolding refs
refs-nil f = refl

-- A fork copies the table. Whichever process exits first runs no close hook of a file that the
-- table held, since the other still has it; when both have exited, the hook of each file that the
-- table held has run once if no one else has the file, and otherwise not at all; both tables are then empty.
pub fork_exit-Forked :
    (others : ℕ → ℕ) (t : Filedesc) (closed : List ℕ)
    → let child = clone_table t in
      let (t', first) = close_all (λ f. others f + refs f child.files) (t, closed) in
      let (child', second) = close_all (λ f. others f + refs f t'.files) (child, first) in
      (t'.files ≡ []) × (child'.files ≡ []) × Forked others t closed first second
unfolding clone_table
fork_exit-Forked others t closed =
    let child = clone_table t in
    let shared : ℕ → ℕ = λ f. others f + refs f child.files in
    let one = close_all shared (t, closed) in
    let left : ℕ → ℕ = λ f. others f + refs f one.0.files in
    let two = close_all left (child, one.1) in
    let (_, _, (once, empty)) = closes_lem shared t closed 0 0 (omega arith) in
    let (_, _, (once', empty')) = closes_lem left child one.1 0 0 (omega arith) in
    let gone : (f : ℕ) → refs f one.0.files ≡ 0 = λ f. ap (refs f) empty ∙ refs-nil f in
    let gone' : (f : ℕ) → refs f two.0.files ≡ 0 = λ f. ap (refs f) empty' ∙ refs-nil f in
    (
      empty,
      empty',
      record {
        kept = λ f held. let o = (once f).1 in ground (arith, o, held);
        once = λ f.
            let o = (once f).1 in let o' = (once' f).1 in ground (arith, o, o', gone f, gone' f);
      },
    )
