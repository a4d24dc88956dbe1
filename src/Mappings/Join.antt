-- ===== src/Mappings/Join.antt =====
-- petra/src/vm/vmar/mappings.rs: splitting and merging keep what each address is mapped to.
use petra_os.Common.{
  ℕ, ◌+◌, ◌-◌, ◌≤◌, ◌<◌, ◌≡◌, refl, sym, Bool, true, false, ◌&&◌, Option, none, some, arith, ◌==◌,
}
use petra_os.Mappings.{VmMapping, end_of, is_none, same, split, can_join, can_merge, merged}
use petra_os.Mappings.View.{source, info}

same_eq : (b b' : Bool) → same b b' ≡ true → b ≡ b'
same_eq true b' h = sym h
same_eq false true h = absurd (cc)
same_eq false false h = refl

-- A split: the two sides meet at `at`, and make of each address what the whole did.
pub split-Info :
    (m : VmMapping) (at a : ℕ)
    → m.start < at
    → at < end_of m
    → let (left, right) = split m at in
      (end_of left ≡ at)
      × (right.start ≡ at)
      × (end_of right ≡ end_of m)
      × (0 < left.len)
      × (0 < right.len)
      × (info left a ≡ info m a)
      × (at ≤ a → info right a ≡ info m a)
unfolding split
split-Info m at a l h = (
  omega arith,
  refl,
  omega arith,
  omega arith,
  omega arith,
  refl,
  λ k.
      let e : m.backing_offset + (at - m.start) + (a - at) ≡ m.backing_offset + (a - m.start) =
        omega arith in
      rw e refl,
)

-- What `can_merge` says.
record Mergeable (l r : VmMapping) : Type 0 where
  meets : end_of l ≡ r.start
  shared : l.shared ≡ r.shared
  grows_down : l.grows_down ≡ r.grows_down
  locked : l.locked ≡ r.locked
  dont_fork : l.dont_fork ≡ r.dont_fork
  wipe_on_fork : l.wipe_on_fork ≡ r.wipe_on_fork
  perms : l.perms ≡ r.perms
  joins : can_join l r ≡ true

can_merge-Mergeable : (l r : VmMapping) → can_merge l r ≡ true → Mergeable l r
unfolding can_merge
can_merge-Mergeable l r h = record {
  meets = ground (arith, h);
  shared = same_eq l.shared r.shared (ground (arith, h));
  grows_down = same_eq l.grows_down r.grows_down (ground (arith, h));
  locked = same_eq l.locked r.locked (ground (arith, h));
  dont_fork = same_eq l.dont_fork r.dont_fork (ground (arith, h));
  wipe_on_fork = same_eq l.wipe_on_fork r.wipe_on_fork (ground (arith, h));
  perms = ground (arith, h);
  joins = ground (arith, h);
}

sources_join :
    (l r : VmMapping) (a : ℕ)
    → end_of l ≡ r.start
    → r.start ≤ a
    → can_join l r ≡ true
    → source l.backing (l.backing_offset + (a - l.start))
      ≡ source r.backing (r.backing_offset + (a - r.start))
sources_join l r a m k h = joined l.backing r.backing (unfold can_join in h)
  where
    joined :
        (b b' : Option ℕ)
        → (let t : Bool = elim b [
          | none ↦ is_none b'
          | some x ↦ elim b' [
            | none ↦ false
            | some y ↦ x == y && l.backing_offset + l.len == r.backing_offset
          ]
        ] in
            t ≡ true)
        → source b (l.backing_offset + (a - l.start)) ≡ source b' (r.backing_offset + (a - r.start))
    joined none none j = refl
    joined none (some y) j = absurd (cc)
    joined (some x) none j = absurd (cc)
    joined (some x) (some y) j =
        let e : x ≡ y = ground (arith, j) in
        let f : l.backing_offset + l.len ≡ r.backing_offset = ground (arith, j) in
        let g : l.backing_offset + (a - l.start) ≡ r.backing_offset + (a - r.start) =
          omega (arith, f, m) in
        rw (e, g) refl

-- A merger covers what its two parts did, and makes the same of each address.
pub merged-Info :
    (l r : VmMapping) (a : ℕ)
    → can_merge l r ≡ true
    → (end_of l ≡ r.start)
      × (end_of (merged l r) ≡ end_of r)
      × (info (merged l r) a ≡ info l a)
      × (r.start ≤ a → info (merged l r) a ≡ info r a)
unfolding merged
merged-Info l r a h =
    let m = can_merge-Mergeable l r h in
    (
      m.meets,
      omega (arith, m.meets),
      refl,
      λ k.
          let s = sources_join l r a m.meets k m.joins in
          rw (m.shared, m.grows_down, m.locked, m.dont_fork, m.wipe_on_fork, m.perms, s) refl,
    )
