-- ===== src/Mappings.antt =====
-- petra/src/vm/vmar/mappings.rs: the records of a virtual address space. Sums of addresses do not
-- overflow: they lie below the end of user space.
pub mod Table
pub mod View
pub mod Join
pub mod Insert
pub mod Pieces
pub mod Taken
pub mod Piece
pub mod Carve
pub mod Survive
pub mod Allocator
pub mod Hole
pub mod Room
pub mod Lookup
mod Tests
use petra_os.Common.{
  ℕ, zero, suc, ◌+◌, ◌-◌, ◌*◌, ◌/◌, ◌%◌, ◌^◌, ◌≤◌, ◌<◌, min, max, bit_and, ◌≡◌, refl, sym, ap, ap₂,
  ◌∙◌, subst, ◌≢◌, ◌↔◌, ◌⊎◌, inl, inr, Bool, true, false, not, ◌&&◌, ◌||◌, Option, none, some, List,
  [], ◌∷◌, ◌++◌, map, append-nil, append_assoc, arith, ltb, leb, ◌==◌, if◌then◌else◌, ltb→lt,
  lt→ltb, leb→le, ==_iff, tests, Bool-cases, Option-cases, if_cases, length, get_elem?, set, take,
  drop, replicate, All, length-append, take-append-drop, length-take, length-drop, take_all,
  drop_all, length-set, length-replicate, get_elem?-set_self, get_elem?-set_ne, get_elem?_total,
  get_elem?_lt, All-append, All-left, All-right,
}
use petra_os.Common.Errno.{
  Errno, eperm, enoent, esrch, eintr, e2big, ebadf, eagain, eacces, efault, eexist, ebusy, einval,
  emfile, efbig, enospc, erange, epipe, eidrm, enomem, emsgsize, etimedout, Result, ok, err, ◌>>=◌,
}
use petra_os.Common.Wait.{wait_until, wait_until_keeps, wait_until_returns, wait_until_attempt}

abbrev pub page_size : ℕ
page_size = 4096

-- `start..end`
pub record Range : Type 0 where
  pub start : ℕ
  pub end : ℕ

-- The backing object is known by its identity, `Arc::ptr_eq`; the permissions by their bits.
pub record VmMapping : Type 0 where
  pub start : ℕ
  pub len : ℕ
  pub perms : ℕ
  pub shared : Bool
  pub grows_down : Bool
  pub locked : Bool
  pub dont_fork : Bool
  pub wipe_on_fork : Bool
  pub backing : Option ℕ
  pub backing_offset : ℕ

unfoldable pub new : ℕ → ℕ → ℕ → Bool → Bool → Option ℕ → ℕ → VmMapping
new start len perms shared grows_down backing backing_offset = record {
  start = start;
  len = len;
  perms = perms;
  shared = shared;
  grows_down = grows_down;
  locked = false;
  dont_fork = false;
  wipe_on_fork = false;
  backing = backing;
  backing_offset = backing_offset;
}

abbrev pub end_of : VmMapping → ℕ
end_of m = m.start + m.len

abbrev pub range_of : VmMapping → Range
range_of m = record { start = m.start; end = end_of m }

abbrev pub is_none {ℓ} : {A : Type ℓ} → Option A → Bool
is_none none = true
is_none (some a) = false

abbrev pub same : Bool → Bool → Bool
same true b = b
same false b = not b

unfoldable pub is_growable : VmMapping → Bool
is_growable m = m.grows_down && not m.shared && is_none m.backing

unfoldable pub extend_downwards : VmMapping → ℕ → VmMapping
extend_downwards m page = record m { start = page; len = m.len + (m.start - page) }

-- `split`, `at` strictly inside.
unfoldable pub split : VmMapping → ℕ → VmMapping × VmMapping
split m at =
    let left_len = at - m.start in
    (
      record m { len = left_len },
      record m { start = at; len = m.len - left_len; backing_offset = m.backing_offset + left_len },
    )

-- `split_range`; `none` is the failed assertion.
unfoldable pub split_range :
    VmMapping → Range → Option (Option VmMapping × VmMapping × Option VmMapping)
split_range m sub =
    let at_start = split m sub.start in
    if not (leb m.start sub.start && leb sub.end (end_of m))
    then none
    else if sub.start == m.start && sub.end == end_of m
    then some (none, m, none)
    else if ltb m.start sub.start
    then (if ltb sub.end (end_of m)
        then some (some at_start.0, (split at_start.1 sub.end).0, some (split at_start.1 sub.end).1)
        else some (some at_start.0, at_start.1, none))
    else if ltb sub.end (end_of m)
    then some (none, (split m sub.end).0, some (split m sub.end).1)
    else some (none, m, none)

unfoldable pub can_join : VmMapping → VmMapping → Bool
can_join left right = elim left.backing [
  | none ↦ is_none right.backing
  | some b ↦ elim right.backing [
    | none ↦ false
    | some b' ↦ b == b' && left.backing_offset + left.len == right.backing_offset
  ]
]

unfoldable pub can_merge : VmMapping → VmMapping → Bool
can_merge left right =
    end_of left == right.start
    && same left.shared right.shared
    && same left.grows_down right.grows_down
    && same left.locked right.locked
    && same left.dont_fork right.dont_fork
    && same left.wipe_on_fork right.wipe_on_fork
    && left.perms == right.perms
    && can_join left right

unfoldable pub merged : VmMapping → VmMapping → VmMapping
merged left right = record left { len = left.len + right.len }
