-- ===== src/Ring.antt =====
-- petra/src/utils/ring_buffer.rs: the byte queue between an interrupt handler and its reader, one
-- operation at a time. The counters are u64 and wrap around; `cap` is the capacity, a parameter of
-- the type in the source.
pub mod Fifo
pub mod Overwrite
mod Tests
use petra_os.Common.{
  ℕ, zero, suc, ◌+◌, ◌-◌, ◌*◌, ◌/◌, ◌%◌, ◌^◌, ◌≤◌, ◌<◌, min, max, bit_and, ◌≡◌, refl, sym, ap, ap₂,
  ◌∙◌, subst, ◌≢◌, ◌↔◌, ◌⊎◌, inl, inr, Bool, true, false, not, ◌&&◌, ◌||◌, Option, none, some, List,
  [], ◌∷◌, ◌++◌, map, append-nil, append_assoc, arith, ltb, leb, ◌==◌, if◌then◌else◌, ltb→lt,
  lt→ltb, leb→le, ==_iff, tests, Bool-cases, Option-cases, if_cases, length, get_elem?, set, take,
  drop, replicate, All, length-append, take-append-drop, length-take, length-drop, take_all,
  drop_all, length-set, length-replicate, get_elem?-set_self, get_elem?-set_ne, get_elem?_total,
  get_elem?_lt, All-append, All-left, All-right,
}
use petra_os.Common.Errno.{
  Errno, eperm, enoent, esrch, eintr, e2big, ebadf, eagain, eacces, efault, eexist, ebusy, einval,
  emfile, efbig, enospc, enomsg, enotty, eio, erange, epipe, eidrm, enomem, emsgsize, etimedout,
  Result, ok, err, ◌>>=◌,
}
use petra_os.Common.Wait.{wait_until, wait_until_keeps, wait_until_returns, wait_until_attempt}

abbrev pub word : ℕ
word = 2 ^ 64

abbrev pub wrapping_inc : ℕ → ℕ
wrapping_inc n = (n + 1) % word

-- `wrapping_sub` of counters below 2^64.
abbrev pub wrapping_sub : ℕ → ℕ → ℕ
wrapping_sub a b = (a + (word - b)) % word

pub record RingBuffer : Type 0 where
  pub buffer : List ℕ
  pub head : ℕ
  pub tail : ℕ

unfoldable pub len : RingBuffer → ℕ
len r = wrapping_sub r.head r.tail

unfoldable pub is_empty : RingBuffer → Bool
is_empty r = len r == 0

module _ (cap : ℕ) where
  unfoldable pub new : RingBuffer
  new = record { buffer = replicate cap 0; head = 0; tail = 0 }

  -- The flag is whether the byte was taken.
  unfoldable pub push : ℕ → RingBuffer → Bool × RingBuffer
  push val r =
      if leb cap (wrapping_sub r.head r.tail)
      then (false, r)
      else (true, record r { buffer = set r.buffer (r.head % cap) val; head = wrapping_inc r.head })

  unfoldable pub pop_front : RingBuffer → Option ℕ × RingBuffer
  pop_front r =
      if r.tail == r.head
      then (none, r)
      else (get_elem? r.buffer (r.tail % cap), record r { tail = wrapping_inc r.tail })

  unfoldable pub push_overwrite : ℕ → RingBuffer → RingBuffer
  push_overwrite val r =
      let (taken, r') = push val r in if taken then r' else (push val (pop_front r).1).1

  unfoldable pub is_full : RingBuffer → Bool
  is_full r = leb cap (len r)

  -- The loop of `queue_input_bytes`.
  unfoldable pub push_all : List ℕ → RingBuffer → RingBuffer
  push_all [] r = r
  push_all (b ∷ bytes) r = push_all bytes (push_overwrite b r)
