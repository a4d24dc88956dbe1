-- ===== src/Tty/Terminal.antt =====
-- petra/src/drivers/char/tty/core/tty.rs, input.rs: a terminal around its line discipline, with the
-- queue that the interrupt handlers fill. What the driver is given is kept as `screen`, and the
-- signals for the foreground group as `signals`. `free` says that no one else is draining the
-- queue and that this terminal is the console; `expired` that the deadline of a timed read has
-- passed, and `interrupted` that the caller has a signal to handle. `pending` is INPUT_PENDING,
-- `wakeups` counts the calls of `wake_readers`, and `interrupts` holds the bytes that interrupts
-- will queue, each in the middle of one pop.
pub mod Invariant
pub mod Wake
pub mod Control
use petra_os.Common.{
  ℕ, zero, suc, ◌+◌, ◌-◌, ◌*◌, ◌/◌, ◌%◌, ◌^◌, ◌≤◌, ◌<◌, min, max, bit_and, ◌≡◌, refl, sym, ap, ap₂,
  ◌∙◌, subst, ◌≢◌, ◌↔◌, ◌⊎◌, inl, inr, Bool, true, false, not, ◌&&◌, ◌||◌, Option, none, some, List,
  [], ◌∷◌, ◌++◌, map, append-nil, append_assoc, arith, ltb, leb, ◌==◌, if◌then◌else◌, ltb→lt,
  lt→ltb, leb→le, ==_iff, tests, Bool-cases, Option-cases, if_cases, length, get_elem?, set, take,
  drop, replicate, All, length-append, take-append-drop, length-take, length-drop, take_all,
  drop_all, length-set, length-replicate, get_elem?-set_self, get_elem?-set_ne, get_elem?_total,
  get_elem?_lt, All-append, All-left, All-right,
}
use petra_os.Common.Errno.{
  Errno, eperm, enoent, esrch, eintr, e2big, ebadf, eagain, eacces, efault, eexist, ebusy, einval,
  emfile, efbig, enospc, enomsg, enotty, eio, erange, epipe, eidrm, enomem, emsgsize, etimedout,
  Result, ok, err, ◌>>=◌,
}
use petra_os.Common.Wait.{wait_until, wait_until_keeps, wait_until_returns, wait_until_attempt}
use petra_os.Tty.{
  isig, icanon, echo, echok, noflsh, istrip, inlcr, igncr, icrnl, opost, onlcr, vintr, vquit,
  verase, vkill, veof, vtime, vmin, vsusp, veol, vwerase, canon_buf_size, Termios, LineDiscipline,
  has, is_canon, is_echo, is_echok, is_isig, is_noflsh, is_icrnl, is_igncr, is_inlcr, is_istrip,
  is_opost, is_onlcr, cc_at, clear, translate, write_output, Signal, sigint, sigquit, sigtstp, Fed,
  quiet, echoed, rubout, repeat, pop, is_blank, pop_while, erase_word, erase_char, word_erase,
  line_kill, flush_line, end_of_file, is_eol, store_char, normal_char, input_canon, input_raw,
  input_byte, signal_char, input_char, read_loop, read_into, feed,
}
use petra_os.Ring.{wrapping_inc, RingBuffer, len, push_all}

abbrev pub queue_size : ℕ
queue_size = 1024

pub record Winsize : Type 0 where
  pub ws_row : ℕ
  pub ws_col : ℕ
  pub ws_xpixel : ℕ
  pub ws_ypixel : ℕ

pub record Terminal : Type 0 where
  pub disc : LineDiscipline
  pub input : RingBuffer
  pub hung_up : Bool
  pub winsize : Winsize
  pub winsize_user_set : Bool
  pub foreground_pgrp : Option ℕ
  pub session : Option ℕ
  pub screen : List ℕ
  pub signals : List Signal
  pub free : Bool
  pub expired : Bool
  pub interrupted : Bool
  pub pending : Bool
  pub wakeups : ℕ
  pub interrupts : List (List ℕ)

optional : Option Signal → List Signal
optional none = []
optional (some s) = s ∷ []

-- `input_byte`; an error of the driver is ignored.
unfoldable pub receive : ℕ → Terminal → Terminal
unfolding optional
receive byte t =
    let f = input_char byte t.disc in
    record t {
      disc = f.disc;
      screen = t.screen ++ f.output;
      signals = t.signals ++ optional f.signal;
      wakeups = t.wakeups + 1;
    }

unfoldable pub queue_input_bytes : List ℕ → Terminal → Terminal
queue_input_bytes bytes t = record t {
  input = push_all queue_size bytes t.input;
  pending = true;
  wakeups = t.wakeups + 1;
}

-- The next interrupt, if one is to come.
unfoldable pub interrupt : Terminal → Terminal
interrupt t = elim t.interrupts [
  | [] ↦ t
  | bytes ∷ rest ↦ queue_input_bytes bytes (record t { interrupts = rest })
]

-- `pop`, with an interrupt after the loads of the counters, before the loads of the byte and the
-- store of the tail: that store undoes what a full queue's `push_overwrite` did to the tail.
unfoldable pub pop_input : Terminal → Option ℕ × Terminal
pop_input t =
    let tail = t.input.tail in
    let t' = interrupt t in
    if tail == t.input.head then (none, t) else (
      get_elem? t'.input.buffer (tail % queue_size),
      record t' { input = record t'.input { tail = wrapping_inc tail } },
    )

abbrev pub total : List (List ℕ) → ℕ
total [] = 0
total (bytes ∷ rest) = length bytes + total rest

-- The loop of `drain_input`. The fuel is the number of bytes queued and still to come: each pop
-- moves the tail up by one, and each byte that is queued the head by one.
unfoldable pub drain_loop : ℕ → Terminal → Terminal
drain_loop zero t = t
drain_loop (suc fuel) t =
    let (popped, t') = pop_input t in
    elim popped [ none ↦ t | some b ↦ drain_loop fuel (receive b t') ]

unfoldable pub drain_input : Terminal → Terminal
drain_input t = if t.free then drain_loop (len t.input + total t.interrupts) t else t

unfoldable pub take_bytes : ℕ → Terminal → Option (List ℕ) × Terminal
take_bytes n t = let (got, d) = read_into n t.disc in (some got, record t { disc = d })

-- The condition that `read` sleeps on, after the queue is drained.
unfoldable pub ready_canon : ℕ → Terminal → Option (List ℕ) × Terminal
ready_canon n t =
    if ltb 0 (length t.disc.read_buf)
    then take_bytes n t
    else if t.disc.eof_received
    then (some [], record t { disc = record t.disc { eof_received = false } })
    else if t.hung_up
    then (some [], t)
    else (none, t)

unfoldable pub ready_raw : ℕ → ℕ → ℕ → Terminal → Option (List ℕ) × Terminal
ready_raw min_bytes time n t =
    let avail = length t.disc.read_buf in
    let late = ltb 0 time && t.expired in
    if min_bytes == 0
    then (if ltb 0 avail
        then take_bytes n t
        else if time == 0 || late
        then (some [], t)
        else (none, t))
    else if ltb 0 avail && (leb (min min_bytes n) avail || late)
    then take_bytes n t
    else if t.hung_up
    then take_bytes n t
    else (none, t)

-- `wait_until_or_cancelled`: a condition that gives nothing is cancelled by a signal.
unfoldable pub resolve : Option (List ℕ) → Bool → Option (Result (List ℕ))
resolve (some bytes) interrupted = some (ok bytes)
resolve none true = some (err eintr)
resolve none false = none

unfoldable pub read_cond : Bool → ℕ → ℕ → ℕ → Terminal → Option (Result (List ℕ)) × Terminal
read_cond canon min_bytes time n t =
    let (got, t') =
      if canon then ready_canon n (drain_input t) else ready_raw min_bytes time n (drain_input t) in
    (resolve got t'.interrupted, t')

-- The sleep: after each move of the others, the reader tries again if the move woke it, which
-- `wake_readers`, a signal or the deadline does, and sleeps on if not.
unfoldable pub sleep :
    (Terminal → Option (Result (List ℕ)) × Terminal)
    → List (Terminal → Terminal)
    → Terminal
    → Option (Result (List ℕ)) × Terminal
sleep attempt [] t = (none, t)
sleep attempt (others ∷ ws) t =
    let t' = others t in
    let again = attempt t' in
    let rest = sleep attempt ws again.1 in
    let still = sleep attempt ws t' in
    if t'.wakeups == t.wakeups && not (t'.interrupted || t'.expired)
    then still
    else elim again.0 [ none ↦ rest | some r ↦ (some r, again.1) ]

-- The list holds what the other threads and the interrupts do while the call sleeps. The modes are
-- those at the start.
unfoldable pub read :
    ℕ → List (Terminal → Terminal) → Terminal → Option (Result (List ℕ)) × Terminal
read n ws t =
    let attempt = read_cond (is_canon t.disc) (cc_at t.disc vmin) (cc_at t.disc vtime) n in
    let first = attempt t in
    if n == 0
    then (some (ok []), t)
    else elim first.0 [ none ↦ sleep attempt ws first.1 | some r ↦ (some r, first.1) ]

-- `write`, with what the driver answers.
unfoldable pub write : Result (Unit {0}) → List ℕ → Terminal → Result ℕ × Terminal
write answer buf t = if t.hung_up then (err eio, t) else elim answer [
  | err e ↦ (err e, t)
  | ok _ ↦ (ok (length buf), record t { screen = t.screen ++ write_output t.disc buf })
]

-- `poll`: the IN (with RDNORM) bit. The OUT bit is always set.
unfoldable pub poll : Terminal → Bool × Terminal
poll t = let t' = drain_input t in (ltb 0 (length t'.disc.read_buf) || t'.disc.eof_received, t')
