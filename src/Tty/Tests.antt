-- ===== src/Tty/Tests.antt =====
-- petra/src/drivers/char/tty/core: runs of the model, and the theorems at a terminal with the
-- modes of `Termios::default`.
use petra_os.Common.{
  replicate, none, ℕ, ◌-◌, ◌≤◌, ◌<◌, ◌≡◌, refl, true, false, none, some, List, [], ◌∷◌, ◌++◌, arith,
  if◌then◌else◌, length, take, drop, All, length-replicate,
}
use petra_os.Common.Errno.{ok}
use petra_os.Tty.{
  canon_buf_size, Termios, LineDiscipline, has, is_canon, is_echo, is_isig, is_icrnl, is_igncr,
  is_inlcr, is_istrip, is_opost, is_onlcr, cc_at, translate, write_output, rubout, repeat, pop,
  is_blank, pop_while, erase_word, erase_char, word_erase, flush_line, is_eol, store_char,
  normal_char, input_canon, input_byte, signal_char, input_char, read_into, feed,
}
use petra_os.Tty.Terminal.{
  pop_input, interrupt, queue_size, Winsize, Terminal, queue_input_bytes, read, write, poll,
}
use petra_os.Tty.Terminal.Control.{tcsetsf, Context, handle_ioctl}
use native.Mathlib.Nat.{dvd_of_mod-eq-zero}
use petra_os.Ring.{RingBuffer, push_all, push_overwrite, push, pop_front, new, len}
use petra_os.Ring.Fifo.{contents, IsValid}
use petra_os.Tty.Erase.{before_word, word_erase_lem}
use petra_os.Tty.Line.{Plain, Enter, feed-typed}
use petra_os.Tty.Reading.{read_into_lem}
use petra_os.Tty.Terminal.Invariant.{IsSound, calls-IsSound}
use petra_os.Tty.Terminal.Wake.{read-typed}

-- `Termios::default`
abbrev default_modes : Termios
default_modes = record {
  c_iflag = 0o2400;
  c_oflag = 0o5;
  c_lflag = 0o73;
  c_cc = 3 ∷ 28 ∷ 127 ∷ 21 ∷ 4 ∷ 0 ∷ 1 ∷ 0 ∷ 17 ∷ 19 ∷ 26 ∷ 0 ∷ 18 ∷ 15 ∷ 23 ∷ 22 ∷ 0 ∷ 0 ∷ 0 ∷ [];
}

abbrev fresh : LineDiscipline
fresh = record { termios = default_modes; read_buf = []; canon_buf = []; eof_received = false }

-- "hi" and the return key.
abbrev hi : List ℕ
hi = b'h' ∷ b'i' ∷ []

edits :
    (feed (b'a' ∷ b' ' ∷ b'b' ∷ b'c' ∷ 23 ∷ b'd' ∷ 127 ∷ b'e' ∷ 13 ∷ []) fresh).read_buf
    ≡ b'a' ∷ b' ' ∷ b'e' ∷ 10 ∷ []
unfolding feed input_char input_byte is_istrip has signal_char is_isig cc_at is_canon input_canon
    normal_char is_eol store_char word_erase erase_word pop_while pop is_blank erase_char flush_line
    is_echo is_icrnl is_igncr is_inlcr
edits = refl

shows : write_output fresh (b'a' ∷ 10 ∷ []) ≡ b'a' ∷ 13 ∷ 10 ∷ []
unfolding write_output translate is_opost is_onlcr has
shows = refl

-- The lower-case letters are plain.
letter-Plain : (b : ℕ) → 96 < b → b < 123 → Plain fresh b
unfolding is_istrip has cc_at
letter-Plain b h k = record {
  seven_bit = λ e. absurd (cc);
  printed = (omega arith, omega arith, omega arith, omega arith);
  signals = (omega arith, omega arith, omega arith);
  edits = (omega arith, omega arith, omega arith, omega arith);
  ends = omega arith;
}

hi-Plain : All (Plain fresh) hi
hi-Plain = (
  letter-Plain b'h' (omega arith) (omega arith),
  (letter-Plain b'i' (omega arith) (omega arith), tt),
)

return-Enter : Enter fresh 13
unfolding input_byte is_istrip is_igncr is_icrnl has cc_at
return-Enter = record {
  newline = refl;
  signals = (omega arith, omega arith, omega arith);
  edits = (omega arith, omega arith, omega arith, omega arith);
}

word_erase_lem_example :
    let d = record fresh { canon_buf = b'a' ∷ b' ' ∷ b'b' ∷ b'c' ∷ b' ' ∷ [] } in
    let kept = before_word d.canon_buf in
    word_erase d ≡ record {
      disc = record d { canon_buf = kept };
      output =
          if is_echo d
          then repeat (length d.canon_buf - length kept) (write_output d rubout)
          else [];
      signal = none;
      woken = false;
    }
word_erase_lem_example =
    word_erase_lem (record fresh { canon_buf = b'a' ∷ b' ' ∷ b'b' ∷ b'c' ∷ b' ' ∷ [] })

is_canon-fresh : is_canon fresh ≡ true
unfolding is_canon has
is_canon-fresh = refl

feed-typed_example : feed (hi ++ (13 ∷ [])) fresh ≡ record fresh {
  read_buf = fresh.read_buf ++ take canon_buf_size (hi ++ (10 ∷ []));
  canon_buf = [];
}
feed-typed_example = feed-typed fresh hi 13 is_canon-fresh refl hi-Plain return-Enter

read_into_lem_example :
    let d = record fresh { read_buf = hi ++ 10 ∷ hi } in
    (2 < 100 → read_into 100 d ≡ (hi ++ (10 ∷ []), record fresh { read_buf = hi }))
    × (100 ≤ 2
        → read_into 100 d ≡ (take 100 hi, record fresh { read_buf = drop 100 hi ++ 10 ∷ hi }))
unfolding is_eol cc_at
read_into_lem_example = (read_into_lem 100 fresh hi 10 hi).2 is_canon-fresh (refl, (refl, tt)) refl

abbrev screen_size : Winsize
screen_size = record { ws_row = 25; ws_col = 80; ws_xpixel = 0; ws_ypixel = 0 }

-- A terminal on which nothing has happened.
abbrev console : Terminal
console = record {
  disc = fresh;
  input = new queue_size;
  hung_up = false;
  winsize = screen_size;
  winsize_user_set = false;
  foreground_pgrp = none;
  session = none;
  screen = [];
  signals = [];
  free = true;
  expired = false;
  interrupted = false;
  pending = false;
  wakeups = 0;
  interrupts = [];
}

input-IsValid : IsValid queue_size (new queue_size)
unfolding new len
input-IsValid = record {
  size = length-replicate {A = ℕ} queue_size 0;
  positive = omega arith;
  small = omega arith;
  whole = dvd_of_mod-eq-zero queue_size refl;
  head_fits = omega arith;
  tail_fits = omega arith;
  room = omega arith;
}

console-IsSound : IsSound console
console-IsSound = record { line = omega arith }

abbrev context : Context
context = record {
  get_modes = ok default_modes;
  get_window = ok screen_size;
  get_number = ok 7;
  put = ok tt;
  arg = 0;
  device = screen_size;
  caller = none;
  lock_free = true;
}

calls-IsSound_example :
    IsSound (queue_input_bytes hi console)
    × IsSound (read 5 (queue_input_bytes [] ∷ []) console).1
    × IsSound (write (ok tt) hi console).1
    × IsSound (poll console).1
    × IsSound (handle_ioctl tcsetsf context console).terminal
calls-IsSound_example =
    calls-IsSound console hi 5 (queue_input_bytes [] ∷ []) (ok tt) tcsetsf context
      ((λ t s. unfold queue_input_bytes in record { line = s.line }), tt) console-IsSound

unqueued : contents queue_size (new queue_size) ≡ []
unfolding len new
unqueued = refl

read-typed_example :
    let typing : Terminal → Terminal = queue_input_bytes (hi ++ (13 ∷ [])) in
    let unheard : Terminal → Terminal = λ u. record (typing u) { wakeups = u.wakeups } in
    ((read 100 [] console).0 ≡ none)
    × ((read 100 (typing ∷ []) console).0 ≡ some (ok (hi ++ (10 ∷ []))))
    × ((read 100 (unheard ∷ []) console).0 ≡ none)
read-typed_example =
    read-typed console hi 13 100 refl input-IsValid is_canon-fresh (refl, refl, unqueued)
      (refl, refl, refl) refl refl hi-Plain return-Enter (omega arith) (omega arith)

-- An interrupt in the middle of a pop from a full queue: the pop sets the tail back, and the queue
-- counts more bytes than it has room for.
set_back :
    let full : RingBuffer = push_all queue_size (replicate queue_size 7) (new queue_size) in
    let t = (pop_input (record console { input = full; interrupts = (8 ∷ 9 ∷ []) ∷ [] })).1 in
    len t.input ≡ 1025
unfolding new pop_input interrupt queue_input_bytes push_all push_overwrite push pop_front len
set_back = refl
