-- ===== src/Tty/Terminal/Control.antt =====
-- petra/src/drivers/char/tty/core/ioctl.rs: the commands of a terminal. `get` is what reading the
-- argument from user memory gives, `put` what copying the answer there gives. A request is one
-- constructor for each command, with the commands that share a body together.
use petra_os.Common.{
  ◌+◌, [], ◌∷◌, ◌++◌, ℕ, zero, suc, Bool, true, false, not, ◌&&◌, ◌||◌, Option, none, some, [], ltb,
  ◌==◌, if◌then◌else◌, length,
}
use petra_os.Common.Errno.{Errno, eperm, einval, enotty, Result, ok, err}
use petra_os.Tty.{sigwinch, Termios}
use petra_os.Tty.Terminal.{pop_input, total, Winsize, Terminal, drain_input}
use petra_os.Ring.{len}

-- The loop of `flush_input_queue`.
unfoldable pub flush_loop : ℕ → Terminal → Terminal
flush_loop zero t = t
flush_loop (suc fuel) t =
    let (popped, t') = pop_input t in elim popped [ none ↦ t | some b ↦ flush_loop fuel t' ]

-- `flush_input_queue`, which asks only whether the drain lock is free.
unfoldable pub flush_input_queue : Bool → Terminal → Terminal
flush_input_queue lock_free t =
    if lock_free then flush_loop (len t.input + total t.interrupts) t else t

unfoldable pub flush_buffers : Bool → Terminal → Terminal
flush_buffers lock_free t =
    let t' = flush_input_queue lock_free t in
    record t' { disc = record t'.disc { read_buf = []; canon_buf = [] } }

pub data Request : Type 0 where
  tcgets tcsets tcsetsf tcflsh breaks tiocgwinsz tiocswinsz fionread tiocoutq tiocspgrp tiocgpgrp
        tiocsctty tiocnotty tiocgsid other :
      Request

-- The values that the commands read and write.
pub data Value : Type 0 where
  modes : Termios → Value
  window : Winsize → Value
  number : ℕ → Value
  nothing : Value

pub record Answer : Type 0 where
  pub result : Result (Unit {0})
  pub value : Value
  pub terminal : Terminal

-- An answer that is copied to user memory.
abbrev pub give : Result (Unit {0}) → Value → Terminal → Answer
give put v t = record { result = put; value = v; terminal = t }

abbrev pub fail : Errno → Terminal → Answer
fail e t = record { result = err e; value = nothing; terminal = t }

abbrev pub done : Terminal → Answer
done t = record { result = ok tt; value = nothing; terminal = t }

unfoldable pub set_modes : Bool → Bool → Result Termios → Terminal → Answer
set_modes flush lock_free get t = elim get [
  | err e ↦ fail e t
  | ok m ↦
      let t' = if flush then flush_buffers lock_free t else t in
      done (record t' { disc = record t'.disc { termios = m } })
]

-- `arg` is the queue selector itself.
unfoldable pub flush_queue : Bool → ℕ → Terminal → Answer
flush_queue lock_free arg t =
    if arg == 0
    then done (flush_buffers lock_free t)
    else if arg == 1
    then done t
    else if arg == 2
    then done (flush_buffers lock_free t)
    else fail einval t

-- `device` is what the driver says its geometry is.
unfoldable pub get_winsize : Result (Unit {0}) → Winsize → Terminal → Answer
get_winsize put device t =
    let seen = ltb 0 device.ws_col && ltb 0 device.ws_row in
    let stale = not t.winsize_user_set || t.winsize.ws_col == 0 || t.winsize.ws_row == 0 in
    let t' = if seen && stale then record t { winsize = device } else t in
    give put (window t'.winsize) t'

unfoldable pub set_winsize : Result Winsize → Terminal → Answer
set_winsize get t = elim get [
  | err e ↦ fail e t
  | ok ws ↦
      done
        (record t { winsize = ws; winsize_user_set = true; signals = t.signals ++ (sigwinch ∷ []) })
]

unfoldable pub readable_count : Result (Unit {0}) → Terminal → Answer
readable_count put t = let t' = drain_input t in give put (number (length t'.disc.read_buf)) t'

-- `Pid::from_u32` refuses 0.
unfoldable pub set_group : Result ℕ → Terminal → Answer
set_group get t = elim get [
  | err e ↦ fail e t
  | ok raw ↦ if raw == 0 then fail einval t else done (record t { foreground_pgrp = some raw })
]

-- A process, by its id and its group's.
pub record Caller : Type 0 where
  pub pid : ℕ
  pub pgid : ℕ

or_else : Option ℕ → Option ℕ → ℕ
or_else (some n) second = n
or_else none (some n) = n
or_else none none = 1

abbrev id_of : Option Caller → Option ℕ
id_of none = none
id_of (some c) = some c.pid

abbrev group_of : Option Caller → Option ℕ
group_of none = none
group_of (some c) = some c.pgid

unfoldable pub get_group : Result (Unit {0}) → Option Caller → Terminal → Answer
unfolding or_else
get_group put caller t = give put (number (or_else t.foreground_pgrp (group_of caller))) t

unfoldable pub get_session : Result (Unit {0}) → Option Caller → Terminal → Answer
unfolding or_else
get_session put caller t = give put (number (or_else t.session (id_of caller))) t

unfoldable pub set_controlling : Option Caller → Terminal → Answer
set_controlling none t = fail eperm t
set_controlling (some c) t = done (record t { session = some c.pid; foreground_pgrp = some c.pgid })

unfoldable pub detach : Terminal → Answer
detach t = done (record t { session = none; foreground_pgrp = none })

-- What a command works with beyond the terminal.
pub record Context : Type 0 where
  pub get_modes : Result Termios
  pub get_window : Result Winsize
  pub get_number : Result ℕ
  pub put : Result (Unit {0})
  pub arg : ℕ
  pub device : Winsize
  pub caller : Option Caller
  pub lock_free : Bool

-- `handle_ioctl` without the virtual terminal commands, whose answers are constants.
unfoldable pub handle_ioctl : Request → Context → Terminal → Answer
handle_ioctl tcgets c t = give c.put (modes t.disc.termios) t
handle_ioctl tcsets c t = set_modes false c.lock_free c.get_modes t
handle_ioctl tcsetsf c t = set_modes true c.lock_free c.get_modes t
handle_ioctl tcflsh c t = flush_queue c.lock_free c.arg t
handle_ioctl breaks c t = done t
handle_ioctl tiocgwinsz c t = get_winsize c.put c.device t
handle_ioctl tiocswinsz c t = set_winsize c.get_window t
handle_ioctl fionread c t = readable_count c.put t
handle_ioctl tiocoutq c t = give c.put (number 0) t
handle_ioctl tiocspgrp c t = set_group c.get_number t
handle_ioctl tiocgpgrp c t = get_group c.put c.caller t
handle_ioctl tiocsctty c t = set_controlling c.caller t
handle_ioctl tiocnotty c t = detach t
handle_ioctl tiocgsid c t = get_session c.put c.caller t
handle_ioctl other c t = fail enotty t
