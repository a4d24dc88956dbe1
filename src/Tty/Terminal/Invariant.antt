-- ===== src/Tty/Terminal/Invariant.antt =====
-- petra/src/drivers/char/tty/core: what holds of a terminal between two calls.
use petra_os.Common.{
  ℕ, zero, suc, ◌+◌, ◌≤◌, min, ◌≡◌, refl, inl, inr, Bool, true, false, not, ◌&&◌, ◌||◌, Option,
  none, some, List, [], ◌∷◌, arith, ltb, leb, ◌==◌, Option-cases, if_cases, length, All,
}
use petra_os.Common.Errno.{Result, ok, err}
use petra_os.Tty.{vtime, vmin, canon_buf_size, Termios, is_canon, cc_at, read_into}
use petra_os.Tty.Terminal.{
  pop_input, interrupt, total, sleep, Winsize, Terminal, receive, drain_loop, drain_input,
  queue_input_bytes, take_bytes, ready_canon, ready_raw, read_cond, read, write, poll,
}
use petra_os.Tty.Terminal.Control.{
  flush_loop, flush_buffers, Request, tcgets, tcsets, tcsetsf, tcflsh, breaks, tiocgwinsz,
  tiocswinsz, fionread, tiocoutq, tiocspgrp, tiocgpgrp, tiocsctty, tiocnotty, tiocgsid, other,
  Answer, set_modes, flush_queue, get_winsize, set_winsize, readable_count, set_group, Caller,
  get_group, get_session, set_controlling, detach, Context, handle_ioctl,
}
use petra_os.Ring.{len}
use petra_os.Tty.Bounds.{input_char-Kept}

pub record IsSound (t : Terminal) : Type 0 where
  pub line : length t.disc.canon_buf ≤ canon_buf_size

receive-IsSound : (b : ℕ) (t : Terminal) → IsSound t → IsSound (receive b t)
unfolding receive
receive-IsSound b t s = record { line = (input_char-Kept b t.disc).bound s.line }

interrupt-IsSound : (t : Terminal) → IsSound t → IsSound (interrupt t)
unfolding interrupt queue_input_bytes
interrupt-IsSound t s = go t.interrupts refl
  where
    go : (l : List (List ℕ)) → t.interrupts ≡ l → IsSound (interrupt t)
    go [] e = rw (e, interrupt) s
    go (bytes ∷ rest) e = rw (e, interrupt) (record { line = s.line })

pop_input-IsSound : (t : Terminal) → IsSound t → IsSound (pop_input t).1
unfolding pop_input
pop_input-IsSound t s =
    if_cases (λ (p : Option ℕ × Terminal). IsSound p.1) (t.input.tail == t.input.head) (λ _. s)
      λ _. record { line = (interrupt-IsSound t s).line }

drain_loop-IsSound : (fuel : ℕ) (t : Terminal) → IsSound t → IsSound (drain_loop fuel t)
unfolding drain_loop
drain_loop-IsSound zero t s = s
drain_loop-IsSound (suc fuel) t s = elim (Option-cases (pop_input t).0) [
  | inl p ↦ rw (p, drain_loop) s
  | inr (b, p) ↦
      rw (p, drain_loop)
        (drain_loop-IsSound fuel (receive b (pop_input t).1)
          (receive-IsSound b (pop_input t).1 (pop_input-IsSound t s)))
]

pub drain_input-IsSound : (t : Terminal) → IsSound t → IsSound (drain_input t)
unfolding drain_input
drain_input-IsSound t s =
    if_cases IsSound t.free (λ _. drain_loop-IsSound (len t.input + total t.interrupts) t s)
      (λ _. s)

take_bytes-IsSound : (n : ℕ) (t : Terminal) → IsSound t → IsSound (take_bytes n t).1
unfolding take_bytes read_into
take_bytes-IsSound n t s = record { line = s.line }

abbrev Leaves {ℓ} : {R : Type ℓ} → R × Terminal → Type 0
Leaves p = IsSound p.1

ready_canon-IsSound : (n : ℕ) (t : Terminal) → IsSound t → Leaves (ready_canon n t)
unfolding ready_canon
ready_canon-IsSound n t s =
    if_cases Leaves (ltb 0 (length t.disc.read_buf)) (λ _. take_bytes-IsSound n t s)
      λ _.
        if_cases Leaves t.disc.eof_received (λ _. record { line = s.line })
          λ _. if_cases Leaves t.hung_up (λ _. s) (λ _. s)

ready_raw-IsSound : (m v n : ℕ) (t : Terminal) → IsSound t → Leaves (ready_raw m v n t)
unfolding ready_raw
ready_raw-IsSound m v n t s =
    let avail = length t.disc.read_buf in
    let late = ltb 0 v && t.expired in
    let taken = take_bytes-IsSound n t s in
    if_cases Leaves (m == 0)
      (λ _.
        if_cases Leaves (ltb 0 avail) (λ _. taken)
          λ _. if_cases Leaves (v == 0 || late) (λ _. s) (λ _. s))
      λ _.
        if_cases Leaves (ltb 0 avail && (leb (min m n) avail || late)) (λ _. taken)
          λ _. if_cases Leaves t.hung_up (λ _. taken) (λ _. s)

read_cond-IsSound :
    (canon : Bool) (m v n : ℕ) (t : Terminal) → IsSound t → IsSound (read_cond canon m v n t).1
unfolding read_cond
read_cond-IsSound canon m v n t s =
    let sd = drain_input-IsSound t s in
    if_cases (λ (p : Option (List ℕ) × Terminal). IsSound p.1) canon
      (λ _. ready_canon-IsSound n (drain_input t) sd)
      (λ _. ready_raw-IsSound m v n (drain_input t) sd)

flush_loop-IsSound : (fuel : ℕ) (t : Terminal) → IsSound t → IsSound (flush_loop fuel t)
unfolding flush_loop
flush_loop-IsSound zero t s = s
flush_loop-IsSound (suc fuel) t s = elim (Option-cases (pop_input t).0) [
  | inl p ↦ rw (p, flush_loop) s
  | inr (b, p) ↦
      rw (p, flush_loop) (flush_loop-IsSound fuel (pop_input t).1 (pop_input-IsSound t s))
]

flush_buffers-IsSound : (free : Bool) (t : Terminal) → IsSound t → IsSound (flush_buffers free t)
unfolding flush_buffers
flush_buffers-IsSound free t s = record { line = omega arith }

abbrev SoundAnswer : Answer → Type 0
SoundAnswer a = IsSound a.terminal

set_modes-IsSound :
    (flush free : Bool) (get : Result Termios) (t : Terminal)
    → IsSound t
    → SoundAnswer (set_modes flush free get t)
unfolding set_modes
set_modes-IsSound flush free (err e) t s = s
set_modes-IsSound true free (ok m) t s =
    let f = flush_buffers-IsSound free t s in record { line = f.line }
set_modes-IsSound false free (ok m) t s = record { line = s.line }

flush_queue-IsSound :
    (free : Bool) (arg : ℕ) (t : Terminal) → IsSound t → SoundAnswer (flush_queue free arg t)
unfolding flush_queue
flush_queue-IsSound free arg t s =
    let flushed = flush_buffers-IsSound free t s in
    if_cases SoundAnswer (arg == 0) (λ _. flushed)
      λ _.
        if_cases SoundAnswer (arg == 1) (λ _. s)
          λ _. if_cases SoundAnswer (arg == 2) (λ _. flushed) λ _. s

get_winsize-IsSound :
    (put : Result (Unit {0})) (device : Winsize) (t : Terminal)
    → IsSound t
    → SoundAnswer (get_winsize put device t)
unfolding get_winsize
get_winsize-IsSound put device t s =
    let seen = ltb 0 device.ws_col && ltb 0 device.ws_row in
    let stale = not t.winsize_user_set || t.winsize.ws_col == 0 || t.winsize.ws_row == 0 in
    if_cases IsSound (seen && stale) (λ _. record { line = s.line }) (λ _. s)

set_winsize-IsSound :
    (get : Result Winsize) (t : Terminal) → IsSound t → SoundAnswer (set_winsize get t)
unfolding set_winsize
set_winsize-IsSound (err e) t s = s
set_winsize-IsSound (ok ws) t s = record { line = s.line }

set_group-IsSound : (get : Result ℕ) (t : Terminal) → IsSound t → SoundAnswer (set_group get t)
unfolding set_group
set_group-IsSound (err e) t s = s
set_group-IsSound (ok raw) t s =
    if_cases SoundAnswer (raw == 0) (λ _. s) λ _. record { line = s.line }

set_controlling-IsSound :
    (caller : Option Caller) (t : Terminal) → IsSound t → SoundAnswer (set_controlling caller t)
unfolding set_controlling
set_controlling-IsSound none t s = s
set_controlling-IsSound (some c) t s = record { line = s.line }

handle_ioctl-IsSound :
    (q : Request) (c : Context) (t : Terminal) → IsSound t → SoundAnswer (handle_ioctl q c t)
unfolding handle_ioctl
handle_ioctl-IsSound tcgets c t s = s
handle_ioctl-IsSound tcsets c t s = set_modes-IsSound false c.lock_free c.get_modes t s
handle_ioctl-IsSound tcsetsf c t s = set_modes-IsSound true c.lock_free c.get_modes t s
handle_ioctl-IsSound tcflsh c t s = flush_queue-IsSound c.lock_free c.arg t s
handle_ioctl-IsSound breaks c t s = s
handle_ioctl-IsSound tiocgwinsz c t s = get_winsize-IsSound c.put c.device t s
handle_ioctl-IsSound tiocswinsz c t s = set_winsize-IsSound c.get_window t s
handle_ioctl-IsSound fionread c t s = unfold readable_count in drain_input-IsSound t s
handle_ioctl-IsSound tiocoutq c t s = s
handle_ioctl-IsSound tiocspgrp c t s = set_group-IsSound c.get_number t s
handle_ioctl-IsSound tiocgpgrp c t s = unfold get_group in s
handle_ioctl-IsSound tiocsctty c t s = set_controlling-IsSound c.caller t s
handle_ioctl-IsSound tiocnotty c t s = unfold detach in record { line = s.line }
handle_ioctl-IsSound tiocgsid c t s = unfold get_session in s
handle_ioctl-IsSound other c t s = s

-- Another thread keeps terminals sound.
abbrev pub Careful : (Terminal → Terminal) → Type 0
Careful w = (t : Terminal) → IsSound t → IsSound (w t)

sleep-IsSound :
    (attempt : Terminal → Option (Result (List ℕ)) × Terminal)
    → ((t : Terminal) → IsSound t → IsSound (attempt t).1)
    → (ws : List (Terminal → Terminal)) (t : Terminal) → All Careful ws
    → IsSound t
    → IsSound (sleep attempt ws t).1
unfolding sleep
sleep-IsSound attempt keep [] t h s = s
sleep-IsSound attempt keep (w ∷ ws) t h s =
    let t' = w t in
    let s' = h.0 t s in
    let again = attempt t' in
    let P = λ (p : Option (Result (List ℕ)) × Terminal). IsSound p.1 in
    if_cases P (t'.wakeups == t.wakeups && not (t'.interrupted || t'.expired))
      (λ _. sleep-IsSound attempt keep ws t' h.1 s')
      λ _. elim (Option-cases again.0) [
        | inl e ↦ rw e (sleep-IsSound attempt keep ws again.1 h.1 (keep t' s'))
        | inr (r, e) ↦ rw e (keep t' s')
      ]

read-IsSound :
    (n : ℕ) (ws : List (Terminal → Terminal)) (t : Terminal)
    → All Careful ws
    → IsSound t
    → IsSound (read n ws t).1
unfolding read
read-IsSound n ws t h s =
    let attempt = read_cond (is_canon t.disc) (cc_at t.disc vmin) (cc_at t.disc vtime) n in
    let keep = read_cond-IsSound (is_canon t.disc) (cc_at t.disc vmin) (cc_at t.disc vtime) n in
    if_cases (λ (p : Option (Result (List ℕ)) × Terminal). IsSound p.1) (n == 0) (λ _. s)
      λ _. elim (Option-cases (attempt t).0) [
        | inl e ↦ rw e (sleep-IsSound attempt keep ws (attempt t).1 h (keep t s))
        | inr (r, e) ↦ rw e (keep t s)
      ]

write-IsSound :
    (answer : Result (Unit {0})) (buf : List ℕ) (t : Terminal)
    → IsSound t
    → IsSound (write answer buf t).1
unfolding write
write-IsSound (err e) buf t s =
    if_cases (λ (p : Result ℕ × Terminal). IsSound p.1) t.hung_up (λ _. s) (λ _. s)
write-IsSound (ok _) buf t s =
    if_cases (λ (p : Result ℕ × Terminal). IsSound p.1) t.hung_up (λ _. s)
      λ _. record { line = s.line }

-- A terminal is sound when the line that is being typed fits its buffer of 4096 bytes. Every call
-- keeps it so: queueing bytes from an interrupt, reading (whatever careful things other threads and
-- interrupts do while it sleeps, and whatever bytes interrupts queue in the middle of its pops),
-- writing, polling, and every command of `ioctl` but those of virtual terminals, with any answers
-- of user memory and of the driver.
pub calls-IsSound :
    (t : Terminal) (bytes : List ℕ) (n : ℕ) (ws : List (Terminal → Terminal))
    (answer : Result (Unit {0})) (request : Request) (c : Context)
    → All Careful ws
    → IsSound t
    → IsSound (queue_input_bytes bytes t)
      × IsSound (read n ws t).1
      × IsSound (write answer bytes t).1
      × IsSound (poll t).1
      × IsSound (handle_ioctl request c t).terminal
calls-IsSound t bytes n ws answer request c h s = (
  (unfold queue_input_bytes in record { line = s.line }),
  read-IsSound n ws t h s,
  write-IsSound answer bytes t s,
  (unfold poll in drain_input-IsSound t s),
  handle_ioctl-IsSound request c t s,
)
