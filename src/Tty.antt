-- ===== src/Tty.antt =====
-- petra/src/drivers/char/tty/core/ldisc.rs: the line discipline, which turns typed bytes into what
-- a read of the terminal returns. What a byte does to the terminal beyond the discipline (the echo
-- to write, the signal for the foreground group, the readers to wake) is returned. A byte is a
-- number below 256.
pub mod Erase
pub mod Line
pub mod Reading
pub mod Bounds
pub mod Terminal
mod Tests
use petra_os.Common.{
  ℕ, zero, suc, ◌+◌, ◌-◌, ◌*◌, ◌/◌, ◌%◌, ◌^◌, ◌≤◌, ◌<◌, min, max, bit_and, ◌≡◌, refl, sym, ap, ap₂,
  ◌∙◌, subst, ◌≢◌, ◌↔◌, ◌⊎◌, inl, inr, Bool, true, false, not, ◌&&◌, ◌||◌, Option, none, some, List,
  [], ◌∷◌, ◌++◌, map, append-nil, append_assoc, arith, ltb, leb, ◌==◌, if◌then◌else◌, ltb→lt,
  lt→ltb, leb→le, ==_iff, tests, Bool-cases, Option-cases, if_cases, length, get_elem?, set, take,
  drop, replicate, All, length-append, take-append-drop, length-take, length-drop, take_all,
  drop_all, length-set, length-replicate, get_elem?-set_self, get_elem?-set_ne, get_elem?_total,
  get_elem?_lt, All-append, All-left, All-right,
}
use petra_os.Common.Errno.{
  Errno, eperm, enoent, esrch, eintr, e2big, ebadf, eagain, eacces, efault, eexist, ebusy, einval,
  emfile, efbig, enospc, enomsg, enotty, eio, erange, epipe, eidrm, enomem, emsgsize, etimedout,
  Result, ok, err, ◌>>=◌,
}
use petra_os.Common.Wait.{wait_until, wait_until_keeps, wait_until_returns, wait_until_attempt}

abbrev pub isig : ℕ
isig = 0o1

abbrev pub icanon : ℕ
icanon = 0o2

abbrev pub echo : ℕ
echo = 0o10

abbrev pub echok : ℕ
echok = 0o40

abbrev pub noflsh : ℕ
noflsh = 0o200

abbrev pub istrip : ℕ
istrip = 0o40

abbrev pub inlcr : ℕ
inlcr = 0o100

abbrev pub igncr : ℕ
igncr = 0o200

abbrev pub icrnl : ℕ
icrnl = 0o400

abbrev pub opost : ℕ
opost = 0o1

abbrev pub onlcr : ℕ
onlcr = 0o4

abbrev pub vintr : ℕ
vintr = 0

abbrev pub vquit : ℕ
vquit = 1

abbrev pub verase : ℕ
verase = 2

abbrev pub vkill : ℕ
vkill = 3

abbrev pub veof : ℕ
veof = 4

abbrev pub vtime : ℕ
vtime = 5

abbrev pub vmin : ℕ
vmin = 6

abbrev pub vsusp : ℕ
vsusp = 10

abbrev pub veol : ℕ
veol = 11

abbrev pub vwerase : ℕ
vwerase = 14

abbrev pub canon_buf_size : ℕ
canon_buf_size = 4096

-- The modes of `termios` that the discipline reads, and the control characters, an array of 19.
pub record Termios : Type 0 where
  pub c_iflag : ℕ
  pub c_oflag : ℕ
  pub c_lflag : ℕ
  pub c_cc : List ℕ

pub record LineDiscipline : Type 0 where
  pub termios : Termios
  pub read_buf : List ℕ
  pub canon_buf : List ℕ
  pub eof_received : Bool

-- Whether `flags & mask != 0`.
unfoldable pub has : ℕ → ℕ → Bool
has flags mask = not (bit_and flags mask == 0)

unfoldable pub is_canon : LineDiscipline → Bool
is_canon d = has d.termios.c_lflag icanon

unfoldable pub is_echo : LineDiscipline → Bool
is_echo d = has d.termios.c_lflag echo

unfoldable pub is_echok : LineDiscipline → Bool
is_echok d = has d.termios.c_lflag echok

unfoldable pub is_isig : LineDiscipline → Bool
is_isig d = has d.termios.c_lflag isig

unfoldable pub is_noflsh : LineDiscipline → Bool
is_noflsh d = has d.termios.c_lflag noflsh

unfoldable pub is_icrnl : LineDiscipline → Bool
is_icrnl d = has d.termios.c_iflag icrnl

unfoldable pub is_igncr : LineDiscipline → Bool
is_igncr d = has d.termios.c_iflag igncr

unfoldable pub is_inlcr : LineDiscipline → Bool
is_inlcr d = has d.termios.c_iflag inlcr

unfoldable pub is_istrip : LineDiscipline → Bool
is_istrip d = has d.termios.c_iflag istrip

unfoldable pub is_opost : LineDiscipline → Bool
is_opost d = has d.termios.c_oflag opost

unfoldable pub is_onlcr : LineDiscipline → Bool
is_onlcr d = has d.termios.c_oflag onlcr

-- The indices that the code uses are within the array.
unfoldable pub cc_at : LineDiscipline → ℕ → ℕ
cc_at d i = elim (get_elem? d.termios.c_cc i) [ none ↦ 0 | some c ↦ c ]

unfoldable pub clear : LineDiscipline → LineDiscipline
clear d = record d { read_buf = []; canon_buf = []; eof_received = false }

-- `append_output` from the empty output, which is `write_output`: what the data becomes.
unfoldable pub translate : Bool → List ℕ → List ℕ
translate crlf [] = []
translate crlf (b ∷ bytes) =
    let rest = translate crlf bytes in if b == 10 && crlf then 13 ∷ 10 ∷ rest else b ∷ rest

unfoldable pub write_output : LineDiscipline → List ℕ → List ℕ
write_output d bytes = if not (is_opost d) then bytes else translate (is_onlcr d) bytes

pub data Signal : Type 0 where
  sigint sigquit sigtstp sigwinch : Signal

-- What feeding a byte gives.
pub record Fed : Type 0 where
  pub disc : LineDiscipline
  pub output : List ℕ
  pub signal : Option Signal
  pub woken : Bool

abbrev pub quiet : LineDiscipline → Fed
quiet d = record { disc = d; output = []; signal = none; woken = false }

-- The echo of a byte sequence, when echo is on.
abbrev pub echoed : LineDiscipline → List ℕ → List ℕ
echoed d bytes = if is_echo d then write_output d bytes else []

abbrev pub rubout : List ℕ
rubout = 8 ∷ 32 ∷ 8 ∷ []

unfoldable pub repeat : ℕ → List ℕ → List ℕ
repeat zero out = []
repeat (suc n) out = out ++ repeat n out

-- `Vec::pop`: the vector without its last element, and that element.
unfoldable pub pop : List ℕ → Option (List ℕ × ℕ)
pop [] = none
pop (x ∷ xs) = elim (pop xs) [ none ↦ some ([], x) | some (ys, y) ↦ some (x ∷ ys, y) ]

unfoldable pub is_blank : ℕ → Bool
is_blank b = b == 32 || b == 9

-- A loop of the word erase: it pops while the last byte passes the test, and counts. The fuel is
-- the length of the buffer.
unfoldable pub pop_while : (ℕ → Bool) → ℕ → List ℕ → ℕ → List ℕ × ℕ
pop_while test zero buf erased = (buf, erased)
pop_while test (suc fuel) buf erased = elim (pop buf) [
  | none ↦ (buf, erased)
  | some (ys, y) ↦
      let more = pop_while test fuel ys (erased + 1) in if test y then more else (buf, erased)
]

unfoldable pub erase_word : List ℕ → List ℕ × ℕ
erase_word buf =
    let (buf', erased) = pop_while is_blank (length buf) buf 0 in
    pop_while (λ b. not (is_blank b)) (length buf') buf' erased

unfoldable pub erase_char : LineDiscipline → Fed
erase_char d = elim (pop d.canon_buf) [
  | none ↦ quiet d
  | some (ys, y) ↦ record (quiet (record d { canon_buf = ys })) { output = echoed d rubout }
]

unfoldable pub word_erase : LineDiscipline → Fed
word_erase d =
    let (buf, erased) = erase_word d.canon_buf in
    record (quiet (record d { canon_buf = buf })) {
      output = if is_echo d then repeat erased (write_output d rubout) else [];
    }

unfoldable pub line_kill : LineDiscipline → Fed
line_kill d = record (quiet (record d { canon_buf = [] })) {
  output =
      if is_echo d && is_echok d then repeat (length d.canon_buf) (write_output d rubout) else [];
}

-- The line so far becomes readable.
unfoldable pub flush_line : LineDiscipline → LineDiscipline
flush_line d = record d { read_buf = d.read_buf ++ d.canon_buf; canon_buf = [] }

is_nil : List ℕ → Bool
is_nil [] = true
is_nil (x ∷ xs) = false

unfoldable pub end_of_file : LineDiscipline → Fed
unfolding is_nil
end_of_file d =
    record (quiet (if is_nil d.canon_buf then record d { eof_received = true } else flush_line d)) {
      woken = true;
    }

-- Whether a byte ends a line.
unfoldable pub is_eol : LineDiscipline → ℕ → Bool
is_eol d b = b == 10 || (not (cc_at d veol == 0) && b == cc_at d veol)

unfoldable pub store_char : ℕ → LineDiscipline → LineDiscipline
store_char b d =
    if ltb (length d.canon_buf) canon_buf_size
    then record d { canon_buf = d.canon_buf ++ (b ∷ []) }
    else d

unfoldable pub normal_char : ℕ → LineDiscipline → Fed
normal_char b d =
    let d' = store_char b d in
    if is_eol d b
    then record (quiet (flush_line d')) { output = echoed d (b ∷ []); woken = true }
    else record (quiet d') { output = echoed d (b ∷ []) }

unfoldable pub input_canon : ℕ → LineDiscipline → Fed
input_canon b d =
    let set_to = λ (i : ℕ). not (cc_at d i == 0) && b == cc_at d i in
    if b == cc_at d verase || b == 0x7f || b == 8
    then erase_char d
    else if set_to vwerase
    then word_erase d
    else if set_to vkill
    then line_kill d
    else if set_to veof
    then end_of_file d
    else normal_char b d

unfoldable pub input_raw : ℕ → LineDiscipline → Fed
input_raw b d = record (quiet (record d { read_buf = d.read_buf ++ (b ∷ []) })) {
  output = echoed d (b ∷ []);
  woken = true;
}

-- The translation of the input: `none` is a byte that is ignored.
unfoldable pub input_byte : LineDiscipline → ℕ → Option ℕ
input_byte d byte =
    let b = if is_istrip d then bit_and byte 0x7f else byte in
    if b == 13
    then (if is_igncr d then none else if is_icrnl d then some 10 else some 13)
    else if b == 10 && is_inlcr d
    then some 13
    else some b

pub unless_noflsh : LineDiscipline → LineDiscipline
unless_noflsh d = if is_noflsh d then d else clear d

-- The signal characters: `none` is a byte that is not one.
unfoldable pub signal_char : ℕ → LineDiscipline → Option Fed
unfolding unless_noflsh
signal_char b d =
    let fed = λ (d' : LineDiscipline) (s : Signal) (shown : ℕ). record (quiet d') {
      output = echoed d (94 ∷ shown ∷ 10 ∷ []);
      signal = some s;
    } in
    if not (is_isig d)
    then none
    else if b == cc_at d vintr
    then some (fed (unless_noflsh d) sigint b'C')
    else if b == cc_at d vquit
    then some (fed (unless_noflsh d) sigquit 92)
    else if b == cc_at d vsusp
    then some (fed d sigtstp b'Z')
    else none

unfoldable pub input_char : ℕ → LineDiscipline → Fed
input_char byte d = elim (input_byte d byte) [
  | none ↦ quiet d
  | some b ↦ elim (signal_char b d) [
    | some fed ↦ fed
    | none ↦ if is_canon d then input_canon b d else input_raw b d
  ]
]

-- The loop of `read_into` over the slots of the caller's buffer: the bytes stored, and those left.
unfoldable pub read_loop : (ℕ → Bool) → ℕ → List ℕ → List ℕ × List ℕ
read_loop stop zero buf = ([], buf)
read_loop stop (suc slots) [] = ([], [])
read_loop stop (suc slots) (b ∷ buf) =
    let (got, rest) = read_loop stop slots buf in if stop b then (b ∷ [], buf) else (b ∷ got, rest)

unfoldable pub read_into : ℕ → LineDiscipline → List ℕ × LineDiscipline
read_into len d =
    let (got, rest) = read_loop (λ b. is_canon d && is_eol d b) len d.read_buf in
    (got, record d { read_buf = rest })

-- The loop of `drain_input`, on the bytes that wait in the input queue.
unfoldable pub feed : List ℕ → LineDiscipline → LineDiscipline
feed [] d = d
feed (b ∷ bytes) d = feed bytes (input_char b d).disc
