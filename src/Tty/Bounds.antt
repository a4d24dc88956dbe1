-- ===== src/Tty/Bounds.antt =====
-- petra/src/drivers/char/tty/core/ldisc.rs: the bound on the line that is being typed, and the order of the bytes that wait.
use petra_os.Common.{
  ℕ, suc, ◌+◌, ◌≤◌, ◌≡◌, refl, sym, ap, ◌∙◌, ◌≢◌, ◌⊎◌, inl, inr, false, not, Option, none, some,
  List, [], ◌∷◌, ◌++◌, append-nil, arith, ltb, ◌==◌, if◌then◌else◌, ltb→lt, Bool-cases,
  Option-cases, if_cases, length, length-append,
}
use petra_os.Tty.{
  vintr, vquit, vsusp, canon_buf_size, LineDiscipline, is_canon, is_isig, is_noflsh, cc_at, clear,
  unless_noflsh, Signal, sigint, sigquit, Fed, quiet, unless_noflsh, pop, erase_char, word_erase,
  line_kill, flush_line, end_of_file, is_eol, store_char, normal_char, input_canon, input_raw,
  input_byte, signal_char, input_char,
}
use petra_os.Tty.Erase.{length-before_word, word_erase_lem}

pop-none : (x : ℕ) (xs : List ℕ) → pop (x ∷ xs) ≢ none
unfolding pop
pop-none x xs e = ground arith

length-pop : (l : List ℕ) {ys : List ℕ} {y : ℕ} → pop l ≡ some (ys, y) → length l ≡ suc (length ys)
unfolding pop
length-pop [] e = absurd (cc)
length-pop (x ∷ []) e = ground arith
length-pop (x ∷ z ∷ zs) e = elim (Option-cases (pop (z ∷ zs))) [
  | inl p ↦ absurd (pop-none z zs p)
  | inr ((ws, w), p) ↦ ground (arith, length-pop (z ∷ zs) p, p)
]

-- What a byte makes of the discipline: the line stays within its buffer, and the bytes that wait
-- stay in front, unless a signal throws all away.
pub record Kept (d : LineDiscipline) (f : Fed) : Type 0 where
  pub modes : f.disc.termios ≡ d.termios
  pub bound : length d.canon_buf ≤ canon_buf_size → length f.disc.canon_buf ≤ canon_buf_size
  pub order :
      ((more : List ℕ) × (f.disc.read_buf ≡ d.read_buf ++ more)
        × (length more + length f.disc.canon_buf ≤ suc (length d.canon_buf)))
      ⊎ ((f.signal ≢ none) × (f.disc.read_buf ≡ []) × (f.disc.canon_buf ≡ []))

calm :
    (d : LineDiscipline) (f : Fed)
    → f.disc.termios ≡ d.termios
    → f.disc.read_buf ≡ d.read_buf
    → length f.disc.canon_buf ≤ length d.canon_buf
    → Kept d f
calm d f t r l = record {
  modes = t;
  bound = λ h. omega arith;
  order = inl ([], r ∙ sym (append-nil d.read_buf), omega arith);
}

erase_char-Kept : (d : LineDiscipline) → Kept d (erase_char d)
unfolding erase_char
erase_char-Kept d = elim (Option-cases (pop d.canon_buf)) [
  | inl p ↦ rw (p, erase_char) (calm d _ refl refl (omega arith))
  | inr ((ys, y), p) ↦
      rw (p, erase_char) (calm d _ refl refl (omega (arith, length-pop d.canon_buf p)))
]

word_erase-Kept : (d : LineDiscipline) → Kept d (word_erase d)
word_erase-Kept d = rw (word_erase_lem d) (calm d _ refl refl (length-before_word d.canon_buf))

line_kill-Kept : (d : LineDiscipline) → Kept d (line_kill d)
unfolding line_kill
line_kill-Kept d = calm d (line_kill d) refl refl (omega arith)

end_of_file-Kept : (d : LineDiscipline) → Kept d (end_of_file d)
unfolding end_of_file flush_line
end_of_file-Kept d =
    elim d.canon_buf
      as (λ l. Kept (record d { canon_buf = l }) (end_of_file (record d { canon_buf = l }))) [
        | [] ↦ calm (record d { canon_buf = [] }) _ refl refl (omega arith)
        | b ∷ bs ↦ record {
          modes = refl;
          bound = λ h. omega arith;
          order = inl (b ∷ bs, refl, omega arith);
        }
      ]

length-store_char :
    (b : ℕ) (d : LineDiscipline)
    → (length (store_char b d).canon_buf ≤ suc (length d.canon_buf))
      × (length d.canon_buf ≤ canon_buf_size → length (store_char b d).canon_buf ≤ canon_buf_size)
      × ((store_char b d).read_buf ≡ d.read_buf)
      × ((store_char b d).termios ≡ d.termios)
unfolding store_char
length-store_char b d = elim (Bool-cases (ltb (length d.canon_buf) canon_buf_size)) [
  | inl e ↦ rw e (
    omega (arith, length-append d.canon_buf (b ∷ [])),
    (λ h. omega (arith, length-append d.canon_buf (b ∷ []), ltb→lt _ _ e)),
    refl,
    refl,
  )
  | inr e ↦ rw e (omega arith, (λ h. h), refl, refl)
]

normal_char-Kept : (b : ℕ) (d : LineDiscipline) → Kept d (normal_char b d)
unfolding normal_char flush_line
normal_char-Kept b d =
    let (grown, few, same, modes) = length-store_char b d in
    if_cases (Kept d) (is_eol d b)
      (λ e. record {
        modes = modes;
        bound = λ h. omega arith;
        order = inl (
          (store_char b d).canon_buf,
          ap (λ r. r ++ (store_char b d).canon_buf) same,
          omega arith,
        );
      })
      λ e. record {
        modes = modes;
        bound = few;
        order = inl ([], same ∙ sym (append-nil d.read_buf), omega arith);
      }

input_canon-Kept : (b : ℕ) (d : LineDiscipline) → Kept d (input_canon b d)
unfolding input_canon
input_canon-Kept b d = ground (
  arith,
  erase_char-Kept d,
  word_erase-Kept d,
  line_kill-Kept d,
  end_of_file-Kept d,
  normal_char-Kept b d,
)

input_raw-Kept : (b : ℕ) (d : LineDiscipline) → Kept d (input_raw b d)
unfolding input_raw
input_raw-Kept b d = record {
  modes = refl;
  bound = λ h. h;
  order = inl (b ∷ [], refl, omega arith);
}

abbrev KeptAll : LineDiscipline → Option Fed → Type 0
KeptAll d none = Unit {0}
KeptAll d (some f) = Kept d f

flushed-Kept :
    (d : LineDiscipline) (output : List ℕ) (s : Signal)
    → Kept d (record { disc = unless_noflsh d; output = output; signal = some s; woken = false })
unfolding unless_noflsh clear
flushed-Kept d output s = elim (Bool-cases (is_noflsh d)) [
  | inl e ↦ rw e (calm d _ refl refl (omega arith))
  | inr e ↦
      rw e (record { modes = refl; bound = λ h. omega arith; order = inr ((λ e. cc), refl, refl) })
]

signal_char-Kept : (b : ℕ) (d : LineDiscipline) → KeptAll d (signal_char b d)
unfolding signal_char
signal_char-Kept b d =
    if_cases (KeptAll d) (not (is_isig d)) (λ _. tt)
      λ _.
        if_cases (KeptAll d) (b == cc_at d vintr) (λ _. flushed-Kept d _ sigint)
          λ _.
            if_cases (KeptAll d) (b == cc_at d vquit) (λ _. flushed-Kept d _ sigquit)
              λ _.
                if_cases (KeptAll d) (b == cc_at d vsusp) (λ _. calm d _ refl refl (omega arith))
                  λ _. tt

unsignalled-Kept :
    (b : ℕ) (d : LineDiscipline) → Kept d (if is_canon d then input_canon b d else input_raw b d)
unsignalled-Kept b d = ground (arith, input_canon-Kept b d, input_raw-Kept b d)

-- A byte, whatever it is, keeps the modes, and keeps the line that is being typed within its
-- buffer. The bytes that wait to be read stay in their order, in front of what the byte adds, and
-- of the line and the byte no more is added or kept than there was; or a signal is sent and all
-- that was typed is thrown away.
pub input_char-Kept : (b : ℕ) (d : LineDiscipline) → Kept d (input_char b d)
unfolding input_char
input_char-Kept b d = elim (Option-cases (input_byte d b)) [
  | inl p ↦ rw (p, input_char) (calm d (quiet d) refl refl (omega arith))
  | inr (c, p) ↦
      rw (p, input_char)
        (elim (signal_char c d)
            as (λ o.
              KeptAll d o
              → Kept d (elim o [
                | some fed ↦ fed
                | none ↦ if is_canon d then input_canon c d else input_raw c d
              ])) [ none ↦ (λ _. unsignalled-Kept c d) | some fed ↦ λ k. k ]
          (signal_char-Kept c d))
]
