-- ===== src/Tty/Line.antt =====
-- petra/src/drivers/char/tty/core/ldisc.rs: a line that is typed without editing is the line that is read.
use petra_os.Common.{
  ℕ, zero, suc, ◌≤◌, bit_and, ◌≡◌, refl, sym, ap, ◌∙◌, ◌≢◌, inl, inr, true, false, none, some, List,
  [], ◌∷◌, ◌++◌, append-nil, append_assoc, arith, ltb, ◌==◌, ltb→lt, Bool-cases, length, take, All,
  length-append, length-take, take_all,
}
use petra_os.Tty.{
  vintr, vquit, verase, vkill, veof, vsusp, veol, vwerase, canon_buf_size, LineDiscipline, is_canon,
  is_icrnl, is_igncr, is_inlcr, is_istrip, cc_at, flush_line, is_eol, store_char, normal_char,
  input_canon, input_byte, signal_char, input_char, feed,
}

-- A byte that no mode translates, edits with, or ends a line or sends a signal by.
pub record Plain (d : LineDiscipline) (b : ℕ) : Type 0 where
  pub seven_bit : is_istrip d ≡ true → bit_and b 0x7f ≡ b
  pub printed : (b ≢ 8) × (b ≢ 10) × (b ≢ 13) × (b ≢ 0x7f)
  pub signals : (b ≢ cc_at d vintr) × (b ≢ cc_at d vquit) × (b ≢ cc_at d vsusp)
  pub edits :
      (b ≢ cc_at d verase) × (b ≢ cc_at d vwerase) × (b ≢ cc_at d vkill) × (b ≢ cc_at d veof)
  pub ends : b ≢ cc_at d veol

-- A terminal where a byte ends a line: the byte reads as a newline, and a newline has no other use.
pub record Enter (d : LineDiscipline) (e : ℕ) : Type 0 where
  pub newline : input_byte d e ≡ some 10
  pub signals : (10 ≢ cc_at d vintr) × (10 ≢ cc_at d vquit) × (10 ≢ cc_at d vsusp)
  pub edits :
      (10 ≢ cc_at d verase) × (10 ≢ cc_at d vwerase) × (10 ≢ cc_at d vkill) × (10 ≢ cc_at d veof)

ne→== : (a b : ℕ) → a ≢ b → (a == b) ≡ false
ne→== a b h = ground arith

no_signal :
    (b : ℕ) (d : LineDiscipline)
    → (b ≢ cc_at d vintr) × (b ≢ cc_at d vquit) × (b ≢ cc_at d vsusp)
    → signal_char b d ≡ none
unfolding signal_char
no_signal b d h = ground (arith, h)

pub input_char_canon :
    (byte b : ℕ) (d : LineDiscipline)
    → input_byte d byte ≡ some b
    → signal_char b d ≡ none
    → is_canon d ≡ true
    → input_char byte d ≡ input_canon b d
unfolding input_char
input_char_canon byte b d p q c = rw (p, q, c, input_char) refl

input_canon-Plain :
    (d : LineDiscipline) (b : ℕ) → Plain d b → (input_canon b d).disc ≡ store_char b d
unfolding input_canon normal_char is_eol
input_canon-Plain d b p = ground (arith, p)

input_canon-newline :
    (d : LineDiscipline) (e : ℕ)
    → Enter d e
    → (input_canon 10 d).disc ≡ flush_line (store_char 10 d)
unfolding input_canon normal_char is_eol
input_canon-newline d e p = ground (arith, p)

Plain-step :
    (d : LineDiscipline) (b : ℕ)
    → is_canon d ≡ true
    → Plain d b
    → (input_char b d).disc ≡ store_char b d
Plain-step d b c p =
    let same : input_byte d b ≡ some b = unfold input_byte in ground (arith, p) in
    ap (λ f. f.disc) (input_char_canon b b d same (no_signal b d p.signals) c)
    ∙ input_canon-Plain d b p

Enter-step :
    (d : LineDiscipline) (e : ℕ)
    → is_canon d ≡ true
    → Enter d e
    → (input_char e d).disc ≡ flush_line (store_char 10 d)
Enter-step d e c p =
    ap (λ f. f.disc) (input_char_canon e 10 d p.newline (no_signal 10 d p.signals) c)
    ∙ input_canon-newline d e p

module _ (n : ℕ) where
  take_left : (xs ys : List ℕ) → n ≤ length xs → take n (xs ++ ys) ≡ take n xs
  take_left = go n
    where
      go : (k : ℕ) (xs ys : List ℕ) → k ≤ length xs → take k (xs ++ ys) ≡ take k xs
      go zero xs ys h = refl
      go (suc k) [] ys h = absurd (omega arith)
      go (suc k) (x ∷ xs) ys h = ap (λ t. x ∷ t) (go k xs ys (omega arith))

  take-take_append : (xs ys : List ℕ) → take n (take n xs ++ ys) ≡ take n (xs ++ ys)
  take-take_append = go n
    where
      go : (k : ℕ) (xs ys : List ℕ) → take k (take k xs ++ ys) ≡ take k (xs ++ ys)
      go zero xs ys = refl
      go (suc k) [] ys = refl
      go (suc k) (x ∷ xs) ys = ap (λ t. x ∷ t) (go k xs ys)

  take_full :
      (xs : List ℕ) (b : ℕ)
      → length xs ≤ n
      → ltb (length xs) n ≡ false
      → xs ≡ take n (xs ++ (b ∷ []))
  take_full xs b h e = sym (take_left xs (b ∷ []) (ground arith) ∙ take_all n xs h)

  take_fits :
      (xs : List ℕ) (b : ℕ) → ltb (length xs) n ≡ true → xs ++ (b ∷ []) ≡ take n (xs ++ (b ∷ []))
  take_fits xs b e = sym (
      take_all n (xs ++ (b ∷ []))
        (omega (arith, length-append xs (b ∷ []), ltb→lt (length xs) n e)))

abbrev with_line : LineDiscipline → List ℕ → LineDiscipline
with_line d l = record d { canon_buf = l }

-- What is kept of a line that is longer than the buffer.
store_line :
    (d : LineDiscipline) (b : ℕ)
    → length d.canon_buf ≤ canon_buf_size
    → store_char b d ≡ with_line d (take canon_buf_size (d.canon_buf ++ (b ∷ [])))
unfolding store_char
store_line d b h = elim (Bool-cases (ltb (length d.canon_buf) canon_buf_size)) [
  | inl e ↦ rw e (ap (with_line d) (take_fits canon_buf_size d.canon_buf b e))
  | inr e ↦ rw e (ap (with_line d) (take_full canon_buf_size d.canon_buf b h e))
]

Plain-other : (d : LineDiscipline) (l : List ℕ) (b : ℕ) → Plain d b → Plain (with_line d l) b
unfolding is_istrip cc_at
Plain-other d l b p = record {
  seven_bit = p.seven_bit;
  printed = p.printed;
  signals = p.signals;
  edits = p.edits;
  ends = p.ends;
}

Plain-All :
    (d : LineDiscipline) (l : List ℕ) (line : List ℕ)
    → All (Plain d) line
    → All (Plain (with_line d l)) line
Plain-All d l [] h = tt
Plain-All d l (b ∷ line) h = (Plain-other d l b h.0, Plain-All d l line h.1)

is_canon-other : (d : LineDiscipline) (l : List ℕ) → is_canon (with_line d l) ≡ is_canon d
unfolding is_canon
is_canon-other d l = refl

feed_line :
    (line : List ℕ) (d : LineDiscipline)
    → is_canon d ≡ true
    → length d.canon_buf ≤ canon_buf_size
    → All (Plain d) line
    → feed line d ≡ with_line d (take canon_buf_size (d.canon_buf ++ line))
unfolding feed
feed_line [] d c h p = ap (with_line d) (
    sym (ap (take canon_buf_size) (append-nil d.canon_buf) ∙ take_all canon_buf_size d.canon_buf h))
feed_line (b ∷ line) d c h p =
    let l : List ℕ = take canon_buf_size (d.canon_buf ++ (b ∷ [])) in
    let short : length l ≤ canon_buf_size =
      omega (arith, length-take canon_buf_size (d.canon_buf ++ (b ∷ []))) in
    let step : (input_char b d).disc ≡ with_line d l = Plain-step d b c p.0 ∙ store_line d b h in
    let rest : feed line (with_line d l) ≡ with_line d (take canon_buf_size (l ++ line)) =
      feed_line line (with_line d l) (is_canon-other d l ∙ c) short (Plain-All d l line p.1) in
    let joined : take canon_buf_size (l ++ line) ≡ take canon_buf_size (d.canon_buf ++ b ∷ line) =
      take-take_append canon_buf_size (d.canon_buf ++ (b ∷ [])) line
      ∙ ap (take canon_buf_size) (append_assoc d.canon_buf (b ∷ []) line) in
    ap (feed line) step ∙ rest ∙ ap (with_line d) joined

feed-append : (xs ys : List ℕ) (d : LineDiscipline) → feed (xs ++ ys) d ≡ feed ys (feed xs d)
unfolding feed
feed-append [] ys d = refl
feed-append (x ∷ xs) ys d = feed-append xs ys (input_char x d).disc

Enter-other : (d : LineDiscipline) (l : List ℕ) (e : ℕ) → Enter d e → Enter (with_line d l) e
unfolding input_byte is_istrip is_igncr is_icrnl is_inlcr cc_at
Enter-other d l e p = record { newline = p.newline; signals = p.signals; edits = p.edits }

Enter-line :
    (d : LineDiscipline) (e : ℕ)
    → is_canon d ≡ true
    → Enter d e
    → length d.canon_buf ≤ canon_buf_size
    → (input_char e d).disc ≡ record d {
      read_buf = d.read_buf ++ take canon_buf_size (d.canon_buf ++ (10 ∷ []));
      canon_buf = [];
    }
Enter-line d e c p h =
    let flushed : flush_line (with_line d (take canon_buf_size (d.canon_buf ++ (10 ∷ []))))
        ≡ record d {
          read_buf = d.read_buf ++ take canon_buf_size (d.canon_buf ++ (10 ∷ []));
          canon_buf = [];
        } =
      unfold flush_line in refl in
    Enter-step d e c p ∙ ap flush_line (store_line d 10 h) ∙ flushed

-- Typing a line. Let the terminal be in canonical mode with no line begun, and let `e` end a line.
-- Plain bytes and then `e` make the bytes and a newline readable, after what was readable before:
-- all of them when there are less than 4096 bytes, and only the first 4096 bytes, with no newline,
-- when there are 4096 or more. No line is begun afterwards, and nothing else changes.
pub feed-typed :
    (d : LineDiscipline) (line : List ℕ) (e : ℕ)
    → is_canon d ≡ true
    → d.canon_buf ≡ []
    → All (Plain d) line
    → Enter d e
    → feed (line ++ (e ∷ [])) d ≡ record d {
      read_buf = d.read_buf ++ take canon_buf_size (line ++ (10 ∷ []));
      canon_buf = [];
    }
feed-typed d line e c empty p en =
    let l : List ℕ = take canon_buf_size line in
    let short : length l ≤ canon_buf_size = omega (arith, length-take canon_buf_size line) in
    let none_yet : length d.canon_buf ≤ canon_buf_size = rw empty (omega arith) in
    let typed : feed line d ≡ with_line d l =
      feed_line line d c none_yet p
      ∙ ap (λ b. with_line d (take canon_buf_size (b ++ line))) empty in
    let ended =
      Enter-line (with_line d l) e (is_canon-other d l ∙ c) (Enter-other d l e en) short in
    let one : feed (e ∷ []) (feed line d) ≡ (input_char e (feed line d)).disc =
      unfold feed in refl in
    feed-append line (e ∷ []) d
    ∙ one
    ∙ ap (λ d'. (input_char e d').disc) typed
    ∙ ended
    ∙ ap (λ r. record d { read_buf = d.read_buf ++ r; canon_buf = [] })
        (take-take_append canon_buf_size line (10 ∷ []))
