-- ===== src/Tty/Reading.antt =====
-- petra/src/drivers/char/tty/core/ldisc.rs: what a read of the terminal takes.
use petra_os.Common.{
  ℕ, zero, suc, ◌≤◌, ◌<◌, ◌≡◌, refl, sym, ap, ap₂, ◌∙◌, Bool, true, false, ◌&&◌, List, [], ◌∷◌,
  ◌++◌, arith, length, take, drop, All, length-append, take_all,
}
use petra_os.Tty.{
  canon_buf_size, LineDiscipline, is_canon, cc_at, is_eol, read_loop, read_into, feed,
}
use petra_os.Tty.Line.{Plain, Enter, feed-typed}

module _ (stop : ℕ → Bool) where
  -- No byte of the list stops a read.
  abbrev pub Unstopped : List ℕ → Type 0
  Unstopped l = All (λ b. stop b ≡ false) l

  read_loop-all : (n : ℕ) (l : List ℕ) → Unstopped l → read_loop stop n l ≡ (take n l, drop n l)
  unfolding read_loop
  read_loop-all zero l h = refl
  read_loop-all (suc n) [] h = refl
  read_loop-all (suc n) (b ∷ l) h = rw (h.0, read_loop-all n l h.1, read_loop) refl

  read_loop-line :
      (n : ℕ) (line : List ℕ) (y : ℕ) (more : List ℕ)
      → Unstopped line
      → stop y ≡ true
      → length line < n
      → read_loop stop n (line ++ y ∷ more) ≡ (line ++ (y ∷ []), more)
  unfolding read_loop
  read_loop-line zero line y more h s k = absurd (omega arith)
  read_loop-line (suc n) [] y more h s k = rw (s, read_loop) refl
  read_loop-line (suc n) (b ∷ line) y more h s k =
      rw (h.0, read_loop-line n line y more h.1 s (omega arith), read_loop) refl

  read_loop-part :
      (n : ℕ) (line more : List ℕ)
      → Unstopped line
      → n ≤ length line
      → read_loop stop n (line ++ more) ≡ (take n line, drop n line ++ more)
  unfolding read_loop
  read_loop-part zero line more h k = refl
  read_loop-part (suc n) [] more h k = absurd (omega arith)
  read_loop-part (suc n) (b ∷ line) more h k =
      rw (h.0, read_loop-part n line more h.1 (omega arith), read_loop) refl

abbrev stops : LineDiscipline → ℕ → Bool
stops d b = is_canon d && is_eol d b

Unstopped-raw : (d : LineDiscipline) (l : List ℕ) → is_canon d ≡ false → Unstopped (stops d) l
Unstopped-raw d [] h = tt
Unstopped-raw d (b ∷ l) h = ((rw h refl), Unstopped-raw d l h)

Unstopped-canon : (d : LineDiscipline) (l : List ℕ) → Unstopped (is_eol d) l → Unstopped (stops d) l
Unstopped-canon d [] h = tt
Unstopped-canon d (b ∷ l) h = (ground (arith, h.0), Unstopped-canon d l h.1)

read_into-loop :
    (n : ℕ) (d : LineDiscipline) (begun l got rest : List ℕ)
    → read_loop (stops d) n l ≡ (got, rest)
    → read_into n (record d { read_buf = l; canon_buf = begun })
      ≡ (got, record d { read_buf = rest; canon_buf = begun })
unfolding read_into is_canon is_eol cc_at
read_into-loop n d begun l got rest e =
    ap (λ p. (p.0, record d { read_buf = p.1; canon_buf = begun })) e

-- A read with `len` slots. Outside canonical mode it takes the first `len` bytes that wait, or all
-- of them. In canonical mode, let `line` be what waits before the first byte `y` that ends a line,
-- and `more` what waits after it. The read takes the line and its end when they fit, and nothing
-- of `more`; it takes the first `len` bytes of the line when that has as many; and when no byte
-- ends a line, it takes what it does outside canonical mode.
pub read_into_lem :
    (len : ℕ) (d : LineDiscipline) (line : List ℕ) (y : ℕ) (more : List ℕ)
    → let through = λ (n : ℕ) (l : List ℕ).
      ◌≡◌ {A = List ℕ × LineDiscipline}
        (read_into n (record d { read_buf = l }))
        (take n l, record d { read_buf = drop n l }) in
      (is_canon d ≡ false → through len more)
      × (Unstopped (is_eol d) more → through len more)
      × (is_canon d ≡ true
          → Unstopped (is_eol d) line
          → is_eol d y ≡ true
          → let d' = record d { read_buf = line ++ y ∷ more } in
            (length line < len
              → read_into len d' ≡ (line ++ (y ∷ []), record d { read_buf = more }))
            × (len ≤ length line
                → read_into len d'
                  ≡ (take len line, record d { read_buf = drop len line ++ y ∷ more })))
read_into_lem len d line y more =
    let through = λ (h : Unstopped (stops d) more).
      read_into-loop len d d.canon_buf more (take len more) (drop len more)
        (read_loop-all (stops d) len more h) in
    (
      (λ raw. through (Unstopped-raw d more raw)),
      (λ h. through (Unstopped-canon d more h)),
      λ c h s.
          let quiet_line = Unstopped-canon d line h in
          (
            (λ k.
                read_into-loop len d d.canon_buf (line ++ y ∷ more) (line ++ (y ∷ [])) more
                  (read_loop-line (stops d) len line y more quiet_line (rw (c, s) refl) k)),
            (λ k.
                read_into-loop len d d.canon_buf (line ++ y ∷ more) (take len line)
                  (drop len line ++ y ∷ more)
                  (read_loop-part (stops d) len line (y ∷ more) quiet_line k)),
          ),
    )

Plain-Unstopped :
    (d : LineDiscipline) (line : List ℕ) → All (Plain d) line → Unstopped (is_eol d) line
Plain-Unstopped d [] h = tt
Plain-Unstopped d (b ∷ line) h =
    ((unfold is_eol in ground (arith, h.0)), Plain-Unstopped d line h.1)

-- A line is read as it was typed. Let the terminal be in canonical mode with nothing typed and
-- nothing to read, and let `e` end a line. When less than 4096 plain bytes and then `e` are typed,
-- a read with room for the line and a newline returns just these, and leaves the terminal as it was.
pub typed-read :
    (d : LineDiscipline) (line : List ℕ) (e len : ℕ)
    → is_canon d ≡ true
    → d.canon_buf ≡ []
    → d.read_buf ≡ []
    → All (Plain d) line
    → Enter d e
    → length line < canon_buf_size
    → length line < len
    → read_into len (feed (line ++ (e ∷ [])) d) ≡ (line ++ (10 ∷ []), d)
typed-read d line e len c no_line nothing p en short room =
    let whole : take canon_buf_size (line ++ (10 ∷ [])) ≡ line ++ (10 ∷ []) =
      take_all canon_buf_size (line ++ (10 ∷ [])) (omega (arith, length-append line (10 ∷ []))) in
    let ready : feed (line ++ (e ∷ [])) d
        ≡ record d { read_buf = line ++ (10 ∷ []); canon_buf = [] } =
      feed-typed d line e c no_line p en
      ∙ ap₂ (λ r w. record d { read_buf = r ++ w; canon_buf = [] }) nothing whole in
    let newline : is_eol d 10 ≡ true = unfold is_eol in refl in
    let stopped =
      read_loop-line (stops d) len line 10 [] (Unstopped-canon d line (Plain-Unstopped d line p))
        (rw (c, newline) refl) room in
    let back : record d { read_buf = []; canon_buf = [] } ≡ d =
      ap₂ (λ r w. record d { read_buf = r; canon_buf = w }) (sym nothing) (sym no_line) in
    ap (read_into len) ready
    ∙ read_into-loop len d [] (line ++ 10 ∷ []) (line ++ (10 ∷ [])) [] stopped
    ∙ ap (λ x. (line ++ (10 ∷ []), x)) back
