-- ===== src/Tty/Erase.antt =====
-- petra/src/drivers/char/tty/core/ldisc.rs: the editing of the line that is being typed.
use petra_os.Common.{
  ℕ, zero, suc, ◌+◌, ◌-◌, ◌≤◌, ◌≡◌, refl, ap, ap₂, ◌∙◌, subst, inl, inr, Bool, true, false, not,
  none, some, List, [], ◌∷◌, ◌++◌, arith, if◌then◌else◌, Bool-cases, length, length-append,
}
use petra_os.Tty.{
  LineDiscipline, is_echo, write_output, rubout, repeat, pop, is_blank, pop_while, erase_word,
  word_erase,
}
use mathlib.Core.List.{reverse, reverse-reverse, reverse-cons}

pop_last : (xs : List ℕ) (x : ℕ) → pop (xs ++ (x ∷ [])) ≡ some (xs, x)
unfolding pop
pop_last [] x = refl
pop_last (y ∷ xs) x = rw (pop_last xs x, pop) refl

abbrev pub drop_while : (ℕ → Bool) → List ℕ → List ℕ
drop_while test [] = []
drop_while test (x ∷ xs) = if test x then drop_while test xs else x ∷ xs

pop-reverse : (x : ℕ) (r : List ℕ) → pop (reverse (x ∷ r)) ≡ some (reverse r, x)
pop-reverse x r = rw (reverse-cons x r) (pop_last (reverse r) x)

length-drop_while : (test : ℕ → Bool) (r : List ℕ) → length (drop_while test r) ≤ length r
length-drop_while test [] = omega arith
length-drop_while test (x ∷ r) = ground (arith, length-drop_while test r)

pop_while_stop :
    (test : ℕ → Bool) (fuel : ℕ) (buf : List ℕ) (n : ℕ) {ys : List ℕ} {y : ℕ}
    → pop buf ≡ some (ys, y)
    → test y ≡ false
    → pop_while test (suc fuel) buf n ≡ (buf, n)
unfolding pop_while
pop_while_stop test fuel buf n p q = rw (p, q, pop_while) refl

pop_while_more :
    (test : ℕ → Bool) (fuel : ℕ) (buf : List ℕ) (n : ℕ) {ys : List ℕ} {y : ℕ}
    → pop buf ≡ some (ys, y)
    → test y ≡ true
    → pop_while test (suc fuel) buf n ≡ pop_while test fuel ys (n + 1)
unfolding pop_while
pop_while_more test fuel buf n p q = rw (p, q, pop_while) refl

-- A loop that pops is a loop over the reversed buffer, and its fuel is enough.
pop_while_lem :
    (test : ℕ → Bool) (fuel : ℕ) (r : List ℕ) (n : ℕ)
    → length r ≤ fuel
    → pop_while test fuel (reverse r) n
      ≡ (reverse (drop_while test r), n + (length r - length (drop_while test r)))
pop_while_lem test zero [] n h = unfold pop_while in ap (λ k. ([], k)) (omega arith)
pop_while_lem test zero (x ∷ r) n h = absurd (omega arith)
pop_while_lem test (suc fuel) [] n h = unfold pop_while pop in ap (λ k. ([], k)) (omega arith)
pop_while_lem test (suc fuel) (x ∷ r) n h = elim (Bool-cases (test x)) [
  | inl e ↦
      pop_while_more test fuel (reverse (x ∷ r)) n (pop-reverse x r) e
      ∙ pop_while_lem test fuel r (n + 1) (omega arith)
      ∙ rw e (ap₂ (λ a k. (a, k)) refl (omega (arith, length-drop_while test r)))
  | inr e ↦
      pop_while_stop test fuel (reverse (x ∷ r)) n (pop-reverse x r) e
      ∙ rw e (ap (λ k. (reverse (x ∷ r), k)) (omega arith))
]

length-reverse : (xs : List ℕ) → length (reverse xs) ≡ length xs
length-reverse [] = refl
length-reverse (x ∷ xs) =
    ap length (reverse-cons x xs)
    ∙ length-append (reverse xs) (x ∷ [])
    ∙ omega (arith, length-reverse xs)

-- The buffer without the blanks at its end and without the word before them.
abbrev pub before_word : List ℕ → List ℕ
before_word buf = reverse (drop_while (λ b. not (is_blank b)) (drop_while is_blank (reverse buf)))

erase_word-reverse :
    (r : List ℕ)
    → let kept = drop_while (λ b. not (is_blank b)) (drop_while is_blank r) in
      erase_word (reverse r) ≡ (reverse kept, length r - length kept)
erase_word-reverse r =
    let kept = drop_while is_blank r in
    let one = pop_while_lem is_blank (length (reverse r)) r 0 (omega (arith, length-reverse r)) in
    let two =
      pop_while_lem (λ b. not (is_blank b)) (length (reverse kept)) kept
        (0 + (length r - length kept)) (omega (arith, length-reverse kept)) in
    unfold erase_word in
    rw one (
      two
      ∙ ap (λ k. (reverse (drop_while (λ b. not (is_blank b)) kept), k))
          (omega (
            arith,
            length-drop_while is_blank r,
            length-drop_while (λ b. not (is_blank b)) (drop_while is_blank r),
          )))

erase_word_lem :
    (buf : List ℕ) → erase_word buf ≡ (before_word buf, length buf - length (before_word buf))
erase_word_lem buf =
    let kept : List ℕ = drop_while (λ b. not (is_blank b)) (drop_while is_blank (reverse buf)) in
    subst (λ l. erase_word l ≡ (before_word buf, length (reverse buf) - length kept))
      (reverse-reverse buf) (erase_word-reverse (reverse buf))
    ∙ ap (λ k. (before_word buf, k)) (omega (arith, length-reverse buf, length-reverse kept))

pub length-before_word : (buf : List ℕ) → length (before_word buf) ≤ length buf
length-before_word buf =
    let blanks = drop_while is_blank (reverse buf) in
    omega (
      arith,
      length-reverse buf,
      length-reverse (drop_while (λ b. not (is_blank b)) blanks),
      length-drop_while is_blank (reverse buf),
      length-drop_while (λ b. not (is_blank b)) blanks,
    )

-- Erasing a word takes away the blanks at the end of the line and the word before them, and shows
-- as many rub-outs on the screen, if echo is on, as bytes are taken away. Nothing else changes.
pub word_erase_lem :
    (d : LineDiscipline)
    → let kept = before_word d.canon_buf in
      word_erase d ≡ record {
        disc = record d { canon_buf = kept };
        output =
            if is_echo d
            then repeat (length d.canon_buf - length kept) (write_output d rubout)
            else [];
        signal = none;
        woken = false;
      }
unfolding word_erase
word_erase_lem d = rw (erase_word_lem d.canon_buf) refl
