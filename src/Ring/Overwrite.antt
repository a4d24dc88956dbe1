-- ===== src/Ring/Overwrite.antt =====
-- petra/src/utils/ring_buffer.rs, drivers/char/tty/core/input.rs: pushing over the oldest bytes.
use petra_os.Common.{
  ℕ, zero, suc, ◌+◌, ◌-◌, ◌≤◌, ◌<◌, ◌≡◌, refl, sym, ap, ◌∙◌, subst, false, List, [], ◌∷◌, ◌++◌,
  append-nil, append_assoc, arith, length, drop, length-append, length-drop,
}
use native.Mathlib.Decide.{dec_lt}
use petra_os.Ring.{RingBuffer, push, pop_front, push_overwrite, push_all}
use petra_os.Ring.Fifo.{contents, IsValid, length-contents, queue_lem}

-- The last `n` elements, or all.
abbrev pub last : ℕ → List ℕ → List ℕ
last n l = drop (length l - n) l

drop-append : (k : ℕ) (xs ys : List ℕ) → k ≤ length xs → drop k xs ++ ys ≡ drop k (xs ++ ys)
drop-append zero xs ys h = refl
drop-append (suc k) [] ys h = absurd (omega arith)
drop-append (suc k) (x ∷ xs) ys h = drop-append k xs ys (omega arith)

drop-nil : (n : ℕ) → drop {A = ℕ} n [] ≡ []
drop-nil zero = refl
drop-nil (suc n) = refl

drop-drop : (j k : ℕ) (xs : List ℕ) → drop j (drop k xs) ≡ drop (k + j) xs
drop-drop j zero xs = ap (λ i. drop i xs) (omega arith)
drop-drop j (suc k) [] = drop-nil j ∙ sym (drop-nil (suc k + j))
drop-drop j (suc k) (x ∷ xs) =
    let more : suc (k + j) ≡ suc k + j = omega arith in
    drop-drop j k xs ∙ ap (λ i. drop i (x ∷ xs)) more

last-last : (n : ℕ) (xs ys : List ℕ) → last n (last n xs ++ ys) ≡ last n (xs ++ ys)
last-last n xs ys =
    let k = length xs - n in
    let joined : last n xs ++ ys ≡ drop k (xs ++ ys) = drop-append k xs ys (omega arith) in
    let count : k + (length (drop k (xs ++ ys)) - n) ≡ length (xs ++ ys) - n =
      omega (arith, length-append xs ys, length-drop k (xs ++ ys)) in
    ap (last n) joined
    ∙ drop-drop (length (drop k (xs ++ ys)) - n) k (xs ++ ys)
    ∙ ap (λ i. drop i (xs ++ ys)) count

pub last-short : (n : ℕ) (xs : List ℕ) → length xs ≤ n → last n xs ≡ xs
last-short n xs h = let whole : length xs - n ≡ 0 = omega arith in ap (λ i. drop i xs) whole

first : (q : List ℕ) → 0 < length q → (x : ℕ) × (xs : List ℕ) × (q ≡ x ∷ xs)
first [] h = absurd (omega arith)
first (x ∷ xs) h = (x, xs, refl)

full :
    (cap : ℕ) (r : RingBuffer) (b : ℕ)
    → IsValid cap r
    → length (contents cap r) ≡ cap
    → (x : ℕ) (xs : List ℕ) → contents cap r ≡ x ∷ xs
    → (contents cap (push_overwrite cap b r) ≡ last cap (contents cap r ++ (b ∷ [])))
      × IsValid cap (push_overwrite cap b r)
unfolding push_overwrite
full cap r b v h x xs e =
    let (popped, left, v') = (queue_lem cap r b v).3 x xs e in
    let r' = (pop_front cap r).1 in
    let (taken, held, valid) =
      (queue_lem cap r' b v').0 (omega (arith, ap length e, ap length left)) in
    let refused : (push cap b r).0 ≡ false = ap (λ p. p.0) ((queue_lem cap r b v).1 h) in
    let same : push_overwrite cap b r ≡ (push cap b r').1 = rw (refused, push_overwrite) refl in
    let newest : drop (length (contents cap r ++ (b ∷ [])) - cap) (x ∷ xs ++ (b ∷ []))
        ≡ xs ++ (b ∷ []) =
      ap (λ i. drop i (x ∷ xs ++ (b ∷ []))) {y = 1}
        (omega (arith, length-append (contents cap r) (b ∷ []))) in
    let kept : last cap (contents cap r ++ (b ∷ [])) ≡ xs ++ (b ∷ []) =
      ap (λ q. drop (length (contents cap r ++ (b ∷ [])) - cap) (q ++ (b ∷ []))) e ∙ newest in
    (
      ap (contents cap) same ∙ held ∙ ap (λ q. q ++ (b ∷ [])) left ∙ sym kept,
      subst (IsValid cap) (sym same) valid,
    )

push_overwrite-last :
    (cap : ℕ) (r : RingBuffer) (b : ℕ)
    → IsValid cap r
    → (contents cap (push_overwrite cap b r) ≡ last cap (contents cap r ++ (b ∷ [])))
      × IsValid cap (push_overwrite cap b r)
push_overwrite-last cap r b v = elim (dec_lt (length (contents cap r)) cap) [
  | yes h ↦
      let (taken, held, valid) = (queue_lem cap r b v).0 h in
      unfold push_overwrite in
      rw (taken, push_overwrite)
        (
          held
              ∙ sym (
                  last-short cap (contents cap r ++ (b ∷ []))
                    (omega (arith, length-append (contents cap r) (b ∷ [])))),
          valid,
        )
  | no h ↦
      let size = length-contents cap r v in
      let (x, xs, e) = first (contents cap r) (omega (arith, size, v.room, v.positive)) in
      full cap r b v (omega (arith, size, v.room)) x xs e
]

-- Queueing bytes keeps the newest ones: after any bytes are pushed over what a buffer holds, it
-- holds the last `cap` bytes of what it held followed by them, in order, and is still a queue.
pub push_all-last :
    (cap : ℕ) (bytes : List ℕ) (r : RingBuffer)
    → IsValid cap r
    → (contents cap (push_all cap bytes r) ≡ last cap (contents cap r ++ bytes))
      × IsValid cap (push_all cap bytes r)
unfolding push_all
push_all-last cap [] r v = (
  sym (
      ap (last cap) (append-nil (contents cap r))
      ∙ last-short cap (contents cap r) (omega (arith, length-contents cap r v, v.room))),
  v,
)
push_all-last cap (b ∷ bytes) r v =
    let (one, v') = push_overwrite-last cap r b v in
    let (rest, v'') = push_all-last cap bytes (push_overwrite cap b r) v' in
    (
      rest
          ∙ ap (λ q. last cap (q ++ bytes)) one
          ∙ last-last cap (contents cap r ++ (b ∷ [])) bytes
          ∙ ap (last cap) (append_assoc (contents cap r) (b ∷ []) bytes),
      v'',
    )
