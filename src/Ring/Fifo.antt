-- ===== src/Ring/Fifo.antt =====
-- petra/src/utils/ring_buffer.rs: the buffer is a queue that holds at most cap bytes.
use petra_os.Common.{
  ℕ, zero, suc, ◌+◌, ◌/◌, ◌%◌, ◌≤◌, ◌<◌, ◌≡◌, refl, sym, ap, ◌∙◌, subst, ◌≢◌, ◌↔◌, true, false,
  none, some, List, [], ◌∷◌, ◌++◌, arith, ◌==◌, ==_iff, length, get_elem?, set, length-set,
  get_elem?-set_self, get_elem?-set_ne, get_elem?_total,
}
use Prim.Native.Nat.{◌∣◌}
use native.Mathlib.Nat.{mod-lt, mod-mod_of_dvd, div-add-mod, mul-suc, mul-le-mul_left}
use native.Mathlib.Decide.{dec_le}
use petra_os.Ring.{
  word, wrapping_inc, wrapping_sub, RingBuffer, len, is_empty, push, pop_front, is_full,
}

-- The bytes in `n` slots from the counter `t` on.
abbrev pub slots : ℕ → List ℕ → ℕ → ℕ → List ℕ
slots cap buffer t zero = []
slots cap buffer t (suc n) =
    let rest = slots cap buffer (wrapping_inc t) n in
    elim (get_elem? buffer (t % cap)) [ none ↦ [] | some b ↦ b ∷ rest ]

abbrev pub contents : ℕ → RingBuffer → List ℕ
contents cap r = slots cap r.buffer r.tail (len r)

-- The capacity divides 2^64, as any power of two up to there does.
pub record IsValid (cap : ℕ) (r : RingBuffer) : Type 0 where
  pub size : length r.buffer ≡ cap
  pub positive : 0 < cap
  pub small : cap < word
  pub whole : cap ∣ word
  pub head_fits : r.head < word
  pub tail_fits : r.tail < word
  pub room : len r ≤ cap

count-pop :
    (h t : ℕ)
    → h < word
    → t < word
    → 0 < wrapping_sub h t
    → wrapping_sub h t ≡ suc (wrapping_sub h (wrapping_inc t))
count-pop h t hh ht n = omega arith

count-push :
    (h t : ℕ)
    → h < word
    → t < word
    → suc (wrapping_sub h t) < word
    → wrapping_sub (wrapping_inc h) t ≡ suc (wrapping_sub h t)
count-push h t hh ht n = omega arith

counted : (h t : ℕ) → h < word → t < word → h ≡ (t + wrapping_sub h t) % word
counted h t hh ht = omega arith

module _ (cap : ℕ) (positive : 0 < cap) (whole : cap ∣ word) where
  -- Slots less than `cap` apart are different.
  apart : (t n : ℕ) → 0 < n → n < cap → (t + n) % cap ≢ t % cap
  apart t n lo hi e =
      let a = div-add-mod t cap in
      let b = div-add-mod (t + n) cap in
      elim (dec_le ((t + n) / cap) (t / cap)) [
        | yes k ↦ omega (arith, mul-le-mul_left cap k)
        | no k ↦ omega (
          arith,
          mul-suc cap (t / cap),
          mul-le-mul_left {m = suc (t / cap)} {n = (t + n) / cap} cap (omega arith),
        )
      ]

  elsewhere : (t n : ℕ) → 0 < n → n < cap → ((t + n) % word) % cap ≢ t % cap
  elsewhere t n lo hi e = apart t n lo hi (sym (mod-mod_of_dvd cap (t + n) whole) ∙ e)

  slots-more :
      (buf : List ℕ) (t n : ℕ) {b : ℕ}
      → get_elem? buf (t % cap) ≡ some b
      → slots cap buf t (suc n) ≡ b ∷ slots cap buf (wrapping_inc t) n
  slots-more buf t n e = rw (e, slots) refl

  slots-push :
      (buf : List ℕ) (v t n : ℕ)
      → length buf ≡ cap
      → t < word
      → n < cap
      → slots cap (set buf (((t + n) % word) % cap) v) t (suc n) ≡ slots cap buf t n ++ (v ∷ [])
  slots-push buf v t zero size lt h =
      let here : (t + 0) % word ≡ t = omega arith in
      slots-more (set buf (((t + 0) % word) % cap) v) t 0
        (rw here (get_elem?-set_self buf (t % cap) v (omega (arith, mod-lt t positive))))
  slots-push buf v t (suc n) size lt h =
      let target : ℕ = ((t + suc n) % word) % cap in
      let (b, found) = get_elem?_total buf (t % cap) (omega (arith, mod-lt t positive)) in
      let still =
        get_elem?-set_ne buf target (t % cap) v (elsewhere t (suc n) (omega arith) h) ∙ found in
      let onward : (wrapping_inc t + n) % word ≡ (t + suc n) % word = omega arith in
      let rest : slots cap (set buf target v) (wrapping_inc t) (suc n)
          ≡ slots cap buf (wrapping_inc t) n ++ (v ∷ []) =
        subst
          (λ i.
            slots cap (set buf (i % cap) v) (wrapping_inc t) (suc n)
            ≡ slots cap buf (wrapping_inc t) n ++ (v ∷ []))
          onward (slots-push buf v (wrapping_inc t) n size (omega arith) (omega arith)) in
      slots-more (set buf target v) t (suc n) still
      ∙ ap (λ l. b ∷ l) rest
      ∙ ap (λ l. l ++ (v ∷ [])) (sym (slots-more buf t n found))

  length-slots : (buf : List ℕ) (t n : ℕ) → length buf ≡ cap → length (slots cap buf t n) ≡ n
  length-slots buf t zero size = refl
  length-slots buf t (suc n) size =
      let (b, found) = get_elem?_total buf (t % cap) (omega (arith, mod-lt t positive)) in
      ap length (slots-more buf t n found) ∙ ap suc (length-slots buf (wrapping_inc t) n size)

pub length-contents : (cap : ℕ) (r : RingBuffer) → IsValid cap r → length (contents cap r) ≡ len r
length-contents cap r v = length-slots cap v.positive v.whole r.buffer r.tail (len r) v.size

abbrev added : ℕ → RingBuffer → ℕ → RingBuffer
added cap r b = record r { buffer = set r.buffer (r.head % cap) b; head = wrapping_inc r.head }

abbrev removed : RingBuffer → RingBuffer
removed r = record r { tail = wrapping_inc r.tail }

module _ (cap : ℕ) (r : RingBuffer) (v : IsValid cap r) where
  push-room : (b : ℕ) → len r < cap → push cap b r ≡ (true, added cap r b)
  unfolding push len
  push-room b h = ground arith

  pub push-full : (b : ℕ) → len r ≡ cap → push cap b r ≡ (false, r)
  unfolding push len
  push-full b h = ground arith

  pop-empty : len r ≡ 0 → pop_front cap r ≡ (none, r)
  unfolding pop_front len
  pop-empty h =
      let same : (r.tail == r.head) ≡ true = ground (arith, v.head_fits, v.tail_fits) in
      rw (same, pop_front) refl

  pop-step : 0 < len r → pop_front cap r ≡ (get_elem? r.buffer (r.tail % cap), removed r)
  unfolding pop_front len
  pop-step h =
      let other : (r.tail == r.head) ≡ false = ground (arith, v.head_fits, v.tail_fits) in
      rw (other, pop_front) refl

  len-added : (b : ℕ) → len r < cap → len (added cap r b) ≡ suc (len r)
  unfolding len
  len-added b h = count-push r.head r.tail v.head_fits v.tail_fits (omega (arith, v.small))

  len-removed : 0 < len r → len r ≡ suc (len (removed r))
  unfolding len
  len-removed h = count-pop r.head r.tail v.head_fits v.tail_fits h

  added-IsValid : (b : ℕ) → len r < cap → IsValid cap (added cap r b)
  added-IsValid b h = record {
    size = length-set r.buffer (r.head % cap) b ∙ v.size;
    positive = v.positive;
    small = v.small;
    whole = v.whole;
    head_fits = omega arith;
    tail_fits = v.tail_fits;
    room = omega (arith, len-added b h);
  }

  removed-IsValid : 0 < len r → IsValid cap (removed r)
  removed-IsValid h = record {
    size = v.size;
    positive = v.positive;
    small = v.small;
    whole = v.whole;
    head_fits = v.head_fits;
    tail_fits = omega arith;
    room = omega (arith, v.room, len-removed h);
  }

  contents-added : (b : ℕ) → len r < cap → contents cap (added cap r b) ≡ contents cap r ++ (b ∷ [])
  contents-added b h =
      let at : r.head ≡ (r.tail + len r) % word =
        unfold len in counted r.head r.tail v.head_fits v.tail_fits in
      ap (slots cap (set r.buffer (r.head % cap) b) r.tail) (len-added b h)
      ∙ ap (λ i. slots cap (set r.buffer (i % cap) b) r.tail (suc (len r))) at
      ∙ slots-push cap v.positive v.whole r.buffer b r.tail (len r) v.size v.tail_fits h

  contents-removed :
      0 < len r
      → (b : ℕ) × (get_elem? r.buffer (r.tail % cap) ≡ some b)
        × (contents cap r ≡ b ∷ contents cap (removed r))
  contents-removed h =
      let (b, found) =
        get_elem?_total r.buffer (r.tail % cap) (omega (arith, mod-lt r.tail v.positive, v.size)) in
      (
        b,
        found,
        ap (slots cap r.buffer r.tail) (len-removed h)
            ∙ slots-more cap v.positive v.whole r.buffer r.tail (len (removed r)) found,
      )

cons-injective :
    (x y : ℕ) (xs ys : List ℕ) → ◌≡◌ {A = List ℕ} (x ∷ xs) (y ∷ ys) → (x ≡ y) × (xs ≡ ys)
cons-injective x y xs ys e = (cc, cc)

length-nil : (l : List ℕ) → length l ≡ 0 → l ≡ []
length-nil [] h = refl
length-nil (x ∷ xs) h = absurd (omega arith)

is_empty-nil :
    (cap : ℕ) (r : RingBuffer) → IsValid cap r → (is_empty r ≡ true) ↔ (contents cap r ≡ [])
unfolding is_empty
is_empty-nil cap r v =
    let size = length-contents cap r v in
    (
      (λ e. length-nil (contents cap r) (size ∙ (==_iff (len r) 0).0 e)),
      λ e. (==_iff (len r) 0).1 (sym size ∙ ap length e),
    )

-- The buffer is a queue of at most `cap` bytes. A byte is taken while there is room and goes to the
-- end, and is refused, with nothing changed, when the queue is full; the byte that is popped is the
-- first of the queue, and there is none when it is empty. The tests are exact.
pub queue_lem :
    (cap : ℕ) (r : RingBuffer) (b : ℕ)
    → IsValid cap r
    → let q = contents cap r in
      (length q < cap
        → let (taken, r') = push cap b r in
          (taken ≡ true) × (contents cap r' ≡ q ++ (b ∷ [])) × IsValid cap r')
      × (length q ≡ cap → push cap b r ≡ (false, r))
      × (q ≡ [] → pop_front cap r ≡ (none, r))
      × ((x : ℕ) (xs : List ℕ)
          → q ≡ x ∷ xs
          → let (popped, r') = pop_front cap r in
            (popped ≡ some x) × (contents cap r' ≡ xs) × IsValid cap r')
      × ((is_empty r ≡ true) ↔ (q ≡ []))
      × ((is_full cap r ≡ true) ↔ (length q ≡ cap))
queue_lem cap r b v =
    let size = length-contents cap r v in
    let empty_len : contents cap r ≡ [] → len r ≡ 0 = λ e. sym size ∙ ap length e in
    (
      (λ h.
          rw (push-room cap r v b (omega arith))
            (refl, contents-added cap r v b (omega arith), added-IsValid cap r v b (omega arith))),
      (λ h. push-full cap r v b (omega arith)),
      (λ e. pop-empty cap r v (empty_len e)),
      (λ x xs e.
          let some_len : 0 < len r = omega (arith, ap length e) in
          let (y, found, split) = contents-removed cap r v some_len in
          let (same, rest) = cons-injective y x (contents cap (removed r)) xs (sym split ∙ e) in
          rw (pop-step cap r v some_len)
            (found ∙ ap some same, rest, removed-IsValid cap r v some_len)),
      is_empty-nil cap r v,
      (unfold is_full in ground (arith, size, v.room)),
    )

pop_front-IsValid : (cap : ℕ) (r : RingBuffer) → IsValid cap r → IsValid cap (pop_front cap r).1
pop_front-IsValid cap r v = elim (dec_le (len r) 0) [
  | yes h ↦ rw (pop-empty cap r v (omega arith)) v
  | no h ↦ rw (pop-step cap r v (omega arith)) (removed-IsValid cap r v (omega arith))
]
