-- ===== src/Rt/Bitmap.antt =====
-- petra/src/sched/sched_class/rt.rs: the tasks of a run queue in the order of their turns, and the
-- scan of the bitmap for the first.
use petra_os.Common.{
  ℕ, zero, suc, ◌+◌, ◌-◌, ◌≤◌, ◌<◌, ◌≡◌, refl, sym, ap, ap₂, ◌∙◌, ◌↔◌, ◌⊎◌, inl, inr, Bool, true,
  false, none, some, List, [], ◌∷◌, ◌++◌, append_assoc, arith, ◌==◌, Bool-cases, if_true, if_false,
  length, length-append,
}
use native.Mathlib.Decide.{ℕ_discrete, dec_le}
use petra_os.Rt.{
  SchedEntry, RtRunQueue, put, front, bits, is_zero, leading_zeros, highest_prio, pick_next,
}

-- The levels below `n`, the highest first.
abbrev pub in_order {ℓ} : {A : Type ℓ} → ℕ → (ℕ → List A) → List A
in_order zero q = []
in_order (suc n) q = q n ++ in_order n q

abbrev pub tasks : RtRunQueue → List SchedEntry
tasks rq = in_order 100 rq.prio_queues

module _ {ℓ} {A : Type ℓ} where
  pub in_order-add :
      (k m : ℕ) (q : ℕ → List A) → in_order (k + m) q ≡ in_order k (λ i. q (i + m)) ++ in_order m q
  in_order-add zero m q = let same : 0 + m ≡ m = omega arith in ap (λ n. in_order n q) same
  in_order-add (suc k) m q =
      let next : suc k + m ≡ suc (k + m) = omega arith in
      ap (λ n. in_order n q) next
      ∙ ap (λ l. q (k + m) ++ l) (in_order-add k m q)
      ∙ sym (append_assoc (q (k + m)) (in_order k (λ i. q (i + m))) (in_order m q))

  pub in_order-nil : (n : ℕ) (q : ℕ → List A) → ((p : ℕ) → q p ≡ []) → in_order n q ≡ []
  in_order-nil zero q h = refl
  in_order-nil (suc n) q h = rw (h n) (in_order-nil n q h)

  pub in_order-put :
      (n k : ℕ) (v : List A) (q : ℕ → List A) → n ≤ k → in_order n (put q k v) ≡ in_order n q
  in_order-put zero k v q h = refl
  in_order-put (suc n) k v q h =
      ap₂ (λ a b. a ++ b) (if_false (n == k) v (ground arith)) (in_order-put n k v q (omega arith))

  pub length-put :
      (n k : ℕ) (v : List A) (q : ℕ → List A)
      → k < n
      → length (in_order n (put q k v)) + length (q k) ≡ length (in_order n q) + length v
  length-put zero k v q h = absurd (omega arith)
  length-put (suc n) k v q h = elim (Bool-cases (n == k)) [
    | inl t ↦
        let same : k ≡ n = ground (arith, t) in
        let here : put q k v n ≡ v = if_true (n == k) (q n) t in
        omega (
          arith,
          length-append (put q k v n) (in_order n (put q k v)),
          length-append (q n) (in_order n q),
          ap length here,
          ap length (in_order-put n k v q (omega arith)),
          ap (λ i. length (q i)) same,
        )
    | inr t ↦
        let here : put q k v n ≡ q n = if_false (n == k) v t in
        omega (
          arith,
          length-append (put q k v n) (in_order n (put q k v)),
          length-append (q n) (in_order n q),
          ap length here,
          length-put n k v q (ground (arith, t)),
        )
  ]

pub nil-cases {ℓ} : {A : Type ℓ} (l : List A) → (l ≡ []) ⊎ (0 < length l)
nil-cases [] = inl refl
nil-cases (x ∷ l) = inr (omega arith)

front-append {ℓ} : {A : Type ℓ} (l r : List A) → 0 < length l → front (l ++ r) ≡ front l
front-append [] r h = absurd (omega arith)
front-append (x ∷ l) r h = refl

-- The bits say which levels have a task.
abbrev pub Marked : (ℕ → Bool) → (ℕ → List SchedEntry) → Type 0
Marked bitmap q = (p : ℕ) → (bitmap p ≡ true) ↔ (0 < length (q p))

-- The scan below `n` finds the level of the first task, if there is one.
record Scanned (n : ℕ) (bitmap : ℕ → Bool) (q : ℕ → List SchedEntry) : Type 0 where
  found : is_zero n bitmap ≡ false
  at : ℕ
  place : at + 1 + leading_zeros n bitmap ≡ n
  held : 0 < length (q at)
  above : (k : ℕ) → at < k → k < n → q k ≡ []
  first : front (q at) ≡ front (in_order n q)

-- Every level below `n` is empty.
abbrev pub Empty : ℕ → (ℕ → List SchedEntry) → Type 0
Empty n q = (k : ℕ) → k < n → q k ≡ []

one_more :
    (n : ℕ) (q : ℕ → List SchedEntry)
    → q n ≡ []
    → (k : ℕ) → (k < n → q k ≡ [])
    → k < suc n
    → q k ≡ []
one_more n q e k below h = elim (ℕ_discrete k n) [
  | yes same ↦ ap q same ∙ e
  | no other ↦ below (omega arith)
]

module _ (bitmap : ℕ → Bool) (q : ℕ → List SchedEntry) (marked : Marked bitmap q) where
  scan :
      (n : ℕ) → ((is_zero n bitmap ≡ true) × (in_order n q ≡ []) × Empty n q) ⊎ Scanned n bitmap q
  scan zero = inl (refl, refl, λ k h. absurd (omega arith))
  scan (suc n) = elim (nil-cases (q n)) [
    | inl e ↦
        let clear : bitmap n ≡ false = elim (Bool-cases (bitmap n)) [
          | inl t ↦ absurd (omega (arith, (marked n).0 t, ap length e))
          | inr c ↦ c
        ] in
        elim (scan n) [
          | inl (z, nothing, empty) ↦
              inl (rw (clear, z) refl, rw (e, nothing) refl, λ k. one_more n q e k (empty k))
          | inr s ↦ inr (record {
            found = rw (clear, s.found) refl;
            at = s.at;
            place = rw clear (omega (arith, s.place));
            held = s.held;
            above = λ k lo. one_more n q e k (s.above k lo);
            first = rw e s.first;
          })
        ]
    | inr h ↦
        let set_bit : bitmap n ≡ true = (marked n).1 h in
        inr (record {
          found = rw set_bit refl;
          at = n;
          place = rw set_bit (omega arith);
          held = h;
          above = λ k lo hi. absurd (omega arith);
          first = sym (front-append (q n) (in_order n q) h);
        })
  ]

-- `highest_prio` is `h`: the highest level that has a task, the first of all at its front.
pub record Highest (rq : RtRunQueue) (h : ℕ) : Type 0 where
  pub answer : highest_prio rq ≡ some h
  pub held : 0 < length (rq.prio_queues h)
  pub above : (k : ℕ) → h < k → rq.prio_queues k ≡ []
  pub first : front (rq.prio_queues h) ≡ front (tasks rq)

module _ (rq : RtRunQueue) (marked : Marked rq.prio_bitmap rq.prio_queues)
    (low : (p : ℕ) → 100 ≤ p → rq.prio_queues p ≡ []) where
  all_levels : in_order bits rq.prio_queues ≡ tasks rq
  all_levels =
      in_order-add 28 100 rq.prio_queues
      ∙ ap (λ l. l ++ tasks rq)
          (in_order-nil 28 (λ i. rq.prio_queues (i + 100)) (λ p. low (p + 100) (omega arith)))

  every : (k : ℕ) → (k < bits → rq.prio_queues k ≡ []) → rq.prio_queues k ≡ []
  every k below = elim (dec_le 100 k) [ yes h ↦ low k h | no h ↦ below (omega arith) ]

  pub highest_prio_lem :
      ((highest_prio rq ≡ none) × (tasks rq ≡ []) × ((k : ℕ) → rq.prio_queues k ≡ []))
      ⊎ ((h : ℕ) × Highest rq h)
  unfolding highest_prio
  highest_prio_lem = elim (scan rq.prio_bitmap rq.prio_queues marked bits) [
    | inl (z, nothing, empty) ↦
        inl (rw (z, highest_prio) refl, sym all_levels ∙ nothing, λ k. every k (empty k))
    | inr s ↦
        let highest : 127 - leading_zeros bits rq.prio_bitmap ≡ s.at = omega (arith, s.place) in
        inr (
          s.at,
          record {
            answer = rw (s.found, highest_prio, highest) refl;
            held = s.held;
            above = λ k lo. every k (s.above k lo);
            first = s.first ∙ ap front all_levels;
          },
        )
  ]

  -- The task that is picked is the first.
  pub pick_next-front : pick_next rq ≡ front (tasks rq)
  unfolding pick_next
  pick_next-front = elim highest_prio_lem [
    | inl (none_found, nothing, empty) ↦ rw (none_found, pick_next) (ap front (sym nothing))
    | inr (h, s) ↦ rw (s.answer, pick_next) s.first
  ]
