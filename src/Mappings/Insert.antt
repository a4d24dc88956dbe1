-- ===== src/Mappings/Insert.antt =====
-- petra/src/vm/vmar/mappings.rs: `Mappings::insert`.
use petra_os.Common.{
  ℕ, ◌≤◌, ◌<◌, ◌≡◌, refl, sym, ap, ◌∙◌, subst, ◌⊎◌, inl, inr, true, false, ◌||◌, Option, none, some,
  List, [], ◌∷◌, arith, ltb, leb, ◌==◌, if◌then◌else◌, Bool-cases, Option-cases, All,
}
use petra_os.Mappings.{VmMapping, end_of, can_merge, merged}
use petra_os.Mappings.Table.{prev, next, remove, put, take_prev, take_next, insert}
use petra_os.Mappings.View.{
  covers, info, view, Ordered, Apart, Away, covers→bounds, covers_below, covers_above, view_below,
  Ordered-weaken, Apart-All,
}
use petra_os.Mappings.Join.{merged-Info}

abbrev pub Has : VmMapping → List VmMapping → Type 0
Has p [] = ⊥
Has p (m ∷ ms) = (m ≡ p) ⊎ Has p ms

pub prev-Has : (ms : List VmMapping) (addr : ℕ) (p : VmMapping) → prev ms addr ≡ some p → Has p ms
unfolding prev
prev-Has [] addr p h = absurd (cc)
prev-Has (m ∷ ms) addr p h = elim (Bool-cases (ltb m.start addr)) [
  | inr e ↦ inr (prev-Has ms addr p (rw e at h))
  | inl e ↦ elim (Option-cases (prev ms addr)) [
    | inl n ↦ inl (ground (arith, h, e, n))
    | inr (q, n) ↦ inr (prev-Has ms addr p (ground (arith, h, e, n)))
  ]
]

pub next-Has : (ms : List VmMapping) (addr : ℕ) (p : VmMapping) → next ms addr ≡ some p → Has p ms
unfolding next
next-Has [] addr p h = absurd (cc)
next-Has (m ∷ ms) addr p h = elim (Bool-cases (leb addr m.start)) [
  | inl e ↦ inl (ground (arith, h, e))
  | inr e ↦ inr (next-Has ms addr p (rw e at h))
]

pub Has-Ordered :
    (lo : ℕ) (ms : List VmMapping) (p : VmMapping)
    → Ordered lo ms
    → Has p ms
    → (lo ≤ p.start) × (0 < p.len)
Has-Ordered lo [] p o h = absurd h
Has-Ordered lo (m ∷ ms) p o (inl e) = rw (sym e) (o.0, o.1)
Has-Ordered lo (m ∷ ms) p o (inr h) =
    let r = Has-Ordered (end_of m) ms p o.2 h in (omega (arith, r.0, o.0), r.1)

-- What is left when a mapping is taken out of the table.
record Without (lo : ℕ) (ms : List VmMapping) (p : VmMapping) : Type 0 where
  ordered : Ordered lo (remove ms p.start)
  apart : Apart p (remove ms p.start)
  views : (a : ℕ) → view ms a ≡ (if covers p a then some (info p a) else view (remove ms p.start) a)

remove-Without :
    (lo : ℕ) (ms : List VmMapping) (p : VmMapping) → Ordered lo ms → Has p ms → Without lo ms p
unfolding remove
remove-Without lo [] p o h = absurd h
remove-Without lo (m ∷ ms) p o (inl e) =
    let same_key : (m.start == p.start) ≡ true = ground (arith, ap (λ q. q.start) e) in
    record {
      ordered = rw same_key (Ordered-weaken (end_of m) lo ms (omega (arith, o.0)) o.2);
      apart = λ a c. rw same_key (
          view_below (end_of m) ms a o.2
            (subst (λ q. a < end_of q) (sym e) (covers→bounds p a c).1));
      views = λ a. rw (same_key, e) refl;
    }
remove-Without lo (m ∷ ms) p o (inr h) =
    let rest = remove-Without (end_of m) ms p o.2 h in
    let after = Has-Ordered (end_of m) ms p o.2 h in
    let other_key : (m.start == p.start) ≡ false = ground (arith, after.0, o.1) in
    record {
      ordered = rw other_key (o.0, o.1, rest.ordered);
      apart = λ a c.
          rw (other_key, covers_above m a (omega (arith, after.0, (covers→bounds p a c).0)))
            (rest.apart a c);
      views = λ a. rw other_key (elim (Bool-cases (covers m a)) [
        | inl k ↦ rw (k, covers_below p a (omega (arith, after.0, (covers→bounds m a k).1))) refl
        | inr k ↦ rw k (rest.views a)
      ]);
    }

-- A mapping to insert and the table it goes into.
record Ready (m : VmMapping) (ms : List VmMapping) : Type 0 where
  ordered : Ordered 0 ms
  full : 0 < m.len
  apart : Apart m ms

-- Taking in a neighbour `p` of `m`, where `u` is their merger.
absorb-Ready :
    (m p u : VmMapping) (ms : List VmMapping)
    → Ready m ms
    → Has p ms
    → 0 < u.len
    → ((a : ℕ) → covers u a ≡ (covers m a || covers p a))
    → ((a : ℕ) → covers m a ≡ true → info u a ≡ info m a)
    → ((a : ℕ) → covers p a ≡ true → info u a ≡ info p a)
    → Ready u (remove ms p.start) × ((a : ℕ) → view (u ∷ remove ms p.start) a ≡ view (m ∷ ms) a)
absorb-Ready m p u ms r h full cov im ip =
    let w = remove-Without 0 ms p r.ordered h in
    (
      record {
        ordered = w.ordered;
        full = full;
        apart = λ a c. elim (Bool-cases (covers p a)) [
          | inl k ↦ w.apart a k
          | inr k ↦
              let z =
                sym (w.views a) ∙ r.apart a (let q = sym (cov a) ∙ c in ground (arith, q, k)) in
              rw k at z
        ];
      },
      λ a. elim (Bool-cases (covers p a)) [
        | inl k ↦
            (let c : covers u a ≡ true = cov a ∙ ground (arith, k) in
              let n : covers m a ≡ false = elim (Bool-cases (covers m a)) [
                | inl y ↦ absurd (let z = sym (w.views a) ∙ r.apart a y in ground (arith, k, z))
                | inr y ↦ y
              ] in
              rw (c, n, w.views a, k, ip a k) refl)
        | inr k ↦ elim (Bool-cases (covers m a)) [
          | inl y ↦
              (let c : covers u a ≡ true = cov a ∙ ground (arith, y) in rw (c, y, im a y) refl)
          | inr y ↦
              (let c : covers u a ≡ false = cov a ∙ ground (arith, y, k) in
                rw (c, y, w.views a, k) refl)
        ]
      ],
    )

covers-merged :
    (l r : VmMapping) (a : ℕ)
    → can_merge l r ≡ true
    → 0 < l.len
    → 0 < r.len
    → covers (merged l r) a ≡ (covers l a || covers r a)
unfolding merged
covers-merged l r a h f g = let m = (merged-Info l r a h).0 in ground (arith, m, f, g)

-- Both steps of `insert` keep the view of the two together.
abbrev Step : VmMapping × List VmMapping → VmMapping × List VmMapping → Type 0
Step (m, ms) (m', ms') = Ready m' ms' × ((a : ℕ) → view (m' ∷ ms') a ≡ view (m ∷ ms) a)

take_prev-Step :
    (m : VmMapping) (ms : List VmMapping) → Ready m ms → Step (m, ms) (take_prev (m, ms))
unfolding take_prev
take_prev-Step m ms r = found (prev ms m.start) refl
  where
    found :
        (o : Option VmMapping)
        → prev ms m.start ≡ o
        → let out : VmMapping × List VmMapping = elim o [
          | none ↦ (m, ms)
          | some p ↦ if can_merge p m then (merged p m, remove ms p.start) else (m, ms)
        ] in
          Step (m, ms) out
    found none e = (r, λ a. refl)
    found (some p) e = elim (Bool-cases (can_merge p m)) [
      | inr k ↦ rw k (r, λ a. refl)
      | inl k ↦
          let h = prev-Has ms m.start p e in
          let f = (Has-Ordered 0 ms p r.ordered h).1 in
          rw k (
            absorb-Ready m p (merged p m) ms r h (unfold merged in omega (arith, f))
              (λ a. covers-merged p m a k f r.full ∙ ground arith)
              (λ a c. (merged-Info p m a k).3 (covers→bounds m a c).0)
              (λ a c. (merged-Info p m a k).2))
    ]

take_next-Step :
    (m : VmMapping) (ms : List VmMapping) → Ready m ms → Step (m, ms) (take_next (m, ms))
unfolding take_next
take_next-Step m ms r = found (next ms (end_of m)) refl
  where
    found :
        (o : Option VmMapping)
        → next ms (end_of m) ≡ o
        → let out : VmMapping × List VmMapping = elim o [
          | none ↦ (m, ms)
          | some n ↦ if can_merge m n then (merged m n, remove ms n.start) else (m, ms)
        ] in
          Step (m, ms) out
    found none e = (r, λ a. refl)
    found (some n) e = elim (Bool-cases (can_merge m n)) [
      | inr k ↦ rw k (r, λ a. refl)
      | inl k ↦
          let h = next-Has ms (end_of m) n e in
          let f = (Has-Ordered 0 ms n r.ordered h).1 in
          rw k (
            absorb-Ready m n (merged m n) ms r h (unfold merged in omega (arith, f))
              (λ a. covers-merged m n a k r.full f) (λ a c. (merged-Info m n a k).2)
              (λ a c. (merged-Info m n a k).3 (covers→bounds n a c).0))
    ]

put-Ordered :
    (lo : ℕ) (m : VmMapping) (ms : List VmMapping)
    → lo ≤ m.start
    → 0 < m.len
    → Ordered lo ms
    → All (Away m) ms
    → Ordered lo (put m ms)
unfolding put
put-Ordered lo m [] l f o w = (l, f, tt)
put-Ordered lo m (x ∷ xs) l f o w = elim w.0 [
  | inl k ↦
      let n : ltb m.start x.start ≡ false = ground (arith, k, o.1) in
      let e : (m.start == x.start) ≡ false = ground (arith, k, o.1) in
      rw (n, e) (o.0, o.1, put-Ordered (end_of x) m xs k f o.2 w.1)
  | inr k ↦ let n : ltb m.start x.start ≡ true = ground (arith, k, f) in rw n (l, f, (k, o.1, o.2))
]

put-view :
    (lo : ℕ) (m : VmMapping) (ms : List VmMapping) (a : ℕ)
    → 0 < m.len
    → Ordered lo ms
    → All (Away m) ms
    → view (put m ms) a ≡ view (m ∷ ms) a
unfolding put
put-view lo m [] a f o w = refl
put-view lo m (x ∷ xs) a f o w = elim w.0 [
  | inr k ↦ let n : ltb m.start x.start ≡ true = ground (arith, k, f) in rw n refl
  | inl k ↦
      let n : ltb m.start x.start ≡ false = ground (arith, k, o.1) in
      let e : (m.start == x.start) ≡ false = ground (arith, k, o.1) in
      let rest = put-view (end_of x) m xs a f o.2 w.1 in
      rw (n, e)
        (elim (Bool-cases (covers x a)) [
          | inl c ↦ let c' : covers m a ≡ false = ground (arith, c, k) in rw (c, c') refl
          | inr c ↦ rw c rest
        ])
]

-- Inserting a mapping that is not empty into a table where nothing is mapped in its range, merging
-- it with its neighbours where it can, gives a table in order without overlap, in which each
-- address of the range is mapped as the new mapping says, and every other address as before.
pub insert-view :
    (m : VmMapping) (ms : List VmMapping)
    → Ordered 0 ms
    → 0 < m.len
    → Apart m ms
    → Ordered 0 (insert m ms)
      × ((a : ℕ) → view (insert m ms) a ≡ (if covers m a then some (info m a) else view ms a))
unfolding insert
insert-view m ms o f ap =
    let s = take_prev-Step m ms (record { ordered = o; full = f; apart = ap }) in
    let p = take_prev (m, ms) in
    let t = take_next-Step p.0 p.1 s.0 in
    let n = take_next p in
    let w = Apart-All n.0 0 n.1 t.0.full t.0.ordered t.0.apart in
    (
      put-Ordered 0 n.0 n.1 (omega arith) t.0.full t.0.ordered w,
      λ a. put-view 0 n.0 n.1 a t.0.full t.0.ordered w ∙ (t.1 a ∙ s.1 a),
    )
