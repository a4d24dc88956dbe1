-- ===== src/Mappings/Lookup.antt =====
-- petra/src/vm/vmar/mappings.rs: looking mappings up and taking them out.
use petra_os.Common.{
  ℕ, ◌+◌, ◌≤◌, ◌<◌, ◌≡◌, refl, sym, ap, ◌∙◌, subst, inl, inr, Bool, true, false, ◌&&◌, Option, none,
  some, List, [], ◌∷◌, arith, ltb, leb, if◌then◌else◌, Bool-cases, Option-cases, All,
}
use petra_os.Mappings.{Range, VmMapping, end_of}
use petra_os.Mappings.Table.{prev, get, filter, touches, iter_range}
use petra_os.Mappings.View.{find, Ordered}
use petra_os.Mappings.Insert.{prev-Has, Has-Ordered}

prev_lt : (ms : List VmMapping) (b : ℕ) (p : VmMapping) → prev ms b ≡ some p → p.start < b
unfolding prev
prev_lt [] b p h = absurd (cc)
prev_lt (m ∷ ms) b p h = elim (Bool-cases (ltb m.start b)) [
  | inr e ↦ prev_lt ms b p (rw e at h)
  | inl e ↦ elim (Option-cases (prev ms b)) [
    | inl n ↦
        (let q : m ≡ p = ground (arith, h, e, n) in subst (λ x. x.start < b) q (ground (arith, e)))
    | inr (q, n) ↦ prev_lt ms b p (ground (arith, h, e, n))
  ]
]

starts_from :
    (lo lo' : ℕ) (ms : List VmMapping) → lo' ≤ lo → Ordered lo ms → All (λ m. lo' ≤ m.start) ms
starts_from lo lo' [] h o = tt
starts_from lo lo' (m ∷ ms) h o =
    (omega (arith, o.0), starts_from (end_of m) lo' ms (omega (arith, o.0)) o.2)

weaken-All :
    (P Q : VmMapping → Type 0) (ms : List VmMapping)
    → ((m : VmMapping) → P m → Q m)
    → All P ms
    → All Q ms
weaken-All P Q [] f h = tt
weaken-All P Q (m ∷ ms) f h = (f m h.0, weaken-All P Q ms f h.1)

-- The last mapping below `b` starts no later than any that reaches beyond `b`.
prev_first :
    (lo : ℕ) (ms : List VmMapping) (b : ℕ) (p : VmMapping)
    → Ordered lo ms
    → prev ms b ≡ some p
    → All (λ m. b < end_of m → p.start ≤ m.start) ms
unfolding prev
prev_first lo [] b p o h = absurd (cc)
prev_first lo (m ∷ ms) b p o h = elim (Bool-cases (ltb m.start b)) [
  | inr e ↦
      let h' = rw e at h in
      let l = prev_lt ms b p h' in
      ((λ _. ground (arith, e, l)), prev_first (end_of m) ms b p o.2 h')
  | inl e ↦ elim (Option-cases (prev ms b)) [
    | inl n ↦
        let q : m ≡ p = ground (arith, h, e, n) in
        subst
          (λ x. (b < end_of m → x.start ≤ m.start) × All (λ y. b < end_of y → x.start ≤ y.start) ms)
          q
          (
            (λ _. omega arith),
            weaken-All _ _ ms (λ y k _. k) (starts_from (end_of m) m.start ms (omega arith) o.2),
          )
    | inr (q, n) ↦
        let h' : prev ms b ≡ some p = ground (arith, h, e, n) in
        let l = prev_lt ms b p h' in
        let after = (Has-Ordered (end_of m) ms p o.2 (prev-Has ms b p h')).0 in
        ((λ k. absurd (omega (arith, k, l, after))), prev_first (end_of m) ms b p o.2 h')
  ]
]

filter-filter :
    (p q : VmMapping → Bool) (ms : List VmMapping)
    → All (λ m. p m ≡ true → q m ≡ true) ms
    → filter p (filter q ms) ≡ filter p ms
filter-filter p q [] h = refl
filter-filter p q (m ∷ ms) h =
    let rest = filter-filter p q ms h.1 in
    elim (Bool-cases (q m)) [
      | inl e ↦ rw (e, rest) refl
      | inr e ↦
          (let n : p m ≡ false = elim (Bool-cases (p m)) [
            | inl y ↦ absurd (ground (arith, h.0 y, e))
            | inr y ↦ y
          ] in
            rw (e, n) rest)
    ]

-- `iter_range` finds exactly the mappings that overlap the range, though it looks at a part of the
-- table only.
pub iter_range-filter :
    (ms : List VmMapping) (r : Range) → Ordered 0 ms → iter_range ms r ≡ filter (touches r) ms
unfolding iter_range
iter_range-filter ms r o = from (prev ms r.start) refl
  where
    from :
        (p : Option VmMapping)
        → prev ms r.start ≡ p
        → let key : ℕ = elim p [ none ↦ 0 | some x ↦ x.start ] in
          filter (touches r) (filter (λ m. leb key m.start && ltb m.start r.end) ms)
          ≡ filter (touches r) ms
    from none e =
        filter-filter (touches r) (λ m. leb 0 m.start && ltb m.start r.end) ms
          (weaken-All _ _ ms (λ y k t. ground (arith, t, k)) (starts_from 0 0 ms (omega arith) o))
    from (some p) e =
        filter-filter (touches r) (λ m. leb p.start m.start && ltb m.start r.end) ms
          (weaken-All _ _ ms (λ y k t. ground (arith, t, k)) (prev_first 0 ms r.start p o e))

-- The part of `get` after the map's own search.
abbrev checked : Option VmMapping → ℕ → Option VmMapping
checked none a = none
checked (some m) a = if ltb a (end_of m) then some m else none

prev-find :
    (lo : ℕ) (ms : List VmMapping) (a : ℕ) → Ordered lo ms → checked (prev ms (a + 1)) a ≡ find ms a
unfolding prev
prev-find lo [] a o = refl
prev-find lo (m ∷ ms) a o =
    let rest = prev-find (end_of m) ms a o.2 in
    elim (Bool-cases (leb m.start a)) [
      | inr e ↦ let n : ltb m.start (a + 1) ≡ false = ground (arith, e) in rw (n, e) rest
      | inl e ↦
          let n : ltb m.start (a + 1) ≡ true = ground (arith, e) in
          elim (Option-cases (prev ms (a + 1))) [
            | inl f ↦
                (let r : none ≡ find ms a = ap (λ x. checked x a) (sym f) ∙ rest in
                  rw (n, e, f, sym r) refl)
            | inr (q, f) ↦
                (let l = prev-bounds m ms a q o f in
                  let c : ltb a (end_of m) ≡ false = ground (arith, l) in
                  rw (n, e, f, c) (ap (λ x. checked x a) (sym f) ∙ rest))
          ]
    ]
  where
    prev-bounds :
        (m : VmMapping) (ms : List VmMapping) (a : ℕ) (q : VmMapping)
        → Ordered lo (m ∷ ms)
        → prev ms (a + 1) ≡ some q
        → end_of m ≤ a
    prev-bounds m ms a q o f =
        let s = (Has-Ordered (end_of m) ms q o.2 (prev-Has ms (a + 1) q f)).0 in
        let l = prev_lt ms (a + 1) q f in omega (arith, s, l)

-- In a table in order without overlap, `get` finds the mapping that the address is in.
get-find : (ms : List VmMapping) (a : ℕ) → Ordered 0 ms → get ms a ≡ find ms a
unfolding get
get-find ms a o = checks (prev ms (a + 1)) ∙ prev-find 0 ms a o
  where
    checks :
        (p : Option VmMapping)
        → (elim p [ none ↦ none | some m ↦ if ltb a (end_of m) then some m else none ])
          ≡ checked p a
    checks none = refl
    checks (some m) = refl
