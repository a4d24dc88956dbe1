-- ===== src/Mappings/Pieces.antt =====
-- petra/src/vm/vmar/mappings.rs: what `carve` does to one record.
use petra_os.Common.{
  ℕ, ◌+◌, ◌-◌, ◌≤◌, ◌<◌, ◌≡◌, refl, sym, ap, ap₂, ◌∙◌, ◌⊎◌, inl, inr, Bool, true, false, ◌&&◌,
  Option, none, some, List, [], ◌∷◌, ◌++◌, arith, ltb, leb, ◌==◌, if◌then◌else◌, ==_iff, Bool-cases,
  All,
}
use petra_os.Mappings.{Range, VmMapping, end_of, range_of, split, split_range}
use petra_os.Mappings.Table.{intersect, optional}
use petra_os.Mappings.View.{covers, Info, info, view, Apart, Away, All-Apart}

-- The three parts of a mapping around the range `s` inside it.
abbrev pub left_of : VmMapping → Range → Option VmMapping
left_of p s = if ltb p.start s.start then some (record p { len = s.start - p.start }) else none

abbrev pub middle_of : VmMapping → Range → VmMapping
middle_of p s = record p {
  start = s.start;
  len = s.end - s.start;
  backing_offset = p.backing_offset + (s.start - p.start);
}

abbrev pub right_of : VmMapping → Range → Option VmMapping
right_of p s =
    if ltb s.end (end_of p)
    then some (record p {
      start = s.end;
      len = end_of p - s.end;
      backing_offset = p.backing_offset + (s.end - p.start);
    })
    else none

abbrev pub Inside : Range → VmMapping → Type 0
Inside s p = (p.start ≤ s.start) × (s.start < s.end) × (s.end ≤ end_of p)

abbrev rebuild : VmMapping → ℕ → ℕ → ℕ → VmMapping
rebuild p start len offset = record p { start = start; len = len; backing_offset = offset }

pub split_range-parts :
    (p : VmMapping) (s : Range)
    → Inside s p
    → split_range p s ≡ some (left_of p s, middle_of p s, right_of p s)
unfolding split_range split
split_range-parts p s (i, j, k) =
    let a : (leb p.start s.start && leb s.end (end_of p)) ≡ true = ground (arith, i, k) in
    elim (Bool-cases (ltb p.start s.start)) [
      | inl l ↦
          let e : (s.start == p.start) ≡ false = ground (arith, l) in
          let len : p.len - (s.start - p.start) ≡ end_of p - s.start = omega (arith, i) in
          elim (Bool-cases (ltb s.end (end_of p))) [
            | inl h ↦
                let x : p.len - (s.start - p.start) - (s.end - s.start) ≡ end_of p - s.end =
                  omega (arith, i, j, k) in
                let y : p.backing_offset + (s.start - p.start) + (s.end - s.start)
                    ≡ p.backing_offset + (s.end - p.start) =
                  omega (arith, i, j) in
                rw (a, e, l, h, x, y) refl
            | inr h ↦
                let z : p.len - (s.start - p.start) ≡ s.end - s.start =
                  ground (arith, i, j, k, h) in
                rw (a, e, l, h, z) refl
          ]
      | inr l ↦
          let e : (s.start == p.start) ≡ true = ground (arith, l, i) in
          let q : s.start ≡ p.start = (==_iff s.start p.start).0 e in
          let off : p.backing_offset + (s.start - p.start) ≡ p.backing_offset = omega (arith, q) in
          let len : s.end - s.start ≡ s.end - p.start = omega (arith, q) in
          elim (Bool-cases (ltb s.end (end_of p))) [
            | inl h ↦
                let n : (s.end == end_of p) ≡ false = ground (arith, h) in
                rw (a, e, n, l, h, off, len)
                  (ap
                      (λ start. some (
                        none,
                        rebuild p start (s.end - p.start) p.backing_offset,
                        some (
                            rebuild p s.end (p.len - (s.end - p.start))
                              (p.backing_offset + (s.end - p.start))),
                      ))
                      (sym q)
                    ∙ ap
                        (λ n. some (
                          none,
                          rebuild p s.start (s.end - p.start) p.backing_offset,
                          some (rebuild p s.end n (p.backing_offset + (s.end - p.start))),
                        ))
                        (omega (arith, i, j, k)))
            | inr h ↦
                let n : (s.end == end_of p) ≡ true = ground (arith, h, k) in
                rw (a, e, n, l, h, off)
                  (ap₂ (λ start len. some (none, rebuild p start len p.backing_offset, none))
                    (sym q) (ground (arith, q, h, k)))
          ]
    ]

abbrev pub within : Range → ℕ → Bool
within r a = leb r.start a && ltb a r.end

-- The caller's function may drop what it is given, or change it, but not move it.
abbrev pub Keeps : (VmMapping → Range → Option VmMapping) → Type 0
Keeps op =
    (m : VmMapping) (s : Range) (k : VmMapping)
    → op m s ≡ some k
    → (k.start ≡ m.start) × (k.len ≡ m.len)

-- What `carve` makes of the address `a` of the mapping `p`: inside the range, what the caller's
-- function makes of the part of `p` in the range; outside, what it was.
abbrev pub effect : Range → (VmMapping → Range → Option VmMapping) → VmMapping → ℕ → Option Info
effect r op p a =
    let s = intersect r (range_of p) in
    if within r a
    then elim (op (middle_of p s) s) [ none ↦ none | some k ↦ some (info k a) ]
    else some (info p a)

left_view :
    (p : VmMapping) (s : Range) (ys : List VmMapping) (a : ℕ)
    → Inside s p
    → view (optional (left_of p s) ++ ys) a
      ≡ (if leb p.start a && ltb a s.start then some (info p a) else view ys a)
left_view p s ys a (i, j, k) = elim (Bool-cases (ltb p.start s.start)) [
  | inl l ↦ let e : p.start + (s.start - p.start) ≡ s.start = omega (arith, i) in rw (l, e) refl
  | inr l ↦ let e : (leb p.start a && ltb a s.start) ≡ false = ground (arith, l) in rw (l, e) refl
]

right_view :
    (p : VmMapping) (s : Range) (ys : List VmMapping) (a : ℕ)
    → Inside s p
    → view (optional (right_of p s) ++ ys) a
      ≡ (if leb s.end a && ltb a (end_of p) then some (info p a) else view ys a)
right_view p s ys a (i, j, k) = elim (Bool-cases (ltb s.end (end_of p))) [
  | inl l ↦
      let e : s.end + (end_of p - s.end) ≡ end_of p = omega (arith, k) in
      elim (Bool-cases (leb s.end a && ltb a (end_of p))) [
        | inl c ↦
            let o : p.backing_offset + (s.end - p.start) + (a - s.end)
                ≡ p.backing_offset + (a - p.start) =
              ground (arith, i, j, c) in
            rw (l, e, c, o) refl
        | inr c ↦ rw (l, e, c) refl
      ]
  | inr l ↦ let e : (leb s.end a && ltb a (end_of p)) ≡ false = ground (arith, l) in rw (l, e) refl
]

-- Mappings, each apart from those after it.
abbrev pub Spread : List VmMapping → Type 0
Spread [] = Unit {0}
Spread (x ∷ xs) = (0 < x.len) × Apart x xs × Spread xs

abbrev pub Fills : Range → VmMapping → Type 0
Fills s y = (y.start ≡ s.start) × (end_of y ≡ s.end)

abbrev pub Covered : VmMapping → List VmMapping → Type 0
Covered p xs = All (λ x. (a : ℕ) → covers x a ≡ true → covers p a ≡ true) xs

pub left_Spread :
    (p : VmMapping) (s : Range) (ys : List VmMapping)
    → Inside s p
    → Spread ys
    → All (λ y. s.start ≤ y.start) ys
    → Covered p ys
    → Spread (optional (left_of p s) ++ ys) × Covered p (optional (left_of p s) ++ ys)
left_Spread p s ys (i, j, k) sp lo cov = elim (Bool-cases (ltb p.start s.start)) [
  | inr l ↦ rw l (sp, cov)
  | inl l ↦
      let x : VmMapping = record p { len = s.start - p.start } in
      rw l (
        (ground (arith, l), All-Apart x ys (aways x ys (omega (arith, i)) lo), sp),
        ((λ a c. ground (arith, c, i, j, k)), cov),
      )
]
  where
    aways :
        (x : VmMapping) (ys : List VmMapping)
        → end_of x ≤ s.start
        → All (λ y. s.start ≤ y.start) ys
        → All (Away x) ys
    aways x [] h l = tt
    aways x (y ∷ ys) h l = (inr (omega (arith, h, l.0)), aways x ys h l.1)

pub right_Spread :
    (p : VmMapping) (s : Range) (ys : List VmMapping)
    → Inside s p
    → Spread ys
    → All (Fills s) ys
    → Covered p ys
    → Spread (optional (right_of p s) ++ ys)
      × Covered p (optional (right_of p s) ++ ys)
      × All (λ y. s.start ≤ y.start) (optional (right_of p s) ++ ys)
right_Spread p s ys (i, j, k) sp fill cov = elim (Bool-cases (ltb s.end (end_of p))) [
  | inr l ↦ rw l (sp, cov, starts ys fill)
  | inl l ↦
      let x : VmMapping = record p {
        start = s.end;
        len = end_of p - s.end;
        backing_offset = p.backing_offset + (s.end - p.start);
      } in
      rw l (
        (ground (arith, l), All-Apart x ys (aways x ys (omega arith) fill), sp),
        ((λ a c. ground (arith, c, i, j, k)), cov),
        (omega (arith, j), starts ys fill),
      )
]
  where
    starts : (ys : List VmMapping) → All (Fills s) ys → All (λ y. s.start ≤ y.start) ys
    starts [] f = tt
    starts (y ∷ ys) f = (omega (arith, f.0), starts ys f.1)

    aways :
        (x : VmMapping) (ys : List VmMapping) → s.end ≤ x.start → All (Fills s) ys → All (Away x) ys
    aways x [] h f = tt
    aways x (y ∷ ys) h f = (inl (omega (arith, h, f.0.1)), aways x ys h f.1)

pub three_views :
    (p : VmMapping) (s r : Range) (ys : List VmMapping) (e : ℕ → Option Info) (a : ℕ)
    → Inside s p
    → (covers p a ≡ true → within s a ≡ within r a)
    → view ys a ≡ (if within s a then e a else none)
    → view (optional (left_of p s) ++ (optional (right_of p s) ++ ys)) a
      ≡ (if covers p a then (if within r a then e a else some (info p a)) else none)
three_views p s r ys e a i w v =
    left_view p s (optional (right_of p s) ++ ys) a i
    ∙ (rw (right_view p s ys a i, v) (cases (Bool-cases (covers p a))))
  where
    outer : Option Info
    outer =
        if leb p.start a && ltb a s.start
        then some (info p a)
        else if leb s.end a && ltb a (end_of p)
        then some (info p a)
        else if within s a
        then e a
        else none

    cases :
        (covers p a ≡ true) ⊎ (covers p a ≡ false)
        → outer ≡ (if covers p a then (if within r a then e a else some (info p a)) else none)
    cases (inr n) =
        let x : (leb p.start a && ltb a s.start) ≡ false = ground (arith, n, i) in
        let y : (leb s.end a && ltb a (end_of p)) ≡ false = ground (arith, n, i) in
        let z : within s a ≡ false = ground (arith, n, i) in rw (x, y, z, n) refl
    cases (inl c) = elim (Bool-cases (within s a)) [
      | inl m ↦
          let x : (leb p.start a && ltb a s.start) ≡ false = ground (arith, m) in
          let y : (leb s.end a && ltb a (end_of p)) ≡ false = ground (arith, m) in
          rw (x, y, sym (w c), m, c) refl
      | inr m ↦ elim (Bool-cases (ltb a s.start)) [
        | inl o ↦
            let x : (leb p.start a && ltb a s.start) ≡ true = ground (arith, o, c) in
            rw (x, sym (w c), m, c) refl
        | inr o ↦
            let x : (leb p.start a && ltb a s.start) ≡ false = ground (arith, o) in
            let y : (leb s.end a && ltb a (end_of p)) ≡ true = ground (arith, o, m, c) in
            rw (x, y, sym (w c), m, c) refl
      ]
    ]
