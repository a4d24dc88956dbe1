-- ===== src/Mappings/Hole.antt =====
-- petra/src/vm/vmar/allocator.rs: the steps of the search.
use petra_os.Common.{
  ℕ, ◌+◌, ◌-◌, ◌*◌, ◌/◌, ◌%◌, ◌≤◌, min, max, ◌≡◌, refl, subst, ◌≢◌, ◌⊎◌, inl, inr, true, false,
  Option, none, some, List, [], ◌∷◌, arith, ltb, leb, if◌then◌else◌, Bool-cases, All,
}
use petra_os.Mappings.{page_size, Range, VmMapping, end_of}
use petra_os.Mappings.Allocator.{vmar_lowest_addr, take_from_hole, search}

-- No mapping reaches into the range.
abbrev pub Misses : Range → VmMapping → Type 0
Misses r m = (end_of m ≤ r.start) ⊎ (r.end ≤ m.start)

abbrev pub Free : Range → List VmMapping → Type 0
Free r ms = All (Misses r) ms

-- A page-aligned region of the size, between the two bounds.
abbrev pub Fits : ℕ → ℕ → ℕ → Range → Type 0
Fits low high size r =
    (low ≤ r.start) × (r.end ≤ high) × (r.end ≡ r.start + size) × (r.start % page_size ≡ 0)

-- From the highest down, without overlap.
abbrev pub Descending : List VmMapping → Type 0
Descending [] = Unit {0}
Descending (m ∷ ms) = All (λ x. end_of x ≤ m.start) ms × Descending ms

pub take_from_hole-Fits :
    (hole r : Range) (size : ℕ)
    → take_from_hole hole size page_size ≡ some r
    → Fits hole.start hole.end size r
unfolding take_from_hole
take_from_hole-Fits hole r size h =
    let start = (hole.end - size) / page_size * page_size in
    elim (Bool-cases (ltb hole.end size)) [
      | inl e ↦ absurd (let z = rw e at h in ground (arith, z))
      | inr e ↦ elim (Bool-cases (leb hole.start start)) [
        | inr f ↦ absurd (let z = rw (e, f) at h in ground (arith, z))
        | inl f ↦
            let q : record { start = start; end = start + size } ≡ r =
              ground (arith, rw (e, f) at h) in
            subst (λ x. Fits hole.start hole.end size x) q
              (ground (arith, f), ground (arith, e), refl, omega arith)
      ]
    ]

pub take_from_hole_full :
    (hole r : Range) (size : ℕ)
    → Fits hole.start hole.end size r
    → take_from_hole hole size page_size ≢ none
unfolding take_from_hole
take_from_hole_full hole r size f h =
    let e : ltb hole.end size ≡ false = ground (arith, f) in
    let l : leb hole.start ((hole.end - size) / page_size * page_size) ≡ true =
      ground (arith, f.0, the_top hole.end r.start r.end size f.1 f.2 f.3) in
    absurd (let z = rw (e, l) at h in ground (arith, z))
  where
    the_top :
        (top start end size : ℕ)
        → end ≤ top
        → end ≡ start + size
        → start % page_size ≡ 0
        → start ≤ (top - size) / page_size * page_size
    the_top top start end size a b c = omega (arith, a, b, c)

-- One step of the search, on each of its branches.
module _ (m : VmMapping) (ms : List VmMapping) (size ceiling : ℕ) where
  abbrev pub hole : Range
  hole = record { start = max (end_of m) vmar_lowest_addr; end = ceiling }

  pub search_skip :
      leb ceiling m.start ≡ true → search (m ∷ ms) size ceiling ≡ search ms size ceiling
  unfolding search
  search_skip a = rw (search, a) refl

  pub search_here :
      (r : Range)
      → leb ceiling m.start ≡ false
      → ltb hole.start ceiling ≡ true
      → take_from_hole hole size page_size ≡ some r
      → search (m ∷ ms) size ceiling ≡ some r
  unfolding search
  search_here r a b c = rw (search, a, b, c) refl

  abbrev pub below : Option Range
  below = if leb m.start vmar_lowest_addr then none else search ms size (min m.start ceiling)

  pub search_full :
      leb ceiling m.start ≡ false
      → ltb hole.start ceiling ≡ true
      → take_from_hole hole size page_size ≡ none
      → search (m ∷ ms) size ceiling ≡ below
  unfolding search
  search_full a b c = rw (search, a, b, c) refl

  pub search_no_hole :
      leb ceiling m.start ≡ false
      → ltb hole.start ceiling ≡ false
      → search (m ∷ ms) size ceiling ≡ below
  unfolding search
  search_no_hole a b = rw (search, a, b) refl
