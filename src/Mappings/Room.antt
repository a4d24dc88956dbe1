-- ===== src/Mappings/Room.antt =====
-- petra/src/vm/vmar/allocator.rs: the region found is free, and one is found if there is one.
use petra_os.Common.{
  ℕ, ◌-◌, ◌≤◌, ◌<◌, min, max, ◌≡◌, sym, ap, ◌∙◌, inl, inr, true, false, ◌||◌, none, some, List, [],
  ◌∷◌, ◌++◌, arith, ltb, leb, Bool-cases, Option-cases, All, All-append, All-left, All-right,
}
use petra_os.Mappings.{page_size, Range, VmMapping, end_of}
use petra_os.Mappings.View.{Ordered}
use petra_os.Mappings.Allocator.{
  vmar_lowest_addr, take_from_hole, search, reverse, find_free_region,
}
use petra_os.Mappings.Hole.{
  Misses, Free, Fits, Descending, take_from_hole-Fits, take_from_hole_full, hole, search_skip,
  search_here, below, search_full, search_no_hole,
}

misses_lower :
    (r : Range) (b : ℕ) (ms : List VmMapping) → b ≤ r.start → All (λ x. end_of x ≤ b) ms → Free r ms
misses_lower r b [] h a = tt
misses_lower r b (m ∷ ms) h a = (inl (omega (arith, a.0, h)), misses_lower r b ms h a.1)

-- The search below a mapping, given what it finds there.
below-Free :
    (m : VmMapping) (ms : List VmMapping) (size ceiling : ℕ) (r : Range)
    → (search ms size (min m.start ceiling) ≡ some r
        → Fits vmar_lowest_addr (min m.start ceiling) size r × Free r ms)
    → below m ms size ceiling ≡ some r
    → Fits vmar_lowest_addr ceiling size r × Free r (m ∷ ms)
below-Free m ms size ceiling r rec h = elim (Bool-cases (leb m.start vmar_lowest_addr)) [
  | inl e ↦ absurd (let z = rw e at h in ground (arith, z))
  | inr e ↦
      let rest = rec (rw e at h) in
      (
        (rest.0.0, omega (arith, rest.0.1), rest.0.2, rest.0.3),
        (inr (omega (arith, rest.0.1)), rest.1),
      )
]

search-Free :
    (ms : List VmMapping) (size ceiling : ℕ) (r : Range)
    → Descending ms
    → search ms size ceiling ≡ some r
    → Fits vmar_lowest_addr ceiling size r × Free r ms
unfolding search
search-Free [] size ceiling r d h = elim (Bool-cases (ltb vmar_lowest_addr ceiling)) [
  | inl e ↦ (
    take_from_hole-Fits (record { start = vmar_lowest_addr; end = ceiling }) r size (rw e at h),
    tt,
  )
  | inr e ↦ absurd (let z = rw e at h in ground (arith, z))
]
search-Free (m ∷ ms) size ceiling r d h = elim (Bool-cases (leb ceiling m.start)) [
  | inl a ↦
      let rest = search-Free ms size ceiling r d.1 (sym (search_skip m ms size ceiling a) ∙ h) in
      (rest.0, (inr (ground (arith, a, rest.0.1)), rest.1))
  | inr a ↦ elim (Bool-cases (ltb (max (end_of m) vmar_lowest_addr) ceiling)) [
    | inr b ↦
        below-Free m ms size ceiling r (search-Free ms size (min m.start ceiling) r d.1)
          (sym (search_no_hole m ms size ceiling a b) ∙ h)
    | inl b ↦ elim (Option-cases (take_from_hole (hole m ms size ceiling) size page_size)) [
      | inl c ↦
          below-Free m ms size ceiling r (search-Free ms size (min m.start ceiling) r d.1)
            (sym (search_full m ms size ceiling a b c) ∙ h)
      | inr (q, c) ↦
          let e : q ≡ r = ground (arith, sym (search_here m ms size ceiling q a b c) ∙ h) in
          let f = take_from_hole-Fits (hole m ms size ceiling) r size (c ∙ ap some e) in
          (
            (omega (arith, f.0), f.1, f.2, f.3),
            (inl (omega (arith, f.0)), misses_lower r m.start ms (omega (arith, f.0)) d.0),
          )
    ]
  ]
]

-- A search that finds nothing leaves no free region.
search_full_lem :
    (ms : List VmMapping) (size ceiling : ℕ) (r : Range)
    → 0 < size
    → search ms size ceiling ≡ none
    → Fits vmar_lowest_addr ceiling size r
    → Free r ms
    → ⊥
unfolding search
search_full_lem [] size ceiling r p h f g =
    let e : ltb vmar_lowest_addr ceiling ≡ true = ground (arith, f, p) in
    take_from_hole_full (record { start = vmar_lowest_addr; end = ceiling }) r size f (rw e at h)
search_full_lem (m ∷ ms) size ceiling r p h f g = elim (Bool-cases (leb ceiling m.start)) [
  | inl a ↦ search_full_lem ms size ceiling r p (sym (search_skip m ms size ceiling a) ∙ h) f g.1
  | inr a ↦ elim g.0 [
    | inl over ↦
        let b : ltb (max (end_of m) vmar_lowest_addr) ceiling ≡ true = ground (arith, f, p, over) in
        elim (Option-cases (take_from_hole (hole m ms size ceiling) size page_size)) [
          | inl c ↦
              take_from_hole_full (hole m ms size ceiling) r size
                (omega (arith, f.0, over), f.1, f.2, f.3) c
          | inr (q, c) ↦
              absurd (let z = sym (search_here m ms size ceiling q a b c) ∙ h in ground (arith, z))
        ]
    | inr under ↦
        let e : leb m.start vmar_lowest_addr ≡ false = ground (arith, f, p, under) in
        let f' : Fits vmar_lowest_addr (min m.start ceiling) size r =
          (f.0, omega (arith, f.1, under), f.2, f.3) in
        let go = λ (k : below m ms size ceiling ≡ none).
          search_full_lem ms size (min m.start ceiling) r p (rw e at k) f' g.1 in
        elim (Bool-cases (ltb (max (end_of m) vmar_lowest_addr) ceiling)) [
          | inr b ↦ go (sym (search_no_hole m ms size ceiling a b) ∙ h)
          | inl b ↦ elim (Option-cases (take_from_hole (hole m ms size ceiling) size page_size)) [
            | inl c ↦ go (sym (search_full m ms size ceiling a b c) ∙ h)
            | inr (q, c) ↦
                absurd
                  (let z = sym (search_here m ms size ceiling q a b c) ∙ h in ground (arith, z))
          ]
        ]
  ]
]

Descending-append :
    (xs : List VmMapping) (m : VmMapping)
    → Descending xs
    → All (λ x. end_of m ≤ x.start) xs
    → Descending (xs ++ (m ∷ []))
Descending-append [] m d h = (tt, tt)
Descending-append (x ∷ xs) m d h =
    (All-append (λ y. end_of y ≤ x.start) xs (m ∷ []) d.0 (h.0, tt), Descending-append xs m d.1 h.1)

above-All :
    (lo lo' : ℕ) (ms : List VmMapping)
    → lo' ≤ lo
    → Ordered lo ms
    → All (λ x. lo' ≤ x.start) (reverse ms)
above-All lo lo' [] h o = tt
above-All lo lo' (m ∷ ms) h o =
    All-append (λ x. lo' ≤ x.start) (reverse ms) (m ∷ [])
      (above-All (end_of m) lo' ms (omega (arith, o.0)) o.2) (omega (arith, o.0), tt)

Descending-reverse : (lo : ℕ) (ms : List VmMapping) → Ordered lo ms → Descending (reverse ms)
Descending-reverse lo [] o = tt
Descending-reverse lo (m ∷ ms) o =
    Descending-append (reverse ms) m (Descending-reverse (end_of m) ms o.2)
      (above-All (end_of m) (end_of m) ms (omega arith) o.2)

Free-reverse : (r : Range) (ms : List VmMapping) → Free r ms → Free r (reverse ms)
Free-reverse r [] h = tt
Free-reverse r (m ∷ ms) h =
    All-append (Misses r) (reverse ms) (m ∷ []) (Free-reverse r ms h.1) (h.0, tt)

Free-of_reverse : (r : Range) (ms : List VmMapping) → Free r (reverse ms) → Free r ms
Free-of_reverse r [] h = tt
Free-of_reverse r (m ∷ ms) h = (
  (All-right (Misses r) (reverse ms) (m ∷ []) h).0,
  Free-of_reverse r ms (All-left (Misses r) (reverse ms) (m ∷ []) h),
)

-- The search for a free region of a positive size below a limit, in a table in order without
-- overlap. What it finds is page-aligned, has the size, lies between the lowest address and the
-- limit, and no mapping reaches into it; and when it finds nothing, there is no such region.
pub find_free_region_lem :
    (ms : List VmMapping) (size high : ℕ)
    → Ordered 0 ms
    → 0 < size
    → ((r : Range)
        → find_free_region ms size high ≡ some r
        → Fits vmar_lowest_addr high size r × Free r ms)
      × (find_free_region ms size high ≡ none
          → (r : Range) → Fits vmar_lowest_addr high size r
          → ¬ Free r ms)
unfolding find_free_region
find_free_region_lem ms size high o p =
    elim (Bool-cases (leb high vmar_lowest_addr || ltb (high - vmar_lowest_addr) size)) [
      | inl e ↦
          rw e ((λ r h. absurd (ground (arith, h))), λ h r f g. absurd (ground (arith, e, f, p)))
      | inr e ↦ rw e (
        (λ r h.
            let s = search-Free (reverse ms) size high r (Descending-reverse 0 ms o) h in
            (s.0, Free-of_reverse r ms s.1)),
        λ h r f g. search_full_lem (reverse ms) size high r p h f (Free-reverse r ms g),
      )
    ]
