-- ===== src/Mappings/Taken.antt =====
-- petra/src/vm/vmar/mappings.rs: the mappings that `take_in` takes out, and those that stay.
use petra_os.Common.{
  ℕ, ◌<◌, ◌≡◌, refl, ap, ◌∙◌, subst, inl, inr, Bool, true, false, not, none, some, List, [], ◌∷◌,
  arith, ◌==◌, if◌then◌else◌, Bool-cases, All,
}
use petra_os.Mappings.{VmMapping, end_of}
use petra_os.Mappings.Table.{remove, filter, remove_all}
use petra_os.Mappings.View.{
  covers, info, find, view, Ordered, covers→bounds, covers_below, Ordered-weaken,
}

pub find_below : (lo : ℕ) (ms : List VmMapping) (a : ℕ) → Ordered lo ms → a < lo → find ms a ≡ none
find_below lo [] a o h = refl
find_below lo (m ∷ ms) a o h =
    rw (covers_below m a (omega (arith, o.0))) (find_below (end_of m) ms a o.2 (omega (arith, o.0)))

pub find-covers :
    (ms : List VmMapping) (a : ℕ) (p : VmMapping) → find ms a ≡ some p → covers p a ≡ true
find-covers [] a p h = absurd (cc)
find-covers (m ∷ ms) a p h = elim (Bool-cases (covers m a)) [
  | inl e ↦ (let q : m ≡ p = ground (arith, rw e at h) in subst (λ x. covers x a ≡ true) q e)
  | inr e ↦ find-covers ms a p (rw e at h)
]

pub view-find :
    (ms : List VmMapping) (a : ℕ)
    → view ms a ≡ (elim (find ms a) [ none ↦ none | some p ↦ some (info p a) ])
view-find [] a = refl
view-find (m ∷ ms) a = elim (Bool-cases (covers m a)) [
  | inl e ↦ rw e refl
  | inr e ↦ rw e (view-find ms a)
]

pub Ordered-filter :
    (q : VmMapping → Bool) (lo : ℕ) (ms : List VmMapping) → Ordered lo ms → Ordered lo (filter q ms)
Ordered-filter q lo [] o = tt
Ordered-filter q lo (m ∷ ms) o =
    let rest = Ordered-filter q (end_of m) ms o.2 in
    elim (Bool-cases (q m)) [
      | inl e ↦ rw e (o.0, o.1, rest)
      | inr e ↦ rw e (Ordered-weaken (end_of m) lo (filter q ms) (omega (arith, o.0)) rest)
    ]

pub find-filter :
    (q : VmMapping → Bool) (lo : ℕ) (ms : List VmMapping) (a : ℕ)
    → Ordered lo ms
    → find (filter q ms) a
      ≡ (elim (find ms a) [ none ↦ none | some p ↦ if q p then some p else none ])
find-filter q lo [] a o = refl
find-filter q lo (m ∷ ms) a o =
    let rest = find-filter q (end_of m) ms a o.2 in
    elim (Bool-cases (q m)) [
      | inl e ↦ elim (Bool-cases (covers m a)) [
        | inl c ↦ rw (e, c) (rw e refl)
        | inr c ↦ rw (e, c) rest
      ]
      | inr e ↦ elim (Bool-cases (covers m a)) [
        | inr c ↦ rw (e, c) rest
        | inl c ↦
            let gone =
              find_below (end_of m) (filter q ms) a (Ordered-filter q (end_of m) ms o.2)
                (covers→bounds m a c).1 in
            rw (e, c) (rw e gone)
      ]
    ]

remove_all-cons :
    (ks : List VmMapping) (x : VmMapping) (xs : List VmMapping)
    → All (λ k. x.start < k.start) ks
    → remove_all ks (x ∷ xs) ≡ x ∷ remove_all ks xs
unfolding remove
remove_all-cons [] x xs h = refl
remove_all-cons (k ∷ ks) x xs h =
    let n : (x.start == k.start) ≡ false = ground (arith, h.0) in
    rw n (remove_all-cons ks x (remove xs k.start) h.1)

later :
    (q : VmMapping → Bool) (lo b : ℕ) (ms : List VmMapping)
    → b < lo
    → Ordered lo ms
    → All (λ k. b < k.start) (filter q ms)
later q lo b [] h o = tt
later q lo b (m ∷ ms) h o =
    let rest = later q (end_of m) b ms (omega (arith, o.0)) o.2 in
    elim (Bool-cases (q m)) [ inl e ↦ rw e (omega (arith, h, o.0), rest) | inr e ↦ rw e rest ]

-- Taking out by their keys the mappings that a test picks leaves the others.
pub remove_all-filter :
    (q : VmMapping → Bool) (lo : ℕ) (ms : List VmMapping)
    → Ordered lo ms
    → remove_all (filter q ms) ms ≡ filter (λ m. not (q m)) ms
unfolding remove
remove_all-filter q lo [] o = refl
remove_all-filter q lo (m ∷ ms) o =
    let rest = remove_all-filter q (end_of m) ms o.2 in
    elim (Bool-cases (q m)) [
      | inl e ↦
          (let removed : remove (m ∷ ms) m.start ≡ ms = ground arith in
            rw e (ap (λ l. remove_all (filter q ms) l) removed ∙ rest))
      | inr e ↦ rw e (
          remove_all-cons (filter q ms) m ms
            (later q (end_of m) m.start ms (omega (arith, o.1)) o.2)
          ∙ ap (λ l. m ∷ l) rest)
    ]
