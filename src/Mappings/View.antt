-- ===== src/Mappings/View.antt =====
-- petra/src/vm/vmar/mappings.rs: what a list of mappings makes of each address.
use petra_os.Common.{
  ℕ, ◌+◌, ◌-◌, ◌≤◌, ◌<◌, max, ◌≡◌, refl, ap, ◌∙◌, ◌⊎◌, inl, inr, Bool, true, false, ◌&&◌, Option,
  none, some, List, [], ◌∷◌, ◌++◌, arith, ltb, leb, if◌then◌else◌, Bool-cases, All,
}
use petra_os.Mappings.{VmMapping, end_of}

abbrev pub covers : VmMapping → ℕ → Bool
covers m a = leb m.start a && ltb a (end_of m)

-- What a mapping makes of one address. The backing is the object with the offset in it.
pub record Info : Type 0 where
  pub perms : ℕ
  pub shared : Bool
  pub grows_down : Bool
  pub locked : Bool
  pub dont_fork : Bool
  pub wipe_on_fork : Bool
  pub backing : Option (ℕ × ℕ)

abbrev pub source : Option ℕ → ℕ → Option (ℕ × ℕ)
source none offset = none
source (some object) offset = some (object, offset)

abbrev pub info : VmMapping → ℕ → Info
info m a = record {
  perms = m.perms;
  shared = m.shared;
  grows_down = m.grows_down;
  locked = m.locked;
  dont_fork = m.dont_fork;
  wipe_on_fork = m.wipe_on_fork;
  backing = source m.backing (m.backing_offset + (a - m.start));
}

-- The mapping that an address is in.
abbrev pub find : List VmMapping → ℕ → Option VmMapping
find [] a = none
find (m ∷ ms) a = if covers m a then some m else find ms a

-- The address space, as a function of the address.
abbrev pub view : List VmMapping → ℕ → Option Info
view [] a = none
view (m ∷ ms) a = if covers m a then some (info m a) else view ms a

-- In the order of addresses, from `lo` on, not empty and not overlapping.
abbrev pub Ordered : ℕ → List VmMapping → Type 0
Ordered lo [] = Unit {0}
Ordered lo (m ∷ ms) = (lo ≤ m.start) × (0 < m.len) × Ordered (end_of m) ms

-- Nothing is mapped where `m` is.
abbrev pub Apart : VmMapping → List VmMapping → Type 0
Apart m ms = (a : ℕ) → covers m a ≡ true → view ms a ≡ none

abbrev pub Away : VmMapping → VmMapping → Type 0
Away m x = (end_of x ≤ m.start) ⊎ (end_of m ≤ x.start)

pub covers→bounds : (m : VmMapping) (a : ℕ) → covers m a ≡ true → (m.start ≤ a) × (a < end_of m)
covers→bounds m a h = (ground arith, ground arith)

pub bounds→covers : (m : VmMapping) (a : ℕ) → m.start ≤ a → a < end_of m → covers m a ≡ true
bounds→covers m a l h = ground arith

pub covers_below : (m : VmMapping) (a : ℕ) → a < m.start → covers m a ≡ false
covers_below m a h = ground arith

pub covers_above : (m : VmMapping) (a : ℕ) → end_of m ≤ a → covers m a ≡ false
covers_above m a h = ground arith

pub view_below : (lo : ℕ) (ms : List VmMapping) (a : ℕ) → Ordered lo ms → a < lo → view ms a ≡ none
view_below lo [] a o h = refl
view_below lo (m ∷ ms) a o h =
    rw (covers_below m a (omega (arith, o.0))) (view_below (end_of m) ms a o.2 (omega (arith, o.0)))

pub Ordered-weaken : (lo lo' : ℕ) (ms : List VmMapping) → lo' ≤ lo → Ordered lo ms → Ordered lo' ms
Ordered-weaken lo lo' [] h o = tt
Ordered-weaken lo lo' (m ∷ ms) h o = (omega (arith, o.0), o.1, o.2)

pub view-append :
    (xs ys : List VmMapping) (a : ℕ)
    → view (xs ++ ys) a ≡ (elim (view xs a) [ none ↦ view ys a | some i ↦ some i ])
view-append [] ys a = refl
view-append (x ∷ xs) ys a = elim (Bool-cases (covers x a)) [
  | inl e ↦ rw e refl
  | inr e ↦ rw e (view-append xs ys a)
]

pub view-none : (xs ys : List VmMapping) (a : ℕ) → view xs a ≡ none → view (xs ++ ys) a ≡ view ys a
view-none xs ys a h = view-append xs ys a ∙ (rw h refl)

Apart-head :
    (m x : VmMapping) (xs : List VmMapping) (a : ℕ)
    → Apart m (x ∷ xs)
    → covers m a ≡ true
    → covers x a ≡ false
Apart-head m x xs a ap c = elim (Bool-cases (covers x a)) [
  | inl d ↦ absurd (let z = ap a c in ground (arith, d, z))
  | inr d ↦ d
]

pub Apart-tail : (m x : VmMapping) (xs : List VmMapping) → Apart m (x ∷ xs) → Apart m xs
Apart-tail m x xs ap a c = let z = ap a c in rw (Apart-head m x xs a ap c) at z

Apart-Away :
    (m x : VmMapping) (xs : List VmMapping) → 0 < m.len → 0 < x.len → Apart m (x ∷ xs) → Away m x
Apart-Away m x xs h h' ap = elim (Bool-cases (leb (end_of x) m.start)) [
  | inl k ↦ inl (ground (arith, k))
  | inr k ↦ elim (Bool-cases (leb (end_of m) x.start)) [
    | inl l ↦ inr (ground (arith, l))
    | inr l ↦
        let a = max m.start x.start in
        let c : covers m a ≡ true = ground (arith, k, l) in
        absurd (let z = Apart-head m x xs a ap c in ground (arith, k, l, z))
  ]
]

pub Apart-All :
    (m : VmMapping) (lo : ℕ) (ms : List VmMapping)
    → 0 < m.len
    → Ordered lo ms
    → Apart m ms
    → All (Away m) ms
Apart-All m lo [] h o ap = tt
Apart-All m lo (x ∷ xs) h o ap =
    (Apart-Away m x xs h o.1 ap, Apart-All m (end_of x) xs h o.2 (Apart-tail m x xs ap))

pub Away-covers : (m x : VmMapping) (a : ℕ) → Away m x → covers m a ≡ true → covers x a ≡ false
Away-covers m x a w c = ground (arith, w, c)

pub All-Apart : (m : VmMapping) (ms : List VmMapping) → All (Away m) ms → Apart m ms
All-Apart m [] h a c = refl
All-Apart m (x ∷ xs) h a c = rw (Away-covers m x a h.0 c) (All-Apart m xs h.1 a c)
