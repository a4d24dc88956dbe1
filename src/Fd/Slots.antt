-- ===== src/Fd/Slots.antt =====
-- petra/src/fs/fd/fd.rs: reading and writing the slots of a table.
use petra_os.Common.{
  ℕ, zero, suc, ◌+◌, ◌-◌, ◌≤◌, ◌<◌, ◌≡◌, refl, sym, ap, ◌∙◌, ◌≢◌, Option, none, some, List, [], ◌∷◌,
  ◌++◌, arith, ltb, if◌then◌else◌, if_cases, length, set, replicate,
}
use petra_os.Fd.{FdEntry, slot, resize, refs_of, refs}

pub slot-set_self :
    (files : List (Option FdEntry)) (i : ℕ) (v : Option FdEntry)
    → i < length files
    → slot (set files i v) i ≡ v
unfolding slot
slot-set_self [] i v h = absurd (omega arith)
slot-set_self (s ∷ ss) zero v h = refl
slot-set_self (s ∷ ss) (suc i) v h = slot-set_self ss i v (omega arith)

pub slot-set_ne :
    (files : List (Option FdEntry)) (i j : ℕ) (v : Option FdEntry)
    → i ≢ j
    → slot (set files i v) j ≡ slot files j
unfolding slot
slot-set_ne [] i j v h = refl
slot-set_ne (s ∷ ss) zero zero v h = absurd (h refl)
slot-set_ne (s ∷ ss) zero (suc j) v h = refl
slot-set_ne (s ∷ ss) (suc i) zero v h = refl
slot-set_ne (s ∷ ss) (suc i) (suc j) v h = slot-set_ne ss i j v (λ e. h (ap suc e))

pub slot_lt :
    (files : List (Option FdEntry)) (i : ℕ) (e : FdEntry) → slot files i ≡ some e → i < length files
unfolding slot
slot_lt [] i e h = absurd (cc)
slot_lt (s ∷ ss) zero e h = omega arith
slot_lt (s ∷ ss) (suc i) e h = omega (arith, slot_lt ss i e h)

pub slot_beyond : (files : List (Option FdEntry)) (i : ℕ) → length files ≤ i → slot files i ≡ none
unfolding slot
slot_beyond [] i h = refl
slot_beyond (s ∷ ss) zero h = absurd (omega arith)
slot_beyond (s ∷ ss) (suc i) h = slot_beyond ss i (omega arith)

pub slot-append :
    (xs ys : List (Option FdEntry)) (i : ℕ)
    → slot (xs ++ ys) i ≡ (if ltb i (length xs) then slot xs i else slot ys (i - length xs))
unfolding slot
slot-append [] ys i = ground arith
slot-append (x ∷ xs) ys zero = ground arith
slot-append (x ∷ xs) ys (suc i) = let rest = slot-append xs ys i in ground (arith, rest)

pub slot-replicate : (n i : ℕ) → slot (replicate n none) i ≡ none
unfolding slot
slot-replicate zero i = refl
slot-replicate (suc n) zero = refl
slot-replicate (suc n) (suc i) = slot-replicate n i

pub slot-resize : (files : List (Option FdEntry)) (n i : ℕ) → slot (resize files n) i ≡ slot files i
slot-resize files n i =
    slot-append files (replicate (n - length files) none) i
    ∙ if_cases (λ z. z ≡ slot files i) (ltb i (length files)) (λ _. refl)
        (λ e.
          slot-replicate (n - length files) (i - length files)
          ∙ sym (slot_beyond files i (ground (arith, e))))

pub refs-set :
    (f : ℕ) (files : List (Option FdEntry)) (i : ℕ) (v : Option FdEntry)
    → i < length files
    → refs f (set files i v) + refs_of f (slot files i) ≡ refs f files + refs_of f v
unfolding refs slot
refs-set f [] i v h = absurd (omega arith)
refs-set f (s ∷ ss) zero v h = omega arith
refs-set f (s ∷ ss) (suc i) v h = omega (arith, refs-set f ss i v (omega arith))

pub refs-none :
    (f : ℕ) (files : List (Option FdEntry)) → ((i : ℕ) → slot files i ≡ none) → refs f files ≡ 0
unfolding refs slot
refs-none f [] h = refl
refs-none f (s ∷ ss) h =
    let e : s ≡ none = h 0 in
    let rest = refs-none f ss (λ i. h (suc i)) in rw e (omega (arith, rest))
