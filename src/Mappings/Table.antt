-- ===== src/Mappings/Table.antt =====
-- petra/src/vm/vmar/mappings.rs: `Mappings`, and `intersect` of vm/vmar/mod.rs.
use petra_os.Common.{
  ℕ, ◌+◌, ◌-◌, ◌%◌, min, max, Bool, not, ◌&&◌, ◌||◌, Option, none, some, List, [], ◌∷◌, ◌++◌, ltb,
  leb, ◌==◌, if◌then◌else◌,
}
use petra_os.Mappings.{
  page_size, Range, VmMapping, end_of, range_of, is_growable, extend_downwards, split_range,
  can_merge, merged,
}

-- `Mappings`: the map's values in the order of their keys, which are their start addresses.
-- Map lookups: `range(..addr).next_back()`, `range(addr..).next()`, `remove`, `insert`.
unfoldable pub prev : List VmMapping → ℕ → Option VmMapping
prev [] addr = none
prev (m ∷ ms) addr =
    let rest = prev ms addr in
    if ltb m.start addr then elim rest [ none ↦ some m | some p ↦ some p ] else rest

unfoldable pub next : List VmMapping → ℕ → Option VmMapping
next [] addr = none
next (m ∷ ms) addr = if leb addr m.start then some m else next ms addr

-- `range(..=addr).next_back()`
unfoldable pub get : List VmMapping → ℕ → Option VmMapping
get ms addr = elim (prev ms (addr + 1)) [
  | none ↦ none
  | some m ↦ if ltb addr (end_of m) then some m else none
]

unfoldable pub remove : List VmMapping → ℕ → List VmMapping
remove [] key = []
remove (m ∷ ms) key = if m.start == key then ms else m ∷ remove ms key

unfoldable pub put : VmMapping → List VmMapping → List VmMapping
put m [] = m ∷ []
put m (x ∷ xs) =
    if ltb m.start x.start then m ∷ x ∷ xs else if m.start == x.start then m ∷ xs else x ∷ put m xs

-- The two halves of `insert`: the record to insert takes in a neighbour that it can be merged with.
unfoldable pub take_prev : VmMapping × List VmMapping → VmMapping × List VmMapping
take_prev (m, ms) = elim (prev ms m.start) [
  | none ↦ (m, ms)
  | some p ↦ if can_merge p m then (merged p m, remove ms p.start) else (m, ms)
]

unfoldable pub take_next : VmMapping × List VmMapping → VmMapping × List VmMapping
take_next (m, ms) = elim (next ms (end_of m)) [
  | none ↦ (m, ms)
  | some n ↦ if can_merge m n then (merged m n, remove ms n.start) else (m, ms)
]

unfoldable pub insert : VmMapping → List VmMapping → List VmMapping
insert m ms = let (m', ms') = take_next (take_prev (m, ms)) in put m' ms'

-- `intersect` of vmar/mod.rs.
unfoldable pub intersect : Range → Range → Range
intersect a b = record { start = max a.start b.start; end = min a.end b.end }

abbrev pub filter : (VmMapping → Bool) → List VmMapping → List VmMapping
filter p [] = []
filter p (m ∷ ms) = if p m then m ∷ filter p ms else filter p ms

abbrev pub touches : Range → VmMapping → Bool
touches r m = ltb r.start (end_of m) && ltb m.start r.end

unfoldable pub iter_range : List VmMapping → Range → List VmMapping
iter_range ms r =
    let start_key : ℕ = elim (prev ms r.start) [ none ↦ 0 | some p ↦ p.start ] in
    filter (touches r) (filter (λ m. leb start_key m.start && ltb m.start r.end) ms)

abbrev pub range_len : Range → ℕ
range_len r = r.end - r.start

abbrev pub sum_overlap : Range → List VmMapping → ℕ
sum_overlap r [] = 0
sum_overlap r (m ∷ ms) = range_len (intersect r (range_of m)) + sum_overlap r ms

unfoldable pub count_overlap : List VmMapping → Range → ℕ
count_overlap ms r = sum_overlap r (iter_range ms r)

unfoldable pub is_fully_mapped : List VmMapping → Range → Bool
is_fully_mapped ms r = count_overlap ms r == range_len r

abbrev pub remove_all : List VmMapping → List VmMapping → List VmMapping
remove_all [] ms = ms
remove_all (k ∷ ks) ms = remove_all ks (remove ms k.start)

unfoldable pub take_in : List VmMapping → Range → List VmMapping × List VmMapping
take_in ms r = let taken = iter_range ms r in (taken, remove_all taken ms)

unfoldable pub grow_downwards : List VmMapping → ℕ → Option VmMapping × List VmMapping
grow_downwards ms page = elim (next ms page) [
  | none ↦ (none, ms)
  | some above ↦
      if leb above.start page || not (is_growable above)
      then (none, ms)
      else let ms' = insert (extend_downwards above page) (remove ms above.start) in
        (get ms' page, ms')
]

pub record CarveOutcome : Type 0 where
  pub mapped : ℕ
  pub dropped : ℕ

abbrev pub optional : Option VmMapping → List VmMapping
optional none = []
optional (some m) = m ∷ []

-- One round of the loop of `carve`: the survivors and the bytes dropped.
unfoldable pub carve_piece :
    Range → (VmMapping → Range → Option VmMapping) → VmMapping → Option (List VmMapping × ℕ)
carve_piece r op piece =
    let sub = intersect r (range_of piece) in
    elim (split_range piece sub) [
      | none ↦ none
      | some (left, middle, right) ↦ elim (op middle sub) [
        | some kept ↦ some (optional left ++ (optional right ++ (kept ∷ [])), 0)
        | none ↦ some (optional left ++ optional right, range_len sub)
      ]
    ]

unfoldable pub carve_pieces :
    Range
    → (VmMapping → Range → Option VmMapping)
    → List VmMapping
    → Option (List VmMapping × CarveOutcome)
carve_pieces r op [] = some ([], record { mapped = 0; dropped = 0 })
carve_pieces r op (piece ∷ pieces) =
    let rest = carve_pieces r op pieces in
    elim (carve_piece r op piece) [
      | none ↦ none
      | some (kept, dropped) ↦ elim rest [
        | none ↦ none
        | some (survivors, outcome) ↦ some (
          kept ++ survivors,
          record {
            mapped = range_len (intersect r (range_of piece)) + outcome.mapped;
            dropped = dropped + outcome.dropped;
          },
        )
      ]
    ]

unfoldable pub insert_all : List VmMapping → List VmMapping → List VmMapping
insert_all [] ms = ms
insert_all (s ∷ ss) ms = insert_all ss (insert s ms)

-- `carve`; `none` is a failed assertion.
unfoldable pub carve :
    List VmMapping
    → Range
    → (VmMapping → Range → Option VmMapping)
    → Option (List VmMapping × CarveOutcome)
carve ms r op =
    let taken = take_in ms r in
    if not (r.start % page_size == 0 && r.end % page_size == 0 && ltb r.start r.end)
    then none
    else elim (carve_pieces r op taken.0) [
      | none ↦ none
      | some (survivors, outcome) ↦ some (insert_all survivors taken.1, outcome)
    ]
