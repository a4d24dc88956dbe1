-- ===== src/Mappings/Allocator.antt =====
-- petra/src/vm/vmar/allocator.rs: the search for a free region.
use petra_os.Common.{
  ℕ, ◌+◌, ◌-◌, ◌*◌, ◌/◌, min, max, ◌||◌, Option, none, some, List, [], ◌∷◌, ◌++◌, ltb, leb, ◌==◌,
  if◌then◌else◌,
}
use petra_os.Mappings.{page_size, Range, VmMapping, end_of}

abbrev pub vmar_lowest_addr : ℕ
vmar_lowest_addr = 0x0010_0000

-- `take_from_hole`; a zero alignment is the failed `checked_div`.
unfoldable pub take_from_hole : Range → ℕ → ℕ → Option Range
take_from_hole hole size align =
    let start = (hole.end - size) / align * align in
    if ltb hole.end size || align == 0
    then none
    else if leb hole.start start
    then some (record { start = start; end = start + size })
    else none

-- The loop of `find_free_region`, over the mappings from the highest down. The first answer ends it.
unfoldable pub search : List VmMapping → ℕ → ℕ → Option Range
search [] size ceiling =
    if ltb vmar_lowest_addr ceiling
    then take_from_hole (record { start = vmar_lowest_addr; end = ceiling }) size page_size
    else none
search (m ∷ ms) size ceiling =
    let skip = search ms size ceiling in
    let lower = search ms size (min m.start ceiling) in
    let hole_start = max (end_of m) vmar_lowest_addr in
    let taken =
      if ltb hole_start ceiling
      then take_from_hole (record { start = hole_start; end = ceiling }) size page_size
      else none in
    if leb ceiling m.start then skip else elim taken [
      | some region ↦ some region
      | none ↦ if leb m.start vmar_lowest_addr then none else lower
    ]

abbrev pub reverse : List VmMapping → List VmMapping
reverse [] = []
reverse (m ∷ ms) = reverse ms ++ (m ∷ [])

-- `none` is `NoRoom`.
unfoldable pub find_free_region : List VmMapping → ℕ → ℕ → Option Range
find_free_region ms size high_limit =
    if leb high_limit vmar_lowest_addr || ltb (high_limit - vmar_lowest_addr) size
    then none
    else search (reverse ms) size high_limit
