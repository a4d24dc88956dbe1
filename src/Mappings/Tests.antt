-- ===== src/Mappings/Tests.antt =====
-- petra/src/vm/vmar/mappings.rs on concrete inputs.
use petra_os.Common.{
  ℕ, ◌*◌, ◌≡◌, refl, false, Option, none, some, List, [], ◌∷◌, arith, if◌then◌else◌,
}
use petra_os.Mappings.{Range, VmMapping, split, split_range, can_join, can_merge, merged}
use petra_os.Mappings.Table.{
  prev, next, remove, put, take_prev, take_next, insert, intersect, iter_range, take_in,
  carve_piece, carve_pieces, insert_all, carve,
}
use petra_os.Mappings.View.{
  covers, info, view, Ordered, Apart, covers→bounds, covers_below, covers_above,
}
use petra_os.Mappings.Insert.{insert-view}
use petra_os.Mappings.Carve.{CarveResult, carve-CarveResult}
use petra_os.Mappings.Allocator.{vmar_lowest_addr, take_from_hole, search, find_free_region}
use petra_os.Mappings.Hole.{Free, Fits}
use petra_os.Mappings.Room.{find_free_region_lem}

abbrev at_page : ℕ → ℕ → VmMapping
at_page start pages = record {
  start = start * 4096;
  len = pages * 4096;
  perms = 3;
  shared = false;
  grows_down = false;
  locked = false;
  dont_fork = false;
  wipe_on_fork = false;
  backing = none;
  backing_offset = 0;
}

-- Pages 1 to 3 and page 6.
abbrev table : List VmMapping
table = at_page 1 3 ∷ at_page 6 1 ∷ []

table-Ordered : Ordered 0 table
table-Ordered = (omega arith, omega arith, (omega arith, omega arith, tt))

-- Pages 4 and 5 close the gap, and all merge.
insert_run : insert (at_page 4 2) table ≡ at_page 1 6 ∷ []
unfolding insert take_prev take_next prev next remove put can_merge can_join merged
insert_run = refl

gap : Apart (at_page 4 2) table
gap a c =
    let b = covers→bounds (at_page 4 2) a c in
    let x = covers_above (at_page 1 3) a (omega (arith, b.0)) in
    let y = covers_below (at_page 6 1) a (omega (arith, b.1)) in rw (x, y) refl

insert-view_example :
    Ordered 0 (insert (at_page 4 2) table)
    × ((a : ℕ)
        → view (insert (at_page 4 2) table) a
          ≡ (if covers (at_page 4 2) a then some (info (at_page 4 2) a) else view table a))
insert-view_example = insert-view (at_page 4 2) table table-Ordered (omega arith) gap

-- Pages 2 to 6 are unmapped.
abbrev some_pages : Range
some_pages = record { start = 8192; end = 28672 }

abbrev drop_all_of : VmMapping → Range → Option VmMapping
drop_all_of m s = none

carve_run :
    carve table some_pages drop_all_of
    ≡ some (at_page 1 1 ∷ [], record { mapped = 12288; dropped = 12288 })
unfolding carve take_in iter_range prev remove carve_pieces carve_piece split_range split intersect
    insert_all insert take_prev take_next next put can_merge can_join merged
carve_run = refl

carve-CarveResult_example : CarveResult table some_pages drop_all_of
carve-CarveResult_example =
    carve-CarveResult table some_pages drop_all_of table-Ordered (λ m s k e. absurd (cc))
      (omega arith) refl refl

-- Pages 256 to 258 and page 261.
abbrev high_table : List VmMapping
high_table = at_page 256 3 ∷ at_page 261 1 ∷ []

-- Two pages below page 261.
region_run :
    find_free_region high_table 8192 1069056 ≡ some (record { start = 1060864; end = 1069056 })
unfolding find_free_region search take_from_hole
region_run = refl

find_free_region_lem_example :
    ((r : Range)
      → find_free_region high_table 8192 1069056 ≡ some r
      → Fits vmar_lowest_addr 1069056 8192 r × Free r high_table)
    × (find_free_region high_table 8192 1069056 ≡ none
        → (r : Range) → Fits vmar_lowest_addr 1069056 8192 r
        → ¬ Free r high_table)
find_free_region_lem_example =
    find_free_region_lem high_table 8192 1069056
      (omega arith, omega arith, (omega arith, omega arith, tt)) (omega arith)
