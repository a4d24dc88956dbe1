-- ===== src/Ring/Tests.antt =====
-- petra/src/utils/ring_buffer.rs: runs of the model, and the theorem at a buffer whose counters have wrapped around.
use petra_os.Common.{
  ℕ, ◌-◌, ◌<◌, ◌≡◌, refl, ◌↔◌, true, false, none, some, List, [], ◌∷◌, ◌++◌, arith, length,
}
use native.Mathlib.Nat.{dvd_of_mod-eq-zero}
use petra_os.Ring.{
  word, RingBuffer, new, len, is_empty, push, pop_front, push_overwrite, is_full, push_all,
}
use petra_os.Ring.Fifo.{contents, IsValid, queue_lem}

-- Two bytes, 8 and 5, over the wrap of the counters.
abbrev wrapped : RingBuffer
wrapped = record { buffer = 5 ∷ 6 ∷ 7 ∷ 8 ∷ []; head = 1; tail = word - 1 }

wrapped-IsValid : IsValid 4 wrapped
unfolding len
wrapped-IsValid = record {
  size = refl;
  positive = omega arith;
  small = omega arith;
  whole = dvd_of_mod-eq-zero 4 refl;
  head_fits = omega arith;
  tail_fits = omega arith;
  room = omega arith;
}

holds_two : contents 4 wrapped ≡ 8 ∷ 5 ∷ []
unfolding len
holds_two = refl

keeps_newest : contents 4 (push_all 4 (1 ∷ 2 ∷ 3 ∷ []) wrapped) ≡ 5 ∷ 1 ∷ 2 ∷ 3 ∷ []
unfolding len push_all push_overwrite push pop_front
keeps_newest = refl

starts_empty : contents 4 (new 4) ≡ []
unfolding len new
starts_empty = refl

queue_lem_example :
    let q = contents 4 wrapped in
    (length q < 4
      → let (taken, r') = push 4 9 wrapped in
        (taken ≡ true) × (contents 4 r' ≡ q ++ (9 ∷ [])) × IsValid 4 r')
    × (length q ≡ 4 → push 4 9 wrapped ≡ (false, wrapped))
    × (q ≡ [] → pop_front 4 wrapped ≡ (none, wrapped))
    × ((x : ℕ) (xs : List ℕ)
        → q ≡ x ∷ xs
        → let (popped, r') = pop_front 4 wrapped in
          (popped ≡ some x) × (contents 4 r' ≡ xs) × IsValid 4 r')
    × ((is_empty wrapped ≡ true) ↔ (q ≡ []))
    × ((is_full 4 wrapped ≡ true) ↔ (length q ≡ 4))
queue_lem_example = queue_lem 4 wrapped 9 wrapped-IsValid
