-- ===== src/Mappings/Carve.antt =====
-- petra/src/vm/vmar/mappings.rs: `Mappings::carve`.
use petra_os.Common.{
  ap, ℕ, ◌%◌, ◌≤◌, ◌<◌, ◌≡◌, refl, sym, ◌∙◌, ◌≢◌, inl, inr, Bool, true, false, not, ◌&&◌, Option,
  none, some, List, [], ◌∷◌, ◌++◌, arith, ltb, ◌==◌, Bool-cases, Option-cases, All,
}
use petra_os.Mappings.{page_size, Range, VmMapping}
use petra_os.Mappings.Table.{
  filter, touches, remove_all, count_overlap, take_in, CarveOutcome, insert_all, carve,
}
use petra_os.Mappings.View.{covers, info, find, view, Ordered, view-append, view-none}
use petra_os.Mappings.Pieces.{within, Keeps, effect}
use petra_os.Mappings.Taken.{find-covers, view-find, Ordered-filter, find-filter, remove_all-filter}
use petra_os.Mappings.Lookup.{iter_range-filter}
use petra_os.Mappings.Survive.{insert_all-view, carve_pieces-AllCarved}

All-touch : (q : VmMapping → Bool) (ms : List VmMapping) → All (λ m. q m ≡ true) (filter q ms)
All-touch q [] = tt
All-touch q (m ∷ ms) = elim (Bool-cases (q m)) [
  | inl e ↦ rw e (e, All-touch q ms)
  | inr e ↦ rw e (All-touch q ms)
]

outside :
    (r : Range) (op : VmMapping → Range → Option VmMapping) (p : VmMapping) (a : ℕ)
    → covers p a ≡ true
    → touches r p ≡ false
    → within r a ≡ false
outside r op p a c t = ground (arith, c, t)

take_in-filter :
    (ms : List VmMapping) (r : Range)
    → Ordered 0 ms
    → take_in ms r ≡ (filter (touches r) ms, filter (λ m. not (touches r m)) ms)
unfolding take_in
take_in-filter ms r o =
    ap (λ l. (l, remove_all l ms)) (iter_range-filter ms r o)
    ∙ ap (λ l. (filter (touches r) ms, l)) (remove_all-filter (touches r) 0 ms o)

module _ (q : VmMapping → Bool) (ms : List VmMapping) (a : ℕ) (o : Ordered 0 ms) where
  filter-none : find ms a ≡ none → find (filter q ms) a ≡ none
  filter-none n = find-filter q 0 ms a o ∙ (rw n refl)

  filter_in : (p : VmMapping) → find ms a ≡ some p → q p ≡ true → find (filter q ms) a ≡ some p
  filter_in p n y = find-filter q 0 ms a o ∙ (rw (n, y) refl)

  filter_out : (p : VmMapping) → find ms a ≡ some p → q p ≡ false → find (filter q ms) a ≡ none
  filter_out p n y = find-filter q 0 ms a o ∙ (rw (n, y) refl)

view_of_none : (ms : List VmMapping) (a : ℕ) → find ms a ≡ none → view ms a ≡ none
view_of_none ms a n = view-find ms a ∙ (rw n refl)

view_of_some :
    (ms : List VmMapping) (a : ℕ) (p : VmMapping) → find ms a ≡ some p → view ms a ≡ some (info p a)
view_of_some ms a p n = view-find ms a ∙ (rw n refl)

-- The mappings taken out, carved, and then looked up together with those that stayed.
together :
    (ms : List VmMapping) (r : Range) (op : VmMapping → Range → Option VmMapping) (a : ℕ)
    (survivors : List VmMapping)
    → Ordered 0 ms
    → view survivors a
      ≡ (elim (find (filter (touches r) ms) a) [ none ↦ none | some p ↦ effect r op p a ])
    → (view survivors a ≢ none → view (filter (λ m. not (touches r m)) ms) a ≡ none)
      × (view (survivors ++ filter (λ m. not (touches r m)) ms) a
          ≡ (elim (find ms a) [ none ↦ none | some p ↦ effect r op p a ]))
together ms r op a survivors o v = elim (Option-cases (find ms a)) [
  | inl n ↦
      let s : view survivors a ≡ none = v ∙ (rw (filter-none (touches r) ms a o n) refl) in
      let t = view_of_none stay a (filter-none (λ m. not (touches r m)) ms a o n) in
      ((λ z. t), view-none survivors stay a s ∙ (t ∙ (rw n refl)))
  | inr (p, n) ↦ elim (Bool-cases (touches r p)) [
    | inl y ↦
        let s : view survivors a ≡ effect r op p a =
          v ∙ (rw (filter_in (touches r) ms a o p n y) refl) in
        let t = view_of_none stay a (filter_out (λ m. not (touches r m)) ms a o p n (rw y refl)) in
        (
          (λ z. t),
          view-append survivors stay a ∙ elim (Option-cases (effect r op p a)) [
            | inl e ↦ rw (s, e, n, t) (sym e)
            | inr (x, e) ↦ rw (s, e, n) (sym e)
          ],
        )
    | inr y ↦
        let s : view survivors a ≡ none = v ∙ (rw (filter_out (touches r) ms a o p n y) refl) in
        let t = view_of_some stay a p (filter_in (λ m. not (touches r m)) ms a o p n (rw y refl)) in
        let f = outside r op p a (find-covers ms a p n) y in
        ((λ z. absurd (z s)), view-none survivors stay a s ∙ (t ∙ (rw (n, f) refl)))
  ]
]
  where
    stay : List VmMapping
    stay = filter (λ m. not (touches r m)) ms

-- What `carve` must give.
pub record CarveResult (ms : List VmMapping) (r : Range) (op : VmMapping → Range → Option VmMapping)
    : Type 0 where
  after : List VmMapping
  outcome : CarveOutcome
  result : carve ms r op ≡ some (after, outcome)
  ordered : Ordered 0 after
  mapped : outcome.mapped ≡ count_overlap ms r
  dropped : outcome.dropped ≤ outcome.mapped
  views : (a : ℕ) → view after a ≡ (elim (find ms a) [ none ↦ none | some p ↦ effect r op p a ])

-- Carving a page-aligned range out of a table in order without overlap, by a function that may
-- change or drop what it is given but does not move it. It succeeds; the table is again in order
-- without overlap; an address in the range is mapped as the function left the part of its old
-- mapping that lies in the range, and one outside the range as before; `mapped` counts the bytes of
-- the range that were mapped, and `dropped` is at most that.
pub carve-CarveResult :
    (ms : List VmMapping) (r : Range) (op : VmMapping → Range → Option VmMapping)
    → Ordered 0 ms
    → Keeps op
    → r.start < r.end
    → r.start % page_size ≡ 0
    → r.end % page_size ≡ 0
    → CarveResult ms r op
unfolding carve count_overlap
carve-CarveResult ms r op o keeps h p q =
    let taken = filter (touches r) ms in
    let all =
      carve_pieces-AllCarved r op 0 taken keeps h (Ordered-filter (touches r) 0 ms o)
        (All-touch (touches r) ms) in
    let it = iter_range-filter ms r o in
    let te = take_in-filter ms r o in
    let stay = filter (λ m. not (touches r m)) ms in
    let done =
      insert_all-view all.survivors stay all.spread
        (λ a. (together ms r op a all.survivors o (all.views a)).0)
        (Ordered-filter (λ m. not (touches r m)) 0 ms o) in
    let ok_range : (r.start % page_size == 0 && r.end % page_size == 0 && ltb r.start r.end)
        ≡ true =
      ground (arith, h, p, q) in
    record {
      after = insert_all all.survivors stay;
      outcome = all.outcome;
      result = rw (ok_range, ap (λ t. t.0) te, all.result, ap (λ t. t.1) te) refl;
      ordered = done.0;
      mapped = all.mapped ∙ (rw it refl);
      dropped = all.dropped;
      views = λ a. done.1 a ∙ (together ms r op a all.survivors o (all.views a)).1;
    }
