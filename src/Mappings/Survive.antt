-- ===== src/Mappings/Survive.antt =====
-- petra/src/vm/vmar/mappings.rs: the loop of `carve`, and the insertions after it.
use petra_os.Common.{
  ℕ, ◌+◌, ◌≤◌, ◌<◌, ◌≡◌, refl, ap, ◌∙◌, ◌≢◌, inl, inr, true, false, Option, none, some, List, [],
  ◌∷◌, ◌++◌, arith, Bool-cases, Option-cases, All,
}
use petra_os.Mappings.{Range, VmMapping, end_of, range_of}
use petra_os.Mappings.Table.{
  insert, intersect, touches, range_len, sum_overlap, CarveOutcome, carve_pieces, insert_all,
}
use petra_os.Mappings.View.{
  covers, find, view, Ordered, Apart, covers→bounds, view-append, view-none,
}
use petra_os.Mappings.Pieces.{Keeps, effect, Spread, Covered}
use petra_os.Mappings.Insert.{insert-view}
use petra_os.Mappings.Taken.{find_below}
use petra_os.Mappings.Piece.{carve_piece-Carved}

-- The mappings to insert are clear of the table.
abbrev pub Clear : List VmMapping → List VmMapping → Type 0
Clear ss ms = (a : ℕ) → view ss a ≢ none → view ms a ≡ none

append_same :
    (xs ys zs : List VmMapping) (a : ℕ)
    → view ys a ≡ view zs a
    → view (xs ++ ys) a ≡ view (xs ++ zs) a
append_same [] ys zs a e = e
append_same (x ∷ xs) ys zs a e = elim (Bool-cases (covers x a)) [
  | inl c ↦ rw c refl
  | inr c ↦ rw c (append_same xs ys zs a e)
]

-- Inserting mappings that are spread out and clear of the table, one after another.
pub insert_all-view :
    (ss ms : List VmMapping)
    → Spread ss
    → Clear ss ms
    → Ordered 0 ms
    → Ordered 0 (insert_all ss ms) × ((a : ℕ) → view (insert_all ss ms) a ≡ view (ss ++ ms) a)
unfolding insert_all
insert_all-view [] ms sp cl o = (o, λ a. refl)
insert_all-view (s ∷ ss) ms (f, alone, sp) cl o =
    let here : Apart s ms = λ a c. cl a (λ n. ground (arith, n, c)) in
    let one = insert-view s ms o f here in
    let uncovered : (a : ℕ) → view ss a ≢ none → covers s a ≡ false =
      λ a n. elim (Bool-cases (covers s a)) [ inl c ↦ absurd (n (alone a c)) | inr c ↦ c ] in
    let clear : Clear ss (insert s ms) =
      λ a n. let c = uncovered a n in one.1 a ∙ (rw c (cl a (λ z. n (ground (arith, z, c))))) in
    let rest = insert_all-view ss (insert s ms) sp clear one.0 in
    (
      rest.0,
      λ a. rest.1 a ∙ elim (Bool-cases (covers s a)) [
        | inl c ↦ rw c (view-none ss (insert s ms) a (alone a c) ∙ (one.1 a ∙ (rw c refl)))
        | inr c ↦ rw c (append_same ss (insert s ms) ms a (one.1 a ∙ (rw c refl)))
      ],
    )

Apart-append :
    (x : VmMapping) (xs ys : List VmMapping) → Apart x xs → Apart x ys → Apart x (xs ++ ys)
Apart-append x xs ys h k a c = view-none xs ys a (h a c) ∙ k a c

Spread-append :
    (xs ys : List VmMapping) → Spread xs → Spread ys → All (λ x. Apart x ys) xs → Spread (xs ++ ys)
Spread-append [] ys sx sy h = sy
Spread-append (x ∷ xs) ys (f, alone, sx) sy h =
    (f, Apart-append x xs ys alone h.0, Spread-append xs ys sx sy h.1)

Covered-Apart :
    (p : VmMapping) (xs ys : List VmMapping) → Covered p xs → Apart p ys → All (λ x. Apart x ys) xs
Covered-Apart p [] ys h k = tt
Covered-Apart p (x ∷ xs) ys h k = ((λ a c. k a (h.0 a c)), Covered-Apart p xs ys h.1 k)

-- What `carve_pieces` gives for mappings that the range touches.
pub record AllCarved (r : Range) (op : VmMapping → Range → Option VmMapping) (ps : List VmMapping)
    : Type 0 where
  pub survivors : List VmMapping
  pub outcome : CarveOutcome
  pub result : carve_pieces r op ps ≡ some (survivors, outcome)
  pub spread : Spread survivors
  pub mapped : outcome.mapped ≡ sum_overlap r ps
  pub dropped : outcome.dropped ≤ outcome.mapped
  pub views :
      (a : ℕ) → view survivors a ≡ (elim (find ps a) [ none ↦ none | some p ↦ effect r op p a ])

pub carve_pieces-AllCarved :
    (r : Range) (op : VmMapping → Range → Option VmMapping) (lo : ℕ) (ps : List VmMapping)
    → Keeps op
    → r.start < r.end
    → Ordered lo ps
    → All (λ p. touches r p ≡ true) ps
    → AllCarved r op ps
unfolding carve_pieces
carve_pieces-AllCarved r op lo [] keeps h o t = record {
  survivors = [];
  outcome = record { mapped = 0; dropped = 0 };
  result = refl;
  spread = tt;
  mapped = refl;
  dropped = omega arith;
  views = λ a. refl;
}
carve_pieces-AllCarved r op lo (p ∷ ps) keeps h o t =
    let one = carve_piece-Carved r op p keeps h o.1 t.0 in
    let rest = carve_pieces-AllCarved r op (end_of p) ps keeps h o.2 t.1 in
    let apart : Apart p rest.survivors =
      λ a c. rest.views a ∙ (rw (find_below (end_of p) ps a o.2 (covers→bounds p a c).1) refl) in
    record {
      survivors = one.kept ++ rest.survivors;
      outcome = record {
        mapped = range_len (intersect r (range_of p)) + rest.outcome.mapped;
        dropped = one.dropped + rest.outcome.dropped;
      };
      result = rw (one.result, rest.result, carve_pieces) refl;
      spread =
          Spread-append one.kept rest.survivors one.spread rest.spread
            (Covered-Apart p one.kept rest.survivors one.covered apart);
      mapped = ap (λ n. range_len (intersect r (range_of p)) + n) rest.mapped;
      dropped = omega (arith, one.few, rest.dropped);
      views = λ a. view-append one.kept rest.survivors a ∙ elim (Bool-cases (covers p a)) [
        | inl c ↦
            rw (one.views a, c)
              (elim (Option-cases (effect r op p a)) [
                | inl n ↦ rw n (apart a c)
                | inr (i, n) ↦ rw n refl
              ])
        | inr c ↦ rw (one.views a, c) (rest.views a)
      ];
    }
