-- ===== src/Mappings/Piece.antt =====
-- petra/src/vm/vmar/mappings.rs: one round of `carve`.
use petra_os.Common.{
  ℕ, ◌≤◌, ◌<◌, ◌≡◌, refl, sym, ap, ap₂, ◌∙◌, true, ◌&&◌, Option, none, some, List, [], ◌∷◌, ◌++◌,
  append-nil, arith, ltb, leb, if◌then◌else◌, if_cases, All,
}
use petra_os.Mappings.{Range, VmMapping, range_of, split_range}
use petra_os.Mappings.Table.{intersect, touches, range_len, optional, carve_piece}
use petra_os.Mappings.View.{covers, Info, info, view}
use petra_os.Mappings.Pieces.{
  left_of, middle_of, right_of, Inside, split_range-parts, within, Keeps, effect, Spread, Covered,
  left_Spread, right_Spread, three_views, Fills,
}

-- What `carve_piece` gives for a mapping that the range touches.
pub record Carved (r : Range) (op : VmMapping → Range → Option VmMapping) (p : VmMapping)
    : Type 0 where
  pub kept : List VmMapping
  pub dropped : ℕ
  pub result : carve_piece r op p ≡ some (kept, dropped)
  pub spread : Spread kept
  pub covered : Covered p kept
  pub few : dropped ≤ range_len (intersect r (range_of p))
  pub views : (a : ℕ) → view kept a ≡ (if covers p a then effect r op p a else none)

module _ (r : Range) (op : VmMapping → Range → Option VmMapping) (p : VmMapping)
    (left right : Option VmMapping) (middle : VmMapping)
    (split_up : split_range p (intersect r (range_of p)) ≡ some (left, middle, right)) where
  carve_piece_drops :
      op middle (intersect r (range_of p)) ≡ none
      → carve_piece r op p
        ≡ some (optional left ++ optional right, range_len (intersect r (range_of p)))
  unfolding carve_piece
  carve_piece_drops e = rw (split_up, e, carve_piece) refl

  carve_piece_keeps :
      (k : VmMapping)
      → op middle (intersect r (range_of p)) ≡ some k
      → carve_piece r op p ≡ some (optional left ++ (optional right ++ (k ∷ [])), 0)
  unfolding carve_piece
  carve_piece_keeps k e = rw (split_up, e, carve_piece) refl

pub carve_piece-Carved :
    (r : Range) (op : VmMapping → Range → Option VmMapping) (p : VmMapping)
    → Keeps op
    → r.start < r.end
    → 0 < p.len
    → touches r p ≡ true
    → Carved r op p
unfolding intersect
carve_piece-Carved r op p keeps h f t = decided (op (middle_of p s) s) refl
  where
    s : Range
    s = intersect r (range_of p)

    inside : Inside s p
    inside = (omega arith, ground (arith, h, f, t), omega arith)

    agree : (a : ℕ) → covers p a ≡ true → within s a ≡ within r a
    agree a c = ground (arith, c)

    whole : List VmMapping → List VmMapping
    whole ys = optional (left_of p s) ++ (optional (right_of p s) ++ ys)

    laid :
        (ys : List VmMapping)
        → Spread ys
        → All (Fills s) ys
        → Covered p ys
        → Spread (whole ys) × Covered p (whole ys)
    laid ys sp fill cov =
        let q = right_Spread p s ys inside sp fill cov in
        left_Spread p s (optional (right_of p s) ++ ys) inside q.0 q.2 q.1

    decided : (o : Option VmMapping) → op (middle_of p s) s ≡ o → Carved r op p
    decided none e = record {
      kept = whole [];
      dropped = range_len s;
      result =
          carve_piece_drops r op p (left_of p s) (right_of p s) (middle_of p s)
            (split_range-parts p s inside) e
          ∙ ap (λ l. some (optional (left_of p s) ++ l, range_len s))
              (sym (append-nil (optional (right_of p s))));
      spread = (laid [] tt tt tt).0;
      covered = (laid [] tt tt tt).1;
      few = omega arith;
      views = λ a.
          three_views p s r [] (λ b. none) a inside (agree a)
            (if_cases (λ (z : Option Info). none ≡ z) (within s a) (λ _. refl) (λ _. refl))
          ∙ (rw e refl);
    }
    decided (some k) e =
        let kept = keeps (middle_of p s) s k e in
        let fills : Fills s k = (kept.0, omega (arith, kept.0, kept.1, inside.1)) in
        let filled : (a : ℕ) → covers k a ≡ within s a =
          λ a. ap₂ (λ x y. leb x a && ltb a y) fills.0 fills.1 in
        let l =
          laid (k ∷ []) (omega (arith, kept.1, inside.1), (λ a c. refl), tt) (fills, tt)
            ((λ a c. ground (arith, c, fills.0, fills.1, inside)), tt) in
        record {
          kept = whole (k ∷ []);
          dropped = 0;
          result =
              carve_piece_keeps r op p (left_of p s) (right_of p s) (middle_of p s)
                (split_range-parts p s inside) k e;
          spread = l.0;
          covered = l.1;
          few = omega arith;
          views = λ a.
              three_views p s r (k ∷ []) (λ b. some (info k b)) a inside (agree a)
                (rw (filled a) refl)
              ∙ (rw e refl);
        }
