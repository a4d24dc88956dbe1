-- ===== src/Msg/Scan.antt =====
-- petra/src/ipc/msg/mod.rs: the loops over the messages of a queue.
use petra_os.Common.{
  ℕ, zero, suc, ◌+◌, ◌-◌, ◌≤◌, ◌<◌, ◌≡◌, refl, ap, ◌∙◌, ◌⊎◌, inl, inr, Bool, true, false, ◌&&◌,
  Option, none, some, List, [], ◌∷◌, ◌++◌, arith, ltb, leb, Bool-cases, length, All,
}
use petra_os.Msg.{Message, find_first, find_lowest}

-- A place in a list, and what is found there.
pub record Split (ms : List Message) (i : ℕ) : Type 0 where
  pub before : List Message
  pub found : Message
  pub after : List Message
  pub whole : ms ≡ before ++ found ∷ after
  pub place : length before ≡ i

pub get-Split : (ms : List Message) (i : ℕ) → i < length ms → Split ms i
get-Split [] i h = absurd (omega arith)
get-Split (m ∷ ms) zero h = record {
  before = [];
  found = m;
  after = ms;
  whole = refl;
  place = refl;
}
get-Split (m ∷ ms) (suc i) h =
    let s = get-Split ms i (omega arith) in
    record {
      before = m ∷ s.before;
      found = s.found;
      after = s.after;
      whole = ap (λ l. m ∷ l) s.whole;
      place = ap suc s.place;
    }

module _ (test : Message → Bool) where
  pub find_first-none :
      (k : ℕ) (ms : List Message) → find_first test k ms ≡ none → All (λ x. test x ≡ false) ms
  unfolding find_first
  find_first-none k [] e = tt
  find_first-none k (m ∷ ms) e = ground (arith, find_first-none (k + 1) ms, e)

  pub find_first-some :
      (k i : ℕ) (ms : List Message)
      → find_first test k ms ≡ some i
      → (s : Split ms (i - k)) × (k ≤ i)
        × (test s.found ≡ true)
        × All (λ x. test x ≡ false) s.before
  unfolding find_first
  find_first-some k i [] e = absurd (cc)
  find_first-some k i (m ∷ ms) e = elim (Bool-cases (test m)) [
    | inl t ↦
        let same : k ≡ i = ground (arith, e, t) in
        (
          record { before = []; found = m; after = ms; whole = refl; place = omega arith },
          omega arith,
          t,
          tt,
        )
    | inr t ↦
        let later : find_first test (k + 1) ms ≡ some i = ground (arith, e, t) in
        let (s, low, passes, quiet) = find_first-some (k + 1) i ms later in
        (
          record {
            before = m ∷ s.before;
            found = s.found;
            after = s.after;
            whole = ap (λ l. m ∷ l) s.whole;
            place = omega (arith, s.place);
          },
          omega arith,
          passes,
          (t, quiet),
        )
  ]

-- What the loop for the lowest type has found when it ends: nothing lower than at its start, or the
-- first of the messages of the lowest type.
unfoldable pub Lower : ℕ → ℕ → List Message → Type 0
Lower max_typ min_typ ms = All (λ x. x.mtype ≤ max_typ → min_typ ≤ x.mtype) ms

pub record Lowest (max_typ k min_typ : ℕ) (ms : List Message) (i : ℕ) : Type 0 where
  pub here : Split ms (i - k)
  pub later : k ≤ i
  pub fits : here.found.mtype ≤ max_typ
  pub lower : here.found.mtype < min_typ
  pub first : All (λ x. x.mtype ≤ max_typ → here.found.mtype < x.mtype) here.before
  pub least : All (λ x. x.mtype ≤ max_typ → here.found.mtype ≤ x.mtype) here.after

extend :
    (max_typ k min_typ min' : ℕ) (m : Message) (ms : List Message) (i : ℕ)
    (s : Lowest max_typ (k + 1) min' ms i)
    → s.here.found.mtype < min_typ
    → (m.mtype ≤ max_typ → s.here.found.mtype < m.mtype)
    → Lowest max_typ k min_typ (m ∷ ms) i
extend max_typ k min_typ min' m ms i s l h = record {
  here = record {
    before = m ∷ s.here.before;
    found = s.here.found;
    after = s.here.after;
    whole = ap (λ r. m ∷ r) s.here.whole;
    place = omega (arith, s.here.place, s.later);
  };
  later = omega (arith, s.later);
  fits = s.fits;
  lower = l;
  first = (h, s.first);
  least = s.least;
}

module _ (max_typ k min_typ : ℕ) (best : Option ℕ) (m : Message) (ms : List Message) where
  take_lower :
      (leb m.mtype max_typ && ltb m.mtype min_typ) ≡ true
      → find_lowest max_typ k min_typ best (m ∷ ms)
        ≡ find_lowest max_typ (k + 1) m.mtype (some k) ms
  unfolding find_lowest
  take_lower t = rw (t, find_lowest) refl

  keep_lowest :
      (leb m.mtype max_typ && ltb m.mtype min_typ) ≡ false
      → find_lowest max_typ k min_typ best (m ∷ ms) ≡ find_lowest max_typ (k + 1) min_typ best ms
  unfolding find_lowest
  keep_lowest t = rw (t, find_lowest) refl

  found_here :
      (leb m.mtype max_typ && ltb m.mtype min_typ) ≡ true
      → Lower max_typ m.mtype ms
      → Lowest max_typ k min_typ (m ∷ ms) k
  unfolding Lower
  found_here t low = record {
    here = record { before = []; found = m; after = ms; whole = refl; place = omega arith };
    later = omega arith;
    fits = ground (arith, t);
    lower = ground (arith, t);
    first = tt;
    least = low;
  }

pub find_lowest_lem :
    (max_typ k min_typ : ℕ) (best : Option ℕ) (ms : List Message)
    → ((find_lowest max_typ k min_typ best ms ≡ best) × Lower max_typ min_typ ms)
      ⊎ ((i : ℕ) × (find_lowest max_typ k min_typ best ms ≡ some i) × Lowest max_typ k min_typ ms i)
unfolding find_lowest Lower
find_lowest_lem max_typ k min_typ best [] = inl (refl, tt)
find_lowest_lem max_typ k min_typ best (m ∷ ms) =
    elim (Bool-cases (leb m.mtype max_typ && ltb m.mtype min_typ)) [
      | inl t ↦
          let step = take_lower max_typ k min_typ best m ms t in
          elim (find_lowest_lem max_typ (k + 1) m.mtype (some k) ms) [
            | inl (e, low) ↦ inr (k, step ∙ e, found_here max_typ k min_typ best m ms t low)
            | inr (i, e, s) ↦ inr (
              i,
              step ∙ e,
              extend max_typ k min_typ m.mtype m ms i s (ground (arith, t, s.lower)) (λ _. s.lower),
            )
          ]
      | inr t ↦
          let step = keep_lowest max_typ k min_typ best m ms t in
          let high : m.mtype ≤ max_typ → min_typ ≤ m.mtype = λ h. ground (arith, t, h) in
          elim (find_lowest_lem max_typ (k + 1) min_typ best ms) [
            | inl (e, low) ↦ inl (step ∙ e, (high, low))
            | inr (i, e, s) ↦ inr (
              i,
              step ∙ e,
              extend max_typ k min_typ min_typ m ms i s s.lower
                  (λ h. omega (arith, s.lower, high h)),
            )
          ]
    ]
