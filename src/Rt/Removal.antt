-- ===== src/Rt/Removal.antt =====
-- petra/src/sched/sched_class/rt.rs: `position` and `remove` on two lists in a row.
use petra_os.Common.{
  ℕ, suc, ◌≡◌, refl, sym, ap, ◌∙◌, inl, inr, true, false, Option, none, some, List, [], ◌∷◌, ◌++◌,
  arith, ◌==◌, Bool-cases, Option-cases, length,
}
use petra_os.Rt.{SchedEntry, remove_first}

-- What the removal from the end of a list makes of the whole.
abbrev pub after :
    List SchedEntry → Option (SchedEntry × List SchedEntry) → Option (SchedEntry × List SchedEntry)
after l none = none
after l (some (e, r)) = some (e, l ++ r)

after-cons :
    (x : SchedEntry) (l : List SchedEntry) (o : Option (SchedEntry × List SchedEntry))
    → after (x ∷ []) (after l o) ≡ after (x ∷ l) o
after-cons x l none = refl
after-cons x l (some (e, r)) = refl

after-nil : (o : Option (SchedEntry × List SchedEntry)) → after [] o ≡ o
after-nil none = refl
after-nil (some (e, r)) = refl

abbrev extended :
    List SchedEntry → Option (SchedEntry × List SchedEntry) → Option (SchedEntry × List SchedEntry)
extended r none = none
extended r (some (e, l)) = some (e, l ++ r)

module _ (task : ℕ) where
  remove_first-here :
      (x : SchedEntry) (l : List SchedEntry)
      → (x.task == task) ≡ true
      → remove_first task (x ∷ l) ≡ some (x, l)
  remove_first-here x l t = rw t refl

  remove_first-later :
      (x : SchedEntry) (l : List SchedEntry)
      → (x.task == task) ≡ false
      → remove_first task (x ∷ l) ≡ after (x ∷ []) (remove_first task l)
  remove_first-later x l t = elim (Option-cases (remove_first task l)) [
    | inl p ↦ rw (t, p) refl
    | inr (found, p) ↦ rw (t, p) refl
  ]

  pub length-remove_first :
      (l l' : List SchedEntry) (e : SchedEntry)
      → remove_first task l ≡ some (e, l')
      → suc (length l') ≡ length l
  length-remove_first [] l' e h = absurd (cc)
  length-remove_first (x ∷ l) l' e h = elim (Bool-cases (x.task == task)) [
    | inl t ↦
        let got = sym (remove_first-here x l t) ∙ h in
        let same : l ≡ l' = cc in ap (λ k. suc (length k)) (sym same)
    | inr t ↦ elim (Option-cases (remove_first task l)) [
      | inl p ↦
          let got = sym (ap (after (x ∷ [])) p) ∙ sym (remove_first-later x l t) ∙ h in absurd (cc)
      | inr ((found, rest), p) ↦
          let got = sym (ap (after (x ∷ [])) p) ∙ sym (remove_first-later x l t) ∙ h in
          let same : ◌≡◌ {A = List SchedEntry} (x ∷ rest) l' = cc in
          omega (arith, ap length same, length-remove_first l rest found p)
    ]
  ]

  pub remove_first-left :
      (l l' r : List SchedEntry) (e : SchedEntry)
      → remove_first task l ≡ some (e, l')
      → remove_first task (l ++ r) ≡ some (e, l' ++ r)
  remove_first-left [] l' r e h = absurd (cc)
  remove_first-left (x ∷ l) l' r e h = elim (Bool-cases (x.task == task)) [
    | inl t ↦
        let got = sym (remove_first-here x l t) ∙ h in
        remove_first-here x (l ++ r) t ∙ ap (extended r) got
    | inr t ↦ elim (Option-cases (remove_first task l)) [
      | inl p ↦
          let got = sym (ap (after (x ∷ [])) p) ∙ sym (remove_first-later x l t) ∙ h in absurd (cc)
      | inr ((found, rest), p) ↦
          let got = sym (ap (after (x ∷ [])) p) ∙ sym (remove_first-later x l t) ∙ h in
          remove_first-later x (l ++ r) t
          ∙ ap (after (x ∷ [])) (remove_first-left l rest r found p)
          ∙ ap (extended r) got
    ]
  ]

  pub remove_first-right :
      (l r : List SchedEntry)
      → remove_first task l ≡ none
      → remove_first task (l ++ r) ≡ after l (remove_first task r)
  remove_first-right [] r h = sym (after-nil (remove_first task r))
  remove_first-right (x ∷ l) r h = elim (Bool-cases (x.task == task)) [
    | inl t ↦ absurd (let got = sym (remove_first-here x l t) ∙ h in cc)
    | inr t ↦ elim (Option-cases (remove_first task l)) [
      | inl p ↦
          remove_first-later x (l ++ r) t
          ∙ ap (after (x ∷ [])) (remove_first-right l r p)
          ∙ after-cons x l (remove_first task r)
      | inr (found, p) ↦
          let got = sym (ap (after (x ∷ [])) p) ∙ sym (remove_first-later x l t) ∙ h in absurd (cc)
    ]
  ]
