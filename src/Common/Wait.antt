-- ===== src/Common/Wait.antt =====
-- `WaitQueue::wait_until` of ostd, as its documentation gives it: the sleeper's condition is tried
-- after each wake-up, until it returns a value. The list holds what the other threads did to the
-- shared state before each wake-up; a call whose list runs out is still asleep.
use mathlib.Core.List.{List, [], ◌∷◌}
use mathlib.Core.Option.{Option, none, some}
use mathlib.Core.Path.{◌≡◌}
use mathlib.Core.Logic.{inl, inr}
use native.Mathlib.Omega.{arith}
use petra_os.Common.Lists.{All}
use petra_os.Common.Tests.{Option-cases}

trivially {ℓ} : {S : Type ℓ} (ws : List (S → S)) → All (λ w. (t : S) → Unit {0} → Unit {0}) ws
trivially [] = tt
trivially (w ∷ ws) = ((λ t u. u), trivially ws)

module _ {ℓ κ} {S : Type ℓ} {R : Type κ} where
  unfoldable pub wait_until : (S → Option R × S) → List (S → S) → S → Option R × S
  wait_until attempt [] s = (none, s)
  wait_until attempt (others ∷ ws) s =
      let (r, s') = attempt (others s) in
      elim r [ none ↦ wait_until attempt ws s' | some x ↦ (some x, s') ]

  -- A property that the other threads and each attempt keep still holds when the call is over.
  pub wait_until_keeps {ι} :
      (Inv : S → Type ι) (attempt : S → Option R × S)
      → ((s : S) → Inv s → Inv (attempt s).1)
      → (ws : List (S → S)) (s : S) → All (λ w. (t : S) → Inv t → Inv (w t)) ws
      → Inv s
      → Inv (wait_until attempt ws s).1
  unfolding wait_until
  wait_until_keeps Inv attempt keep [] s others h = h
  wait_until_keeps Inv attempt keep (w ∷ ws) s others h = ground (
    arith,
    keep (w s) (others.0 s h),
    wait_until_keeps Inv attempt keep ws (attempt (w s)).1 others.1 (keep (w s) (others.0 s h)),
  )

  pub wait_until_again :
      (attempt : S → Option R × S) (w : S → S) (ws : List (S → S)) (s : S)
      → (attempt (w s)).0 ≡ none
      → wait_until attempt (w ∷ ws) s ≡ wait_until attempt ws (attempt (w s)).1
  unfolding wait_until
  wait_until_again attempt w ws s p = rw (p, wait_until)

  pub wait_until_done :
      (attempt : S → Option R × S) (w : S → S) (ws : List (S → S)) (s : S) (x : R)
      → (attempt (w s)).0 ≡ some x
      → wait_until attempt (w ∷ ws) s ≡ (some x, (attempt (w s)).1)
  unfolding wait_until
  wait_until_done attempt w ws s x p = rw (p, wait_until)

  -- A call that returns made its last attempt in a state that the property holds of.
  pub wait_until_returns {ι} :
      (Inv : S → Type ι) (attempt : S → Option R × S)
      → ((s : S) → Inv s → Inv (attempt s).1)
      → (ws : List (S → S)) (s : S) (x : R) → All (λ w. (t : S) → Inv t → Inv (w t)) ws
      → Inv s
      → (wait_until attempt ws s).0 ≡ some x
      → (t : S) × Inv t × (attempt t ≡ (some x, (wait_until attempt ws s).1))
  wait_until_returns Inv attempt keep [] s x others h e = absurd (unfold wait_until in ground arith)
  wait_until_returns Inv attempt keep (w ∷ ws) s x others h e =
      elim (Option-cases (attempt (w s)).0) [
        | inl p ↦
            let q = wait_until_again attempt w ws s p in
            rw q (
              wait_until_returns Inv attempt keep ws (attempt (w s)).1 x others.1
                (keep (w s) (others.0 s h)) (rw q at e))
        | inr (y, p) ↦
            let q = wait_until_done attempt w ws s y p in (w s, others.0 s h, ground (arith, p, q))
      ]

  pub wait_until_attempt :
      (attempt : S → Option R × S) (ws : List (S → S)) (s : S) (x : R)
      → (wait_until attempt ws s).0 ≡ some x
      → (t : S) × (attempt t ≡ (some x, (wait_until attempt ws s).1))
  wait_until_attempt attempt ws s x e =
      let found =
        wait_until_returns (λ _. Unit {0}) attempt (λ _ _. tt) ws s x (trivially ws) tt e in
      (found.0, found.2)

  -- The property need only survive the attempts that do not end the wait.
  pub wait_until_rule {ι} :
      (Inv : S → Type ι) (attempt : S → Option R × S)
      → ((s : S) → Inv s → (attempt s).0 ≡ none → Inv (attempt s).1)
      → (ws : List (S → S)) (s : S) → All (λ w. (t : S) → Inv t → Inv (w t)) ws
      → Inv s
      → ((wait_until attempt ws s).0 ≡ none → Inv (wait_until attempt ws s).1)
        × ((x : R)
            → (wait_until attempt ws s).0 ≡ some x
            → (t : S) × Inv t × (attempt t ≡ (some x, (wait_until attempt ws s).1)))
  wait_until_rule Inv attempt keep [] s others h =
      ((λ e. unfold wait_until in h), λ x e. absurd (unfold wait_until in ground arith))
  wait_until_rule Inv attempt keep (w ∷ ws) s others h = elim (Option-cases (attempt (w s)).0) [
    | inl p ↦
        let q = wait_until_again attempt w ws s p in
        rw q (
          wait_until_rule Inv attempt keep ws (attempt (w s)).1 others.1
            (keep (w s) (others.0 s h) p))
    | inr (y, p) ↦
        let q = wait_until_done attempt w ws s y p in
        ((λ e. absurd (ground (arith, e, q))), λ x e. (w s, others.0 s h, ground (arith, p, q, e)))
  ]
