-- ===== src/Fd/Hooks.antt =====
-- petra/src/fs/fd/fd.rs: which close hooks the closing operations run.
use petra_os.Common.{
  ℕ, zero, suc, ◌+◌, ◌≤◌, ◌≡◌, refl, subst, inl, inr, Bool, true, false, ◌&&◌, Option, none, some,
  List, [], ◌∷◌, ◌++◌, arith, ltb, ◌==◌, if◌then◌else◌, ==_iff, Bool-cases, Option-cases, if_cases,
  set,
}
use petra_os.Fd.{FdEntry, slot, refs_of, refs, release_entry, take_slot, take_slots}
use petra_os.Fd.Slots.{slot_lt, refs-set}

-- How often a file stands in a list.
abbrev pub times : ℕ → List ℕ → ℕ
times f [] = 0
times f (x ∷ xs) = (if x == f then 1 else 0) + times f xs

-- 1 if the table's references to the file went from some to none, and no one else has any.
abbrev pub lost : (ℕ → ℕ) → ℕ → List (Option FdEntry) → List (Option FdEntry) → ℕ
lost others f before after =
    if ltb 0 (refs f before) && refs f after == 0 && others f == 0 then 1 else 0

-- The close hooks that ran between two states: that of each file that lost its last reference, once.
abbrev pub Once : (ℕ → ℕ) → List (Option FdEntry) × List ℕ → List (Option FdEntry) × List ℕ → Type 0
Once others (files, closed) (files', closed') =
    (f : ℕ)
    → (refs f files' ≤ refs f files)
      × (times f closed' ≡ times f closed + lost others f files files')

times-append : (f : ℕ) (xs ys : List ℕ) → times f (xs ++ ys) ≡ times f xs + times f ys
times-append f [] ys = omega arith
times-append f (x ∷ xs) ys = omega (arith, times-append f xs ys)

pub Once-same : (others : ℕ → ℕ) (st : List (Option FdEntry) × List ℕ) → Once others st st
Once-same others st f = (omega arith, ground arith)

Once-both :
    (others : ℕ → ℕ) (a b c : List (Option FdEntry) × List ℕ)
    → Once others a b
    → Once others b c
    → Once others a c
Once-both others a b c h k f =
    let x = h f in let y = k f in (omega (arith, x.0, y.0), ground (arith, x, y))

module _ (others : ℕ → ℕ) (which : FdEntry → Bool) (idx : ℕ) (files : List (Option FdEntry))
    (closed : List ℕ) where
  pub take_slot-none :
      slot files idx ≡ none → take_slot others which idx (files, closed) ≡ (files, closed)
  unfolding take_slot
  take_slot-none n = rw (n, take_slot) refl

  pub take_slot_keeps :
      (e : FdEntry)
      → slot files idx ≡ some e
      → which e ≡ false
      → take_slot others which idx (files, closed) ≡ (files, closed)
  unfolding take_slot
  take_slot_keeps e n w = rw (n, take_slot, w) refl

  pub take_slot_takes :
      (e : FdEntry)
      → slot files idx ≡ some e
      → which e ≡ true
      → take_slot others which idx (files, closed)
        ≡ (set files idx none, release_entry others e (set files idx none) closed)
  unfolding take_slot
  take_slot_takes e n w = rw (n, take_slot, w) refl

times_release :
    (others : ℕ → ℕ) (e : FdEntry) (f : ℕ) (files' : List (Option FdEntry)) (before : ℕ)
    (closed : List ℕ)
    → before ≡ refs f files' + refs_of f (some e)
    → times f (release_entry others e files' closed)
      ≡ times f closed + (if ltb 0 before && refs f files' == 0 && others f == 0 then 1 else 0)
unfolding release_entry
times_release others e f files' before closed h =
    let t = times-append f closed (e.file ∷ []) in
    elim (Bool-cases (e.file == f)) [
      | inl k ↦
          let q = (==_iff e.file f).0 k in
          elim (Bool-cases (1 + refs e.file files' + others e.file == 1)) [
            | inl c ↦
                (let c' = subst (λ x. (1 + refs x files' + others x == 1) ≡ true) q c in
                  let z : (ltb 0 before && refs f files' == 0 && others f == 0) ≡ true =
                    ground (arith, c', h, k) in
                  rw (c, z) (omega (arith, rw k at t)))
            | inr c ↦
                (let c' = subst (λ x. (1 + refs x files' + others x == 1) ≡ false) q c in
                  let z : (ltb 0 before && refs f files' == 0 && others f == 0) ≡ false =
                    ground (arith, c') in
                  rw (c, z) (omega arith))
          ]
      | inr k ↦
          let z : (ltb 0 before && refs f files' == 0 && others f == 0) ≡ false =
            ground (arith, h, k) in
          rw z (
            if_cases (λ l. times f l ≡ times f closed + 0)
              (1 + refs e.file files' + others e.file == 1) (λ _. omega (arith, rw k at t))
              (λ _. omega arith))
    ]

pub take_slot-Once :
    (others : ℕ → ℕ) (which : FdEntry → Bool) (idx : ℕ) (files : List (Option FdEntry))
    (closed : List ℕ)
    → Once others (files, closed) (take_slot others which idx (files, closed))
take_slot-Once others which idx files closed = elim (Option-cases (slot files idx)) [
  | inl n ↦ rw (take_slot-none others which idx files closed n) (Once-same others (files, closed))
  | inr (e, n) ↦ elim (Bool-cases (which e)) [
    | inr w ↦
        rw (take_slot_keeps others which idx files closed e n w) (Once-same others (files, closed))
    | inl w ↦ rw (take_slot_takes others which idx files closed e n w) (λ f.
        let g : refs f (set files idx none) + refs_of f (some e) ≡ refs f files + 0 =
          rw n at (refs-set f files idx none (slot_lt files idx e n)) in
        (
          omega (arith, g),
          times_release others e f (set files idx none) (refs f files) closed (omega (arith, g)),
        ))
  ]
]

pub take_slots-Once :
    (others : ℕ → ℕ) (which : FdEntry → Bool) (n idx : ℕ) (st : List (Option FdEntry) × List ℕ)
    → Once others st (take_slots others which n idx st)
unfolding take_slots
take_slots-Once others which zero idx st = Once-same others st
take_slots-Once others which (suc n) idx st =
    Once-both others st (take_slot others which idx st) (take_slots others which (suc n) idx st)
      (take_slot-Once others which idx st.0 st.1)
      (take_slots-Once others which n (suc idx) (take_slot others which idx st))
