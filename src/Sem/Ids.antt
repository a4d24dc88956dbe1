-- ===== src/Sem/Ids.antt =====
-- petra/src/ipc/id.rs: the ids that `alloc_ipc_id` gives.
use petra_os.Common.{
  Option, Option-cases, ◌⊎◌, ℕ, zero, suc, ◌+◌, ◌-◌, ◌^◌, ◌≤◌, ◌<◌, ◌≡◌, refl, sym, subst, inl, inr,
  true, false, none, some, List, arith, ◌==◌, Bool-cases,
}
use native.Mathlib.Decide.{ℕ_discrete}
use petra_os.Sem.Registry.{contains_key, to_id, try_ids, probe, last_id, alloc_ipc_id}

to_id_bounds : (h : ℕ) → (0 < to_id h) × (to_id h < 2 ^ 31)
to_id_bounds h = (omega arith, omega arith)

module _ {ℓ} {A : Type ℓ} where
  -- What a new id must be: positive, within i32, and not in use.
  abbrev pub IsFresh : List (ℕ × A) → ℕ → Type 0
  IsFresh reg id = (0 < id) × (id < 2 ^ 31) × (contains_key id reg ≡ false)

  try_ids-IsFresh :
      (hash : ℕ → ℕ) (reg : List (ℕ × A)) (n seq id : ℕ)
      → try_ids hash reg n seq ≡ some id
      → IsFresh reg id
  unfolding try_ids
  try_ids-IsFresh hash reg zero seq id h = absurd (cc)
  try_ids-IsFresh hash reg (suc n) seq id h =
      elim (Bool-cases (contains_key (to_id (hash seq)) reg)) [
        | inl e ↦ try_ids-IsFresh hash reg n (suc seq) id (rw e at h)
        | inr e ↦
            let b = to_id_bounds (hash seq) in
            let q : to_id (hash seq) ≡ id = ground (arith, rw e at h) in
            subst (λ i. IsFresh reg i) q (b.0, b.1, e)
      ]

  try_ids-used :
      (hash : ℕ → ℕ) (reg : List (ℕ × A)) (n seq : ℕ)
      → try_ids hash reg n seq ≡ none
      → (k : ℕ) → k < n
      → contains_key (to_id (hash (seq + k))) reg ≡ true
  unfolding try_ids
  try_ids-used hash reg zero seq h k lt = absurd (omega arith)
  try_ids-used hash reg (suc n) seq h zero lt =
      let same : seq + 0 ≡ seq = omega arith in
      elim (Bool-cases (contains_key (to_id (hash seq)) reg)) [
        | inl e ↦ subst (λ i. contains_key (to_id (hash i)) reg ≡ true) (sym same) e
        | inr e ↦ let z = rw e at h in absurd (cc)
      ]
  try_ids-used hash reg (suc n) seq h (suc k) lt =
      let same : suc seq + k ≡ seq + suc k = omega arith in
      elim (Bool-cases (contains_key (to_id (hash seq)) reg)) [
        | inl e ↦
            subst (λ i. contains_key (to_id (hash i)) reg ≡ true) same
              (try_ids-used hash reg n (suc seq) (rw e at h) k (omega arith))
        | inr e ↦ let z = rw e at h in absurd (cc)
      ]

  -- Every id from `start` to the last is in use.
  abbrev pub Full : List (ℕ × A) → ℕ → Type 0
  Full reg start = (k : ℕ) → start ≤ k → k < 2 ^ 31 → contains_key k reg ≡ true

  -- What probing from `start` gives.
  abbrev Probed : List (ℕ × A) → ℕ → Option ℕ → Type 0
  Probed reg start none = Full reg start
  Probed reg start (some id) =
      IsFresh reg id × (start ≤ id) × ((k : ℕ) → start ≤ k → k < id → contains_key k reg ≡ true)

  probe-Probed :
      (reg : List (ℕ × A)) (fuel start : ℕ)
      → 0 < start
      → start + fuel ≡ 2 ^ 31
      → Probed reg start (probe reg fuel start)
  unfolding probe
  probe-Probed reg zero start p h = λ k lo hi. absurd (omega arith)
  probe-Probed reg (suc fuel) start p h = elim (Bool-cases (contains_key start reg)) [
    | inr e ↦ rw e ((p, omega arith, e), omega arith, λ k lo hi. absurd (omega arith))
    | inl e ↦ elim (Bool-cases (start == last_id)) [
      | inl l ↦
          rw (e, l)
            (λ k lo hi.
              let same : start ≡ k = ground (arith, l) in
              subst (λ j. contains_key j reg ≡ true) same e)
      | inr l ↦
          let next : to_id (start + 1) ≡ start + 1 = ground (arith, l) in
          let rest = probe-Probed reg fuel (start + 1) (omega arith) (omega arith) in
          rw (e, l, next) (later reg start e (probe reg fuel (start + 1)) rest)
    ]
  ]
    where
      here :
          (reg : List (ℕ × A)) (start : ℕ)
          → contains_key start reg ≡ true
          → (k : ℕ) → start ≤ k
          → (start + 1 ≤ k → contains_key k reg ≡ true)
          → contains_key k reg ≡ true
      here reg start e k lo above = elim (ℕ_discrete start k) [
        | yes same ↦ subst (λ j. contains_key j reg ≡ true) same e
        | no other ↦ above (omega arith)
      ]

      later :
          (reg : List (ℕ × A)) (start : ℕ)
          → contains_key start reg ≡ true
          → (o : Option ℕ) → Probed reg (start + 1) o
          → Probed reg start o
      later reg start e none full = λ k lo hi. here reg start e k lo (λ up. full k up hi)
      later reg start e (some id) (fresh, low, used) =
          (fresh, omega arith, λ k lo hi. here reg start e k lo (λ up. used k up hi))

  -- An id that `alloc_ipc_id` gives is positive, fits in i32 and is not in use. It gives one, or
  -- else every one of the 1024 ids from the hash is in use, and so is every id from the sequence
  -- counter's up to the last of i32, where adding one overflows.
  pub alloc_ipc_id-IsFresh :
      (hash : ℕ → ℕ) (seq : ℕ) (reg : List (ℕ × A))
      → ((id : ℕ) × (alloc_ipc_id hash seq reg ≡ some id) × IsFresh reg id)
        ⊎ ((alloc_ipc_id hash seq reg ≡ none)
            × ((n : ℕ) → n < 1024 → contains_key (to_id (hash (seq + n))) reg ≡ true)
            × Full reg (to_id (seq + 1024)))
  unfolding alloc_ipc_id
  alloc_ipc_id-IsFresh hash seq reg = elim (Option-cases (try_ids hash reg 1024 seq)) [
    | inr (id, e) ↦ inl (id, rw (e, alloc_ipc_id) refl, try_ids-IsFresh hash reg 1024 seq id e)
    | inl e ↦
        let start = to_id (seq + 1024) in
        let b = to_id_bounds (seq + 1024) in
        let p = probe-Probed reg (2 ^ 31 - start) start b.0 (omega arith) in
        elim (Option-cases (probe reg (2 ^ 31 - start) start)) [
          | inl none_left ↦
              inr (
                rw (e, alloc_ipc_id) none_left,
                try_ids-used hash reg 1024 seq e,
                rw none_left at p,
              )
          | inr (id, found) ↦ inl (id, rw (e, alloc_ipc_id) found, (rw found at p).0)
        ]
  ]
