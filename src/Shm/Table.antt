-- ===== src/Shm/Table.antt =====
-- petra/src/ipc/shm/mod.rs: counting attachments, and the table of the segments under the operations.
use petra_os.Common.{
  ℕ, suc, ◌+◌, ◌≤◌, ◌<◌, ◌≡◌, refl, sym, ap, ◌∙◌, subst, ◌≢◌, inl, inr, true, false, ◌&&◌, Option,
  none, some, List, [], ◌∷◌, ◌++◌, map, arith, ◌==◌, if◌then◌else◌, Bool-cases, if_cases, if_true,
  if_false, All,
}
use petra_os.Sem.Registry.{lookup, remove}
use petra_os.Shm.{ShmSegment, ShmAttachment, update, take_attachment}
use petra_os.Shm.Control.{owned, not_owned}

-- How many attachments there are to a segment.
unfoldable pub count : ℕ → List ShmAttachment → ℕ
count id [] = 0
count id (a ∷ rest) = let n = count id rest in if a.shmid == id then suc n else n

-- What the table says, and 0 for a segment that is not in it.
abbrev pub count_of : Option ShmSegment → ℕ
count_of none = 0
count_of (some s) = s.nattch

unfoldable pub nattch_of : ℕ → List (ℕ × ShmSegment) → ℕ
nattch_of id objects = count_of (lookup id objects)

-- A segment that is marked for deletion is kept only while it is attached.
abbrev pub Awaited : ℕ × ShmSegment → Type 0
Awaited entry = entry.1.marked_for_deletion ≡ true → 0 < entry.1.nattch

module _ (id : ℕ) where
  pub count-append : (xs ys : List ShmAttachment) → count id (xs ++ ys) ≡ count id xs + count id ys
  unfolding count
  count-append [] ys = omega arith
  count-append (x ∷ xs) ys = ground (arith, count-append xs ys)

  pub count-owned :
      (pid : ℕ) (l : List ShmAttachment)
      → count id l ≡ count id (owned pid l) + count id (not_owned pid l)
  unfolding count owned not_owned
  count-owned pid [] = omega arith
  count-owned pid (a ∷ l) = ground (arith, count-owned pid l)

  pub count-take_none :
      (pid addr : ℕ) (l : List ShmAttachment) → count id (take_attachment pid addr l).1 ≤ count id l
  unfolding count take_attachment
  count-take_none pid addr [] = omega arith
  count-take_none pid addr (a ∷ l) = ground (arith, count-take_none pid addr l)

  pub count-map :
      (child : ℕ) (l : List ShmAttachment)
      → count id (map (λ (a : ShmAttachment). record a { owner = child }) l) ≡ count id l
  unfolding count
  count-map child [] = refl
  count-map child (a ∷ l) = ground (arith, count-map child l)

  pub nattch_of-remove :
      (j : ℕ) (l : List (ℕ × ShmSegment))
      → nattch_of id (remove j l) ≡ (if j == id then 0 else nattch_of id l)
  unfolding nattch_of lookup remove
  nattch_of-remove j [] = ground arith
  nattch_of-remove j ((i, s) ∷ l) = ground (arith, nattch_of-remove j l)

pub count-take_some :
    (pid addr : ℕ) (l : List ShmAttachment) {a : ShmAttachment}
    → (take_attachment pid addr l).0 ≡ some a
    → (count a.shmid l ≡ suc (count a.shmid (take_attachment pid addr l).1))
unfolding count take_attachment
count-take_some pid addr [] e = absurd (cc)
count-take_some pid addr (b ∷ l) {a = a} e = elim (Bool-cases (b.owner == pid && b.addr == addr)) [
  | inl t ↦
      let same : b ≡ a = ground (arith, t, e) in
      let id : b.shmid ≡ a.shmid = ap (λ (x : ShmAttachment). x.shmid) same in ground (arith, t, id)
  | inr t ↦
      let found : (take_attachment pid addr l).0 ≡ some a = ground (arith, t, e) in
      let rest = count-take_some pid addr l found in ground (arith, t, rest)
]

pub lookup-here :
    (i id : ℕ) (s : ShmSegment) (l : List (ℕ × ShmSegment))
    → (i == id) ≡ true
    → lookup id ((i, s) ∷ l) ≡ some s
unfolding lookup
lookup-here i id s l h = if_true (i == id) (lookup id l) h

pub lookup-there :
    (i id : ℕ) (s : ShmSegment) (l : List (ℕ × ShmSegment))
    → (i == id) ≡ false
    → lookup id ((i, s) ∷ l) ≡ lookup id l
unfolding lookup
lookup-there i id s l h = if_false (i == id) (some s) h

module _ (f : ShmSegment → ShmSegment) where
  pub lookup-update_same :
      (id : ℕ) (l : List (ℕ × ShmSegment)) (s : ShmSegment)
      → lookup id l ≡ some s
      → lookup id (update id f l) ≡ some (f s)
  unfolding lookup update
  lookup-update_same id [] s e = absurd (cc)
  lookup-update_same id ((i, t) ∷ l) s e = elim (Bool-cases (i == id)) [
    | inl h ↦
        let same : t ≡ s = ground (arith, h, e) in
        rw h (lookup-here i id (f t) l h ∙ ap (λ x. some (f x)) same)
    | inr h ↦
        let found : lookup id l ≡ some s = ground (arith, h, e) in
        rw h (lookup-there i id t (update id f l) h ∙ lookup-update_same id l s found)
  ]

  pub lookup-update_other :
      (id j : ℕ) (l : List (ℕ × ShmSegment)) → j ≢ id → lookup id (update j f l) ≡ lookup id l
  unfolding lookup update
  lookup-update_other id j [] n = refl
  lookup-update_other id j ((i, t) ∷ l) n = elim (Bool-cases (i == j)) [
    | inl h ↦ let apart : (i == id) ≡ false = ground (arith, h, n) in rw (h, apart, lookup) refl
    | inr h ↦ rw h (ground (arith, lookup-update_other id j l n))
  ]

  pub All-update :
      (id : ℕ) (l : List (ℕ × ShmSegment)) (s : ShmSegment)
      → lookup id l ≡ some s
      → Awaited (id, f s)
      → All Awaited l
      → All Awaited (update id f l)
  unfolding lookup update
  All-update id [] s e h a = tt
  All-update id ((i, t) ∷ l) s e h a = elim (Bool-cases (i == id)) [
    | inl k ↦
        let same : t ≡ s = ground (arith, k, e) in
        rw k (subst (λ x. Awaited (i, f x)) (sym same) h, a.1)
    | inr k ↦
        let found : lookup id l ≡ some s = ground (arith, k, e) in
        rw k (a.0, All-update id l s found h a.1)
  ]

pub All-lookup :
    (id : ℕ) (l : List (ℕ × ShmSegment)) (s : ShmSegment)
    → lookup id l ≡ some s
    → All Awaited l
    → Awaited (id, s)
unfolding lookup
All-lookup id [] s e a = absurd (cc)
All-lookup id ((i, t) ∷ l) s e a = elim (Bool-cases (i == id)) [
  | inl k ↦ let same : t ≡ s = ground (arith, k, e) in subst (λ x. Awaited (i, x)) same a.0
  | inr k ↦ let found : lookup id l ≡ some s = ground (arith, k, e) in All-lookup id l s found a.1
]

pub All-remove : (id : ℕ) (l : List (ℕ × ShmSegment)) → All Awaited l → All Awaited (remove id l)
unfolding remove
All-remove id [] a = tt
All-remove id ((i, t) ∷ l) a =
    if_cases (All Awaited) (i == id) (λ _. All-remove id l a.1) λ _. (a.0, All-remove id l a.1)
