-- ===== src/Fd/Duplicate.antt =====
-- petra/src/fs/fd/fd.rs: `dup2`.
use petra_os.Common.{
  ℕ, ◌+◌, ◌-◌, ◌<◌, ◌≡◌, refl, sym, ◌∙◌, subst, ◌≢◌, inl, inr, Bool, Option, none, some, List,
  arith, leb, ◌==◌, if◌then◌else◌, ==_iff, Bool-cases, Option-cases, length, set, replicate,
  length-append, length-set, length-replicate,
}
use petra_os.Common.Errno.{Errno, ebadf, Result, ok, err}
use petra_os.Common.Int.{pos}
use petra_os.Fd.{FdEntry, Filedesc, slot, resize, get, get_flags, take_slot, any_entry, dup2}
use petra_os.Fd.Slots.{slot-set_self, slot-set_ne, slot-resize}
use petra_os.Fd.Hooks.{take_slot-none, take_slot_keeps, take_slot_takes}
use petra_os.Fd.Release.{slot-take_slot_ne}

-- What `dup2` must do, given its answer.
abbrev pub Duplicated : ℕ → ℕ → Bool → Filedesc × List ℕ → Result ℕ × Filedesc × List ℕ → Type 0
Duplicated oldfd newfd flags (t, closed) (err e, t', closed') =
    (e ≡ ebadf) × (t' ≡ t) × (closed' ≡ closed)
Duplicated oldfd newfd flags (t, closed) (ok fd, t', closed') =
    (fd ≡ newfd)
    × (newfd < t.max_files)
    × (file : ℕ) × (get t (pos oldfd) ≡ ok file)
    × (get t' (pos newfd) ≡ ok file)
    × (oldfd ≢ newfd → get_flags t' (pos newfd) ≡ ok flags)
    × ((i : ℕ) → i ≢ newfd → slot t'.files i ≡ slot t.files i)

get-error : (t : Filedesc) (fd : ℕ) (e : Errno) → get t (pos fd) ≡ err e → e ≡ ebadf
unfolding get
get-error t fd e h = elim (Option-cases (slot t.files fd)) [
  | inl n ↦ ground (arith, h, n)
  | inr (x, n) ↦ absurd (ground (arith, h, n))
]

length-take_slot :
    (others : ℕ → ℕ) (which : FdEntry → Bool) (idx : ℕ) (files : List (Option FdEntry))
    (closed : List ℕ)
    → length (take_slot others which idx (files, closed)).0 ≡ length files
length-take_slot others which idx files closed = elim (Option-cases (slot files idx)) [
  | inl n ↦ rw (take_slot-none others which idx files closed n) refl
  | inr (e, n) ↦ elim (Bool-cases (which e)) [
    | inr w ↦ rw (take_slot_keeps others which idx files closed e n w) refl
    | inl w ↦ rw (take_slot_takes others which idx files closed e n w) (length-set files idx none)
  ]
]

moved :
    (others : ℕ → ℕ) (t : Filedesc) (closed : List ℕ) (oldfd newfd file : ℕ) (flags : Bool)
    → newfd < t.max_files
    → get t (pos oldfd) ≡ ok file
    → let out = take_slot others any_entry newfd (resize t.files (newfd + 1), closed) in
      let entry : FdEntry = record { file = file; cloexec = flags } in
      Duplicated oldfd newfd flags
        (t, closed)
        (ok newfd, record t { files = set out.0 newfd (some entry) }, out.1)
unfolding get get_flags
moved others t closed oldfd newfd file flags l g =
    let files = resize t.files (newfd + 1) in
    let out = take_slot others any_entry newfd (files, closed) in
    let a = length-append t.files (replicate (newfd + 1 - length t.files) none) in
    let b = length-replicate {A = Option FdEntry} (newfd + 1 - length t.files) none in
    let c = length-take_slot others any_entry newfd files closed in
    let s =
      slot-set_self out.0 newfd (some (record { file = file; cloexec = flags }))
        (omega (arith, a, b, c)) in
    (
      refl,
      l,
      file,
      g,
      rw (get, s) refl,
      (λ _. rw (get_flags, s) refl),
      λ i n.
          slot-set_ne out.0 newfd i _ (λ e. n (sym e))
          ∙ (slot-take_slot_ne others any_entry newfd i files closed (λ e. n (sym e))
              ∙ slot-resize t.files (newfd + 1) i),
    )

-- `dup2` on descriptors that are not negative. It answers with the new descriptor, which then has
-- the file that the old one has, and, unless they are the same, the flags given; no other descriptor
-- changes. Or it is EBADF, and nothing changes.
pub dup2-Duplicated :
    (others : ℕ → ℕ) (t : Filedesc) (closed : List ℕ) (oldfd newfd : ℕ) (flags : Bool)
    → Duplicated oldfd newfd flags
        (t, closed)
        (dup2 others (t, closed) (pos oldfd) (pos newfd) flags)
unfolding dup2
dup2-Duplicated others t closed oldfd newfd flags = elim (Bool-cases (leb t.max_files newfd)) [
  | inl e ↦ rw e (refl, refl, refl)
  | inr e ↦ rw e (known (get t (pos oldfd)) refl (ground (arith, e)))
]
  where
    known :
        (g : Result ℕ)
        → get t (pos oldfd) ≡ g
        → newfd < t.max_files
        → let out : Result ℕ × Filedesc × List ℕ = elim g [
          | err e ↦ (err e, t, closed)
          | ok file ↦
              if oldfd == newfd
              then (ok newfd, t, closed)
              else let held : ℕ → ℕ = λ f. others f + (if f == file then 1 else 0) in
                let out = take_slot held any_entry newfd (resize t.files (newfd + 1), closed) in
                (
                  ok newfd,
                  record t {
                    files = set out.0 newfd (some (record { file = file; cloexec = flags }));
                  },
                  out.1,
                )
        ] in
          Duplicated oldfd newfd flags (t, closed) out
    known (err e) g l = (get-error t oldfd e g, refl, refl)
    known (ok file) g l = elim (Bool-cases (oldfd == newfd)) [
      | inl k ↦
          let q = (==_iff oldfd newfd).0 k in
          rw k (
            refl,
            l,
            file,
            g,
            subst (λ j. get t (pos j) ≡ ok file) q g,
            (λ n. absurd (n q)),
            λ i n. refl,
          )
      | inr k ↦
          rw k (
            moved (λ f. others f + (if f == file then 1 else 0)) t closed oldfd newfd file flags l
              g)
    ]
