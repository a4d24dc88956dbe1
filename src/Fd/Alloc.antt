-- ===== src/Fd/Alloc.antt =====
-- petra/src/fs/fd/fd.rs: allocating descriptors.
use petra_os.Common.{
  ℕ, ◌+◌, ◌≤◌, ◌<◌, ◌≡◌, ◌≢◌, ◌⊎◌, Option, none, some, List, leb, if◌then◌else◌, length,
}
use petra_os.Common.Errno.{einval, emfile, Result, ok, err}
use petra_os.Fd.{FdEntry, Filedesc, slot, resize}

-- The scan finds the first empty slot from `min_idx` on, `k` slots from where it starts.
record Found (files : List (Option FdEntry)) (min_idx idx r : ℕ) : Type 0 where
  k : ℕ
  at : r ≡ idx + k
  low : min_idx ≤ r
  inside : k < length files
  free : slot files k ≡ none
  used : (j : ℕ) → j < k → min_idx ≤ idx + j → slot files j ≢ none

-- What an allocation from `low` on must do, given its answer.
abbrev pub Lowest : ℕ → FdEntry → Filedesc → Result ℕ × Filedesc → Type 0
Lowest low entry t (err e, t') =
    ((i : ℕ) → slot t'.files i ≡ slot t.files i)
    × (length t'.files ≤ t.max_files)
    × ((t.max_files ≤ low) × (e ≡ einval)
        ⊎ ((e ≡ emfile) × ((i : ℕ) → low ≤ i → i < t.max_files → slot t.files i ≢ none)))
Lowest low entry t (ok fd, t') =
    (low ≤ fd)
    × (fd < t.max_files)
    × (slot t.files fd ≡ none)
    × (slot t'.files fd ≡ some entry)
    × ((i : ℕ) → low ≤ i → i < fd → slot t.files i ≢ none)
    × ((i : ℕ) → i ≢ fd → slot t'.files i ≡ slot t.files i)
    × (length t'.files ≤ t.max_files)

-- The table from which a slot is taken: resized where `low` is beyond its end.
abbrev grown : List (Option FdEntry) → ℕ → List (Option FdEntry)
grown files low = if leb (length files) low then resize files low else files
