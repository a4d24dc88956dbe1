-- ===== src/Fd/Release.antt =====
-- petra/src/fs/fd/fd.rs: which descriptors the closing operations close.
use petra_os.Common.{
  ℕ, zero, suc, ◌+◌, ◌-◌, ◌≤◌, min, ◌≡◌, refl, ◌∙◌, subst, ◌≢◌, inl, inr, Bool, true, false, ◌&&◌,
  Option, none, some, List, [], arith, ltb, leb, ◌==◌, if◌then◌else◌, ==_iff, Bool-cases,
  Option-cases, if_cases, length,
}
use petra_os.Common.Errno.{ok}
use petra_os.Fd.{
  FdEntry, Filedesc, slot, refs, take_slot, take_slots, any_entry, close_range, close_on_exec,
  close_all,
}
use petra_os.Fd.Slots.{slot-set_self, slot-set_ne, slot_lt, slot_beyond, refs-none}
use petra_os.Fd.Hooks.{
  Once, Once-same, take_slot-none, take_slot_keeps, take_slot_takes, take_slots-Once,
}

-- What the test leaves of a slot.
abbrev pub left_in : (FdEntry → Bool) → Option FdEntry → Option FdEntry
left_in which none = none
left_in which (some e) = if which e then none else some e

slot-take_slot_self :
    (others : ℕ → ℕ) (which : FdEntry → Bool) (idx : ℕ) (files : List (Option FdEntry))
    (closed : List ℕ)
    → slot (take_slot others which idx (files, closed)).0 idx ≡ left_in which (slot files idx)
slot-take_slot_self others which idx files closed = elim (Option-cases (slot files idx)) [
  | inl n ↦ rw (take_slot-none others which idx files closed n, n) refl
  | inr (e, n) ↦ elim (Bool-cases (which e)) [
    | inr w ↦ rw (take_slot_keeps others which idx files closed e n w, n, w) refl
    | inl w ↦
        let s = slot-set_self files idx none (slot_lt files idx e n) in
        rw (take_slot_takes others which idx files closed e n w, s, n, w) refl
  ]
]

pub slot-take_slot_ne :
    (others : ℕ → ℕ) (which : FdEntry → Bool) (idx i : ℕ) (files : List (Option FdEntry))
    (closed : List ℕ)
    → idx ≢ i
    → slot (take_slot others which idx (files, closed)).0 i ≡ slot files i
slot-take_slot_ne others which idx i files closed h = elim (Option-cases (slot files idx)) [
  | inl n ↦ rw (take_slot-none others which idx files closed n) refl
  | inr (e, n) ↦ elim (Bool-cases (which e)) [
    | inr w ↦ rw (take_slot_keeps others which idx files closed e n w) refl
    | inl w ↦
        rw (take_slot_takes others which idx files closed e n w) (slot-set_ne files idx i none h)
  ]
]

abbrev pub between : ℕ → ℕ → ℕ → Bool
between first n i = leb first i && ltb i (first + n)

pub slot-take_slots :
    (others : ℕ → ℕ) (which : FdEntry → Bool) (n idx i : ℕ) (st : List (Option FdEntry) × List ℕ)
    → slot (take_slots others which n idx st).0 i
      ≡ (if between idx n i then left_in which (slot st.0 i) else slot st.0 i)
unfolding take_slots
slot-take_slots others which zero idx i st =
    let n : between idx 0 i ≡ false = ground arith in rw n refl
slot-take_slots others which (suc n) idx i st =
    let rest = slot-take_slots others which n (suc idx) i (take_slot others which idx st) in
    rest ∙ elim (Bool-cases (idx == i)) [
      | inl k ↦
          (let q = (==_iff idx i).0 k in
            let a : between (suc idx) n i ≡ false = ground (arith, k) in
            let b : between idx (suc n) i ≡ true = ground (arith, k) in
            rw (a, b)
              (subst (λ j. slot (take_slot others which idx st).0 j ≡ left_in which (slot st.0 j)) q
                (slot-take_slot_self others which idx st.0 st.1)))
      | inr k ↦
          (let a : between (suc idx) n i ≡ between idx (suc n) i = ground (arith, k) in
            rw (a, slot-take_slot_ne others which idx i st.0 st.1 (λ e. ground (arith, e, k))) refl)
    ]

left_in_any : (s : Option FdEntry) → left_in any_entry s ≡ none
left_in_any none = refl
left_in_any (some e) = refl

-- The hooks and the open descriptors after `close_range` without CLOEXEC.
close_range-closes :
    (others : ℕ → ℕ) (t : Filedesc) (closed : List ℕ) (first last : ℕ)
    → first ≤ last
    → let out = close_range others (t, closed) first last false in
      (out.0 ≡ ok tt)
      × Once others (t.files, closed) (out.1.files, out.2)
      × ((i : ℕ)
          → slot out.1.files i ≡ (if leb first i && leb i last then none else slot t.files i))
unfolding close_range
close_range-closes others t closed first last h =
    let l : ltb last first ≡ false = ground (arith, h) in
    let n = suc (min last (length t.files - 1)) - first in
    elim (Bool-cases (leb (length t.files) first)) [
      | inl k ↦
          rw (l, k)
            (
              refl,
              Once-same others (t.files, closed),
              λ i.
                  if_cases (λ z. slot t.files i ≡ z) (leb first i && leb i last)
                    (λ e. slot_beyond t.files i (ground (arith, e, k))) (λ _. refl),
            )
      | inr k ↦
          rw (l, k)
            (
              refl,
              take_slots-Once others any_entry n first (t.files, closed),
              λ i.
                  slot-take_slots others any_entry n first i (t.files, closed)
                  ∙ elim (Bool-cases (leb first i && leb i last)) [
                    | inr e ↦
                        (let b : between first n i ≡ false = ground (arith, e, k) in rw (e, b) refl)
                    | inl e ↦ rw e (
                        if_cases (λ z. z ≡ none) (between first n i)
                          (λ _. left_in_any (slot t.files i))
                          (λ b. slot_beyond t.files i (ground (arith, b, e, k, h))))
                  ],
            )
    ]

close_on_exec-closes :
    (others : ℕ → ℕ) (t : Filedesc) (closed : List ℕ)
    → let out = close_on_exec others (t, closed) in
      Once others (t.files, closed) (out.0.files, out.1)
      × ((i : ℕ) → slot out.0.files i ≡ left_in (λ e. e.cloexec) (slot t.files i))
unfolding close_on_exec
close_on_exec-closes others t closed = (
  take_slots-Once others (λ e. e.cloexec) (length t.files) 0 (t.files, closed),
  λ i.
      slot-take_slots others (λ e. e.cloexec) (length t.files) 0 i (t.files, closed)
      ∙ if_cases (λ z. z ≡ left_in (λ e. e.cloexec) (slot t.files i)) (between 0 (length t.files) i)
          (λ _. refl) (λ b. let s = slot_beyond t.files i (ground (arith, b)) in rw s refl),
)

close_all-closes :
    (others : ℕ → ℕ) (t : Filedesc) (closed : List ℕ)
    → let out = close_all others (t, closed) in
      Once others (t.files, closed) (out.0.files, out.1) × (out.0.files ≡ [])
unfolding close_all
close_all-closes others t closed =
    let n = length t.files in
    let end = take_slots others any_entry n 0 (t.files, closed) in
    let once = take_slots-Once others any_entry n 0 (t.files, closed) in
    let empty : (i : ℕ) → slot end.0 i ≡ none = λ i.
      slot-take_slots others any_entry n 0 i (t.files, closed)
      ∙ if_cases (λ z. z ≡ none) (between 0 n i) (λ _. left_in_any (slot t.files i))
          (λ b. slot_beyond t.files i (ground (arith, b))) in
    (
      (λ f.
          let z = refs-none f end.0 empty in
          let y : refs f [] ≡ 0 = refs-none f [] (λ i. slot_beyond [] i (omega arith)) in
          let o = once f in (omega (arith, y), ground (arith, o.1, z, y))),
      refl,
    )

-- Closing. Let others than this table hold some references to each file. `close_range` on a range
-- that is not reversed closes exactly the open descriptors of the range; `close_on_exec` exactly
-- those with FD_CLOEXEC; `close_all` leaves no descriptor. Each runs the close hook of a file once
-- if it took the table's last reference to it and no one else has any, and otherwise not at all.
pub closes_lem :
    (others : ℕ → ℕ) (t : Filedesc) (closed : List ℕ) (first last : ℕ)
    → first ≤ last
    → let range = close_range others (t, closed) first last false in
      let exec = close_on_exec others (t, closed) in
      let all = close_all others (t, closed) in
      ((range.0 ≡ ok tt)
        × Once others (t.files, closed) (range.1.files, range.2)
        × ((i : ℕ)
            → slot range.1.files i ≡ (if leb first i && leb i last then none else slot t.files i)))
      × (Once others (t.files, closed) (exec.0.files, exec.1)
          × ((i : ℕ) → slot exec.0.files i ≡ left_in (λ e. e.cloexec) (slot t.files i)))
      × (Once others (t.files, closed) (all.0.files, all.1) × (all.0.files ≡ []))
closes_lem others t closed first last h = (
  close_range-closes others t closed first last h,
  close_on_exec-closes others t closed,
  close_all-closes others t closed,
)
