-- ===== src/Msg/Choice.antt =====
-- petra/src/ipc/msg/mod.rs: which message `find_message_index` chooses.
use petra_os.Common.{
  ℕ, zero, suc, ◌≤◌, ◌<◌, ◌≡◌, refl, sym, ap, subst, inl, inr, true, false, Option, none, some,
  List, [], ◌∷◌, arith, ltb, ltb→lt, Bool-cases, length, All,
}
use petra_os.Common.Int.{ℤ, pos, negsuc}
use petra_os.Sem.{has}
use petra_os.Msg.{
  msg_except, msg_copy, i64_max, Message, MsgQueue, find_first, find_lowest, find_copy, matches,
  find_by_type, find_message_index,
}
use petra_os.Msg.Scan.{
  Split, get-Split, find_first-none, find_first-some, Lower, Lowest, find_lowest_lem,
}

-- `m`, between `before` and `after`, is the message that a receive asks for.
pub record Chosen (typ : ℤ) (flg : ℕ) (before : List Message) (m : Message) (after : List Message)
    : Type 0 where
  pub copied : has flg msg_copy ≡ true → typ ≡ pos (length before)
  pub any : has flg msg_copy ≡ false → typ ≡ pos 0 → before ≡ []
  pub typed :
      has flg msg_copy ≡ false
      → (n : ℕ) → typ ≡ pos (suc n)
      → (matches (has flg msg_except) (suc n) m ≡ true)
        × All (λ x. matches (has flg msg_except) (suc n) x ≡ false) before
  pub lowest :
      has flg msg_copy ≡ false
      → (n : ℕ) → typ ≡ negsuc n
      → (m.mtype ≤ suc n)
        × All (λ x. x.mtype ≤ suc n → m.mtype < x.mtype) before
        × All (λ x. x.mtype ≤ suc n → m.mtype ≤ x.mtype) after

-- No message of the list is asked for.
pub record Unmatched (typ : ℤ) (flg : ℕ) (ms : List Message) : Type 0 where
  pub copied : has flg msg_copy ≡ true → (n : ℕ) → typ ≡ pos n → length ms ≤ n
  pub any : has flg msg_copy ≡ false → typ ≡ pos 0 → ms ≡ []
  pub typed :
      has flg msg_copy ≡ false
      → (n : ℕ) → typ ≡ pos (suc n)
      → All (λ x. matches (has flg msg_except) (suc n) x ≡ false) ms
  pub lowest :
      has flg msg_copy ≡ false
      → (n : ℕ) → typ ≡ negsuc n
      → All (λ x. x.mtype ≤ suc n → i64_max ≤ x.mtype) ms

abbrev pub Answers : ℤ → ℕ → List Message → Option ℕ → Type 0
Answers typ flg ms none = Unmatched typ flg ms
Answers typ flg ms (some i) = (s : Split ms i) × Chosen typ flg s.before s.found s.after

copy-Answers :
    (typ : ℤ) (flg : ℕ) (ms : List Message)
    → has flg msg_copy ≡ true
    → Answers typ flg ms (find_copy ms typ)
unfolding find_copy
copy-Answers (negsuc n) flg ms c = record {
  copied = λ _ k e. absurd (cc);
  any = λ d. absurd (cc);
  typed = λ d. absurd (cc);
  lowest = λ d. absurd (cc);
}
copy-Answers (pos n) flg ms c = elim (Bool-cases (ltb n (length ms))) [
  | inl t ↦
      let s = get-Split ms n (ltb→lt n (length ms) t) in
      rw t (
        s,
        record {
          copied = λ _. ap pos (sym s.place);
          any = λ d. absurd (cc);
          typed = λ d. absurd (cc);
          lowest = λ d. absurd (cc);
        },
      )
  | inr t ↦ rw t (record {
    copied = λ _ k e. ground (arith, t, e);
    any = λ d. absurd (cc);
    typed = λ d. absurd (cc);
    lowest = λ d. absurd (cc);
  })
]

first-Answers :
    (n flg : ℕ) (ms : List Message)
    → has flg msg_copy ≡ false
    → (found : Option ℕ) → find_first (matches (has flg msg_except) (suc n)) 0 ms ≡ found
    → Answers (pos (suc n)) flg ms found
first-Answers n flg ms c none e = record {
  copied = λ d. absurd (cc);
  any = λ _ d. absurd (cc);
  typed = λ _ k d.
      let same : n ≡ k = cc in
      subst (λ j. All (λ x. matches (has flg msg_except) (suc j) x ≡ false) ms) same
        (find_first-none (matches (has flg msg_except) (suc n)) 0 ms e);
  lowest = λ _ k d. absurd (cc);
}
first-Answers n flg ms c (some i) e =
    let (s, low, passes, quiet) = find_first-some (matches (has flg msg_except) (suc n)) 0 i ms e in
    (
      record {
        before = s.before;
        found = s.found;
        after = s.after;
        whole = s.whole;
        place = omega (arith, s.place);
      },
      record {
        copied = λ d. absurd (cc);
        any = λ _ d. absurd (cc);
        typed = λ _ k d.
            let same : n ≡ k = cc in
            subst
              (λ j.
                (matches (has flg msg_except) (suc j) s.found ≡ true)
                × All (λ x. matches (has flg msg_except) (suc j) x ≡ false) s.before)
              same (passes, quiet);
        lowest = λ _ k d. absurd (cc);
      },
    )

lowest-Unmatched :
    (n flg : ℕ) (ms : List Message)
    → has flg msg_copy ≡ false
    → Lower (suc n) i64_max ms
    → Unmatched (negsuc n) flg ms
unfolding Lower
lowest-Unmatched n flg ms c low = record {
  copied = λ d. absurd (cc);
  any = λ _ d. absurd (cc);
  typed = λ _ k d. absurd (cc);
  lowest = λ _ k d.
      let same : n ≡ k = cc in
      subst (λ j. All (λ x. x.mtype ≤ suc j → i64_max ≤ x.mtype) ms) same low;
}

Lowest-Chosen :
    (n flg i : ℕ) (ms : List Message) (s : Lowest (suc n) 0 i64_max ms i)
    → has flg msg_copy ≡ false
    → Chosen (negsuc n) flg s.here.before s.here.found s.here.after
Lowest-Chosen n flg i ms s c = record {
  copied = λ d. absurd (cc);
  any = λ _ d. absurd (cc);
  typed = λ _ k d. absurd (cc);
  lowest = λ _ k d.
      let same : n ≡ k = cc in
      subst
        (λ j.
          (s.here.found.mtype ≤ suc j)
          × All (λ x. x.mtype ≤ suc j → s.here.found.mtype < x.mtype) s.here.before
          × All (λ x. x.mtype ≤ suc j → s.here.found.mtype ≤ x.mtype) s.here.after)
        same (s.fits, s.first, s.least);
}

lowest-Answers :
    (n flg : ℕ) (ms : List Message)
    → has flg msg_copy ≡ false
    → Answers (negsuc n) flg ms (find_lowest (suc n) 0 i64_max none ms)
lowest-Answers n flg ms c = elim (find_lowest_lem (suc n) 0 i64_max none ms) [
  | inl (e, low) ↦ rw e (lowest-Unmatched n flg ms c low)
  | inr (i, e, s) ↦ rw e (
    record {
      before = s.here.before;
      found = s.here.found;
      after = s.here.after;
      whole = s.here.whole;
      place = omega (arith, s.here.place);
    },
    Lowest-Chosen n flg i ms s c,
  )
]

any-Answers :
    (flg : ℕ) (ms : List Message)
    → has flg msg_copy ≡ false
    → Answers (pos 0) flg ms (find_by_type ms (pos 0) flg)
unfolding find_by_type
any-Answers flg [] c = record {
  copied = λ d. absurd (cc);
  any = λ _ _. refl;
  typed = λ _ k d. absurd (cc);
  lowest = λ _ k d. absurd (cc);
}
any-Answers flg (m ∷ ms) c = (
  record { before = []; found = m; after = ms; whole = refl; place = refl },
  record {
    copied = λ d. absurd (cc);
    any = λ _ _. refl;
    typed = λ _ k d. absurd (cc);
    lowest = λ _ k d. absurd (cc);
  },
)

by_type-Answers :
    (typ : ℤ) (flg : ℕ) (ms : List Message)
    → has flg msg_copy ≡ false
    → Answers typ flg ms (find_by_type ms typ flg)
by_type-Answers (pos zero) flg ms c = any-Answers flg ms c
by_type-Answers (pos (suc n)) flg [] c = unfold find_by_type in first-Answers n flg [] c _ refl
by_type-Answers (pos (suc n)) flg (m ∷ ms) c =
    unfold find_by_type in first-Answers n flg (m ∷ ms) c _ refl
by_type-Answers (negsuc n) flg [] c = unfold find_by_type in lowest-Answers n flg [] c
by_type-Answers (negsuc n) flg (m ∷ ms) c = unfold find_by_type in lowest-Answers n flg (m ∷ ms) c

pub find_message_index-Answers :
    (q : MsgQueue) (typ : ℤ) (flg : ℕ) → Answers typ flg q.messages (find_message_index q typ flg)
unfolding find_message_index
find_message_index-Answers q typ flg = elim (Bool-cases (has flg msg_copy)) [
  | inl c ↦ rw (c, find_message_index) (copy-Answers typ flg q.messages c)
  | inr c ↦ rw (c, find_message_index) (by_type-Answers typ flg q.messages c)
]
