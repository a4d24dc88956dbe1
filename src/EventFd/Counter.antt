-- ===== src/EventFd/Counter.antt =====
-- petra/src/fs/fd/event_fd.rs: what the calls do to the counter.
use petra_os.Common.{
  ℕ, ◌+◌, ◌-◌, ◌^◌, ◌≤◌, ◌<◌, ◌≡◌, refl, sym, ap, ◌∙◌, subst, ◌≢◌, ◌↔◌, ◌⊎◌, inl, inr, Bool, true,
  false, ◌||◌, Option, none, some, List, arith, ltb, leb, ◌==◌, if◌then◌else◌, Bool-cases,
  Option-cases, if_cases, All,
}
use petra_os.Common.Errno.{eintr, eagain, Result, ok, err}
use petra_os.Common.Wait.{wait_until, wait_until_keeps, wait_until_attempt}
use petra_os.EventFd.{
  eventfd_max_counter, eventfd_payload_size, EventFd, try_consume, consume_event, try_post,
  post_event, poll_events, read_file, write_file,
}

abbrev pub Bounded : EventFd → Type 0
Bounded w = w.counter ≤ eventfd_max_counter

try_consume-Bounded : (w : EventFd) → Bounded w → Bounded (try_consume w).1
unfolding try_consume
try_consume-Bounded w h = elim (Bool-cases (ltb 0 w.counter)) [
  | inl e ↦ (elim (Bool-cases w.is_semaphore) [
    | inl s ↦ rw (e, s) (omega (arith, h))
    | inr s ↦ rw (e, s) (omega arith)
  ])
  | inr e ↦ rw e h
]

try_post-Bounded : (inc : ℕ) (w : EventFd) → Bounded w → Bounded (try_post inc w).1
unfolding try_post
try_post-Bounded inc w h = elim (Bool-cases (leb inc (eventfd_max_counter - w.counter))) [
  | inl e ↦ rw e (ground (arith, e, h))
  | inr e ↦ rw e h
]

-- A whole call makes its attempt at one moment, or gives up on a non-blocking descriptor.
module _ (attempt : EventFd → Option (Result ℕ) × EventFd) (nonblocking : Bool)
    (ws : List (EventFd → EventFd)) (w : EventFd) where
  abbrev whole : Option (Result ℕ) × EventFd
  whole =
      let (r, w') = attempt w in
      elim r [
        | some x ↦ (some x, w')
        | none ↦ if nonblocking then (some (err eagain), w') else wait_until attempt ws w'
      ]

  whole-attempt :
      (x : Result ℕ)
      → whole.0 ≡ some x
      → ((t : EventFd) × (attempt t ≡ (some x, whole.1)))
        ⊎ ((nonblocking ≡ true) × (x ≡ err eagain))
  whole-attempt x h = elim (Option-cases (attempt w).0) [
    | inr (y, e) ↦ inl (w, ground (arith, h, e))
    | inl e ↦ elim (Bool-cases nonblocking) [
      | inl n ↦ inr (n, ground (arith, h, e, n))
      | inr n ↦
          let q : whole ≡ wait_until attempt ws (attempt w).1 = rw (whole, e, n) refl in
          let found = wait_until_attempt attempt ws (attempt w).1 x (ap (λ p. p.0) (sym q) ∙ h) in
          inl (found.0, found.1 ∙ ap (λ p. (some x, p.1)) (sym q))
    ]
  ]

  whole-Bounded :
      ((t : EventFd) → Bounded t → Bounded (attempt t).1)
      → All (λ m. (t : EventFd) → Bounded t → Bounded (m t)) ws
      → Bounded w
      → Bounded whole.1
  whole-Bounded keep others h = elim (Option-cases (attempt w).0) [
    | inr (y, e) ↦ rw (whole, e) (keep w h)
    | inl e ↦ elim (Bool-cases nonblocking) [
      | inl n ↦ rw (whole, e, n) (keep w h)
      | inr n ↦
          rw (whole, e, n)
            (wait_until_keeps Bounded attempt keep ws (attempt w).1 others (keep w h))
    ]
  ]

-- What an attempt to read must do, from the state `t` to `w`, given its answer.
abbrev pub Took : Result ℕ → EventFd → EventFd → Type 0
Took (ok v) t w =
    (0 < v)
    × (t.counter ≡ v + w.counter)
    × ((t.is_semaphore ≡ true → v ≡ 1) × (t.is_semaphore ≡ false → w.counter ≡ 0))
Took (err e) t w = (e ≡ eintr) × (t.counter ≡ 0) × (w ≡ t)

-- What an attempt to add `inc` must do.
abbrev pub Posted : ℕ → Result ℕ → EventFd → EventFd → Type 0
Posted inc (ok n) t w = (n ≡ 8) × (w.counter ≡ t.counter + inc)
Posted inc (err e) t w = (e ≡ eintr) × (eventfd_max_counter < t.counter + inc) × (w ≡ t)

-- An attempt that answers does so in the way `P` says.
abbrev Answers : (Result ℕ → EventFd → Type 0) → Option (Result ℕ) × EventFd → Type 0
Answers P (none, w) = Unit {0}
Answers P (some x, w) = P x w

try_consume-Answers : (t : EventFd) → Answers (λ x w. Took x t w) (try_consume t)
unfolding try_consume
try_consume-Answers t = elim (Bool-cases (ltb 0 t.counter)) [
  | inl e ↦ elim (Bool-cases t.is_semaphore) [
    | inl s ↦
        rw (e, s)
          (omega arith, ground (arith, e), ((λ _. refl), λ f. absurd (ground (arith, s, f))))
    | inr s ↦
        rw (e, s)
          (ground (arith, e), omega arith, ((λ f. absurd (ground (arith, s, f))), λ _. refl))
  ]
  | inr e ↦ elim (Bool-cases t.interrupted) [
    | inl i ↦ rw (e, i) (refl, ground (arith, e), refl)
    | inr i ↦ rw (e, i) tt
  ]
]

try_post-Answers : (inc : ℕ) (t : EventFd) → Answers (λ x w. Posted inc x t w) (try_post inc t)
unfolding try_post
try_post-Answers inc t = elim (Bool-cases (leb inc (eventfd_max_counter - t.counter))) [
  | inl e ↦ rw e (refl, refl)
  | inr e ↦ elim (Bool-cases t.interrupted) [
    | inl i ↦ rw (e, i) (refl, ground (arith, e), refl)
    | inr i ↦ rw (e, i) tt
  ]
]

-- Every answer of a call has its moment `t`, or is EAGAIN on a non-blocking descriptor. A read took
-- a positive value off the counter at `t`: 1 in semaphore mode, and all of it otherwise; or the
-- counter was 0 and it is EINTR. A write added its value at `t`, or the sum would have passed the
-- maximum and it is EINTR. An error changes nothing at `t`.
answers_lem :
    (nonblocking : Bool) (inc : ℕ) (ws : List (EventFd → EventFd)) (w : EventFd) (x : Result ℕ)
    → let r = consume_event nonblocking ws w in
      let s = post_event inc nonblocking ws w in
      (r.0 ≡ some x → ((t : EventFd) × Took x t r.1) ⊎ ((nonblocking ≡ true) × (x ≡ err eagain)))
      × (s.0 ≡ some x
          → ((t : EventFd) × Posted inc x t s.1) ⊎ ((nonblocking ≡ true) × (x ≡ err eagain)))
unfolding consume_event post_event
answers_lem nonblocking inc ws w x = (
  λ h. elim (whole-attempt try_consume nonblocking ws w x h) [
    | inl (t, e) ↦ inl (t, subst (Answers (λ y v. Took y t v)) e (try_consume-Answers t))
    | inr n ↦ inr n
  ],
  λ h. elim (whole-attempt (try_post inc) nonblocking ws w x h) [
    | inl (t, e) ↦ inl (t, subst (Answers (λ y v. Posted inc y t v)) e (try_post-Answers inc t))
    | inr n ↦ inr n
  ],
)

-- Reads and writes, whatever careful things the other threads do meanwhile, keep the counter at
-- most 2^64 - 2, so that the sum in a write does not wrap around.
pub calls-Bounded :
    (len inc : ℕ) (nonblocking : Bool) (ws : List (EventFd → EventFd)) (w : EventFd)
    → All (λ m. (t : EventFd) → Bounded t → Bounded (m t)) ws
    → Bounded w
    → Bounded (read_file len nonblocking ws w).1 × Bounded (write_file len inc nonblocking ws w).1
unfolding read_file write_file consume_event post_event
calls-Bounded len inc nonblocking ws w others h = (
  if_cases (λ (o : Option (Result ℕ) × EventFd). Bounded o.1) (ltb len eventfd_payload_size)
      (λ _. h) (λ _. whole-Bounded try_consume nonblocking ws w try_consume-Bounded others h),
  if_cases (λ (o : Option (Result ℕ) × EventFd). Bounded o.1)
      (ltb len eventfd_payload_size || inc == 2 ^ 64 - 1) (λ _. h)
      (λ _. whole-Bounded (try_post inc) nonblocking ws w (try_post-Bounded inc) others h),
)

-- Readiness is exact while the thread is not to be interrupted: the counter polls readable exactly
-- when an attempt to read answers, and writable exactly when an attempt to add 1 answers.
poll_events_exact :
    (w : EventFd)
    → w.interrupted ≡ false
    → (((poll_events w).0 ≡ true) ↔ ((try_consume w).0 ≢ none))
      × (((poll_events w).1 ≡ true) ↔ ((try_post 1 w).0 ≢ none))
unfolding poll_events try_consume try_post
poll_events_exact w h = (
  elim (Bool-cases (ltb 0 w.counter)) [
    | inl e ↦ elim (Bool-cases w.is_semaphore) [
      | inl s ↦ rw (e, s) ((λ _ z. absurd (cc)), λ _. refl)
      | inr s ↦ rw (e, s) ((λ _ z. absurd (cc)), λ _. refl)
    ]
    | inr e ↦ rw (e, h) ((λ z. absurd (cc)), λ z. absurd (z refl))
  ],
  elim (Bool-cases (ltb w.counter eventfd_max_counter)) [
    | inl e ↦
        (let f : leb 1 (eventfd_max_counter - w.counter) ≡ true = ground (arith, e) in
          rw (e, f) ((λ _ z. absurd (cc)), λ _. refl))
    | inr e ↦
        (let f : leb 1 (eventfd_max_counter - w.counter) ≡ false = ground (arith, e) in
          rw (e, f, h) ((λ z. absurd (cc)), λ z. absurd (z refl)))
  ],
)
