-- ===== src/Msg/Receive.antt =====
-- petra/src/ipc/msg/mod.rs: what an attempt to receive does to the queue.
use petra_os.Common.{
  if_true, if_false, ℕ, ◌-◌, ◌≤◌, ◌<◌, min, ◌≡◌, refl, sym, ap, ap₂, ◌∙◌, subst, ◌⊎◌, inl, inr,
  Bool, true, false, not, ◌&&◌, Option, none, some, List, [], ◌∷◌, ◌++◌, arith, ltb, if◌then◌else◌,
  Bool-cases, if_cases, length, get_elem?, take, take_all,
}
use petra_os.Common.Errno.{e2big, eidrm, Result, ok, err}
use petra_os.Common.Int.{ℤ}
use petra_os.Sem.{has}
use petra_os.Msg.{
  msg_noerror, msg_copy, Message, size, find_message_index, remove_at, World, dequeue, take_message,
  try_rcv,
}
use native.Mathlib.Decide.{dec_le}
use petra_os.Msg.Scan.{Split}
use petra_os.Msg.Choice.{Chosen, Unmatched, Answers, find_message_index-Answers}

get_elem?-middle :
    (before : List Message) (m : Message) (after : List Message)
    → get_elem? (before ++ m ∷ after) (length before) ≡ some m
get_elem?-middle [] m after = refl
get_elem?-middle (b ∷ before) m after = get_elem?-middle before m after

remove_at-middle :
    (before : List Message) (m : Message) (after : List Message)
    → remove_at (length before) (before ++ m ∷ after) ≡ before ++ after
unfolding remove_at
remove_at-middle [] m after = refl
remove_at-middle (b ∷ before) m after = ap (λ l. b ∷ l) (remove_at-middle before m after)

module _ (ms : List Message) (i : ℕ) (s : Split ms i) where
  get_elem?-Split : get_elem? ms i ≡ some s.found
  get_elem?-Split =
      ap₂ (λ l j. get_elem? l j) s.whole (sym s.place) ∙ get_elem?-middle s.before s.found s.after

  remove_at-Split : remove_at i ms ≡ s.before ++ s.after
  remove_at-Split =
      ap₂ (λ l j. remove_at j l) s.whole (sym s.place) ∙ remove_at-middle s.before s.found s.after

-- What an attempt to receive gives, by its result.
abbrev pub Received : ℕ → ℤ → ℕ → ℕ → World → Option (Result (ℕ × List ℕ)) → World → Type 0
Received msgsz typ flg pid w none w' =
    (w' ≡ w) × (w.queue.is_deleted ≡ false) × Unmatched typ flg w.queue.messages
Received msgsz typ flg pid w (some (err e)) w' =
    (w' ≡ w)
    × (((e ≡ eidrm) × (w.queue.is_deleted ≡ true))
        ⊎ ((e ≡ e2big)
            × (i : ℕ) × (s : Split w.queue.messages i) × Chosen typ flg s.before s.found s.after
            × (msgsz < length s.found.mtext)
            × (has flg msg_noerror ≡ false)))
Received msgsz typ flg pid w (some (ok (mtype, text))) w' =
    (i : ℕ) × (s : Split w.queue.messages i) × Chosen typ flg s.before s.found s.after
    × (mtype ≡ s.found.mtype)
    × (text ≡ take msgsz s.found.mtext)
    × ((length s.found.mtext ≤ msgsz) ⊎ (has flg msg_noerror ≡ true))
    × (has flg msg_copy ≡ true → w' ≡ w)
    × (has flg msg_copy ≡ false
        → w' ≡ record w {
          queue = record w.queue {
            messages = s.before ++ s.after;
            cbytes = w.queue.cbytes - length s.found.mtext;
            qnum = w.queue.qnum - 1;
            lrpid = pid;
            rtime = w.now;
          };
        })

take-min : (n : ℕ) (l : List ℕ) → take (min (length l) n) l ≡ take n l
take-min n l = elim (dec_le (length l) n) [
  | yes h ↦
      let whole : min (length l) n ≡ length l = omega arith in
      ap (λ k. take k l) whole ∙ take_all (length l) l (omega arith) ∙ sym (take_all n l h)
  | no h ↦ let part : min (length l) n ≡ n = omega arith in ap (λ k. take k l) part
]

fits_or : (a b : ℕ) (c : Bool) → (ltb a b && not c) ≡ false → (b ≤ a) ⊎ (c ≡ true)
fits_or a b true h = inr refl
fits_or a b false h = inl (ground (arith, h))

abbrev Gives : ℕ → ℤ → ℕ → ℕ → World → Option (Result (ℕ × List ℕ)) × World → Type 0
Gives msgsz typ flg pid w p = Received msgsz typ flg pid w p.0 p.1

module _ (msgsz : ℕ) (typ : ℤ) (flg pid : ℕ) (w : World) where
  dequeue-Split :
      (i : ℕ) (s : Split w.queue.messages i)
      → record w { queue = dequeue i s.found pid w.now w.queue } ≡ record w {
        queue = record w.queue {
          messages = s.before ++ s.after;
          cbytes = w.queue.cbytes - length s.found.mtext;
          qnum = w.queue.qnum - 1;
          lrpid = pid;
          rtime = w.now;
        };
      }
  unfolding dequeue size
  dequeue-Split i s =
      ap
        (λ l. record w {
          queue = record w.queue {
            messages = l;
            cbytes = w.queue.cbytes - length s.found.mtext;
            qnum = w.queue.qnum - 1;
            lrpid = pid;
            rtime = w.now;
          };
        })
        (remove_at-Split w.queue.messages i s)

  take_message-found :
      (i : ℕ) (m : Message)
      → get_elem? w.queue.messages i ≡ some m
      → take_message i msgsz flg pid w ≡ (
          if ltb msgsz (length m.mtext) && not (has flg msg_noerror)
          then (some (err e2big), w)
          else (
            some (ok (m.mtype, take (min (length m.mtext) msgsz) m.mtext)),
            if has flg msg_copy then w else record w { queue = dequeue i m pid w.now w.queue },
          ))
  unfolding take_message size
  take_message-found i m e = rw (e, take_message) refl

  take_message-Gives :
      (i : ℕ) (s : Split w.queue.messages i)
      → Chosen typ flg s.before s.found s.after
      → Gives msgsz typ flg pid w (take_message i msgsz flg pid w)
  take_message-Gives i s c =
      let m = s.found in
      let taken = take_message-found i m (get_elem?-Split w.queue.messages i s) in
      subst (Gives msgsz typ flg pid w) (sym taken) (
        if_cases (Gives msgsz typ flg pid w)
          (ltb msgsz (length m.mtext) && not (has flg msg_noerror))
          (λ t. (refl, inr (refl, i, s, c, ground (arith, t), ground (arith, t))))
          λ t. (
            i,
            s,
            c,
            refl,
            take-min msgsz m.mtext,
            fits_or msgsz (length m.mtext) (has flg msg_noerror) t,
            (λ k. rw k refl),
            λ k. rw k (dequeue-Split i s),
          ))

  try_rcv-live :
      w.queue.is_deleted ≡ false
      → try_rcv msgsz typ flg pid w ≡ elim (find_message_index w.queue typ flg) [
        | none ↦ (none, w)
        | some i ↦ take_message i msgsz flg pid w
      ]
  unfolding try_rcv
  try_rcv-live d = if_false w.queue.is_deleted (some (err eidrm), w) d

  try_rcv-deleted : w.queue.is_deleted ≡ true → try_rcv msgsz typ flg pid w ≡ (some (err eidrm), w)
  unfolding try_rcv
  try_rcv-deleted d = if_true w.queue.is_deleted _ d

searched :
    (msgsz : ℕ) (typ : ℤ) (flg pid : ℕ) (w : World)
    → w.queue.is_deleted ≡ false
    → (found : Option ℕ) → Answers typ flg w.queue.messages found
    → Gives msgsz typ flg pid w
        (elim found [ none ↦ (none, w) | some i ↦ take_message i msgsz flg pid w ])
searched msgsz typ flg pid w d none a = (refl, d, a)
searched msgsz typ flg pid w d (some i) (s, c) = take_message-Gives msgsz typ flg pid w i s c

pub try_rcv-Received :
    (msgsz : ℕ) (typ : ℤ) (flg pid : ℕ) (w : World)
    → Received msgsz typ flg pid w (try_rcv msgsz typ flg pid w).0 (try_rcv msgsz typ flg pid w).1
try_rcv-Received msgsz typ flg pid w = elim (Bool-cases w.queue.is_deleted) [
  | inl d ↦
      subst (Gives msgsz typ flg pid w) (sym (try_rcv-deleted msgsz typ flg pid w d))
        (refl, inl (refl, d))
  | inr d ↦ subst (Gives msgsz typ flg pid w) (sym (try_rcv-live msgsz typ flg pid w d)) (
      searched msgsz typ flg pid w d (find_message_index w.queue typ flg)
        (find_message_index-Answers w.queue typ flg))
]
