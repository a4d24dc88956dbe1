-- ===== src/Msg/Counters.antt =====
-- petra/src/ipc/msg/mod.rs: the counters of a queue count its messages.
use petra_os.Common.{
  ℕ, suc, ◌+◌, ◌≤◌, ◌<◌, ◌≡◌, refl, sym, ap, ◌∙◌, subst, inl, inr, Bool, not, ◌&&◌, ◌||◌, Option,
  none, some, List, [], ◌∷◌, ◌++◌, arith, ltb, leb, ◌==◌, if◌then◌else◌, Bool-cases, Option-cases,
  if_cases, length, All, length-append, All-append, All-left, All-right,
}
use petra_os.Common.Errno.{result_cases, Errno, eintr, eagain, enomsg, Result, ok, err}
use petra_os.Common.Wait.{wait_until_keeps}
use petra_os.Common.Int.{ℤ, pos_part, neg_part}
use petra_os.Sem.{
  has, Cred, check_read_permission, check_write_permission, check_admin_permission, ipc_nowait,
}
use petra_os.Msg.{
  msgmax, msgmnb, msg_copy, Message, MsgQueue, World, has_room, enqueue, try_snd, try_rcv,
}
use petra_os.Msg.Call.{recheck, attempt_or_wait, check_queue, msg_snd, msg_rcv}
use petra_os.Msg.Registry.{Msgs, new_queue, msgctl_rmid, NewDs, msgctl_set}
use petra_os.Msg.Scan.{Split}
use petra_os.Msg.Receive.{Received, try_rcv-Received}

abbrev pub total : List Message → ℕ
total [] = 0
total (m ∷ ms) = length m.mtext + total ms

-- A message that may be queued.
abbrev pub Sendable : Message → Type 0
Sendable m = (0 < m.mtype) × (length m.mtext ≤ msgmax)

pub record Counted (q : MsgQueue) : Type 0 where
  pub number : q.qnum ≡ length q.messages
  pub bytes : q.cbytes ≡ total q.messages
  pub few : q.qnum ≤ msgmnb
  pub sound : All Sendable q.messages

total-append : (xs ys : List Message) → total (xs ++ ys) ≡ total xs + total ys
total-append [] ys = omega arith
total-append (x ∷ xs) ys = omega (arith, total-append xs ys)

module _ (ms : List Message) (i : ℕ) (s : Split ms i) where
  total-Split : total ms ≡ length s.found.mtext + total (s.before ++ s.after)
  total-Split =
      ap total s.whole
      ∙ total-append s.before (s.found ∷ s.after)
      ∙ omega (arith, total-append s.before s.after)

  length-Split : length ms ≡ suc (length (s.before ++ s.after))
  length-Split =
      ap length s.whole
      ∙ length-append s.before (s.found ∷ s.after)
      ∙ omega (arith, length-append s.before s.after)

  Sendable-Split : All Sendable ms → All Sendable (s.before ++ s.after)
  Sendable-Split h =
      let all = subst (All Sendable) s.whole h in
      All-append Sendable s.before s.after (All-left Sendable s.before (s.found ∷ s.after) all)
        (All-right Sendable s.before (s.found ∷ s.after) all).1

Received-Counted :
    (msgsz : ℕ) (typ : ℤ) (flg pid : ℕ) (w w' : World) (r : Option (Result (ℕ × List ℕ)))
    → Received msgsz typ flg pid w r w'
    → Counted w.queue
    → Counted w'.queue
Received-Counted msgsz typ flg pid w w' none g c =
    subst (λ (v : World). Counted v.queue) (sym g.0) c
Received-Counted msgsz typ flg pid w w' (some (err e)) g c =
    subst (λ (v : World). Counted v.queue) (sym g.0) c
Received-Counted msgsz typ flg pid w w' (some (ok (t, text))) g c =
    let (i, s, chosen, same, cut, fits, copied, taken) = g in
    elim (Bool-cases (has flg msg_copy)) [
      | inl k ↦ subst (λ (v : World). Counted v.queue) (sym (copied k)) c
      | inr k ↦
          subst (λ (v : World). Counted v.queue) (sym (taken k))
            (record {
              number = omega (arith, c.number, length-Split w.queue.messages i s);
              bytes = omega (arith, c.bytes, total-Split w.queue.messages i s);
              few = omega (arith, c.few);
              sound = Sendable-Split w.queue.messages i s c.sound;
            })
    ]

try_snd-Counted :
    (typ : ℕ) (text : List ℕ) (pid : ℕ) (w : World)
    → Sendable (record { mtype = typ; mtext = text })
    → Counted w.queue
    → Counted (try_snd typ text pid w).1.queue
unfolding try_snd has_room enqueue
try_snd-Counted typ text pid w h c =
    let P = λ (p : Option (Result (Unit {0})) × World). Counted p.1.queue in
    let sent : List Message = record { mtype = typ; mtext = text } ∷ [] in
    if_cases P w.queue.is_deleted (λ _. c)
      λ _.
        if_cases P (leb (w.queue.cbytes + length text) w.queue.qbytes && ltb w.queue.qnum msgmnb)
          (λ t. record {
            number = omega (arith, c.number, length-append w.queue.messages sent);
            bytes = omega (arith, c.bytes, total-append w.queue.messages sent);
            few = ground (arith, t);
            sound = All-append Sendable w.queue.messages sent c.sound (h, tt);
          })
          (λ _. c)

-- A call leaves a queue whose counters are right.
abbrev Leaves : {R : Type 0} → Option R × World → Type 0
Leaves p = Counted p.1.queue

module _ {R : Type 0} (once : World → Option (Result R) × World)
    (keep : (w : World) → Counted w.queue → Leaves (once w)) where
  recheck-Counted : (w : World) → Counted w.queue → Leaves (recheck once w)
  unfolding recheck
  recheck-Counted w c =
      elim (once w).0
        as (λ r. Leaves (elim r as (λ _. Option (Result R) × World) [
          | some x ↦ (some x, (once w).1)
          | none ↦ (if (once w).1.cancelled then some (err eintr) else none, (once w).1)
        ])) [ some x ↦ keep w c | none ↦ keep w c ]

  attempt_or_wait-Counted :
      (nowait : Bool) (refusal : Errno) (ws : List (World → World)) (w : World)
      → All (λ f. (v : World) → Counted v.queue → Counted (f v).queue) ws
      → Counted w.queue
      → Leaves (attempt_or_wait nowait refusal once ws w)
  unfolding attempt_or_wait
  attempt_or_wait-Counted nowait refusal ws w others c = elim (Option-cases (once w).0) [
    | inl p ↦
        rw (p, attempt_or_wait)
          (if_cases Leaves nowait (λ _. keep w c)
            λ _.
              wait_until_keeps (λ (v : World). Counted v.queue) (recheck once) recheck-Counted ws
                (once w).1 others (keep w c))
    | inr (x, p) ↦ rw (p, attempt_or_wait) (keep w c)
  ]

-- Another thread that keeps the counters right.
abbrev pub Careful : (World → World) → Type 0
Careful f = (v : World) → Counted v.queue → Counted (f v).queue

msg_snd-Counted :
    (found : Bool) (mtype : ℤ) (mtext : List ℕ) (flg : ℕ) (cred : Cred) (pid : ℕ)
    (ws : List (World → World)) (w : World)
    → All Careful ws
    → Counted w.queue
    → Leaves (msg_snd found mtype mtext flg cred pid ws w)
unfolding msg_snd
msg_snd-Counted found mtype mtext flg cred pid ws w others c =
    let typ = pos_part mtype in
    if_cases Leaves (typ == 0 || ltb msgmax (length mtext)) (λ _. c)
      λ t.
        result_cases Leaves (check_queue found check_write_permission cred w) (λ _. c)
          λ _.
            attempt_or_wait-Counted (try_snd typ mtext pid)
              (λ v. try_snd-Counted typ mtext pid v (ground (arith, t), ground (arith, t)))
              (has flg ipc_nowait) eagain ws w others c

msg_rcv-Counted :
    (found : Bool) (msgsz : ℕ) (typ : ℤ) (flg : ℕ) (cred : Cred) (pid : ℕ)
    (ws : List (World → World)) (w : World)
    → All Careful ws
    → Counted w.queue
    → Leaves (msg_rcv found msgsz typ flg cred pid ws w)
unfolding msg_rcv
msg_rcv-Counted found msgsz typ flg cred pid ws w others c =
    if_cases Leaves (has flg msg_copy && (not (has flg ipc_nowait) || ltb 0 (neg_part typ)))
      (λ _. c)
      λ _.
        result_cases Leaves (check_queue found check_read_permission cred w) (λ _. c)
          λ _.
            attempt_or_wait-Counted (try_rcv msgsz typ flg pid)
              (λ v.
                Received-Counted msgsz typ flg pid v (try_rcv msgsz typ flg pid v).1
                  (try_rcv msgsz typ flg pid v).0 (try_rcv-Received msgsz typ flg pid v))
              (has flg ipc_nowait) enomsg ws w others c

msgctl_set-Counted :
    (buf_ptr : ℕ) (get : Result NewDs) (cred : Cred) (now : ℕ) (q : MsgQueue)
    → Counted q
    → Counted (msgctl_set buf_ptr get cred now q).1
unfolding msgctl_set
msgctl_set-Counted buf_ptr get cred now q c =
    let P = λ (p : Result ℕ × MsgQueue). Counted p.1 in
    if_cases P (buf_ptr == 0) (λ _. c)
      λ _.
        result_cases P get (λ e. c)
          λ ds.
            if_cases P q.is_deleted (λ _. c)
              λ _.
                result_cases P (check_admin_permission q.perm cred) (λ e. c)
                  λ u.
                    if_cases P (ltb q.qbytes ds.qbytes && not (cred.uid == 0)) (λ _. c)
                      λ _. record {
                        number = c.number;
                        bytes = c.bytes;
                        few = c.few;
                        sound = c.sound;
                      }

msgctl_rmid-Counted :
    (msqid : ℕ) (cred : Cred) (q : MsgQueue) (reg : Msgs)
    → Counted q
    → Counted (msgctl_rmid msqid cred (q, reg)).1
unfolding msgctl_rmid
msgctl_rmid-Counted msqid cred q reg c =
    let P = λ (p : Result ℕ × MsgQueue × Msgs). Counted p.1 in
    if_cases P q.is_deleted (λ _. c)
      λ _.
        result_cases P (check_admin_permission q.perm cred) (λ e. c)
          λ u. record { number = c.number; bytes = c.bytes; few = c.few; sound = c.sound }

-- The counters of a queue are right when `msg_qnum` is the number of its messages and at most
-- 16384, `msg_cbytes` is the number of their bytes, and each message has a positive type and at
-- most 8192 bytes. They are right in a new queue, and sending and receiving (whatever careful
-- things other threads do while they sleep), IPC_SET and IPC_RMID keep them right.
pub calls-Counted :
    (found : Bool) (mtype : ℤ) (mtext : List ℕ) (msgsz flg : ℕ) (cred : Cred) (pid : ℕ)
    (ws : List (World → World)) (w : World) (buf_ptr : ℕ) (get : Result NewDs) (msqid : ℕ)
    (reg : Msgs)
    → All Careful ws
    → Counted w.queue
    → Counted (new_queue buf_ptr w.queue.perm w.now)
      × Counted (msg_snd found mtype mtext flg cred pid ws w).1.queue
      × Counted (msg_rcv found msgsz mtype flg cred pid ws w).1.queue
      × Counted (msgctl_set buf_ptr get cred w.now w.queue).1
      × Counted (msgctl_rmid msqid cred (w.queue, reg)).1
calls-Counted found mtype mtext msgsz flg cred pid ws w buf_ptr get msqid reg others c = (
  (unfold new_queue in record { number = refl; bytes = refl; few = omega arith; sound = tt }),
  msg_snd-Counted found mtype mtext flg cred pid ws w others c,
  msg_rcv-Counted found msgsz mtype flg cred pid ws w others c,
  msgctl_set-Counted buf_ptr get cred w.now w.queue c,
  msgctl_rmid-Counted msqid cred w.queue reg c,
)
