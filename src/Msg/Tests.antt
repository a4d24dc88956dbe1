-- ===== src/Msg/Tests.antt =====
-- petra/src/ipc/msg: runs of the model, and the theorems at a queue of three messages.
use petra_os.Common.{ℕ, ◌-◌, ◌≡◌, refl, true, false, none, some, [], ◌∷◌, arith}
use petra_os.Common.Errno.{eintr, efault, ok, err}
use petra_os.Common.Wait.{wait_until}
use petra_os.Common.Int.{pos, negsuc}
use petra_os.Sem.{has, Cred, check_perm, check_read_permission}
use petra_os.Msg.{
  msgmnb, i64_max, Message, MsgQueue, size, find_first, find_lowest, find_by_type,
  find_message_index, remove_at, World, take_message, try_rcv,
}
use petra_os.Msg.Call.{recheck, attempt_or_wait, check_queue, msg_snd, msg_rcv}
use petra_os.Msg.Registry.{Msgs, new_queue, msgctl_rmid, msgctl_set}
use petra_os.Msg.Counters.{Counted, calls-Counted}

abbrev message : ℕ → ℕ → Message
message typ b = record { mtype = typ; mtext = b ∷ [] }

abbrev root : Cred
root = record { uid = 0; gid = 0 }

abbrev three : MsgQueue
three = record {
  key = 5;
  perm = record { uid = 0; gid = 0; cuid = 0; cgid = 0; mode = 0o600 };
  stime = 0;
  rtime = 0;
  ctime = 0;
  cbytes = 3;
  qnum = 3;
  qbytes = msgmnb;
  lspid = 0;
  lrpid = 0;
  messages = message 4 b'a' ∷ message 2 b'b' ∷ message 2 b'c' ∷ [];
  is_deleted = false;
}

abbrev world : World
world = record { queue = three; now = 9; cancelled = false }

three-Counted : Counted three
three-Counted = record {
  number = refl;
  bytes = refl;
  few = omega arith;
  sound =
      ((omega arith, omega arith), ((omega arith, omega arith), ((omega arith, omega arith), tt)));
}

-- The first of the two messages of the lowest type.
receives_lowest : (try_rcv 10 (negsuc 6) 0 7 world).0 ≡ some (ok (2, b'b' ∷ []))
unfolding try_rcv find_message_index find_by_type find_lowest take_message size remove_at
receives_lowest = refl

-- A message of the greatest type is passed over.
passes_over :
    find_message_index
      (record three { messages = message i64_max b'z' ∷ [] })
      (negsuc (i64_max - 1))
      0
    ≡ none
unfolding find_message_index find_by_type find_lowest
passes_over = refl

cancelled_sleep :
    (msg_rcv true 10 (pos 9) 0 root 7 ((λ w. record w { cancelled = true }) ∷ []) world).0
    ≡ some (err eintr)
unfolding msg_rcv attempt_or_wait recheck try_rcv find_message_index find_by_type find_first
    take_message size has wait_until check_queue check_read_permission check_perm
cancelled_sleep = refl

abbrev registry : Msgs
registry = record { objects = (1, three) ∷ []; keys = (5, 1) ∷ []; now = 9 }

calls-Counted_example :
    Counted (new_queue 3 three.perm 9)
    × Counted (msg_snd true (pos 2) (1 ∷ 2 ∷ []) 0 root 7 [] world).1.queue
    × Counted (msg_rcv true 10 (pos 2) 0 root 7 [] world).1.queue
    × Counted (msgctl_set 3 (err efault) root 9 three).1
    × Counted (msgctl_rmid 1 root (three, registry)).1
calls-Counted_example =
    calls-Counted true (pos 2) (1 ∷ 2 ∷ []) 10 0 root 7 [] world 3 (err efault) 1 registry tt
      three-Counted
