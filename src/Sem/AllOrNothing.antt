-- ===== src/Sem/AllOrNothing.antt =====
-- petra/src/ipc/sem/mod.rs: `sem_op` carries out all of its operations or none.
use petra_os.Common.{
  ℕ, zero, suc, ◌≡◌, refl, sym, ap, ◌∙◌, subst, ◌≢◌, ◌⊎◌, inl, inr, Bool, true, false, ◌||◌, Option,
  none, some, List, [], ◌∷◌, arith, Bool-cases, Option-cases, if_cases, get_elem?, set, All,
}
use petra_os.Common.Errno.{eintr, eagain, eidrm, Result, ok, err}
use petra_os.Common.Wait.{wait_until, wait_until_rule}
use petra_os.Common.Int.{ℤ, pos, negsuc}
use petra_os.Sem.{
  ipc_nowait, has, Semaphore, SemBuf, Cred, can_execute_ops, Undo, apply_ops, apply_so_far,
}
use petra_os.Sem.Call.{
  Reply, done, panic, fail, World, attempt, recheck, wait_on, count_waits, count_world, enter,
  leave, sleep, admit, any_of, perform, sem_op,
}

abbrev pub vals : List Semaphore → List ℕ
vals [] = []
vals (s ∷ ss) = s.val ∷ vals ss

vals-set :
    (sems : List Semaphore) (i : ℕ) (s s' : Semaphore)
    → get_elem? sems i ≡ some s
    → s'.val ≡ s.val
    → vals (set sems i s') ≡ vals sems
vals-set [] i s s' e h = refl
vals-set (x ∷ xs) zero s s' e h = ground (arith, e, h)
vals-set (x ∷ xs) (suc i) s s' e h = ap (λ t. x.val ∷ t) (vals-set xs i s s' e h)

wait_on-val : (f : ℕ → ℕ) (op : ℤ) (s : Semaphore) → (wait_on f op s).val ≡ s.val
wait_on-val f (negsuc n) s = refl
wait_on-val f (pos zero) s = refl
wait_on-val f (pos (suc n)) s = refl

vals-count_waits :
    (f : ℕ → ℕ) (ops : List SemBuf) (sems : List Semaphore)
    → vals (count_waits f ops sems) ≡ vals sems
unfolding count_waits
vals-count_waits f [] sems = refl
vals-count_waits f (op ∷ ops) sems = elim (Option-cases (get_elem? sems op.sem_num)) [
  | inl e ↦ rw e (vals-count_waits f ops sems)
  | inr (s, e) ↦
      let s' = wait_on f op.sem_op s in
      rw e (
        vals-count_waits f ops (set sems op.sem_num s')
        ∙ vals-set sems op.sem_num s s' e (wait_on-val f op.sem_op s))
]

module _ {ℓ} (P : List ℕ → List Undo → Type ℓ) where
  -- `P` holds of the values and the undo records.
  abbrev pub Holds : World → Type ℓ
  Holds w = P (vals w.set.sems) w.undos

  -- What `done` promises: at one moment of the call, all the operations could go ahead, and all of
  -- them were carried out.
  abbrev pub Done : ℕ → List SemBuf → World → Type ℓ
  Done pid ops w' =
      (t : World) × Holds t
      × (can_execute_ops t.set.sems ops ≡ some (ok true))
      × (sems : List Semaphore) × (apply_ops pid t.set.semid ops (t.set.sems, t.undos)
          ≡ some (sems, w'.undos))
      × (vals w'.set.sems ≡ vals sems)

  -- What a panic leaves. The test of the operations panicked, and the property holds; or all the
  -- operations could go ahead, at a moment at which the property held, and the values and the
  -- records are those that the operations before the one that panics made.
  abbrev pub Panicked : ℕ → List SemBuf → World → Type ℓ
  Panicked pid ops w' =
      Holds w'
      ⊎ ((t : World) × Holds t
          × (can_execute_ops t.set.sems ops ≡ some (ok true))
          × (apply_ops pid t.set.semid ops (t.set.sems, t.undos) ≡ none)
          × (vals w'.set.sems ≡ vals (apply_so_far pid t.set.semid ops (t.set.sems, t.undos)).0)
          × (w'.undos ≡ (apply_so_far pid t.set.semid ops (t.set.sems, t.undos)).1))

  -- The three ways a call, or a part of it, comes out.
  abbrev pub Outcome : ℕ → List SemBuf → Option Reply × World → Type ℓ
  Outcome pid ops out =
      (out.0 ≢ some done → out.0 ≢ some panic → Holds out.1)
      × (out.0 ≡ some done → Done pid ops out.1)
      × (out.0 ≡ some panic → Panicked pid ops out.1)

  kept :
      (pid : ℕ) (ops : List SemBuf) (r : Option Reply) (w : World)
      → Holds w
      → r ≢ some done
      → Outcome pid ops (r, w)
  kept pid ops r w h n = ((λ _ _. h), (λ z. absurd (n z)), λ _. inl h)

  attempt-Outcome :
      (pid : ℕ) (ops : List SemBuf) (w : World) → Holds w → Outcome pid ops (attempt pid ops w)
  unfolding attempt
  attempt-Outcome pid ops w h = elim (Bool-cases w.set.destroyed) [
    | inl d ↦ rw (d, attempt) (kept pid ops (some (fail eidrm)) w h (λ z. cc))
    | inr d ↦ elim (Option-cases (can_execute_ops w.set.sems ops)) [
      | inl c ↦ rw (d, c, attempt) (kept pid ops (some panic) w h (λ z. cc))
      | inr (err x, c) ↦ rw (d, c, attempt) (kept pid ops (some (fail x)) w h (λ z. cc))
      | inr (ok false, c) ↦ rw (d, c, attempt) (kept pid ops none w h (λ z. cc))
      | inr (ok true, c) ↦
          elim (Option-cases (apply_ops pid w.set.semid ops (w.set.sems, w.undos))) [
            | inl a ↦
                rw (d, c, a, attempt)
                  ((λ _ z. absurd (z refl)), (λ z. absurd (cc)), λ _. inr (w, h, c, a, refl, refl))
            | inr ((sems, us), a) ↦
                rw (d, c, a, attempt)
                  ((λ z _. absurd (z refl)), (λ _. (w, h, c, sems, a, refl)), λ z. absurd (cc))
          ]
    ]
  ]

  recheck-Outcome :
      (pid : ℕ) (ops : List SemBuf) (w : World) → Holds w → Outcome pid ops (recheck pid ops w)
  unfolding recheck
  recheck-Outcome pid ops w h =
      let o = attempt-Outcome pid ops w h in
      let w' = (attempt pid ops w).1 in
      elim (Option-cases (attempt pid ops w).0) [
        | inl e ↦
            let k = o.0 (λ z. absurd (ground (arith, e, z))) (λ z. absurd (ground (arith, e, z))) in
            rw (e, recheck)
              (if_cases (Outcome pid ops) w'.expired
                (λ _. kept pid ops (some (fail eagain)) w' k (λ z. cc))
                λ _.
                  if_cases (Outcome pid ops) w'.interrupted
                    (λ _. kept pid ops (some (fail eintr)) w' k (λ z. cc))
                    λ _. kept pid ops none w' k (λ z. cc))
        | inr (r, e) ↦ rw (e, recheck) (rw e at o)
      ]

  Holds-count_world :
      (f : ℕ → ℕ) (ops : List SemBuf) (w : World) → Holds w → Holds (count_world f ops w)
  unfolding count_world
  Holds-count_world f ops w h = subst (λ v. P v w.undos) (sym (vals-count_waits f ops w.set.sems)) h

  Done-count_world :
      (f : ℕ → ℕ) (pid : ℕ) (ops : List SemBuf) (w : World)
      → Done pid ops w
      → Done pid ops (count_world f ops w)
  unfolding count_world
  Done-count_world f pid ops w (t, h, c, sems, a, v) =
      (t, h, c, sems, a, vals-count_waits f ops w.set.sems ∙ v)

  counted :
      (f : ℕ → ℕ) (pid : ℕ) (ops : List SemBuf) (r : Option Reply) (w : World)
      → r ≢ some panic
      → Outcome pid ops (r, w)
      → Outcome pid ops (r, count_world f ops w)
  counted f pid ops r w n o = (
    (λ a b. Holds-count_world f ops w (o.0 a b)),
    (λ z. Done-count_world f pid ops w (o.1 z)),
    λ z. absurd (n z),
  )

  sleep-Outcome :
      (pid : ℕ) (ops : List SemBuf) (ws : List (World → World)) (w : World)
      → All (λ m. (t : World) → Holds t → Holds (m t)) ws
      → Holds w
      → Outcome pid ops (sleep pid ops ws w)
  unfolding sleep
  sleep-Outcome pid ops ws w others h =
      let w0 = count_world enter ops w in
      let slept = wait_until (recheck pid ops) ws w0 in
      let rule =
        wait_until_rule Holds (recheck pid ops)
          (λ s k e.
            (recheck-Outcome pid ops s k).0 (λ z. absurd (ground (arith, e, z)))
              (λ z. absurd (ground (arith, e, z))))
          ws w0 others (Holds-count_world enter ops w h) in
      let ends : (r : Reply) → slept.0 ≡ some r → Outcome pid ops (some r, slept.1) = λ r e.
        let l = rule.1 r e in subst (Outcome pid ops) l.2 (recheck-Outcome pid ops l.0 l.1) in
      elim (Option-cases slept.0) [
        | inl e ↦ rw (e, sleep) (kept pid ops none slept.1 (rule.0 e) (λ z. cc))
        | inr (panic, e) ↦ rw (e, sleep) (ends panic e)
        | inr (done, e) ↦
            rw (e, sleep) (counted leave pid ops (some done) slept.1 (λ z. cc) (ends done e))
        | inr (fail x, e) ↦
            rw (e, sleep)
              (counted leave pid ops (some (fail x)) slept.1 (λ z. cc) (ends (fail x) e))
      ]

  perform-Outcome :
      (zero_timeout : Bool) (pid : ℕ) (ops : List SemBuf) (ws : List (World → World)) (w : World)
      → All (λ m. (t : World) → Holds t → Holds (m t)) ws
      → Holds w
      → Outcome pid ops (perform zero_timeout pid ops ws w)
  unfolding perform
  perform-Outcome zero_timeout pid ops ws w others h =
      let o = attempt-Outcome pid ops w h in
      elim (Option-cases (attempt pid ops w).0) [
        | inl e ↦
            rw (e, perform)
              (let k =
                  o.0 (λ z. absurd (ground (arith, e, z))) (λ z. absurd (ground (arith, e, z))) in
                if_cases (Outcome pid ops)
                  (any_of (λ op. has op.sem_flg ipc_nowait) ops || zero_timeout)
                  (λ _. kept pid ops (some (fail eagain)) (attempt pid ops w).1 k (λ z. cc))
                  (λ _. sleep-Outcome pid ops ws (attempt pid ops w).1 others k))
        | inr (r, e) ↦ rw (e, perform) (rw e at o)
      ]

  -- A `semop` carries out all of its operations or none, unless it panics. Let the other threads
  -- keep some property of the values and the undo records. A call that fails or is still asleep has
  -- kept it too. For a call that succeeds, there was one moment at which the property held and all
  -- the operations could go ahead, and the values and the records are those that applying them all
  -- gave. A call that panics in the test has kept the property; one that panics later had such a
  -- moment too, one of its operations panics, and those before it have been carried out.
  pub sem_op-Outcome :
      (nsops ptr : ℕ) (read : Result (List SemBuf)) (found zero_timeout : Bool) (cred : Cred)
      (pid : ℕ) (between : World → World) (ws : List (World → World)) (w : World)
      → ((t : World) → Holds t → Holds (between t))
      → All (λ m. (t : World) → Holds t → Holds (m t)) ws
      → Holds w
      → let out = sem_op nsops ptr read found zero_timeout cred pid between ws w in
        (out.0 ≢ some done → out.0 ≢ some panic → Holds out.1)
        × (out.0 ≡ some done
            → (ops : List SemBuf) × (admit nsops ptr read found cred w.set ≡ ok ops)
              × Done pid ops out.1)
        × (out.0 ≡ some panic
            → (ops : List SemBuf) × (admit nsops ptr read found cred w.set ≡ ok ops)
              × Panicked pid ops out.1)
  unfolding sem_op
  sem_op-Outcome nsops ptr read found zero_timeout cred pid between ws w gap others h =
      admitted (admit nsops ptr read found cred w.set) refl
    where
      admitted :
          (a : Result (List SemBuf))
          → admit nsops ptr read found cred w.set ≡ a
          → let out : Option Reply × World = elim a [
            | err e ↦ (some (fail e), w)
            | ok ops ↦ perform zero_timeout pid ops ws (between w)
          ] in
            (out.0 ≢ some done → out.0 ≢ some panic → Holds out.1)
            × (out.0 ≡ some done
                → (ops : List SemBuf) × (admit nsops ptr read found cred w.set ≡ ok ops)
                  × Done pid ops out.1)
            × (out.0 ≡ some panic
                → (ops : List SemBuf) × (admit nsops ptr read found cred w.set ≡ ok ops)
                  × Panicked pid ops out.1)
      admitted (err e) a = ((λ _ _. h), (λ z. absurd (cc)), λ z. absurd (cc))
      admitted (ok ops) a =
          let o = perform-Outcome zero_timeout pid ops ws (between w) others (gap w h) in
          (o.0, (λ z. (ops, a, o.1 z)), λ z. (ops, a, o.2 z))
