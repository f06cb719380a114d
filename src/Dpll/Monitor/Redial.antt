-- ===== src/Dpll/Monitor/Redial.antt =====
-- What MonitorDpllNetlink does after an attempt that fails, and after a goroutine that ends.
use np_linuxptp_daemon.Base.{
  ◌≡◌, refl, ◌≢◌, ◌⊎◌, inl, inr, Bool, true, false, not, ◌&&◌, List, [], ◌∷◌, none, arith, ltb,
}
use np_linuxptp_daemon.Base.Int.{ℤ}
use np_linuxptp_daemon.Dpll.Subscriptions.{Client}
use np_linuxptp_daemon.Dpll.Monitor.{
  Sem, nil, held, free, is_crashed, running, crashed, Monitor, Act, Attempt, start_monitor,
  set_dpll, stop_dpll, listen, stop_listening, attempt, poll, check_exit, round, receive, Input,
  rounds, receives, step, run,
}
use np_linuxptp_daemon.Dpll.Monitor.Invariant.{
  IsSound, if_cases, phase_cases, attempt_cases, succeeds, exit_lem, run-start_monitor-IsSound,
}

-- No goroutine receives, and the semaphore is not free.
record IsQuiet (m : Monitor) : Type 0 where
  quiet : m.listeners ≡ 0
  unfree : m.phase ≡ running → m.sem ≢ free

-- Nor does the loop dial again.
record IsStuck (m : Monitor) : Type 0 where
  is_quiet : IsQuiet m
  open is_quiet use *
  settled : m.phase ≡ running → m.redial ≡ false

ended-IsStuck : (m : Monitor) → m.phase ≢ running → m.listeners ≡ 0 → IsStuck m
ended-IsStuck m ended e = record {
  is_quiet = record { quiet = e; unfree = λ p. absurd (ended p) };
  settled = λ p. absurd (ended p);
}

poll-IsStuck : (s : Monitor × List Act) → s.0.phase ≡ running → IsQuiet s.0 → IsStuck (poll s).0
unfolding poll
poll-IsStuck (m, acts) p v = by_sem m.sem refl
  where
    settles : {x : Sem} → x ≢ free → IsStuck (record m { redial = false; sem = x })
    settles h = record {
      is_quiet = record { quiet = v.quiet; unfree = λ _. h };
      settled = λ _. refl;
    }

    by_sem : (x : Sem) → m.sem ≡ x → IsStuck (poll (m, acts)).0
    by_sem nil e = rw e (settles (λ q. absurd (ground (arith, q))))
    by_sem held e = rw e (settles (λ q. absurd (ground (arith, q))))
    by_sem free e = absurd (v.unfree p e)

check_exit-IsStuck :
    (now : ℤ) (exiting : Bool) (s : Monitor × List Act)
    → IsQuiet s.0
    → IsStuck (check_exit now exiting s).0
check_exit-IsStuck now exiting (m, acts) v =
    phase_cases Leaves m.phase
      (λ p.
        if_cases Leaves exiting
          (λ _.
            rw (exit_lem now m acts) (ended-IsStuck _ (λ q. absurd (ground (arith, q))) v.quiet))
          (λ _. poll-IsStuck (m, acts) p v))
      (λ ended. ended-IsStuck m ended v.quiet)
  where
    Leaves : Monitor × List Act → Type 0
    Leaves s = IsStuck s.0

round-IsStuck :
    (now : ℤ) (a : Attempt) (exiting : Bool) (m : Monitor)
    → (m.redial ≡ true → IsQuiet (attempt now a m).0)
    → IsQuiet m
    → IsStuck (round now a exiting m).0
unfolding round
round-IsStuck now a exiting m tried v =
    check_exit-IsStuck now exiting _
      (if_cases (λ (s : Monitor × List Act). IsQuiet s.0) m.redial tried (λ _. v))

step-IsStuck : (now : ℤ) (i : Input) (m : Monitor) → IsStuck m → IsStuck (step now i m).0
unfolding step
step-IsStuck now (rounds a exiting) m v =
    phase_cases (λ (s : Monitor × List Act). IsStuck s.0) m.phase
      (λ p. round-IsStuck now a exiting m (λ r. absurd (ground (arith, v.settled p, r))) v.is_quiet)
      (λ _. v)
step-IsStuck now (receives msgs) m v =
    if_cases (λ (s : Monitor × List Act). IsStuck s.0)
      (ltb 0 m.listeners && not (is_crashed m.phase)) (λ l. absurd (ground (arith, l, v.quiet)))
      (λ _. v)

run-IsStuck : (is : List (ℤ × Input)) (m : Monitor) → IsStuck m → IsStuck (run is m)
unfolding run
run-IsStuck [] m v = v
run-IsStuck ((now, i) ∷ is) m v = run-IsStuck is (step now i m).0 (step-IsStuck now i m v)

attempt_fails :
    (now : ℤ) (a : Attempt) (m : Monitor)
    → IsSound m
    → m.phase ≡ running
    → m.redial ≡ true
    → succeeds false a ≡ false
    → IsQuiet (attempt now a m).0
unfolding set_dpll
attempt_fails now a m v p r fails =
    attempt_cases IsQuiet now a m p (λ _. still) (λ _. still) (λ _ d. still)
      (record { quiet = v.alone p r; unfree = λ q. absurd (ground (arith, q)) })
      λ done d. absurd (ground (arith, done, fails, v.unopened p r))
  where
    still : {b : Bool} {x : Client} → IsQuiet (record m { client = x; conn = b })
    still = record { quiet = v.alone p r; unfree = λ _. v.unfree p r }

-- In any history of a monitoring whose loop is about to dial, an attempt that fails at the dial, the
-- group, the dump or the join is the last one: whatever the connection answers later, no goroutine
-- ever receives notifications again.
pub run_redial_fails :
    (c : Client) (before : List (ℤ × Input)) (now : ℤ) (a : Attempt) (exiting : Bool)
    (later : List (ℤ × Input))
    → (run before (start_monitor c)).phase ≡ running
    → (run before (start_monitor c)).redial ≡ true
    → succeeds false a ≡ false
    → (run later (round now a exiting (run before (start_monitor c))).0).listeners ≡ 0
run_redial_fails c before now a exiting later p r fails =
    (run-IsStuck later _ (
      round-IsStuck now a exiting m (λ r. attempt_fails now a m v p r fails)
        (record { quiet = v.alone p r; unfree = λ _. v.unfree p r }))).quiet
  where
    m : Monitor
    m = run before (start_monitor c)

    v : IsSound m
    v = run-start_monitor-IsSound c before

-- The monitoring listens: the loop runs, one goroutine receives on an open connection and holds the
-- semaphore, and the loop does not dial.
abbrev pub listening : Client → Monitor
listening c = record {
  client = c;
  conn = true;
  redial = false;
  sem = held;
  listeners = 1;
  phase = running;
}

-- The goroutine is lost, and the loop has found that out.
abbrev lost : Client → Monitor
lost c = record (listening c) { conn = false; redial = true; listeners = 0 }

run_lost :
    (now : ℤ) (a : Attempt) (c : Client)
    → run ((now, receives none) ∷ (now, rounds a false) ∷ []) (listening c) ≡ lost c
unfolding run step receive stop_listening round poll stop_dpll
run_lost now a c = refl

round-lost :
    (now : ℤ) (b : Attempt) (c : Client)
    → succeeds false b ≡ true
    → ((round now b false (lost c)).0.phase ≡ crashed)
      ⊎ ((round now b false (lost c)).0 ≡ listening (round now b false (lost c)).0.client)
unfolding round poll listen set_dpll
round-lost now b c answers =
    attempt_cases Recovers now b (lost c) refl (fails (lost c)) (fails (lost c))
      (λ n d. fails (set_dpll d (lost c)) n) (inl refl) (λ _ _. inr refl)
  where
    after : Monitor → Monitor
    after m = (check_exit now false (m, (attempt now b (lost c)).1)).0

    Recovers : Monitor → Type 0
    Recovers m = ((after m).phase ≡ crashed) ⊎ (after m ≡ listening (after m).client)

    fails : (m : Monitor) → succeeds false b ≡ false → Recovers m
    fails m h = absurd (ground (arith, h, answers))

-- A monitoring whose goroutine ends on an error of Receive listens again after two rounds of the
-- loop, if the dial, the group, the dump and the join of the second succeed and its decision does
-- not panic.
pub run_redial_succeeds :
    (now : ℤ) (a b : Attempt) (c : Client)
    → succeeds false b ≡ true
    → let m =
        run
          ((now, receives none) ∷ (now, rounds a false) ∷ (now, rounds b false) ∷ [])
          (listening c) in
      (m.phase ≡ crashed) ⊎ (m ≡ listening m.client)
unfolding run step receive stop_listening poll stop_dpll round
run_redial_succeeds now a b c answers = round-lost now b c answers
