-- ===== src/Dpll/Monitor/Invariant.antt =====
-- The semaphore, the goroutines and the connection of a monitoring, over any sequence of steps.
use np_linuxptp_daemon.Base.{
  ◌≤◌, ◌<◌, ◌≡◌, refl, sym, ap, ◌≢◌, inl, inr, Bool, true, false, not, ◌&&◌, ◌||◌, List, [], ◌∷◌,
  Option, none, some, arith, if◌then◌else◌, ltb, Option-cases, Bool-cases, if_true, if_false, ◌∙◌,
}
use np_linuxptp_daemon.Base.Int.{ℤ}
use np_linuxptp_daemon.Dpll.Config.{Dpll}
use np_linuxptp_daemon.Dpll.Decision.{state_decision}
use np_linuxptp_daemon.Dpll.Netlink.{DeviceReply, PinReply, nl_update_state}
use np_linuxptp_daemon.Dpll.Subscriptions.{Client, unregister_client}
use np_linuxptp_daemon.Dpll.Monitor.Notifications.{Message, read_messages}
use np_linuxptp_daemon.Dpll.Monitor.{
  Sem, nil, held, free, Phase, is_crashed, running, finished, crashed, Monitor, Act, Attempt,
  start_monitor, set_dpll, stop_dpll, is_some, update_and_decide, listen, attempt, after_dump,
  after_decision, poll, exit, close_holdover, check_exit, round, stop_listening, receive, Input,
  rounds, receives, step, run,
}

-- At most one goroutine receives; while it does, the semaphore is held and, until the end, the
-- connection is open.
pub record IsOpen (m : Monitor) : Type 0 where
  pub few : m.listeners ≤ 1
  pub holds : 0 < m.listeners → m.sem ≡ held
  pub opened : m.phase ≡ running → 0 < m.listeners → m.conn ≡ true

-- When the loop is about to dial again none receives, the semaphore is not free and there is no
-- connection.
pub record IsSound (m : Monitor) : Type 0 where
  pub is_open : IsOpen m
  pub open is_open use *
  pub unfree : m.phase ≡ running → m.redial ≡ true → m.sem ≢ free
  pub alone : m.phase ≡ running → m.redial ≡ true → m.listeners ≡ 0
  pub unopened : m.phase ≡ running → m.redial ≡ true → m.conn ≡ false

-- A monitoring whose loop runs is itself with the phase written out.
pub phase-running : (m : Monitor) → m.phase ≡ running → record m { phase = running } ≡ m
phase-running m p = ap (λ x. record m { phase = x }) (sym p)

-- A branch on a test, and one on whether the loop runs, with the equation that the branch has.
pub if_cases {ℓ κ} :
    {A : Type ℓ} (Q : A → Type κ) (b : Bool) {x y : A}
    → (b ≡ true → Q x)
    → (b ≡ false → Q y)
    → Q (if b then x else y)
if_cases Q true f g = f refl
if_cases Q false f g = g refl

pub phase_cases {ℓ κ} :
    {A : Type ℓ} (Q : A → Type κ) (x : Phase) {a b : A}
    → (x ≡ running → Q a)
    → (x ≢ running → Q b)
    → Q (elim x [ running ↦ a | finished ↦ b | crashed ↦ b ])
phase_cases Q running f g = f refl
phase_cases Q finished f g = g (λ e. absurd (ground (arith, e)))
phase_cases Q crashed f g = g (λ e. absurd (ground (arith, e)))

-- What a decision leaves: the panic, or another DPLL.
pub update_and_decide_cases {ℓ} :
    (P : Monitor → Type ℓ) (now : ℤ) (devices : List DeviceReply) (pins : List PinReply)
    (m : Monitor)
    → P (record m { phase = crashed })
    → ((d : Dpll) → P (set_dpll d m))
    → P (update_and_decide now devices pins m).0
unfolding update_and_decide
update_and_decide_cases P now devices pins m panic kept =
    elim (Bool-cases (nl_update_state devices pins m.client.dpll).1) [
      | inl valid ↦
          elim (Option-cases (state_decision now (nl_update_state devices pins m.client.dpll).0)) [
            | inl e ↦ rw (valid, e) panic
            | inr ((d, effects), e) ↦ rw (valid, e) (kept d)
          ]
      | inr invalid ↦ rw invalid (kept (nl_update_state devices pins m.client.dpll).0)
    ]

pub set_dpll-IsSound : (d : Dpll) (m : Monitor) → IsSound m → IsSound (set_dpll d m)
unfolding set_dpll
set_dpll-IsSound d m v = record {
  is_open = record { few = v.few; holds = v.holds; opened = v.opened };
  unfree = v.unfree;
  alone = v.alone;
  unopened = v.unopened;
}

crashed-IsSound : (m : Monitor) → IsSound m → IsSound (record m { phase = crashed })
crashed-IsSound m v = record {
  is_open = record { few = v.few; holds = v.holds; opened = λ p. absurd (ground (arith, p)) };
  unfree = λ p. absurd (ground (arith, p));
  alone = λ p. absurd (ground (arith, p));
  unopened = λ p. absurd (ground (arith, p));
}

stop_listening-IsSound : (m : Monitor) → 0 < m.listeners → IsSound m → IsSound (stop_listening m)
unfolding stop_listening
stop_listening-IsSound m l v = record {
  is_open = record {
    few = grind (arith, v.few);
    holds = ground (arith, v.few);
    opened = ground (arith, v.few);
  };
  unfree = λ p r. absurd (grind (arith, v.alone p r));
  alone = λ p r. absurd (grind (arith, v.alone p r));
  unopened = v.unopened;
}

receive-IsSound :
    (now : ℤ) (msgs : Option (List Message)) (m : Monitor)
    → 0 < m.listeners
    → IsSound m
    → IsSound (receive now msgs m).0
unfolding receive
receive-IsSound now none m l v = stop_listening-IsSound m l v
receive-IsSound now (some msgs) m l v = elim (Option-cases (read_messages msgs)) [
  | inl e ↦ rw e (stop_listening-IsSound m l v)
  | inr ((devices, pins), e) ↦ rw e (
      update_and_decide_cases IsSound now devices pins m (crashed-IsSound m v)
        (λ d. set_dpll-IsSound d m v))
]

-- Whether the answers let an attempt come to its end, with a connection already or not.
abbrev pub succeeds : Bool → Attempt → Bool
succeeds conn a = (conn || a.dialled) && (a.group_found && (is_some a.dump && a.joined))

module _ {ℓ} (P : Monitor → Type ℓ) (now : ℤ) (a : Attempt) where
  after_decision_cases :
      (m : Monitor) (x : Phase) (replies : List DeviceReply)
      → x ≡ running
      → P (record m { conn = true; phase = crashed })
      → (a.joined ≡ false → (d : Dpll) → P (set_dpll d (record m { conn = false; phase = x })))
      → (a.joined ≡ true
          → (d : Dpll) → P (listen (set_dpll d (record m { conn = true; phase = x }))))
      → P (after_dump now a (record m { conn = true; phase = x }) (some replies)).0
  unfolding set_dpll stop_dpll
  after_decision_cases m finished replies e panic refused listens = absurd (ground (arith, e))
  after_decision_cases m crashed replies e panic refused listens = absurd (ground (arith, e))
  after_decision_cases m running replies e panic refused listens =
      update_and_decide_cases
        (λ m'. P (after_decision a (m', (update_and_decide now replies [] started).1)).0) now
        replies [] started panic
        λ d. elim (Bool-cases a.joined) [
          | inl joins ↦ rw joins (listens joins d)
          | inr fails ↦ rw fails (refused fails d)
        ]
    where
      started : Monitor
      started = record m { conn = true; phase = running }

  -- What an attempt leaves while the loop runs: nothing done, an attempt given up before or after
  -- the decision, the panic, or a goroutine that receives.
  pub attempt_cases :
      (m : Monitor)
      → m.phase ≡ running
      → (succeeds m.conn a ≡ false → P m)
      → (succeeds m.conn a ≡ false → P (record m { conn = false }))
      → (succeeds m.conn a ≡ false → (d : Dpll) → P (set_dpll d (record m { conn = false })))
      → P (record m { conn = true; phase = crashed })
      → (succeeds m.conn a ≡ true → (d : Dpll) → P (listen (set_dpll d (record m { conn = true }))))
      → P (attempt now a m).0
  unfolding attempt stop_dpll
  attempt_cases m p undone aborted refused panic listens =
      elim (Bool-cases (not m.conn && not a.dialled)) [
        | inl undialled ↦ rw undialled (undone (ground arith))
        | inr dialled ↦ rw dialled (elim (Bool-cases a.group_found) [
          | inr missing ↦ rw missing (aborted (ground arith))
          | inl found ↦ rw found (elim (Option-cases a.dump) [
            | inl fails ↦ rw fails (aborted (ground arith))
            | inr (replies, e) ↦ rw e (
                after_decision_cases m m.phase replies p panic (λ j. refused (ground arith))
                  (λ j. listens (ground arith)))
          ])
        ])
      ]

quiet-IsOpen : (m : Monitor) → m.listeners ≡ 0 → IsOpen m
quiet-IsOpen m e = record {
  few = omega (arith, e);
  holds = λ h. absurd (omega (arith, e));
  opened = λ _ h. absurd (omega (arith, e));
}

attempt-IsOpen :
    (now : ℤ) (a : Attempt) (m : Monitor)
    → m.phase ≡ running
    → m.redial ≡ true
    → IsSound m
    → IsOpen (attempt now a m).0
unfolding listen set_dpll
attempt-IsOpen now a m p r v =
    attempt_cases IsOpen now a m p (λ _. v.is_open) (λ _. quiet-IsOpen _ quiet)
      (λ _ d. quiet-IsOpen _ quiet) (quiet-IsOpen _ quiet)
      λ _ d. record { few = omega (arith, quiet); holds = λ _. refl; opened = λ _ _. refl }
  where
    quiet : m.listeners ≡ 0
    quiet = v.alone p r

ended-IsSound : (m : Monitor) → m.phase ≢ running → IsOpen m → IsSound m
ended-IsSound m p v = record {
  is_open = v;
  unfree = λ q. absurd (p q);
  alone = λ q. absurd (p q);
  unopened = λ q. absurd (p q);
}

pub stop_dpll_lem : (s : Monitor × List Act) → (stop_dpll s).0 ≡ record (s.0) { conn = false }
unfolding stop_dpll
stop_dpll_lem (m, acts) = elim (Bool-cases m.conn) [
  | inl open_conn ↦ ap (λ (r : Monitor × List Act). r.0) (if_true _ _ open_conn)
  | inr gone ↦
      ap (λ (r : Monitor × List Act). r.0) (if_false _ _ gone)
      ∙ ap (λ x. record m { conn = x }) gone
]

close_holdover_lem :
    (s : Monitor × List Act)
    → (close_holdover s).0 ≡ set_dpll (record (s.0.client.dpll) { on_holdover = false }) s.0
unfolding set_dpll
close_holdover_lem (m, acts) = elim (Bool-cases m.client.dpll.on_holdover) [
  | inl on ↦ ap (λ (r : Monitor × List Act). r.0) (if_true _ _ on)
  | inr off ↦
      ap (λ (r : Monitor × List Act). r.0) (if_false _ _ off)
      ∙ ap (λ x. set_dpll (record (m.client.dpll) { on_holdover = x }) m) off
]

-- What is left when the monitoring exits: no connection, no holdover and no subscriber of the DPLL;
-- the semaphore, the goroutine and the other fields of the DPLL stay.
pub exit_lem :
    (now : ℤ) (m : Monitor) (acts : List Act)
    → (exit now (m, acts)).0 ≡ record m {
      client = record (unregister_client m.client) {
        dpll = record (m.client.dpll) { on_holdover = false };
      };
      conn = false;
      phase = finished;
    }
unfolding exit set_dpll unregister_client
exit_lem now m acts =
    stop_dpll_lem _ ∙ ap (λ (x : Monitor). record x { conn = false }) (close_holdover_lem _)

pub poll-IsSound : (s : Monitor × List Act) → IsOpen s.0 → IsSound (poll s).0
unfolding poll
poll-IsSound (m, acts) v = by_sem m.sem refl
  where
    redials_not :
        {x : Sem} → (0 < m.listeners → x ≡ held) → IsSound (record m { redial = false; sem = x })
    redials_not h = record {
      is_open = record { few = v.few; holds = h; opened = v.opened };
      unfree = λ _ r. absurd (ground (arith, r));
      alone = λ _ r. absurd (ground (arith, r));
      unopened = λ _ r. absurd (ground (arith, r));
    }

    by_sem : (x : Sem) → m.sem ≡ x → IsSound (poll (m, acts)).0
    by_sem nil e = rw e (redials_not (λ l. ground (arith, v.holds l, e)))
    by_sem held e = rw e (redials_not (λ _. refl))
    by_sem free e =
        rw (e, stop_dpll_lem _)
          (record {
            is_open = quiet-IsOpen _ (grind (arith, v.holds, e));
            unfree = λ _ _ q. absurd (ground (arith, q));
            alone = λ _ _. grind (arith, v.holds, e);
            unopened = λ _ _. refl;
          })

pub exit-IsSound : (now : ℤ) (s : Monitor × List Act) → IsOpen s.0 → IsSound (exit now s).0
exit-IsSound now (m, acts) v = rw (exit_lem now m acts) (
    ended-IsSound _ (λ q. absurd (ground (arith, q)))
      (record { few = v.few; holds = v.holds; opened = λ p. absurd (ground (arith, p)) }))

check_exit-IsSound :
    (now : ℤ) (exiting : Bool) (s : Monitor × List Act)
    → IsOpen s.0
    → IsSound (check_exit now exiting s).0
check_exit-IsSound now exiting (m, acts) v =
    phase_cases (λ (s : Monitor × List Act). IsSound s.0) m.phase
      (λ _.
        if_cases (λ (s : Monitor × List Act). IsSound s.0) exiting
          (λ _. exit-IsSound now (m, acts) v) (λ _. poll-IsSound (m, acts) v))
      (λ ended. ended-IsSound m ended v)

round-IsSound :
    (now : ℤ) (a : Attempt) (exiting : Bool) (m : Monitor)
    → m.phase ≡ running
    → IsSound m
    → IsSound (round now a exiting m).0
unfolding round
round-IsSound now a exiting m p v = check_exit-IsSound now exiting _ (
    if_cases (λ (s : Monitor × List Act). IsOpen s.0) m.redial (λ r. attempt-IsOpen now a m p r v)
      (λ _. v.is_open))

step-IsSound : (now : ℤ) (i : Input) (m : Monitor) → IsSound m → IsSound (step now i m).0
unfolding step
step-IsSound now (rounds a exiting) m v =
    phase_cases (λ (s : Monitor × List Act). IsSound s.0) m.phase
      (λ p. round-IsSound now a exiting m p v) (λ _. v)
step-IsSound now (receives msgs) m v =
    if_cases (λ (s : Monitor × List Act). IsSound s.0)
      (ltb 0 m.listeners && not (is_crashed m.phase))
      (λ l. receive-IsSound now msgs m (ground (arith, l)) v) (λ _. v)

run-IsSound : (is : List (ℤ × Input)) (m : Monitor) → IsSound m → IsSound (run is m)
unfolding run
run-IsSound [] m v = v
run-IsSound ((now, i) ∷ is) m v = run-IsSound is (step now i m).0 (step-IsSound now i m v)

-- Over any sequence of rounds of the loop, notifications and errors, from the start of a
-- monitoring: at most one goroutine receives; while one does the semaphore is held and, until the
-- monitoring exits, the connection is open; and whenever the loop is about to dial again no
-- goroutine receives, the semaphore is not free and there is no connection.
pub run-start_monitor-IsSound :
    (c : Client) (is : List (ℤ × Input)) → IsSound (run is (start_monitor c))
unfolding start_monitor
run-start_monitor-IsSound c is = run-IsSound is (start_monitor c) (record {
  is_open = quiet-IsOpen _ refl;
  unfree = λ _ _ q. absurd (ground (arith, q));
  alone = λ _ _. refl;
  unopened = λ _ _. refl;
})
