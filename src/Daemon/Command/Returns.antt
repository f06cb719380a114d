-- ===== src/Daemon/Command/Returns.antt =====
-- What holds when cmdStop returns.
use np_linuxptp_daemon.Base.{◌≡◌, refl, ◌∙◌, ◌≢◌, ◌⊎◌, inr, Bool, true, false, arith}
use np_linuxptp_daemon.Daemon.Command.{
  unstarted, failed, reaped, RunPc, top, starting, reading, delaying, recreating, leaving, gone,
  StopPc, idle, marked, found, logged, failing, finished, refused, panicked, System, start, Step,
  checks, starts, start_fails, pipe_fails, exits, terminates, reaps, reaps_failed, leaves, goes_on,
  recreates, marks, looks, logs, logs_nil, signals, signal_fails, signal_nil, refuses, refuses_nil,
  signals_none, meets, Reach, here, next,
}

-- The program before its start, and after its end.
abbrev pub is_behind : RunPc → Bool
is_behind top = false
is_behind starting = false
is_behind reading = false
is_behind delaying = true
is_behind recreating = true
is_behind leaving = false
is_behind gone = false

abbrev pub is_before : RunPc → Bool
is_before top = true
is_before starting = true
is_before reading = false
is_before delaying = false
is_before recreating = false
is_before leaving = false
is_before gone = false

abbrev pub is_out : RunPc → Bool
is_out top = false
is_out starting = false
is_out reading = false
is_out delaying = false
is_out recreating = false
is_out leaving = true
is_out gone = true

pub record Inv (s : System) : Type 0 where
  pub before : is_before s.run ≡ true → s.child ≡ unstarted
  pub behind : is_behind s.run ≡ true → (s.child ≡ reaped) ⊎ (s.child ≡ failed)
  pub out : is_out s.run ≡ true → (s.child ≡ reaped) ⊎ ((s.child ≡ failed) ⊎ (s.child ≡ unstarted))
  pub waited : s.child ≡ reaped → (is_behind s.run ≡ true) ⊎ (is_out s.run ≡ true)
  pub set : s.stop ≢ idle → s.stopped ≡ true
  pub ended : s.run ≡ gone → (s.stop ≡ finished) ⊎ (s.stop ≡ panicked)
  pub met : s.stop ≡ finished → (s.run ≡ gone) × (s.child ≡ reaped)
  pub kept :
      (s.stop ≡ failing) ⊎ (s.stop ≡ refused)
      → (s.run ≢ starting) × ((s.child ≡ reaped) ⊎ (s.child ≡ unstarted))
  pub file : s.stop ≡ refused → s.config_file ≡ true
  pub file_before :
      (s.stop ≡ idle)
        ⊎ ((s.stop ≡ marked) ⊎ ((s.stop ≡ found) ⊎ ((s.stop ≡ logged) ⊎ (s.stop ≡ failing))))
      → s.config_file ≡ true

Step-Inv : {s t : System} → Step s t → Inv s → Inv t
Step-Inv (checks e) v = grind arith
Step-Inv (starts e) v = grind arith
Step-Inv (start_fails e) v = grind arith
Step-Inv (pipe_fails e) v = grind arith
Step-Inv (exits e) v = grind arith
Step-Inv (terminates e f) v = grind arith
Step-Inv (reaps e f) v = grind arith
Step-Inv (reaps_failed e f) v = grind arith
Step-Inv (leaves e f) v = grind arith
Step-Inv (goes_on e f) v = grind arith
Step-Inv (recreates e) v = grind arith
Step-Inv (marks e) v = grind arith
Step-Inv (looks e f) v = grind arith
Step-Inv (signals_none e f) v = grind arith
Step-Inv (logs e f) v = grind arith
Step-Inv (logs_nil e f) v = grind arith
Step-Inv (signals e f g) v = grind arith
Step-Inv (signal_fails e f) v = grind arith
Step-Inv (signal_nil e f) v = grind arith
Step-Inv (refuses e f) v = grind arith
Step-Inv (refuses_nil e f) v = grind arith
Step-Inv (meets e f) v = grind arith

start-Inv : Inv start
start-Inv = grind arith

pub Reach-Inv : {s t : System} → Reach s t → Inv s → Inv t
Reach-Inv here v = v
Reach-Inv (next r x) v = Step-Inv x (Reach-Inv r v)

-- What cmdStop has returned with stays.
abbrev pub Returned : StopPc → Type 0
Returned x = (x ≡ finished) ⊎ (x ≡ refused)

Step-Returned : {s t : System} → Step s t → Inv s → Returned s.stop → t.stop ≡ s.stop
Step-Returned (checks e) v r = grind arith
Step-Returned (starts e) v r = grind arith
Step-Returned (start_fails e) v r = grind arith
Step-Returned (pipe_fails e) v r = grind arith
Step-Returned (exits e) v r = grind arith
Step-Returned (terminates e f) v r = grind arith
Step-Returned (reaps e f) v r = grind arith
Step-Returned (reaps_failed e f) v r = grind arith
Step-Returned (leaves e f) v r = grind arith
Step-Returned (goes_on e f) v r = grind arith
Step-Returned (recreates e) v r = grind arith
Step-Returned (marks e) v r = grind arith
Step-Returned (looks e f) v r = grind arith
Step-Returned (signals_none e f) v r = grind arith
Step-Returned (logs e f) v r = grind arith
Step-Returned (logs_nil e f) v r = grind arith
Step-Returned (signals e f g) v r = grind arith
Step-Returned (signal_fails e f) v r = grind arith
Step-Returned (signal_nil e f) v r = grind arith
Step-Returned (refuses e f) v r = grind arith
Step-Returned (refuses_nil e f) v r = grind arith
Step-Returned (meets e f) v r = grind arith

Reach-stays : {s t : System} → Reach s t → Inv s → Returned s.stop → t.stop ≡ s.stop
Reach-stays here v r = refl
Reach-stays (next x y) v r =
    Step-Returned y (Reach-Inv x v) (rw (Reach-stays x v r) r) ∙ Reach-stays x v r

never_alive :
    {t : System} {x : StopPc}
    → Inv t
    → t.stop ≡ x
    → Returned x
    → (t.stop ≡ x) × ((t.child ≡ reaped) ⊎ (t.child ≡ unstarted)) × (t.run ≢ starting)
never_alive v e r = (e, grind arith, grind arith)

unmet :
    {t : System} {x : StopPc}
    → Inv t
    → t.stop ≡ x
    → x ≡ refused
    → (t.run ≢ gone)
      × (t.stop ≡ refused)
      × (t.config_file ≡ true)
      × ((t.run ≡ delaying) ⊎ ((t.run ≡ recreating) ⊎ ((t.run ≡ leaving) ⊎ (t.child ≡ unstarted))))
unmet v e f = (grind arith, e ∙ f, grind arith, grind arith)

-- Once cmdStop has returned, after the goroutine's answer or since its signal failed, it stays so,
-- and the program does not run and is not started again: the last one was waited for, or a new
-- command has not been started and never is.
pub Reach-Returned :
    {s t : System}
    → Reach start s
    → Returned s.stop
    → Reach s t
    → (t.stop ≡ s.stop) × ((t.child ≡ reaped) ⊎ (t.child ≡ unstarted)) × (t.run ≢ starting)
Reach-Returned {s} from returned r = never_alive (Reach-Inv r v) (Reach-stays r v returned) returned
  where
    v : Inv s
    v = Reach-Inv from start-Inv

-- Where the signal of cmdStop fails, since the program has ended, and cmdStop returns, the
-- configuration stays and cmdRun never returns: it is in the delay, about to make the new command,
-- at the send to exitCh, which nobody receives, or has a command that is never started.
pub Reach-refused :
    {s t : System}
    → Reach start s
    → s.stop ≡ refused
    → Reach s t
    → (t.run ≢ gone)
      × (t.stop ≡ refused)
      × (t.config_file ≡ true)
      × ((t.run ≡ delaying) ⊎ ((t.run ≡ recreating) ⊎ ((t.run ≡ leaving) ⊎ (t.child ≡ unstarted))))
Reach-refused {s} from e r = unmet (Reach-Inv r v) (Reach-stays r v (inr e)) e
  where
    v : Inv s
    v = Reach-Inv from start-Inv
