-- ===== src/Daemon/Command/Hangs.antt =====
-- Where cmdStop waits forever.
use mathlib.Core.Path.{subst}
use np_linuxptp_daemon.Base.{◌≡◌, refl, ◌≢◌, ◌⊎◌, true, false, arith}
use np_linuxptp_daemon.Daemon.Command.{
  alive, top, starting, reading, recreating, gone, waiting, finished, panicked, System, start, Step,
  checks, starts, start_fails, pipe_fails, exits, terminates, reaps, reaps_failed, leaves, goes_on,
  recreates, marks, looks, logs, logs_nil, signals, signal_nil, refuses, refuses_nil, signal_fails,
  signals_none, meets, Reach, here, next,
}

-- cmdStop waits, and cmdRun waits for the output of a program that was never started.
abbrev pub stuck : System
stuck = record start { run = reading; stopped = true; stop = waiting; config_file = false }

-- cmdStop waits without having sent a signal, and the program runs.
abbrev pub unsignalled : System
unsignalled = record stuck { child = alive }

stuck-Step : {t : System} → Step stuck t → t ≡ stuck
stuck-Step (checks e) = absurd (ground (arith, e))
stuck-Step (starts e) = absurd (ground (arith, e))
stuck-Step (start_fails e) = absurd (ground (arith, e))
stuck-Step (pipe_fails e) = absurd (ground (arith, e))
stuck-Step (exits e) = absurd (ground (arith, e))
stuck-Step (terminates e f) = absurd (ground (arith, e))
stuck-Step (reaps e f) = absurd (ground (arith, f))
stuck-Step (reaps_failed e f) = absurd (ground (arith, f))
stuck-Step (leaves e f) = absurd (ground (arith, e))
stuck-Step (goes_on e f) = absurd (ground (arith, e))
stuck-Step (recreates e) = absurd (ground (arith, e))
stuck-Step (marks e) = absurd (ground (arith, e))
stuck-Step (looks e f) = absurd (ground (arith, e))
stuck-Step (signals_none e f) = absurd (ground (arith, e))
stuck-Step (logs e f) = absurd (ground (arith, e))
stuck-Step (logs_nil e f) = absurd (ground (arith, e))
stuck-Step (signals e f g) = absurd (ground (arith, e))
stuck-Step (signal_fails e f) = absurd (ground (arith, e))
stuck-Step (signal_nil e f) = absurd (ground (arith, e))
stuck-Step (refuses e f) = absurd (ground (arith, e))
stuck-Step (refuses_nil e f) = absurd (ground (arith, e))
stuck-Step (meets e f) = absurd (ground (arith, e))

Reach-stuck : {t : System} → Reach stuck t → t ≡ stuck
Reach-stuck here = refl
Reach-stuck (next {t = s} {u = t} r x) = stuck-Step (subst (λ u. Step u t) (Reach-stuck r) x)

-- The program runs unsignalled while cmdStop waits, or has run.
record IsMissed (s : System) : Type 0 where
  unsent : s.signalled ≡ false
  set : s.stopped ≡ true
  called : (s.stop ≡ waiting) ⊎ ((s.stop ≡ finished) ⊎ (s.stop ≡ panicked))
  past : (s.run ≢ top) × ((s.run ≢ starting) × (s.run ≢ recreating))
  over : s.run ≢ reading → s.child ≢ alive
  open_end : s.stop ≢ waiting → s.run ≡ gone

Step-IsMissed : {s t : System} → Step s t → IsMissed s → IsMissed t
Step-IsMissed (checks e) v = grind arith
Step-IsMissed (starts e) v = grind arith
Step-IsMissed (start_fails e) v = grind arith
Step-IsMissed (pipe_fails e) v = grind arith
Step-IsMissed (exits e) v = grind arith
Step-IsMissed (terminates e f) v = grind arith
Step-IsMissed (reaps e f) v = grind arith
Step-IsMissed (reaps_failed e f) v = grind arith
Step-IsMissed (leaves e f) v = grind arith
Step-IsMissed (goes_on e f) v = grind arith
Step-IsMissed (recreates e) v = grind arith
Step-IsMissed (marks e) v = grind arith
Step-IsMissed (looks e f) v = grind arith
Step-IsMissed (signals_none e f) v = grind arith
Step-IsMissed (logs e f) v = grind arith
Step-IsMissed (logs_nil e f) v = grind arith
Step-IsMissed (signals e f g) v = grind arith
Step-IsMissed (signal_fails e f) v = grind arith
Step-IsMissed (signal_nil e f) v = grind arith
Step-IsMissed (refuses e f) v = grind arith
Step-IsMissed (refuses_nil e f) v = grind arith
Step-IsMissed (meets e f) v = grind arith

Reach-IsMissed : {s t : System} → Reach s t → IsMissed s → IsMissed t
Reach-IsMissed here v = v
Reach-IsMissed (next r x) v = Step-IsMissed x (Reach-IsMissed r v)

unsignalled-IsMissed : IsMissed unsignalled
unsignalled-IsMissed = grind arith

missed_alive :
    {t : System} → IsMissed t → (t.signalled ≡ false) × (t.child ≡ alive → t.stop ≡ waiting)
missed_alive v = (v.unsent, λ e. grind arith)

-- cmdStop can hang in two ways. If it comes before the first test of a round of cmdRun, both reach a
-- state where cmdStop waits and no step is left. If it comes between that test and the start, they
-- reach one where the program runs and cmdStop waits without having sent a signal; then none is ever
-- sent, and cmdStop waits as long as the program runs.
pub stop_hangs :
    (Reach start stuck × ((t : System) → Reach stuck t → t ≡ stuck))
    × Reach start unsignalled
    × ((t : System)
        → Reach unsignalled t
        → (t.signalled ≡ false) × (t.child ≡ alive → t.stop ≡ waiting))
stop_hangs = (
  (
    next (next (next here (marks refl)) (checks refl)) (signals_none refl refl),
    λ t r. Reach-stuck r,
  ),
  next (next (next (next here (checks refl)) (marks refl)) (signals_none refl refl)) (starts refl),
  λ t r. missed_alive (Reach-IsMissed r unsignalled-IsMissed),
)
