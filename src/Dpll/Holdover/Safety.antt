-- ===== src/Dpll/Holdover/Safety.antt =====
-- What the decisions of a DPLL do to the goroutine of its holdover (pkg/dpll/dpll.go).
use mathlib.Core.Path.{subst}
use mathlib.Core.Option.{some-injective}
use np_linuxptp_daemon.Base.{◌≡◌, ◌≢◌, ◌⊎◌, true, false, ◌||◌, List, [], ◌∷◌, some, arith, any}
use np_linuxptp_daemon.Base.Int.{ℤ}
use np_linuxptp_daemon.Event.Types.{holdover, EventSource}
use np_linuxptp_daemon.Dpll.Config.{
  Dpll, Status, unlocked, locked_status, ho_acq, in_holdover, other, Effect, send_event, starts,
  closes, tries,
}
use np_linuxptp_daemon.Dpll.Decision.{
  dpll_status, decide_by, decide, after_decision, decide_unlocked, decide_locked, decide_pps,
  decide_acquired, decide_first, state_decision,
}
use np_linuxptp_daemon.Dpll.Holdover.{holdover_timeout, holdover_end}

-- What a decision does to the holdover: it marks it when it starts it, it leaves the state holdover
-- to one that is there or that it starts, it closes one only in another state and waits for that
-- only where one is marked, and it starts one only where none is marked and the DPLL is in spec.
pub record Minds (d : Dpll) (r : Dpll × List Effect) : Type 0 where
  pub marked : r.0.on_holdover ≡ (d.on_holdover || any starts r.1)
  pub entered : r.0.state ≡ holdover → (d.state ≡ holdover) ⊎ (any starts r.1 ≡ true)
  pub left : any closes r.1 || any tries r.1 ≡ true → r.0.state ≢ holdover
  pub once : any starts r.1 ≡ true → (d.on_holdover ≡ false) × (d.in_spec ≡ true)
  pub needs : any closes r.1 ≡ true → d.on_holdover ≡ true

decide_by-Minds :
    (now : ℤ) (src : EventSource) (s : Status) (d : Dpll)
    → Minds d (after_decision src (decide_by now src s d))
unfolding decide_by after_decision decide_unlocked decide_locked decide_pps decide_acquired
    send_event
decide_by-Minds now src unlocked d = ground arith
decide_by-Minds now src locked_status d = ground arith
decide_by-Minds now src ho_acq d = ground arith
decide_by-Minds now src in_holdover d = ground arith
decide_by-Minds now src other d = ground arith

decide_first-Minds :
    (now : ℤ) (srcs : List EventSource) (d : Dpll) {r : Dpll × List Effect}
    → decide_first now srcs d ≡ some r
    → Minds d r
unfolding decide
decide_first-Minds now [] d h = cc
decide_first-Minds now (src ∷ srcs) d h =
    subst (λ r. Minds d r) (some-injective _ _ h) (decide_by-Minds now src (dpll_status d) d)

-- Where nothing else changes the DPLL while stateDecision runs, whatever was read before: it marks
-- the holdover exactly when it starts one or one was marked; it is in the state holdover only if it
-- was before or starts one; it tells a holdover to close only in another state, and waits for that
-- only if one is marked; and it starts one only if none is marked and the DPLL was in spec.
pub state_decision-Minds :
    (now : ℤ) (d : Dpll) {r : Dpll × List Effect} → state_decision now d ≡ some r → Minds d r
unfolding state_decision
state_decision-Minds now d h = decide_first-Minds now d.depends_on d h

-- Where nothing else changes the DPLL between the timeout of a holdover and the decision at its end,
-- that decision does not start another, and the DPLL is not in holdover, though its status may be.
pub timeout_leaves_holdover :
    (now later : ℤ) (d : Dpll) {r : Dpll × List Effect}
    → holdover_end later (holdover_timeout now d).0 ≡ some r
    → (r.0.state ≢ holdover) × (any starts r.1 ≡ false)
unfolding holdover_timeout holdover_end
timeout_leaves_holdover now later d {r} h =
    let out = (holdover_timeout now d).0 in
    let m = state_decision-Minds later (record out { on_holdover = false }) {r = r} h in
    (ground (arith, m), ground (arith, m))
