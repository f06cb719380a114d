-- ===== src/Dpll/Decision/Laws.antt =====
-- What stateDecision (pkg/dpll/dpll.go) decides.
use np_linuxptp_daemon.Base.{◌≡◌, ◌≢◌, ◌⊎◌, Bool, true, false, not, ◌&&◌, arith, if◌then◌else◌, any}
use np_linuxptp_daemon.Base.Int.{ℤ, ◌≤ℤ◌}
use np_linuxptp_daemon.Event.Types.{freerun, locked, EventSource, pps, source_eq}
use np_linuxptp_daemon.Dpll.Config.{
  Dpll, faulty_phase_offset, Status, unlocked, locked_status, ho_acq, in_holdover, other,
  worse_state, quality, is_offset_in_range, starts, send_event,
}
use np_linuxptp_daemon.Dpll.Decision.{
  dpll_status, decide_by, decide, after_decision, decide_unlocked, decide_locked, decide_pps,
  decide_acquired,
}

-- The worse of two lock states is one of the two, and no better than either.
pub worse_state_lem :
    (p f : ℤ)
    → ((worse_state p f ≡ p) ⊎ (worse_state p f ≡ f))
      × (quality (worse_state p f) ≤ℤ quality p)
      × (quality (worse_state p f) ≤ℤ quality f)
unfolding worse_state
worse_state_lem p f = (ground arith, ground arith, ground arith)

-- The lock states in which a DPLL has acquired holdover or is in it.
abbrev pub is_acquired : Status → Bool
is_acquired ho_acq = true
is_acquired in_holdover = true
is_acquired _ = false

-- What a decision needs to report locked: the state was locked already and is kept, or the DPLL is
-- locked, has acquired holdover or is in holdover, its offset is in range, and its source is there
-- or is PPS.
abbrev pub CanLock : EventSource → Dpll → Type 0
CanLock src d =
    (dpll_status d ≢ unlocked)
    × (is_offset_in_range d ≡ true)
    × ((d.source_lost ≡ false) ⊎ (source_eq src pps ≡ true))

decide_by-locked :
    (now : ℤ) (src : EventSource) (s : Status) (d : Dpll)
    → (after_decision src (decide_by now src s d)).0.state ≡ locked
    → (d.state ≡ locked)
      ⊎ ((s ≢ unlocked)
          × (is_offset_in_range d ≡ true)
          × ((d.source_lost ≡ false) ⊎ (source_eq src pps ≡ true)))
unfolding decide_by after_decision decide_unlocked decide_locked decide_pps decide_acquired
decide_by-locked now src unlocked d h = ground arith
decide_by-locked now src locked_status d h = ground arith
decide_by-locked now src ho_acq d h = ground arith
decide_by-locked now src in_holdover d h = ground arith
decide_by-locked now src other d h = ground arith

-- A decision ends in locked only if the state was locked before, or the DPLL is not unlocked, its
-- offset is in range and its source is there or is PPS.
pub decide-locked :
    (now : ℤ) (src : EventSource) (d : Dpll)
    → (decide now src d).0.state ≡ locked
    → (d.state ≡ locked) ⊎ CanLock src d
unfolding decide
decide-locked now src d h = decide_by-locked now src (dpll_status d) d h

-- An unlocked DPLL is in freerun and out of spec, and its offset is the faulty one.
pub decide_unlocked_lem :
    (now : ℤ) (src : EventSource) (d : Dpll)
    → dpll_status d ≡ unlocked
    → ((decide now src d).0.state ≡ freerun)
      × ((decide now src d).0.in_spec ≡ false)
      × ((decide now src d).0.phase_offset ≡ faulty_phase_offset)
unfolding decide decide_by after_decision decide_unlocked
decide_unlocked_lem now src d h = (ground arith, ground arith, ground arith)

-- A locked DPLL is in spec, and in state locked if its source is there and its offset in range,
-- else in freerun.
pub decide_locked_lem :
    (now : ℤ) (src : EventSource) (d : Dpll)
    → dpll_status d ≡ locked_status
    → ((decide now src d).0.in_spec ≡ true)
      × ((decide now src d).0.state
          ≡ (if not d.source_lost && is_offset_in_range d then locked else freerun))
unfolding decide decide_by after_decision decide_locked
decide_locked_lem now src d h = (ground arith, ground arith)

decide_by-starts :
    (now : ℤ) (src : EventSource) (s : Status) (d : Dpll)
    → any starts (after_decision src (decide_by now src s d)).1 ≡ (
        is_acquired s
        && (not (source_eq src pps) && (d.source_lost && (d.in_spec && not d.on_holdover))))
unfolding decide_by after_decision decide_unlocked decide_locked decide_pps decide_acquired
    send_event
decide_by-starts now src unlocked d = ground arith
decide_by-starts now src locked_status d = ground arith
decide_by-starts now src ho_acq d = ground arith
decide_by-starts now src in_holdover d = ground arith
decide_by-starts now src other d = ground arith

-- The decision starts a holdover exactly when the source is not PPS and is lost, the DPLL has
-- acquired holdover or is in it, is in spec, and no holdover is running.
pub decide-starts :
    (now : ℤ) (src : EventSource) (d : Dpll)
    → any starts (decide now src d).1 ≡ (
        is_acquired (dpll_status d)
        && (not (source_eq src pps) && (d.source_lost && (d.in_spec && not d.on_holdover))))
unfolding decide
decide-starts now src d = decide_by-starts now src (dpll_status d) d

-- In holdover, or with holdover acquired, a DPLL that is in spec, has its source (which is not PPS)
-- and is out of range keeps its state and everything else; it only reports it once more.
pub decide_out_of_range :
    (now : ℤ) (src : EventSource) (d : Dpll)
    → is_acquired (dpll_status d) ≡ true
    → source_eq src pps ≡ false
    → d.source_lost ≡ false
    → is_offset_in_range d ≡ false
    → d.in_spec ≡ true
    → decide now src d ≡ (d, send_event now d)
unfolding decide decide_by after_decision decide_acquired
decide_out_of_range now src d a s l r i = ground arith
