-- ===== src/Event/Grandmaster/Table.antt =====
-- The table over updateGMState (pkg/event/event.go) against the decision.
use np_linuxptp_daemon.Base.{ℕ, ◌≡◌, ◌⊎◌, true, false, arith}
use np_linuxptp_daemon.Event.Types.{PtpState, freerun, holdover, locked, not_set}
use np_linuxptp_daemon.Event.Grandmaster.{
  GmSync, Inputs, gm_decide, class_6, class_7, class_out_of_spec, class_freerun,
}

-- What the decision is to give: the rows of the table in the comment over updateGMState, where two
-- rows of it are split. A DPLL in freerun out of spec has class 140 only with a traceable frequency,
-- and class 248 without one; GNSS in freerun waits for the DPLL where its source is lost, also
-- where the DPLL is absent. The grandmaster that waits keeps its state and its class.
pub data Row (i : Inputs) (g : GmSync) : PtpState → ℕ → Type 0 where
  dpll_in_freerun : i.dpll_state ≡ freerun → i.out_of_spec ≡ false → Row i g freerun class_freerun
  traceable :
      i.dpll_state ≡ freerun
      → i.out_of_spec ≡ true
      → i.frequency_traceable ≡ true
      → Row i g freerun class_out_of_spec
  untraceable :
      i.dpll_state ≡ freerun
      → i.out_of_spec ≡ true
      → i.frequency_traceable ≡ false
      → Row i g freerun class_freerun
  in_spec : i.dpll_state ≡ holdover → Row i g holdover class_7
  all_locked :
      (i.dpll_state ≡ locked) ⊎ (i.dpll_state ≡ not_set)
      → i.gnss_state ≡ locked
      → i.ts2phc_state ≡ locked
      → Row i g locked class_6
  ts2phc_in_freerun :
      (i.dpll_state ≡ locked) ⊎ (i.dpll_state ≡ not_set)
      → i.gnss_state ≡ locked
      → i.ts2phc_state ≡ freerun
      → Row i g freerun class_freerun
  gnss_waits :
      (i.dpll_state ≡ locked) ⊎ (i.dpll_state ≡ not_set)
      → i.gnss_state ≡ freerun
      → i.src_lost ≡ true
      → (i.ts2phc_state ≡ locked) ⊎ (i.ts2phc_state ≡ freerun)
      → Row i g g.state g.clock_class
  gnss_offset :
      (i.dpll_state ≡ locked) ⊎ (i.dpll_state ≡ not_set)
      → i.gnss_state ≡ freerun
      → i.src_lost ≡ false
      → (i.ts2phc_state ≡ locked) ⊎ (i.ts2phc_state ≡ freerun)
      → Row i g freerun class_freerun

-- The decision gives what Row says. It is the table over updateGMState but for two rows: a DPLL in
-- freerun out of spec has class 140 with a traceable frequency and 248 without one, and without a
-- DPLL, GNSS in freerun gives freerun and 248 while its source is there and keeps the state and the
-- class while it is lost, as it does with a locked DPLL.
pub Row-gm_decide :
    (i : Inputs) (g : GmSync) {s : PtpState} {c : ℕ}
    → Row i g s c
    → ((gm_decide i g).state ≡ s) × ((gm_decide i g).clock_class ≡ c)
unfolding gm_decide
Row-gm_decide i g (dpll_in_freerun d o) = ground arith
Row-gm_decide i g (traceable d o f) = ground arith
Row-gm_decide i g (untraceable d o f) = ground arith
Row-gm_decide i g (in_spec d) = ground arith
Row-gm_decide i g (all_locked d s t) = ground arith
Row-gm_decide i g (ts2phc_in_freerun d s t) = ground arith
Row-gm_decide i g (gnss_waits d s l t) = ground arith
Row-gm_decide i g (gnss_offset d s l t) = ground arith
