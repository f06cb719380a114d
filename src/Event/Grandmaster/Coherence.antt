-- ===== src/Event/Grandmaster/Coherence.antt =====
-- The clock class and the accuracy that go with a grandmaster state (updateGMState in
-- pkg/event/event.go).
use np_linuxptp_daemon.Base.{◌≡◌, ◌⊎◌, Bool, true, false, ◌&&◌, arith}
use np_linuxptp_daemon.Event.Types.{PtpState, no_state, freerun, holdover, locked, unknown}
use np_linuxptp_daemon.Event.Grandmaster.{
  GmSync, Inputs, gm_decide, class_6, class_7, class_out_of_spec, class_freerun,
  class_uninitialized, accuracy_unknown, accuracy_nanosecond_100,
}

-- Locked goes with class 6 and an accuracy of 100 ns, holdover with class 7, freerun with class
-- 248 or 140, or with none yet, and an unknown accuracy.
pub record IsCoherent (g : GmSync) : Type 0 where
  pub when_locked :
      g.state ≡ locked → (g.clock_class ≡ class_6) × (g.clock_accuracy ≡ accuracy_nanosecond_100)
  pub when_holdover : g.state ≡ holdover → g.clock_class ≡ class_7
  pub when_freerun :
      g.state ≡ freerun
      → ((g.clock_class ≡ class_freerun)
          ⊎ ((g.clock_class ≡ class_out_of_spec) ⊎ (g.clock_class ≡ class_uninitialized)))
        × (g.clock_accuracy ≡ accuracy_unknown)

abbrev is_other_dpll : PtpState → Bool
is_other_dpll no_state = true
is_other_dpll unknown = true
is_other_dpll _ = false

abbrev is_other_gnss : PtpState → Bool
is_other_gnss locked = false
is_other_gnss freerun = false
is_other_gnss _ = true

-- The inputs of the branch that the code calls the bad case.
abbrev pub is_bad : Inputs → Bool
is_bad i = is_other_dpll i.dpll_state && is_other_gnss i.gnss_state

-- Outside the bad case the decision keeps the clock class and the accuracy in line with the state.
pub gm_decide-IsCoherent :
    (i : Inputs) (g : GmSync) → is_bad i ≡ false → IsCoherent g → IsCoherent (gm_decide i g)
unfolding gm_decide
gm_decide-IsCoherent i g good h = ground arith

-- In the bad case a locked ts2phc makes the grandmaster locked with clock class 7, that of
-- holdover, so that the result is not coherent.
pub gm_decide_bad :
    (i : Inputs) (g : GmSync)
    → is_bad i ≡ true
    → i.ts2phc_state ≡ locked
    → ((gm_decide i g).state ≡ locked)
      × ((gm_decide i g).clock_class ≡ class_7)
      × (¬ IsCoherent (gm_decide i g))
unfolding gm_decide
gm_decide_bad i g bad t = (ground arith, ground arith, λ c. ground (arith, c.when_locked))
