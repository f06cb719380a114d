-- ===== src/Dpll/Holdover.antt =====
-- The goroutine holdover (pkg/dpll/dpll.go): what it does in each case and at its end.
-- The offset at a tick, `round(slope * seconds since the start)`, is an argument, since it is
-- computed in floating point.
pub mod Safety
use np_linuxptp_daemon.Base.{
  ℕ, zero, suc, ◌+◌, ◌-◌, ◌*◌, ◌≤◌, ◌<◌, ◌≡◌, refl, sym, ap, ◌∙◌, ◌≢◌, ◌↔◌, ◌⊎◌, inl, inr, Bool,
  true, false, not, ◌&&◌, ◌||◌, List, [], ◌∷◌, ◌++◌, map, Option, none, some, String, arith, str_eq,
  str_eq_iff, if◌then◌else◌, any, All, Bool-cases, Option-cases, ◌==◌, ltb, leb, length, get_elem?,
  take, drop,
}
use np_linuxptp_daemon.Base.Int.{ℤ}
use np_linuxptp_daemon.Event.Types.{PtpState, freerun, EventSource}
use np_linuxptp_daemon.Dpll.Config.{
  Dpll, faulty_phase_offset, is_in_spec_offset_in_range, Effect, send_event, starts, closes, tries,
}
use np_linuxptp_daemon.Dpll.Decision.{state_decision}

-- `case <-ticker.C`. The last part says that the loop ends.
unfoldable pub holdover_tick : ℤ → ℤ → Dpll → (Dpll × List Effect) × Bool
holdover_tick now offset d =
    let moved = record d { phase_offset = offset } in
    let out = record moved { in_spec = false; state = freerun } in
    if d.frequency_traceable
    then ((moved, send_event now moved), false)
    else if not (is_in_spec_offset_in_range moved)
    then ((out, send_event now out), true)
    else ((moved, send_event now moved), false)

-- `case <-timeout`, which ends the loop.
unfoldable pub holdover_timeout : ℤ → Dpll → Dpll × List Effect
holdover_timeout now d =
    let out = record d { in_spec = false; state = freerun; phase_offset = faulty_phase_offset } in
    (out, send_event now out)

-- `case <-d.holdoverCloseCh`, which ends the loop.
unfoldable pub holdover_closed : Dpll → Dpll
holdover_closed d = record d { in_spec = true }

-- The deferred function.
unfoldable pub holdover_end : ℤ → Dpll → Option (Dpll × List Effect)
holdover_end now d = state_decision now (record d { on_holdover = false })
