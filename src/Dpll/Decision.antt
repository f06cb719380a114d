-- ===== src/Dpll/Decision.antt =====
-- stateDecision (pkg/dpll/dpll.go).
pub mod Laws
use np_linuxptp_daemon.Base.{
  ℕ, zero, suc, ◌+◌, ◌-◌, ◌*◌, ◌≤◌, ◌<◌, ◌≡◌, refl, sym, ap, ◌∙◌, ◌≢◌, ◌↔◌, ◌⊎◌, inl, inr, Bool,
  true, false, not, ◌&&◌, ◌||◌, List, [], ◌∷◌, ◌++◌, map, Option, none, some, String, arith, str_eq,
  str_eq_iff, if◌then◌else◌, any, All, Bool-cases, Option-cases, ◌==◌, ltb, leb, length, get_elem?,
  take, drop,
}
use np_linuxptp_daemon.Base.Int.{ℤ}
use np_linuxptp_daemon.Event.Types.{
  PtpState, freerun, locked, holdover, EventSource, gnss, pps, source_eq,
}
use np_linuxptp_daemon.Dpll.Config.{
  Dpll, faulty_phase_offset, Status, unlocked, locked_status, ho_acq, in_holdover, other, status_of,
  worse_state, is_offset_in_range, Effect, start_holdover, close_holdover, try_close_holdover,
  send_event,
}

-- Everything below takes `d.dependsOn[0]` as the argument `src`.
abbrev close_if : EventSource → Dpll → Effect → List Effect
close_if src d e = if source_eq src gnss && d.on_holdover then e ∷ [] else []

abbrev with_event : ℤ → List Effect → Dpll → Dpll × List Effect
with_event now effects d = (d, effects ++ send_event now d)

-- `case DPLL_FREERUN, DPLL_INVALID, DPLL_UNKNOWN`
unfoldable pub decide_unlocked : ℤ → EventSource → Dpll → Dpll × List Effect
decide_unlocked now src d = with_event now (close_if src d close_holdover) (record d {
  in_spec = false;
  source_lost = true;
  state = freerun;
  phase_offset = faulty_phase_offset;
})

-- `case DPLL_LOCKED`
unfoldable pub decide_locked : ℤ → EventSource → Dpll → Dpll × List Effect
decide_locked now src d =
    if not d.source_lost && is_offset_in_range d
    then with_event now (close_if src d close_holdover)
        (record d { state = locked; in_spec = true })
    else with_event now [] (record d { state = freerun; in_spec = true })

-- `case d.hasPPSAsSource()`
unfoldable pub decide_pps : ℤ → Bool → Dpll → Dpll × List Effect
decide_pps now is_holdover d = with_event now [] (
    if is_holdover
    then record d { state = freerun; phase_offset = faulty_phase_offset; source_lost = true }
    else if is_offset_in_range d
    then record d { state = locked; source_lost = false }
    else record d { state = freerun; source_lost = false })

-- The other cases of `case DPLL_LOCKED_HO_ACQ, DPLL_HOLDOVER`. The last part says that the
-- function returns there.
unfoldable pub decide_acquired : ℤ → EventSource → Dpll → (Dpll × List Effect) × Bool
decide_acquired now src d =
    if not d.source_lost && is_offset_in_range d
    then (
      with_event now (close_if src d try_close_holdover)
          (record d { in_spec = true; state = locked }),
      false,
    )
    else if d.source_lost && d.in_spec
    then (
      if d.on_holdover
          then (d, [])
          else (record d { on_holdover = true; state = holdover }, start_holdover ∷ []),
      true,
    )
    else if not d.in_spec
    then (
      with_event now (try_close_holdover ∷ [])
          (record d { state = freerun; phase_offset = faulty_phase_offset }),
      false,
    )
    else (with_event now [] d, false)

-- The end of the function: with PPS as the source its loss is taken back.
unfoldable pub after_decision : EventSource → (Dpll × List Effect) × Bool → Dpll × List Effect
after_decision src (result, true) = result
after_decision src ((d, effects), false) =
    ((if source_eq src pps then record d { source_lost = false } else d), effects)

unfoldable pub decide_by : ℤ → EventSource → Status → Dpll → (Dpll × List Effect) × Bool
decide_by now src unlocked d = (decide_unlocked now src d, false)
decide_by now src locked_status d = (decide_locked now src d, false)
decide_by now src ho_acq d =
    if source_eq src pps then (decide_pps now false d, false) else decide_acquired now src d
decide_by now src in_holdover d =
    if source_eq src pps then (decide_pps now true d, false) else decide_acquired now src d
decide_by now src other d = ((d, []), false)

-- The lock status that the decision goes by.
abbrev pub dpll_status : Dpll → Status
dpll_status d = status_of (worse_state d.phase_status d.frequency_status)

unfoldable pub decide : ℤ → EventSource → Dpll → Dpll × List Effect
decide now src d = after_decision src (decide_by now src (dpll_status d) d)

abbrev pub decide_first : ℤ → List EventSource → Dpll → Option (Dpll × List Effect)
decide_first now [] d = none
decide_first now (src ∷ srcs) d = some (decide now src d)

-- `stateDecision`; `none` is the panic of `d.dependsOn[0]` on an empty slice.
unfoldable pub state_decision : ℤ → Dpll → Option (Dpll × List Effect)
state_decision now d = decide_first now d.depends_on d
