-- ===== src/Event/Stats/Combined.antt =====
-- Data.UpdateState (pkg/event/stats.go) against a description by priority.
use np_linuxptp_daemon.Base.{◌≡◌, Bool, ◌||◌, List, [], ◌∷◌, arith, if◌then◌else◌, any}
use np_linuxptp_daemon.Event.Types.{PtpState, freerun, holdover, locked, unknown, state_eq}
use np_linuxptp_daemon.Event.Stats.{DataDetails, Data, update_loop, update_state}

-- Whether some interface is in a state.
abbrev pub some_in : PtpState → List DataDetails → Bool
some_in s = any (λ d. state_eq d.state s)

-- The state of several interfaces by priority: holdover, then freerun, then locked.
abbrev pub combined_from : PtpState → List DataDetails → PtpState
combined_from s ds =
    if state_eq s holdover || some_in holdover ds
    then holdover
    else if state_eq s freerun || some_in freerun ds
    then freerun
    else if state_eq s locked || some_in locked ds
    then locked
    else s

abbrev pub combined : List DataDetails → PtpState
combined = combined_from unknown

update_loop-eq-combined_from :
    (s : PtpState) (ds : List DataDetails) → update_loop s ds ≡ combined_from s ds
unfolding update_loop
update_loop-eq-combined_from s [] = ground arith
update_loop-eq-combined_from s (d ∷ ds) = ground (
  arith,
  update_loop-eq-combined_from s ds,
  update_loop-eq-combined_from freerun ds,
  update_loop-eq-combined_from holdover ds,
  update_loop-eq-combined_from locked ds,
)

-- The state stored by UpdateState is holdover if an interface is in holdover, else freerun if one
-- is in freerun, else locked if one is locked, else unknown.
pub update_state-eq-combined : (d : Data) → (update_state d).state ≡ combined d.details
unfolding update_state
update_state-eq-combined d = update_loop-eq-combined_from unknown d.details
