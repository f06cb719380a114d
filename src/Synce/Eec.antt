-- ===== src/Synce/Eec.antt =====
-- EECState (pkg/synce/synce.go): its text, and the PTP state that it stands for.
use np_linuxptp_daemon.Base.{ℕ, ◌≡◌, refl, Bool, true, false, String, str_eq, if◌then◌else◌}
use np_linuxptp_daemon.Event.Types.{PtpState, freerun, holdover, locked, unknown}

-- The constants of `EECState`; `other` is any other number.
pub data EecState : Type 0 where
  eec_unknown eec_invalid eec_freerun eec_locked eec_locked_ho_acq eec_holdover : EecState
  other : ℕ → EecState

-- `EECState.String`
unfoldable pub eec_text : EecState → String
eec_text eec_unknown = "EEC_UNKNOWN"
eec_text eec_invalid = "EEC_INVALID"
eec_text eec_freerun = "EEC_FREERUN"
eec_text eec_locked = "EEC_LOCKED"
eec_text eec_locked_ho_acq = "EEC_LOCKED_HO_ACQ"
eec_text eec_holdover = "EEC_HOLDOVER"
eec_text (other n) = "EEC_UNKNOWN"

-- `ToPTPState`
unfoldable pub to_ptp_state : EecState → PtpState
to_ptp_state eec_unknown = unknown
to_ptp_state eec_invalid = unknown
to_ptp_state eec_freerun = freerun
to_ptp_state eec_locked = locked
to_ptp_state eec_locked_ho_acq = locked
to_ptp_state eec_holdover = holdover
to_ptp_state (other n) = unknown

-- `StringToEECState`
unfoldable pub string_to_eec_state : String → EecState
string_to_eec_state s =
    if str_eq s "EEC_FREERUN"
    then eec_freerun
    else if str_eq s "EEC_LOCKED"
    then eec_locked
    else if str_eq s "EEC_INVALID"
    then eec_invalid
    else if str_eq s "EEC_LOCKED_HO_ACQ"
    then eec_locked_ho_acq
    else if str_eq s "EEC_HOLDOVER"
    then eec_holdover
    else eec_unknown

abbrev pub is_other : EecState → Bool
is_other (other n) = true
is_other _ = false

-- Every named state is read back from its text, and a number without a name as unknown; the PTP
-- state is kept in either case.
pub string_to_eec_state-eec_text :
    (e : EecState)
    → (string_to_eec_state (eec_text e) ≡ (if is_other e then eec_unknown else e))
      × (to_ptp_state (string_to_eec_state (eec_text e)) ≡ to_ptp_state e)
unfolding string_to_eec_state eec_text to_ptp_state
string_to_eec_state-eec_text eec_unknown = (refl, refl)
string_to_eec_state-eec_text eec_invalid = (refl, refl)
string_to_eec_state-eec_text eec_freerun = (refl, refl)
string_to_eec_state-eec_text eec_locked = (refl, refl)
string_to_eec_state-eec_text eec_locked_ho_acq = (refl, refl)
string_to_eec_state-eec_text eec_holdover = (refl, refl)
string_to_eec_state-eec_text (other n) = (refl, refl)
