-- ===== src/Dpll/Netlink.antt =====
-- nlUpdateState, PhaseOffsetPin and SetPhaseOffset (pkg/dpll/dpll.go): what the replies of the
-- netlink interface change in a DPLL.
use np_linuxptp_daemon.Base.{
  ℕ, ◌≡◌, refl, Bool, true, false, not, ◌&&◌, ◌||◌, List, [], ◌∷◌, String, arith, str_eq,
  if◌then◌else◌, any, All, ◌==◌,
}
use np_linuxptp_daemon.Base.Int.{ℤ, pos, eqb_ℤ, quot}
use np_linuxptp_daemon.Base.Map.{Map}
use np_linuxptp_daemon.Dpll.Config.{Dpll}

-- The fields of `DoDeviceGetReply` that are read.
pub record DeviceReply : Type 0 where
  pub clock_id : ℕ
  pub lock_status : ℕ
  pub type : ℕ

-- The fields of `DoPinGetReply` that are read; `phase_offset` is that of the parent device.
pub record PinReply : Type 0 where
  pub clock_id : ℕ
  pub phase_offset : ℤ
  pub board_label : String
  pub panel_label : String

abbrev pub max_int64 : ℤ
max_int64 = pos 9223372036854775807

-- One round of the loop over the filter: the pin is refused.
unfoldable pub refuses : PinReply → String × String → Bool
refuses pin (k, v) =
    if str_eq k "boardLabel"
    then not (str_eq pin.board_label v)
    else if str_eq k "panelLabel"
    then not (str_eq pin.panel_label v)
    else false

filter_loop : PinReply → Map String → Bool
filter_loop pin [] = true
filter_loop pin (kv ∷ m) = let rest = filter_loop pin m in if refuses pin kv then false else rest

-- `PhaseOffsetPin`
unfoldable pub phase_offset_pin : Dpll → PinReply → Bool
unfolding filter_loop
phase_offset_pin d pin =
    if (pin.clock_id == d.clock_id) && not (eqb_ℤ pin.phase_offset max_int64)
    then filter_loop pin d.pin_filter
    else false

-- `SetPhaseOffset`: from picoseconds times 1000 to nanoseconds. The quotient is below 2^53, so the
-- conversion to a float64 and its rounding change nothing.
unfoldable pub set_phase_offset : ℤ → Dpll → Dpll
unfolding quot
set_phase_offset x d = record d { phase_offset = quot (quot x 1000) 1000 }

-- `GetDpllType`: 1 is pps, 2 is eec.
unfoldable pub store_status : DeviceReply → Dpll → Dpll × Bool
store_status r d =
    if r.type == 2
    then (record d { frequency_status = pos r.lock_status }, true)
    else if r.type == 1
    then (record d { phase_status = pos r.lock_status }, true)
    else (d, false)

-- One round of the loop over the devices.
unfoldable pub device_round : DeviceReply → Dpll × Bool → Dpll × Bool
device_round r (d, valid) =
    if (r.clock_id == d.clock_id) && not (r.lock_status == 0)
    then ((store_status r d).0, (store_status r d).1 || valid)
    else (d, valid)

unfoldable pub device_loop : List DeviceReply → Dpll × Bool → Dpll × Bool
device_loop [] s = s
device_loop (r ∷ rs) s = device_loop rs (device_round r s)

unfoldable pub pin_loop : List PinReply → Dpll × Bool → Dpll × Bool
pin_loop [] s = s
pin_loop (p ∷ ps) (d, valid) =
    pin_loop ps
      (if phase_offset_pin d p then (set_phase_offset p.phase_offset d, true) else (d, valid))

-- `nlUpdateState`
unfoldable pub nl_update_state : List DeviceReply → List PinReply → Dpll → Dpll × Bool
nl_update_state devices pins d = pin_loop pins (device_loop devices (d, false))

filter_loop-eq-any :
    (pin : PinReply) (m : Map String) → filter_loop pin m ≡ not (any (refuses pin) m)
unfolding filter_loop
filter_loop-eq-any pin [] = refl
filter_loop-eq-any pin (kv ∷ m) = ground (arith, filter_loop-eq-any pin m)

-- A pin is accepted exactly when it is of the DPLL's clock, has an offset, and no entry of the
-- filter refuses it, in whatever order the entries are tried.
pub phase_offset_pin-eq-any :
    (d : Dpll) (pin : PinReply)
    → phase_offset_pin d pin ≡ (
        (pin.clock_id == d.clock_id)
        && (not (eqb_ℤ pin.phase_offset max_int64) && not (any (refuses pin) d.pin_filter)))
unfolding phase_offset_pin
phase_offset_pin-eq-any d pin = ground (arith, filter_loop-eq-any pin d.pin_filter)

-- Whether a reply is of another clock, or of an invalid lock status or an unknown type.
abbrev pub is_foreign : ℕ → DeviceReply → Bool
is_foreign id r =
    not (r.clock_id == id) || ((r.lock_status == 0) || (not (r.type == 1) && not (r.type == 2)))

device_round_foreign :
    (r : DeviceReply) (d : Dpll) (valid : Bool)
    → is_foreign d.clock_id r ≡ true
    → device_round r (d, valid) ≡ (d, valid)
unfolding device_round store_status
device_round_foreign r d valid h = ground arith

device_loop_foreign :
    (rs : List DeviceReply) (d : Dpll) (valid : Bool)
    → All (λ r. is_foreign d.clock_id r ≡ true) rs
    → device_loop rs (d, valid) ≡ (d, valid)
unfolding device_loop
device_loop_foreign [] d valid h = refl
device_loop_foreign (r ∷ rs) d valid h =
    rw (device_round_foreign r d valid h.0) (device_loop_foreign rs d valid h.1)

pin_loop_foreign :
    (ps : List PinReply) (d : Dpll) (valid : Bool)
    → All (λ p. phase_offset_pin d p ≡ false) ps
    → pin_loop ps (d, valid) ≡ (d, valid)
unfolding pin_loop
pin_loop_foreign [] d valid h = refl
pin_loop_foreign (p ∷ ps) d valid h = rw h.0 (pin_loop_foreign ps d valid h.1)

-- Replies of other clocks, of an invalid status or of no known type, and pins that are not
-- accepted, change nothing, and no decision follows.
pub nl_update_state_foreign :
    (devices : List DeviceReply) (pins : List PinReply) (d : Dpll)
    → All (λ r. is_foreign d.clock_id r ≡ true) devices
    → All (λ p. phase_offset_pin d p ≡ false) pins
    → nl_update_state devices pins d ≡ (d, false)
unfolding nl_update_state
nl_update_state_foreign devices pins d fd fp =
    rw (device_loop_foreign devices d false fd) (pin_loop_foreign pins d false fp)

-- A valid reply of the DPLL's own clock is stored as the status of its type, and a decision follows;
-- the status of the other type stays.
pub nl_update_state_one :
    (r : DeviceReply) (d : Dpll)
    → is_foreign d.clock_id r ≡ false
    → let (d', valid) = nl_update_state (r ∷ []) [] d in
      (valid ≡ true)
      × (d'.frequency_status ≡ (if r.type == 2 then pos r.lock_status else d.frequency_status))
      × (d'.phase_status ≡ (if r.type == 1 then pos r.lock_status else d.phase_status))
      × (d'.phase_offset ≡ d.phase_offset)
unfolding nl_update_state device_loop device_round store_status pin_loop
nl_update_state_one r d own = (ground arith, ground arith, ground arith, ground arith)
