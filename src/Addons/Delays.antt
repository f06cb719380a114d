-- ===== src/Addons/Delays.antt =====
-- The delay compensation of the E810 plugin (addons/intel/phaseAdjust.go): InitInternalDelays,
-- findInternalLink, addClockId, findDelayCompensation and sendDelayCompensation, and the calls of
-- the last two in OnPTPConfigChangeE810 (addons/intel/e810.go). Texts are of ASCII characters; the
-- table of the hardware is what its YAML says.
pub mod Clocks
use np_linuxptp_daemon.Base.{
  ℕ, suc, ◌+◌, ◌-◌, ◌^◌, Bool, true, false, not, ◌&&◌, List, [], ◌∷◌, ◌++◌, map, Option, none, some,
  if◌then◌else◌, leb, ltb, ◌%◌, ◌==◌,
}
use np_linuxptp_daemon.Base.Int.{ℤ, pos, negsuc, ◌+ℤ◌, ltb_ℤ, ◌-ℤ◌}
use np_linuxptp_daemon.Strings.{Bytes, codes, bytes_eq}
use np_linuxptp_daemon.Strings.Dict.{Dict, find}
use np_linuxptp_daemon.Strings.Number.{parse_uint}

-- `InternalLink`, less the variation, which nothing reads.
pub record InternalLink : Type 0 where
  pub connector : Bytes
  pub pin : Bytes
  pub delay_ps : ℤ

-- `InternalDelays`
pub record InternalDelays : Type 0 where
  pub part_type : Bytes
  pub external_inputs : List InternalLink
  pub external_outputs : List InternalLink
  pub gnss_input : InternalLink

abbrev link : Bytes → Bytes → ℤ → InternalLink
link connector pin delay_ps = record { connector = connector; pin = pin; delay_ps = delay_ps }

abbrev e810_part : Bytes
e810_part = codes "E810-XXVDA4T"

-- The entry of the table.
unfoldable pub e810_delays : InternalDelays
e810_delays = record {
  part_type = e810_part;
  external_inputs =
      link (codes "SMA1") (codes "SMA1") (pos 7658)
      ∷ link (codes "SMA2") (codes "SMA2/U.FL2") (pos 7385)
      ∷ link (codes "u.FL2") (codes "SMA2/U.FL2") (pos 9795)
      ∷ [];
  external_outputs =
      link (codes "u.FL1") (codes "REF-SMA1") (pos 1274)
      ∷ link (codes "SMA1") (codes "REF-SMA1") (pos 1376)
      ∷ link (codes "SMA2") (codes "REF-SMA2/U.FL2") (pos 2908)
      ∷ [];
  gnss_input = link (codes "GNSS") (codes "GNSS-1PPS") (pos 6999);
}

-- Why there are no compensations.
pub data Fault : Type 0 where
  no_part no_connector no_clock_id : Bytes → Fault

pub data Result {ℓ} (A : Type ℓ) : Type ℓ where
  ok : A → Result A
  fault : Fault → Result A

infixl 5 ◌>>=◌
abbrev pub ◌>>=◌ {ℓ κ} : {A : Type ℓ} {B : Type κ} → Result A → (A → Result B) → Result B
ok a >>= f = f a
fault e >>= f = fault e

-- `InitInternalDelays`
unfoldable pub init_internal_delays : Bytes → Result InternalDelays
unfolding e810_delays
init_internal_delays part = if bytes_eq e810_part part then ok e810_delays else fault (no_part part)

abbrev lower : ℕ → ℕ
lower c = if leb b'A' c && leb c b'Z' then c + 32 else c

-- `strings.EqualFold`
unfoldable pub equal_fold : Bytes → Bytes → Bool
unfolding bytes_eq
equal_fold s t = bytes_eq (map lower s) (map lower t)

-- `findInternalLink`, with the fault that its callers make of nil.
unfoldable pub find_internal_link : Bytes → List InternalLink → Result InternalLink
unfolding equal_fold
find_internal_link connector [] = fault (no_connector connector)
find_internal_link connector (l ∷ ls) =
    let rest = find_internal_link connector ls in
    if equal_fold l.connector connector then ok l else rest

abbrev pub clock_id_key : Bytes → Bytes
clock_id_key iface = codes "clockId[" ++ (iface ++ codes "]")

abbrev or_no_clock : Bytes → Option Bytes → Result Bytes
or_no_clock iface none = fault (no_clock_id iface)
or_no_clock iface (some id) = ok id

-- `addClockId`, on the settings of the profile.
unfoldable pub add_clock_id : Bytes → Dict Bytes → Result Bytes
unfolding find
add_clock_id iface settings = or_no_clock iface (find (clock_id_key iface) settings)

-- `InputDelay` and `InputPhaseDelays`
pub record InputDelay : Type 0 where
  pub connector : Bytes
  pub delay_ps : ℤ

pub record Card : Type 0 where
  pub id : Bytes
  pub part : Bytes
  pub input : Option InputDelay
  pub gnss_input : Bool
  pub outputs : List Bytes

-- `delayCompensation`
pub data Direction : Type 0 where
  input output : Direction

pub record Compensation : Type 0 where
  pub delay_ps : ℤ
  pub pin_label : Bytes
  pub iface : Bytes
  pub direction : Direction
  pub clock_id : Bytes

-- The 32 bits of an int32.
unfoldable pub wrap_int32 : ℤ → ℤ
wrap_int32 (pos n) = let m = n % 2 ^ 32 in if ltb m (2 ^ 31) then pos m else negsuc (2 ^ 32 - 1 - m)
wrap_int32 (negsuc n) =
    let m = n % 2 ^ 32 in if ltb m (2 ^ 31) then negsuc m else pos (2 ^ 32 - 1 - m)

-- One compensation, for a link of the card.
unfoldable pub compensate :
    ℤ → InternalLink → Direction → Card → Dict Bytes → Result (List Compensation)
unfolding add_clock_id
compensate delay l direction card settings = do
  clock_id ← add_clock_id card.id settings
  ok (
      record {
        delay_ps = delay;
        pin_label = l.pin;
        iface = card.id;
        direction = direction;
        clock_id = clock_id;
      }
      ∷ [])

abbrev pub input_part :
    InternalDelays → Option InputDelay → Card → Dict Bytes → Result (List Compensation)
input_part delays none card settings = ok []
input_part delays (some i) card settings = do
  l ← find_internal_link i.connector delays.external_inputs
  compensate (wrap_int32 (wrap_int32 i.delay_ps +ℤ l.delay_ps)) l input card settings

abbrev pub gnss_part : InternalDelays → Bool → Card → Dict Bytes → Result (List Compensation)
gnss_part delays true card settings =
    compensate delays.gnss_input.delay_ps delays.gnss_input input card settings
gnss_part delays false card settings = ok []

-- The loop over the connectors of the outputs.
unfoldable pub output_loop :
    InternalDelays → List Bytes → Card → Dict Bytes → Result (List Compensation)
unfolding find_internal_link compensate
output_loop delays [] card settings = ok []
output_loop delays (o ∷ os) card settings = do
  l ← find_internal_link o delays.external_outputs
  c ← compensate l.delay_ps l output card settings
  rest ← output_loop delays os card settings
  ok (c ++ rest)

-- What one card adds.
unfoldable pub card_compensations : Card → Dict Bytes → Result (List Compensation)
unfolding init_internal_delays find_internal_link compensate output_loop wrap_int32
card_compensations card settings = do
  delays ← init_internal_delays card.part
  i ← input_part delays card.input card settings
  g ← gnss_part delays card.gnss_input card settings
  o ← output_loop delays card.outputs card settings
  ok (i ++ (g ++ o))

-- `findDelayCompensation`
unfoldable pub find_delay_compensation : List Card → Dict Bytes → Result (List Compensation)
unfolding card_compensations
find_delay_compensation [] settings = ok []
find_delay_compensation (card ∷ cards) settings = do
  c ← card_compensations card settings
  rest ← find_delay_compensation cards settings
  ok (c ++ rest)

-- The fields of a pin that are read.
pub record Pin : Type 0 where
  pub id : ℕ
  pub clock_id : ℕ
  pub board_label : Bytes

-- How the sending ends; before that, the adjustments made: the pin and the delay.
pub data Sent : Type 0 where
  sent no_dial no_pins bad_clock_id refused nil_panic : Sent

abbrev pub Adjusted : Type 0
Adjusted = List (ℕ × ℤ) × Sent

abbrev before : List (ℕ × ℤ) → Adjusted → Adjusted
before l (m, end) = (l ++ m, end)

module _ (accepts : ℕ → ℤ → Bool) where
  abbrev adjust : Pin → Compensation → Option ℕ → Adjusted → Adjusted
  adjust p c none rest = ([], bad_clock_id)
  adjust p c (some id) rest =
      if (id == p.clock_id) && equal_fold p.board_label c.pin_label
      then (if accepts p.id c.delay_ps
          then before ((p.id, c.delay_ps) ∷ []) rest
          else ([], refused))
      else rest

  -- The inner loop, with what follows it.
  unfoldable pub comp_loop : Pin → List Compensation → Adjusted → Adjusted
  unfolding equal_fold parse_uint
  comp_loop p [] rest = rest
  comp_loop p (c ∷ cs) rest = adjust p c (parse_uint 64 c.clock_id) (comp_loop p cs rest)

  -- The loop over the pins; `none` is the nil pointer, which the inner loop reads.
  unfoldable pub pin_loop : List Pin → Option (List Compensation) → Adjusted
  unfolding comp_loop
  pin_loop [] comps = ([], sent)
  pin_loop (p ∷ ps) none = ([], nil_panic)
  pin_loop (p ∷ ps) (some cs) = comp_loop p cs (pin_loop ps (some cs))

  abbrev send_to : Option (List Pin) → Option (List Compensation) → Adjusted
  send_to none comps = ([], no_pins)
  send_to (some pins) comps = pin_loop pins comps

  -- `sendDelayCompensation`, on whether the dial succeeds and what the dump of the pins gives.
  unfoldable pub send_delay_compensation :
      Bool → Option (List Pin) → Option (List Compensation) → Adjusted
  unfolding pin_loop
  send_delay_compensation dialled pins comps = if dialled then send_to pins comps else ([], no_dial)

  abbrev pub pointer_of : Result (List Compensation) → Option (List Compensation)
  pointer_of (fault e) = none
  pointer_of (ok cs) = some cs

  -- The two calls of `OnPTPConfigChangeE810`: an error of the first is logged.
  unfoldable pub apply_delays : Bool → Option (List Pin) → List Card → Dict Bytes → Adjusted
  unfolding send_delay_compensation find_delay_compensation
  apply_delays dialled pins cards settings =
      send_delay_compensation dialled pins (pointer_of (find_delay_compensation cards settings))
