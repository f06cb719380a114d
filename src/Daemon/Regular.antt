-- ===== src/Daemon/Regular.antt =====
-- The log lines with one offset (pkg/daemon/metrics.go): extractRegularMetrics. A floating-point
-- number and its parser are parameters.
pub mod Total
use np_linuxptp_daemon.Base.{
  ℕ, Bool, true, false, not, ◌&&◌, ◌||◌, List, [], ◌∷◌, Option, none, some, ltb, if◌then◌else◌,
  length, get_elem?,
}
use np_linuxptp_daemon.Strings.{Bytes, codes, bytes_eq, contains}
use np_linuxptp_daemon.Strings.Fields.{fields}
use np_linuxptp_daemon.Daemon.Ports.{
  Offsets, get_master, set_master, set_slave, clock_real_time, from_index,
}
use np_linuxptp_daemon.Daemon.Render.{Iface}
use np_linuxptp_daemon.Daemon.Offsets.{offset_word, remove_first, replace_from, iface_of_phc}

-- The texts of the clock states; the empty one is the zero value.
pub data ClockState : Type 0 where
  no_state : ClockState
  in_freerun : ClockState
  in_lock : ClockState
  in_holdover : ClockState

-- The `switch fields[4]`, and the holdover that ts2phc names.
unfoldable pub clock_state : Bool → Bytes → Bytes → ClockState
unfolding contains
clock_state is_ts2phc output field =
    if is_ts2phc && contains output (codes "holdover")
    then in_holdover
    else if bytes_eq field (codes "s2") || bytes_eq field (codes "s3")
    then in_lock
    else in_freerun

-- The part for ts2phc on the first four of the fields: without a master in the line, the interface
-- is looked up and remembered, and the fields are brought into the order of the other lines.
abbrev remember : Bytes → Bytes → Offsets → Offsets
remember config iface o = set_slave config iface (set_master config iface o)

unfoldable pub in_order : Bytes → List Iface → Offsets → List Bytes → List Bytes × Offsets
unfolding iface_of_phc set_slave set_master
in_order config ifaces o (f0 ∷ f1 ∷ f2 ∷ f3 ∷ fs) =
    if bytes_eq f2 offset_word
    then (f0 ∷ codes "master" ∷ f2 ∷ f3 ∷ fs, remember config (iface_of_phc f1 ifaces) o)
    else if bytes_eq f3 offset_word
    then (f0 ∷ f2 ∷ f3 ∷ fs, remember config (iface_of_phc f1 ifaces) o)
    else (f0 ∷ f1 ∷ f2 ∷ f3 ∷ fs, o)
in_order config ifaces o [] = ([], o)
in_order config ifaces o (f0 ∷ []) = (f0 ∷ [], o)
in_order config ifaces o (f0 ∷ f1 ∷ []) = (f0 ∷ f1 ∷ [], o)
in_order config ifaces o (f0 ∷ f1 ∷ f2 ∷ []) = (f0 ∷ f1 ∷ f2 ∷ [], o)

abbrev fields_at : Option Bytes → List Bytes
fields_at none = []
fields_at (some output) = fields output

abbrev text_at : Option Bytes → Bytes
text_at none = []
text_at (some output) = output

module _ (Float : Type 0) (zero_float : Float) (parse_float : Bytes → Float × Bool) where
  -- The results of `extractRegularMetrics`, those that no assignment reached at zero.
  pub record Regular : Type 0 where
    pub failed : Bool
    pub iface : Bytes
    pub clock_state : ClockState
    pub ptp_offset : Float
    pub max_ptp_offset : Float
    pub frequency_adjustment : Float
    pub delay : Float

  -- With an interface, or with an error, and nothing else.
  abbrev pub nothing_read : Bool → Bytes → Regular
  nothing_read failed iface = record {
    failed = failed;
    iface = iface;
    clock_state = no_state;
    ptp_offset = zero_float;
    max_ptp_offset = zero_float;
    frequency_adjustment = zero_float;
    delay = zero_float;
  }

  -- The delay, behind eight fields; ts2phc has none.
  abbrev read_delay : Bool → Option Bytes → Regular → Regular
  read_delay true d r = r
  read_delay false none r = r
  read_delay false (some d) r = record r {
    delay = (parse_float d).0;
    failed = not ((parse_float d).1);
  }

  -- The offset and the frequency, each with an early return.
  abbrev pub read_numbers : Bool → Bytes → Bytes → Bytes → Bytes → Bytes → Option Bytes → Regular
  read_numbers is_ts2phc output iface offset state freq delay =
      if not ((parse_float offset).1)
      then record (nothing_read true iface) { ptp_offset = (parse_float offset).0 }
      else let r = record (nothing_read false iface) {
        ptp_offset = (parse_float offset).0;
        max_ptp_offset = (parse_float offset).0;
        clock_state = clock_state is_ts2phc output state;
        frequency_adjustment = (parse_float freq).0;
      } in
        if not ((parse_float freq).1)
        then record r { failed = true }
        else read_delay is_ts2phc delay r

  -- From the check of the order on; none is the panic of an index out of range.
  unfoldable pub read_regular : Bool → Bytes → Bytes → List Bytes → Option Regular
  unfolding clock_state
  read_regular is_ts2phc output alias (f0 ∷ f1 ∷ f2 ∷ f3 ∷ f4 ∷ f5 ∷ f6 ∷ fs) =
      if not (bytes_eq f2 offset_word)
      then some (nothing_read true [])
      else if not (bytes_eq f1 clock_real_time) && not (bytes_eq f1 (codes "master"))
      then some (nothing_read false f1)
      else some (
          read_numbers is_ts2phc output (if bytes_eq f1 (codes "master") then alias else f1) f3 f4
            f6 (get_elem? fs 1))
  read_regular is_ts2phc output alias fs = none

  abbrev with_offsets : Offsets → Option Regular → Option (Regular × Offsets)
  with_offsets o none = none
  with_offsets o (some r) = some (r, o)

  -- The second check of the number of fields.
  abbrev check_fields : Bytes → Bool → Bytes → List Bytes × Offsets → Option (Regular × Offsets)
  check_fields config is_ts2phc output (fs, o) =
      if ltb (length fs) 7
      then some (nothing_read true [], o)
      else with_offsets o (read_regular is_ts2phc output (get_master config o).alias fs)

  -- `extractRegularMetrics` on the process's name, with the maps that it changes.
  unfoldable pub extract_regular_metrics :
      Bytes → Bytes → Bytes → List Iface → Offsets → Option (Regular × Offsets)
  unfolding in_order read_regular contains remove_first replace_from from_index get_master
  extract_regular_metrics config process output ifaces o =
      let found = from_index (replace_from 0 (remove_first (codes "path") output)) config in
      let fs = fields_at found in
      let is_ts2phc = bytes_eq process (codes "ts2phc") in
      if not (contains output offset_word) || ltb (length fs) 7
      then some (nothing_read false [], o)
      else check_fields config is_ts2phc (text_at found)
          (if is_ts2phc then in_order config ifaces o fs else (fs, o))
