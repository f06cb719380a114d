-- ===== src/Daemon/Offsets.antt =====
-- The offsets in the logs of the processes (pkg/daemon/metrics.go): extractSummaryMetrics and
-- extractRegularMetrics. A floating-point number and its parser are parameters.
pub mod Panics
use np_linuxptp_daemon.Base.{
  ℕ, zero, suc, Bool, true, false, not, ◌&&◌, ◌||◌, List, [], ◌∷◌, ◌++◌, Option, none, some, ◌==◌,
  ltb, leb, if◌then◌else◌, length, get_elem?, drop,
}
use np_linuxptp_daemon.Strings.{Bytes, codes, bytes_eq, has_prefix, contains}
use np_linuxptp_daemon.Strings.Fields.{fields}
use np_linuxptp_daemon.Daemon.Ports.{
  Offsets, get_master, set_master, set_slave, clock_real_time, blank_out, from_index,
}
use np_linuxptp_daemon.Daemon.Render.{Iface}

abbrev master_word : Bytes
master_word = codes "master"

abbrev pub offset_word : Bytes
offset_word = codes "offset"

abbrev pub rms_word : Bytes
rms_word = codes "rms"

-- `strings.Replace(output, p, "", 1)`
unfoldable pub remove_first : Bytes → Bytes → Bytes
remove_first p [] = []
remove_first p (c ∷ s) =
    let rest = remove_first p s in
    if has_prefix (c ∷ s) p then drop (length p) (c ∷ s) else c ∷ rest

-- The replacer of `extractRegularMetrics`; the number is how many bytes are still to be skipped.
unfoldable pub replace_from : ℕ → Bytes → Bytes
replace_from n [] = []
replace_from (suc n) (c ∷ s) = replace_from n s
replace_from zero (c ∷ s) =
    let rest = replace_from zero s in
    let behind = replace_from 4 s in
    if c == b'[' || (c == b']' || c == b':')
    then b' ' ∷ rest
    else if has_prefix (c ∷ s) (codes " phc ") || has_prefix (c ∷ s) (codes " sys ")
    then b' ' ∷ behind
    else c ∷ rest

-- `GetPhcID2IFace` of pkg/config/config.go
unfoldable pub iface_of_phc : Bytes → List Iface → Bytes
iface_of_phc phc_id [] = phc_id
iface_of_phc phc_id (i ∷ ifaces) =
    let rest = iface_of_phc phc_id ifaces in if bytes_eq i.phc_id phc_id then i.name else rest

-- The fields from the configuration's name on.
abbrev fields_at : Option Bytes → List Bytes
fields_at none = []
fields_at (some output) = fields output

module _ (Float : Type 0) (zero_float : Float) (parse_float : Bytes → Float × Bool) where
  -- The results of `extractSummaryMetrics`, or the panic of an index out of range.
  pub record Summary : Type 0 where
    pub iface : Bytes
    pub ptp_offset : Float
    pub max_ptp_offset : Float
    pub frequency_adjustment : Float
    pub delay : Float

  pub data Summarised : Type 0 where
    summarised : Summary → Summarised
    summary_panic : Summarised

  abbrev no_summary : Summary
  no_summary = record {
    iface = [];
    ptp_offset = zero_float;
    max_ptp_offset = zero_float;
    frequency_adjustment = zero_float;
    delay = zero_float;
  }

  abbrev numbers : Bytes → Option Bytes → Option Bytes → Option Bytes → Option Bytes → Summarised
  numbers iface none max freq delay = summary_panic
  numbers iface (some o) none freq delay = summary_panic
  numbers iface (some o) (some max) none delay = summary_panic
  numbers iface (some o) (some max) (some freq) none = summary_panic
  numbers iface (some o) (some max) (some freq) (some delay) = summarised (record {
    iface = iface;
    ptp_offset = (parse_float o).0;
    max_ptp_offset = (parse_float max).0;
    frequency_adjustment = (parse_float freq).0;
    delay = (parse_float delay).0;
  })

  abbrev numbers_in_sync : Bytes → Option Bytes → Option Bytes → Option Bytes → Summarised
  numbers_in_sync iface none max freq = summary_panic
  numbers_in_sync iface (some o) none freq = summary_panic
  numbers_in_sync iface (some o) (some max) none = summary_panic
  numbers_in_sync iface (some o) (some max) (some freq) = summarised (record {
    iface = iface;
    ptp_offset = (parse_float o).0;
    max_ptp_offset = (parse_float max).0;
    frequency_adjustment = (parse_float freq).0;
    delay = zero_float;
  })

  -- The numbers in the fields: the delay is read from eleven fields on.
  unfoldable pub read_summary : Bytes → List Bytes → Summarised
  read_summary iface fs =
      if leb 11 (length fs)
      then numbers iface (get_elem? fs 3) (get_elem? fs 5) (get_elem? fs 7) (get_elem? fs 11)
      else numbers_in_sync iface (get_elem? fs 3) (get_elem? fs 5) (get_elem? fs 7)

  -- The interface is that of the master, or the system clock.
  abbrev summary_fields : Bytes → List Bytes → Summarised
  summary_fields master_name [] = summary_panic
  summary_fields master_name (f ∷ []) = summary_panic
  summary_fields master_name (f ∷ g ∷ fs) =
      if bytes_eq g rms_word
      then read_summary master_name (f ∷ master_name ∷ g ∷ fs)
      else if not (bytes_eq g clock_real_time)
      then summarised no_summary
      else read_summary g (f ∷ g ∷ fs)

  -- `extractSummaryMetrics`
  unfoldable pub extract_summary_metrics : Bytes → Bytes → Offsets → Summarised
  unfolding read_summary contains blank_out from_index get_master
  extract_summary_metrics config output o =
      let fs = fields_at (from_index (blank_out output) config) in
      if not (contains output rms_word)
      then summarised no_summary
      else if ltb (length fs) 8
      then summarised no_summary
      else summary_fields (get_master config o).name fs
