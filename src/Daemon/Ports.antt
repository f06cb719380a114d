-- ===== src/Daemon/Ports.antt =====
-- The port states in the log of ptp4l and the maps of interfaces (pkg/daemon/metrics.go):
-- extractPTP4lEventState, masterOffsetInterface, slaveInterface, masterOffsetSourceProcess, and the
-- part of extractMetrics on port states. Interface names are of ASCII characters.
pub mod Laws
use np_linuxptp_daemon.Base.{
  ℕ, suc, ◌-◌, ◌≡◌, Bool, true, false, ◌&&◌, ◌||◌, List, [], ◌∷◌, ◌++◌, map, Option, none, some,
  ◌==◌, ltb, leb, if◌then◌else◌, length, get_elem?,
}
use np_linuxptp_daemon.Base.Int.{ℤ, pos, negsuc}
use np_linuxptp_daemon.Strings.{Bytes, codes, bytes_eq, has_prefix, contains}
use np_linuxptp_daemon.Strings.Fields.{fields}
use np_linuxptp_daemon.Strings.Number.{parse_int}
use np_linuxptp_daemon.Strings.Dict.{Dict, find, put}

-- The constants of `ptpPortRole`.
pub data Role : Type 0 where
  passive : Role
  slave : Role
  master : Role
  faulty : Role
  unknown : Role

-- `replacer := strings.NewReplacer("[", " ", "]", " ", ":", " ")`
unfoldable pub blank_out : Bytes → Bytes
blank_out = map (λ c. if c == b'[' || (c == b']' || c == b':') then b' ' else c)

-- `output[strings.Index(output, p):]`, or none where the index is -1.
unfoldable pub from_index : Bytes → Bytes → Option Bytes
from_index [] p = if has_prefix [] p then some [] else none
from_index (c ∷ s) p =
    let rest = from_index s p in if has_prefix (c ∷ s) p then some (c ∷ s) else rest

-- The role by the words of the line; the port is dropped where no words are known.
unfoldable pub role_of : Bytes → ℤ → ℤ × Role
unfolding contains
role_of output port =
    if contains output (codes "UNCALIBRATED to SLAVE")
    then (port, slave)
    else if contains output (codes "UNCALIBRATED to PASSIVE")
        || (contains output (codes "MASTER to PASSIVE")
            || contains output (codes "SLAVE to PASSIVE"))
    then (port, passive)
    else if contains output (codes "UNCALIBRATED to MASTER")
        || contains output (codes "LISTENING to MASTER")
    then (port, master)
    else if contains output (codes "FAULT_DETECTED")
        || contains output (codes "SYNCHRONIZATION_FAULT")
    then (port, faulty)
    else (pos 0, unknown)

abbrev role_at : Bytes → Option ℤ → ℤ × Role
role_at output none = (pos 0, unknown)
role_at output (some port) = role_of output port

abbrev port_field : Bytes → Option Bytes → ℤ × Role
port_field output none = (pos 0, passive)
port_field output (some field) = role_at output (parse_int 64 field)

abbrev port_line : Option Bytes → ℤ × Role
port_line none = (pos 0, passive)
port_line (some output) = port_field output (get_elem? (fields output) 1)

-- `extractPTP4lEventState`; the results that no assignment reached are zero.
unfoldable pub extract_ptp4l_event_state : Bytes → ℤ × Role
unfolding blank_out from_index role_of
extract_ptp4l_event_state output = port_line (from_index (blank_out output) (codes " port "))

-- The struct `ptpInterface`.
pub record Interface : Type 0 where
  pub name : Bytes
  pub alias : Bytes

abbrev pub nameless : Interface
nameless = record { name = []; alias = [] }

-- The maps of `masterOffsetIface`, `slaveIface` and `masterOffsetSource`, by the configuration.
pub record Offsets : Type 0 where
  pub masters : Dict Interface
  pub slaves : Dict Bytes
  pub sources : Dict Bytes

-- `string(r[:len(r)-1]) + "x"`
unfoldable pub mask : Bytes → Bytes
mask [] = []
mask (c ∷ []) = codes "x"
mask (c ∷ d ∷ s) = c ∷ mask (d ∷ s)

abbrev pub or_nameless : Option Interface → Interface
or_nameless none = nameless
or_nameless (some i) = i

-- `masterOffsetInterface.get` and `set`
unfoldable pub get_master : Bytes → Offsets → Interface
unfolding find
get_master config o = or_nameless (find config o.masters)

unfoldable pub set_master : Bytes → Bytes → Offsets → Offsets
unfolding put mask
set_master config value o = record o {
  masters = put config (record { name = value; alias = mask value }) o.masters;
}

abbrev same_alias : Bytes → Option Interface → Interface
same_alias alias none = record { name = alias; alias = alias }
same_alias alias (some i) =
    if bytes_eq i.alias alias then i else record { name = alias; alias = alias }

-- `getByAlias`
unfoldable pub get_by_alias : Bytes → Bytes → Offsets → Interface
unfolding find
get_by_alias config alias o = same_alias alias (find config o.masters)

abbrev pub same_name : Bytes → Option Interface → Interface
same_name name none = record { name = name; alias = name }
same_name name (some i) = if bytes_eq i.name name then i else record { name = name; alias = name }

abbrev pub clock_real_time : Bytes
clock_real_time = codes "CLOCK_REALTIME"

-- `getAliasByName`
unfoldable pub get_alias_by_name : Bytes → Bytes → Offsets → Interface
unfolding find
get_alias_by_name config name o =
    if bytes_eq name clock_real_time || bytes_eq name (codes "master")
    then record { name = name; alias = name }
    else same_name name (find config o.masters)

-- `slaveInterface.set` and `isFaulty`
unfoldable pub set_slave : Bytes → Bytes → Offsets → Offsets
unfolding put
set_slave config value o = record o { slaves = put config value o.slaves }

abbrev pub is_iface : Bytes → Option Bytes → Bool
is_iface iface none = false
is_iface iface (some i) = bytes_eq i iface

unfoldable pub is_faulty : Bytes → Bytes → Offsets → Bool
unfolding find
is_faulty config iface o = is_iface iface (find config o.slaves)

abbrev pub ptp4l_process : Bytes
ptp4l_process = codes "ptp4l"

abbrev or_ptp4l : Option Bytes → Bytes
or_ptp4l none = ptp4l_process
or_ptp4l (some p) = p

-- `masterOffsetSourceProcess.set` and `get`
unfoldable pub set_source : Bytes → Bytes → Offsets → Offsets
unfolding put
set_source config value o = record o { sources = put config value o.sources }

unfoldable pub get_source : Bytes → Offsets → Bytes
unfolding find
get_source config o = or_ptp4l (find config o.sources)

-- The gauges that a port state sets: the role of a port; the offsets of an interface, from where and
-- by which process, at `faultyOffset`; the clock state FREERUN.
pub data Gauge : Type 0 where
  role_gauge : Bytes → Role → Gauge
  faulty_offsets : Bytes → Bytes → Bytes → Gauge
  freerun_gauge : Bytes → Bytes → Gauge

-- What a log line leaves, or the panic of an index out of range.
pub data Ported : Type 0 where
  ported : Offsets → List Gauge → Ported
  out_of_range : Ported

abbrev fault_gauges : Bytes → Offsets → List Gauge
fault_gauges config o =
    let alias = (get_master config o).alias in
    faulty_offsets (codes "master") ptp4l_process alias
    ∷ faulty_offsets (codes "phc") (codes "phc2sys") clock_real_time
    ∷ freerun_gauge ptp4l_process alias
    ∷ []

-- The role of an interface: a slave is remembered, and the fault of the slave forgets it.
unfoldable pub role_change : Bytes → Bytes → Role → Offsets → Ported
unfolding get_master set_master set_slave is_faulty get_source
role_change config iface slave o =
    ported (set_slave config iface (set_master config iface o)) (role_gauge iface slave ∷ [])
role_change config iface faulty o =
    if is_faulty config iface o && bytes_eq (get_source config o) ptp4l_process
    then ported (set_slave config [] (set_master config [] o))
        (role_gauge iface faulty ∷ fault_gauges config o)
    else ported o (role_gauge iface faulty ∷ [])
role_change config iface passive o = ported o (role_gauge iface passive ∷ [])
role_change config iface master o = ported o (role_gauge iface master ∷ [])
role_change config iface unknown o = ported o (role_gauge iface unknown ∷ [])

abbrev pub role_change_of : Bytes → Role → Offsets → Option Bytes → Ported
role_change_of config role o none = out_of_range
role_change_of config role o (some iface) = role_change config iface role o

-- The guards `portId > 0` and `len(ifaces) >= portId-1`, and the index `portId-1`.
abbrev pub port_role : Bytes → List Bytes → Offsets → ℤ × Role → Ported
port_role config ifaces o (pos n, role) =
    if ltb 0 n && leb (n - 1) (length ifaces)
    then role_change_of config role o (get_elem? ifaces (n - 1))
    else ported o []
port_role config ifaces o (negsuc n, role) = ported o []

-- The part of `extractMetrics` for the process ptp4l.
unfoldable pub extract_port : Bytes → List Bytes → Bytes → Offsets → Ported
unfolding extract_ptp4l_event_state role_change
extract_port config ifaces output o = port_role config ifaces o (extract_ptp4l_event_state output)
