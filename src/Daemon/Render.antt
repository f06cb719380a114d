-- ===== src/Daemon/Render.antt =====
-- What pkg/daemon/config.go makes of a parsed configuration: getSource, extractSynceRelations and
-- renderPtp4lConf. The options of a section are written in the order of its list.
pub mod Laws
use np_linuxptp_daemon.Base.{
  ℕ, Bool, true, false, not, ◌&&◌, ◌||◌, List, [], ◌∷◌, ◌++◌, Option, none, some, ◌==◌,
  if◌then◌else◌,
}
use np_linuxptp_daemon.Base.Int.{ℤ, pos}
use np_linuxptp_daemon.Strings.{Bytes, codes, bytes_eq, has_prefix, trim_space, remove_byte}
use np_linuxptp_daemon.Strings.Number.{int_value}
use np_linuxptp_daemon.Strings.Dict.{Dict, find}
use np_linuxptp_daemon.Event.Types.{EventSource, gnss, pps, no_source}
use np_linuxptp_daemon.Daemon.Config.{Section, global_name, is_empty}

-- `strconv.ParseBool`
abbrev is_one_of : List Bytes → Bytes → Bool
is_one_of [] s = false
is_one_of (w ∷ ws) s = bytes_eq s w || is_one_of ws s

unfoldable pub parse_bool : Bytes → Option Bool
parse_bool s =
    if is_one_of
      (codes "1" ∷ codes "t" ∷ codes "T" ∷ codes "TRUE" ∷ codes "true" ∷ codes "True" ∷ []) s
    then some true
    else if is_one_of
        (codes "0" ∷ codes "f" ∷ codes "F" ∷ codes "FALSE" ∷ codes "false" ∷ codes "False" ∷ []) s
    then some false
    else none

abbrev source_of : Option Bool → EventSource
source_of none = pps
source_of (some true) = gnss
source_of (some false) = pps

-- `getSource`
unfoldable pub source_of_option : Bytes → EventSource
unfolding parse_bool trim_space
source_of_option s = source_of (parse_bool (trim_space s))

-- The struct `Iface` of pkg/config/config.go.
pub record Iface : Type 0 where
  pub name : Bytes
  pub is_master : Bool
  pub source : EventSource
  pub phc_id : Bytes

-- What `renderPtp4lConf` has made so far: the text, `conf.mapping`, the interfaces, and the source of
-- the section `[nmea]`.
pub record Rendered : Type 0 where
  pub config_out : Bytes
  pub mapping : List Bytes
  pub ifaces : List Iface
  pub nmea_source : EventSource

-- `fmt.Sprintf("%s\n%s", configOut, line)`
abbrev add_line : Bytes → Bytes → Bytes
add_line out line = out ++ b'\n' ∷ line

-- The lines of the options.
unfoldable pub render_options : Dict Bytes → Bytes → Bytes
render_options [] out = out
render_options ((k, v) ∷ options) out = render_options options (add_line out (k ++ b' ' ∷ v))

abbrev nmea_name : Bytes
nmea_name = codes "[nmea]"

abbrev or_source : EventSource → Option Bytes → EventSource
or_source other none = other
or_source other (some s) = source_of_option s

abbrev source_key : Bytes
source_key = codes "ts2phc.master"

-- A section that names a port.
abbrev pub is_port : Section → Bool
is_port s = not (bytes_eq s.section_name global_name) && not (bytes_eq s.section_name nmea_name)

abbrev pub port_name : Section → Bytes
port_name s = remove_byte b']' (remove_byte b'[' s.section_name)

-- `config.Iface{Name: …, Source: …, PhcId: …}`: the field `IsMaster`, which was read, is not copied.
abbrev port_iface : EventSource → Section → Iface
port_iface nmea s = record {
  name = port_name s;
  is_master = false;
  source = or_source nmea (find source_key s.options);
  phc_id = [];
}

-- One round of the loop.
unfoldable pub render_section : Section → Rendered → Rendered
unfolding render_options find source_of_option remove_byte
render_section s r =
    let nmea =
      if bytes_eq s.section_name nmea_name
      then or_source r.nmea_source (find source_key s.options)
      else r.nmea_source in
    record {
      config_out = render_options s.options (add_line r.config_out s.section_name);
      mapping = if is_port s then r.mapping ++ port_name s ∷ [] else r.mapping;
      ifaces = if is_port s then r.ifaces ++ port_iface nmea s ∷ [] else r.ifaces;
      nmea_source = nmea;
    }

unfoldable pub render_sections : List Section → Rendered → Rendered
unfolding render_section
render_sections [] r = r
render_sections (s ∷ sections) r = render_sections sections (render_section s r)

-- `renderPtp4lConf`
unfoldable pub render_ptp4l_conf : Bytes → List Section → Rendered
unfolding render_sections
render_ptp4l_conf profile_name sections = render_sections sections (record {
  config_out = codes "#profile: " ++ (profile_name ++ b'\n' ∷ []);
  mapping = [];
  ifaces = [];
  nmea_source = no_source;
})

-- The fields of `synce.Config` that the configuration gives.
pub record SynceConfig : Type 0 where
  pub name : Bytes
  pub ifaces : List Bytes
  pub network_option : ℤ
  pub extended_tlv : ℤ
  pub external_source : Bytes

-- `re.ReplaceAllString(section.sectionName, "")` with the expression `[{}<>\[\] ]+`
unfoldable pub strip : Bytes → Bytes
strip [] = []
strip (c ∷ s) =
    let rest = strip s in
    if c == b'{'
      || (c == b'}' || (c == b'<' || (c == b'>' || (c == b'[' || (c == b']' || c == b' ')))))
    then rest
    else c ∷ rest

-- The local variables of `extractSynceRelations`.
pub record Extract : Type 0 where
  pub devices : List SynceConfig
  pub info : SynceConfig
  pub ifaces : List Bytes

abbrev no_config : SynceConfig
no_config = record {
  name = [];
  ifaces = [];
  network_option = pos 0;
  extended_tlv = pos 0;
  external_source = [];
}

abbrev pub extract_start : Extract
extract_start = record { devices = []; info = no_config; ifaces = [] }

-- `if len(ifaces) > 0 { synceRelationInfo.Ifaces = ifaces }`
abbrev pub with_ifaces : List Bytes → SynceConfig → SynceConfig
with_ifaces [] info = info
with_ifaces (i ∷ ifaces) info = record info { ifaces = i ∷ ifaces }

-- The device at hand is added, if it has a name.
unfoldable pub close_device : Extract → List SynceConfig
close_device e =
    if is_empty e.info.name then e.devices else e.devices ++ with_ifaces e.ifaces e.info ∷ []

-- An option that is read by `strconv.Atoi`, with its default.
abbrev number_option : ℤ → Option Bytes → ℤ
number_option default none = default
number_option default (some v) = int_value 64 (trim_space v)

abbrev open_device : Section → Extract → Extract
open_device s e = record {
  devices = close_device e;
  info = record {
    name = strip s.section_name;
    ifaces = [];
    network_option = number_option (pos 1) (find (codes "network_option") s.options);
    extended_tlv = number_option (pos 0) (find (codes "extended_tlv") s.options);
    external_source = [];
  };
  ifaces = e.ifaces;
}

abbrev pub is_device : Section → Bool
is_device s = has_prefix s.section_name (codes "[<")

abbrev pub is_external : Section → Bool
is_external s = has_prefix s.section_name (codes "[{")

-- A section of a port, once it is no device and no external source.
abbrev pub is_synce_port : Section → Bool
is_synce_port s = has_prefix s.section_name (codes "[") && not (bytes_eq s.section_name global_name)

-- One round of the loop.
unfoldable pub extract_section : Section → Extract → Extract
unfolding strip close_device find int_value trim_space
extract_section s e =
    if is_device s
    then open_device s e
    else if is_external s
    then record e { info = record (e.info) { external_source = strip s.section_name } }
    else if is_synce_port s
    then record e { ifaces = e.ifaces ++ strip s.section_name ∷ [] }
    else e

unfoldable pub extract_sections : List Section → Extract → Extract
unfolding extract_section
extract_sections [] e = e
extract_sections (s ∷ sections) e = extract_sections sections (extract_section s e)

-- `extractSynceRelations`
unfoldable pub extract_synce_relations : List Section → List SynceConfig
unfolding extract_sections close_device
extract_synce_relations sections = close_device (extract_sections sections extract_start)
