-- ===== src/Daemon/Ports/Laws.antt =====
-- The port states and the maps of interfaces (pkg/daemon/metrics.go): panics, aliases and faults.
use np_linuxptp_daemon.Base.{
  ℕ, zero, suc, ◌-◌, ◌≤◌, ◌≡◌, refl, ap, ◌∙◌, ◌≢◌, ◌↔◌, true, false, List, [], ◌∷◌, Option, none,
  some, arith, length, get_elem?,
}
use np_linuxptp_daemon.Base.Int.{ℤ, pos, negsuc}
use np_linuxptp_daemon.Strings.{Bytes, codes, bytes_eq, bytes_eq_iff}
use np_linuxptp_daemon.Strings.Dict.{Dict, find, put, find-put}
use np_linuxptp_daemon.Daemon.Ports.{
  Role, passive, slave, master, faulty, unknown, extract_ptp4l_event_state, nameless, Offsets, mask,
  get_master, set_master, get_by_alias, get_alias_by_name, clock_real_time, set_slave, is_faulty,
  get_source, ptp4l_process, role_gauge, faulty_offsets, freerun_gauge, ported, out_of_range,
  role_change, role_change_of, port_role, extract_port,
}

get_elem?-length : (xs : List Bytes) (i : ℕ) → (get_elem? xs i ≡ none) ↔ (length xs ≤ i)
get_elem?-length [] i = ground arith
get_elem?-length (x ∷ xs) zero = ground arith
get_elem?-length (x ∷ xs) (suc i) = ground (arith, get_elem?-length xs i)

role_change-ne-out_of_range :
    (config iface : Bytes) (r : Role) (o : Offsets) → role_change config iface r o ≢ out_of_range
unfolding role_change
role_change-ne-out_of_range config iface passive o = λ h. cc
role_change-ne-out_of_range config iface slave o = λ h. cc
role_change-ne-out_of_range config iface master o = λ h. cc
role_change-ne-out_of_range config iface faulty o = ground arith
role_change-ne-out_of_range config iface unknown o = λ h. cc

role_change_of_iff :
    (config : Bytes) (r : Role) (o : Offsets) (iface : Option Bytes)
    → (role_change_of config r o iface ≡ out_of_range) ↔ (iface ≡ none)
role_change_of_iff config r o none = ground arith
role_change_of_iff config r o (some iface) =
    ground (arith, role_change-ne-out_of_range config iface r o)

port_role_iff :
    (config : Bytes) (ifaces : List Bytes) (o : Offsets) (z : ℤ) (r : Role)
    → (port_role config ifaces o (z, r) ≡ out_of_range) ↔ (z ≡ pos (suc (length ifaces)))
port_role_iff config ifaces o (pos n) r = ground (
  arith,
  role_change_of_iff config r o (get_elem? ifaces (n - 1)),
  get_elem?-length ifaces (n - 1),
)
port_role_iff config ifaces o (negsuc n) r = ground arith

-- A log line makes the extraction panic exactly when the port that it names is the one behind the
-- last interface of the process.
pub extract_port-out_of_range :
    (config : Bytes) (ifaces : List Bytes) (output : Bytes) (o : Offsets)
    → (extract_port config ifaces output o ≡ out_of_range)
      ↔ ((extract_ptp4l_event_state output).0 ≡ pos (suc (length ifaces)))
unfolding extract_port
extract_port-out_of_range config ifaces output o =
    let (z, r) = extract_ptp4l_event_state output in port_role_iff config ifaces o z r

bytes_eq_refl : (a : Bytes) → bytes_eq a a ≡ true
bytes_eq_refl a = (bytes_eq_iff a a).1 refl

bytes_eq_ne : (a b : Bytes) → a ≢ b → bytes_eq a b ≡ false
bytes_eq_ne a b ne = ground (arith, bytes_eq_iff a b)

find-put_same {ℓ} : {V : Type ℓ} (k : Bytes) (v : V) (m : Dict V) → find k (put k v m) ≡ some v
find-put_same k v m = find-put k k v m ∙ rw (bytes_eq_refl k) refl

alias_of_master :
    (config name : Bytes) (o : Offsets)
    → name ≢ clock_real_time
    → name ≢ codes "master"
    → get_alias_by_name config name (set_master config name o)
      ≡ record { name = name; alias = mask name }
unfolding get_alias_by_name set_master
alias_of_master config name o other no_master =
    rw
      (
        bytes_eq_ne name clock_real_time other,
        bytes_eq_ne name (codes "master") no_master,
        find-put_same config (record { name = name; alias = mask name }) o.masters,
        bytes_eq_refl name,
      )
      refl

master_of_alias :
    (config name : Bytes) (o : Offsets)
    → get_by_alias config (mask name) (set_master config name o)
      ≡ record { name = name; alias = mask name }
unfolding get_by_alias set_master
master_of_alias config name o =
    rw
      (
        find-put_same config (record { name = name; alias = mask name }) o.masters,
        bytes_eq_refl (mask name),
      )
      refl

-- After an interface was set, its name gives its alias and the alias gives the name back, for a name
-- other than those of the system clock and of a master.
pub get_by_alias-get_alias_by_name :
    (config name : Bytes) (o : Offsets)
    → name ≢ clock_real_time
    → name ≢ codes "master"
    → ((get_alias_by_name config name (set_master config name o)).alias ≡ mask name)
      × ((get_by_alias config
            ((get_alias_by_name config name (set_master config name o)).alias)
            (set_master config name o)).name
          ≡ name)
get_by_alias-get_alias_by_name config name o other no_master =
    let alias = ap (λ i. i.alias) (alias_of_master config name o other no_master) in
    (
      alias,
      ap (λ a. (get_by_alias config a (set_master config name o)).name) alias
          ∙ ap (λ i. i.name) (master_of_alias config name o),
    )

-- The maps once the slave of a configuration is forgotten.
abbrev forgotten : Bytes → Offsets → Offsets
forgotten config o = set_slave config [] (set_master config [] o)

is_faulty-forgotten :
    (config iface : Bytes) (o : Offsets)
    → iface ≢ []
    → is_faulty config iface (forgotten config o) ≡ false
unfolding is_faulty set_slave set_master bytes_eq
is_faulty-forgotten config [] o ne = absurd (ne refl)
is_faulty-forgotten config (c ∷ iface) o ne = rw (find-put_same config [] o.slaves) refl

get_master-forgotten :
    (config : Bytes) (o : Offsets) → get_master config (forgotten config o) ≡ nameless
unfolding get_master set_slave set_master mask
get_master-forgotten config o =
    rw (find-put_same config (record { name = []; alias = [] }) o.masters) refl

-- The maps once an interface is the slave of a configuration.
abbrev followed : Bytes → Bytes → Offsets → Offsets
followed config iface o = set_slave config iface (set_master config iface o)

is_faulty-followed :
    (config iface : Bytes) (o : Offsets) → is_faulty config iface (followed config iface o) ≡ true
unfolding is_faulty set_slave set_master
is_faulty-followed config iface o = rw (find-put_same config iface o.slaves) (bytes_eq_refl iface)

get_master-followed :
    (config iface : Bytes) (o : Offsets)
    → (get_master config (followed config iface o)).alias ≡ mask iface
unfolding get_master set_slave set_master
get_master-followed config iface o =
    rw (find-put_same config (record { name = iface; alias = mask iface }) o.masters) refl

get_source-followed :
    (config iface : Bytes) (o : Offsets)
    → get_source config (followed config iface o) ≡ get_source config o
unfolding get_source set_slave set_master
get_source-followed config iface o = refl

-- A port becomes the slave of a configuration whose offsets come from ptp4l, and then has a fault:
-- the fault sets the offsets of its alias and of the system clock to the faulty one and the clock
-- state to FREERUN, the configuration has no master interface any more, and another fault of the
-- port sets nothing but its role.
pub role_change-slave-faulty :
    (config iface : Bytes) (o : Offsets)
    → iface ≢ []
    → get_source config o ≡ ptp4l_process
    → (followed_by : Offsets) × (left : Offsets) × (role_change config iface slave o
        ≡ ported followed_by (role_gauge iface slave ∷ []))
      × (role_change config iface faulty followed_by
          ≡ ported left (
              role_gauge iface faulty
              ∷ faulty_offsets (codes "master") ptp4l_process (mask iface)
              ∷ faulty_offsets (codes "phc") (codes "phc2sys") clock_real_time
              ∷ freerun_gauge ptp4l_process (mask iface)
              ∷ []))
      × (get_master config left ≡ nameless)
      × (role_change config iface faulty left ≡ ported left (role_gauge iface faulty ∷ []))
unfolding role_change
role_change-slave-faulty config iface o ne by_ptp4l =
    let q = followed config iface o in
    let source : get_source config q ≡ ptp4l_process =
      get_source-followed config iface o ∙ by_ptp4l in
    (
      q,
      forgotten config q,
      refl,
      rw
          (
            is_faulty-followed config iface o,
            source,
            bytes_eq_refl ptp4l_process,
            get_master-followed config iface o,
          )
          refl,
      get_master-forgotten config q,
      rw (is_faulty-forgotten config iface q ne) refl,
    )
