-- ===== src/Synce/Relations.antt =====
-- The synchronous Ethernet devices of a configuration (pkg/synce/synce.go): Relations, and the
-- searches of pkg/daemon/daemon.go for a device.
use np_linuxptp_daemon.Base.{
  ℕ, ◌≡◌, refl, Bool, ◌||◌, List, [], ◌∷◌, ◌++◌, String, arith, Option, none, some, true, str_eq,
  str_eq_iff, if◌then◌else◌, any,
}

-- The struct `Config` less the last states.
pub record Device : Type 0 where
  pub name : String
  pub ifaces : List String
  pub clock_id : String
  pub network_option : ℕ
  pub extended_tlv : ℕ
  pub external_source : String

-- `Relations.Devices`
abbrev pub Relations : Type 0
Relations = List Device

-- `AddDeviceConfig`
unfoldable pub add_device_config : Device → Relations → Relations
add_device_config config r = r ++ config ∷ []

-- `AppendDeviceConfig`: nothing without interfaces.
unfoldable pub append_device_config : List String → String → ℕ → ℕ → Relations → Relations
append_device_config [] name network_option extended_tlv r = r
append_device_config (i ∷ ifaces) name network_option extended_tlv r =
    add_device_config
      (record {
        name = name;
        ifaces = i ∷ ifaces;
        clock_id = "";
        network_option = network_option;
        extended_tlv = extended_tlv;
        external_source = "";
      })
      r

-- The results of `GetSyncERelation`, named in its signature.
pub record Relation : Type 0 where
  pub network_option : ℕ
  pub ext_tlv_enabled : ℕ
  pub device : String
  pub ext_source : String
  pub ifaces : List String

abbrev pub no_relation : Relation
no_relation = record {
  network_option = 0;
  ext_tlv_enabled = 0;
  device = "";
  ext_source = "";
  ifaces = [];
}

abbrev pub relation_of : Device → Relation
relation_of d = record {
  network_option = d.network_option;
  ext_tlv_enabled = d.extended_tlv;
  device = d.name;
  ext_source = d.external_source;
  ifaces = d.ifaces;
}

-- The inner loop: each interface that is the one sought assigns the results.
unfoldable pub iface_loop : String → Device → List String → Relation → Relation
iface_loop iface d [] found = found
iface_loop iface d (i ∷ is) found =
    iface_loop iface d is (if str_eq i iface then relation_of d else found)

-- One round of the outer loop.
unfoldable pub relation_round : String → String → String → Device → Relation → Relation
relation_round device_name ext_source_name iface d found =
    if str_eq d.name device_name || str_eq d.external_source ext_source_name
    then relation_of d
    else iface_loop iface d d.ifaces found

unfoldable pub relation_loop : String → String → String → Relations → Relation → Relation
relation_loop device_name ext_source_name iface [] found = found
relation_loop device_name ext_source_name iface (d ∷ ds) found =
    relation_loop device_name ext_source_name iface ds
      (relation_round device_name ext_source_name iface d found)

-- `GetSyncERelation`
unfoldable pub get_sync_e_relation : Relations → String → String → String → Relation
get_sync_e_relation r device_name ext_source_name iface =
    relation_loop device_name ext_source_name iface r no_relation

-- Whether a device is one that is sought: by its name, its external source, or an interface.
abbrev pub is_sought : String → String → String → Device → Bool
is_sought device_name ext_source_name iface d =
    str_eq d.name device_name
    || (str_eq d.external_source ext_source_name || any (λ i. str_eq i iface) d.ifaces)

-- The last item that passes a test.
abbrev pub last_such : (Device → Bool) → Relations → Relation → Relation
last_such p [] found = found
last_such p (d ∷ ds) found = last_such p ds (if p d then relation_of d else found)

iface_loop-eq-any :
    (iface : String) (d : Device) (is : List String) (found : Relation)
    → iface_loop iface d is found ≡ (if any (λ i. str_eq i iface) is then relation_of d else found)
unfolding iface_loop
iface_loop-eq-any iface d [] found = refl
iface_loop-eq-any iface d (i ∷ is) found =
    ground (arith, iface_loop-eq-any iface d is found, iface_loop-eq-any iface d is (relation_of d))

relation_loop-eq-last :
    (device_name ext_source_name iface : String) (ds : Relations) (found : Relation)
    → relation_loop device_name ext_source_name iface ds found
      ≡ last_such (is_sought device_name ext_source_name iface) ds found
unfolding relation_loop relation_round
relation_loop-eq-last n s i [] found = refl
relation_loop-eq-last n s i (d ∷ ds) found = ground (
  arith,
  iface_loop-eq-any i d d.ifaces found,
  relation_loop-eq-last n s i ds found,
  relation_loop-eq-last n s i ds (relation_of d),
)

-- GetSyncERelation returns the relation of the last device that has the name, the external source
-- or an interface sought, and the zero values where there is none.
pub get_sync_e_relation-eq-last :
    (r : Relations) (device_name ext_source_name iface : String)
    → get_sync_e_relation r device_name ext_source_name iface
      ≡ last_such (is_sought device_name ext_source_name iface) r no_relation
unfolding get_sync_e_relation
get_sync_e_relation-eq-last r n s i = relation_loop-eq-last n s i r no_relation

-- `SyncEDeviceByInterface` and `SyncEDeviceByName` of pkg/daemon/daemon.go; the relations of a
-- process without any are none.
unfoldable device_by : (Device → Bool) → Relations → Option Device
device_by p [] = none
device_by p (d ∷ ds) = let rest = device_by p ds in if p d then some d else rest

unfoldable pub sync_e_device_by_interface : String → Relations → Option Device
unfolding device_by
sync_e_device_by_interface iface r = device_by (λ d. any (λ i. str_eq i iface) d.ifaces) r

unfoldable pub sync_e_device_by_name : String → Relations → Option Device
unfolding device_by
sync_e_device_by_name name r = device_by (λ d. str_eq d.name name) r

device_by-some :
    (p : Device → Bool) (r : Relations) {d : Device} → device_by p r ≡ some d → p d ≡ true
unfolding device_by
device_by-some p [] h = cc
device_by-some p (e ∷ r) {d = d} h = ground (arith, device_by-some p r {d = d})

-- The device that is found by its name has this name.
pub name-sync_e_device_by_name :
    (name : String) (r : Relations) {d : Device}
    → sync_e_device_by_name name r ≡ some d
    → d.name ≡ name
unfolding sync_e_device_by_name
name-sync_e_device_by_name name r {d = d} h =
    (str_eq_iff d.name name).0 (device_by-some (λ e. str_eq e.name name) r h)
