-- ===== src/Daemon/Render/Laws.antt =====
-- The interfaces that pkg/daemon/config.go takes from a parsed configuration.
use mathlib.Core.List.{append-nil, append_assoc}
use np_linuxptp_daemon.Base.{
  ◌≡◌, refl, ap, ◌∙◌, Bool, true, false, not, ◌&&◌, List, [], ◌∷◌, ◌++◌, map, if◌then◌else◌, All,
}
use np_linuxptp_daemon.Strings.{Bytes}
use np_linuxptp_daemon.Daemon.Config.{Section, is_empty}
use np_linuxptp_daemon.Daemon.Render.{
  Iface, Rendered, is_port, port_name, render_section, render_sections, render_ptp4l_conf,
  SynceConfig, strip, Extract, extract_start, with_ifaces, close_device, is_device, is_external,
  is_synce_port, extract_section, extract_sections, extract_synce_relations,
}

-- The sections that pass a test, each by a name.
abbrev pub names_of : (Section → Bool) → (Section → Bytes) → List Section → List Bytes
names_of p f [] = []
names_of p f (s ∷ ss) = if p s then f s ∷ names_of p f ss else names_of p f ss

-- What the sections before leave.
record IsRendered (names : List Bytes) (r : Rendered) : Type 0 where
  mapped : r.mapping ≡ names
  named : map (λ i. i.name) r.ifaces ≡ names
  unmastered : All (λ i. i.is_master ≡ false) r.ifaces

map-append :
    (f : Iface → Bytes) (xs : List Iface) (y : Iface) → map f (xs ++ y ∷ []) ≡ map f xs ++ f y ∷ []
map-append f [] y = refl
map-append f (x ∷ xs) y = ap (◌∷◌ (f x)) (map-append f xs y)

All-append :
    (xs : List Iface) (y : Iface)
    → All (λ i. i.is_master ≡ false) xs
    → y.is_master ≡ false
    → All (λ i. i.is_master ≡ false) (xs ++ y ∷ [])
All-append [] y h k = (k, tt)
All-append (x ∷ xs) y h k = (h.0, All-append xs y h.1 k)

either-map :
    (b : Bool) (f : Iface → Bytes) (xs : List Iface) (y : Iface)
    → map f (if b then xs ++ y ∷ [] else xs) ≡ (if b then map f xs ++ f y ∷ [] else map f xs)
either-map true f xs y = map-append f xs y
either-map false f xs y = refl

either-All :
    (b : Bool) (xs : List Iface) (y : Iface)
    → All (λ i. i.is_master ≡ false) xs
    → y.is_master ≡ false
    → All (λ i. i.is_master ≡ false) (if b then xs ++ y ∷ [] else xs)
either-All true xs y h k = All-append xs y h k
either-All false xs y h k = h

render_section-IsRendered :
    (names : List Bytes) (s : Section) (r : Rendered)
    → IsRendered names r
    → IsRendered (if is_port s then names ++ port_name s ∷ [] else names) (render_section s r)
unfolding render_section
render_section-IsRendered names s r h = record {
  mapped = ap (λ m. if is_port s then m ++ port_name s ∷ [] else m) h.mapped;
  named =
      either-map (is_port s) (λ i. i.name) r.ifaces _
      ∙ ap (λ m. if is_port s then m ++ port_name s ∷ [] else m) h.named;
  unmastered = either-All (is_port s) r.ifaces _ h.unmastered refl;
}

-- A name that is added in front of the rest.
either-names :
    (b : Bool) (names rest : List Bytes) (n : Bytes)
    → (if b then names ++ n ∷ [] else names) ++ rest ≡ names ++ (if b then n ∷ rest else rest)
either-names true names rest n = append_assoc names (n ∷ []) rest
either-names false names rest n = refl

render_sections-IsRendered :
    (names : List Bytes) (ss : List Section) (r : Rendered)
    → IsRendered names r
    → IsRendered (names ++ names_of is_port port_name ss) (render_sections ss r)
unfolding render_sections
render_sections-IsRendered names [] r h = rw append-nil h
render_sections-IsRendered names (s ∷ ss) r h =
    coe 0 1
      (i.
        IsRendered (either-names (is_port s) names (names_of is_port port_name ss) (port_name s) i)
          (render_sections ss (render_section s r)))
      (render_sections-IsRendered (if is_port s then names ++ port_name s ∷ [] else names) ss
        (render_section s r) (render_section-IsRendered names s r h))

-- The interfaces that are rendered, and the mapping, name the sections other than the global one and
-- that of NMEA, in their order; none of them is marked as a master, whatever the options say.
pub render_ptp4l_conf-ifaces :
    (profile_name : Bytes) (ss : List Section)
    → ((render_ptp4l_conf profile_name ss).mapping ≡ names_of is_port port_name ss)
      × (map (λ i. i.name) ((render_ptp4l_conf profile_name ss).ifaces)
          ≡ names_of is_port port_name ss)
      × All (λ i. i.is_master ≡ false) ((render_ptp4l_conf profile_name ss).ifaces)
unfolding render_ptp4l_conf
render_ptp4l_conf-ifaces profile_name ss =
    let h =
      render_sections-IsRendered [] ss _
        (record { mapped = refl; named = refl; unmastered = tt }) in
    (h.mapped, h.named, h.unmastered)

-- A section of a port, by all the tests of the loop.
abbrev pub is_synce_iface : Section → Bool
is_synce_iface s = not (is_device s) && (not (is_external s) && is_synce_port s)

abbrev pub section_strip : Section → Bytes
section_strip s = strip s.section_name

-- The interfaces grow by the ports that are read, and the device at hand has none yet.
record IsExtract (names : List Bytes) (e : Extract) : Type 0 where
  collected : e.ifaces ≡ names
  pending : e.info.ifaces ≡ []

choose-IsExtract :
    (a b c : Bool) (names : List Bytes) (n : Bytes) (e opened external collected : Extract)
    → IsExtract names opened
    → IsExtract names external
    → IsExtract (names ++ n ∷ []) collected
    → IsExtract names e
    → IsExtract
        (if not a && (not b && c) then names ++ n ∷ [] else names)
        (if a then opened else if b then external else if c then collected else e)
choose-IsExtract true b c names n e opened external collected h1 h2 h3 h4 = h1
choose-IsExtract false true c names n e opened external collected h1 h2 h3 h4 = h2
choose-IsExtract false false true names n e opened external collected h1 h2 h3 h4 = h3
choose-IsExtract false false false names n e opened external collected h1 h2 h3 h4 = h4

extract_section-IsExtract :
    (names : List Bytes) (s : Section) (e : Extract)
    → IsExtract names e
    → IsExtract
        (if is_synce_iface s then names ++ section_strip s ∷ [] else names)
        (extract_section s e)
unfolding extract_section
extract_section-IsExtract names s e h =
    choose-IsExtract (is_device s) (is_external s) (is_synce_port s) names (section_strip s) e _ _ _
      (record { collected = h.collected; pending = refl })
      (record { collected = h.collected; pending = h.pending })
      (record { collected = ap (λ x. x ++ section_strip s ∷ []) h.collected; pending = h.pending })
      h

extract_sections-IsExtract :
    (names : List Bytes) (ss : List Section) (e : Extract)
    → IsExtract names e
    → IsExtract (names ++ names_of is_synce_iface section_strip ss) (extract_sections ss e)
unfolding extract_sections
extract_sections-IsExtract names [] e h = rw append-nil h
extract_sections-IsExtract names (s ∷ ss) e h =
    coe 0 1
      (i.
        IsExtract
          (either-names (is_synce_iface s) names (names_of is_synce_iface section_strip ss)
            (section_strip s) i)
          (extract_sections ss (extract_section s e)))
      (extract_sections-IsExtract
        (if is_synce_iface s then names ++ section_strip s ∷ [] else names) ss (extract_section s e)
        (extract_section-IsExtract names s e h))

ifaces-with_ifaces :
    (is : List Bytes) (c : SynceConfig) → c.ifaces ≡ [] → (with_ifaces is c).ifaces ≡ is
ifaces-with_ifaces [] c h = h
ifaces-with_ifaces (i ∷ is) c h = refl

-- Where the last device section has a name, its device is the last of the relations and has as its
-- interfaces the port sections of the whole configuration, also those that belong to the devices
-- before it.
pub extract_synce_relations-last :
    (ss : List Section)
    → is_empty ((extract_sections ss extract_start).info.name) ≡ false
    → (before : List SynceConfig) × (last : SynceConfig) × (extract_synce_relations ss
        ≡ before ++ last ∷ [])
      × (last.ifaces ≡ names_of is_synce_iface section_strip ss)
unfolding extract_synce_relations close_device
extract_synce_relations-last ss named =
    let e = extract_sections ss extract_start in
    let h =
      extract_sections-IsExtract [] ss extract_start
        (record { collected = refl; pending = refl }) in
    (
      e.devices,
      with_ifaces e.ifaces e.info,
      ap (λ b. if b then e.devices else e.devices ++ with_ifaces e.ifaces e.info ∷ []) named,
      ifaces-with_ifaces e.ifaces e.info h.pending ∙ h.collected,
    )
