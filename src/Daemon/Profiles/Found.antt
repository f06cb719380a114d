-- ===== src/Daemon/Profiles/Found.antt =====
-- The highly available profiles that ApplyHaProfiles finds (pkg/daemon/daemon.go).
use np_linuxptp_daemon.Base.{
  ◌≡◌, refl, ap, ◌∙◌, Bool, true, false, ◌||◌, List, [], ◌∷◌, Option, none, some, arith,
  if◌then◌else◌, any,
}
use np_linuxptp_daemon.Strings.{Bytes, bytes_eq, bytes_eq_iff}
use np_linuxptp_daemon.Strings.Dict.{Dict, find, find-put}
use np_linuxptp_daemon.Daemon.Profiles.{
  HaProcess, HaFound, list_ha_profiles, process_of, add_found, ha_loop, apply_ha_profiles,
}

-- The interfaces of a profile that is listed, by the first process that runs it.
abbrev pub ifaces_of : Option HaProcess → Option (List Bytes)
ifaces_of none = none
ifaces_of (some p) = some p.ifaces

abbrev pub is_listed : Bytes → List Bytes → Bool
is_listed name = any (λ n. bytes_eq n name)

abbrev or_before : Option (List Bytes) → Option (List Bytes) → Option (List Bytes)
or_before none before = before
or_before (some is) before = some is

find-add_found :
    (name p : Bytes) (o : Option HaProcess) (found : HaFound)
    → find p ((add_found name o found).profiles) ≡ (
        if bytes_eq name p
        then or_before (ifaces_of o) (find p found.profiles)
        else find p found.profiles)
find-add_found name p none found = ground arith
find-add_found name p (some q) found = find-put name p q.ifaces found.profiles

or_before_twice :
    (x before : Option (List Bytes)) → or_before x (or_before x before) ≡ or_before x before
or_before_twice none before = refl
or_before_twice (some is) before = refl

-- A profile that is listed now or later.
listed_once :
    (now later : Bool) (x y before : Option (List Bytes))
    → (now ≡ true → y ≡ x)
    → (if later
        then or_before x (if now then or_before y before else before)
        else (if now then or_before y before else before))
      ≡ (if now || later then or_before x before else before)
listed_once true true x y before same =
    ap (λ z. or_before x (or_before z before)) (same refl) ∙ or_before_twice x before
listed_once true false x y before same = ap (λ z. or_before z before) (same refl)
listed_once false true x y before same = refl
listed_once false false x y before same = refl

find-ha_loop :
    (p : Bytes) (names : List Bytes) (ps : List HaProcess) (found : HaFound)
    → find p ((ha_loop names ps found).profiles) ≡ (
        if is_listed p names
        then or_before (ifaces_of (process_of p ps)) (find p found.profiles)
        else find p found.profiles)
unfolding ha_loop
find-ha_loop p [] ps found = refl
find-ha_loop p (name ∷ names) ps found =
    let seen = find-add_found name p (process_of name ps) found in
    find-ha_loop p names ps (add_found name (process_of name ps) found)
    ∙ ap (λ f. if is_listed p names then or_before (ifaces_of (process_of p ps)) f else f) seen
    ∙ listed_once (bytes_eq name p) (is_listed p names) (ifaces_of (process_of p ps))
        (ifaces_of (process_of name ps)) (find p found.profiles)
        (λ h. ap (λ n. ifaces_of (process_of n ps)) ((bytes_eq_iff name p).0 h))

or_none : (x : Option (List Bytes)) → or_before x none ≡ x
or_none none = refl
or_none (some is) = refl

-- A profile is among the highly available ones exactly when the settings list it and a process runs
-- it, and its interfaces are those of the first such process.
pub find-apply_ha_profiles :
    (settings : Dict Bytes) (ps : List HaProcess) (cmd_line p : Bytes)
    → find p ((apply_ha_profiles settings ps cmd_line).0)
      ≡ (if is_listed p (list_ha_profiles settings) then ifaces_of (process_of p ps) else none)
unfolding apply_ha_profiles find
find-apply_ha_profiles settings ps cmd_line p =
    find-ha_loop p (list_ha_profiles settings) ps (record { profiles = []; sockets = [] })
    ∙ ap (λ x. if is_listed p (list_ha_profiles settings) then x else none)
        (or_none (ifaces_of (process_of p ps)))
