-- ===== src/Event/Handler/Store.antt =====
-- The stored state of a profile under GetData and addEvent (pkg/event/event.go).
use np_linuxptp_daemon.Base.{
  ℕ, ◌≡◌, refl, ◌∙◌, ◌≢◌, inl, inr, Bool, false, ◌&&◌, List, [], ◌∷◌, ◌++◌, none, some, String,
  arith, str_eq, str_eq_iff, if◌then◌else◌, Bool-cases, Option-cases,
}
use np_linuxptp_daemon.Base.Map.{lookup-insert, str_eq_refl}
use np_linuxptp_daemon.Event.Types.{EventSource, source_eq, source_eq_iff, source_eq_comm, Event}
use np_linuxptp_daemon.Event.Stats
use np_linuxptp_daemon.Event.Stats.{DataDetails, Data, get_details, update_loop, update_state}
use np_linuxptp_daemon.Event.Stats.Combined.{combined, update_state-eq-combined}
use np_linuxptp_daemon.Event.Stats.Details.{
  UniqueIfaces, get_details-add_event, add_event-UniqueIfaces, stored,
}
use np_linuxptp_daemon.Event.Handler.{
  Handler, data_of, find_data, new_data, put_data, get_data, add_event, get_ptp_state,
  update_spec_state,
}

-- One entry for each process, with one entry for each interface, and the state of a process is
-- that of its interfaces together.
abbrev pub IsEntry : Data → Type 0
IsEntry d = UniqueIfaces d.details × (d.state ≡ combined d.details)

abbrev pub IsStore : List Data → Type 0
IsStore [] = Unit
IsStore (d ∷ ds) = (find_data d.process_name ds ≡ none) × IsEntry d × IsStore ds

find_data-append :
    (q : EventSource) (x : Data) (ds : List Data)
    → find_data q ds ≡ none
    → find_data q (ds ++ x ∷ []) ≡ (if source_eq x.process_name q then some x else none)
unfolding find_data
find_data-append q x [] h = refl
find_data-append q x (d ∷ ds) h = ground (arith, find_data-append q x ds)

find_data-append_ne :
    (q : EventSource) (x : Data) (ds : List Data)
    → source_eq x.process_name q ≡ false
    → find_data q (ds ++ x ∷ []) ≡ find_data q ds
unfolding find_data
find_data-append_ne q x [] h = ground arith
find_data-append_ne q x (d ∷ ds) h = ground (arith, find_data-append_ne q x ds)

append-IsStore :
    (x : Data) (ds : List Data)
    → IsStore ds
    → IsEntry x
    → find_data x.process_name ds ≡ none
    → IsStore (ds ++ x ∷ [])
unfolding find_data
append-IsStore x [] s e h = (refl, e, tt)
append-IsStore x (d ∷ ds) s e h = elim (Bool-cases (source_eq d.process_name x.process_name)) [
  | inl same ↦ cc
  | inr other ↦ (
    find_data-append_ne d.process_name x ds (source_eq_comm x.process_name d.process_name ∙ other)
        ∙ s.0,
    s.1,
    append-IsStore x ds s.2 e (ground arith),
  )
]

find_data_name :
    (p : EventSource) (ds : List Data) {d : Data} → find_data p ds ≡ some d → d.process_name ≡ p
unfolding find_data
find_data_name p [] h = cc
find_data_name p (x ∷ ds) {d} h =
    ground (arith, source_eq_iff x.process_name p, find_data_name p ds {d = d})

find_data-IsEntry :
    (p : EventSource) (ds : List Data) {d : Data} → IsStore ds → find_data p ds ≡ some d → IsEntry d
unfolding find_data
find_data-IsEntry p [] s h = cc
find_data-IsEntry p (x ∷ ds) {d} s h = elim (Bool-cases (source_eq x.process_name p)) [
  | inl same ↦ ground arith
  | inr other ↦ find_data-IsEntry p ds {d = d} s.2 (ground arith)
]

-- What GetData returns: a store that holds the entry returned, which is of the process.
pub get_data_lem :
    (p : EventSource) (ds : List Data)
    → IsStore ds
    → let (ds', d) = get_data p ds in
      IsStore ds' × IsEntry d × (d.process_name ≡ p) × (find_data p ds' ≡ some d)
unfolding get_data
get_data_lem p ds s = elim (Option-cases (find_data p ds)) [
  | inl absent ↦ rw absent (
    append-IsStore (new_data p) ds s (tt, refl) absent,
    (tt, refl),
    refl,
    find_data-append p (new_data p) ds absent ∙ ground (arith, source_eq_iff p p),
  )
  | inr (d, found) ↦ rw found (s, find_data-IsEntry p ds s found, find_data_name p ds found, found)
]

find_data-put_data :
    (q : EventSource) (x : Data) (ds : List Data)
    → find_data x.process_name ds ≢ none
    → find_data q (put_data x ds) ≡ (if source_eq x.process_name q then some x else find_data q ds)
unfolding find_data put_data
find_data-put_data q x [] h = absurd (h refl)
find_data-put_data q x (d ∷ ds) h = ground (
  arith,
  source_eq_iff x.process_name q,
  source_eq_iff d.process_name q,
  source_eq_iff d.process_name x.process_name,
  find_data-put_data q x ds,
)

find_data-put_data_ne :
    (q : EventSource) (x : Data) (ds : List Data)
    → source_eq q x.process_name ≡ false
    → find_data q ds ≡ none
    → find_data q (put_data x ds) ≡ none
unfolding find_data put_data
find_data-put_data_ne q x [] o h = refl
find_data-put_data_ne q x (d ∷ ds) o h = ground (
  arith,
  source_eq_iff x.process_name q,
  source_eq_iff q x.process_name,
  find_data-put_data_ne q x ds,
)

put_data-IsStore : (x : Data) (ds : List Data) → IsStore ds → IsEntry x → IsStore (put_data x ds)
unfolding put_data
put_data-IsStore x [] s e = tt
put_data-IsStore x (d ∷ ds) s e = elim (Bool-cases (source_eq d.process_name x.process_name)) [
  | inl same ↦
      let named : d.process_name ≡ x.process_name = (source_eq_iff _ _).0 same in
      rw same (rw named at s.0, e, s.2)
  | inr other ↦
      rw other
        (find_data-put_data_ne d.process_name x ds other s.0, s.1, put_data-IsStore x ds s.2 e)
]

-- The entry that addEvent writes back.
abbrev pub written : Bool → ℕ → Event → Handler → Data
written subscribed now e h =
    update_state
      (Stats.add_event subscribed now e (get_data e.process_name (data_of e.cfg_name h)).1).0

written-IsEntry :
    (subscribed : Bool) (now : ℕ) (e : Event) (h : Handler)
    → IsStore (data_of e.cfg_name h)
    → IsEntry (written subscribed now e h)
unfolding update_state
written-IsEntry subscribed now e h s =
    let d = (get_data e.process_name (data_of e.cfg_name h)).1 in
    (
      add_event-UniqueIfaces subscribed now e d (get_data_lem e.process_name _ s).1.0,
      update_state-eq-combined (Stats.add_event subscribed now e d).0,
    )

written-name :
    (subscribed : Bool) (now : ℕ) (e : Event) (h : Handler)
    → IsStore (data_of e.cfg_name h)
    → (written subscribed now e h).process_name ≡ e.process_name
unfolding update_state
written-name subscribed now e h s =
    Stats.Details.add_event-name subscribed now e _ ∙ (get_data_lem e.process_name _ s).2

-- The slices of the profiles after addEvent.
pub data_of-add_event :
    (subscribed : Bool) (now : ℕ) (e : Event) (h : Handler) (cfg : String)
    → data_of cfg (add_event subscribed now e h).0 ≡ (
        if str_eq e.cfg_name cfg
        then put_data
            (written subscribed now e h)
            (get_data e.process_name (data_of e.cfg_name h)).0
        else data_of cfg h)
unfolding add_event update_spec_state
data_of-add_event subscribed now e h cfg = ground (
  arith,
  lookup-insert e.cfg_name cfg
      (put_data (written subscribed now e h) (get_data e.process_name (data_of e.cfg_name h)).0)
      h.profiles,
)

-- addEvent keeps the store of every profile in order.
pub add_event-IsStore :
    (subscribed : Bool) (now : ℕ) (e : Event) (h : Handler)
    → ((cfg : String) → IsStore (data_of cfg h))
    → (cfg : String) → IsStore (data_of cfg (add_event subscribed now e h).0)
add_event-IsStore subscribed now e h s cfg =
    rw (data_of-add_event subscribed now e h cfg) (elim (Bool-cases (str_eq e.cfg_name cfg)) [
      | inl same ↦ rw same (
          put_data-IsStore _ _ (get_data_lem e.process_name _ (s e.cfg_name)).0
            (written-IsEntry subscribed now e h (s e.cfg_name)))
      | inr other ↦ rw other (s cfg)
    ])

-- addEvent never hands a nil entry on: it returns the entry of the event's interface, which
-- carries the interface of the event.
pub add_event-details :
    (subscribed : Bool) (now : ℕ) (e : Event) (h : Handler)
    → (add_event subscribed now e h).2
      ≡ some (
          stored subscribed now e
            (get_details e.iface (get_data e.process_name (data_of e.cfg_name h)).1.details))
unfolding add_event update_state
add_event-details subscribed now e h =
    get_details-add_event subscribed now e (get_data e.process_name (data_of e.cfg_name h)).1
      e.iface
    ∙ rw (str_eq_refl e.iface)

find_data-get_data_ne :
    (p q : EventSource) (ds : List Data)
    → source_eq p q ≡ false
    → find_data q (get_data p ds).0 ≡ find_data q ds
unfolding get_data
find_data-get_data_ne p q ds ne = elim (Option-cases (find_data p ds)) [
  | inl absent ↦ rw absent (find_data-append_ne q (new_data p) ds ne)
  | inr (d, found) ↦ rw found
]

find_data-get_ne_none :
    (p : EventSource) (ds : List Data) → IsStore ds → find_data p (get_data p ds).0 ≢ none
find_data-get_ne_none p ds s none_found = cc ((get_data_lem p ds s).3)

find_written :
    (subscribed : Bool) (now : ℕ) (e : Event) (h : Handler) (p : EventSource)
    → IsStore (data_of e.cfg_name h)
    → find_data p
        (put_data (written subscribed now e h) (get_data e.process_name (data_of e.cfg_name h)).0)
      ≡ (if source_eq e.process_name p
          then some (written subscribed now e h)
          else find_data p (get_data e.process_name (data_of e.cfg_name h)).0)
find_written subscribed now e h p s =
    let name = written-name subscribed now e h s in
    find_data-put_data p (written subscribed now e h) _
      (rw name (find_data-get_ne_none e.process_name (data_of e.cfg_name h) s))
    ∙ rw name

-- After addEvent the state of the event's process in the event's profile is that of the interfaces
-- of its new entry together, and every other state is what it was.
pub get_ptp_state-add_event :
    (subscribed : Bool) (now : ℕ) (e : Event) (h : Handler) (p : EventSource) (cfg : String)
    → IsStore (data_of e.cfg_name h)
    → get_ptp_state p cfg (add_event subscribed now e h).0 ≡ (
        if str_eq e.cfg_name cfg && source_eq e.process_name p
        then combined
            (Stats.add_event subscribed now e
              (get_data e.process_name (data_of e.cfg_name h)).1).0.details
        else get_ptp_state p cfg h)
unfolding get_ptp_state
get_ptp_state-add_event subscribed now e h p cfg s =
    rw (data_of-add_event subscribed now e h cfg) (elim (Bool-cases (str_eq e.cfg_name cfg)) [
      | inr other ↦ rw other
      | inl same ↦
          let at : e.cfg_name ≡ cfg = (str_eq_iff _ _).0 same in
          rw (same, find_written subscribed now e h p s, ← at)
            (elim (Bool-cases (source_eq e.process_name p)) [
              | inl q ↦ rw q (
                  update_state-eq-combined
                    (Stats.add_event subscribed now e
                      (get_data e.process_name (data_of e.cfg_name h)).1).0)
              | inr q ↦ rw (q, find_data-get_data_ne e.process_name p (data_of e.cfg_name h) q)
            ])
    ])
