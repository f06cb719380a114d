-- ===== src/Event/Process/Step.antt =====
-- One round of ProcessEvents (pkg/event/event.go) and the stored profiles.
use np_linuxptp_daemon.Base.{
  ℕ, ◌≡◌, refl, ◌∙◌, ◌≢◌, inl, inr, Bool, true, false, List, [], ◌∷◌, Option, none, some, String,
  arith, str_eq, str_eq_iff, if◌then◌else◌, if_true, if_false, Bool-cases, Option-cases,
}
use np_linuxptp_daemon.Base.Int.{ℤ}
use np_linuxptp_daemon.Base.Map.{lookup, lookup-insert, lookup-erase, str_eq_ne}
use mathlib.Core.Option
use np_linuxptp_daemon.Event.Types.{EventSource, source_eq, Event, ts2phc, synce}
use np_linuxptp_daemon.Event.Stats.{Data, DataDetails}
use np_linuxptp_daemon.Event.Grandmaster.{GmSync}
use np_linuxptp_daemon.Event.Handler.{
  Handler, data_of, find_data, add_event, update_gm_state, gnss_interface, gm_interface_unknown,
}
use np_linuxptp_daemon.Event.Handler.Store.{
  IsStore, add_event-IsStore, add_event-details, data_of-add_event,
}
use np_linuxptp_daemon.Event.Process.{
  report, process_report, process_reset, reset_profile, reset_slice, process_event, mark_source,
  silent, process_synce,
}
use np_linuxptp_daemon.Event.Process.Reset.{remove, UniqueProcesses, reset_slice-eq-remove}

-- Every profile has its store in order.
abbrev pub IsOrdered : Handler → Type 0
IsOrdered h = (cfg : String) → IsStore (data_of cfg h)

IsStore-UniqueProcesses : (ds : List Data) → IsStore ds → UniqueProcesses ds
IsStore-UniqueProcesses [] s = tt
IsStore-UniqueProcesses (d ∷ ds) s = (s.0, IsStore-UniqueProcesses ds s.2)

find_data-remove :
    (q p : EventSource) (ds : List Data) → find_data q ds ≡ none → find_data q (remove p ds) ≡ none
unfolding find_data
find_data-remove q p [] h = refl
find_data-remove q p (d ∷ ds) h = ground (arith, find_data-remove q p ds)

remove-IsStore : (p : EventSource) (ds : List Data) → IsStore ds → IsStore (remove p ds)
remove-IsStore p [] s = tt
remove-IsStore p (d ∷ ds) s = elim (Bool-cases (source_eq d.process_name p)) [
  | inl same ↦ rw same s.2
  | inr other ↦ rw other (find_data-remove d.process_name p ds s.0, s.1, remove-IsStore p ds s.2)
]

reset_slice-IsStore : (p : EventSource) (ds : List Data) → IsStore ds → IsStore (reset_slice p ds)
reset_slice-IsStore p ds s =
    rw (reset_slice-eq-remove p ds (IsStore-UniqueProcesses ds s)) (remove-IsStore p ds s)

data_of-reset_profile :
    (p : EventSource) (cfg other : String) (h : Handler)
    → IsOrdered h
    → Option.get_or (lookup other (reset_profile p cfg (lookup cfg h.profiles) h.profiles)) []
      ≡ (if str_eq cfg other then remove p (data_of other h) else data_of other h)
data_of-reset_profile p cfg other h s = elim (Bool-cases (str_eq cfg other)) [
  | inr away ↦ elim (Option-cases (lookup cfg h.profiles)) [
    | inl absent ↦ rw (away, absent)
    | inr (ds, found) ↦ rw (away, found, lookup-insert, away)
  ]
  | inl here ↦
      let at : cfg ≡ other = (str_eq_iff cfg other).0 here in
      elim (Option-cases (lookup cfg h.profiles)) [
        | inl absent ↦ rw (here, absent, ← at, absent)
        | inr (ds, found) ↦
            let stored : data_of cfg h ≡ ds = rw found in
            rw (here, found, lookup-insert, here, ← at, found)
              (reset_slice-eq-remove p ds (IsStore-UniqueProcesses ds (rw stored at (s cfg))))
      ]
]

reset-IsStore :
    (p : EventSource) (whole here : Bool) (ds : List Data)
    → IsStore ds
    → IsStore (if here then (if whole then [] else remove p ds) else ds)
reset-IsStore p true true ds s = tt
reset-IsStore p false true ds s = remove-IsStore p ds s
reset-IsStore p whole false ds s = s

-- The slices after a reset: the profile of the event loses everything if ts2phc is reset, else the
-- process of the event; the other profiles lose nothing.
pub data_of-process_reset :
    (e : Event) (h : Handler) (cfg : String)
    → IsOrdered h
    → data_of cfg (process_reset e h) ≡ (
        if str_eq e.cfg_name cfg
        then (if source_eq e.process_name ts2phc then [] else remove e.process_name (data_of cfg h))
        else data_of cfg h)
unfolding process_reset
data_of-process_reset e h cfg s = elim (Bool-cases (source_eq e.process_name ts2phc)) [
  | inl whole ↦ rw (whole, lookup-erase) (ground arith)
  | inr one ↦ rw one (data_of-reset_profile e.process_name e.cfg_name cfg h s)
]

report-total :
    (accuracy_from_offset : ℤ → ℕ) (told : Bool) (e : Event) (o : Option DataDetails) (h : Handler)
    (g : GmSync)
    → o ≢ none
    → report accuracy_from_offset told e o h g ≢ none
unfolding report
report-total f told e none h g some_entry = absurd (some_entry refl)
report-total f told e (some dd) h g some_entry = λ absent. cc

process_report-total :
    (accuracy_from_offset : ℤ → ℕ) (subscribed : Bool) (now : ℕ) (e : Event) (h : Handler)
    → (process_report accuracy_from_offset subscribed now e h).1 ≢ none
unfolding process_report
process_report-total f subscribed now e h =
    report-total f _ e (add_event subscribed now e h).2 _ _
      (λ absent. cc (absent, add_event-details subscribed now e h))

process_event-reset :
    (accuracy_from_offset : ℤ → ℕ) (subscribed : Bool) (now : ℕ) (e : Event) (h : Handler)
    → e.reset ≡ true
    → process_event accuracy_from_offset subscribed now e h ≡ (process_reset e h, some silent)
unfolding process_event
process_event-reset f subscribed now e h clean = if_true _ _ clean

process_event-synce :
    (accuracy_from_offset : ℤ → ℕ) (subscribed : Bool) (now : ℕ) (e : Event) (h : Handler)
    → e.reset ≡ false
    → source_eq e.process_name synce ≡ true
    → process_event accuracy_from_offset subscribed now e h ≡ (h, some (process_synce now e))
unfolding process_event
process_event-synce f subscribed now e h event sync = if_false _ _ event ∙ if_true _ _ sync

process_event-report :
    (accuracy_from_offset : ℤ → ℕ) (subscribed : Bool) (now : ℕ) (e : Event) (h : Handler)
    → e.reset ≡ false
    → source_eq e.process_name synce ≡ false
    → process_event accuracy_from_offset subscribed now e h
      ≡ process_report accuracy_from_offset subscribed now e h
unfolding process_event
process_event-report f subscribed now e h event other = if_false _ _ event ∙ if_false _ _ other

-- A round never dereferences a nil entry: every event, in any state of the handler, has an output.
pub process_event-total :
    (accuracy_from_offset : ℤ → ℕ) (subscribed : Bool) (now : ℕ) (e : Event) (h : Handler)
    → (process_event accuracy_from_offset subscribed now e h).1 ≢ none
unfolding process_event process_report
process_event-total f subscribed now e h = elim (Bool-cases e.reset) [
  | inl clean ↦ rw (process_event-reset f subscribed now e h clean) (λ absent. cc)
  | inr event ↦ elim (Bool-cases (source_eq e.process_name synce)) [
    | inl sync ↦ rw (process_event-synce f subscribed now e h event sync) (λ absent. cc)
    | inr other ↦
        rw (process_event-report f subscribed now e h event other)
          (process_report-total f subscribed now e h)
  ]
]

profiles-update_gm_state :
    (now : ℕ) (cfg : String) (h : Handler) → (update_gm_state now cfg h).0.profiles ≡ h.profiles
unfolding update_gm_state
profiles-update_gm_state now cfg h =
    elim (Bool-cases (str_eq (gnss_interface cfg h) gm_interface_unknown)) [
      | inl blank ↦ rw blank
      | inr known ↦ rw known
    ]

profiles-mark_source :
    (e : Event) (o : Option GmSync) (h : Handler) → (mark_source e o h).profiles ≡ h.profiles
unfolding mark_source
profiles-mark_source e none h = refl
profiles-mark_source e (some g) h = refl

profiles-process_report :
    (accuracy_from_offset : ℤ → ℕ) (subscribed : Bool) (now : ℕ) (e : Event) (h : Handler)
    → (process_report accuracy_from_offset subscribed now e h).0.profiles
      ≡ (add_event subscribed now e h).0.profiles
unfolding process_report
profiles-process_report f subscribed now e h =
    let h' = (update_gm_state now e.cfg_name (add_event subscribed now e h).0).0 in
    profiles-mark_source e (lookup e.cfg_name h'.gm_sync) h'
    ∙ profiles-update_gm_state now e.cfg_name (add_event subscribed now e h).0

-- A round keeps every profile in order: one entry for each process, one for each of its
-- interfaces, and the state of a process that of its interfaces together.
pub process_event-IsOrdered :
    (accuracy_from_offset : ℤ → ℕ) (subscribed : Bool) (now : ℕ) (e : Event) (h : Handler)
    → IsOrdered h
    → IsOrdered (process_event accuracy_from_offset subscribed now e h).0
unfolding process_event
process_event-IsOrdered f subscribed now e h s cfg = elim (Bool-cases e.reset) [
  | inl clean ↦ rw (process_event-reset f subscribed now e h clean) (
      rw (data_of-process_reset e h cfg s) (
        reset-IsStore e.process_name (source_eq e.process_name ts2phc) (str_eq e.cfg_name cfg)
          (data_of cfg h) (s cfg)))
  | inr event ↦ elim (Bool-cases (source_eq e.process_name synce)) [
    | inl sync ↦ rw (process_event-synce f subscribed now e h event sync) (s cfg)
    | inr other ↦
        rw
          (
            process_event-report f subscribed now e h event other,
            profiles-process_report f subscribed now e h,
          )
          (add_event-IsStore subscribed now e h s cfg)
  ]
]

-- An event touches no profile but its own.
pub process_event_others :
    (accuracy_from_offset : ℤ → ℕ) (subscribed : Bool) (now : ℕ) (e : Event) (h : Handler)
    (cfg : String)
    → IsOrdered h
    → e.cfg_name ≢ cfg
    → data_of cfg (process_event accuracy_from_offset subscribed now e h).0 ≡ data_of cfg h
process_event_others f subscribed now e h cfg s ne = elim (Bool-cases e.reset) [
  | inl clean ↦
      rw (process_event-reset f subscribed now e h clean)
        (data_of-process_reset e h cfg s ∙ if_false _ _ (str_eq_ne e.cfg_name cfg ne))
  | inr event ↦ elim (Bool-cases (source_eq e.process_name synce)) [
    | inl sync ↦ rw (process_event-synce f subscribed now e h event sync)
    | inr other ↦
        rw
          (
            process_event-report f subscribed now e h event other,
            profiles-process_report f subscribed now e h,
          )
          (data_of-add_event subscribed now e h cfg ∙ if_false _ _ (str_eq_ne e.cfg_name cfg ne))
  ]
]
