-- ===== src/Event/Handler/Gm.antt =====
-- updateGMState, getGMState and getGMClockClass (pkg/event/event.go) over the stored profiles.
use np_linuxptp_daemon.Base.{
  ℕ, ◌≡◌, refl, ap, ◌∙◌, Bool, ◌≢◌, inl, inr, true, false, List, [], ◌∷◌, Option, none, some,
  String, arith, str_eq, Bool-cases, Option-cases,
}
use np_linuxptp_daemon.Base.Map.{lookup, lookup-insert, str_eq_refl, str_eq_ne}
use np_linuxptp_daemon.Event.Types.{
  PtpState, freerun, not_set, EventSource, gnss, dpll, ts2phc, source_eq, source_eq_iff,
}
use np_linuxptp_daemon.Event.Stats.{Data, DataDetails}
use np_linuxptp_daemon.Event.Grandmaster.{GmSync, Inputs, gm_decide}
use np_linuxptp_daemon.Event.Handler.{
  Handler, data_of, find_data, gnss_interface, is_source_lost, gm_interface_unknown, read_states,
  first_source_lost, source_lost_loop, inputs_start, gm_entry, gm_update, gm_report,
  update_gm_state, blank_gm, get_gm_state, get_gm_clock_class,
}
use np_linuxptp_daemon.Event.Handler.Store.{IsStore}

-- The inputs of the decision for a profile.
abbrev pub gm_inputs : String → Handler → Inputs
gm_inputs cfg h = read_states (inputs_start (is_source_lost cfg h) h) (data_of cfg h)

-- The state of a process, with what stands for one that has not reported.
abbrev pub state_or : PtpState → Option Data → PtpState
state_or s none = s
state_or s (some d) = d.state

-- The inputs that the decision is meant to read: for each of the three processes the stored state.
abbrev meant : Inputs → List Data → Inputs
meant i ds = record i {
  dpll_state = state_or i.dpll_state (find_data dpll ds);
  gnss_state = state_or i.gnss_state (find_data gnss ds);
  ts2phc_state = state_or i.ts2phc_state (find_data ts2phc ds);
}

not_both :
    (p a b : EventSource) → source_eq a b ≡ false → source_eq p a ≡ true → source_eq p b ≡ false
not_both p a b ne h = rw ((source_eq_iff p a).0 h) ne

dpll-gnss : source_eq dpll gnss ≡ false
unfolding source_eq
dpll-gnss = refl

dpll-ts2phc : source_eq dpll ts2phc ≡ false
unfolding source_eq
dpll-ts2phc = refl

gnss-ts2phc : source_eq gnss ts2phc ≡ false
unfolding source_eq
gnss-ts2phc = refl

found_twice :
    (p q : EventSource) (ds : List Data)
    → source_eq p q ≡ true
    → find_data p ds ≡ none
    → find_data q ds ≡ none
found_twice p q ds same absent = rw (← (source_eq_iff p q).0 same) absent

read_states-eq-meant : (i : Inputs) (ds : List Data) → IsStore ds → read_states i ds ≡ meant i ds
unfolding read_states find_data
read_states-eq-meant i [] s = refl
read_states-eq-meant i (d ∷ ds) s =
    let p = d.process_name in
    ground (
      arith,
      not_both p dpll gnss dpll-gnss,
      not_both p dpll ts2phc dpll-ts2phc,
      not_both p gnss ts2phc gnss-ts2phc,
      found_twice p dpll ds,
      found_twice p gnss ds,
      found_twice p ts2phc ds,
      read_states-eq-meant (record i { dpll_state = d.state }) ds s.2,
      read_states-eq-meant (record i { gnss_state = d.state }) ds s.2,
      read_states-eq-meant (record i { ts2phc_state = d.state }) ds s.2,
      read_states-eq-meant i ds s.2,
    )

-- The mark of the first interface of an entry.
abbrev pub first_mark : List DataDetails → Bool
first_mark [] = false
first_mark (dd ∷ dds) = dd.source_lost

abbrev pub mark_of : Option Data → Bool
mark_of none = false
mark_of (some d) = first_mark d.details

lost_of-found :
    (dds : List DataDetails) (rest : Bool)
    → rest ≡ false
    → first_source_lost dds rest ≡ first_mark dds
unfolding first_source_lost
lost_of-found [] rest h = h
lost_of-found (dd ∷ dds) rest h = refl

source_lost_loop-absent : (ds : List Data) → find_data gnss ds ≡ none → source_lost_loop ds ≡ false
unfolding source_lost_loop find_data
source_lost_loop-absent [] h = refl
source_lost_loop-absent (d ∷ ds) h = ground (arith, h, source_lost_loop-absent ds)

source_lost_loop-eq-mark_of :
    (ds : List Data) → IsStore ds → source_lost_loop ds ≡ mark_of (find_data gnss ds)
unfolding source_lost_loop find_data
source_lost_loop-eq-mark_of [] s = refl
source_lost_loop-eq-mark_of (d ∷ ds) s = elim (Bool-cases (source_eq d.process_name gnss)) [
  | inl found ↦
      rw (found, source_lost_loop, find_data)
        (lost_of-found d.details (source_lost_loop ds)
          (source_lost_loop-absent ds (rw (← (source_eq_iff d.process_name gnss).0 found) (s.0))))
  | inr other ↦ rw (other, source_lost_loop, find_data) (source_lost_loop-eq-mark_of ds s.2)
]

-- If no process has two entries, the decision reads the stored state of the DPLL, of GNSS and of
-- ts2phc, with not set for an absent DPLL and freerun for the other two. It takes the source for
-- lost where the first interface of the GNSS entry is marked so, and the specification and the
-- traceability from the handler.
pub gm_inputs_lem :
    (cfg : String) (h : Handler)
    → IsStore (data_of cfg h)
    → gm_inputs cfg h ≡ record {
      dpll_state = state_or not_set (find_data dpll (data_of cfg h));
      gnss_state = state_or freerun (find_data gnss (data_of cfg h));
      ts2phc_state = state_or freerun (find_data ts2phc (data_of cfg h));
      src_lost = mark_of (find_data gnss (data_of cfg h));
      out_of_spec = h.out_of_spec;
      frequency_traceable = h.frequency_traceable;
    }
unfolding is_source_lost
gm_inputs_lem cfg h s =
    read_states-eq-meant (inputs_start (is_source_lost cfg h) h) (data_of cfg h) s
    ∙ ap (λ b. meant (inputs_start b h) (data_of cfg h))
        (source_lost_loop-eq-mark_of (data_of cfg h) s)

-- While no GNSS interface of the profile is known, nothing is stored and a blank state returned.
pub update_gm_state_unknown :
    (now : ℕ) (cfg : String) (h : Handler)
    → gnss_interface cfg h ≡ gm_interface_unknown
    → update_gm_state now cfg h ≡ (h, blank_gm gm_interface_unknown)
unfolding update_gm_state
update_gm_state_unknown now cfg h e = rw e

known-has_data :
    (cfg : String) (h : Handler)
    → gnss_interface cfg h ≢ gm_interface_unknown
    → (ds : List Data) × (lookup cfg h.profiles ≡ some ds)
unfolding gnss_interface
known-has_data cfg h known = elim (Option-cases (lookup cfg h.profiles)) [
  | inl absent ↦ absurd (known (rw absent))
  | inr found ↦ found
]

gm_report_keeps :
    (now : ℕ) (cfg : String) (g : GmSync)
    → let (kept, told) = gm_report now cfg g in
      (kept.state ≡ g.state)
      × (kept.clock_class ≡ g.clock_class)
      × (kept.clock_accuracy ≡ g.clock_accuracy)
      × (told.state ≡ g.state)
      × (told.clock_class ≡ g.clock_class)
      × (told.clock_accuracy ≡ g.clock_accuracy)
unfolding gm_report
gm_report_keeps now cfg g = ground arith

-- The entry that updateGMState decides from.
abbrev pub entry_of : String → Handler → GmSync
entry_of cfg h = gm_entry (is_source_lost cfg h) (gnss_interface cfg h) (lookup cfg h.gm_sync)

gm_update_found :
    (now : ℕ) (cfg : String) (h : Handler) {ds : List Data}
    → lookup cfg h.profiles ≡ some ds
    → gm_update now cfg
        (entry_of cfg h)
        (inputs_start (is_source_lost cfg h) h)
        (lookup cfg h.profiles)
      ≡ gm_report now cfg (gm_decide (gm_inputs cfg h) (entry_of cfg h))
unfolding gm_update
gm_update_found now cfg h found = rw found

-- With a known GNSS interface updateGMState stores the state and the clock class that the decision
-- gives on the stored states, where getGMState and getGMClockClass find them, and returns both.
pub update_gm_state_lem :
    (now : ℕ) (cfg : String) (h : Handler)
    → gnss_interface cfg h ≢ gm_interface_unknown
    → let (h', told) = update_gm_state now cfg h in
      let decided = gm_decide (gm_inputs cfg h) (entry_of cfg h) in
      ((get_gm_state cfg h').state ≡ decided.state)
      × (get_gm_clock_class cfg h' ≡ decided.clock_class)
      × (told.state ≡ decided.state)
      × (told.clock_class ≡ decided.clock_class)
      × (told.clock_accuracy ≡ decided.clock_accuracy)
unfolding update_gm_state get_gm_state get_gm_clock_class
update_gm_state_lem now cfg h known =
    let (ds, found) = known-has_data cfg h known in
    let keeps = gm_report_keeps now cfg (gm_decide (gm_inputs cfg h) (entry_of cfg h)) in
    let stored = gm_update_found now cfg h found in
    rw (str_eq_ne _ _ known, lookup-insert, str_eq_refl cfg, stored)
      (keeps.0, keeps.1, keeps.3, keeps.4, keeps.5)

-- The grandmaster entries of the other profiles stay as they are.
pub update_gm_state_others :
    (now : ℕ) (cfg other : String) (h : Handler)
    → cfg ≢ other
    → lookup other (update_gm_state now cfg h).0.gm_sync ≡ lookup other h.gm_sync
unfolding update_gm_state
update_gm_state_others now cfg other h ne =
    elim (Bool-cases (str_eq (gnss_interface cfg h) gm_interface_unknown)) [
      | inl blank ↦ rw blank
      | inr known ↦ rw (known, lookup-insert, str_eq_ne cfg other ne)
    ]
