-- ===== src/Event/Process/Metrics.antt =====
-- What ProcessEvents sends out (pkg/event/event.go): the metrics of an event, and the request for
-- another clock class.
use np_linuxptp_daemon.Base.{
  ℕ, ◌≡◌, refl, ◌≢◌, ◌↔◌, ◌⊎◌, Bool, true, false, ◌||◌, List, [], ◌∷◌, ◌++◌, Option, none, some,
  String, arith, str_eq, if◌then◌else◌, any,
}
use np_linuxptp_daemon.Base.Int.{ℤ}
use np_linuxptp_daemon.Event.Types.{
  locked, state_eq, state_eq_iff, EventSource, source_eq_iff, dpll, Event, Values,
}
use np_linuxptp_daemon.Event.Stats.{DataDetails}
use np_linuxptp_daemon.Event.Grandmaster.{GmSync, class_uninitialized, class_7, class_out_of_spec}
use np_linuxptp_daemon.Event.Handler.{Handler, gm_interface_unknown}
use np_linuxptp_daemon.Event.Process.{
  Metric, clock_state, measured, Output, ClockClassRequest, update_metrics, clear_nmea,
  is_nmea_status, event_metrics, class_request, request_accuracy, report, mask_iface, state_metric,
}

-- Whether a metric is the NMEA status.
abbrev pub is_nmea_metric : Metric → Bool
is_nmea_metric (clock_state p iface n) = false
is_nmea_metric (measured t from p iface v) = is_nmea_status t

any-append : (p : Metric → Bool) (xs ys : List Metric) → any p (xs ++ ys) ≡ (any p xs || any p ys)
any-append p [] ys = refl
any-append p (x ∷ xs) ys = ground (arith, any-append p xs ys)

update_metrics-clear_nmea :
    (p : EventSource) (iface : String) (vs : Values)
    → any is_nmea_metric (update_metrics p iface (clear_nmea vs)) ≡ false
unfolding update_metrics clear_nmea
update_metrics-clear_nmea p iface [] = refl
update_metrics-clear_nmea p iface ((t, v) ∷ vs) =
    ground (arith, update_metrics-clear_nmea p iface vs)

gm_metric :
    (g : GmSync) (unknown : Bool)
    → any is_nmea_metric (
        if unknown
        then []
        else clock_state "GM" (mask_iface g.gm_iface) (state_metric g.state) ∷ [])
      ≡ false
gm_metric g true = refl
gm_metric g false = refl

socket_or :
    (to_socket : Bool) (ms : List Metric)
    → any is_nmea_metric ms ≡ false
    → any is_nmea_metric (if to_socket then [] else ms) ≡ false
socket_or true ms h = refl
socket_or false ms h = h

event_metrics-clear_nmea :
    (e : Event) (vs : Values) (iface : String) (g : GmSync)
    → any is_nmea_metric (event_metrics e (clear_nmea vs) iface g) ≡ false
unfolding event_metrics
event_metrics-clear_nmea e vs iface g =
    simp (any-append, update_metrics-clear_nmea e.process_name iface vs)
      (gm_metric g (str_eq g.gm_iface gm_interface_unknown))

-- Unless the grandmaster is locked, an event sets no NMEA status in the metrics, whatever its
-- values are: the 0 that takes the place of the status is an int, and only an int64 or a float64 is
-- measured.
pub report_nmea_unmeasured :
    (accuracy_from_offset : ℤ → ℕ) (told : Bool) (e : Event) (o : Option DataDetails) (h : Handler)
    (g : GmSync) {out : Output}
    → g.state ≢ locked
    → report accuracy_from_offset told e o h g ≡ some out
    → any is_nmea_metric out.metrics ≡ false
unfolding report
report_nmea_unmeasured f told e none h g away found = cc
report_nmea_unmeasured f told e (some dd) h g {out} away found =
    let not_locked : state_eq g.state locked ≡ false =
      ground (arith, state_eq_iff g.state locked) in
    let sent : (if h.stdout_to_socket
          then []
          else event_metrics e (if state_eq g.state locked then e.values else clear_nmea e.values)
              dd.iface g)
        ≡ out.metrics =
      cc in
    rw (← sent, not_locked)
      (socket_or h.stdout_to_socket _ (event_metrics-clear_nmea e e.values dd.iface g))

-- A request for another clock class is made exactly when the grandmaster has a clock class and it,
-- or the accuracy that goes with it, is not what the handler last set.
pub class_request-none :
    (accuracy_from_offset : ℤ → ℕ) (h : Handler) (e : Event) (vs : Values) (g : GmSync)
    → (class_request accuracy_from_offset h e vs g ≡ none) ↔ (
        (g.clock_class ≡ class_uninitialized)
        ⊎ ((g.clock_class ≡ h.clock_class)
            × (request_accuracy accuracy_from_offset h e vs g ≡ h.clock_accuracy)))
unfolding class_request
class_request-none f h e vs g = (λ a. ground arith, λ b. ground arith)

request_accuracy_lem :
    (accuracy_from_offset : ℤ → ℕ) (h : Handler) (e : Event) (vs : Values) (g : GmSync)
    → (request_accuracy accuracy_from_offset h e vs g ≡ h.clock_accuracy)
      ⊎ ((e.process_name ≡ dpll)
          × ((g.clock_class ≡ class_7) ⊎ (g.clock_class ≡ class_out_of_spec)))
unfolding request_accuracy
request_accuracy_lem f h e vs g = ground (arith, source_eq_iff e.process_name dpll)

-- A request carries the profile and the clock type of the event, and the state and the clock class
-- of the grandmaster. Its accuracy is new only for a DPLL event in holdover or out of spec; any
-- other request repeats the accuracy that the handler has.
pub class_request-some :
    (accuracy_from_offset : ℤ → ℕ) (h : Handler) (e : Event) (vs : Values) (g : GmSync)
    {r : ClockClassRequest}
    → class_request accuracy_from_offset h e vs g ≡ some r
    → (r.cfg_name ≡ e.cfg_name)
      × (r.gm_state ≡ g.state)
      × (r.clock_class ≡ g.clock_class)
      × ((r.clock_accuracy ≡ h.clock_accuracy)
          ⊎ ((e.process_name ≡ dpll)
              × ((g.clock_class ≡ class_7) ⊎ (g.clock_class ≡ class_out_of_spec))))
unfolding class_request
class_request-some f h e vs g {r} made =
    (ground arith, ground arith, ground arith, ground (arith, request_accuracy_lem f h e vs g))
