-- ===== src/Event/ClockClass/Update.antt =====
-- What updateCLockClass and UpdateClockClass (pkg/event/event.go) set and keep.
use np_linuxptp_daemon.Base.{
  ℕ, ◌≡◌, refl, ◌∙◌, ◌≢◌, ◌⊎◌, Bool, true, false, ◌||◌, none, some, String, arith, if◌then◌else◌,
  ◌==◌,
}
use np_linuxptp_daemon.Base.Int.{ℤ}
use np_linuxptp_daemon.Event.Types.{ClockType, gm, bc, oc, no_type}
use np_linuxptp_daemon.Event.Grandmaster.{
  class_6, class_7, class_out_of_spec, class_freerun, accuracy_nanosecond_100, accuracy_unknown,
}
use np_linuxptp_daemon.Event.Handler.{Handler}
use np_linuxptp_daemon.Event.Process.{ClockClassRequest}
use np_linuxptp_daemon.Event.ClockClass.{
  Settings, source_gnss, source_internal_oscillator, Err, Fetched, fetched, prepare, class_switch,
  send, keep_class, type_switch, update_clock_class, serve_request,
}

-- The clock classes that the switch knows.
abbrev pub IsKnown : ℕ → Type 0
IsKnown c = (c ≡ class_6) ⊎ ((c ≡ class_7) ⊎ ((c ≡ class_out_of_spec) ⊎ (c ≡ class_freerun)))

-- The settings that go with a clock class (G.8275.1, 6.3.5 and 6.4): the time is traceable in
-- class 6 and 7, its source is GNSS in class 6 alone, and so is the variance of a locked clock; an
-- accuracy is given in class 7 and out of spec.
pub record Conforms (c accuracy : ℕ) (g : Settings) : Type 0 where
  pub class : g.clock_class ≡ c
  pub traceable : g.time_properties.time_traceable ≡ (c == class_6 || c == class_7)
  pub source :
      g.time_properties.time_source
      ≡ (if c == class_6 then source_gnss else source_internal_oscillator)
  pub variance : g.offset_scaled_log_variance ≡ (if c == class_6 then 0x4e5d else 0xffff)
  pub precision : g.clock_accuracy ≡ (
      if c == class_6
      then accuracy_nanosecond_100
      else if c == class_freerun
      then accuracy_unknown
      else accuracy)

-- Settings are sent only for a grandmaster and a known clock class other than the one read; they
-- conform to the class, and carry the UTC offset as valid.
pub update_clock_class-sent :
    (set : Settings → Err) (utc_offset : ℤ) (t : ClockType) (class accuracy : ℕ) (g : Settings)
    {s : Settings}
    → (update_clock_class set utc_offset t class accuracy (fetched g)).sent ≡ some s
    → (t ≡ gm)
      × IsKnown class
      × (g.clock_class ≢ class)
      × Conforms class accuracy s
      × (s.time_properties.current_utc_offset ≡ utc_offset)
      × (s.time_properties.current_utc_offset_valid ≡ true)
unfolding update_clock_class send type_switch class_switch prepare
update_clock_class-sent set u gm class accuracy g sent =
    (refl, ground arith, ground arith, ground arith, ground arith, ground arith)
update_clock_class-sent set u bc class accuracy g sent = cc
update_clock_class-sent set u oc class accuracy g sent = cc
update_clock_class-sent set u no_type class accuracy g sent = cc

class_switch-class :
    (class accuracy : ℕ) (g : Settings)
    → IsKnown class
    → (class_switch class accuracy g).0.clock_class ≡ class
unfolding class_switch
class_switch-class class accuracy g known = ground arith

class_switch-same :
    (class accuracy : ℕ) (g : Settings)
    → g.clock_class ≡ class
    → class_switch class accuracy g ≡ (g, false)
unfolding class_switch
class_switch-same class accuracy g same = ground arith

keep_class-send :
    (set : Settings → Err) (now : ℕ) (cfg : String) (p : Settings × Bool) (h : Handler)
    → ((s : Settings) → set s ≡ none)
    → (keep_class now cfg (send set p) (send set p).err h).0.clock_class ≡ p.0.clock_class
unfolding keep_class send
keep_class-send set now cfg (g, true) h works = rw (works g)
keep_class-send set now cfg (g, false) h works = refl

type_switch-same :
    (utc_offset : ℤ) (t : ClockType) (class accuracy : ℕ) (g : Settings)
    → g.clock_class ≡ class
    → (g' : Settings) × (type_switch utc_offset t class accuracy g ≡ (g', false))
      × (g'.clock_accuracy ≡ g.clock_accuracy)
unfolding type_switch prepare
type_switch-same u gm class accuracy g same =
    (prepare u g, class_switch-same class accuracy (prepare u g) same, refl)
type_switch-same u bc class accuracy g same = (g, refl, refl)
type_switch-same u oc class accuracy g same = (g, refl, refl)
type_switch-same u no_type class accuracy g same = (g, refl, refl)

-- When pmc reads and writes, a request for a grandmaster and a known class leaves the handler with
-- the class requested, whatever pmc read.
pub serve_request_reaches :
    (set : Settings → Err) (utc_offset : ℤ) (now : ℕ) (g : Settings) (r : ClockClassRequest)
    (h : Handler)
    → ((s : Settings) → set s ≡ none)
    → r.clock_type ≡ gm
    → IsKnown r.clock_class
    → (serve_request set utc_offset now (fetched g) r h).0.clock_class ≡ r.clock_class
unfolding serve_request update_clock_class type_switch
serve_request_reaches set u now g r h works t known =
    keep_class-send set now r.cfg_name (type_switch u r.clock_type r.clock_class r.clock_accuracy g)
      h works
    ∙ rw t (class_switch-class r.clock_class r.clock_accuracy (prepare u g) known)

-- A request that meets an error of pmc leaves the handler as it was and writes no line.
pub serve_request_failed :
    (set : Settings → Err) (utc_offset : ℤ) (now : ℕ) (read : Fetched) (r : ClockClassRequest)
    (h : Handler) {e : String}
    → (update_clock_class set utc_offset r.clock_type r.clock_class r.clock_accuracy read).err
      ≡ some e
    → serve_request set utc_offset now read r h ≡ (h, none)
unfolding serve_request
serve_request_failed set u now read r h fails = rw fails

-- While the class read is the one requested nothing is sent, though the accuracy requested be
-- another: the handler takes over the accuracy that was read.
pub serve_request_keeps_accuracy :
    (set : Settings → Err) (utc_offset : ℤ) (now : ℕ) (g : Settings) (r : ClockClassRequest)
    (h : Handler)
    → g.clock_class ≡ r.clock_class
    → ((update_clock_class set utc_offset r.clock_type r.clock_class r.clock_accuracy
          (fetched g)).sent
        ≡ none)
      × ((serve_request set utc_offset now (fetched g) r h).0.clock_accuracy ≡ g.clock_accuracy)
unfolding serve_request update_clock_class send
serve_request_keeps_accuracy set u now g r h same =
    let (g', unsent, accuracy) =
      type_switch-same u r.clock_type r.clock_class r.clock_accuracy g same in
    rw unsent (refl, accuracy)
