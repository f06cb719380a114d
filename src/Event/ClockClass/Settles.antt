-- ===== src/Event/ClockClass/Settles.antt =====
-- Requests of ProcessEvents and their service by UpdateClockClass (pkg/event/event.go), one after
-- the other.
use mathlib.Core.Path.{subst}
use np_linuxptp_daemon.Base.{
  ℕ, ◌≡◌, refl, sym, String, ◌≢◌, ◌∙◌, ◌⊎◌, inl, inr, Bool, true, false, Option, none, some, arith,
  if◌then◌else◌, ◌==◌,
}
use np_linuxptp_daemon.Base.Int.{ℤ}
use np_linuxptp_daemon.Event.Types.{gm, Event, Values, Value, int64, int, float64, text, byte}
use np_linuxptp_daemon.Event.Grandmaster.{
  GmSync, class_6, class_freerun, accuracy_nanosecond_100, accuracy_unknown,
}
use np_linuxptp_daemon.Event.Handler.{Handler}
use np_linuxptp_daemon.Event.Process.{
  ClockClassRequest, class_request, request_accuracy, offset_accuracy, find_offset,
}
use np_linuxptp_daemon.Event.Process.Metrics.{class_request-none}
use np_linuxptp_daemon.Event.ClockClass.{
  Settings, Err, fetched, class_switch, send, keep_class, type_switch, update_clock_class,
  serve_request, prepare,
}
use np_linuxptp_daemon.Event.ClockClass.Update.{IsKnown, serve_request_reaches}

class_switch-accuracy :
    (class accuracy : ℕ) (g : Settings)
    → IsKnown class
    → g.clock_class ≢ class
    → (class_switch class accuracy g).0.clock_accuracy ≡ (
        if class == class_6
        then accuracy_nanosecond_100
        else if class == class_freerun
        then accuracy_unknown
        else accuracy)
unfolding class_switch
class_switch-accuracy class accuracy g known differs = ground arith

keep_class-send_accuracy :
    (set : Settings → Err) (now : ℕ) (cfg : String) (p : Settings × Bool) (h : Handler)
    → ((s : Settings) → set s ≡ none)
    → (keep_class now cfg (send set p) (send set p).err h).0.clock_accuracy ≡ p.0.clock_accuracy
unfolding keep_class send
keep_class-send_accuracy set now cfg (g, true) h works = rw (works g)
keep_class-send_accuracy set now cfg (g, false) h works = refl

serve_request-accuracy :
    (set : Settings → Err) (utc_offset : ℤ) (now : ℕ) (g : Settings) (r : ClockClassRequest)
    (h : Handler)
    → ((s : Settings) → set s ≡ none)
    → r.clock_type ≡ gm
    → IsKnown r.clock_class
    → g.clock_class ≢ r.clock_class
    → (serve_request set utc_offset now (fetched g) r h).0.clock_accuracy ≡ (
        if r.clock_class == class_6
        then accuracy_nanosecond_100
        else if r.clock_class == class_freerun
        then accuracy_unknown
        else r.clock_accuracy)
unfolding serve_request update_clock_class type_switch prepare
serve_request-accuracy set u now g r h works t known differs =
    keep_class-send_accuracy set now r.cfg_name
      (type_switch u r.clock_type r.clock_class r.clock_accuracy g) h works
    ∙ rw t (class_switch-accuracy r.clock_class r.clock_accuracy (prepare u g) known differs)

class_request-accuracy :
    (accuracy_from_offset : ℤ → ℕ) (h : Handler) (e : Event) (vs : Values) (m : GmSync)
    {r : ClockClassRequest}
    → class_request accuracy_from_offset h e vs m ≡ some r
    → (r.clock_accuracy ≡ request_accuracy accuracy_from_offset h e vs m)
      × (r.clock_type ≡ e.clock_type)
      × (r.clock_class ≡ m.clock_class)
unfolding class_request
class_request-accuracy f h e vs m made = (ground arith, ground arith, ground arith)

offset_accuracy-again :
    (accuracy_from_offset : ℤ → ℕ) (a b : ℕ) (o : Option Value)
    → b ≡ offset_accuracy accuracy_from_offset a o
    → offset_accuracy accuracy_from_offset b o ≡ b
unfolding offset_accuracy
offset_accuracy-again f a b none same = refl
offset_accuracy-again f a b (some (int64 n)) same = sym same
offset_accuracy-again f a b (some (int n)) same = refl
offset_accuracy-again f a b (some (float64 n)) same = refl
offset_accuracy-again f a b (some (text n)) same = refl
offset_accuracy-again f a b (some (byte n)) same = refl

-- The accuracy of a request does not change when the handler has taken over the one requested.
request_accuracy-again :
    (accuracy_from_offset : ℤ → ℕ) (h h' : Handler) (e : Event) (vs : Values) (m : GmSync)
    → (h'.clock_accuracy ≡ request_accuracy accuracy_from_offset h e vs m)
      ⊎ ((m.clock_class ≡ class_6) ⊎ (m.clock_class ≡ class_freerun))
    → request_accuracy accuracy_from_offset h' e vs m ≡ h'.clock_accuracy
unfolding request_accuracy
request_accuracy-again f h h' e vs m (inr plain) = ground arith
request_accuracy-again f h h' e vs m (inl same) =
    ground (arith, offset_accuracy-again f h.clock_accuracy h'.clock_accuracy (find_offset vs))

served-accuracy :
    (c accuracy wanted got : ℕ)
    → got ≡ (
        if c == class_6
        then accuracy_nanosecond_100
        else if c == class_freerun
        then accuracy_unknown
        else accuracy)
    → accuracy ≡ wanted
    → (got ≡ wanted) ⊎ ((c ≡ class_6) ⊎ (c ≡ class_freerun))
served-accuracy c accuracy wanted got h same = ground arith

-- When pmc reads a class that is not the one requested, and accepts what is set, then a request for
-- a grandmaster and a known class settles the matter: the same event asks for nothing more.
pub class_request-serve_request :
    (accuracy_from_offset : ℤ → ℕ) (set : Settings → Err) (utc_offset : ℤ) (now : ℕ) (g : Settings)
    (h : Handler) (e : Event) (vs : Values) (m : GmSync) {r : ClockClassRequest}
    → ((s : Settings) → set s ≡ none)
    → e.clock_type ≡ gm
    → IsKnown m.clock_class
    → g.clock_class ≢ m.clock_class
    → class_request accuracy_from_offset h e vs m ≡ some r
    → class_request accuracy_from_offset (serve_request set utc_offset now (fetched g) r h).0 e vs m
      ≡ none
class_request-serve_request f set u now g h e vs m {r} works t known differs made =
    let asked = class_request-accuracy f h e vs m made in
    let h' = (serve_request set u now (fetched g) r h).0 in
    let known_r = subst (λ c. IsKnown c) (sym asked.2) known in
    let class = serve_request_reaches set u now g r h works (asked.1 ∙ t) known_r in
    let accuracy =
      serve_request-accuracy set u now g r h works (asked.1 ∙ t) known_r
        (λ e. differs (e ∙ asked.2)) in
    let kept =
      served-accuracy r.clock_class r.clock_accuracy _ h'.clock_accuracy accuracy asked.0 in
    (class_request-none f h' e vs m).1 (
      inr (
        sym (class ∙ asked.2),
        request_accuracy-again f h h' e vs m (
            subst
              (λ c.
                (h'.clock_accuracy ≡ request_accuracy f h e vs m)
                ⊎ ((c ≡ class_6) ⊎ (c ≡ class_freerun)))
              asked.2 kept),
      ))
