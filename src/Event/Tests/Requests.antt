-- ===== src/Event/Tests/Requests.antt =====
-- Requests for a clock class and subscriptions (pkg/event) at concrete values.
use np_linuxptp_daemon.Base.{ℕ, ◌≡◌, refl, inl, true, false, [], ◌∷◌, none}
use np_linuxptp_daemon.Base.Int.{ℤ, pos}
use np_linuxptp_daemon.Event.Types.{locked, gm, gnss, dpll, monitoring, EventSource}
use np_linuxptp_daemon.Event.Grandmaster.{class_6}
use np_linuxptp_daemon.Event.Process.{ClockClassRequest, class_request, request_accuracy}
use np_linuxptp_daemon.Event.ClockClass.{
  TimeProperties, Settings, source_internal_oscillator, Err, fetched, serve_request,
}
use np_linuxptp_daemon.Event.ClockClass.Settles.{class_request-serve_request}
use np_linuxptp_daemon.Event.ClockClass.Update.{serve_request_reaches}
use np_linuxptp_daemon.Event.PubSub.{Subscriber, Subscribers}
use np_linuxptp_daemon.Event.Tests.{event_of, heard, config, gm_locked}

-- A setter that succeeds, one that fails, and an accuracy for every offset.
abbrev accepts : Settings → Err
accepts _ = none

abbrev accuracy : ℤ → ℕ
accuracy _ = 0x25

abbrev wanted : ClockClassRequest
wanted = record {
  cfg_name = config;
  gm_state = locked;
  clock_type = gm;
  clock_class = class_6;
  clock_accuracy = 0xfe;
}

abbrev properties : TimeProperties
properties = record {
  current_utc_offset = pos 37;
  current_utc_offset_valid = false;
  leap59 = false;
  leap61 = false;
  time_traceable = false;
  frequency_traceable = false;
  ptp_timescale = false;
  time_source = source_internal_oscillator;
}

abbrev free_settings : Settings
free_settings = record {
  clock_class = 248;
  clock_accuracy = 0xfe;
  offset_scaled_log_variance = 0xffff;
  time_properties = properties;
}

abbrev sent_settings : Settings
sent_settings = record {
  clock_class = class_6;
  clock_accuracy = 0x21;
  offset_scaled_log_variance = 0x4e5d;
  time_properties = record properties {
    current_utc_offset_valid = true;
    time_traceable = true;
    frequency_traceable = true;
    ptp_timescale = true;
    time_source = 0x20;
  };
}

serve_request_reaches_example :
    (serve_request accepts (pos 37) 12 (fetched free_settings) wanted heard).0.clock_class ≡ 6
serve_request_reaches_example =
    serve_request_reaches accepts (pos 37) 12 free_settings wanted heard (λ s. refl) refl (inl refl)

class_request-serve_request_example :
    class_request accuracy
      (serve_request accepts (pos 37) 12 (fetched free_settings) wanted heard).0
      (event_of dpll locked (pos 11))
      []
      gm_locked
    ≡ none
unfolding class_request request_accuracy
class_request-serve_request_example =
    class_request-serve_request accuracy accepts (pos 37) 12 free_settings heard
      (event_of dpll locked (pos 11)) [] gm_locked {r = wanted} (λ s. refl) refl (inl refl)
      (λ e. cc) refl

abbrev same_settings : Settings
same_settings = record free_settings { clock_class = class_6; clock_accuracy = 0x21 }

abbrev subscriber : EventSource → Subscriber
subscriber t = record { topic = t; id = "dpll" }

abbrev subscribers : Subscribers
subscribers = ("gnss_dpll", subscriber gnss) ∷ ("monitoring_dpll", subscriber monitoring) ∷ []
