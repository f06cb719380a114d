-- ===== src/Dpll/Subscriptions.antt =====
-- MonitorProcess, registerAllSubscriber and unRegisterAllSubscriber (pkg/dpll/dpll.go): the
-- subscribers of one DPLL in the state notifier of pkg/event/pubsub.go.
use Prim.Native.String.{◌++◌ as text_append}
use np_linuxptp_daemon.Base.{
  ℕ, zero, suc, ◌/◌, ◌%◌, ◌≡◌, refl, ◌∙◌, ◌⊎◌, inl, inr, Bool, true, false, List, [], ◌∷◌, ◌++◌,
  none, String, arith, str_eq, if◌then◌else◌, Bool-cases, any, ltb,
}
use np_linuxptp_daemon.Base.Int.{ℤ}
use np_linuxptp_daemon.Base.Map.{lookup}
use np_linuxptp_daemon.Event.Types.{
  PtpState, EventSource, gnss, monitoring, unknown, ClockType, source_eq,
}
use np_linuxptp_daemon.Event.PubSub.{
  Subscriber, Subscribers, key, register, unregister, lookup-register-unregister,
}
use np_linuxptp_daemon.Dpll.Config.{Dpll}
use np_linuxptp_daemon.Dpll.Depending.{set_state}

-- The fields of `config.ProcessConfig` that a DPLL keeps.
pub record ProcessConfig : Type 0 where
  pub has_channel : Bool
  pub cfg_name : String
  pub clock_type : ClockType
  pub threshold_max : ℤ
  pub threshold_min : ℤ

-- `d.processConfig = processCfg`
unfoldable pub configure : ProcessConfig → Dpll → Dpll
configure c d = record d {
  has_channel = c.has_channel;
  cfg_name = c.cfg_name;
  clock_type = c.clock_type;
  threshold_max = c.threshold_max;
  threshold_min = c.threshold_min;
}

unfoldable pub hex_digit : ℕ → String
hex_digit n =
    if ltb n 10
    then (if ltb n 5
        then (if ltb n 2
            then (if ltb n 1 then "0" else "1")
            else if ltb n 3
            then "2"
            else if ltb n 4
            then "3"
            else "4")
        else if ltb n 7
        then (if ltb n 6 then "5" else "6")
        else if ltb n 8
        then "7"
        else if ltb n 9
        then "8"
        else "9")
    else if ltb n 13
    then (if ltb n 11 then "a" else if ltb n 12 then "b" else "c")
    else if ltb n 14
    then "d"
    else if ltb n 15
    then "e"
    else "f"

-- The verb %x of at most `suc fuel` digits; a clock identity of 64 bits has at most 16.
unfoldable pub hex_text : ℕ → ℕ → String
hex_text zero n = hex_digit (n % 16)
hex_text (suc fuel) n =
    let rest = hex_text fuel (n / 16) in
    if ltb n 16 then hex_digit n else text_append rest (hex_digit (n % 16))

-- `fmt.Sprintf("%s-%x", event.DPLL, d.clockId)`
unfoldable pub subscriber_id : ℕ → String
subscriber_id clock_id = text_append "dpll-" (hex_text 15 clock_id)

-- The loop over `d.dependsOn`: the new entries of the table of states, and the new subscribers.
unfoldable pub depend_loop :
    ℕ
    → List EventSource
    → List (EventSource × PtpState)
    → List (EventSource × PtpState) × List Subscriber
depend_loop id [] states = (states, [])
depend_loop id (dep ∷ deps) states =
    let taken = depend_loop id deps (set_state dep unknown states) in
    let passed = depend_loop id deps states in
    if source_eq dep gnss
    then (taken.0, record { topic = dep; id = subscriber_id id } ∷ taken.1)
    else passed

-- `registerAllSubscriber`
unfoldable pub register_all : List Subscriber → Subscribers → Subscribers
register_all [] m = m
register_all (s ∷ ss) m = register_all ss (register s m)

-- The loop of `unRegisterAllSubscriber`.
unfoldable pub unregister_all : List Subscriber → Subscribers → Subscribers
unregister_all [] m = m
unregister_all (s ∷ ss) m = unregister_all ss (unregister s m)

-- A DPLL with its subscribers, the table of the states it depends on, and the state notifier.
pub record Client : Type 0 where
  pub dpll : Dpll
  pub subscriber : List Subscriber
  pub states : List (EventSource × PtpState)
  pub registry : Subscribers

-- `MonitorProcess`
unfoldable pub monitor_process : ProcessConfig → Client → Client
monitor_process cfg c =
    let new = depend_loop c.dpll.clock_id c.dpll.depends_on c.states in
    let own : Subscriber = record { topic = monitoring; id = subscriber_id c.dpll.clock_id } in
    let all = (c.subscriber ++ new.1) ++ own ∷ [] in
    record {
      dpll = configure cfg c.dpll;
      subscriber = all;
      states = new.0;
      registry = register_all all c.registry;
    }

-- `unRegisterAllSubscriber`
unfoldable pub unregister_client : Client → Client
unregister_client c = record c {
  subscriber = [];
  registry = unregister_all c.subscriber c.registry;
}

abbrev pub has_key : List Subscriber → String → Bool
has_key ss k = any (λ s. str_eq (key s) k) ss

lookup-register_all_other :
    (ss : List Subscriber) (m : Subscribers) (k : String)
    → has_key ss k ≡ false
    → lookup k (register_all ss m) ≡ lookup k m
unfolding register_all
lookup-register_all_other [] m k h = refl
lookup-register_all_other (s ∷ ss) m k h =
    ground
      (arith, lookup-register_all_other ss (register s m) k, (lookup-register-unregister s m k).0)

lookup-unregister_all :
    (ss : List Subscriber) (m : Subscribers) (k : String)
    → lookup k (unregister_all ss m) ≡ (if has_key ss k then none else lookup k m)
unfolding unregister_all
lookup-unregister_all [] m k = refl
lookup-unregister_all (s ∷ ss) m k =
    ground
      (arith, lookup-unregister_all ss (unregister s m) k, (lookup-register-unregister s m k).1)

-- After MonitorProcess and then unRegisterAllSubscriber the state notifier has no subscriber under
-- any key of the DPLL's subscribers and what it had under every other key, and the DPLL keeps no
-- subscriber.
pub lookup-unregister_client :
    (cfg : ProcessConfig) (c : Client) (k : String)
    → let c' = monitor_process cfg c in
      (lookup k (unregister_client c').registry
        ≡ (if has_key c'.subscriber k then none else lookup k c.registry))
      × ((unregister_client c').subscriber ≡ [])
unfolding monitor_process unregister_client
lookup-unregister_client cfg c k = (
  lookup-unregister_all c'.subscriber c'.registry k ∙ other (Bool-cases (has_key c'.subscriber k)),
  refl,
)
  where
    c' : Client
    c' = monitor_process cfg c

    other :
        (has_key c'.subscriber k ≡ true) ⊎ (has_key c'.subscriber k ≡ false)
        → (if has_key c'.subscriber k then none else lookup k c'.registry)
          ≡ (if has_key c'.subscriber k then none else lookup k c.registry)
    other (inl h) = rw h refl
    other (inr h) = rw h (lookup-register_all_other c'.subscriber c.registry k h)
