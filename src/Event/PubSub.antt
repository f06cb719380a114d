-- ===== src/Event/PubSub.antt =====
-- pkg/event/pubsub.go: the subscribers of the state notifier.
use Prim.Native.String.{◌++◌ as text_append}
use np_linuxptp_daemon.Base.{
  ◌+◌, ◌≡◌, refl, ◌≢◌, inl, inr, Bool, false, not, ◌&&◌, List, [], ◌∷◌, Option, none, some, String,
  arith, str_eq, str_eq_iff, if◌then◌else◌, any, All, Bool-cases, Option-cases, length,
}
use np_linuxptp_daemon.Base.Map.{Map, lookup, insert, erase, lookup-insert, lookup-erase}
use np_linuxptp_daemon.Event.Types.{EventSource, monitoring, source_eq, source_text, source_eq_iff}

-- A `Subscriber` by what its methods `Topic` and `ID` return.
pub record Subscriber : Type 0 where
  pub topic : EventSource
  pub id : String

-- The field `Subscribers` of `StateNotifier`.
abbrev pub Subscribers : Type 0
Subscribers = Map Subscriber

-- `fmt.Sprintf("%s_%s", s.Topic(), s.ID())`
unfoldable pub key : Subscriber → String
key s = text_append (source_text s.topic) (text_append "_" s.id)

-- `Register`
unfoldable pub register : Subscriber → Subscribers → Subscribers
register s m = insert (key s) s m

abbrev unregister_found : String → Subscribers → Option Subscriber → Subscribers
unregister_found k m none = m
unregister_found k m (some s) = erase k m

-- `Unregister`
unfoldable pub unregister : Subscriber → Subscribers → Subscribers
unregister s m = unregister_found (key s) m (lookup (key s) m)

-- `monitor`: the subscribers that stay, and those whose `Monitor` is called.
unfoldable pub monitor : Subscribers → Subscribers × List Subscriber
monitor [] = ([], [])
monitor ((k, s) ∷ m) =
    let rest = monitor m in
    if source_eq s.topic monitoring then (rest.0, s ∷ rest.1) else ((k, s) ∷ rest.0, rest.1)

-- `notify`: the subscribers whose `Notify` is called.
unfoldable pub notify : EventSource → Subscribers → List Subscriber
notify src [] = []
notify src ((k, s) ∷ m) =
    let rest = notify src m in
    if source_eq s.topic src && not (source_eq s.topic monitoring) then s ∷ rest else rest

lookup-unregister :
    (s : Subscriber) (m : Subscribers) (k : String)
    → lookup k (unregister s m) ≡ (if str_eq (key s) k then none else lookup k m)
unfolding unregister
lookup-unregister s m k = elim (Option-cases (lookup (key s) m)) [
  | inr (old, found) ↦ rw found (lookup-erase (key s) k m)
  | inl absent ↦ rw absent (elim (Bool-cases (str_eq (key s) k)) [
    | inr other ↦ rw other
    | inl same ↦ let at : key s ≡ k = (str_eq_iff _ _).0 same in rw same (rw at at absent)
  ])
]

-- After Register a key has the subscriber last registered under it and all other keys keep theirs;
-- after Unregister it has none, whether it had one or not, and all other keys keep theirs.
pub lookup-register-unregister :
    (s : Subscriber) (m : Subscribers) (k : String)
    → (lookup k (register s m) ≡ (if str_eq (key s) k then some s else lookup k m))
      × (lookup k (unregister s m) ≡ (if str_eq (key s) k then none else lookup k m))
unfolding register
lookup-register-unregister s m k = (lookup-insert (key s) k s m, lookup-unregister s m k)

-- Whether a subscriber is there to start a monitoring.
abbrev pub is_monitor : String × Subscriber → Bool
is_monitor e = source_eq e.1.topic monitoring

-- A monitoring is started once: monitor calls every subscriber to the monitoring, leaves none of
-- them, keeps all the others, and a second call finds none.
pub monitor_once :
    (m : Subscribers)
    → (any is_monitor (monitor m).0 ≡ false)
      × (length (monitor m).0 + length (monitor m).1 ≡ length m)
      × (monitor (monitor m).0 ≡ ((monitor m).0, []))
unfolding monitor
monitor_once [] = (refl, omega arith, refl)
monitor_once ((k, s) ∷ m) =
    (ground (arith, monitor_once m), ground (arith, monitor_once m), ground (arith, monitor_once m))

-- A notification reaches a subscriber only of its source, and no subscriber to the monitoring; to
-- notify before or after monitor reaches the same.
pub notify-monitor :
    (src : EventSource) (m : Subscribers)
    → All (λ s. (s.topic ≡ src) × (s.topic ≢ monitoring)) (notify src m)
      × (notify src (monitor m).0 ≡ notify src m)
unfolding notify monitor
notify-monitor src [] = (tt, refl)
notify-monitor src ((k, s) ∷ m) = (
  ground (arith, notify-monitor src m, source_eq_iff s.topic src, source_eq_iff s.topic monitoring),
  ground (arith, notify-monitor src m),
)
