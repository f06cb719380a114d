-- ===== src/Dpll/Monitor.antt =====
-- MonitorDpllNetlink, monitorNtf, stopDpll, setAPIType and MonitorDpll (pkg/dpll/dpll.go): the loop
-- that monitors a DPLL through netlink, beside the goroutine that receives the notifications. One
-- round of the loop and one notification are each a single step; the order of the steps is a list.
-- What the netlink connection answers is an argument.
pub mod Notifications
pub mod Invariant
pub mod Redial
use np_linuxptp_daemon.Base.{
  ℕ, suc, ◌+◌, ◌-◌, ◌≡◌, refl, Bool, true, false, not, ◌&&◌, List, [], ◌∷◌, ◌++◌, map, Option, none,
  some, if◌then◌else◌, ltb,
}
use np_linuxptp_daemon.Base.Int.{ℤ}
use np_linuxptp_daemon.Event.Types.{Event}
use np_linuxptp_daemon.Event.PubSub.{Subscriber}
use np_linuxptp_daemon.Dpll.Config.{Dpll, Effect, termination_event}
use np_linuxptp_daemon.Dpll.Decision.{state_decision}
use np_linuxptp_daemon.Dpll.Netlink.{DeviceReply, PinReply, nl_update_state}
use np_linuxptp_daemon.Dpll.Subscriptions.{Client, unregister_client}
use Notifications.{Message, read_messages}

-- `dpllApiType`
pub data Api : Type 0 where
  sysfs netlink mock no_api : Api

-- `setAPIType`, from whether the files of sysfs are there and whether a dial succeeds.
unfoldable pub set_api_type : Bool → Bool → Api
set_api_type sysfs_present netlink_present =
    if sysfs_present then sysfs else if netlink_present then netlink else no_api

-- `MonitorDpll`: whether a goroutine is started for the API, which is what `isMonitoring` becomes.
unfoldable pub monitor_dpll : Api → Dpll → Dpll
monitor_dpll mock d = d
monitor_dpll sysfs d = record d { is_monitoring = true }
monitor_dpll netlink d = record d { is_monitoring = true }
monitor_dpll no_api d = d

-- The variable `sem`: nil, held by a goroutine that receives or by the loop itself, or free.
pub data Sem : Type 0 where
  nil held free : Sem

pub data Phase : Type 0 where
  running finished crashed : Phase

abbrev pub is_crashed : Phase → Bool
is_crashed crashed = true
is_crashed running = false
is_crashed finished = false

-- The variables of MonitorDpllNetlink, the connection of the DPLL and the number of goroutines that
-- run monitorNtf. `crashed` is the panic of a decision.
pub record Monitor : Type 0 where
  pub client : Client
  pub conn : Bool
  pub redial : Bool
  pub sem : Sem
  pub listeners : ℕ
  pub phase : Phase

-- What the monitor does beside changing its own state.
pub data Act : Type 0 where
  does : Effect → Act
  closes_conn closes_holdover : Act
  terminates : Event → Act

-- What the netlink connection answers to one attempt: whether the dial succeeds, whether the group
-- is found, the replies of the dump (`none` is an error), and whether the group is joined.
pub record Attempt : Type 0 where
  pub dialled : Bool
  pub group_found : Bool
  pub dump : Option (List DeviceReply)
  pub joined : Bool

abbrev pub is_some {ℓ} : {A : Type ℓ} → Option A → Bool
is_some none = false
is_some (some a) = true

-- A new monitoring: no connection, `redial` true, `sem` nil.
unfoldable pub start_monitor : Client → Monitor
start_monitor c = record {
  client = c;
  conn = false;
  redial = true;
  sem = nil;
  listeners = 0;
  phase = running;
}

unfoldable pub set_dpll : Dpll → Monitor → Monitor
set_dpll d m = record m { client = record (m.client) { dpll = d } }

-- `stopDpll`
unfoldable pub stop_dpll : Monitor × List Act → Monitor × List Act
stop_dpll (m, acts) =
    if m.conn then (record m { conn = false }, acts ++ closes_conn ∷ []) else (m, acts)

abbrev decided : Monitor → Option (Dpll × List Effect) → Monitor × List Act
decided m none = (record m { phase = crashed }, [])
decided m (some (d, effects)) = (set_dpll d m, map does effects)

abbrev decide_if : ℤ → Monitor → Dpll × Bool → Monitor × List Act
decide_if now m (d, valid) = if valid then decided m (state_decision now d) else (set_dpll d m, [])

-- `if d.nlUpdateState(devices, pins) { d.stateDecision() }`
unfoldable pub update_and_decide :
    ℤ → List DeviceReply → List PinReply → Monitor → Monitor × List Act
update_and_decide now devices pins m = decide_if now m (nl_update_state devices pins m.client.dpll)

-- A new semaphore is taken at once, and the goroutine starts.
unfoldable pub listen : Monitor → Monitor
listen m = record m { sem = held; listeners = suc m.listeners }

-- From the dump on: a decision, the join, the new semaphore and the goroutine.
abbrev pub after_decision : Attempt → Monitor × List Act → Monitor × List Act
after_decision a (m, acts) = elim m.phase [
  | crashed ↦ (m, acts)
  | finished ↦ (m, acts)
  | running ↦ if a.joined then (listen m, acts) else stop_dpll (m, acts)
]

abbrev pub after_dump : ℤ → Attempt → Monitor → Option (List DeviceReply) → Monitor × List Act
after_dump now a m none = stop_dpll (m, [])
after_dump now a m (some replies) = after_decision a (update_and_decide now replies [] m)

-- The body of `if redial`.
unfoldable pub attempt : ℤ → Attempt → Monitor → Monitor × List Act
unfolding listen
attempt now a m =
    if not m.conn && not a.dialled
    then (m, [])
    else if a.group_found
    then after_dump now a (record m { conn = true }) a.dump
    else stop_dpll (record m { conn = true }, [])

-- The function that sets `redial`: it takes a semaphore that is there and free within two seconds.
unfoldable pub poll : Monitor × List Act → Monitor × List Act
poll (m, acts) = elim m.sem [
  | nil ↦ (record m { redial = false }, acts)
  | held ↦ (record m { redial = false }, acts)
  | free ↦ stop_dpll (record m { redial = true; sem = held }, acts)
]

abbrev pub close_holdover : Monitor × List Act → Monitor × List Act
close_holdover (m, acts) =
    if m.client.dpll.on_holdover
    then (set_dpll (record (m.client.dpll) { on_holdover = false }) m, acts ++ closes_holdover ∷ [])
    else (m, acts)

-- `case <-d.exitCh`. The event is lost if the channel is full or there is none.
unfoldable pub exit : ℤ → Monitor × List Act → Monitor × List Act
exit now (m, acts) = stop_dpll (
    close_holdover (
      record m { client = unregister_client m.client; phase = finished },
      acts ++ terminates (termination_event now m.client.dpll) ∷ [],
    ))

abbrev pub check_exit : ℤ → Bool → Monitor × List Act → Monitor × List Act
check_exit now exiting (m, acts) = elim m.phase [
  | crashed ↦ (m, acts)
  | finished ↦ (m, acts)
  | running ↦ if exiting then exit now (m, acts) else poll (m, acts)
]

-- One round of the loop of MonitorDpllNetlink.
unfoldable pub round : ℤ → Attempt → Bool → Monitor → Monitor × List Act
round now a exiting m = check_exit now exiting (if m.redial then attempt now a m else (m, []))

-- The end of monitorNtf, with the deferred release of the semaphore.
unfoldable pub stop_listening : Monitor → Monitor
stop_listening m = record m { sem = free; listeners = m.listeners - 1 }

abbrev received : ℤ → Monitor → Option (List DeviceReply × List PinReply) → Monitor × List Act
received now m none = (stop_listening m, [])
received now m (some (devices, pins)) = update_and_decide now devices pins m

-- One round of monitorNtf: an error of Receive, or the messages received.
unfoldable pub receive : ℤ → Option (List Message) → Monitor → Monitor × List Act
unfolding stop_listening
receive now none m = (stop_listening m, [])
receive now (some msgs) m = received now m (read_messages msgs)

-- A step of the loop, or of a goroutine that receives.
pub data Input : Type 0 where
  rounds : Attempt → Bool → Input
  receives : Option (List Message) → Input

-- A step of what no longer runs, or does not run, changes nothing.
unfoldable pub step : ℤ → Input → Monitor → Monitor × List Act
step now (rounds a exiting) m = elim m.phase [
  | running ↦ round now a exiting m
  | finished ↦ (m, [])
  | crashed ↦ (m, [])
]
step now (receives msgs) m =
    if ltb 0 m.listeners && not (is_crashed m.phase) then receive now msgs m else (m, [])

unfoldable pub run : List (ℤ × Input) → Monitor → Monitor
run [] m = m
run ((now, i) ∷ is) m = run is (step now i m).0
