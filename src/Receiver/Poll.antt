-- ===== src/Receiver/Poll.antt =====
-- The buffer between the thread that reads ubxtool and its users (pkg/ublox/ublox.go): UbloxPollPull,
-- UbloxPollInit, UbloxPollPushThread, UbloxPollReset and UbloxPollStop. The mutex makes each access
-- to the buffer one step; the process and its pipe are parameters.
pub mod Queue
use np_linuxptp_daemon.Base.{
  ℕ, suc, ◌-◌, ◌+◌, Bool, true, false, ◌||◌, List, [], ◌∷◌, ◌++◌, Option, none, some, ltb,
  if◌then◌else◌,
}
use np_linuxptp_daemon.Strings.{Bytes}

-- The values of `status`.
pub data PollStatus : Type 0 where
  fresh : PollStatus
  active : PollStatus
  dead : PollStatus
  stopped : PollStatus

-- The fields of `UBlox` for the polling.
pub record Ublox : Type 0 where
  pub buffer : List Bytes
  pub bufferlen : ℕ
  pub status : PollStatus
  -- `u.cmd` is there and has a process.
  pub process : Bool

-- One pull: the text and what is left; none is the panic on an empty buffer.
abbrev pub take_first : Ublox → List Bytes → Option (Bytes × Ublox)
take_first u [] = none
take_first u (line ∷ buffer) =
    some (line, record u { buffer = buffer; bufferlen = u.bufferlen - 1 })

-- `UbloxPollPull`
unfoldable pub poll_pull : Ublox → Option (Bytes × Ublox)
poll_pull u = if ltb 0 u.bufferlen then take_first u u.buffer else some ([], u)

-- `if u.getStatus() != UBXTOOL_STOPPED { u.setStatus(UBXTOOL_DEAD) }`
abbrev pub dead_unless_stopped : PollStatus → PollStatus
dead_unless_stopped fresh = dead
dead_unless_stopped active = dead
dead_unless_stopped dead = dead
dead_unless_stopped stopped = stopped

-- What `ReadString` gives the thread, and one round of `UbloxPollPushThread`.
unfoldable pub poll_push : Option Bytes → Ublox → Ublox
poll_push none u = record u { status = dead_unless_stopped u.status }
poll_push (some []) u = u
poll_push (some (c ∷ line)) u = record u {
  buffer = u.buffer ++ (c ∷ line) ∷ [];
  bufferlen = u.bufferlen + 1;
}

abbrev pub may_start : PollStatus → Bool
may_start fresh = true
may_start dead = true
may_start active = false
may_start stopped = false

-- `UbloxPollInit`, by whether the process starts.
unfoldable pub poll_init : Bool → Ublox → Ublox
poll_init starts u =
    if may_start u.status
    then record {
      buffer = [];
      bufferlen = 0;
      status = if starts then active else stopped;
      process = starts;
    }
    else u

-- `UbloxPollReset` and `UbloxPollStop`; none is the panic at a process that is nil.
unfoldable pub poll_reset : Ublox → Option Ublox
poll_reset u = if u.process then some (record u { status = dead_unless_stopped u.status }) else none

unfoldable pub poll_stop : Ublox → Option Ublox
poll_stop u = if u.process then some (record u { status = stopped }) else none

-- A step of the thread or of a user.
pub data PollStep : Type 0 where
  pull : PollStep
  push : Option Bytes → PollStep
  init : Bool → PollStep
  reset : PollStep
  stop : PollStep

abbrev pub no_text : Ublox → Option (Option Bytes × Ublox)
no_text u = some (none, u)

abbrev pub no_text_of : Option Ublox → Option (Option Bytes × Ublox)
no_text_of none = none
no_text_of (some u) = no_text u

abbrev pub pulled : Option (Bytes × Ublox) → Option (Option Bytes × Ublox)
pulled none = none
pulled (some (line, u)) = some (some line, u)

-- A step, with the text that a pull returns.
unfoldable pub step : PollStep → Ublox → Option (Option Bytes × Ublox)
unfolding poll_pull poll_push poll_init poll_reset poll_stop
step pull u = pulled (poll_pull u)
step (push line) u = no_text (poll_push line u)
step (init starts) u = no_text (poll_init starts u)
step reset u = no_text_of (poll_reset u)
step stop u = no_text_of (poll_stop u)

abbrev pub add_text : Option Bytes → List Bytes → List Bytes
add_text none lines = lines
add_text (some line) lines = line ∷ lines

abbrev pub after_text : Option Bytes → Option (List Bytes × Ublox) → Option (List Bytes × Ublox)
after_text line none = none
after_text line (some (lines, u)) = some (add_text line lines, u)

abbrev pub then_steps :
    Option (Option Bytes × Ublox)
    → (Ublox → Option (List Bytes × Ublox))
    → Option (List Bytes × Ublox)
then_steps none k = none
then_steps (some (line, u)) k = after_text line (k u)

-- Steps in the order in which they happen, and the texts that the pulls return.
unfoldable pub steps : List PollStep → Ublox → Option (List Bytes × Ublox)
unfolding step
steps [] u = some ([], u)
steps (s ∷ more) u = then_steps (step s u) (steps more)
