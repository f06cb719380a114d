-- ===== src/Receiver/Poll/Queue.antt =====
-- The buffer of the receiver as a queue of lines (pkg/ublox/ublox.go).
use np_linuxptp_daemon.Base.{
  ◌≡◌, Bool, List, [], ◌∷◌, ◌++◌, Option, none, some, if◌then◌else◌, length,
}
use np_linuxptp_daemon.Strings.{Bytes}
use np_linuxptp_daemon.Receiver.Poll.{
  PollStatus, active, stopped, dead_unless_stopped, may_start, Ublox, PollStep, pull, push, init,
  reset, stop, add_text,
}

-- What users are promised: the lines that were read and not yet taken, oldest first, and whether
-- there is a process to end.
pub record Queue : Type 0 where
  pub lines : List Bytes
  pub status : PollStatus
  pub process : Bool

-- The first line of the queue, or the empty text.
abbrev serve : Queue → List Bytes → Option Bytes × Queue
serve q [] = (some [], q)
serve q (line ∷ lines) = (some line, record q { lines = lines })

-- The lines with one more, unless it is empty.
abbrev enqueue : List Bytes → Bytes → List Bytes
enqueue lines [] = lines
enqueue lines (c ∷ line) = lines ++ (c ∷ line) ∷ []

abbrev begin : Bool → Queue → Queue
begin starts q =
    if may_start q.status
    then record { lines = []; status = if starts then active else stopped; process = starts }
    else q

-- A reset and a stop need a process.
abbrev pub queue_step : PollStep → Queue → Option (Option Bytes × Queue)
queue_step pull q = some (serve q q.lines)
queue_step (push none) q = some (none, record q { status = dead_unless_stopped q.status })
queue_step (push (some line)) q = some (none, record q { lines = enqueue q.lines line })
queue_step (init starts) q = some (none, begin starts q)
queue_step reset q =
    if q.process then some (none, record q { status = dead_unless_stopped q.status }) else none
queue_step stop q = if q.process then some (none, record q { status = stopped }) else none

abbrev add_served : Option Bytes → Option (List Bytes × Queue) → Option (List Bytes × Queue)
add_served line none = none
add_served line (some (lines, q)) = some (add_text line lines, q)

abbrev then_queue :
    Option (Option Bytes × Queue)
    → (Queue → Option (List Bytes × Queue))
    → Option (List Bytes × Queue)
then_queue none k = none
then_queue (some (line, q)) k = add_served line (k q)

unfoldable pub queue_steps : List PollStep → Queue → Option (List Bytes × Queue)
queue_steps [] q = some ([], q)
queue_steps (s ∷ more) q = then_queue (queue_step s q) (queue_steps more)

-- The receiver shows this queue.
pub record Shows (u : Ublox) (q : Queue) : Type 0 where
  pub lines : u.buffer ≡ q.lines
  pub len : u.bufferlen ≡ length q.lines
  pub status : u.status ≡ q.status
  pub process : u.process ≡ q.process

-- The receiver does what the queue does: it panics where the queue has no next state, and else has
-- the same result and shows the queue's next state.
abbrev pub Does {ℓ} : {A : Type ℓ} → Option (A × Queue) → Option (A × Ublox) → Type ℓ
Does none o = o ≡ none
Does (some (a, q)) o = (v : Ublox) × (o ≡ some (a, v)) × Shows v q

begin_if : Bool → Bool → Ublox → Ublox
begin_if may starts u =
    if may
    then record {
      buffer = [];
      bufferlen = 0;
      status = if starts then active else stopped;
      process = starts;
    }
    else u
