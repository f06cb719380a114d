-- ===== src/Daemon/Command.antt =====
-- cmdRun and cmdStop (pkg/daemon/daemon.go): the goroutine that runs a program and starts it again,
-- beside the caller that stops it. Each access to the shared fields is a step. What the steps take
-- from os/exec: the output of a program ends when the program does or its start fails, and not where
-- it was never started, since the daemon still holds the writing end of the pipe; a signal to a
-- process that was waited for is an error.
pub mod Returns
pub mod Hangs
use np_linuxptp_daemon.Base.{◌≡◌, ◌≢◌, Bool, true, false, if◌then◌else◌}

-- `p.cmd` and its process: not started, not startable, running, ended, waited for.
pub data Child : Type 0 where
  unstarted failed alive dead reaped : Child

-- `p.cmd.Process != nil`
abbrev pub has_process : Child → Bool
has_process unstarted = false
has_process failed = false
has_process alive = true
has_process dead = true
has_process reaped = true

-- Where cmdRun is: before the pipe and the test of `stopped`, between it and the start, waiting for
-- the output to end, in the delay before the next round, between the second test and the new
-- command, at the send to `exitCh`, returned.
pub data RunPc : Type 0 where
  top starting reading delaying recreating leaving gone : RunPc

-- Where cmdStop is: not called, behind `setStopped`, behind the test for a process, behind the log
-- of its number, behind a signal that failed, waiting on `exitCh`, returned after that, returned
-- since the signal failed, panicked at a process that is nil, which ends the daemon and after which
-- the steps of cmdRun say nothing.
pub data StopPc : Type 0 where
  idle marked found logged failing waiting finished refused panicked : StopPc

pub record System : Type 0 where
  pub run : RunPc
  pub child : Child
  pub stopped : Bool
  pub stop : StopPc
  pub signalled : Bool
  pub config_file : Bool

-- cmdRun has just begun.
abbrev pub start : System
start = record {
  run = top;
  child = unstarted;
  stopped = false;
  stop = idle;
  signalled = false;
  config_file = true;
}

pub data Step (s : System) : System → Type 0 where
  -- `if !p.Stopped()`, and the start
  checks : s.run ≡ top → Step s (record s { run = if s.stopped then reading else starting })
  starts : s.run ≡ starting → Step s (record s { run = reading; child = alive })
  start_fails : s.run ≡ starting → Step s (record s { run = reading; child = failed })
  -- `break`, where there is no pipe for the output
  pipe_fails : s.run ≡ top → Step s (record s { run = leaving })
  -- the program ends, by itself or on a signal
  exits : s.child ≡ alive → Step s (record s { child = dead })
  terminates : s.child ≡ alive → s.signalled ≡ true → Step s (record s { child = dead })
  -- `<-done` and `p.cmd.Wait()`
  reaps : s.run ≡ reading → s.child ≡ dead → Step s (record s { run = delaying; child = reaped })
  reaps_failed : s.run ≡ reading → s.child ≡ failed → Step s (record s { run = delaying })
  -- the second test of `stopped`
  leaves : s.run ≡ delaying → s.stopped ≡ true → Step s (record s { run = leaving })
  goes_on : s.run ≡ delaying → s.stopped ≡ false → Step s (record s { run = recreating })
  -- `p.cmd = newCmd`
  recreates :
      s.run ≡ recreating → Step s (record s { run = top; child = unstarted; signalled = false })
  -- `p.setStopped(true)`
  marks : s.stop ≡ idle → Step s (record s { stop = marked; stopped = true })
  -- `if p.cmd.Process != nil`; without a process the removal of the configuration comes next
  looks : s.stop ≡ marked → has_process s.child ≡ true → Step s (record s { stop = found })
  signals_none :
      s.stop ≡ marked
      → has_process s.child ≡ false
      → Step s (record s { stop = waiting; config_file = false })
  -- the log reads the process again
  logs : s.stop ≡ found → has_process s.child ≡ true → Step s (record s { stop = logged })
  logs_nil : s.stop ≡ found → has_process s.child ≡ false → Step s (record s { stop = panicked })
  -- the signal, with a further read of the process, and the removal of the configuration
  signals :
      s.stop ≡ logged
      → has_process s.child ≡ true
      → s.child ≢ reaped
      → Step s (record s { stop = waiting; signalled = true; config_file = false })
  signal_fails : s.stop ≡ logged → s.child ≡ reaped → Step s (record s { stop = failing })
  signal_nil : s.stop ≡ logged → has_process s.child ≡ false → Step s (record s { stop = panicked })
  -- the log of the error, which reads the process once more, and `return`
  refuses : s.stop ≡ failing → has_process s.child ≡ true → Step s (record s { stop = refused })
  refuses_nil :
      s.stop ≡ failing → has_process s.child ≡ false → Step s (record s { stop = panicked })
  -- `p.exitCh <- true` meets `<-p.exitCh`
  meets :
      s.run ≡ leaving
      → s.stop ≡ waiting
      → Step s (record s { run = gone; stop = if has_process s.child then finished else panicked })

pub data Reach (s : System) : System → Type 0 where
  here : Reach s s
  next : {t u : System} → Reach s t → Step t u → Reach s u
