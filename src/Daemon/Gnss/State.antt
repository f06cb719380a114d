-- ===== src/Daemon/Gnss/State.antt =====
-- The GNSS state that a tick of the monitor reports.
use np_linuxptp_daemon.Base.{◌≡◌, not, ◌&&◌, arith, if◌then◌else◌}
use np_linuxptp_daemon.Base.Int.{ℤ, pos, leb_ℤ}
use np_linuxptp_daemon.Event.Types.{freerun, locked}
use np_linuxptp_daemon.Daemon.Gnss.{Gpsd, Scan, gnss_state, is_offset_in_range}

-- What a state of the monitor promises for the status and the offset that were read.
pub record IsDerived (status offset : ℤ) (g : Gpsd) : Type 0 where
  pub is_lost : g.source_lost ≡ not (leb_ℤ (pos 3) status)
  pub keeps : g.offset ≡ offset
  pub decides : g.state ≡ (
      if leb_ℤ (pos 3) status
        && (leb_ℤ offset g.config.threshold_max && leb_ℤ g.config.threshold_min offset)
      then locked
      else freerun)

-- After a tick the grandmaster's GNSS is locked exactly when the status that was read last is at
-- least 3 and the offset that was read last is within the thresholds, and in freerun else; the
-- source is lost exactly when the status is below 3; the offset is the one read last.
pub gnss_state-IsDerived : (s : Scan) (g : Gpsd) → IsDerived s.n_status s.n_offset (gnss_state s g)
unfolding gnss_state is_offset_in_range
gnss_state-IsDerived s g = record {
  is_lost = ground arith;
  keeps = ground arith;
  decides = ground arith;
}
