-- ===== src/Daemon/Gnss/Silence.antt =====
-- What the monitor does while the receiver says nothing.
use np_linuxptp_daemon.Base.{ℕ, ◌+◌, ◌/◌, ◌%◌, true, List, [], ◌∷◌, none}
use np_linuxptp_daemon.Base.Int.{ℤ}
use np_linuxptp_daemon.Strings.{Bytes}
use np_linuxptp_daemon.Daemon.Gnss.{Gpsd, Scan, any_message, gnss_state}

-- The ten empty texts that end a tick.
abbrev pub silent : List Bytes
silent = [] ∷ [] ∷ [] ∷ [] ∷ [] ∷ [] ∷ [] ∷ [] ∷ [] ∷ [] ∷ []

-- The variables at the end of a silent tick, from what was read last, the ticks missed and the
-- resets.
abbrev pub calm : ℤ → ℤ → ℕ → ℕ → Scan
calm status offset missed resets = record {
  n_status = status;
  n_offset = offset;
  missed_tickers = missed;
  empty_count = 10;
  time_ls = none;
  resets = resets;
  mode = any_message;
  ended = true;
}

-- The state of the monitor from what was read last.
abbrev pub settled : ℤ → ℤ → Gpsd → Gpsd
settled status offset g = gnss_state (calm status offset 0 0) g

abbrev after_tick : ℤ → ℤ → ℕ → ℕ → Scan
after_tick status offset m r = calm status offset ((m + 1) % 4) (r + (m + 1) / 4)
