-- ===== src/Addons/Tests.antt =====
-- The theorems on the E810 plugin at concrete files and cards.

use np_linuxptp_daemon.Base.{◌≡◌, refl, ◌≢◌, true, List, [], ◌∷◌, none, some, arith}
use np_linuxptp_daemon.Base.Int.{pos}
use np_linuxptp_daemon.Strings.{Bytes, codes, bytes_eq}
use np_linuxptp_daemon.Strings.Dict.{Dict}
use np_linuxptp_daemon.Addons.Vpd.{done, runs_on, parse_vpd, blank_vpd}
use np_linuxptp_daemon.Addons.Vpd.Ends.{parse_vpd-ends}
use np_linuxptp_daemon.Addons.Vpd.RoundTrip.{Entry, vpd_file, parse_vpd-vpd_file}
use np_linuxptp_daemon.Addons.Delays.{Card, Pin, find_delay_compensation, apply_delays}
use np_linuxptp_daemon.Addons.Delays.Clocks.{Gives, find_delay_compensation-Gives}

abbrev entries : List Entry
entries =
    record { k1 = b'P'; k2 = b'N'; text = codes "K58132" }
    ∷ record { k1 = b'S'; k2 = b'N'; text = codes "1" }
    ∷ record { k1 = b'S'; k2 = b'N'; text = codes "6805" }
    ∷ record { k1 = b'V'; k2 = b'1'; text = codes "Intel E810-XXVDA4T" }
    ∷ []

abbrev file : Bytes
file = vpd_file (codes "Adapter") entries [] []

parse_vpd-vpd_file_example :
    parse_vpd 3 file [] blank_vpd
    ≡ done (record {
      identifier_string_descriptor = codes "Adapter";
      part_number = codes "K58132";
      serial_number = codes "6805";
      vendor_specific1 = codes "Intel E810-XXVDA4T";
      vendor_specific2 = [];
    })
unfolding bytes_eq
parse_vpd-vpd_file_example =
    parse_vpd-vpd_file 0 (codes "Adapter") entries [] [] [] (omega arith) (omega arith)

parse_vpd-ends_example : parse_vpd 100 file [] blank_vpd ≢ runs_on
parse_vpd-ends_example = parse_vpd-ends 100 file [] blank_vpd (omega arith) (omega arith)

abbrev card : Card
card = record {
  id = codes "ens1f0";
  part = codes "E810-XXVDA4T";
  input = none;
  gnss_input = true;
  outputs = codes "SMA1" ∷ [];
}

abbrev pin : Pin
pin = record { id = 3; clock_id = 77; board_label = codes "GNSS-1PPS" }

abbrev settings : Dict Bytes
settings = (codes "clockId[ens1f0]", codes "77") ∷ []

find_delay_compensation-Gives_example :
    Gives settings (find_delay_compensation (card ∷ []) settings)
find_delay_compensation-Gives_example = find_delay_compensation-Gives (card ∷ []) settings

apply_delays_run :
    (apply_delays (λ p z. true) true (some (pin ∷ [])) (card ∷ []) settings).0 ≡ (3, pos 6999) ∷ []
unfolding apply_delays
apply_delays_run = refl
