-- ===== src/Synce/Tests.antt =====
-- The theorems on pkg/synce/synce.go at concrete values.
use mathlib.Core.List.{Permᴰ}
use mathlib.Core.List.Permᴰ
use np_linuxptp_daemon.Base.{String, ◌≡◌, refl, [], ◌∷◌, arith}
use np_linuxptp_daemon.Synce.Relations.{Device}
use np_linuxptp_daemon.Synce.Quality.{
  info, Table, option_1, option_2, QualityConfig, clock_quality, eprtc, prtc, prc, ssua, ssub, eec1,
  dnu,
}
use np_linuxptp_daemon.Synce.Quality.Order.{clock_quality-perm}

-- The table of option 1 with its first two entries swapped.
abbrev swapped : Table
swapped =
    (prtc, info 1 0x2 0x20)
    ∷ (eprtc, info 0 0x2 0x21)
    ∷ (prc, info 2 0x2 0xff)
    ∷ (ssua, info 3 0x4 0xff)
    ∷ (ssub, info 4 0x8 0xff)
    ∷ (eec1, info 5 0xb 0xff)
    ∷ (dnu, info 6 0xf 0xff)
    ∷ []

abbrev extended : QualityConfig
extended = record { network_option = 1; extended_tlv = 1 }

clock_quality-perm_example :
    clock_quality swapped option_2 extended (info 0 0x2 0x20)
    ≡ clock_quality option_1 option_2 extended (info 0 0x2 0x20)
clock_quality-perm_example =
    clock_quality-perm swapped option_2 extended (info 0 0x2 0x20) (omega arith)
      (Permᴰ.swap refl refl) (Permᴰ.refl option_2)

abbrev device : String → String → Device
device name iface = record {
  name = name;
  ifaces = iface ∷ [];
  clock_id = "";
  network_option = 1;
  extended_tlv = 0;
  external_source = "gnss";
}
