-- ===== src/Synce/Quality.antt =====
-- The quality levels (pkg/synce/synce.go): the tables of the two network options, and ClockQuality,
-- which looks a received SSM up. The tables are Go maps, whose order of iteration is open: the
-- lookup takes the order as an argument.
pub mod Order
use np_linuxptp_daemon.Base.{
  ℕ, zero, suc, ◌+◌, ◌-◌, ◌*◌, ◌≤◌, ◌<◌, ◌≡◌, refl, sym, ap, ◌∙◌, ◌≢◌, ◌↔◌, ◌⊎◌, inl, inr, Bool,
  true, false, not, ◌&&◌, ◌||◌, List, [], ◌∷◌, ◌++◌, map, Option, none, some, String, arith, str_eq,
  str_eq_iff, if◌then◌else◌, any, All, Bool-cases, Option-cases, ◌==◌, ltb, leb, length, get_elem?,
  take, drop,
}

-- The constants of `QualityLevel`.
pub data QualityLevel : Type 0 where
  eprtc prtc prc ssua ssub eec1 prs stu st2 tnc st3e eec2 prov dnu dus : QualityLevel

-- `QualityLevel.String`, which has no case for TNC.
unfoldable pub quality_text : QualityLevel → String
quality_text eprtc = "EPRTC"
quality_text prtc = "PRTC"
quality_text prc = "PRC"
quality_text ssua = "SSUA"
quality_text ssub = "SSUB"
quality_text eec1 = "EEC1"
quality_text prs = "PRS"
quality_text stu = "STU"
quality_text st2 = "ST2"
quality_text st3e = "ST3E"
quality_text eec2 = "EEC2"
quality_text prov = "PROV"
quality_text dnu = "DNU"
quality_text dus = "DUS"
quality_text tnc = "UNKNOWN"

-- The struct `QualityLevelInfo`.
pub record QualityLevelInfo : Type 0 where
  pub priority : ℕ
  pub ssm : ℕ
  pub extended_ssm : ℕ

abbrev pub info : ℕ → ℕ → ℕ → QualityLevelInfo
info p s x = record { priority = p; ssm = s; extended_ssm = x }

abbrev pub Table : Type 0
Table = List (QualityLevel × QualityLevelInfo)

abbrev pub ql_default_ssm : ℕ
ql_default_ssm = 0x3

abbrev pub ql_default_enhssm : ℕ
ql_default_enhssm = 0xff

-- `qualityLevelInfoOption1`
abbrev pub option_1 : Table
option_1 =
    (eprtc, info 0 0x2 0x21)
    ∷ (prtc, info 1 0x2 0x20)
    ∷ (prc, info 2 0x2 0xff)
    ∷ (ssua, info 3 0x4 0xff)
    ∷ (ssub, info 4 0x8 0xff)
    ∷ (eec1, info 5 0xb 0xff)
    ∷ (dnu, info 6 0xf 0xff)
    ∷ []

-- `qualityLevelInfoOption2`
abbrev pub option_2 : Table
option_2 =
    (eprtc, info 0 0x1 0x21)
    ∷ (prtc, info 1 0x1 0x20)
    ∷ (prs, info 2 0x1 0xff)
    ∷ (stu, info 3 0x0 0xff)
    ∷ (st2, info 4 0x7 0xff)
    ∷ (tnc, info 5 0x4 0xff)
    ∷ (st3e, info 6 0xd 0xff)
    ∷ (eec2, info 7 0xa 0xff)
    ∷ (prov, info 8 0xe 0xff)
    ∷ (dus, info 9 0xf 0xff)
    ∷ []

-- `Compare`
unfoldable pub compare_info : QualityLevelInfo → QualityLevelInfo → Bool
compare_info q other =
    (q.ssm == other.ssm)
    && ((other.extended_ssm == ql_default_ssm) || (q.extended_ssm == other.extended_ssm))

-- The loop of `ClockQuality` over a table; the last argument is what follows the loop.
unfoldable pub table_loop :
    QualityLevelInfo → Table → String × QualityLevelInfo → String × QualityLevelInfo
table_loop wanted [] rest = rest
table_loop wanted ((q, i) ∷ t) rest =
    let tail = table_loop wanted t rest in
    if compare_info i wanted then (quality_text q, i) else tail

-- The parts of `Config` that `ClockQuality` reads.
pub record QualityConfig : Type 0 where
  pub network_option : ℕ
  pub extended_tlv : ℕ

-- The value that is compared: without extended TLVs the extended SSM is taken as 0xFF.
unfoldable pub wanted_info : QualityConfig → QualityLevelInfo → QualityLevelInfo
wanted_info c q = if c.extended_tlv == 0 then record q { extended_ssm = ql_default_enhssm } else q

-- The branches on the network option.
unfoldable pub by_option : ℕ → Table → Table → QualityLevelInfo → String × QualityLevelInfo
by_option network_option t1 t2 wanted =
    if network_option == 1
    then table_loop wanted t1 (quality_text dnu, info 0 0xf 0xff)
    else if network_option == 2
    then table_loop wanted t2 (quality_text dus, info 0 0xf 0xff)
    else ("", info 0 0 0)

-- `ClockQuality`, with the tables in the order in which they are iterated.
unfoldable pub clock_quality :
    Table → Table → QualityConfig → QualityLevelInfo → String × QualityLevelInfo
unfolding by_option wanted_info
clock_quality t1 t2 c q =
    if (c.extended_tlv == 1) && (q.extended_ssm == ql_default_ssm)
    then ("", q)
    else by_option c.network_option t1 t2 (wanted_info c q)
