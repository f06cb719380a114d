-- ===== src/Synce/Quality/Order.antt =====
-- ClockQuality (pkg/synce/synce.go) and the order in which Go iterates its tables.
use mathlib.Core.List.{Permᴰ}
use np_linuxptp_daemon.Base.{
  ℕ, ◌≤◌, ◌≡◌, refl, sym, ap, ◌∙◌, ◌≢◌, inl, inr, Bool, true, false, ◌&&◌, [], ◌∷◌, String, arith,
  any, Bool-cases, ◌==◌,
}
use np_linuxptp_daemon.Synce.Quality.{
  QualityLevel, dnu, dus, quality_text, QualityLevelInfo, info, Table, ql_default_ssm, option_1,
  option_2, compare_info, table_loop, QualityConfig, wanted_info, by_option, clock_quality,
}

abbrev Entry : Type 0
Entry = QualityLevel × QualityLevelInfo

any-perm : (p : Entry → Bool) {s t : Table} → Permᴰ s t → any p s ≡ any p t
any-perm p Permᴰ.nil = refl
any-perm p (Permᴰ.cons {a = a} {b = b} e r) = ground (arith, ap p e, any-perm p r)
any-perm p (Permᴰ.swap e f) = ground (arith, ap p e, ap p f)
any-perm p (Permᴰ.trans q r) = any-perm p q ∙ any-perm p r

-- At most one entry of a table is found.
abbrev AtMostOne : QualityLevelInfo → Table → Type 0
AtMostOne w [] = Unit
AtMostOne w (e ∷ t) =
    (compare_info e.1 w ≡ true → any (λ x. compare_info x.1 w) t ≡ false) × AtMostOne w t

table_loop-none :
    (w : QualityLevelInfo) (t : Table) (rest : String × QualityLevelInfo)
    → any (λ x. compare_info x.1 w) t ≡ false
    → table_loop w t rest ≡ rest
unfolding table_loop
table_loop-none w [] rest h = refl
table_loop-none w (e ∷ t) rest h = ground (arith, table_loop-none w t rest)

-- Where at most one entry fits, the loop finds the same in any order.
table_loop-perm :
    (w : QualityLevelInfo) {s t : Table} (rest : String × QualityLevelInfo)
    → Permᴰ s t
    → AtMostOne w s
    → (table_loop w s rest ≡ table_loop w t rest) × AtMostOne w t
unfolding table_loop
table_loop-perm w rest Permᴰ.nil one = (refl, tt)
table_loop-perm w rest (Permᴰ.cons {a = a} {b = b} e r) one =
    let same = ap (λ (x : Entry). compare_info x.1 w) e in
    let named = ap (λ (x : Entry). quality_text x.0) e in
    let held = ap (λ (x : Entry). x.1) e in
    let rest_same = table_loop-perm w rest r one.1 in
    ground (arith, same, named, held, rest_same, any-perm (λ x. compare_info x.1 w) r)
table_loop-perm w rest (Permᴰ.swap {a = a} {b = b} e f) one = rw (sym e, sym f) (ground arith)
table_loop-perm w rest (Permᴰ.trans q r) one =
    let (first, two) = table_loop-perm w rest q one in
    let (second, three) = table_loop-perm w rest r two in (first ∙ second, three)

option_1-AtMostOne : (w : QualityLevelInfo) → w.extended_ssm ≢ ql_default_ssm → AtMostOne w option_1
unfolding compare_info
option_1-AtMostOne w h = ground arith

option_2-AtMostOne : (w : QualityLevelInfo) → w.extended_ssm ≢ ql_default_ssm → AtMostOne w option_2
unfolding compare_info
option_2-AtMostOne w h = ground arith

-- Past the test on an unknown extended SSM, the wanted value is no wildcard.
wanted_info-known :
    (c : QualityConfig) (q : QualityLevelInfo)
    → c.extended_tlv ≤ 1
    → ((c.extended_tlv == 1) && (q.extended_ssm == ql_default_ssm)) ≡ false
    → (wanted_info c q).extended_ssm ≢ ql_default_ssm
unfolding wanted_info
wanted_info-known c q h past = ground arith

by_option-perm :
    (n : ℕ) (w : QualityLevelInfo) {t1 t2 : Table}
    → w.extended_ssm ≢ ql_default_ssm
    → Permᴰ option_1 t1
    → Permᴰ option_2 t2
    → by_option n t1 t2 w ≡ by_option n option_1 option_2 w
unfolding by_option
by_option-perm n w {t1} {t2} known p1 p2 =
    let one =
      table_loop-perm w (quality_text dnu, info 0 0xf 0xff) p1 (option_1-AtMostOne w known) in
    let two =
      table_loop-perm w (quality_text dus, info 0 0xf 0xff) p2 (option_2-AtMostOne w known) in
    rw (sym one.0, sym two.0)

-- Where ExtendedTlv is 0 or 1, ClockQuality gives the same quality and the same level information
-- for every configuration and every received value, in whatever orders the two tables are iterated.
pub clock_quality-perm :
    (t1 t2 : Table) (c : QualityConfig) (q : QualityLevelInfo)
    → c.extended_tlv ≤ 1
    → Permᴰ option_1 t1
    → Permᴰ option_2 t2
    → clock_quality t1 t2 c q ≡ clock_quality option_1 option_2 c q
unfolding clock_quality
clock_quality-perm t1 t2 c q h p1 p2 =
    elim (Bool-cases ((c.extended_tlv == 1) && (q.extended_ssm == ql_default_ssm))) [
      | inl unknown ↦ rw (unknown)
      | inr known ↦ rw (
        known,
        by_option-perm c.network_option (wanted_info c q) (wanted_info-known c q h known) p1 p2,
      )
    ]

-- Under network option 2 and without extended TLVs, the received SSM 0x4 is found in the table as
-- the level TNC, with priority 5, but the name returned with it is "UNKNOWN".
pub clock_quality_tnc :
    (c : QualityConfig) (q : QualityLevelInfo)
    → c.network_option ≡ 2
    → c.extended_tlv ≡ 0
    → q.ssm ≡ 0x4
    → clock_quality option_1 option_2 c q ≡ ("UNKNOWN", info 5 0x4 0xff)
unfolding clock_quality by_option table_loop wanted_info compare_info quality_text
clock_quality_tnc c q network plain ssm = rw (network, plain, ssm)
