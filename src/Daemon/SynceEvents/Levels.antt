-- ===== src/Daemon/SynceEvents/Levels.antt =====
-- The quality levels of a source over two lines of synce4l.
use mathlib.Core.Path.{subst}
use np_linuxptp_daemon.Base.{
  ℕ, ◌+◌, ◌∷◌, ◌++◌, inl, inr, str_eq, if◌then◌else◌, Bool-cases, ◌≡◌, refl, sym, ap, ◌∙◌, false,
  not, ◌&&◌, [], Option, none, some, String, arith, str_eq_iff, ◌==◌, if_true, if_false,
}
use np_linuxptp_daemon.Base.Map.{Map, lookup, insert, lookup-insert}
use np_linuxptp_daemon.Base.Int.{pos}
use np_linuxptp_daemon.Event.Types.{
  Values, device, network_option, ql, ext_ql, clock_quality, text, byte, int,
}
use np_linuxptp_daemon.Synce.Quality
use np_linuxptp_daemon.Synce.Quality.{QualityLevelInfo, info, Table, ql_default_ssm}
use np_linuxptp_daemon.Daemon.SynceEvents.{
  LogEntry, SynceDevice, Given, quality_of, ql_info, clock_ql, with_quality, metrics_of, unchanged,
  take_levels, take_both, with_last, last_or_new,
}

-- What ParseLog returns for a line with QL, and for one with EXT_QL: there QL has its zero value.
abbrev pub ql_line : String → ℕ → LogEntry
ql_line src q = record { state = none; source = some src; ql = q; ext_ql = ql_default_ssm }

abbrev pub ext_ql_line : String → ℕ → LogEntry
ext_ql_line src x = record { state = none; source = some src; ql = 0; ext_ql = x }

lookup_self :
    (src : String) (v : QualityLevelInfo) (m : Map QualityLevelInfo)
    → lookup src (insert src v m) ≡ some v
lookup_self src v m = lookup-insert src src v m ∙ if_true _ _ ((str_eq_iff src src).1 refl)

append-[] : (vs : Values) → vs ++ [] ≡ vs
append-[] [] = refl
append-[] (v ∷ vs) = ap (λ r. v ∷ r) (append-[] vs)

module _ (t1 t2 : Table) where
  take_levels-extended :
      (src : String) (e : LogEntry) (d : SynceDevice)
      → d.config.extended_tlv ≡ 1
      → take_levels t1 t2 src e d ≡ last_or_new t1 t2 src e d (lookup src d.last_ql_state)
  unfolding take_levels
  take_levels-extended src e d tlv =
      if_false {b = (d.config.extended_tlv == 0) && not (e.ql == ql_default_ssm)} _ _
        (ground (arith, tlv))
      ∙ if_true {b = d.config.extended_tlv == 1} _ _ (ground (arith, tlv))

  -- What a line with QL leaves: a level for the source, and nothing to send.
  ql_first :
      (src : String) (q : ℕ) (d : SynceDevice) (o : Option QualityLevelInfo)
      → q == ql_default_ssm ≡ false
      → (l : QualityLevelInfo) × (m : Map QualityLevelInfo) × (l.ssm ≡ q)
        × (last_or_new t1 t2 src (ql_line src q) d o
            ≡ unchanged (record d { last_ql_state = insert src l m }))
  unfolding with_last
  ql_first src q d (some last) h = (
    record last { ssm = q },
    d.last_ql_state,
    refl,
    if_false {b = not (last.ssm == ql_default_ssm) && not (ql_default_ssm == ql_default_ssm)} _ _
          (ground arith)
        ∙ if_true {b = not (q == ql_default_ssm)} _ _ (ground (arith, h)),
  )
  ql_first src q d none h = (
    record (info 0 q ql_default_ssm) { ssm = q },
    insert src (info 0 q ql_default_ssm) d.last_ql_state,
    refl,
    if_false {b = not (q == ql_default_ssm) && not (ql_default_ssm == ql_default_ssm)} _ _
          (ground arith)
        ∙ if_true {b = not (q == ql_default_ssm)} _ _ (ground (arith, h)),
  )

  ext_second :
      (src : String) (x : ℕ) (d : SynceDevice) (l : QualityLevelInfo)
      → d.config.extended_tlv ≡ 1
      → lookup src d.last_ql_state ≡ some l
      → l.ssm == ql_default_ssm ≡ false
      → x == ql_default_ssm ≡ false
      → take_levels t1 t2 src (ext_ql_line src x) d ≡ take_both t1 t2 src x l d
  unfolding with_last
  ext_second src x d l tlv e h k =
      take_levels-extended src (ext_ql_line src x) d tlv
      ∙ ap (last_or_new t1 t2 src (ext_ql_line src x) d) e
      ∙ if_true {b = not (l.ssm == ql_default_ssm) && not (x == ql_default_ssm)} _ _
          (ground (arith, h, k))

  -- What ClockQuality makes of two levels, where it makes anything.
  abbrev pub quality_entry : SynceDevice → ℕ → ℕ → Values
  quality_entry d q x =
      let quality =
        (Quality.clock_quality t1 t2
          (record {
            network_option = d.config.network_option;
            extended_tlv = d.config.extended_tlv;
          })
          (info 0 q x)).0 in
      if str_eq quality "" then [] else (clock_quality, text quality) ∷ []

  -- What is to be sent of two levels.
  abbrev pub both_values : SynceDevice → ℕ → ℕ → Values
  both_values d q x =
      (network_option, int (pos d.config.network_option))
      ∷ (device, text d.config.name)
      ∷ (ext_ql, byte x)
      ∷ (ql, byte q)
      ∷ quality_entry d q x

  with_quality-append :
      (quality : String) (vs : Values)
      → with_quality quality vs
        ≡ vs ++ (if str_eq quality "" then [] else (clock_quality, text quality) ∷ [])
  with_quality-append quality vs = elim (Bool-cases (str_eq quality "")) [
    | inl e ↦ rw e (sym (append-[] vs))
    | inr e ↦ rw e refl
  ]

  take_both-values :
      (src : String) (x : ℕ) (l : QualityLevelInfo) (d : SynceDevice)
      → (take_both t1 t2 src x l d).values ≡ both_values d l.ssm x
  unfolding take_both
  take_both-values src x l d = with_quality-append (quality_of t1 t2 d (info 0 l.ssm x)) (
      (network_option, int (pos d.config.network_option))
      ∷ (device, text d.config.name)
      ∷ (ext_ql, byte x)
      ∷ (ql, byte l.ssm)
      ∷ [])

  -- With extended TLVs a line with QL sends nothing; a line with EXT_QL after it sends both levels,
  -- with the network option, the device and what ClockQuality makes of the levels if it makes
  -- anything, in the state that the device had, and their metrics with the sum of the levels,
  -- whatever levels the source had before, where neither level is the one that stands for none.
  pub take_levels_twice :
      (src : String) (q x : ℕ) (d : SynceDevice)
      → d.config.extended_tlv ≡ 1
      → q == ql_default_ssm ≡ false
      → x == ql_default_ssm ≡ false
      → let first = take_levels t1 t2 src (ql_line src q) d in
        let second = take_levels t1 t2 src (ext_ql_line src x) first.to_device in
        (first.values ≡ [])
        × (first.metrics ≡ [])
        × (second.values ≡ both_values d q x)
        × (second.metrics
            ≡ ql_info src d.config.network_option d.config.name "SSM" q
              ∷ ql_info src d.config.network_option d.config.name "Extended SSM" x
              ∷ clock_ql src d.config.network_option d.config.name (q + x)
              ∷ [])
        × (second.to_state ≡ d.last_clock_state)
  unfolding take_both
  take_levels_twice src q x d tlv h k =
      let (l, m, same, e) = ql_first src q d (lookup src d.last_ql_state) h in
      subst Promise (sym (take_levels-extended src (ql_line src q) d tlv ∙ e)) (promised l m same)
    where
      Promise : Given → Type 0
      Promise g =
          let second = take_levels t1 t2 src (ext_ql_line src x) g.to_device in
          (g.values ≡ [])
          × (g.metrics ≡ [])
          × (second.values ≡ both_values d q x)
          × (second.metrics ≡ metrics_of src d q x)
          × (second.to_state ≡ d.last_clock_state)

      promised :
          (l : QualityLevelInfo) (m : Map QualityLevelInfo)
          → l.ssm ≡ q
          → Promise (unchanged (record d { last_ql_state = insert src l m }))
      promised l m same =
          let kept = record d { last_ql_state = insert src l m } in
          let both =
            ext_second src x kept l tlv (lookup_self src l m)
              (ap (λ n. n == ql_default_ssm) same ∙ h) k in
          (
            refl,
            refl,
            ap (λ (g : Given). g.values) both
                ∙ take_both-values src x l kept
                ∙ ap (λ n. both_values d n x) same,
            ap (λ (g : Given). g.metrics) both ∙ ap (λ n. metrics_of src d n x) same,
            ap (λ (g : Given). g.to_state) both,
          )
