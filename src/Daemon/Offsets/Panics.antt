-- ===== src/Daemon/Offsets/Panics.antt =====
-- The summaries that make extractSummaryMetrics panic (pkg/daemon/metrics.go).
use np_linuxptp_daemon.Base.{
  ℕ, zero, suc, ◌≤◌, ◌<◌, ◌≡◌, ◌↔◌, ◌≢◌, refl, sym, ◌∙◌, Bool, true, false, List, [], ◌∷◌, Option,
  none, some, arith, leb, if◌then◌else◌, length, get_elem?,
}
use np_linuxptp_daemon.Strings.{Bytes}
use np_linuxptp_daemon.Daemon.Offsets.{
  Summarised, summary_panic, numbers, numbers_in_sync, read_summary,
}

get_elem?-some : (fs : List Bytes) (i : ℕ) → i < length fs → (f : Bytes) × (get_elem? fs i ≡ some f)
get_elem?-some [] i h = absurd (omega arith)
get_elem?-some (f ∷ fs) zero h = (f, refl)
get_elem?-some (f ∷ fs) (suc i) h = get_elem?-some fs i (omega arith)

get_elem?-none-length : (fs : List Bytes) (i : ℕ) → (get_elem? fs i ≡ none) ↔ (length fs ≤ i)
get_elem?-none-length [] i = ground arith
get_elem?-none-length (f ∷ fs) zero = ground arith
get_elem?-none-length (f ∷ fs) (suc i) = ground (arith, get_elem?-none-length fs i)

false-ne-true : false ≢ true
false-ne-true h = cc

some-ne-none : (d : Bytes) → some d ≢ none
some-ne-none d h = cc

module _ (Float : Type 0) (zero_float : Float) (parse_float : Bytes → Float × Bool) where
  abbrev both :
      Bytes → Bool → Bytes → Bytes → Bytes → Option Bytes → Summarised Float zero_float parse_float
  both iface b o max freq delay =
      if b
      then numbers Float zero_float parse_float iface (some o) (some max) (some freq) delay
      else numbers_in_sync Float zero_float parse_float iface (some o) (some max) (some freq)

  both-panic :
      (iface : Bytes) (b : Bool) (o max freq : Bytes) (delay : Option Bytes)
      → (both iface b o max freq delay ≡ summary_panic) ↔ ((b ≡ true) × (delay ≡ none))
  both-panic iface true o max freq none = (λ h. (refl, refl), λ h. refl)
  both-panic iface true o max freq (some d) = (λ h. cc, λ h. absurd (some-ne-none d h.1))
  both-panic iface false o max freq delay = (λ h. cc, λ h. absurd (false-ne-true h.0))

  eleven :
      (fs : List Bytes)
      → ((leb 11 (length fs) ≡ true) × (get_elem? fs 11 ≡ none)) ↔ (length fs ≡ 11)
  eleven fs = ground (arith, get_elem?-none-length fs 11)

  -- Eight fields or more are read without a panic, whatever they are, except where they are eleven:
  -- then the delay is looked for behind the last field, and the index is out of range.
  pub read_summary-panic :
      (iface : Bytes) (fs : List Bytes)
      → 8 ≤ length fs
      → (read_summary Float zero_float parse_float iface fs ≡ summary_panic) ↔ (length fs ≡ 11)
  unfolding read_summary
  read_summary-panic iface fs h =
      let (a, at3) = get_elem?-some fs 3 (omega arith) in
      let (b, at5) = get_elem?-some fs 5 (omega arith) in
      let (c, at7) = get_elem?-some fs 7 (omega arith) in
      let read : read_summary Float zero_float parse_float iface fs
          ≡ both iface (leb 11 (length fs)) a b c (get_elem? fs 11) =
        rw (at3, at5, at7) refl in
      let panic = both-panic iface (leb 11 (length fs)) a b c (get_elem? fs 11) in
      (λ e. (eleven fs).0 (panic.0 (sym read ∙ e)), λ e. read ∙ panic.1 ((eleven fs).1 e))
