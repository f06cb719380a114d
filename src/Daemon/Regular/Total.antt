-- ===== src/Daemon/Regular/Total.antt =====
-- extractRegularMetrics (pkg/daemon/metrics.go) on lines with too few fields.
use np_linuxptp_daemon.Base.{
  ◌≤◌, ◌≡◌, refl, ap, Bool, true, false, not, ◌&&◌, ◌||◌, List, [], ◌∷◌, Option, some, arith, ltb,
  if◌then◌else◌, length,
}
use np_linuxptp_daemon.Strings.{Bytes, codes, bytes_eq, contains}
use np_linuxptp_daemon.Daemon.Ports.{Offsets, get_master, clock_real_time, from_index}
use np_linuxptp_daemon.Daemon.Render.{Iface}
use np_linuxptp_daemon.Daemon.Offsets.{offset_word, remove_first, replace_from}
use np_linuxptp_daemon.Daemon.Regular.{
  Regular, read_regular, with_offsets, check_fields, in_order, extract_regular_metrics, fields_at,
  text_at,
}

module _ (Float : Type 0) (zero_float : Float) (parse_float : Bytes → Float × Bool) where
  abbrev IsRead {ℓ} : {A : Type ℓ} → Option A → Type ℓ
  IsRead {A = A} o = (a : A) × (o ≡ some a)

  either-IsRead {ℓ} :
      {A : Type ℓ} (b : Bool) (o p : Option A)
      → IsRead o
      → (b ≡ false → IsRead p)
      → IsRead (if b then o else p)
  either-IsRead true o p h k = h
  either-IsRead false o p h k = k refl

  read_regular-IsRead :
      (is_ts2phc : Bool) (output alias : Bytes) (fs : List Bytes)
      → 7 ≤ length fs
      → IsRead (read_regular Float zero_float parse_float is_ts2phc output alias fs)
  unfolding read_regular
  read_regular-IsRead t output alias (f0 ∷ f1 ∷ f2 ∷ f3 ∷ f4 ∷ f5 ∷ f6 ∷ fs) h =
      either-IsRead (not (bytes_eq f2 offset_word)) _ _ (_, refl)
        (λ in_place.
          either-IsRead (not (bytes_eq f1 clock_real_time) && not (bytes_eq f1 (codes "master"))) _
            _ (_, refl) (λ known. (_, refl)))
  read_regular-IsRead t output alias [] h = absurd (omega arith)
  read_regular-IsRead t output alias (f0 ∷ []) h = absurd (omega arith)
  read_regular-IsRead t output alias (f0 ∷ f1 ∷ []) h = absurd (omega arith)
  read_regular-IsRead t output alias (f0 ∷ f1 ∷ f2 ∷ []) h = absurd (omega arith)
  read_regular-IsRead t output alias (f0 ∷ f1 ∷ f2 ∷ f3 ∷ []) h = absurd (omega arith)
  read_regular-IsRead t output alias (f0 ∷ f1 ∷ f2 ∷ f3 ∷ f4 ∷ []) h = absurd (omega arith)
  read_regular-IsRead t output alias (f0 ∷ f1 ∷ f2 ∷ f3 ∷ f4 ∷ f5 ∷ []) h = absurd (omega arith)

  check_fields-IsRead :
      (config : Bytes) (is_ts2phc : Bool) (output : Bytes) (fs : List Bytes) (o : Offsets)
      → IsRead (check_fields Float zero_float parse_float config is_ts2phc output (fs, o))
  check_fields-IsRead config t output fs o =
      either-IsRead (ltb (length fs) 7) _ _ (_, refl)
        (λ enough.
          let (r, read) =
            read_regular-IsRead t output ((get_master config o).alias) fs (ground arith) in
          ((r, o), ap (with_offsets Float zero_float parse_float o) read))

  -- Every line is read without a panic, whatever its fields are and whichever process it comes from:
  -- the results are those of an error, of a line without an offset, or of one that was read.
  pub extract_regular_metrics-total :
      (config process output : Bytes) (ifaces : List Iface) (o : Offsets)
      → (r : Regular Float zero_float parse_float) × (p : Offsets) × (extract_regular_metrics Float
            zero_float parse_float config process output ifaces o
          ≡ some (r, p))
  unfolding extract_regular_metrics
  extract_regular_metrics-total config process output ifaces o =
      let found = from_index (replace_from 0 (remove_first (codes "path") output)) config in
      let fs = fields_at found in
      let is_ts2phc = bytes_eq process (codes "ts2phc") in
      let ordered = if is_ts2phc then in_order config ifaces o fs else (fs, o) in
      let ((r, p), read) =
        either-IsRead (not (contains output offset_word) || ltb (length fs) 7) _ _ (_, refl)
          (λ long. check_fields-IsRead config is_ts2phc (text_at found) (ordered.0) (ordered.1)) in
      (r, p, read)
