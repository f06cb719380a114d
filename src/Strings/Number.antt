-- ===== src/Strings/Number.antt =====
-- `strconv.ParseInt`, `strconv.Atoi` and `fmt.Sprint` on integers, base ten.
use np_linuxptp_daemon.Base.{
  ℕ, zero, suc, ◌+◌, ◌-◌, ◌*◌, ◌/◌, ◌%◌, ◌^◌, ◌≤◌, ◌<◌, ◌≡◌, refl, ap, ◌∙◌, ◌≢◌, Bool, true, false,
  ◌||◌, [], ◌∷◌, Option, none, some, arith, ◌==◌, min, ltb, leb, if◌then◌else◌, All,
}
use np_linuxptp_daemon.Base.Int.{ℤ, pos, negsuc, sub_ℕ}
use np_linuxptp_daemon.Strings.{Bytes, is_space}
use np_linuxptp_daemon.Strings.Fields.{IsSolid, IsWord}

-- The number that digits spell behind `n`, with no bound.
unfoldable pub scan : Bytes → ℕ → Option ℕ
scan [] n = some n
scan (c ∷ s) n =
    let rest = scan s (n * 10 + (c - b'0')) in if ltb c b'0' || ltb b'9' c then none else rest

abbrev bounded : ℕ → (ℕ → ℤ) → Option ℕ → Option ℤ
bounded most sign none = none
bounded most sign (some n) = if leb n most then some (sign n) else none

abbrev pub negative : ℕ → ℤ
negative n = sub_ℕ 0 n

-- The digits behind a sign: there must be one.
unfoldable pub parse_nat : Bytes → Option ℕ
unfolding scan
parse_nat [] = none
parse_nat (c ∷ s) = scan (c ∷ s) 0

-- `strconv.ParseInt(s, 10, bits)`; `Atoi` is the one of 64 bits. A number out of range is an error.
unfoldable pub parse_int : ℕ → Bytes → Option ℤ
unfolding parse_nat
parse_int bits [] = none
parse_int bits (c ∷ s) =
    if c == b'-'
    then bounded (2 ^ (bits - 1)) negative (parse_nat s)
    else if c == b'+'
    then bounded (2 ^ (bits - 1) - 1) pos (parse_nat s)
    else bounded (2 ^ (bits - 1) - 1) pos (parse_nat (c ∷ s))

-- The digits of `n` in front of `out`; the fuel is more than `n`.
digits : ℕ → ℕ → Bytes → Bytes
digits zero n out = out
digits (suc fuel) n out =
    let more = digits fuel (n / 10) ((b'0' + n % 10) ∷ out) in if n == 0 then out else more

unfoldable pub format_nat : ℕ → Bytes
unfolding digits
format_nat n = if n == 0 then b'0' ∷ [] else digits (suc n) n []

unfoldable pub format_int : ℤ → Bytes
unfolding format_nat
format_int (pos n) = format_nat n
format_int (negsuc n) = b'-' ∷ format_nat (suc n)

scan_digit : (n : ℕ) (out : Bytes) → scan ((b'0' + n % 10) ∷ out) (n / 10) ≡ scan out n
unfolding scan
scan_digit n out = ground arith

scan-digits : (fuel n : ℕ) (out : Bytes) → n < fuel → scan (digits fuel n out) 0 ≡ scan out n
unfolding digits
scan-digits zero n out h = elim h [ ]
scan-digits (suc fuel) n out h =
    ground (arith, scan-digits fuel (n / 10) ((b'0' + n % 10) ∷ out), scan_digit n out)

abbrev pub IsDigit : ℕ → Type 0
IsDigit c = (b'0' ≤ c) × (c ≤ b'9')

digits-IsDigit : (fuel n : ℕ) (out : Bytes) → All IsDigit out → All IsDigit (digits fuel n out)
unfolding digits
digits-IsDigit zero n out h = h
digits-IsDigit (suc fuel) n out h =
    ground
      (arith, digits-IsDigit fuel (n / 10) ((b'0' + n % 10) ∷ out) ((omega arith, omega arith), h))

pub format_nat-IsDigit : (n : ℕ) → All IsDigit (format_nat n)
unfolding format_nat
format_nat-IsDigit n = ground (arith, digits-IsDigit (suc n) n [] tt)

digits-ne-nil : (fuel n : ℕ) (c : ℕ) (out : Bytes) → digits fuel n (c ∷ out) ≢ []
unfolding digits
digits-ne-nil zero n c out = λ h. cc
digits-ne-nil (suc fuel) n c out =
    ground (arith, digits-ne-nil fuel (n / 10) (b'0' + n % 10) (c ∷ out))

pub format_nat-ne-nil : (n : ℕ) → format_nat n ≢ []
unfolding format_nat digits
format_nat-ne-nil n = ground (arith, digits-ne-nil n (n / 10) (b'0' + n % 10) [])

scan-format_nat : (n : ℕ) → scan (format_nat n) 0 ≡ some n
unfolding format_nat scan
scan-format_nat n = ground (arith, scan-digits (suc n) n [])

parse_nat-scan : (s : Bytes) → s ≢ [] → parse_nat s ≡ scan s 0
unfolding parse_nat
parse_nat-scan [] h = absurd (h refl)
parse_nat-scan (c ∷ s) h = refl

pub parse_nat-format_nat : (n : ℕ) → parse_nat (format_nat n) ≡ some n
parse_nat-format_nat n = parse_nat-scan (format_nat n) (format_nat-ne-nil n) ∙ scan-format_nat n

parse_int-IsDigit :
    (bits : ℕ) (s : Bytes)
    → s ≢ []
    → All IsDigit s
    → parse_int bits s ≡ bounded (2 ^ (bits - 1) - 1) pos (parse_nat s)
unfolding parse_int
parse_int-IsDigit bits [] h digit = absurd (h refl)
parse_int-IsDigit bits (c ∷ s) h digit = ground arith

-- The range of a signed integer.
abbrev pub Fits : ℕ → ℤ → Type 0
Fits bits (pos n) = n ≤ 2 ^ (bits - 1) - 1
Fits bits (negsuc n) = suc n ≤ 2 ^ (bits - 1)

-- Every integer that fits is read back from its print.
pub parse_int-format_int : (bits : ℕ) (z : ℤ) → Fits bits z → parse_int bits (format_int z) ≡ some z
unfolding format_int
parse_int-format_int bits (pos n) fits =
    parse_int-IsDigit bits (format_nat n) (format_nat-ne-nil n) (format_nat-IsDigit n)
    ∙ rw (parse_nat-format_nat n) (ground arith)
parse_int-format_int bits (negsuc n) fits =
    unfold parse_int in rw (parse_nat-format_nat (suc n)) (ground arith)

IsDigit-IsSolid : (s : Bytes) → All IsDigit s → IsSolid s
unfolding is_space
IsDigit-IsSolid [] h = tt
IsDigit-IsSolid (c ∷ s) h = (ground arith, IsDigit-IsSolid s h.1)

pub format_nat-IsWord : (n : ℕ) → IsWord (format_nat n)
format_nat-IsWord n = (format_nat-ne-nil n, IsDigit-IsSolid (format_nat n) (format_nat-IsDigit n))

pub format_int-IsWord : (z : ℤ) → IsWord (format_int z)
unfolding format_int is_space
format_int-IsWord (pos n) = format_nat-IsWord n
format_int-IsWord (negsuc n) = (λ h. cc, (refl, (format_nat-IsWord (suc n)).1))

-- The digits go past `most` before a byte that is no digit.
scan_over : ℕ → Bytes → ℕ → Bool
scan_over most [] n = ltb most n
scan_over most (c ∷ s) n =
    let rest = scan_over most s (n * 10 + (c - b'0')) in
    if ltb most n then true else if ltb c b'0' || ltb b'9' c then false else rest

-- What `strconv.ParseUint(s, 10, bits)` returns, also with an error: the greatest value where the
-- digits are too many, and zero else.
abbrev or_over : ℕ → Bytes → Option ℕ → ℕ
or_over most s none = if scan_over most s 0 then most else 0
or_over most s (some n) = min n most

unfoldable pub uint_value : ℕ → Bytes → ℕ
unfolding parse_nat scan_over
uint_value bits s = or_over (2 ^ bits - 1) s (parse_nat s)

abbrev in_range : ℕ → Option ℕ → Option ℕ
in_range bits none = none
in_range bits (some n) = if ltb n (2 ^ bits) then some n else none

-- `strconv.ParseUint(s, 10, bits)`, none on an error
unfoldable pub parse_uint : ℕ → Bytes → Option ℕ
unfolding parse_nat
parse_uint bits s = in_range bits (parse_nat s)

-- What `strconv.ParseInt(s, 10, bits)` returns, also with an error: the end of the range where the
-- value lies outside, and zero for what is no number.
abbrev to_sign : ℕ → (ℕ → ℤ) → ℕ → ℤ
to_sign most sign n = sign (min n most)

unfoldable pub int_value : ℕ → Bytes → ℤ
unfolding uint_value
int_value bits [] = pos 0
int_value bits (c ∷ s) =
    if c == b'-'
    then to_sign (2 ^ (bits - 1)) negative (uint_value bits s)
    else if c == b'+'
    then to_sign (2 ^ (bits - 1) - 1) pos (uint_value bits s)
    else to_sign (2 ^ (bits - 1) - 1) pos (uint_value bits (c ∷ s))

pub uint_value-format_nat : (bits n : ℕ) → n ≤ 2 ^ bits - 1 → uint_value bits (format_nat n) ≡ n
unfolding uint_value
uint_value-format_nat bits n h = rw (parse_nat-format_nat n) (ground arith)

int_value-IsDigit :
    (bits : ℕ) (s : Bytes)
    → s ≢ []
    → All IsDigit s
    → int_value bits s ≡ to_sign (2 ^ (bits - 1) - 1) pos (uint_value bits s)
unfolding int_value
int_value-IsDigit bits [] h digit = absurd (h refl)
int_value-IsDigit bits (c ∷ s) h digit = ground arith

negative-suc : (n : ℕ) → negative (suc n) ≡ negsuc n
negative-suc n = ground arith

-- Every integer that fits is the value of its print.
pub int_value-format_int :
    (bits : ℕ) (z : ℤ)
    → 2 ^ (bits - 1) ≤ 2 ^ bits - 1
    → Fits bits z
    → int_value bits (format_int z) ≡ z
unfolding format_int
int_value-format_int bits (pos n) room fits =
    int_value-IsDigit bits (format_nat n) (format_nat-ne-nil n) (format_nat-IsDigit n)
    ∙ rw (uint_value-format_nat bits n (omega arith)) (ground arith)
int_value-format_int bits (negsuc n) room fits =
    unfold int_value in
    rw (uint_value-format_nat bits (suc n) (omega arith))
      (ap negative (ground arith) ∙ negative-suc n)
